-- ===== src/Store/Timers.antt =====
-- The timer methods of HistoryStore (service/history/store.py), one action each. The lock makes
-- each of them one step; a commit is the state that the action returns.
pub mod Locate
pub mod Phase
pub mod Refinement
pub mod Elapsed
pub mod Frame
pub mod Tidy
pub mod Expiry
pub mod History
use igrill_remote_server.Prelude.{
  ℕ, ◌+◌, ◌-◌, ◌/◌, ℤ, String, Bool, true, false, not, ◌&&◌, Option, none, some, List, [], ◌∷◌,
  ◌++◌, leb_ℤ, eq_ℤ, str_eq, is_truthy, is_some, is_none, if◌then◌else◌, first_where, any_where,
  select_where, update_where,
}
use igrill_remote_server.Prelude
use igrill_remote_server.Action.{
  Action, Error, ok, err, pure, raise, gets, modify, ◌>>=◌, ◌>>◌, invalid_mode, inactive_session,
  no_such_session, no_such_timer, timer_completed, assertion_error,
}
use igrill_remote_server.Clock.{Iso, now_iso_utc, parse_iso}
use igrill_remote_server.Store.{Store, Session, Timer, TimerMode, count_up, count_down}

-- WHERE session_id = ? AND address = ? AND probe_index = ?
abbrev pub timer_key : String → String → ℤ → Timer → Bool
timer_key sid addr idx t =
    str_eq t.session_id sid && str_eq t.address addr && eq_ℤ t.probe_index idx

abbrev pub is_running : Timer → Bool
is_running t = is_some t.started_at && is_none t.paused_at

abbrev pub is_current : Option String → String → Bool
is_current none sid = false
is_current (some c) sid = str_eq c sid

-- The mode argument of `upsert_timer`, `none` where it raises.
abbrev pub timer_mode : String → Option TimerMode
timer_mode mode =
    if str_eq mode "count_up"
    then some count_up
    else if str_eq mode "count_down"
    then some count_down
    else none

-- The values of an INSERT, and of the reset of an existing row.
abbrev pub fresh_timer : String → String → ℤ → TimerMode → Option ℤ → Timer
fresh_timer sid addr idx mode duration_secs = record {
  session_id = sid;
  address = addr;
  probe_index = idx;
  mode = mode;
  duration_secs = duration_secs;
  started_at = none;
  paused_at = none;
  accumulated_secs = 0;
  completed_at = none;
}

abbrev pub reset_fields : Timer → Timer
reset_fields t = record t {
  started_at = none;
  paused_at = none;
  accumulated_secs = 0;
  completed_at = none;
}

-- The SET clauses of the UPDATE statements.
unfoldable pub set_running : String → Timer → Timer
set_running now_ts t = record t { started_at = some now_ts; paused_at = none }

unfoldable pub set_paused : String → ℕ → Timer → Timer
set_paused now_ts new_accum t = record t {
  paused_at = some now_ts;
  started_at = none;
  accumulated_secs = new_accum;
}

unfoldable pub set_stopped : String → String → ℕ → Timer → Timer
set_stopped completed_at now_ts new_accum t = record t {
  completed_at = some completed_at;
  paused_at = some now_ts;
  started_at = none;
  accumulated_secs = new_accum;
}

unfoldable pub set_completed : String → Timer → Timer
set_completed completed_at t = record t { completed_at = some completed_at }

unfoldable pub set_terminal : String → String → Timer → Timer
set_terminal completed_at now_ts t = record t {
  completed_at = some completed_at;
  paused_at = some now_ts;
}

-- `row["completed_at"] if row["completed_at"] else now_ts`
abbrev pub or_now : Option String → String → String
or_now none now_ts = now_ts
or_now (some ts) now_ts = if is_truthy ts then ts else now_ts

-- `max(0, int((now_dt - started_dt).total_seconds()))`, 0 where a timestamp does not parse.
unfoldable pub elapsed_secs : Iso → String → Option String → ℕ
elapsed_secs I now_ts none = 0
elapsed_secs I now_ts (some started) = elim (parse_iso I now_ts) [
  | none ↦ 0
  | some now_dt ↦ elim (parse_iso I started) [
    | none ↦ 0
    | some started_dt ↦ (now_dt - started_dt) / 1000000
  ]
]

module _ {T : Type 0} where
  unfoldable pub fetch_timer : String → String → ℤ → Store T → Option Timer
  fetch_timer sid addr idx s = first_where (timer_key sid addr idx) s.session_timers

  unfoldable pub require_active_session : String → Action (Store T) (Unit {0})
  require_active_session sid s =
      (if is_current s.current_session_id sid then ok tt else err inactive_session, s)

  -- `raise ValueError("Timer not found ...")`, and `assert row is not None`.
  abbrev pub or_raise : Error → Option Timer → Action (Store T) Timer
  or_raise e none = raise e
  or_raise e (some row) = pure row

  -- The first lines of each timer method.
  unfoldable pub require_timer : String → String → ℤ → Action (Store T) Timer
  unfolding require_active_session
  require_timer sid addr idx = do
    require_active_session sid
    row ← gets (fetch_timer sid addr idx)
    or_raise no_such_timer row

  -- UPDATE session_timers SET f WHERE session_id = ? AND address = ? AND probe_index = ?
  unfoldable pub update_timer : String → String → ℤ → (Timer → Timer) → Store T → Store T
  update_timer sid addr idx f s = record s {
    db = record s.db { session_timers = update_where (timer_key sid addr idx) f s.session_timers };
  }

  -- The last lines: UPDATE, commit, fetch again.
  unfoldable pub write_timer : String → String → ℤ → (Timer → Timer) → Action (Store T) Timer
  write_timer sid addr idx f = do
    modify (update_timer sid addr idx f)
    row ← gets (fetch_timer sid addr idx)
    or_raise assertion_error row

  -- INSERT ... ON CONFLICT DO UPDATE
  unfoldable pub put_timer : Timer → Store T → Store T
  put_timer t s =
      let key = timer_key t.session_id t.address t.probe_index in
      record s {
        db = record s.db {
          session_timers =
              if any_where key s.session_timers
              then update_where key
                  (λ r. reset_fields (record r { mode = t.mode; duration_secs = t.duration_secs }))
                  s.session_timers
              else s.session_timers ++ t ∷ [];
        };
      }

  unfoldable pub upsert_timer : String → String → ℤ → String → Option ℤ → Action (Store T) Timer
  unfolding require_active_session put_timer
  upsert_timer sid addr idx mode duration_secs = elim (timer_mode mode) [
    | none ↦ raise invalid_mode
    | some m ↦ do
      require_active_session sid
      known ← gets (λ s. any_where (λ (r : Session). str_eq r.id sid) s.sessions)
      if known
          then (do
            modify (put_timer (fresh_timer sid addr idx m duration_secs))
            row ← gets (fetch_timer sid addr idx)
            or_raise assertion_error row)
          else raise no_such_session
  ]

module _ {T : Type 0} (I : Iso) (now : ℕ) where
  unfoldable pub start_timer : String → String → ℤ → Action (Store T) Timer
  start_timer sid addr idx = do
    row ← require_timer sid addr idx
    if is_some row.completed_at
        then raise timer_completed
        else if is_running row
        then pure row
        else write_timer sid addr idx (set_running (now_iso_utc I now))

  unfoldable pub pause_timer : String → String → ℤ → Action (Store T) Timer
  pause_timer sid addr idx = do
    row ← require_timer sid addr idx
    let now_ts = now_iso_utc I now
    let new_accum = row.accumulated_secs + elapsed_secs I now_ts row.started_at
    if not (is_running row)
        then pure row
        else write_timer sid addr idx (set_paused now_ts new_accum)

  unfoldable pub resume_timer : String → String → ℤ → Action (Store T) Timer
  resume_timer sid addr idx = do
    row ← require_timer sid addr idx
    if is_some row.completed_at
        then raise timer_completed
        else if is_none row.paused_at
        then pure row
        else write_timer sid addr idx (set_running (now_iso_utc I now))

  unfoldable pub complete_timer : String → String → ℤ → Action (Store T) Timer
  complete_timer sid addr idx = do
    row ← require_timer sid addr idx
    let now_ts = now_iso_utc I now
    let completed_at = or_now row.completed_at now_ts
    let new_accum = row.accumulated_secs + elapsed_secs I now_ts row.started_at
    if is_running row
        then write_timer sid addr idx (set_stopped completed_at now_ts new_accum)
        else if is_some row.paused_at
        then write_timer sid addr idx (set_completed completed_at)
        else write_timer sid addr idx (set_terminal completed_at now_ts)

module _ {T : Type 0} where
  unfoldable pub reset_timer : String → String → ℤ → Action (Store T) Timer
  reset_timer sid addr idx = do require_timer sid addr idx; write_timer sid addr idx reset_fields

abbrev pub is_count_down : TimerMode → Bool
is_count_down count_up = false
is_count_down count_down = true

-- The SQL filter of `find_expired_running_countdowns`.
abbrev pub is_candidate : Timer → Bool
is_candidate r =
    is_count_down r.mode
    && is_some r.started_at
    && is_none r.paused_at
    && is_none r.completed_at
    && is_some r.duration_secs

abbrev pub reaches : Option ℤ → ℕ → Bool
reaches none n = false
reaches (some d) n = leb_ℤ d (Prelude.pos n)

-- The comparison in Python; a row whose `started_at` does not parse is skipped.
abbrev pub is_due : Iso → ℕ → Timer → Bool
is_due I now_dt r = elim r.started_at [
  | none ↦ false
  | some started ↦ elim (parse_iso I started) [
    | none ↦ false
    | some started_dt ↦
        reaches r.duration_secs (r.accumulated_secs + (now_dt - started_dt) / 1000000)
  ]
]

unfoldable pub find_expired_running_countdowns : {T : Type 0} → Iso → ℕ → Store T → List Timer
find_expired_running_countdowns I now s = elim (parse_iso I (now_iso_utc I now)) [
  | none ↦ []
  | some now_dt ↦ select_where (is_due I now_dt) (select_where is_candidate s.session_timers)
]
