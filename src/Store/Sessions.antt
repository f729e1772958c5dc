-- ===== src/Store/Sessions.antt =====
-- The session life cycle of HistoryStore (service/history/store.py).
pub mod Soundness
pub mod Discard
pub mod Recovery
pub mod Reach
use mathlib.Core.Option
use igrill_remote_server.Prelude.{
  ℕ, suc, zero, ◌<◌, ℤ, String, Bool, true, false, not, ◌&&◌, fits_given, ◌==◌, Option, none, some,
  List, [], ◌∷◌, ◌++◌, str_eq, is_truthy, text_ltb, is_some, is_none, if◌then◌else◌, first_where,
  any_where, select_where, update_where, delete_where,
}
use igrill_remote_server.Action.{
  Action, Error, Result, ok, err, pure, raise, gets, modify, ◌>>=◌, ◌>>◌, database_error,
  overflow_error, integrity_error,
}
use igrill_remote_server.Clock.{Iso, now_iso_utc, parse_iso, whole_seconds}
use igrill_remote_server.Store.{
  Store, Db, Session, SessionDevice, ProbeReading, DeviceReading, SessionTarget, Timer, Note,
}
use igrill_remote_server.Store.Devices.{session_is, register_device_locked, join_session, given}

pub record EndEvent : Type 0 where
  pub session_id : String
  pub session_end_ts : String
  pub reason : String
  pub duration_seconds : Option ℤ

pub record StartEvent : Type 0 where
  pub session_id : String
  pub session_start_ts : String
  pub reason : String
  pub name : Option String
  pub devices : List String
  pub target_duration_secs : Option ℤ

pub record SessionInfo : Type 0 where
  pub session_id : String
  pub session_start_ts : String
  pub target_duration_secs : Option ℤ
  pub start_event : StartEvent
  pub end_event : Option EndEvent

-- `duration_seconds`: None where a timestamp is missing, empty or does not parse.
unfoldable pub session_seconds : Iso → Option String → String → Option ℤ
session_seconds I none now_ts = none
session_seconds I (some start_ts) now_ts =
    if is_truthy start_ts
    then elim (parse_iso I start_ts) [
      | none ↦ none
      | some start_dt ↦ elim (parse_iso I now_ts) [
        | none ↦ none
        | some end_dt ↦ some (whole_seconds end_dt start_dt)
      ]
    ]
    else none

unfoldable pub end_row : String → String → Session → Session
end_row now_ts reason r = record r { ended_at = some now_ts; end_reason = some reason }

module _ {T : Type 0} where
  -- UPDATE sessions SET ended_at, end_reason WHERE id = ?
  unfoldable pub close_row : String → String → String → Store T → Store T
  close_row now_ts reason sid s = record s {
    db = record s.db {
      sessions = update_where (session_is sid) (end_row now_ts reason) s.sessions;
    };
  }

-- What `start_session` returns.
unfoldable pub start_info :
    Iso
    → ℕ
    → String
    → List String
    → String
    → Option String
    → Option ℤ
    → Option EndEvent
    → SessionInfo
start_info I now sid addresses reason name target end_event = record {
  session_id = sid;
  session_start_ts = now_iso_utc I now;
  target_duration_secs = target;
  start_event = record {
    session_id = sid;
    session_start_ts = now_iso_utc I now;
    reason = reason;
    name = name;
    devices = addresses;
    target_duration_secs = target;
  };
  end_event = end_event;
}

module _ {T : Type 0} (I : Iso) (now : ℕ) where
  -- `_end_session_locked`
  unfoldable pub end_session_locked : String → Store T → Option EndEvent × Store T
  unfolding close_row
  end_session_locked reason s = elim s.current_session_id [
    | none ↦ (none, s)
    | some sid ↦
        let now_ts = now_iso_utc I now in
        (
          some (record {
            session_id = sid;
            session_end_ts = now_ts;
            reason = reason;
            duration_seconds = session_seconds I s.current_session_start_ts now_ts;
          }),
          record (close_row now_ts reason sid s) {
            last_session_id = some sid;
            current_session_id = none;
            current_session_start_ts = none;
          },
        )
  ]

  -- The loop of `start_session` over the addresses.
  unfoldable pub join_all : String → List String → Store T → Store T
  join_all sid [] s = s
  join_all sid (addr ∷ addrs) s =
      join_all sid addrs
        (join_session I now sid addr (register_device_locked I now addr none none s))

  -- The row of INSERT INTO sessions.
  unfoldable pub add_session : String → String → Option String → Option ℤ → Store T → Store T
  add_session sid reason name target s = record s {
    db = record s.db {
      sessions =
          s.sessions
          ++ record {
            id = sid;
            started_at = now_iso_utc I now;
            ended_at = none;
            start_reason = reason;
            end_reason = none;
            name = name;
            notes = none;
            target_duration_secs = target;
          }
            ∷ [];
    };
  }

  -- INSERT INTO sessions: OverflowError where the duration cannot be bound, and the primary key.
  unfoldable pub insert_session :
      String → String → Option String → Option ℤ → Action (Store T) (Unit {0})
  unfolding add_session
  insert_session sid reason name target s =
      if not (fits_given target)
      then (err overflow_error, s)
      else if any_where (session_is sid) s.sessions
      then (err integrity_error, s)
      else (ok tt, add_session sid reason name target s)

  -- The joins and the fields of the object, after the INSERT.
  unfoldable pub open_session : String → List String → Store T → Store T
  unfolding join_all
  open_session sid addresses s = record (join_all sid addresses s) {
    current_session_id = some sid;
    current_session_start_ts = some (now_iso_utc I now);
  }

  unfoldable pub finish_start :
      String
      → List String
      → SessionInfo
      → Result (Unit {0}) × Store T
      → Result SessionInfo × Store T
  unfolding open_session
  finish_start sid addresses info (err e, s) = (err e, s)
  finish_start sid addresses info (ok u, s) = (ok info, open_session sid addresses s)

  -- `start_session`; the fresh uuid is the argument `sid`.
  unfoldable pub start_session :
      String → List String → String → Option String → Option ℤ → Action (Store T) SessionInfo
  unfolding end_session_locked insert_session finish_start start_info
  start_session sid addresses reason name target s =
      let (end_event, ended) = end_session_locked reason s in
      finish_start sid addresses (start_info I now sid addresses reason name target end_event)
        (insert_session sid reason name target ended)

-- The statements between BEGIN and COMMIT of `_discard_session_locked`, in order.
unfoldable pub discard_statements : {T : Type 0} → String → List (Db T → Db T)
discard_statements sid =
    (λ d. record d {
      probe_readings = delete_where (λ r. str_eq r.session_id sid) d.probe_readings;
    })
    ∷ (λ d. record d {
      device_readings = delete_where (λ r. str_eq r.session_id sid) d.device_readings;
    })
    ∷ (λ d. record d {
      session_targets = delete_where (λ r. str_eq r.session_id sid) d.session_targets;
    })
    ∷ (λ d. record d {
      session_devices = delete_where (λ r. str_eq r.session_id sid) d.session_devices;
    })
    ∷ (λ d. record d {
      session_timers = delete_where (λ r. str_eq r.session_id sid) d.session_timers;
    })
    ∷ (λ d. record d {
      session_notes = delete_where (λ r. str_eq r.session_id sid) d.session_notes;
    })
    ∷ (λ d. record d { sessions = delete_where (session_is sid) d.sessions })
    ∷ []

-- Statements in one transaction. `fault` is the number of statements that succeed before the
-- database raises, the COMMIT counted last; `none` is the exception, after which ROLLBACK puts
-- the tables back.
unfoldable pub transaction : {D : Type 0} → Option ℕ → List (D → D) → D → Option D
transaction none [] d = some d
transaction none (st ∷ sts) d = transaction none sts (st d)
transaction (some n) [] d = if n == 0 then none else some d
transaction (some zero) (st ∷ sts) d = none
transaction (some (suc n)) (st ∷ sts) d = transaction (some n) sts (st d)

abbrev pub forget : String → Option String → Option String
forget sid none = none
forget sid (some x) = if str_eq x sid then none else some x

abbrev pub forget_with : String → Option String → Option String → Option String
forget_with sid none start_ts = start_ts
forget_with sid (some x) start_ts = if str_eq x sid then none else start_ts

module _ {T : Type 0} (fault : Option ℕ) where
  -- `_discard_session_locked`, where no transaction is open before it: the rowcount is read before
  -- the COMMIT.
  unfoldable pub discard_session_locked : String → Action (Store T) Bool
  discard_session_locked sid s = elim (transaction fault (discard_statements sid) s.db) [
    | none ↦ (err database_error, s)
    | some d ↦ (
      ok (any_where (session_is sid) s.sessions),
      record s {
        db = d;
        current_session_id = forget sid s.current_session_id;
        current_session_start_ts = forget_with sid s.current_session_id s.current_session_start_ts;
        last_session_id = forget sid s.last_session_id;
      },
    )
  ]

  unfoldable pub discard_session : String → Action (Store T) Bool
  unfolding discard_session_locked
  discard_session sid = discard_session_locked sid

  -- The dangling pointer is cleared where the row was not there.
  unfoldable pub discard_current_session : Action (Store T) (Option String)
  discard_current_session s = elim s.current_session_id [
    | none ↦ (ok none, s)
    | some sid ↦
        (do
          deleted ← discard_session_locked sid
          if deleted then pure (some sid) else (do
            modify (λ s. record s { current_session_id = none; current_session_start_ts = none })
            pure none))
          s
  ]

-- ORDER BY started_at DESC
abbrev pub insert_desc : Session → List Session → List Session
insert_desc r [] = r ∷ []
insert_desc r (x ∷ xs) =
    if text_ltb r.started_at x.started_at then x ∷ insert_desc r xs else r ∷ x ∷ xs

abbrev pub newest_first : List Session → List Session
newest_first [] = []
newest_first (x ∷ xs) = insert_desc x (newest_first xs)

abbrev pub is_open : Session → Bool
is_open r = is_none r.ended_at

module _ {T : Type 0} where
  -- `self._current_session_id = primary["id"]`, and the UPDATE that clears `left_at`.
  unfoldable pub resume_session : Session → Store T → Store T
  resume_session primary s = record s {
    db = record s.db {
      session_devices =
          update_where (λ m. str_eq m.session_id primary.id && is_some m.left_at)
            (λ m. record m { left_at = none }) s.session_devices;
    };
    current_session_id = some primary.id;
    current_session_start_ts = some primary.started_at;
  }

module _ {T : Type 0} (I : Iso) (now : ℕ) where
  -- The loop over `orphans[1:]`.
  unfoldable pub close_duplicates : List Session → Store T → Store T
  unfolding close_row
  close_duplicates [] s = s
  close_duplicates (r ∷ rs) s =
      close_duplicates rs (close_row (now_iso_utc I now) "server_restart_duplicate" r.id s)

  unfoldable pub adopt : List Session → Store T → Store T
  adopt [] s = s
  adopt (primary ∷ rest) s = close_duplicates rest (resume_session primary s)

  unfoldable pub recover_orphaned_sessions : Store T → Store T
  unfolding adopt close_duplicates resume_session
  recover_orphaned_sessions s = adopt (newest_first (select_where is_open s.sessions)) s

unfoldable pub set_given : Option String → Option String → Session → Session
set_given name notes r = record r { name = given name r.name; notes = given notes r.notes }

pub record SessionState : Type 0 where
  pub current_session_id : Option String
  pub current_session_start_ts : Option String
  pub last_session_id : Option String
  pub session_timeout_seconds : ℕ

module _ {T : Type 0} where
  unfoldable pub get_session_state : Store T → SessionState
  get_session_state s = record {
    current_session_id = s.current_session_id;
    current_session_start_ts = s.current_session_start_ts;
    last_session_id = s.last_session_id;
    session_timeout_seconds = s.reconnect_grace;
  }

  unfoldable pub is_session_active : Store T → Bool
  is_session_active s = is_some s.current_session_id

  unfoldable pub session_exists : String → Store T → Bool
  session_exists sid s = any_where (session_is sid) s.sessions

  unfoldable pub get_session_metadata : String → Store T → Option Session
  get_session_metadata sid s = first_where (session_is sid) s.sessions

  -- The UPDATE sets only the columns that are given.
  unfoldable pub update_session :
      String
      → Option String
      → Option String
      → Store T
      → Option (Option String × Option String) × Store T
  update_session sid name notes s =
      let s' : Store T = record s {
        db = record s.db {
          sessions = update_where (session_is sid) (set_given name notes) s.sessions;
        };
      } in
      elim (first_where (session_is sid) s.sessions) [
        | none ↦ (none, s)
        | some _ ↦ (
          Option.map (λ row. (row.name, row.notes)) (first_where (session_is sid) s'.sessions),
          s',
        )
      ]
