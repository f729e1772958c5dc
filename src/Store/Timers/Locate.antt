-- ===== src/Store/Timers/Locate.antt =====
-- What the shared first and last lines of the timer methods do: the guard on the active session,
-- the fetch of the row, and the UPDATE with the second fetch.
use mathlib.Core.Option
use igrill_remote_server.Prelude.{
  ℤ, String, ◌≡◌, ◌≢◌, refl, true, false, ◌⊎◌, Option, some, none, arith, str_eq_refl, eq_iff,
  eq_ℤ_iff, first_where-update_where,
}
use igrill_remote_server.Action.{ok, err, inactive_session, no_such_timer}
use igrill_remote_server.Store.{Store, Timer}
use igrill_remote_server.Store.Timers.{
  timer_key, is_current, fetch_timer, require_active_session, require_timer, update_timer,
  write_timer,
}

pub is_current_iff :
    (cur : Option String) (sid : String) → is_current cur sid ≡ true → cur ≡ some sid
is_current_iff none sid h = cc
is_current_iff (some c) sid h = ground (arith, eq_iff c sid)

-- Two keys that differ select no row in common.
pub timer_key_ne :
    (sid addr sid' addr' : String) (idx idx' : ℤ) (t : Timer)
    → (sid ≢ sid') ⊎ ((addr ≢ addr') ⊎ (idx ≢ idx'))
    → timer_key sid addr idx t ≡ true
    → timer_key sid' addr' idx' t ≡ false
timer_key_ne sid addr sid' addr' idx idx' t ne h = ground (
  arith,
  eq_iff t.session_id sid,
  eq_iff t.session_id sid',
  eq_iff t.address addr,
  eq_iff t.address addr',
  eq_ℤ_iff t.probe_index idx,
  eq_ℤ_iff t.probe_index idx',
)

module _ {T : Type 0} (sid addr : String) (idx : ℤ) (s : Store T) where
  pub require_timer-inactive :
      is_current s.current_session_id sid ≡ false
      → require_timer sid addr idx s ≡ (err inactive_session, s)
  unfolding require_timer
  require_timer-inactive h = ground arith

  module _ (active : s.current_session_id ≡ some sid) where
    pub require_timer_active : (require_active_session sid s) ≡ (ok tt, s)
    unfolding require_active_session
    require_timer_active = rw (active, str_eq_refl) refl

    pub require_timer-missing :
        fetch_timer sid addr idx s ≡ none → require_timer sid addr idx s ≡ (err no_such_timer, s)
    unfolding require_timer
    require_timer-missing h = ground (arith, str_eq_refl sid)

    pub require_timer-found :
        (row : Timer)
        → fetch_timer sid addr idx s ≡ some row
        → require_timer sid addr idx s ≡ (ok row, s)
    unfolding require_timer
    require_timer-found row h = ground (arith, str_eq_refl sid)

module _ {T : Type 0} (sid addr : String) (idx : ℤ) (f : Timer → Timer) (s : Store T) where
  pub fetch_timer-update_timer :
      ((t : Timer) → timer_key sid addr idx (f t) ≡ timer_key sid addr idx t)
      → fetch_timer sid addr idx (update_timer sid addr idx f s)
        ≡ Option.map f (fetch_timer sid addr idx s)
  unfolding fetch_timer update_timer
  fetch_timer-update_timer keep =
      first_where-update_where (timer_key sid addr idx) f s.session_timers keep

  pub write_timer-run :
      ((t : Timer) → timer_key sid addr idx (f t) ≡ timer_key sid addr idx t)
      → (row : Timer) → fetch_timer sid addr idx s ≡ some row
      → write_timer sid addr idx f s ≡ (ok (f row), update_timer sid addr idx f s)
  unfolding write_timer
  write_timer-run keep row h = rw (fetch_timer-update_timer keep, h) refl
