-- ===== src/Store/Timers/Frame.antt =====
-- The timer methods (service/history/store.py) and the rest of the store.
use igrill_remote_server.Prelude.{
  ℕ, ℤ, String, ◌≡◌, ◌≢◌, refl, ◌∙◌, Bool, true, false, ◌⊎◌, inl, inr, Option, some, none, List,
  if◌then◌else◌, first_where-update_where_ne, Option-cases, Bool-cases,
}
use igrill_remote_server.Action.{
  Action, Error, ok, err, ◌>>=◌, raise, pure, inactive_session, no_such_timer, assertion_error,
}
use igrill_remote_server.Clock.{Iso}
use igrill_remote_server.Store.{Store, Timer}
use igrill_remote_server.Store.Timers.{
  timer_key, is_current, fetch_timer, reset_fields, set_running, set_paused, set_stopped,
  set_completed, set_terminal, or_raise, require_timer, update_timer, write_timer, start_timer,
  pause_timer, resume_timer, reset_timer, complete_timer,
}
use igrill_remote_server.Store.Timers.Locate.{
  is_current_iff, require_timer-found, require_timer-missing, require_timer-inactive, timer_key_ne,
}
use igrill_remote_server.Store.Timers.Phase.{TimerOp, start, pause, resume, reset, complete, run_op}

abbrev pub with_timers : {T : Type 0} → Store T → List Timer → Store T
with_timers s ts = record s { db = record s.db { session_timers = ts } }

-- `s'` is `s`, or `s` with the rows of one key rewritten.
data Touches {T : Type 0} (sid addr : String) (idx : ℤ) (s s' : Store T) : Type 0 where
  same : s' ≡ s → Touches sid addr idx s s'
  rewritten :
      (f : Timer → Timer)
      → ((t : Timer) → timer_key sid addr idx (f t) ≡ timer_key sid addr idx t)
      → s' ≡ update_timer sid addr idx f s
      → Touches sid addr idx s s'

abbrev KeepsKey : (Timer → Timer) → Type 0
KeepsKey f =
    (sid addr : String) (idx : ℤ) (t : Timer)
    → timer_key sid addr idx (f t) ≡ timer_key sid addr idx t

set_running-key : (ts : String) → KeepsKey (set_running ts)
unfolding set_running
set_running-key ts sid addr idx t = refl

set_paused-key : (ts : String) (n : ℕ) → KeepsKey (set_paused ts n)
unfolding set_paused
set_paused-key ts n sid addr idx t = refl

set_stopped-key : (done ts : String) (n : ℕ) → KeepsKey (set_stopped done ts n)
unfolding set_stopped
set_stopped-key done ts n sid addr idx t = refl

set_completed-key : (done : String) → KeepsKey (set_completed done)
unfolding set_completed
set_completed-key done sid addr idx t = refl

set_terminal-key : (done ts : String) → KeepsKey (set_terminal done ts)
unfolding set_terminal
set_terminal-key done ts sid addr idx t = refl

or_raise-state : {T : Type 0} (e : Error) (o : Option Timer) (s : Store T) → (or_raise e o s).1 ≡ s
or_raise-state e none s = refl
or_raise-state e (some t) s = refl

module _ {T : Type 0} (sid addr : String) (idx : ℤ) (s : Store T) where
  require_timer-cases :
      ((row : Timer) × (require_timer sid addr idx s ≡ (ok row, s)))
      ⊎ ((e : Error) × (require_timer sid addr idx s ≡ (err e, s)))
  require_timer-cases = elim (Bool-cases (is_current s.current_session_id sid)) [
    | inr no_session ↦ inr (inactive_session, require_timer-inactive sid addr idx s no_session)
    | inl here ↦
        let active = is_current_iff s.current_session_id sid here in
        elim (Option-cases (fetch_timer sid addr idx s)) [
          | inl missing ↦ inr (no_such_timer, require_timer-missing sid addr idx s active missing)
          | inr (row, found) ↦ inl (row, require_timer-found sid addr idx s active row found)
        ]
  ]

  Touches-if :
      (b : Bool) (m n : Action (Store T) Timer)
      → Touches sid addr idx s (m s).1
      → Touches sid addr idx s (n s).1
      → Touches sid addr idx s ((if b then m else n) s).1
  Touches-if true m n hm hn = hm
  Touches-if false m n hm hn = hn

  Touches-write :
      (f : Timer → Timer)
      → ((t : Timer) → timer_key sid addr idx (f t) ≡ timer_key sid addr idx t)
      → Touches sid addr idx s (write_timer sid addr idx f s).1
  unfolding write_timer
  Touches-write f keep =
      rewritten f keep (or_raise-state assertion_error _ (update_timer sid addr idx f s))

  Touches-pure : (row : Timer) → Touches sid addr idx s (pure {S = Store T} row s).1
  Touches-pure row = same refl

  Touches-raise : (e : Error) → Touches sid addr idx s (raise {A = Timer} e s).1
  Touches-raise e = same refl

  ruleset touch_rules = (
    Touches-if, Touches-write, Touches-pure, Touches-raise, set_running-key, set_paused-key,
    set_stopped-key, set_completed-key, set_terminal-key,
  )

  run_op-Touches :
      (I : Iso) (now : ℕ) (op : TimerOp) → Touches sid addr idx s (run_op I now op sid addr idx s).1
  unfolding run_op start_timer pause_timer resume_timer reset_timer complete_timer
  run_op-Touches I now op = elim require_timer-cases [
    | inr (e, h) ↦ refused op e h
    | inl (row, h) ↦ allowed op row h
  ]
    where
      refused :
          (op : TimerOp) (e : Error)
          → require_timer sid addr idx s ≡ (err e, s)
          → Touches sid addr idx s (run_op I now op sid addr idx s).1
      refused start e h = same (simp (h, ◌>>=◌))
      refused pause e h = same (simp (h, ◌>>=◌))
      refused resume e h = same (simp (h, ◌>>=◌))
      refused reset e h = same (simp (h, ◌>>=◌))
      refused complete e h = same (simp (h, ◌>>=◌))

      allowed :
          (op : TimerOp) (row : Timer)
          → require_timer sid addr idx s ≡ (ok row, s)
          → Touches sid addr idx s (run_op I now op sid addr idx s).1
      allowed start row h = simp (h, ◌>>=◌) (search touch_rules)
      allowed pause row h = simp (h, ◌>>=◌) (search touch_rules)
      allowed resume row h = simp (h, ◌>>=◌) (search touch_rules)
      allowed reset row h = simp (h, ◌>>=◌) (Touches-write reset_fields (λ t. refl))
      allowed complete row h = simp (h, ◌>>=◌) (search touch_rules)

  Touches-frame :
      (s' : Store T)
      → Touches sid addr idx s s'
      → (s' ≡ with_timers s s'.session_timers)
        × ((sid' addr' : String) (idx' : ℤ)
            → (sid ≢ sid') ⊎ ((addr ≢ addr') ⊎ (idx ≢ idx'))
            → fetch_timer sid' addr' idx' s' ≡ fetch_timer sid' addr' idx' s)
  unfolding fetch_timer update_timer
  Touches-frame s' (same e) = (rw e refl, λ sid' addr' idx' ne. rw e refl)
  Touches-frame s' (rewritten f keep e) = (
    rw e refl,
    λ sid' addr' idx' ne. rw e (
        first_where-update_where_ne (timer_key sid addr idx) (timer_key sid' addr' idx') f
          s.session_timers (λ t h. timer_key_ne sid addr sid' addr' idx idx' t ne h)
          (λ t h. timer_key_ne sid addr sid' addr' idx idx' (f t) ne (keep t ∙ h))),
  )

  pub run_op-rest :
      (I : Iso) (now : ℕ) (op : TimerOp)
      → let s' = (run_op I now op sid addr idx s).1 in
        (s' ≡ with_timers s s'.session_timers)
        × ((sid' addr' : String) (idx' : ℤ)
            → (sid ≢ sid') ⊎ ((addr ≢ addr') ⊎ (idx ≢ idx'))
            → fetch_timer sid' addr' idx' s' ≡ fetch_timer sid' addr' idx' s)
  run_op-rest I now op = Touches-frame (run_op I now op sid addr idx s).1 (run_op-Touches I now op)

  -- Whatever the outcome, a timer method changes no table but session_timers, no field of the
  -- store, and in that table no row of another session, device or probe.
  pub run_op-frame :
      (I : Iso) (now : ℕ) (op : TimerOp) (sid' addr' : String) (idx' : ℤ)
      → (sid ≢ sid') ⊎ ((addr ≢ addr') ⊎ (idx ≢ idx'))
      → let s' = (run_op I now op sid addr idx s).1 in
        (s' ≡ with_timers s s'.session_timers)
        × (fetch_timer sid' addr' idx' s' ≡ fetch_timer sid' addr' idx' s)
  run_op-frame I now op sid' addr' idx' ne =
      let rest = run_op-rest I now op in (rest.0, rest.1 sid' addr' idx' ne)
