-- ===== src/Store/Timers/Refinement.antt =====
-- The timer methods (service/history/store.py) and the machine of four phases, step by step.
use mathlib.Core.Option
use igrill_remote_server.Prelude.{
  ℕ, ℤ, String, ◌≡◌, refl, ap, ◌∙◌, false, Option, some, none, arith,
}
use igrill_remote_server.Action.{
  ◌>>=◌, Error, Result, ok, err, timer_completed, inactive_session, no_such_timer,
}
use igrill_remote_server.Clock.{Iso, now_iso_utc}
use igrill_remote_server.Store.{Store, Timer}
use igrill_remote_server.Store.Timers.{
  timer_key, is_current, fetch_timer, reset_fields, set_running, set_paused, set_stopped,
  set_completed, set_terminal, require_timer, update_timer, write_timer, or_now, start_timer,
  pause_timer, resume_timer, reset_timer, complete_timer,
}
use igrill_remote_server.Store.Timers.Locate.{
  require_timer-inactive, require_timer-missing, require_timer-found, fetch_timer-update_timer,
  write_timer-run,
}
use igrill_remote_server.Store.Timers.Phase.{
  Phase, TimerOp, start, pause, resume, reset, complete, phase, next_phase, IsTimer, row_after,
  run_op, total_secs, row_after-phase,
}

module _ {T : Type 0} (I : Iso) (now : ℕ) (sid addr : String) (idx : ℤ) (s : Store T) (row : Timer)
    (active : s.current_session_id ≡ some sid) (found : fetch_timer sid addr idx s ≡ some row) where
  found_first : require_timer sid addr idx s ≡ (ok row, s)
  found_first = require_timer-found sid addr idx s active row found

  written :
      (f : Timer → Timer)
      → ((t : Timer) → timer_key sid addr idx (f t) ≡ timer_key sid addr idx t)
      → (write_timer sid addr idx f s ≡ (ok (f row), update_timer sid addr idx f s))
        × (fetch_timer sid addr idx (update_timer sid addr idx f s) ≡ some (f row))
  written f keep = (
    write_timer-run sid addr idx f s keep row found,
    fetch_timer-update_timer sid addr idx f s keep ∙ ap (Option.map f) found,
  )

  abbrev pub Follows : TimerOp → Type 0
  Follows op =
      (next_phase op (phase row) ≡ none → run_op I now op sid addr idx s ≡ (err timer_completed, s))
      × ((p : Phase)
          → next_phase op (phase row) ≡ some p
          → ((run_op I now op sid addr idx s).0 ≡ ok (row_after I now op row))
            × (fetch_timer sid addr idx (run_op I now op sid addr idx s).1
                ≡ some (row_after I now op row)))

  abbrev now_ts : String
  now_ts = now_iso_utc I now

  abbrev total : ℕ
  total = total_secs I now row

  abbrev done : String
  done = or_now row.completed_at now_ts

  start-Follows : Follows start
  unfolding run_op start_timer row_after
  start-Follows =
      simp (found_first, start_timer, ◌>>=◌)
        (ground (arith, written (set_running now_ts) (λ t. unfold set_running in refl)))

  pause-Follows : Follows pause
  unfolding run_op pause_timer row_after
  pause-Follows =
      simp (found_first, pause_timer, ◌>>=◌)
        (ground (arith, written (set_paused now_ts total) (λ t. unfold set_paused in refl)))

  resume-Follows : Follows resume
  unfolding run_op resume_timer row_after
  resume-Follows =
      simp (found_first, resume_timer, ◌>>=◌)
        (ground (arith, written (set_running now_ts) (λ t. unfold set_running in refl)))

  reset-Follows : Follows reset
  unfolding run_op reset_timer row_after
  reset-Follows =
      simp (found_first, reset_timer, ◌>>=◌) (ground (arith, written reset_fields (λ t. refl)))

  complete-Follows : Follows complete
  unfolding run_op complete_timer row_after
  complete-Follows =
      simp (found_first, complete_timer, ◌>>=◌)
        (ground (
          arith,
          written (set_completed done) (λ t. unfold set_completed in refl),
          written (set_terminal done now_ts) (λ t. unfold set_terminal in refl),
          written (set_stopped done now_ts total) (λ t. unfold set_stopped in refl),
        ))

  pub run_op-Follows : (op : TimerOp) → Follows op
  run_op-Follows start = start-Follows
  run_op-Follows pause = pause-Follows
  run_op-Follows resume = resume-Follows
  run_op-Follows reset = reset-Follows
  run_op-Follows complete = complete-Follows

-- The outcome of a method against the phase that the machine gives, `none` for a refusal.
abbrev pub Meets :
    {T : Type 0} → String → String → ℤ → Store T → Option Phase → Result Timer × Store T → Type 0
Meets sid addr idx s none (r, s') = (r ≡ err timer_completed) × (s' ≡ s)
Meets sid addr idx s (some p) (r, s') =
    (t : Timer) × (r ≡ ok t) × (fetch_timer sid addr idx s' ≡ some t) × (phase t ≡ p) × IsTimer t

module _ {T : Type 0} (I : Iso) (now : ℕ) (op : TimerOp) (sid addr : String) (idx : ℤ)
    (s : Store T) where
  Meets-next :
      (row : Timer)
      → s.current_session_id ≡ some sid
      → fetch_timer sid addr idx s ≡ some row
      → IsTimer row
      → (o : Option Phase) → next_phase op (phase row) ≡ o
      → Meets sid addr idx s o (run_op I now op sid addr idx s)
  Meets-next row active found v none h =
      let e = (run_op-Follows I now sid addr idx s row active found op).0 h in
      (ap (λ p. p.0) e, ap (λ p. p.1) e)
  Meets-next row active found v (some p) h =
      let e = (run_op-Follows I now sid addr idx s row active found op).1 p h in
      let after = row_after-phase I now op row v h in
      (row_after I now op row, e.0, e.1, after.0, after.1)

  -- On a row of the active session every method does what the machine of phases gives: it refuses
  -- with TimerCompletedError and changes nothing where the machine has no step, and otherwise
  -- returns the row that is stored, which is well-formed and in the machine's next phase.
  pub run_op-refines :
      (row : Timer)
      → s.current_session_id ≡ some sid
      → fetch_timer sid addr idx s ≡ some row
      → IsTimer row
      → Meets sid addr idx s (next_phase op (phase row)) (run_op I now op sid addr idx s)
  run_op-refines row active found v = Meets-next row active found v (next_phase op (phase row)) refl

  refuses_by :
      (o : TimerOp) {e : Error}
      → require_timer sid addr idx s ≡ (err e, s)
      → run_op {T = T} I now o sid addr idx s ≡ (err e, s)
  unfolding run_op start_timer pause_timer resume_timer reset_timer complete_timer
  refuses_by start h = simp (h, ◌>>=◌)
  refuses_by pause h = simp (h, ◌>>=◌)
  refuses_by resume h = simp (h, ◌>>=◌)
  refuses_by reset h = simp (h, ◌>>=◌)
  refuses_by complete h = simp (h, ◌>>=◌)

  -- Outside the active session a method raises, whatever the timer, and changes nothing.
  pub run_op-inactive :
      is_current s.current_session_id sid ≡ false
      → run_op {T = T} I now op sid addr idx s ≡ (err inactive_session, s)
  run_op-inactive h = refuses_by op (require_timer-inactive sid addr idx s h)

  -- Where the active session has no such timer a method raises and changes nothing.
  pub run_op-missing :
      s.current_session_id ≡ some sid
      → fetch_timer sid addr idx s ≡ none
      → run_op {T = T} I now op sid addr idx s ≡ (err no_such_timer, s)
  run_op-missing active gone = refuses_by op (require_timer-missing sid addr idx s active gone)
