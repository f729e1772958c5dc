-- ===== src/Store/Timers/Phase.antt =====
-- A machine of four phases for the timer methods of service/history/store.py, and the row that each
-- method leaves.
use igrill_remote_server.Prelude.{
  ℕ, ◌+◌, ℤ, String, ◌≡◌, true, Option, some, none, arith, is_some, is_none, if◌then◌else◌,
}
use igrill_remote_server.Action.{Action}
use igrill_remote_server.Clock.{Iso, now_iso_utc}
use igrill_remote_server.Store.{Store, Timer}
use igrill_remote_server.Store.Timers.{
  is_running, reset_fields, set_running, set_paused, set_stopped, set_completed, set_terminal,
  elapsed_secs, or_now, start_timer, pause_timer, resume_timer, reset_timer, complete_timer,
}

-- Seconds shown at `now` by a row that runs: what is accumulated and what has elapsed.
abbrev pub total_secs : Iso → ℕ → Timer → ℕ
total_secs I now row = row.accumulated_secs + elapsed_secs I (now_iso_utc I now) row.started_at

pub data Phase : Type 0 where
  idle running paused completed : Phase

pub data TimerOp : Type 0 where
  start pause resume reset complete : TimerOp

abbrev pub phase : Timer → Phase
phase t =
    if is_some t.completed_at
    then completed
    else if is_some t.paused_at
    then paused
    else if is_some t.started_at
    then running
    else idle

-- What the methods promise: `none` is the TimerCompletedError.
abbrev pub next_phase : TimerOp → Phase → Option Phase
next_phase start completed = none
next_phase start _ = some running
next_phase pause running = some paused
next_phase pause p = some p
next_phase resume completed = none
next_phase resume paused = some running
next_phase resume p = some p
next_phase reset _ = some idle
next_phase complete _ = some completed

-- A row that the methods write: it runs or is paused, not both, and a completed one is paused.
pub record IsTimer (t : Timer) : Type 0 where
  pub exclusive : is_some t.started_at ≡ true → t.paused_at ≡ none
  pub terminal : is_some t.completed_at ≡ true → is_some t.paused_at ≡ true

unfoldable pub run_op :
    {T : Type 0} → Iso → ℕ → TimerOp → String → String → ℤ → Action (Store T) Timer
run_op I now start = start_timer I now
run_op I now pause = pause_timer I now
run_op I now resume = resume_timer I now
run_op I now reset = reset_timer
run_op I now complete = complete_timer I now

-- The row that a method leaves where it does not raise.
unfoldable pub row_after : Iso → ℕ → TimerOp → Timer → Timer
row_after I now start row = if is_running row then row else set_running (now_iso_utc I now) row
row_after I now pause row =
    if is_running row then set_paused (now_iso_utc I now) (total_secs I now row) row else row
row_after I now resume row =
    if is_none row.paused_at then row else set_running (now_iso_utc I now) row
row_after I now reset row = reset_fields row
row_after I now complete row =
    let done = or_now row.completed_at (now_iso_utc I now) in
    if is_running row
    then set_stopped done (now_iso_utc I now) (total_secs I now row) row
    else if is_some row.paused_at
    then set_completed done row
    else set_terminal done (now_iso_utc I now) row

pub row_after-phase :
    (I : Iso) (now : ℕ) (op : TimerOp) (row : Timer)
    → IsTimer row
    → {p : Phase} → next_phase op (phase row) ≡ some p
    → (phase (row_after I now op row) ≡ p) × IsTimer (row_after I now op row)
unfolding row_after set_running set_paused set_stopped set_completed set_terminal
row_after-phase I now start row v h = ground arith
row_after-phase I now pause row v h = ground arith
row_after-phase I now resume row v h = ground arith
row_after-phase I now reset row v h = ground arith
row_after-phase I now complete row v h = ground arith
