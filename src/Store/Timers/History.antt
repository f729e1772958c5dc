-- ===== src/Store/Timers/History.antt =====
-- A timer through any history of operations.
use igrill_remote_server.Prelude.{
  ℕ, ℤ, ◌≤◌, String, ◌≡◌, ◌≢◌, refl, sym, ap, ◌∙◌, Option, some, none, List, [], ◌∷◌, arith,
}
use igrill_remote_server.Clock.{Iso}
use igrill_remote_server.Store.{Store, Timer}
use igrill_remote_server.Store.Timers.{fetch_timer}
use igrill_remote_server.Store.Timers.Phase.{
  Phase, TimerOp, reset, phase, next_phase, IsTimer, row_after, run_op, row_after-phase,
}
use igrill_remote_server.Store.Timers.Refinement.{run_op-Follows}
use igrill_remote_server.Store.Timers.Frame.{run_op-rest}
use igrill_remote_server.Store.Timers.Elapsed.{shown_secs, row_after-shown, shown_secs_mono}

-- None of the operations is a reset, and time does not run back.
abbrev pub Runs : ℕ → List (ℕ × TimerOp) → ℕ → Type 0
Runs t [] later = t ≤ later
Runs t ((now, op) ∷ ops) later = (t ≤ now) × (op ≢ reset) × Runs now ops later

module _ {T : Type 0} (I : Iso) (sid addr : String) (idx : ℤ) where
  -- The store after the operations, each made at its instant; one that raises is passed over.
  unfoldable pub run_ops : List (ℕ × TimerOp) → Store T → Store T
  run_ops [] s = s
  run_ops ((now, op) ∷ ops) s = run_ops ops (run_op I now op sid addr idx s).1

  -- The session is active, and the timer is stored in a well-formed row that shows `n` seconds.
  abbrev pub Shows : ℕ → ℕ → Store T → Type 0
  Shows now n s =
      (row : Timer) × (s.current_session_id ≡ some sid)
      × (fetch_timer sid addr idx s ≡ some row)
      × IsTimer row
      × (shown_secs I now row ≡ n)

  op-Shows :
      (now : ℕ) (op : TimerOp) (s : Store T) (n : ℕ)
      → op ≢ reset
      → Shows now n s
      → Shows now n (run_op I now op sid addr idx s).1
  op-Shows now op s n ne (row, active, found, v, shows) = go (next_phase op (phase row)) refl
    where
      still : (run_op I now op sid addr idx s).1.current_session_id ≡ some sid
      still =
          ap (λ (x : Store T). x.current_session_id) (run_op-rest sid addr idx s I now op).0
          ∙ active

      go :
          (o : Option Phase)
          → next_phase op (phase row) ≡ o
          → Shows now n (run_op I now op sid addr idx s).1
      go none e =
          rw ((run_op-Follows I now sid addr idx s row active found op).0 e)
            (row, active, found, v, shows)
      go (some p) e = (
        row_after I now op row,
        still,
        ((run_op-Follows I now sid addr idx s row active found op).1 p e).1,
        (row_after-phase I now op row v e).1,
        row_after-shown I now op row v ne ∙ shows,
      )

  -- Over any history without a reset, refused operations included, the stored timer stays
  -- well-formed and the seconds that it shows never fall.
  pub run_ops-never_falls :
      (t later : ℕ) (ops : List (ℕ × TimerOp)) (s : Store T) (n : ℕ)
      → Runs t ops later
      → Shows t n s
      → (m : ℕ) × Shows later m (run_ops ops s) × (n ≤ m)
  unfolding run_ops
  run_ops-never_falls t later [] s n h (row, active, found, v, shows) = (
    shown_secs I later row,
    (row, active, found, v, refl),
    rw (sym shows) (shown_secs_mono I t later row h),
  )
  run_ops-never_falls t later ((now, op) ∷ ops) s n h (row, active, found, v, shows) =
      let at_now : Shows now (shown_secs I now row) s = (row, active, found, v, refl) in
      let (m, rest, le) =
        run_ops-never_falls now later ops _ (shown_secs I now row) h.2
          (op-Shows now op s _ h.1 at_now) in
      (m, rest, omega (arith, shown_secs_mono I t now row h.0, shows, le))
