-- ===== src/Countdown/Completes.antt =====
-- A tick of service/timers.py, row by row.
use igrill_remote_server.Prelude.{
  ℕ, ℤ, String, ◌≡◌, ◌≢◌, refl, sym, ap, subst, ◌∙◌, ◌⊎◌, inl, inr, some, List, [], ◌∷◌, Memᴰ,
  arith, eq_iff, str_eq, eq_ℤ, eq_ℤ_iff, Bool-cases,
}
use igrill_remote_server.Action.{Result, ok, err}
use igrill_remote_server.Clock.{Iso}
use igrill_remote_server.Store.{Store, Timer}
use igrill_remote_server.Store.Timers.{fetch_timer, find_expired_running_countdowns}
use igrill_remote_server.Store.Timers.Phase.{completed, phase, complete, IsTimer, run_op}
use igrill_remote_server.Store.Timers.Frame.{run_op-rest}
use igrill_remote_server.Store.Timers.Refinement.{run_op-refines}
use igrill_remote_server.Countdown.{Tick, after_complete, complete_row, complete_rows, tick}

-- The active session has a well-formed row for the timer.
pub record IsStored {T : Type 0} (sid addr : String) (idx : ℤ) (s : Store T) : Type 0 where
  pub row : Timer
  pub active : s.current_session_id ≡ some sid
  pub found : fetch_timer sid addr idx s ≡ some row
  pub well_formed : IsTimer row

pub record IsDone {T : Type 0} (sid addr : String) (idx : ℤ) (s : Store T) : Type 0 where
  pub stored : IsStored sid addr idx s
  pub done : phase stored.row ≡ completed

same_timer :
    (sid sid' addr addr' : String) (idx idx' : ℤ)
    → ((sid' ≡ sid) × (addr' ≡ addr) × (idx' ≡ idx))
      ⊎ ((sid' ≢ sid) ⊎ ((addr' ≢ addr) ⊎ (idx' ≢ idx)))
same_timer sid sid' addr addr' idx idx' = elim (Bool-cases (str_eq sid' sid)) [
  | inr e ↦ inr (inl (λ h. ground (arith, eq_iff sid' sid)))
  | inl e ↦ elim (Bool-cases (str_eq addr' addr)) [
    | inr f ↦ inr (inr (inl (λ h. ground (arith, eq_iff addr' addr))))
    | inl f ↦ elim (Bool-cases (eq_ℤ idx' idx)) [
      | inr g ↦ inr (inr (inr (λ h. ground (arith, eq_ℤ_iff idx' idx))))
      | inl g ↦ inl ((eq_iff sid' sid).0 e, (eq_iff addr' addr).0 f, (eq_ℤ_iff idx' idx).0 g)
    ]
  ]
]

module _ {T : Type 0} (I : Iso) (now : ℕ) (sid addr : String) (idx : ℤ) (s : Store T) where
  active_after :
      (sid' addr' : String) (idx' : ℤ)
      → s.current_session_id ≡ some sid
      → (run_op I now complete sid' addr' idx' s).1.current_session_id ≡ some sid
  active_after sid' addr' idx' h =
      ap (λ (x : Store T). x.current_session_id) (run_op-rest sid' addr' idx' s I now complete).0
      ∙ h

  -- Completing the timer itself.
  complete-IsDone :
      IsStored sid addr idx s → IsDone sid addr idx (run_op I now complete sid addr idx s).1
  complete-IsDone v =
      let (t, _, kept, p, w) =
        run_op-refines I now complete sid addr idx s v.row v.active v.found v.well_formed in
      record {
        stored = record {
          row = t;
          active = active_after sid addr idx v.active;
          found = kept;
          well_formed = w;
        };
        done = p;
      }

  -- Completing any timer keeps a stored one stored, and a completed one completed.
  complete-IsStored :
      (sid' addr' : String) (idx' : ℤ)
      → IsStored sid addr idx s
      → IsStored sid addr idx (run_op I now complete sid' addr' idx' s).1
  complete-IsStored sid' addr' idx' v = elim (same_timer sid sid' addr addr' idx idx') [
    | inl (e, f, g) ↦ rw (e, f, g) (complete-IsDone v).stored
    | inr ne ↦ record {
      row = v.row;
      active = active_after sid' addr' idx' v.active;
      found = (run_op-rest sid' addr' idx' s I now complete).1 sid addr idx ne ∙ v.found;
      well_formed = v.well_formed;
    }
  ]

  complete_any-IsDone :
      (sid' addr' : String) (idx' : ℤ)
      → IsDone sid addr idx s
      → IsDone sid addr idx (run_op I now complete sid' addr' idx' s).1
  complete_any-IsDone sid' addr' idx' v = elim (same_timer sid sid' addr addr' idx idx') [
    | inl (e, f, g) ↦ rw (e, f, g) (complete-IsDone v.stored)
    | inr ne ↦ record {
      stored = record {
        row = v.stored.row;
        active = active_after sid' addr' idx' v.stored.active;
        found = (run_op-rest sid' addr' idx' s I now complete).1 sid addr idx ne ∙ v.stored.found;
        well_formed = v.stored.well_formed;
      };
      done = v.done;
    }
  ]

after_complete-store :
    {T : Type 0} (row : Timer) (events : List _) (n : ℕ) (out : Result Timer × Store T)
    → (after_complete row events n out).store ≡ out.1
unfolding after_complete
after_complete-store row events n (ok t, s) = refl
after_complete-store row events n (err e, s) = refl

module _ {T : Type 0} (I : Iso) (now : ℕ) where
  complete_row-store :
      (row : Timer) (t : Tick T)
      → (complete_row I now row t).store
        ≡ (run_op I now complete row.session_id row.address row.probe_index t.store).1
  unfolding complete_row run_op
  complete_row-store row t = after_complete-store row t.events t.completed_count _

  complete_rows-IsDone :
      (sid addr : String) (idx : ℤ) (rows : List Timer) (t : Tick T)
      → IsDone sid addr idx t.store
      → IsDone sid addr idx (complete_rows I now rows t).store
  unfolding complete_rows
  complete_rows-IsDone sid addr idx [] t v = v
  complete_rows-IsDone sid addr idx (row ∷ rows) t v =
      complete_rows-IsDone sid addr idx rows (complete_row I now row t) (
        subst (IsDone sid addr idx) (sym (complete_row-store row t)) (
          complete_any-IsDone I now sid addr idx t.store row.session_id row.address row.probe_index
            v))

  complete_rows-listed :
      (row : Timer) (rows : List Timer) (t : Tick T)
      → Memᴰ row rows
      → IsStored row.session_id row.address row.probe_index t.store
      → IsDone row.session_id row.address row.probe_index (complete_rows I now rows t).store
  unfolding complete_rows
  complete_rows-listed row [] t m v = elim m [ ]
  complete_rows-listed row (r ∷ rows) t (Memᴰ.head e) v =
      complete_rows-IsDone row.session_id row.address row.probe_index rows (complete_row I now r t)
        (subst (IsDone row.session_id row.address row.probe_index) (sym (complete_row-store r t)) (
          subst
            (λ (r : Timer).
              IsDone row.session_id row.address row.probe_index
                (run_op I now complete r.session_id r.address r.probe_index t.store).1)
            e (complete-IsDone I now row.session_id row.address row.probe_index t.store v)))
  complete_rows-listed row (r ∷ rows) t (Memᴰ.tail m) v =
      complete_rows-listed row rows (complete_row I now r t) m (
        subst (IsStored row.session_id row.address row.probe_index) (sym (complete_row-store r t)) (
          complete-IsStored I now row.session_id row.address row.probe_index t.store r.session_id
            r.address r.probe_index v))

  -- After a tick every timer of the active session that was found expired is stored as completed,
  -- whatever the other rows that were found, those of ended sessions included.
  pub tick-completes :
      (s : Store T) (row : Timer)
      → Memᴰ row (find_expired_running_countdowns I now s)
      → IsStored row.session_id row.address row.probe_index s
      → IsDone row.session_id row.address row.probe_index (tick I now s).store
  unfolding tick
  tick-completes s row m v =
      complete_rows-listed row (find_expired_running_countdowns I now s) _ m v
