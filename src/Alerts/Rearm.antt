-- ===== src/Alerts/Rearm.antt =====
-- AlertEvaluator.set_targets (service/alerts/evaluator.py) and the states of the probes.
use mathlib.Core.Option
use igrill_remote_server.Prelude.{
  ℤ, String, ◌≡◌, ◌≢◌, refl, subst, ap, ◌∙◌, inl, inr, true, false, not, ◌&&◌, Option, some, List,
  [], ◌∷◌, arith, Memᴰ, All, str_eq, eq_ℤ, eq_ℤ_iff, eq_iff, Option-cases, any_where,
  first_where-delete_where_ne, delete_where,
}
use igrill_remote_server.Real.{Real}
use igrill_remote_server.Target.{TargetConfig, effective_target}
use igrill_remote_server.Alerts.{
  ProbeAlertState, fresh_state, StateEntry, Evaluator, state_key, get_state, put_state,
  target_to_celsius,
}
use igrill_remote_server.Alerts.Evaluate.{
  targets_of, last_target, rearm, armed, arm_targets, set_targets,
}
use igrill_remote_server.Alerts.OneShot.{get_state-put_state, get_state-put_state_ne, same_key}

module _ {F : Type 0} (R : Real F) where
  -- The new target is above the old one, in degrees Celsius.
  pub record IsRaised (old new : TargetConfig F) : Type 0 where
    pub old_eff : F
    pub new_eff : F
    pub old_at : effective_target old ≡ some old_eff
    pub new_at : effective_target new ≡ some new_eff
    pub above :
        R.lt (target_to_celsius R old_eff old.unit) (target_to_celsius R new_eff new.unit) ≡ true

  -- The new target is at most the old one, in degrees Celsius.
  pub record IsNotRaised (old new : TargetConfig F) : Type 0 where
    pub old_eff : F
    pub new_eff : F
    pub old_at : effective_target old ≡ some old_eff
    pub new_at : effective_target new ≡ some new_eff
    pub below :
        R.lt (target_to_celsius R old_eff old.unit) (target_to_celsius R new_eff new.unit) ≡ false

  rearm-kept :
      (old t : TargetConfig F) (st : ProbeAlertState)
      → IsNotRaised old t
      → rearm R (some old) t st ≡ st
  unfolding rearm
  rearm-kept old t st r = ground (arith, r.old_at, r.new_at, r.below)

  rearm-fresh :
      (o : Option (TargetConfig F)) (t : TargetConfig F) → rearm R o t fresh_state ≡ fresh_state
  unfolding rearm
  rearm-fresh o t = ground arith

  rearm-raised :
      (old t : TargetConfig F) (st : ProbeAlertState)
      → IsRaised old t
      → rearm R (some old) t st ≡ fresh_state
  unfolding rearm
  rearm-raised old t st r = ground (arith, r.old_at, r.new_at, r.above)

  module _ (sid : String) (idx : ℤ) (olds : List (TargetConfig F)) where
    armed_at :
        (t : TargetConfig F) (st : ProbeAlertState) (states : List StateEntry)
        → t.probe_index ≡ idx
        → get_state sid idx states ≡ some st
        → armed R sid olds t states ≡ rearm R (last_target idx olds) t st
    unfolding armed
    armed_at t st states i e = ground (arith, i, e)

    -- The loop over targets that leave the state `st` of the probe as it is.
    arm_targets-kept :
        (st : ProbeAlertState) (ts : List (TargetConfig F)) (states : List StateEntry)
        → All
            (λ (t : TargetConfig F). t.probe_index ≡ idx → rearm R (last_target idx olds) t st ≡ st)
            ts
        → get_state sid idx states ≡ some st
        → get_state sid idx (arm_targets R sid olds ts states) ≡ some st
    unfolding arm_targets
    arm_targets-kept st [] states h e = e
    arm_targets-kept st (t ∷ ts) states h e =
        arm_targets-kept st ts (put_state sid t.probe_index (armed R sid olds t states) states) h.1
          (elim (same_key sid sid idx t.probe_index) [
            | inl (_, i) ↦ ground (
              arith,
              i,
              get_state-put_state sid t.probe_index (armed R sid olds t states) states,
              armed_at t st states i e,
              h.0 i,
            )
            | inr n ↦
                get_state-put_state_ne sid t.probe_index (armed R sid olds t states) states sid idx
                  n
                ∙ e
          ])

    All-fresh :
        (ts : List (TargetConfig F))
        → All
            (λ (t : TargetConfig F).
              t.probe_index ≡ idx → rearm R (last_target idx olds) t fresh_state ≡ fresh_state)
            ts
    All-fresh [] = tt
    All-fresh (t ∷ ts) = ((λ i. rearm-fresh (last_target idx olds) t), All-fresh ts)

    armed_raised :
        (old t : TargetConfig F) (states : List StateEntry)
        → last_target idx olds ≡ some old
        → IsRaised old t
        → t.probe_index ≡ idx
        → armed R sid olds t states ≡ fresh_state
    unfolding armed
    armed_raised old t states found up i = elim (Option-cases (get_state sid idx states)) [
      | inl e ↦ ground (arith, e, i)
      | inr (st, e) ↦ ground (arith, e, i, found, rearm-raised old t st up)
    ]

    -- A target that is raised leaves a fresh state, which the later targets keep.
    arm_targets-raised :
        (old t : TargetConfig F) (ts : List (TargetConfig F)) (states : List StateEntry)
        → last_target idx olds ≡ some old
        → IsRaised old t
        → t.probe_index ≡ idx
        → Memᴰ t ts
        → get_state sid idx (arm_targets R sid olds ts states) ≡ some fresh_state
    unfolding arm_targets
    arm_targets-raised old t [] states found up i m = elim m [ ]
    arm_targets-raised old t (u ∷ ts) states found up i (Memᴰ.tail m) =
        arm_targets-raised old t ts (put_state sid u.probe_index (armed R sid olds u states) states)
          found up i m
    arm_targets-raised old t (u ∷ ts) states found up i (Memᴰ.head e) =
        arm_targets-kept fresh_state ts
          (put_state sid u.probe_index (armed R sid olds u states) states) (All-fresh ts)
          (subst
            (λ (v : TargetConfig F).
              get_state sid idx (put_state sid v.probe_index (armed R sid olds v states) states)
              ≡ some fresh_state)
            e
            (ground (
              arith,
              i,
              get_state-put_state sid t.probe_index (armed R sid olds t states) states,
              armed_raised old t states found up i,
            )))

    -- A session that is not the one of the targets.
    arm_targets-other :
        (sid' : String) (ts : List (TargetConfig F)) (states : List StateEntry)
        → sid ≢ sid'
        → get_state sid' idx (arm_targets R sid olds ts states) ≡ get_state sid' idx states
    unfolding arm_targets
    arm_targets-other sid' [] states ne = refl
    arm_targets-other sid' (t ∷ ts) states ne =
        arm_targets-other sid' ts (put_state sid t.probe_index (armed R sid olds t states) states)
          ne
        ∙ get_state-put_state_ne sid t.probe_index (armed R sid olds t states) states sid' idx
            (inl ne)

  module _ (sid : String) (targets : List (TargetConfig F)) (ev : Evaluator F) where
    -- A probe whose target is raised above the last one that it had starts again: none of its alerts
    -- counts as sent.
    pub set_targets-raised :
        (old t : TargetConfig F)
        → last_target t.probe_index (targets_of sid ev.targets) ≡ some old
        → IsRaised old t
        → Memᴰ t targets
        → get_state sid t.probe_index (set_targets R sid targets ev).states ≡ some fresh_state
    unfolding set_targets
    set_targets-raised old t found up m =
        arm_targets-raised sid t.probe_index (targets_of sid ev.targets) old t targets _ found up
          refl m

    stale_not :
        (idx : ℤ) (e : StateEntry)
        → any_where (λ t. eq_ℤ t.probe_index idx) targets ≡ true
        → (str_eq e.session_id sid
            && not (any_where (λ t. eq_ℤ t.probe_index e.probe_index) targets))
          ≡ true
        → state_key sid idx e ≡ false
    stale_not idx e h k = ground (arith, eq_ℤ_iff e.probe_index idx)

    get_state-unstale :
        (idx : ℤ)
        → any_where (λ t. eq_ℤ t.probe_index idx) targets ≡ true
        → get_state sid idx (
            delete_where
              (λ e.
                str_eq e.session_id sid
                && not (any_where (λ t. eq_ℤ t.probe_index e.probe_index) targets))
              ev.states)
          ≡ get_state sid idx ev.states
    unfolding get_state
    get_state-unstale idx has =
        ap (Option.map (λ x. x.state)) (
          first_where-delete_where_ne _ (state_key sid idx) ev.states
            (λ e k. stale_not idx e has k))

    All-kept :
        (old : TargetConfig F) (idx : ℤ) (st : ProbeAlertState) (ts : List (TargetConfig F))
        → last_target idx (targets_of sid ev.targets) ≡ some old
        → All (λ (t : TargetConfig F). t.probe_index ≡ idx → IsNotRaised old t) ts
        → All
            (λ (t : TargetConfig F).
              t.probe_index ≡ idx → rearm R (last_target idx (targets_of sid ev.targets)) t st ≡ st)
            ts
    All-kept old idx st [] found h = tt
    All-kept old idx st (t ∷ ts) found h =
        ((λ i. rw found (rearm-kept old t st (h.0 i))), All-kept old idx st ts found h.1)

    -- A probe that still has a target, and whose targets are all at most the last one that it had,
    -- keeps its state: what was sent is not sent again.
    pub set_targets-kept :
        (old : TargetConfig F) (idx : ℤ) (st : ProbeAlertState)
        → last_target idx (targets_of sid ev.targets) ≡ some old
        → any_where (λ t. eq_ℤ t.probe_index idx) targets ≡ true
        → All (λ (t : TargetConfig F). t.probe_index ≡ idx → IsNotRaised old t) targets
        → get_state sid idx ev.states ≡ some st
        → get_state sid idx (set_targets R sid targets ev).states ≡ some st
    unfolding set_targets
    set_targets-kept old idx st found has h e =
        arm_targets-kept sid idx (targets_of sid ev.targets) st targets _
          (All-kept old idx st targets found h) (get_state-unstale idx has ∙ e)

    -- No state of another session changes.
    pub set_targets-other :
        (sid' : String) (idx : ℤ)
        → sid ≢ sid'
        → get_state sid' idx (set_targets R sid targets ev).states ≡ get_state sid' idx ev.states
    unfolding set_targets
    set_targets-other sid' idx ne =
        arm_targets-other sid idx (targets_of sid ev.targets) sid' targets _ ne ∙ untouched
      where
        foreign :
            (e : StateEntry)
            → (str_eq e.session_id sid
                && not (any_where (λ t. eq_ℤ t.probe_index e.probe_index) targets))
              ≡ true
            → state_key sid' idx e ≡ false
        foreign e k = ground (arith, eq_iff e.session_id sid, eq_iff e.session_id sid', ne)

        untouched :
            get_state sid' idx (
              delete_where
                (λ e.
                  str_eq e.session_id sid
                  && not (any_where (λ t. eq_ℤ t.probe_index e.probe_index) targets))
                ev.states)
            ≡ get_state sid' idx ev.states
        untouched =
            unfold get_state in
            ap (Option.map (λ x. x.state))
              (first_where-delete_where_ne _ (state_key sid' idx) ev.states (λ e k. foreign e k))
