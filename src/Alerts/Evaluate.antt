-- ===== src/Alerts/Evaluate.antt =====
-- The methods of AlertEvaluator (service/alerts/evaluator.py).
use igrill_remote_server.Prelude.{
  ℕ, ℤ, String, false, not, ◌&&◌, Option, none, some, List, [], ◌∷◌, ◌++◌, map, str_eq, eq_ℤ,
  if◌then◌else◌, first_where, any_where, update_where, delete_where, default,
}
use igrill_remote_server.Real.{Real}
use igrill_remote_server.Target.{TargetConfig, effective_target}
use igrill_remote_server.Alerts.{
  Probe, ProbeAlertState, fresh_state, AlertEvent, StateEntry, TargetEntry, Evaluator, target_key,
  get_state, put_state, target_to_celsius, zone, fire,
}

-- `probe["temperature"]` of the first probe with the index, `none` where the loop goes on: there is
-- no such probe, it is unplugged, or it has no temperature.
unfoldable pub reading_at : {F : Type 0} → ℤ → List (Probe F) → Option F
reading_at idx probes = elim (first_where (λ p. eq_ℤ p.index idx) probes) [
  | none ↦ none
  | some p ↦ if default false p.unplugged then none else p.temperature
]

-- `self._state.setdefault(key, ProbeAlertState())`
unfoldable pub state_or_fresh : String → ℤ → List StateEntry → ProbeAlertState
state_or_fresh sid idx l = elim (get_state sid idx l) [ none ↦ fresh_state | some st ↦ st ]

unfoldable pub targets_of : {F : Type 0} → String → List (TargetEntry F) → List (TargetConfig F)
targets_of sid l = elim (first_where (target_key sid) l) [ none ↦ [] | some e ↦ e.targets ]

unfoldable pub put_targets :
    {F : Type 0} → String → List (TargetConfig F) → List (TargetEntry F) → List (TargetEntry F)
put_targets sid targets l =
    if any_where (target_key sid) l
    then update_where (target_key sid) (λ e. record e { targets = targets }) l
    else l ++ record { session_id = sid; targets = targets } ∷ []

-- The last one wins in the dictionary `old_target_by_idx`.
unfoldable pub last_target : {F : Type 0} → ℤ → List (TargetConfig F) → Option (TargetConfig F)
last_target idx [] = none
last_target idx (t ∷ ts) = elim (last_target idx ts) [
  | none ↦ if eq_ℤ t.probe_index idx then some t else none
  | some o ↦ some o
]

unfoldable pub clear_session : {F : Type 0} → String → Evaluator F → Evaluator F
clear_session sid ev = record {
  states = delete_where (λ e. str_eq e.session_id sid) ev.states;
  targets = delete_where (target_key sid) ev.targets;
}

module _ {F : Type 0} (R : Real F) where
  -- The body of the loop of `evaluate`.
  unfoldable pub check_target :
      ℕ
      → String
      → String
      → List (Probe F)
      → TargetConfig F
      → List (AlertEvent F) × List StateEntry
      → List (AlertEvent F) × List StateEntry
  check_target now sid sensor_id probes t (events, states) =
      let idx = t.probe_index in
      elim (reading_at idx probes) [
        | none ↦ (events, states)
        | some temp ↦
            let st = state_or_fresh sid idx states in
            elim (zone R t temp) [
              | none ↦ (events, put_state sid idx st states)
              | some z ↦
                  let (kinds, st') = fire now t.mode t.reminder_interval_secs z st in
                  (
                    events
                        ++ map
                            (λ kind. record {
                              kind = kind;
                              sensor_id = sensor_id;
                              session_id = sid;
                              probe_index = idx;
                              current_temp = temp;
                              target = t;
                            })
                            kinds,
                    put_state sid idx st' states,
                  )
            ]
      ]

  unfoldable pub check_targets :
      ℕ
      → String
      → String
      → List (Probe F)
      → List (TargetConfig F)
      → List (AlertEvent F) × List StateEntry
      → List (AlertEvent F) × List StateEntry
  check_targets now sid sensor_id probes [] acc = acc
  check_targets now sid sensor_id probes (t ∷ ts) acc =
      check_targets now sid sensor_id probes ts (check_target now sid sensor_id probes t acc)

  unfoldable pub evaluate :
      ℕ → String → List (Probe F) → String → Evaluator F → List (AlertEvent F) × Evaluator F
  evaluate now sid probes sensor_id ev =
      let (events, states) =
        check_targets now sid sensor_id probes (targets_of sid ev.targets) ([], ev.states) in
      (events, record ev { states = states })

  -- The new state of a probe that has one.
  unfoldable pub rearm :
      Option (TargetConfig F) → TargetConfig F → ProbeAlertState → ProbeAlertState
  rearm none t st = st
  rearm (some old) t st = elim (effective_target old) [
    | none ↦ fresh_state
    | some old_eff ↦ elim (effective_target t) [
      | none ↦ fresh_state
      | some new_eff ↦
          if R.lt (target_to_celsius R old_eff old.unit) (target_to_celsius R new_eff t.unit)
          then fresh_state
          else st
    ]
  ]

  -- The state that the loop of `set_targets` gives to the probe of a target.
  unfoldable pub armed :
      String → List (TargetConfig F) → TargetConfig F → List StateEntry → ProbeAlertState
  armed sid olds t states = elim (get_state sid t.probe_index states) [
    | none ↦ fresh_state
    | some st ↦ rearm (last_target t.probe_index olds) t st
  ]

  -- The loop of `set_targets`.
  unfoldable pub arm_targets :
      String → List (TargetConfig F) → List (TargetConfig F) → List StateEntry → List StateEntry
  arm_targets sid olds [] states = states
  arm_targets sid olds (t ∷ ts) states =
      arm_targets sid olds ts (put_state sid t.probe_index (armed sid olds t states) states)

  unfoldable pub set_targets : String → List (TargetConfig F) → Evaluator F → Evaluator F
  set_targets sid targets ev =
      let kept =
        delete_where
          (λ e.
            str_eq e.session_id sid
            && not (any_where (λ t. eq_ℤ t.probe_index e.probe_index) targets))
          ev.states in
      record {
        states = arm_targets sid (targets_of sid ev.targets) targets kept;
        targets = put_targets sid targets ev.targets;
      }
