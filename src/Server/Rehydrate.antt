-- ===== src/Server/Rehydrate.antt =====
-- rehydrate_alert_evaluator of service/main.py.
use igrill_remote_server.Prelude.{String, none, some, List, [], ◌∷◌}
use igrill_remote_server.Real.{Real}
use igrill_remote_server.Store.{Store}
use igrill_remote_server.Store.Targets.{get_targets}
use igrill_remote_server.Alerts.{Evaluator}
use igrill_remote_server.Alerts.Evaluate.{set_targets}
use igrill_remote_server.Target.{TargetConfig}

-- `AlertEvaluator()`
abbrev pub no_evaluator : {F : Type 0} → Evaluator F
no_evaluator = record { states = []; targets = [] }

module _ {F : Type 0} (R : Real F) where
  -- `if targets: evaluator.set_targets(sid, targets)`
  unfoldable pub seed_given : String → List (TargetConfig F) → Evaluator F → Evaluator F
  seed_given sid [] ev = ev
  seed_given sid (t ∷ ts) ev = set_targets R sid (t ∷ ts) ev

  unfoldable pub rehydrate_alert_evaluator : Store F → Evaluator F → Evaluator F
  unfolding seed_given
  rehydrate_alert_evaluator h ev = elim h.current_session_id [
    | none ↦ ev
    | some sid ↦ seed_given sid (get_targets R sid h) ev
  ]
