-- ===== src/Server/Coupling.antt =====
-- The targets of the evaluator and those of the store (service/api/websocket.py), and
-- rehydrate_alert_evaluator of service/main.py.
use igrill_remote_server.Prelude.{
  ℕ, String, ◌≡◌, ◌≢◌, refl, sym, ◌∙◌, inl, inr, some, List, [], ◌∷◌, arith, str_eq_refl, eq_iff,
  Bool-cases, any_where, first_where-update_where, any_where-eq-is_some, first_where-append_new,
  first_where-delete_where_ne,
}
use igrill_remote_server.Action.Frame.{bind-frame}
use igrill_remote_server.Clock.{Iso}
use igrill_remote_server.Real.{Real}
use igrill_remote_server.Store.{Store}
use igrill_remote_server.Store.Devices.{join_session, register_device_locked}
use igrill_remote_server.Store.Targets.{get_targets, replace_target, save_targets}
use igrill_remote_server.Store.Sessions.{join_all}
use igrill_remote_server.Alerts.{Evaluator, TargetEntry}
use igrill_remote_server.Alerts
use igrill_remote_server.Alerts.Evaluate.{targets_of, put_targets, set_targets, clear_session}
use igrill_remote_server.Target.{TargetConfig}
use igrill_remote_server.Server.Rehydrate.{no_evaluator, seed_given, rehydrate_alert_evaluator}

module _ {F : Type 0} where
  targets_of-put_targets :
      (sid : String) (ts : List (TargetConfig F)) (l : List (TargetEntry F))
      → targets_of sid (put_targets sid ts l) ≡ ts
  unfolding targets_of put_targets
  targets_of-put_targets sid ts l = elim (Bool-cases (any_where (Alerts.target_key sid) l)) [
    | inl e ↦ ground (
      arith,
      e,
      any_where-eq-is_some (Alerts.target_key sid) l,
      first_where-update_where (Alerts.target_key sid)
          (λ (x : TargetEntry F). record x { targets = ts }) l (λ x. refl),
    )
    | inr e ↦ ground (
      arith,
      e,
      first_where-append_new (Alerts.target_key sid) l (record { session_id = sid; targets = ts }) e
          (str_eq_refl sid),
    )
  ]

  pub targets_of-clear_session :
      (sid other : String) (ev : Evaluator F)
      → sid ≢ other
      → targets_of other (clear_session sid ev).targets ≡ targets_of other ev.targets
  unfolding targets_of clear_session
  targets_of-clear_session sid other ev ne = ground (
    arith,
    first_where-delete_where_ne (Alerts.target_key sid) (Alerts.target_key other) ev.targets
        (λ x e. ground (arith, e, eq_iff x.session_id sid, eq_iff x.session_id other, ne)),
  )

module _ {F : Type 0} (R : Real F) where
  -- The evaluator has the targets of the current session.
  abbrev pub IsCoupled : Store F → Evaluator F → Type 0
  IsCoupled h ev =
      (sid : String)
      → h.current_session_id ≡ some sid
      → targets_of sid ev.targets ≡ get_targets R sid h

  pub targets_of-set_targets :
      (sid : String) (ts : List (TargetConfig F)) (ev : Evaluator F)
      → targets_of sid (set_targets R sid ts ev).targets ≡ ts
  unfolding set_targets
  targets_of-set_targets sid ts ev = targets_of-put_targets sid ts ev.targets

  targets_of-seed_given :
      (sid : String) (ts : List (TargetConfig F))
      → targets_of sid (seed_given R sid ts no_evaluator).targets ≡ ts
  unfolding seed_given targets_of
  targets_of-seed_given sid [] = refl
  targets_of-seed_given sid (t ∷ ts) =
      unfold targets_of in targets_of-set_targets sid (t ∷ ts) no_evaluator

  -- After a restart the new evaluator has the targets of the session that was resumed.
  pub rehydrate-IsCoupled : (h : Store F) → IsCoupled h (rehydrate_alert_evaluator R h no_evaluator)
  unfolding rehydrate_alert_evaluator
  rehydrate-IsCoupled h sid e =
      simp (e, rehydrate_alert_evaluator) (targets_of-seed_given sid (get_targets R sid h))

  -- A call that changes neither the current session nor the targets.
  abbrev pub SameTargets : Store F → Store F → Type 0
  SameTargets h h' =
      (h'.current_session_id ≡ h.current_session_id) × (h'.session_targets ≡ h.session_targets)

  pub get_targets_same :
      (sid : String) (h h' : Store F)
      → h'.session_targets ≡ h.session_targets
      → get_targets R sid h' ≡ get_targets R sid h
  unfolding get_targets
  get_targets_same sid h h' e = rw e refl

  pub same-IsCoupled :
      (h h' : Store F) (ev : Evaluator F) → SameTargets h h' → IsCoupled h ev → IsCoupled h' ev
  same-IsCoupled h h' ev v c sid e = c sid (sym v.0 ∙ e) ∙ sym (get_targets_same sid h h' v.1)

  pub join_all-SameTargets :
      (I : Iso) (now : ℕ) (sid : String) (addrs : List String) (h : Store F)
      → SameTargets h (join_all I now sid addrs h)
  unfolding join_all join_session register_device_locked
  join_all-SameTargets I now sid [] h = (refl, refl)
  join_all-SameTargets I now sid (a ∷ addrs) h = join_all-SameTargets I now sid addrs _

  replace_target-current :
      (sid addr : String) (t : TargetConfig F) (h : Store F)
      → (replace_target R sid addr t h).1.current_session_id ≡ h.current_session_id
  unfolding replace_target
  replace_target-current sid addr t h = ground arith

  pub save_targets-current :
      (sid addr : String) (ts : List (TargetConfig F)) (h : Store F)
      → (save_targets R sid addr ts h).1.current_session_id ≡ h.current_session_id
  unfolding save_targets
  save_targets-current sid addr [] h = refl
  save_targets-current sid addr (t ∷ ts) h =
      let (r, x) = replace_target R sid addr t h in
      bind-frame (λ (y : Store F). y.current_session_id) r x (λ _. save_targets R sid addr ts)
        (λ a y. save_targets-current sid addr ts y)
      ∙ replace_target-current sid addr t h
