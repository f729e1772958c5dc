-- ===== src/Server/Lifecycle.antt =====
-- Start, end and discard of a session and the update of its targets, in the store and the
-- evaluator (service/api/websocket.py).
use igrill_remote_server.Prelude.{
  ℕ, String, ◌≡◌, refl, ap, ◌∙◌, subst, inl, inr, Option, none, some, List, [], ◌∷◌, arith,
  Bool-cases, Option-cases,
}
use igrill_remote_server.Action.{Action, Result, ok, err, ◌>>=◌, ◌>>◌, pure, modify, gets}
use igrill_remote_server.Action.Frame.{bind-frame}
use igrill_remote_server.Clock.{Iso}
use igrill_remote_server.Json.{Json}
use igrill_remote_server.Real.{Real}
use igrill_remote_server.Store.{Store}
use igrill_remote_server.Store.Sessions.{EndEvent, end_session_locked, discard_current_session}
use igrill_remote_server.Store.Sessions.Discard.{discard_current-inactive, discard_current-active}
use igrill_remote_server.Store.Targets.{
  get_targets, get_targets_by_device, insert_target, insert_targets, update_targets,
}
use igrill_remote_server.Alerts.{Evaluator}
use igrill_remote_server.Alerts.Evaluate.{targets_of, set_targets, clear_session}
use igrill_remote_server.Downsampler.Pass.{end_session}
use igrill_remote_server.Downsampler.Frame.{end_session-locked}
use igrill_remote_server.Target.{TargetConfig}
use igrill_remote_server.Server.{
  Server, Context, Reply, ack, target_update, Code, no_active_session, Checked, passes, rejects,
  throws, ◌and_then◌, require, publish, ensure, unauthorized, is_bindable,
}
use igrill_remote_server.Server.Checks.{
  check_target_update, open_payload, parse_targets, stored_text,
}
use igrill_remote_server.Server.Handlers.{
  on_history, seed, forget_session, answer_end, answer_discard, handle_session_end,
  handle_session_discard, handle_target_update, target_address, edit_targets, write_targets,
}
use igrill_remote_server.Server.Coupling.{IsCoupled, targets_of-set_targets}
use igrill_remote_server.Server.Coupled.{
  IsCoupledServer, Couples, OnPass, settle-Couples, anyhow-Couples,
}

module _ {F : Type 0} (R : Real F) where
  pub none-IsCoupled :
      (h : Store F) (ev : Evaluator F) → h.current_session_id ≡ none → IsCoupled R h ev
  none-IsCoupled h ev e sid f = absurd (ground (arith, e, f))

  and_then-OnPass :
      {A B : Type 0} (P : B → Type 0) (t : Checked A) (f : A → Checked B)
      → ((a : A) → OnPass P (f a))
      → OnPass P (t and_then f)
  and_then-OnPass P (passes a) f h = h a
  and_then-OnPass P (rejects c) f h = tt
  and_then-OnPass P (throws e) f h = tt

  require-OnPass :
      {A B : Type 0} (P : B → Type 0) (o : Option A) (c : Code) (f : A → Checked B)
      → ((a : A) → o ≡ some a → OnPass P (f a))
      → OnPass P (require o c and_then f)
  require-OnPass P none c f h = tt
  require-OnPass P (some a) c f h = h a refl

  pub ok_then-Couples :
      {A : Type 0} (r : Result A) (x s : Server F) (f : A → Action (Server F) (Reply F))
      → ((a : A) → r ≡ ok a → Couples R (f a x))
      → Couples R (((λ _. (r, x)) >>= f) s)
  ok_then-Couples (ok a) x s f h = h a refl
  ok_then-Couples (err e) x s f h = λ r p. absurd cc

  pub end_locked-current :
      (I : Iso) (now : ℕ) (reason : String) (h : Store F)
      → (end_session_locked I now reason h).1.current_session_id ≡ none
  unfolding end_session_locked
  end_locked-current I now reason h = elim (Option-cases h.current_session_id) [
    | inl e ↦ ground (arith, e)
    | inr (sid, e) ↦ ground (arith, e)
  ]

  answer_end-history :
      (event : Option EndEvent) (x : Server F) → (answer_end event x).1.history ≡ x.history
  unfolding answer_end publish forget_session
  answer_end-history none x = refl
  answer_end-history (some e) x = refl

  insert_targets-current :
      (sid addr : String) (ts : List (TargetConfig F)) (h : Store F)
      → (insert_targets R sid addr ts h).1.current_session_id ≡ h.current_session_id
  unfolding insert_targets insert_target
  insert_targets-current sid addr [] h = refl
  insert_targets-current sid addr (t ∷ ts) h =
      let (r, x) = insert_target R sid addr t h in
      bind-frame (λ (y : Store F). y.current_session_id) r x (λ _. insert_targets R sid addr ts)
        (λ a y. insert_targets-current sid addr ts y)
      ∙ ground arith

  update_targets-current :
      (sid addr : String) (ts : List (TargetConfig F)) (h : Store F)
      → (update_targets R sid addr ts h).1.current_session_id ≡ h.current_session_id
  unfolding update_targets
  update_targets-current sid addr ts h = insert_targets-current sid addr ts _

  -- After `seed` the evaluator has the targets of `sid`.
  pub seeded-IsCoupled :
      (sid : String) (h : Store F) (ev : Evaluator F)
      → h.current_session_id ≡ some sid
      → IsCoupled R h (set_targets R sid (get_targets R sid h) ev)
  seeded-IsCoupled sid h ev e other f =
      subst
        (λ (x : String).
          targets_of x (set_targets R sid (get_targets R sid h) ev).targets ≡ get_targets R x h)
        (ground (arith, e, f)) (targets_of-set_targets R sid (get_targets R sid h) ev)

module _ {F : Type 0} (C : Context F) (s : Server F) (v : IsCoupledServer C.real s) where
  end_session-current :
      (end_session C.averages C.iso C.time_zone C.now C.later C.faults C.ids "user"
        s.history).1.current_session_id
      ≡ none
  end_session-current =
      ap (λ (h : Store F). h.current_session_id)
        (end_session-locked C.averages C.iso C.time_zone C.now C.later C.faults C.ids "user"
          s.history).1
      ∙ end_locked-current C.real C.iso C.now "user" s.history

  pub handle_session_end-Couples : Couples C.real (handle_session_end C s)
  unfolding handle_session_end
  handle_session_end-Couples =
      anyhow-Couples C.real (ensure C.authorized unauthorized)
        (λ _ s.
          let (event, h) =
            end_session C.averages C.iso C.time_zone C.now C.later C.faults C.ids "user"
              s.history in
          let (reply, s') = answer_end event (record s { history = h }) in (ok reply, s'))
        s v
        (λ _ r e.
          let (event, h) =
            end_session C.averages C.iso C.time_zone C.now C.later C.faults C.ids "user"
              s.history in
          none-IsCoupled C.real (answer_end event (record s { history = h })).1.history
            (answer_end event (record s { history = h })).1.evaluator
            (ap (λ (x : Store F). x.current_session_id)
                (answer_end-history C.real event (record s { history = h }))
              ∙ end_session-current))

  check_target_update-current :
      OnPass
        (λ (q : String × List (TargetConfig F) × Json F). s.history.current_session_id ≡ some q.0)
        (check_target_update C s)
  unfolding check_target_update
  check_target_update-current = and_then-OnPass C.real _ (open_payload C) _ λ fields.
      and_then-OnPass C.real _ (parse_targets C fields) _ λ targets.
        require-OnPass C.real _ s.history.current_session_id no_active_session _ λ sid e. e

  write_targets-Couples :
      (sid : String) (targets : List (TargetConfig F)) (addr : Json F)
      → s.history.current_session_id ≡ some sid
      → Couples C.real (write_targets C sid targets addr s)
  unfolding write_targets seed publish
  write_targets-Couples sid targets addr e =
      let (r, h) = update_targets C.real sid (stored_text C addr) targets s.history in
      ok_then-Couples C.real r (record s { history = h }) s
        (λ _. do
          modify (seed C sid)
          all_targets ← gets (λ s. get_targets_by_device C.real sid s.history)
          let message = target_update (record {
            session_id = sid;
            device_address = addr;
            targets = targets;
            all_targets = all_targets;
          })
          modify (publish message)
          pure (ack message))
        (λ a q reply p.
          seeded-IsCoupled C.real sid h s.evaluator
            (update_targets-current C.real sid (stored_text C addr) targets s.history ∙ e))

  edit_targets-Couples :
      (sid : String) (targets : List (TargetConfig F)) (addr : Json F)
      → s.history.current_session_id ≡ some sid
      → Couples C.real (edit_targets C sid targets addr s)
  unfolding edit_targets
  edit_targets-Couples sid targets addr e = elim (Bool-cases (is_bindable addr)) [
    | inl b ↦ rw b (write_targets-Couples sid targets addr e)
    | inr b ↦ rw b (λ r p. absurd cc)
  ]

  pub handle_target_update-Couples : Couples C.real (handle_target_update C s)
  unfolding handle_target_update
  handle_target_update-Couples =
      settle-Couples C.real
        (λ (q : String × List (TargetConfig F) × Json F). s.history.current_session_id ≡ some q.0)
        (check_target_update C s)
        (λ (sid, targets, given) s. edit_targets C sid targets (target_address C sid given s) s) s v
        check_target_update-current
        (λ (sid, targets, given) e.
          edit_targets-Couples sid targets (target_address C sid given s) e)

  answered_discard :
      (r : Result (Option String)) (h : Store F)
      → ((sid : Option String) → r ≡ ok sid → h.current_session_id ≡ none)
      → Couples C.real (
          ((λ _. (r, record s { history = h })) >>= λ discarded x.
          (let (reply, s') = answer_discard discarded x in (ok reply, s')))
            s)
  unfolding answer_discard publish forget_session
  answered_discard (err e) h k = λ r p. absurd cc
  answered_discard (ok none) h k = λ r p. none-IsCoupled C.real h s.evaluator (k none refl)
  answered_discard (ok (some sid)) h k =
      λ r p. none-IsCoupled C.real h (clear_session sid s.evaluator) (k (some sid) refl)

  discarded_current :
      (sid : Option String)
      → (discard_current_session C.fault s.history).0 ≡ ok sid
      → (discard_current_session C.fault s.history).1.current_session_id ≡ none
  discarded_current sid e = elim (Option-cases s.history.current_session_id) [
    | inl f ↦ ap (λ m. m.1.current_session_id) (discard_current-inactive C.fault s.history f) ∙ f
    | inr (x, f) ↦ elim (discard_current-active C.fault s.history x f) [
      | inl raised ↦ absurd (ground (arith, e, ap (λ m. m.0) raised))
      | inr (_, _, gone, _) ↦ gone
    ]
  ]

  pub handle_session_discard-Couples : Couples C.real (handle_session_discard C s)
  unfolding handle_session_discard
  handle_session_discard-Couples =
      anyhow-Couples C.real (ensure C.authorized unauthorized)
        (λ _. do
          discarded ← on_history (discard_current_session C.fault)
          λ s. let (reply, s') = answer_discard discarded s in (ok reply, s'))
        s v
        (λ _.
          answered_discard (discard_current_session C.fault s.history).0
            (discard_current_session C.fault s.history).1 discarded_current)
