-- ===== src/Server/Start.antt =====
-- _handle_session_start of service/api/websocket.py, in the store and the evaluator.
use igrill_remote_server.Prelude.{
  ℕ, ℤ, String, ◌≡◌, ◌≢◌, refl, sym, ap, ◌∙◌, subst, inl, inr, Option, none, some, List, [], ◌∷◌,
  arith, Bool-cases, Option-cases,
}
use igrill_remote_server.Action.{Result, ok, err, ◌>>=◌, ◌>>◌, modify}
use igrill_remote_server.Action.Frame.{bind-frame}
use igrill_remote_server.Clock.{Iso}
use igrill_remote_server.Real.{Real}
use igrill_remote_server.Store.{Store}
use igrill_remote_server.Store.Sessions.{
  EndEvent, SessionInfo, close_row, end_session_locked, start_info, open_session, add_session,
}
use igrill_remote_server.Store.Sessions.Soundness.{opened, start_session-cases}
use igrill_remote_server.Store.Targets.{get_targets, save_targets}
use igrill_remote_server.Alerts.Evaluate.{targets_of}
use igrill_remote_server.Target.{TargetConfig}
use igrill_remote_server.Server.{Server, Context, Reply, publish}
use igrill_remote_server.Server.Checks.{StartRequest, check_start, is_empty}
use igrill_remote_server.Server.Handlers.{
  seed, on_history, forget_session, save_all, save_and_seed, close_prior, announce, after_start,
  begin_session, handle_session_start,
}
use igrill_remote_server.Server.Coupling.{
  get_targets_same, targets_of-clear_session, join_all-SameTargets, save_targets-current,
}
use igrill_remote_server.Server.Coupled.{
  IsCoupledServer, Couples, anyhow-Couples, parts, parts-IsCoupled,
}
use igrill_remote_server.Server.Lifecycle.{ok_then-Couples, seeded-IsCoupled}

module _ {F : Type 0} (R : Real F) where
  -- An id that neither the store nor the evaluator has seen.
  pub record IsFresh (sid : String) (s : Server F) : Type 0 where
    pub not_current : s.history.current_session_id ≢ some sid
    pub no_targets : get_targets R sid s.history ≡ []
    pub unknown : targets_of sid s.evaluator.targets ≡ []

  -- The prior session's end is announced and forgotten; the targets of `sid` stay.
  close_prior-Coupled :
      (sid : String) (event : Option EndEvent) (x : Server F)
      → x.history.current_session_id ≡ some sid
      → ((e : EndEvent) → event ≡ some e → e.session_id ≢ sid)
      → IsCoupledServer R x
      → IsCoupledServer R (close_prior event x)
  unfolding close_prior publish forget_session
  close_prior-Coupled sid none x e ne v = λ other f. v other f
  close_prior-Coupled sid (some event) x e ne v = λ other f.
      targets_of-clear_session event.session_id other x.evaluator
        (subst (λ (y : String). event.session_id ≢ y) (ground (arith, e, f)) (ne event refl))
      ∙ v other f

  module _ (I : Iso) (now : ℕ) (h : Store F) where
    end_locked-targets :
        (reason : String)
        → (end_session_locked I now reason h).1.session_targets ≡ h.session_targets
    unfolding end_session_locked close_row
    end_locked-targets reason = ground arith

    ended_id :
        (reason : String) (e : EndEvent)
        → (end_session_locked I now reason h).0 ≡ some e
        → h.current_session_id ≡ some e.session_id
    unfolding end_session_locked
    ended_id reason e p = elim (Option-cases h.current_session_id) [
      | inl f ↦ absurd (ground (arith, f, p))
      | inr (sid, f) ↦ ground (arith, f, p)
    ]

    opened-targets :
        (sid : String) (addrs : List String) (reason : String) (name : Option String)
        (target : Option ℤ)
        → (opened I now sid addrs reason name target h).session_targets ≡ h.session_targets
    unfolding open_session add_session
    opened-targets sid addrs reason name target =
        (join_all-SameTargets R I now sid addrs _).1 ∙ end_locked-targets reason

module _ {F : Type 0} (C : Context F) (req : StartRequest F) where
  save_all-current :
      (sid : String) (addrs : List String) (ts : List (TargetConfig F)) (h : Store F)
      → (save_all C sid addrs ts h).1.current_session_id ≡ h.current_session_id
  unfolding save_all
  save_all-current sid [] ts h = refl
  save_all-current sid (addr ∷ addrs) ts h =
      let (r, x) = save_targets C.real sid addr ts h in
      bind-frame (λ (y : Store F). y.current_session_id) r x (λ _. save_all C sid addrs ts)
        (λ a y. save_all-current sid addrs ts y)
      ∙ save_targets-current C.real sid addr ts h

  -- What the seeding leaves where it does not raise.
  abbrev IsSeeded : String → Result (Unit {0}) × Server F → Type 0
  IsSeeded sid m =
      (a : Unit {0})
      → m.0 ≡ ok a
      → IsCoupledServer C.real m.1 × (m.1.history.current_session_id ≡ some sid)

  modify-IsSeeded :
      (sid : String) (r : Result (Unit {0})) (h : Store F) (x : Server F)
      → h.current_session_id ≡ some sid
      → IsSeeded sid (((λ _. (r, record x { history = h })) >> modify (seed C sid)) x)
  unfolding seed
  modify-IsSeeded sid (ok a) h x e = λ b q. (seeded-IsCoupled C.real sid h x.evaluator e, e)
  modify-IsSeeded sid (err y) h x e = λ b q. absurd cc

  save_and_seed-IsSeeded :
      (sid : String) (x : Server F)
      → x.history.current_session_id ≡ some sid
      → targets_of sid x.evaluator.targets ≡ []
      → get_targets C.real sid x.history ≡ []
      → IsSeeded sid (save_and_seed C sid req x)
  unfolding save_and_seed
  save_and_seed-IsSeeded sid x e unknown no_targets = elim (Bool-cases (is_empty req.targets)) [
    | inl b ↦ rw b (λ a q. (
      λ other f.
          subst (λ (y : String). targets_of y x.evaluator.targets ≡ get_targets C.real y x.history)
            (ground (arith, e, f)) (unknown ∙ sym no_targets),
      e,
    ))
    | inr b ↦ rw b (
        let (r, h) = save_all C sid req.addresses req.targets x.history in
        modify-IsSeeded sid r h x (save_all-current sid req.addresses req.targets x.history ∙ e))
  ]

  announce-parts :
      (info : SessionInfo) (x : Server F)
      → parts C.real (announce C req info x).1 ≡ parts C.real (close_prior info.end_event x)
  unfolding announce publish
  announce-parts info x = refl

  announced-Couples :
      (info : SessionInfo) (sid : String) (m : Result (Unit {0}) × Server F) (s : Server F)
      → IsSeeded sid m
      → ((e : EndEvent) → info.end_event ≡ some e → e.session_id ≢ sid)
      → Couples C.real
          (((λ _. m) >>= λ _ s'. (let (reply, s'') = announce C req info s' in (ok reply, s''))) s)
  announced-Couples info sid (r, x) s h ne =
      ok_then-Couples C.real r x s
        (λ _ s'. (let (reply, s'') = announce C req info s' in (ok reply, s'')))
        (λ a p reply q.
          parts-IsCoupled C.real (close_prior info.end_event x) (announce C req info x).1
            (announce-parts info x)
            (close_prior-Coupled C.real sid info.end_event x (h a p).1 ne (h a p).0))

module _ {F : Type 0} (C : Context F) (s : Server F) where
  opened-Couples :
      IsFresh C.real C.uuid s
      → (req : StartRequest F)
      → Couples C.real (
          after_start C req
            (start_info C.iso C.now C.uuid req.addresses "user" req.name req.target_duration_secs
              (end_session_locked C.iso C.now "user" s.history).0)
            (record s {
              history =
                  opened C.iso C.now C.uuid req.addresses "user" req.name req.target_duration_secs
                    s.history;
            }))
  unfolding after_start start_info open_session
  opened-Couples fresh req =
      let h =
        opened C.iso C.now C.uuid req.addresses "user" req.name req.target_duration_secs
          s.history in
      let info =
        start_info C.iso C.now C.uuid req.addresses "user" req.name req.target_duration_secs
          (end_session_locked C.iso C.now "user" s.history).0 in
      announced-Couples C req info C.uuid (save_and_seed C C.uuid req (record s { history = h })) s
        (save_and_seed-IsSeeded C req C.uuid (record s { history = h }) refl fresh.unknown
          (get_targets_same C.real C.uuid s.history h (
              opened-targets C.real C.iso C.now s.history C.uuid req.addresses "user" req.name
                req.target_duration_secs)
            ∙ fresh.no_targets))
        (λ e p q.
          fresh.not_current (ended_id C.real C.iso C.now s.history "user" e p ∙ ap (λ x. some x) q))

  -- The handler from the result of `start_session` on.
  abbrev begun : StartRequest F → Result SessionInfo × Store F → Result (Reply F) × Server F
  begun req m = (on_history (λ _. m) >>= after_start C req) s

  begin_session-Couples :
      IsFresh C.real C.uuid s → (req : StartRequest F) → Couples C.real (begin_session C req s)
  unfolding begin_session
  begin_session-Couples fresh req =
      elim (start_session-cases C.iso C.now C.uuid req.addresses "user" req.name
        req.target_duration_secs s.history) [
          | inl (e, raised) ↦ subst (λ m. Couples C.real (begun req m)) (sym raised) (λ r p. cc)
          | inr (run, _) ↦
              subst (λ m. Couples C.real (begun req m)) (sym run) (opened-Couples fresh req)
        ]

  pub handle_session_start-Couples :
      IsCoupledServer C.real s → IsFresh C.real C.uuid s → Couples C.real (handle_session_start C s)
  unfolding handle_session_start
  handle_session_start-Couples v fresh =
      anyhow-Couples C.real (check_start C s) (begin_session C) s v (begin_session-Couples fresh)
