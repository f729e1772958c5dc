-- ===== src/Server/Acks.antt =====
-- A start request that passes its tests is acknowledged (service/api/websocket.py).
use igrill_remote_server.Prelude.{
  String, ◌≡◌, refl, ap, inl, inr, Bool, true, List, [], ◌∷◌, ◌++◌, arith, str_eq_refl, Bool-cases,
  any_where, All, sym, subst, false, fits_given,
}
use igrill_remote_server.Action.{Action, Result, ok, err, overflow_error, ◌>>=◌, ◌>>◌, modify}
use igrill_remote_server.Real.{Real}
use igrill_remote_server.Store.{Store}
use igrill_remote_server.Store.Devices.{session_is}
use igrill_remote_server.Store.Sessions.{start_info, end_session_locked, SessionInfo}
use igrill_remote_server.Store.Sessions.Soundness.{
  opened, sessions-start, new_row, start_session-ok, start_session-overflow,
}
use igrill_remote_server.Store.Targets.{is_bound, save_targets, replace_target}
use igrill_remote_server.Target.{TargetConfig}
use igrill_remote_server.Server.{Server, Context, ack, Message, passes, settle}
use igrill_remote_server.Server.Checks.{StartRequest, check_start, is_empty}
use igrill_remote_server.Server.Handlers.{
  seed, on_history, save_all, after_start, save_and_seed, announce, begin_session,
  handle_session_start,
}

module _ {F : Type 0} where
  -- The integers of the targets can be bound.
  abbrev pub AreBound : List (TargetConfig F) → Type 0
  AreBound ts = All (λ (t : TargetConfig F). is_bound t ≡ true) ts

module _ {F : Type 0} (sid : String) where
  -- The session has a row, which the foreign key of a target asks for.
  abbrev HasSession : Store F → Type 0
  HasSession h = any_where (session_is sid) h.sessions ≡ true

  -- The call returns, and the session keeps its row.
  abbrev Returns : Result (Unit {0}) × Store F → Type 0
  Returns m = (m.0 ≡ ok tt) × HasSession m.1

  bind-Returns :
      (m : Result (Unit {0}) × Store F) (s : Store F) (n : Action (Store F) (Unit {0}))
      → Returns m
      → ((h : Store F) → HasSession h → Returns (n h))
      → Returns (((λ _. m) >> n) s)
  bind-Returns (ok a, x) s n v k = k x v.1
  bind-Returns (err e, x) s n v k = absurd cc

module _ {F : Type 0} (R : Real F) (sid : String) where
  replace_target-Returns :
      (addr : String) (t : TargetConfig F) (h : Store F)
      → is_bound t ≡ true
      → HasSession sid h
      → Returns sid (replace_target R sid addr t h)
  unfolding replace_target
  replace_target-Returns addr t h b e = rw (b, e) (refl, e)

  save_targets-Returns :
      (addr : String) (ts : List (TargetConfig F)) (h : Store F)
      → AreBound ts
      → HasSession sid h
      → Returns sid (save_targets R sid addr ts h)
  unfolding save_targets
  save_targets-Returns addr [] h b e = (refl, e)
  save_targets-Returns addr (t ∷ ts) h b e =
      bind-Returns sid (replace_target R sid addr t h) h (save_targets R sid addr ts)
        (replace_target-Returns addr t h b.0 e) (λ x f. save_targets-Returns addr ts x b.1 f)

any_where-last {ℓ} :
    {A : Type ℓ} (p : A → Bool) (l : List A) (x : A) → p x ≡ true → any_where p (l ++ x ∷ []) ≡ true
any_where-last p [] x e = rw e refl
any_where-last p (y ∷ ys) x e = ground (arith, any_where-last p ys x e)

module _ {F : Type 0} (C : Context F) where
  save_all-Returns :
      (sid : String) (addrs : List String) (ts : List (TargetConfig F)) (h : Store F)
      → AreBound ts
      → HasSession sid h
      → Returns sid (save_all C sid addrs ts h)
  unfolding save_all
  save_all-Returns sid [] ts h b e = (refl, e)
  save_all-Returns sid (addr ∷ addrs) ts h b e =
      bind-Returns sid (save_targets C.real sid addr ts h) h (save_all C sid addrs ts)
        (save_targets-Returns C.real sid addr ts h b e) (λ x f. save_all-Returns sid addrs ts x b f)

  seeds :
      (sid : String) (m : Result (Unit {0}) × Store F) (x : Server F)
      → m.0 ≡ ok tt
      → (((λ _. (m.0, record x { history = m.1 })) >> modify (seed C sid)) x).0 ≡ ok tt
  seeds sid (ok a, h) x e = refl
  seeds sid (err y, h) x e = cc

  save_and_seed-ok :
      (sid : String) (req : StartRequest F) (x : Server F)
      → AreBound req.targets
      → HasSession sid x.history
      → (save_and_seed C sid req x).0 ≡ ok tt
  unfolding save_and_seed
  save_and_seed-ok sid req x bound e = elim (Bool-cases (is_empty req.targets)) [
    | inl b ↦ rw b refl
    | inr b ↦ rw b (
        seeds sid (save_all C sid req.addresses req.targets x.history) x
          (save_all-Returns sid req.addresses req.targets x.history bound e).0)
  ]

  announced-ack :
      (req : StartRequest F) (info : SessionInfo) (m : Result (Unit {0}) × Server F) (s : Server F)
      → m.0 ≡ ok tt
      → (message : Message F) × ((((λ _. m) >>= λ _ s'.
              (let (reply, s'') = announce C req info s' in (ok reply, s'')))
            s).0
          ≡ ok (ack message))
  unfolding announce
  announced-ack req info (ok a, x) s e = (_, refl)
  announced-ack req info (err y, x) s e = absurd cc

  module _ (s : Server F) (req : StartRequest F) where
    after_start-ack :
        AreBound req.targets
        → (message : Message F) × ((after_start C req
              (start_info C.iso C.now C.uuid req.addresses "user" req.name req.target_duration_secs
                (end_session_locked C.iso C.now "user" s.history).0)
              (record s {
                history =
                    opened C.iso C.now C.uuid req.addresses "user" req.name req.target_duration_secs
                      s.history;
              })).0
            ≡ ok (ack message))
    unfolding after_start start_info
    after_start-ack bound =
        let x : Server F = record s {
          history =
              opened C.iso C.now C.uuid req.addresses "user" req.name req.target_duration_secs
                s.history;
        } in
        announced-ack req
          (start_info C.iso C.now C.uuid req.addresses "user" req.name req.target_duration_secs
            (end_session_locked C.iso C.now "user" s.history).0)
          (save_and_seed C C.uuid req x) s
          (save_and_seed-ok C.uuid req x bound (
            rw
              (sessions-start C.iso C.now C.uuid req.addresses "user" req.name
                req.target_duration_secs s.history)
              (any_where-last (session_is C.uuid)
                (end_session_locked C.iso C.now "user" s.history).1.sessions
                (new_row C.iso C.now C.uuid req.addresses "user" req.name req.target_duration_secs
                  s.history)
                (str_eq_refl C.uuid))))

    -- A start request that passes the tests of the handler, whose duration and targets have
    -- integers of 64 bits, is acknowledged where its uuid is new to the table: neither the store nor
    -- the handler raises, whichever session was active.
    pub handle_session_start-ack :
        check_start C s ≡ passes req
        → fits_given req.target_duration_secs ≡ true
        → AreBound req.targets
        → any_where (session_is C.uuid) s.history.sessions ≡ false
        → (message : Message F) × ((handle_session_start C s).0 ≡ ok (ack message))
    unfolding handle_session_start settle begin_session
    handle_session_start-ack e fits bound fresh =
        simp (e, settle)
          (subst
            (λ m.
              (message : Message F) × (((on_history (λ _. m) >>= after_start C req) s).0
                ≡ ok (ack message)))
            (sym (
              start_session-ok C.iso C.now C.uuid req.addresses "user" req.name
                req.target_duration_secs s.history fits fresh))
            (after_start-ack bound))

    -- A start request that passes the tests of the handler with a duration beyond 64 bits raises
    -- OverflowError out of the handler. The prior session has then ended in the store, but its end is
    -- not announced, and the evaluator and the devices still have it.
    pub handle_session_start-overflow :
        check_start C s ≡ passes req
        → fits_given req.target_duration_secs ≡ false
        → handle_session_start C s ≡ (
          err overflow_error,
          record s { history = (end_session_locked C.iso C.now "user" s.history).1 },
        )
    unfolding handle_session_start settle begin_session
    handle_session_start-overflow e large =
        simp (e, settle)
          (ap (λ m. (on_history (λ _. m) >>= after_start C req) s)
            (start_session-overflow C.iso C.now C.uuid req.addresses "user" req.name
              req.target_duration_secs s.history large))
