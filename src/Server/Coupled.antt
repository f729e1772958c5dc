-- ===== src/Server/Coupled.antt =====
-- The handlers that answer leave the evaluator with the targets of the store
-- (service/api/websocket.py).
use igrill_remote_server.Prelude.{
  ℕ, ℤ, String, ◌≡◌, refl, sym, ap, subst, Bool, true, false, Option, none, some, arith,
  if◌then◌else◌,
}
use igrill_remote_server.Action.{
  Action, Result, ok, err, invalid_mode, inactive_session, no_such_session, no_such_timer,
  timer_completed, integrity_error, assertion_error, database_error, key_error, value_error,
  overflow_error, type_error, attribute_error, ◌>>=◌, ◌>>◌, pure, modify,
}
use igrill_remote_server.Action.Frame.{bind-frame}
use igrill_remote_server.Clock.{Iso, now_iso_utc}
use igrill_remote_server.Real.{Real}
use igrill_remote_server.Store.{Store, Timer}
use igrill_remote_server.Store.Devices.{add_device_to_session, register_device_locked, join_session}
use igrill_remote_server.Store.Notes.{upsert_primary_note, write_note, copy_notes}
use igrill_remote_server.Store.Sessions.{update_session}
use igrill_remote_server.Store.Timers.{upsert_timer, require_active_session, put_timer}
use igrill_remote_server.Store.Timers.Frame.{run_op-rest}
use igrill_remote_server.Store.Timers.Phase
use igrill_remote_server.Store.Timers.Phase.{run_op}
use igrill_remote_server.Alerts.{Evaluator}
use igrill_remote_server.Server.{
  Server, Context, Reply, error_reply, ack, Checked, passes, rejects, throws, settle, publish,
  session_notes, device_joined, invalid_action,
}
use igrill_remote_server.Server.Checks.{
  TimerRequest, TimerAction, upsert, start, pause, resume, reset, unsupported, check_timer,
  check_notes, check_add, check_update,
}
use igrill_remote_server.Server.Handlers.{
  on_history, answer_timer, answer_update, timer_call, is_supported, handle_probe_timer,
  handle_session_notes_update, handle_session_add_device, handle_session_update,
}
use igrill_remote_server.Server.Coupling.{IsCoupled, SameTargets, same-IsCoupled}

-- What holds where the tests pass.
abbrev pub OnPass {ℓ} : {A : Type 0} → (A → Type ℓ) → Checked A → Type ℓ
OnPass P (passes a) = P a
OnPass P (rejects c) = Unit
OnPass P (throws e) = Unit

module _ {F : Type 0} (R : Real F) where
  abbrev pub IsCoupledServer : Server F → Type 0
  IsCoupledServer s = IsCoupled R s.history s.evaluator

  -- An answer leaves the two coupled.
  abbrev pub Couples : Result (Reply F) × Server F → Type 0
  Couples m = (r : Reply F) → m.0 ≡ ok r → IsCoupledServer m.1

  pub settle-Couples :
      {A : Type 0} (P : A → Type 0) (t : Checked A) (body : A → Action (Server F) (Reply F))
      (s : Server F)
      → IsCoupledServer s
      → OnPass P t
      → ((a : A) → P a → Couples (body a s))
      → Couples (settle t body s)
  unfolding settle
  settle-Couples P (passes a) body s v p h = h a p
  settle-Couples P (rejects c) body s v p h = λ r e. v
  settle-Couples P (throws x) body s v p h = λ r e. v

  pub anyhow-Couples :
      {A : Type 0} (t : Checked A) (body : A → Action (Server F) (Reply F)) (s : Server F)
      → IsCoupledServer s
      → ((a : A) → Couples (body a s))
      → Couples (settle t body s)
  unfolding settle
  anyhow-Couples (passes a) body s v h = h a
  anyhow-Couples (rejects c) body s v h = λ r e. v
  anyhow-Couples (throws x) body s v h = λ r e. v

  abbrev pub parts : Server F → Store F × Evaluator F
  parts s = (s.history, s.evaluator)

  pub parts-IsCoupled : (s x : Server F) → parts x ≡ parts s → IsCoupledServer s → IsCoupledServer x
  parts-IsCoupled s x e = subst (λ p. IsCoupled R p.0 p.1) (sym e)

  -- A call of the store that leaves session and targets, and a rest that touches neither.
  bind-Couples :
      {A : Type 0} (r : Result A) (h : Store F) (s : Server F) (f : A → Action (Server F) (Reply F))
      → SameTargets R s.history h
      → ((a : A) (x : Server F) → parts (f a x).1 ≡ parts x)
      → IsCoupledServer s
      → Couples (((λ _. (r, record s { history = h })) >>= f) s)
  bind-Couples r h s f k q v = λ reply e.
      parts-IsCoupled (record s { history = h }) (((λ _. (r, record s { history = h })) >>= f) s).1
        (bind-frame parts r (record s { history = h }) f q)
        (same-IsCoupled R s.history h s.evaluator k v)

  answer_timer-parts : (r : Result Timer) (s : Server F) → parts (answer_timer r s).1 ≡ parts s
  unfolding answer_timer publish
  answer_timer-parts (ok row) s = refl
  answer_timer-parts (err e) s = elim e as (λ x. parts (answer_timer (err x) s).1 ≡ parts s) [
    | invalid_mode ↦ refl
    | inactive_session ↦ refl
    | no_such_session ↦ refl
    | no_such_timer ↦ refl
    | timer_completed ↦ refl
    | integrity_error ↦ refl
    | assertion_error ↦ refl
    | database_error ↦ refl
    | key_error ↦ refl
    | value_error ↦ refl
    | overflow_error ↦ refl
    | type_error ↦ refl
    | attribute_error ↦ refl
  ]

  add_device-SameTargets :
      (I : Iso) (now : ℕ) (sid addr : String) (h : Store F)
      → SameTargets R h (add_device_to_session I now sid addr h).1
  unfolding add_device_to_session register_device_locked join_session
  add_device-SameTargets I now sid addr h = (ground arith, ground arith)

  note-SameTargets :
      (I : Iso) (now id : ℕ) (sid body : String) (h : Store F)
      → SameTargets R h (upsert_primary_note I now id sid body h).1
  unfolding upsert_primary_note write_note copy_notes
  note-SameTargets I now id sid body h = (ground arith, ground arith)

  update-SameTargets :
      (sid : String) (name notes : Option String) (h : Store F)
      → SameTargets R h (update_session sid name notes h).1
  unfolding update_session
  update-SameTargets sid name notes h = (ground arith, ground arith)

  upsert_timer-SameTargets :
      (sid addr : String) (idx : ℤ) (mode : String) (d : Option ℤ) (h : Store F)
      → SameTargets R h (upsert_timer sid addr idx mode d h).1
  unfolding upsert_timer require_active_session put_timer
  upsert_timer-SameTargets sid addr idx mode d h = (ground arith, ground arith)

  run_op-SameTargets :
      (I : Iso) (now : ℕ) (op : Phase.TimerOp) (sid addr : String) (idx : ℤ) (h : Store F)
      → SameTargets R h (run_op I now op sid addr idx h).1
  run_op-SameTargets I now op sid addr idx h =
      let e = (run_op-rest sid addr idx h I now op).0 in
      (ap (λ (x : Store F). x.current_session_id) e, ap (λ (x : Store F). x.session_targets) e)

module _ {F : Type 0} (C : Context F) (s : Server F) (v : IsCoupledServer C.real s) where
  timer_call-SameTargets :
      (q : TimerRequest F) (a : TimerAction)
      → SameTargets C.real s.history (timer_call C q a s.history).1
  unfolding timer_call run_op
  timer_call-SameTargets q upsert =
      upsert_timer-SameTargets C.real q.session_id q.address q.probe_index q.mode q.duration_secs
        s.history
  timer_call-SameTargets q start =
      run_op-SameTargets C.real C.iso C.now Phase.start q.session_id q.address q.probe_index
        s.history
  timer_call-SameTargets q pause =
      run_op-SameTargets C.real C.iso C.now Phase.pause q.session_id q.address q.probe_index
        s.history
  timer_call-SameTargets q resume =
      run_op-SameTargets C.real C.iso C.now Phase.resume q.session_id q.address q.probe_index
        s.history
  timer_call-SameTargets q reset =
      run_op-SameTargets C.real C.iso C.now Phase.reset q.session_id q.address q.probe_index
        s.history
  timer_call-SameTargets q unsupported = (refl, refl)

  if_supported :
      (b : Bool) (q : TimerRequest F)
      → Couples C.real (
          if b
          then (let (r, h) = timer_call C q q.action s.history in
              answer_timer r (record s { history = h }))
          else (ok (error_reply invalid_action), s))
  if_supported false q = λ r e. v
  if_supported true q = λ reply e.
      let (r, h) = timer_call C q q.action s.history in
      parts-IsCoupled C.real (record s { history = h })
        (answer_timer r (record s { history = h })).1
        (answer_timer-parts C.real r (record s { history = h }))
        (same-IsCoupled C.real s.history h s.evaluator (timer_call-SameTargets q q.action) v)

  pub handle_probe_timer-Couples : Couples C.real (handle_probe_timer C s)
  unfolding handle_probe_timer
  handle_probe_timer-Couples =
      anyhow-Couples C.real (check_timer C s)
        (λ q s.
          if is_supported q.action
          then (let (r, h) = timer_call C q q.action s.history in
              answer_timer r (record s { history = h }))
          else (ok (error_reply invalid_action), s))
        s v (λ q. if_supported (is_supported q.action) q)

  pub handle_session_notes_update-Couples : Couples C.real (handle_session_notes_update C s)
  unfolding handle_session_notes_update publish
  handle_session_notes_update-Couples =
      anyhow-Couples C.real (check_notes C s)
        (λ (sid, body). do
          row ← on_history (upsert_primary_note C.iso C.now C.note_id sid body)
          modify (publish (session_notes row))
          pure (ack (session_notes row)))
        s v
        (λ (sid, body).
          let (r, h) = upsert_primary_note C.iso C.now C.note_id sid body s.history in
          bind-Couples C.real r h s
            (λ row. modify (publish (session_notes row)) >> pure (ack (session_notes row)))
            (note-SameTargets C.real C.iso C.now C.note_id sid body s.history) (λ row x. refl) v)

  pub handle_session_add_device-Couples : Couples C.real (handle_session_add_device C s)
  unfolding handle_session_add_device publish
  handle_session_add_device-Couples =
      anyhow-Couples C.real (check_add C s)
        (λ (sid, addr). do
          on_history (add_device_to_session C.iso C.now sid addr)
          let message = device_joined sid addr (now_iso_utc C.iso C.later)
          modify (publish message)
          pure (ack message))
        s v
        (λ (sid, addr).
          let (r, h) = add_device_to_session C.iso C.now sid addr s.history in
          bind-Couples C.real r h s
            (λ _.
              (let message = device_joined sid addr (now_iso_utc C.iso C.later) in
                modify (publish message) >> pure (ack message)))
            (add_device-SameTargets C.real C.iso C.now sid addr s.history) (λ row x. refl) v)

  answer_update-parts :
      (sid : String) (row : Option (Option String × Option String)) (x : Server F)
      → parts C.real (answer_update sid row x).1 ≡ parts C.real x
  unfolding answer_update publish
  answer_update-parts sid none x = refl
  answer_update-parts sid (some (name, notes)) x = refl

  pub handle_session_update-Couples : Couples C.real (handle_session_update C s)
  unfolding handle_session_update
  handle_session_update-Couples =
      anyhow-Couples C.real (check_update C s)
        (λ (sid, name, notes) s.
          let (row, h) = update_session sid name notes s.history in
          let (reply, s') = answer_update sid row (record s { history = h }) in (ok reply, s'))
        s v
        (λ (sid, name, notes) reply e.
          let (row, h) = update_session sid name notes s.history in
          parts-IsCoupled C.real (record s { history = h })
            (answer_update sid row (record s { history = h })).1
            (answer_update-parts sid row (record s { history = h }))
            (same-IsCoupled C.real s.history h s.evaluator
              (update-SameTargets C.real sid name notes s.history) v))
