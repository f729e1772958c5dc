-- ===== src/Server/QuietHandlers.antt =====
-- The handlers that answer with an error (service/api/websocket.py).
use igrill_remote_server.Prelude.{
  String, ◌≡◌, refl, ap, inl, inr, Bool, true, false, Option, none, some, List, arith, Bool-cases,
  Option-cases, if◌then◌else◌, any_where,
}
use igrill_remote_server.Action.{Result, ok, err, ◌>>=◌, ◌>>◌, pure, modify, gets}
use igrill_remote_server.Clock.{now_iso_utc}
use igrill_remote_server.Json.{Json}
use igrill_remote_server.Store.{Store}
use igrill_remote_server.Store.Devices.{session_is}
use igrill_remote_server.Store.Sessions.Discard.{discard_current-inactive, discard_current-active}
use igrill_remote_server.Store.Sessions.{
  EndEvent, SessionInfo, start_session, session_exists, update_session, end_session_locked,
  discard_current_session,
}
use igrill_remote_server.Store.Notes.{upsert_primary_note}
use igrill_remote_server.Store.Devices.{add_device_to_session}
use igrill_remote_server.Store.Targets.{update_targets, get_targets_by_device}
use igrill_remote_server.Target.{TargetConfig}
use igrill_remote_server.Store.Timers.Tidy.{
  IsTidy, upsert_timer-IsTidy, start_timer-IsTidy, pause_timer-IsTidy, resume_timer-IsTidy,
  reset_timer-IsTidy,
}
use igrill_remote_server.Downsampler.Pass.{end_session, downsample_ended}
use igrill_remote_server.Server.{
  Server, Context, Code, Reply, error_reply, ack, publish, is_bindable, ensure, session_notes,
  device_joined, target_update, unauthorized, invalid_action,
}
use igrill_remote_server.Server.Checks.{
  StartRequest, TimerRequest, TimerAction, start, pause, resume, reset, unsupported, check_timer,
  holds, stored_text, check_start, check_notes, check_target_update, check_add, check_update,
}
use igrill_remote_server.Server.Checks
use igrill_remote_server.Server.Handlers.{
  on_history, begin_session, save_and_seed, after_start, announce, handle_session_start,
  handle_session_end, handle_session_discard, handle_session_update, handle_target_update,
  handle_session_add_device, handle_probe_timer, handle_session_notes_update, answer_end,
  answer_discard, answer_timer, answer_update, timer_call, seed, write_targets, edit_targets,
  target_address, is_supported,
}
use igrill_remote_server.Server.Dispatch
use igrill_remote_server.Server.Dispatch.{
  Handler, status, sessions, history, session_start, session_end, session_discard, session_update,
  session_add_device, probe_timer, session_notes_update, Routed, replied, reads, call, answered,
  route, limit, type_of, is_two, payload_of, dispatch, dispatch_object, dispatch_type,
}
use igrill_remote_server.Server.Quiet.{
  IsQuiet, settle-IsQuiet, acked-IsQuiet, update_session-missing, answer_update-IsQuiet,
  answer_end-IsQuiet, answer_discard-IsQuiet, answer_timer-IsQuiet, IsGrounded,
}

module _ {F : Type 0} (C : Context F) (s : Server F) where
  timer_call-IsTidy :
      (q : TimerRequest F) (a : TimerAction) → IsTidy (timer_call C q a s.history) s.history
  unfolding timer_call
  timer_call-IsTidy q Checks.upsert =
      upsert_timer-IsTidy q.session_id q.address q.probe_index q.mode q.duration_secs s.history
  timer_call-IsTidy q start =
      start_timer-IsTidy C.iso C.now q.session_id q.address q.probe_index s.history
  timer_call-IsTidy q pause =
      pause_timer-IsTidy C.iso C.now q.session_id q.address q.probe_index s.history
  timer_call-IsTidy q resume =
      resume_timer-IsTidy C.iso C.now q.session_id q.address q.probe_index s.history
  timer_call-IsTidy q reset = reset_timer-IsTidy q.session_id q.address q.probe_index s.history
  timer_call-IsTidy q unsupported = λ e h. inr refl

  if_supported :
      (b : Bool) (q : TimerRequest F)
      → IsQuiet
          (if b
            then (let (r, h) = timer_call C q q.action s.history in
                answer_timer r (record s { history = h }))
            else (ok (error_reply invalid_action), s))
          s
  if_supported true q =
      answer_timer-IsQuiet (timer_call C q q.action s.history).0
        (timer_call C q q.action s.history).1 s (timer_call-IsTidy q q.action)
  if_supported false q = λ c e. refl

  handle_probe_timer-IsQuiet : IsQuiet (handle_probe_timer C s) s
  unfolding handle_probe_timer
  handle_probe_timer-IsQuiet =
      settle-IsQuiet (check_timer C s)
        (λ q s.
          if is_supported q.action
          then (let (r, h) = timer_call C q q.action s.history in
              answer_timer r (record s { history = h }))
          else (ok (error_reply invalid_action), s))
        s (λ q. if_supported (is_supported q.action) q)

  handle_session_update-IsQuiet : IsQuiet (handle_session_update C s) s
  unfolding handle_session_update
  handle_session_update-IsQuiet =
      settle-IsQuiet (check_update C s)
        (λ (sid, name, notes) s.
          let (row, h) = update_session sid name notes s.history in
          let (reply, s') = answer_update sid row (record s { history = h }) in (ok reply, s'))
        s
        (λ (sid, name, notes).
          let (row, h) = update_session sid name notes s.history in
          answer_update-IsQuiet sid row s (record s { history = h })
            (λ e.
              ap (λ x. record s { history = x })
                (update_session-missing sid name notes s.history e)))

  end_session-none :
      (event : Option EndEvent) (h : Store F)
      → (event ≡ none → h ≡ s.history)
      → (downsample_ended C.averages C.iso C.time_zone C.later C.faults C.ids event h).0 ≡ none
      → (downsample_ended C.averages C.iso C.time_zone C.later C.faults C.ids event h).1 ≡ s.history
  unfolding downsample_ended
  end_session-none none h k e = k refl
  end_session-none (some event) h k e = absurd cc

  end_locked-none :
      (end_session_locked C.iso C.now "user" s.history).0 ≡ none
      → (end_session_locked C.iso C.now "user" s.history).1 ≡ s.history
  unfolding end_session_locked
  end_locked-none e = elim (Option-cases s.history.current_session_id) [
    | inl f ↦ ground (arith, f)
    | inr (sid, f) ↦ ground (arith, e, f)
  ]

  handle_session_end-IsQuiet : IsQuiet (handle_session_end C s) s
  unfolding handle_session_end end_session
  handle_session_end-IsQuiet =
      settle-IsQuiet (ensure C.authorized unauthorized)
        (λ _ s.
          let (event, h) =
            end_session C.averages C.iso C.time_zone C.now C.later C.faults C.ids "user"
              s.history in
          let (reply, s') = answer_end event (record s { history = h }) in (ok reply, s'))
        s
        (λ _.
          let (event, h) =
            end_session C.averages C.iso C.time_zone C.now C.later C.faults C.ids "user"
              s.history in
          answer_end-IsQuiet event s (record s { history = h })
            (λ e.
              ap (λ x. record s { history = x })
                (end_session-none (end_session_locked C.iso C.now "user" s.history).0
                  (end_session_locked C.iso C.now "user" s.history).1 end_locked-none e)))

  grounded_row :
      IsGrounded s
      → (sid : String) → s.history.current_session_id ≡ some sid
      → any_where (session_is sid) s.history.sessions ≡ true
  unfolding session_exists
  grounded_row g sid f = g sid f

  discarded-none :
      IsGrounded s
      → (discard_current_session C.fault s.history).0 ≡ ok none
      → (discard_current_session C.fault s.history).1 ≡ s.history
  discarded-none g e = elim (Option-cases s.history.current_session_id) [
    | inl f ↦ ap (λ m. m.1) (discard_current-inactive C.fault s.history f)
    | inr (sid, f) ↦ elim (discard_current-active C.fault s.history sid f) [
      | inl raised ↦ ap (λ m. m.1) raised
      | inr (r, _, _, _) ↦ absurd (ground (arith, e, r, grounded_row g sid f))
    ]
  ]

  answered_discard :
      (r : Result (Option String)) (h : Store F)
      → (r ≡ ok none → h ≡ s.history)
      → IsQuiet
          (((λ _. (r, record s { history = h })) >>= λ discarded x.
              (let (reply, s') = answer_discard discarded x in (ok reply, s')))
            s)
          s
  answered_discard (err e) h k = λ c x. cc
  answered_discard (ok sid) h k =
      answer_discard-IsQuiet sid s (record s { history = h })
        (λ e. ap (λ x. record s { history = x }) (k (ap (λ x. ok x) e)))

  handle_session_discard-IsQuiet : IsGrounded s → IsQuiet (handle_session_discard C s) s
  unfolding handle_session_discard
  handle_session_discard-IsQuiet g =
      settle-IsQuiet (ensure C.authorized unauthorized)
        (λ _. do
          discarded ← on_history (discard_current_session C.fault)
          λ s. let (reply, s') = answer_discard discarded s in (ok reply, s'))
        s
        (λ _.
          answered_discard (discard_current_session C.fault s.history).0
            (discard_current_session C.fault s.history).1 (discarded-none g))

  handle_session_notes_update-IsQuiet : IsQuiet (handle_session_notes_update C s) s
  unfolding handle_session_notes_update
  handle_session_notes_update-IsQuiet =
      settle-IsQuiet (check_notes C s)
        (λ (sid, body). do
          row ← on_history (upsert_primary_note C.iso C.now C.note_id sid body)
          modify (publish (session_notes row))
          pure (ack (session_notes row)))
        s
        (λ (sid, body).
          let (r, h) = upsert_primary_note C.iso C.now C.note_id sid body s.history in
          acked-IsQuiet r (record s { history = h }) s
            (λ row. modify (publish (session_notes row)) >> pure (ack (session_notes row)))
            (λ row c e. cc))

  handle_session_add_device-IsQuiet : IsQuiet (handle_session_add_device C s) s
  unfolding handle_session_add_device
  handle_session_add_device-IsQuiet =
      settle-IsQuiet (check_add C s)
        (λ (sid, addr). do
          on_history (add_device_to_session C.iso C.now sid addr)
          let message = device_joined sid addr (now_iso_utc C.iso C.later)
          modify (publish message)
          pure (ack message))
        s
        (λ (sid, addr).
          let (r, h) = add_device_to_session C.iso C.now sid addr s.history in
          acked-IsQuiet r (record s { history = h }) s
            (λ _.
              (let message = device_joined sid addr (now_iso_utc C.iso C.later) in
                modify (publish message) >> pure (ack message)))
            (λ row c e. cc))

  write_targets-IsQuiet :
      (sid : String) (targets : List (TargetConfig F)) (addr : Json F)
      → IsQuiet (write_targets C sid targets addr s) s
  unfolding write_targets
  write_targets-IsQuiet sid targets addr =
      let (r, h) = update_targets C.real sid (stored_text C addr) targets s.history in
      acked-IsQuiet r (record s { history = h }) s
        (λ _. do
          modify (seed C sid)
          all_targets ← gets (λ s. get_targets_by_device C.real sid s.history)
          let message = target_update (record {
            session_id = sid;
            device_address = addr;
            targets = targets;
            all_targets = all_targets;
          })
          modify (publish message)
          pure (ack message))
        (λ a c e. cc)

  edit_targets-IsQuiet :
      (sid : String) (targets : List (TargetConfig F)) (addr : Json F)
      → IsQuiet (edit_targets C sid targets addr s) s
  unfolding edit_targets
  edit_targets-IsQuiet sid targets addr = elim (Bool-cases (is_bindable addr)) [
    | inl e ↦ rw e (write_targets-IsQuiet sid targets addr)
    | inr e ↦ rw e (λ c h. cc)
  ]

  handle_target_update-IsQuiet : IsQuiet (handle_target_update C s) s
  unfolding handle_target_update
  handle_target_update-IsQuiet =
      settle-IsQuiet (check_target_update C s)
        (λ (sid, targets, given) s. edit_targets C sid targets (target_address C sid given s) s) s
        (λ (sid, targets, given). edit_targets-IsQuiet sid targets (target_address C sid given s))

  after_start-IsQuiet :
      (req : StartRequest F) (info : SessionInfo) (x : Server F)
      → IsQuiet (after_start C req info x) s
  unfolding after_start announce
  after_start-IsQuiet req info x =
      let (r, y) = save_and_seed C info.session_id req x in
      acked-IsQuiet r y s (λ _ s'. (let (reply, s'') = announce C req info s' in (ok reply, s'')))
        (λ a c e. cc)

  started-IsQuiet :
      (req : StartRequest F) (r : Result SessionInfo) (h : Store F)
      → IsQuiet (((λ _. (r, record s { history = h })) >>= after_start C req) s) s
  started-IsQuiet req (ok info) h = after_start-IsQuiet req info (record s { history = h })
  started-IsQuiet req (err e) h = λ c f. cc

  handle_session_start-IsQuiet : IsQuiet (handle_session_start C s) s
  unfolding handle_session_start begin_session
  handle_session_start-IsQuiet = settle-IsQuiet (check_start C s) (begin_session C) s (λ req.
      let (r, h) =
        start_session C.iso C.now C.uuid req.addresses "user" req.name req.target_duration_secs
          s.history in
      started-IsQuiet req r h)

  -- The handlers.
  abbrev pub IsQuietRouted : Result (Routed F) × Server F → Type 0
  IsQuietRouted m = (c : Code) → m.0 ≡ ok (replied (error_reply c)) → m.1 ≡ s

  answered-IsQuiet :
      (r : Result (Reply F)) (x : Server F) → IsQuiet (r, x) s → IsQuietRouted (answered C (r, x))
  answered-IsQuiet (ok a) x h = λ c e. h c cc
  answered-IsQuiet (err y) x h = λ c e. cc

  pub call-IsQuiet : IsGrounded s → (h : Handler) → IsQuietRouted (call C h s)
  unfolding call
  call-IsQuiet g status = λ c e. refl
  call-IsQuiet g sessions = λ c e. refl
  call-IsQuiet g history = λ c e. refl
  call-IsQuiet g session_start =
      answered-IsQuiet (handle_session_start C s).0 (handle_session_start C s).1
        handle_session_start-IsQuiet
  call-IsQuiet g session_end =
      answered-IsQuiet (handle_session_end C s).0 (handle_session_end C s).1
        handle_session_end-IsQuiet
  call-IsQuiet g session_discard =
      answered-IsQuiet (handle_session_discard C s).0 (handle_session_discard C s).1
        (handle_session_discard-IsQuiet g)
  call-IsQuiet g session_update =
      answered-IsQuiet (handle_session_update C s).0 (handle_session_update C s).1
        handle_session_update-IsQuiet
  call-IsQuiet g Dispatch.target_update =
      answered-IsQuiet (handle_target_update C s).0 (handle_target_update C s).1
        handle_target_update-IsQuiet
  call-IsQuiet g session_add_device =
      answered-IsQuiet (handle_session_add_device C s).0 (handle_session_add_device C s).1
        handle_session_add_device-IsQuiet
  call-IsQuiet g probe_timer =
      answered-IsQuiet (handle_probe_timer C s).0 (handle_probe_timer C s).1
        handle_probe_timer-IsQuiet
  call-IsQuiet g session_notes_update =
      answered-IsQuiet (handle_session_notes_update C s).0 (handle_session_notes_update C s).1
        handle_session_notes_update-IsQuiet
