-- ===== src/Server/Handlers.antt =====
-- The handlers of service/api/websocket.py that change state: the tests of Server/Checks.antt, and
-- then the body.
use igrill_remote_server.Prelude.{
  String, Bool, true, false, Option, none, some, List, [], ◌∷◌, if◌then◌else◌,
}
use igrill_remote_server.Action.{
  Action, Error, Result, ok, err, pure, raise, gets, modify, ◌>>=◌, ◌>>◌, invalid_mode,
  inactive_session, no_such_session, no_such_timer, timer_completed,
}
use igrill_remote_server.Action
use igrill_remote_server.Clock.{now_iso_utc}
use igrill_remote_server.Json.{Json, text}
use igrill_remote_server.Store.{Store, Timer, SessionDevice, Device}
use igrill_remote_server.Store.Devices.{add_device_to_session, get_session_devices}
use igrill_remote_server.Store.Notes.{upsert_primary_note}
use igrill_remote_server.Store.Sessions.{
  EndEvent, SessionInfo, start_session, discard_current_session, update_session,
}
use igrill_remote_server.Store.Targets.{
  save_targets, update_targets, get_targets, get_targets_by_device,
}
use igrill_remote_server.Store.Timers.{
  upsert_timer, start_timer, pause_timer, resume_timer, reset_timer,
}
use igrill_remote_server.Alerts.Evaluate.{clear_session, set_targets}
use igrill_remote_server.Downsampler.Pass.{end_session}
use igrill_remote_server.Target.{TargetConfig}
use igrill_remote_server.Server.{
  Server, Context, Reply, error_reply, ack, Message, session_start, session_end, session_discarded,
  probe_timer, session_notes, target_update, device_joined, session_update, LiveDevice, Code,
  TargetUpdate, publish, settle, upsert, ensure, unauthorized, no_active_session, timer_not_found,
  invalid_action, session_not_found,
}
use igrill_remote_server.Server
use igrill_remote_server.Server.Checks.{
  StartRequest, TimerAction, TimerRequest, start, pause, resume, reset, unsupported, check_start,
  check_timer, check_notes, check_target_update, check_add, check_update, holds, is_empty,
  stored_text,
}
use igrill_remote_server.Server.Checks

module _ {F : Type 0} where
  -- A method of HistoryStore.
  abbrev pub on_history : {A : Type 0} → Action (Store F) A → Action (Server F) A
  on_history m s = let (r, h) = m s.history in (r, record s { history = h })

  unfoldable pub forget_session : String → Server F → Server F
  forget_session sid s = record s { evaluator = clear_session sid s.evaluator }

  -- The session that `start_session` has ended.
  unfoldable pub close_prior : Option EndEvent → Server F → Server F
  unfolding forget_session publish
  close_prior none s = s
  close_prior (some e) s = publish (session_end e) (forget_session e.session_id s)

  unfoldable pub answer_end : Option EndEvent → Server F → Reply F × Server F
  unfolding forget_session publish
  answer_end none s = (error_reply no_active_session, s)
  answer_end (some e) s =
      (ack (session_end e), publish (session_end e) (forget_session e.session_id s))

  unfoldable pub answer_discard : Option String → Server F → Reply F × Server F
  unfolding forget_session publish
  answer_discard none s = (error_reply no_active_session, s)
  answer_discard (some sid) s =
      (ack (session_discarded sid), publish (session_discarded sid) (forget_session sid s))

  -- `except TimerCompletedError` and `except ValueError`; only the text of an invalid mode of
  -- "upsert" has "mode must be" in it.
  unfoldable pub answer_timer : Result Timer → Server F → Result (Reply F) × Server F
  unfolding publish
  answer_timer (ok row) s = (ok (ack (probe_timer row)), publish (probe_timer row) s)
  answer_timer (err timer_completed) s = (ok (error_reply Server.timer_completed), s)
  answer_timer (err invalid_mode) s = (ok (error_reply Server.invalid_mode), s)
  answer_timer (err inactive_session) s = (ok (error_reply timer_not_found), s)
  answer_timer (err no_such_session) s = (ok (error_reply timer_not_found), s)
  answer_timer (err no_such_timer) s = (ok (error_reply timer_not_found), s)
  answer_timer (err e) s = (err e, s)

  unfoldable pub answer_update :
      String → Option (Option String × Option String) → Server F → Reply F × Server F
  unfolding publish
  answer_update sid none s = (error_reply session_not_found, s)
  answer_update sid (some (name, notes)) s =
      (ack (session_update sid name notes), publish (session_update sid name notes) s)

unfoldable pub join_devices : String → String → List String → List LiveDevice → List LiveDevice
join_devices sid ts [] l = l
join_devices sid ts (addr ∷ addrs) l = join_devices sid ts addrs (upsert addr sid ts l)

unfoldable pub is_supported : TimerAction → Bool
is_supported unsupported = false
is_supported _ = true

-- `session_devices[0]["address"]`, or "all"
unfoldable pub first_address : List (SessionDevice × Option Device) → String
first_address [] = "all"
first_address ((m, d) ∷ rest) = m.address

module _ {F : Type 0} (C : Context F) where
  open C use {iso, now, later, real}

  -- `save_targets` for each address.
  unfoldable pub save_all :
      String → List String → List (TargetConfig F) → Action (Store F) (Unit {0})
  save_all sid [] targets = pure tt
  save_all sid (addr ∷ addrs) targets =
      save_targets real sid addr targets >> save_all sid addrs targets

  -- `ctx.evaluator.set_targets(sid, await ctx.history.get_targets(sid))`
  unfoldable pub seed : String → Server F → Server F
  seed sid s = record s {
    evaluator = set_targets real sid (get_targets real sid s.history) s.evaluator;
  }

  unfoldable pub save_and_seed : String → StartRequest F → Action (Server F) (Unit {0})
  unfolding save_all seed
  save_and_seed sid req s =
      if is_empty req.targets
      then (ok tt, s)
      else (on_history (save_all sid req.addresses req.targets) >> modify (seed sid)) s

  -- What follows the writes of the targets.
  unfoldable pub announce : StartRequest F → SessionInfo → Server F → Reply F × Server F
  unfolding close_prior publish join_devices
  announce req info s =
      let closed = close_prior info.end_event s in
      let message =
        session_start info.start_event req.targets
          (get_targets_by_device real info.session_id closed.history) in
      let published = publish message closed in
      (
        ack message,
        record published {
          devices =
              join_devices info.session_id info.session_start_ts req.addresses published.devices;
        },
      )

  -- What follows the start in the store.
  unfoldable pub after_start : StartRequest F → SessionInfo → Action (Server F) (Reply F)
  unfolding save_and_seed announce
  after_start req info = do
    save_and_seed info.session_id req
    λ s'. let (reply, s'') = announce req info s' in (ok reply, s'')

  unfoldable pub begin_session : StartRequest F → Action (Server F) (Reply F)
  unfolding after_start
  begin_session req = do
    info ←
        on_history
          (start_session iso now C.uuid req.addresses "user" req.name req.target_duration_secs)
    after_start req info

  unfoldable pub handle_session_start : Action (Server F) (Reply F)
  unfolding begin_session
  handle_session_start s = settle (check_start C s) begin_session s

  unfoldable pub handle_session_end : Action (Server F) (Reply F)
  unfolding answer_end
  handle_session_end = settle (ensure C.authorized unauthorized) λ _ s.
      let (event, h) =
        end_session C.averages iso C.time_zone now later C.faults C.ids "user" s.history in
      let (reply, s') = answer_end event (record s { history = h }) in (ok reply, s')

  unfoldable pub handle_session_discard : Action (Server F) (Reply F)
  unfolding answer_discard
  handle_session_discard = settle (ensure C.authorized unauthorized) λ _. do
    discarded ← on_history (discard_current_session C.fault)
    λ s. let (reply, s') = answer_discard discarded s in (ok reply, s')

  -- The call of the store.
  unfoldable pub timer_call : TimerRequest F → TimerAction → Action (Store F) Timer
  timer_call q Checks.upsert =
      upsert_timer q.session_id q.address q.probe_index q.mode q.duration_secs
  timer_call q start = start_timer iso now q.session_id q.address q.probe_index
  timer_call q pause = pause_timer iso now q.session_id q.address q.probe_index
  timer_call q resume = resume_timer iso now q.session_id q.address q.probe_index
  timer_call q reset = reset_timer q.session_id q.address q.probe_index
  timer_call q unsupported = raise no_such_timer

  unfoldable pub handle_probe_timer : Action (Server F) (Reply F)
  unfolding answer_timer timer_call is_supported
  handle_probe_timer s =
      settle (check_timer C s)
        (λ q s.
          if is_supported q.action
          then (let (r, h) = timer_call q q.action s.history in
              answer_timer r (record s { history = h }))
          else (ok (error_reply invalid_action), s))
        s

  unfoldable pub handle_session_notes_update : Action (Server F) (Reply F)
  unfolding publish
  handle_session_notes_update s =
      settle (check_notes C s)
        (λ (sid, body). do
          row ← on_history (upsert_primary_note iso now C.note_id sid body)
          modify (publish (session_notes row))
          pure (ack (session_notes row)))
        s

  unfoldable pub target_address : String → Json F → Server F → Json F
  unfolding first_address
  target_address sid given s =
      if holds C given then given else text (first_address (get_session_devices sid s.history))

  unfoldable pub write_targets :
      String → List (TargetConfig F) → Json F → Action (Server F) (Reply F)
  unfolding seed publish
  write_targets sid targets addr = do
    on_history (update_targets real sid (stored_text C addr) targets)
    modify (seed sid)
    all_targets ← gets (λ s. get_targets_by_device real sid s.history)
    let message = target_update (record {
      session_id = sid;
      device_address = addr;
      targets = targets;
      all_targets = all_targets;
    })
    modify (publish message)
    pure (ack message)

  unfoldable pub edit_targets :
      String → List (TargetConfig F) → Json F → Action (Server F) (Reply F)
  unfolding write_targets
  edit_targets sid targets addr s =
      if Server.is_bindable addr
      then write_targets sid targets addr s
      else (err Action.type_error, s)

  unfoldable pub handle_target_update : Action (Server F) (Reply F)
  unfolding edit_targets target_address
  handle_target_update s =
      settle (check_target_update C s)
        (λ (sid, targets, given) s. edit_targets sid targets (target_address sid given s) s) s

  unfoldable pub handle_session_add_device : Action (Server F) (Reply F)
  unfolding publish
  handle_session_add_device s =
      settle (check_add C s)
        (λ (sid, addr). do
          on_history (add_device_to_session iso now sid addr)
          let message = device_joined sid addr (now_iso_utc iso later)
          modify (publish message)
          pure (ack message))
        s

  unfoldable pub handle_session_update : Action (Server F) (Reply F)
  unfolding answer_update
  handle_session_update s =
      settle (check_update C s)
        (λ (sid, name, notes) s.
          let (row, h) = update_session sid name notes s.history in
          let (reply, s') = answer_update sid row (record s { history = h }) in (ok reply, s'))
        s
