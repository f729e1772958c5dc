-- ===== src/Server/Dispatch.antt =====
-- The loop body of websocket_handler of service/api/websocket.py: one message, from json.loads to the
-- handler. The dictionary of handlers is the function `handler_of`.
use igrill_remote_server.Prelude.{
  ℕ, pos, String, Bool, true, false, ◌&&◌, Option, none, some, str_eq, eq_ℤ, if◌then◌else◌,
}
use igrill_remote_server.Action.{Action, Result, ok, err, type_error}
use igrill_remote_server.Json.{Json, null, int, float, text, array, object, Fields, end, get_field}
use igrill_remote_server.RateLimiter.{RateLimiter, allow}
use igrill_remote_server.Server.{
  Server, Context, Reply, error_reply, Code, invalid_json, invalid_message, unsupported_version,
  rate_limited, missing_request_id, unknown_type,
}
use igrill_remote_server.Server.Checks.{holds}
use igrill_remote_server.Server.Handlers.{
  handle_session_start, handle_session_end, handle_session_discard, handle_session_update,
  handle_target_update, handle_session_add_device, handle_probe_timer, handle_session_notes_update,
}

-- `_MESSAGE_HANDLERS`: the first three only read.
pub data Handler : Type 0 where
  status sessions history : Handler
  session_start session_end session_discard session_update target_update : Handler
  session_add_device probe_timer session_notes_update : Handler

-- The answer to a message, or the reading handler that it is handed to with its payload.
pub data Routed (F : Type 0) : Type 0 where
  replied : Reply F → Routed F
  reads : Handler → Json F → Routed F

unfoldable pub handler_of : String → Option Handler
handler_of t =
    if str_eq t "status_request"
    then some status
    else if str_eq t "sessions_request"
    then some sessions
    else if str_eq t "history_request"
    then some history
    else if str_eq t "session_start_request"
    then some session_start
    else if str_eq t "session_end_request"
    then some session_end
    else if str_eq t "session_discard_request"
    then some session_discard
    else if str_eq t "session_update_request"
    then some session_update
    else if str_eq t "target_update_request"
    then some target_update
    else if str_eq t "session_add_device_request"
    then some session_add_device
    else if str_eq t "probe_timer_request"
    then some probe_timer
    else if str_eq t "session_notes_update_request"
    then some session_notes_update
    else none

-- `_SESSION_CONTROL_TYPES` are the types of the handlers that write.
abbrev pub is_control : Option Handler → Bool
is_control none = false
is_control (some status) = false
is_control (some sessions) = false
is_control (some history) = false
is_control (some _) = true

module _ {F : Type 0} where
  abbrev pub type_of : Json F → Result (Option Handler)
  type_of (text t) = ok (handler_of t)
  type_of (array l) = err type_error
  type_of (object o) = err type_error
  type_of _ = ok none

module _ {F : Type 0} (C : Context F) where
  open C use {real}

  -- `msg_version != PROTOCOL_VERSION`
  abbrev pub is_two : Json F → Bool
  is_two (int n) = eq_ℤ n (pos 2)
  is_two (float x) = real.le x (real.of_ℕ 2) && real.le (real.of_ℕ 2) x
  is_two _ = false

  -- `data.get("payload") or {}`
  abbrev pub payload_of : Fields F → Json F
  payload_of fields = let v = get_field "payload" null fields in if holds C v then v else object end

  abbrev pub answered : Result (Reply F) × Server F → Result (Routed F) × Server F
  answered (ok r, s) = (ok (replied r), s)
  answered (err e, s) = (err e, s)

  unfoldable pub call : Handler → Action (Server F) (Routed F)
  call status s = (ok (reads status C.payload), s)
  call sessions s = (ok (reads sessions C.payload), s)
  call history s = (ok (reads history C.payload), s)
  call session_start s = answered (handle_session_start C s)
  call session_end s = answered (handle_session_end C s)
  call session_discard s = answered (handle_session_discard C s)
  call session_update s = answered (handle_session_update C s)
  call target_update s = answered (handle_target_update C s)
  call session_add_device s = answered (handle_session_add_device C s)
  call probe_timer s = answered (handle_probe_timer C s)
  call session_notes_update s = answered (handle_session_notes_update C s)

module _ {F : Type 0} (C : Context F) where
  abbrev pub refuse : Code → Action (Server F) (Routed F)
  refuse c s = (ok (replied (error_reply c)), s)

  -- The lookup of the handler and the test of `requestId`.
  unfoldable pub route : Option Handler → Fields F → Action (Server F) (Routed F)
  unfolding call
  route none fields s = refuse unknown_type s
  route (some h) fields s =
      if holds C (get_field "requestId" null fields)
      then call (record C { payload = payload_of C fields }) h s
      else refuse missing_request_id s

  -- The messages of a control type count for the peer.
  unfoldable pub limit : ℕ → String → Option Handler → RateLimiter → Bool × RateLimiter
  limit mono peer h r = if is_control h then allow mono peer r else (true, r)

  unfoldable pub dispatch_type :
      ℕ → String → Result (Option Handler) → Fields F → Action (RateLimiter × Server F) (Routed F)
  unfolding route limit
  dispatch_type mono peer (err e) fields (r, s) = (err e, (r, s))
  dispatch_type mono peer (ok h) fields (r, s) =
      let (allowed, r') = limit mono peer h r in
      let (answer, s') = (if allowed then route h fields s else refuse rate_limited s) in
      (answer, (r', s'))

  unfoldable pub dispatch_object : ℕ → String → Json F → Action (RateLimiter × Server F) (Routed F)
  unfolding dispatch_type
  dispatch_object mono peer (object fields) (r, s) =
      if is_two C (get_field "v" null fields)
      then dispatch_type mono peer (type_of (get_field "type" null fields)) fields (r, s)
      else (ok (replied (error_reply unsupported_version)), (r, s))
  dispatch_object mono peer _ (r, s) = (ok (replied (error_reply invalid_message)), (r, s))

  -- `none` is a frame that json.loads does not read.
  unfoldable pub dispatch :
      ℕ → String → Option (Json F) → Action (RateLimiter × Server F) (Routed F)
  unfolding dispatch_object
  dispatch mono peer none (r, s) = (ok (replied (error_reply invalid_json)), (r, s))
  dispatch mono peer (some v) (r, s) = dispatch_object mono peer v (r, s)
