-- ===== src/Server/Calls.antt =====
-- Every message, in the store and the evaluator (service/api/websocket.py).
use igrill_remote_server.Prelude.{ℕ, String, ◌≡◌, refl, inl, inr, Option, none, some, Bool-cases}
use igrill_remote_server.Action.{Result, ok, err}
use igrill_remote_server.Json.{Json, null, flag, int, float, text, array, object, Fields, get_field}
use igrill_remote_server.RateLimiter.{RateLimiter}
use igrill_remote_server.Server.{Server, Context, Reply}
use igrill_remote_server.Server.Checks.{holds}
use igrill_remote_server.Server.Handlers.{
  handle_session_start, handle_session_end, handle_session_discard, handle_session_update,
  handle_target_update, handle_session_add_device, handle_probe_timer, handle_session_notes_update,
}
use igrill_remote_server.Server.Dispatch.{
  Handler, status, sessions, history, session_start, session_end, session_discard, session_update,
  target_update, session_add_device, probe_timer, session_notes_update, Routed, call, answered,
  payload_of, is_two, type_of, limit, route, dispatch_type, dispatch_object, dispatch,
}
use igrill_remote_server.Server.Coupled.{
  IsCoupledServer, Couples, handle_probe_timer-Couples, handle_session_notes_update-Couples,
  handle_session_add_device-Couples, handle_session_update-Couples,
}
use igrill_remote_server.Server.Lifecycle.{
  handle_session_end-Couples, handle_session_discard-Couples, handle_target_update-Couples,
}
use igrill_remote_server.Server.Start.{IsFresh, handle_session_start-Couples}

module _ {F : Type 0} (C : Context F) where
  abbrev CouplesRouted : Result (Routed F) × Server F → Type 0
  CouplesRouted m = (r : Routed F) → m.0 ≡ ok r → IsCoupledServer C.real m.1

  answered-Couples :
      (r : Result (Reply F)) (x : Server F)
      → Couples C.real (r, x)
      → CouplesRouted (answered C (r, x))
  answered-Couples (ok a) x h = λ q e. h a refl
  answered-Couples (err y) x h = λ q e. absurd cc

  module _ (s : Server F) (v : IsCoupledServer C.real s) (fresh : IsFresh C.real C.uuid s) where
    call-Couples : (h : Handler) → CouplesRouted (call C h s)
    unfolding call
    call-Couples status = λ q e. v
    call-Couples sessions = λ q e. v
    call-Couples history = λ q e. v
    call-Couples session_start =
        answered-Couples (handle_session_start C s).0 (handle_session_start C s).1
          (handle_session_start-Couples C s v fresh)
    call-Couples session_end =
        answered-Couples (handle_session_end C s).0 (handle_session_end C s).1
          (handle_session_end-Couples C s v)
    call-Couples session_discard =
        answered-Couples (handle_session_discard C s).0 (handle_session_discard C s).1
          (handle_session_discard-Couples C s v)
    call-Couples session_update =
        answered-Couples (handle_session_update C s).0 (handle_session_update C s).1
          (handle_session_update-Couples C s v)
    call-Couples target_update =
        answered-Couples (handle_target_update C s).0 (handle_target_update C s).1
          (handle_target_update-Couples C s v)
    call-Couples session_add_device =
        answered-Couples (handle_session_add_device C s).0 (handle_session_add_device C s).1
          (handle_session_add_device-Couples C s v)
    call-Couples probe_timer =
        answered-Couples (handle_probe_timer C s).0 (handle_probe_timer C s).1
          (handle_probe_timer-Couples C s v)
    call-Couples session_notes_update =
        answered-Couples (handle_session_notes_update C s).0 (handle_session_notes_update C s).1
          (handle_session_notes_update-Couples C s v)

module _ {F : Type 0} (C : Context F) (s : Server F) (v : IsCoupledServer C.real s)
    (fresh : IsFresh C.real C.uuid s) where
  route-Couples : (h : Option Handler) (fields : Fields F) → CouplesRouted C (route C h fields s)
  unfolding route
  route-Couples none fields = λ q e. v
  route-Couples (some h) fields = elim (Bool-cases (holds C (get_field "requestId" null fields))) [
    | inl e ↦ rw e (call-Couples (record C { payload = payload_of C fields }) s v fresh h)
    | inr e ↦ rw e (λ q x. v)
  ]

  module _ (mono : ℕ) (peer : String) (r : RateLimiter) (answer : Routed F) where
    dispatch_type-coupled :
        (h : Result (Option Handler)) (fields : Fields F)
        → (dispatch_type C mono peer h fields (r, s)).0 ≡ ok answer
        → IsCoupledServer C.real (dispatch_type C mono peer h fields (r, s)).1.1
    unfolding dispatch_type
    dispatch_type-coupled (err e) fields = λ h. v
    dispatch_type-coupled (ok h) fields = elim (Bool-cases (limit C mono peer h r).0) [
      | inl e ↦ rw e (route-Couples h fields answer)
      | inr e ↦ rw e (λ x. v)
    ]

    dispatch_object-coupled :
        (j : Json F)
        → (dispatch_object C mono peer j (r, s)).0 ≡ ok answer
        → IsCoupledServer C.real (dispatch_object C mono peer j (r, s)).1.1
    unfolding dispatch_object
    dispatch_object-coupled null = λ h. v
    dispatch_object-coupled (flag b) = λ h. v
    dispatch_object-coupled (int n) = λ h. v
    dispatch_object-coupled (float x) = λ h. v
    dispatch_object-coupled (text t) = λ h. v
    dispatch_object-coupled (array l) = λ h. v
    dispatch_object-coupled (object fields) =
        elim (Bool-cases (is_two C (get_field "v" null fields))) [
          | inl e ↦ rw e (dispatch_type-coupled (type_of (get_field "type" null fields)) fields)
          | inr e ↦ rw e (λ x. v)
        ]

    -- Where the evaluator has the targets of the current session and the next session id is fresh,
    -- any message that does not raise leaves the evaluator with the targets of the session that is
    -- current then.
    pub dispatch-IsCoupledServer :
        (raw : Option (Json F))
        → (dispatch C mono peer raw (r, s)).0 ≡ ok answer
        → IsCoupledServer C.real (dispatch C mono peer raw (r, s)).1.1
    unfolding dispatch
    dispatch-IsCoupledServer none = λ h. v
    dispatch-IsCoupledServer (some j) = dispatch_object-coupled j
