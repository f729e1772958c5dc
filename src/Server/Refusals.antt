-- ===== src/Server/Refusals.antt =====
-- What a refused message leaves (service/api/websocket.py).
use igrill_remote_server.Prelude.{ℕ, String, ◌≡◌, refl, inl, inr, Option, none, some, Bool-cases}
use igrill_remote_server.Action.{Result, ok, err}
use igrill_remote_server.Json.{Json, null, flag, int, float, text, array, object, Fields, get_field}
use igrill_remote_server.RateLimiter.{RateLimiter}
use igrill_remote_server.Server.{Server, Context, Code, error_reply}
use igrill_remote_server.Server.Checks.{holds}
use igrill_remote_server.Server.Dispatch.{
  Handler, replied, route, limit, type_of, is_two, payload_of, dispatch, dispatch_object,
  dispatch_type,
}
use igrill_remote_server.Server.Quiet.{IsGrounded}
use igrill_remote_server.Server.QuietHandlers.{IsQuietRouted, call-IsQuiet}

module _ {F : Type 0} (C : Context F) (s : Server F) where
  route-IsQuiet :
      (g : IsGrounded s) (h : Option Handler) (fields : Fields F)
      → IsQuietRouted C s (route C h fields s)
  unfolding route
  route-IsQuiet g none fields = λ c e. refl
  route-IsQuiet g (some h) fields =
      elim (Bool-cases (holds C (get_field "requestId" null fields))) [
        | inl e ↦ rw e (call-IsQuiet (record C { payload = payload_of C fields }) s g h)
        | inr e ↦ rw e (λ c x. refl)
      ]

  module _ (mono : ℕ) (peer : String) (r : RateLimiter) (g : IsGrounded s) (c : Code) where
    dispatch_type-quiet :
        (h : Result (Option Handler)) (fields : Fields F)
        → (dispatch_type C mono peer h fields (r, s)).0 ≡ ok (replied (error_reply c))
        → (dispatch_type C mono peer h fields (r, s)).1.1 ≡ s
    unfolding dispatch_type
    dispatch_type-quiet (err e) fields = λ h. refl
    dispatch_type-quiet (ok h) fields = elim (Bool-cases (limit C mono peer h r).0) [
      | inl e ↦ rw e (route-IsQuiet g h fields c)
      | inr e ↦ rw e (λ x. refl)
    ]

    dispatch_object-quiet :
        (v : Json F)
        → (dispatch_object C mono peer v (r, s)).0 ≡ ok (replied (error_reply c))
        → (dispatch_object C mono peer v (r, s)).1.1 ≡ s
    unfolding dispatch_object
    dispatch_object-quiet null = λ h. refl
    dispatch_object-quiet (flag b) = λ h. refl
    dispatch_object-quiet (int n) = λ h. refl
    dispatch_object-quiet (float x) = λ h. refl
    dispatch_object-quiet (text t) = λ h. refl
    dispatch_object-quiet (array l) = λ h. refl
    dispatch_object-quiet (object fields) =
        elim (Bool-cases (is_two C (get_field "v" null fields))) [
          | inl e ↦ rw e (dispatch_type-quiet (type_of (get_field "type" null fields)) fields)
          | inr e ↦ rw e (λ x. refl)
        ]

    -- Where the session that the store holds is in its table, a message that is answered with an
    -- error leaves the history, the evaluator, the devices and the events as they were.
    pub dispatch-error_reply :
        (raw : Option (Json F))
        → (dispatch C mono peer raw (r, s)).0 ≡ ok (replied (error_reply c))
        → (dispatch C mono peer raw (r, s)).1.1 ≡ s
    unfolding dispatch
    dispatch-error_reply none h = refl
    dispatch-error_reply (some v) h = dispatch_object-quiet v h
