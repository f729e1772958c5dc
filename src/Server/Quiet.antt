-- ===== src/Server/Quiet.antt =====
-- Answers that are errors, and the server that they leave (service/api/websocket.py).
use igrill_remote_server.Prelude.{
  String, ◌≡◌, refl, ap, inl, inr, true, Option, none, some, arith, ◌⊎◌, Option-cases, first_where,
  first_where-update_where,
}
use igrill_remote_server.Action.{
  Action, Error, Result, ok, err, ◌>>=◌, invalid_mode, inactive_session, no_such_session,
  no_such_timer, timer_completed, integrity_error, assertion_error, database_error, key_error,
  value_error, overflow_error, type_error, attribute_error,
}
use igrill_remote_server.Store.{Store, Session, Timer}
use igrill_remote_server.Store.Devices.{session_is}
use igrill_remote_server.Store.Sessions.{EndEvent, session_exists, update_session, set_given}
use igrill_remote_server.Store.Timers.Tidy.{IsTidy}
use igrill_remote_server.Server.{
  Server, Code, Reply, error_reply, Checked, passes, rejects, throws, settle,
}
use igrill_remote_server.Server.Handlers.{answer_end, answer_discard, answer_timer, answer_update}

pub set_given-id :
    (sid : String) (name notes : Option String) (r : Session)
    → session_is sid (set_given name notes r) ≡ session_is sid r
unfolding set_given
set_given-id sid name notes r = refl

module _ {F : Type 0} where
  pub stayed :
      (e : Error) (h : Store F) (s : Server F)
      → (e ≡ assertion_error → ⊥)
      → (e ≡ assertion_error) ⊎ (h ≡ s.history)
      → record s { history = h } ≡ s
  stayed e h s n (inl p) = absurd (n p)
  stayed e h s n (inr p) = ap (λ x. record s { history = x }) p

  -- Where the answer is an error, the server is `s`.
  abbrev pub IsQuiet : Result (Reply F) × Server F → Server F → Type 0
  IsQuiet m s = (c : Code) → m.0 ≡ ok (error_reply c) → m.1 ≡ s

  -- The session that the object holds is in the table.
  abbrev pub IsGrounded : Server F → Type 0
  IsGrounded s =
      (sid : String) → s.history.current_session_id ≡ some sid → session_exists sid s.history ≡ true

  pub settle-IsQuiet {ℓ} :
      {A : Type ℓ} (t : Checked A) (body : A → Action (Server F) (Reply F)) (s : Server F)
      → ((a : A) → IsQuiet (body a s) s)
      → IsQuiet (settle t body s) s
  unfolding settle
  settle-IsQuiet (passes a) body s h = h a
  settle-IsQuiet (rejects c) body s h = λ c e. refl
  settle-IsQuiet (throws x) body s h = λ c e. refl

  -- A body that answers with an acknowledgement, or raises, after a first call.
  pub acked-IsQuiet :
      {A : Type 0} (r : Result A) (x s : Server F) (f : A → Action (Server F) (Reply F))
      → ((a : A) (c : Code) → (f a x).0 ≡ ok (error_reply c) → ⊥)
      → IsQuiet (((λ _. (r, x)) >>= f) s) s
  acked-IsQuiet (ok a) x s f h = λ c e. absurd (h a c e)
  acked-IsQuiet (err y) x s f h = λ c e. cc

  pub update_session-missing :
      (sid : String) (name notes : Option String) (h : Store F)
      → (update_session sid name notes h).0 ≡ none
      → (update_session sid name notes h).1 ≡ h
  unfolding update_session
  update_session-missing sid name notes h e =
      elim (Option-cases (first_where (session_is sid) h.sessions)) [
        | inl f ↦ ground (arith, f)
        | inr (r, f) ↦ ground (
          arith,
          e,
          f,
          first_where-update_where (session_is sid) (set_given name notes) h.sessions
              (λ x. set_given-id sid name notes x),
        )
      ]

  pub answer_update-IsQuiet :
      (sid : String) (row : Option (Option String × Option String)) (s x : Server F)
      → (row ≡ none → x ≡ s)
      → IsQuiet (ok (answer_update sid row x).0, (answer_update sid row x).1) s
  unfolding answer_update
  answer_update-IsQuiet sid none s x h = λ c e. h refl
  answer_update-IsQuiet sid (some (name, notes)) s x h = λ c e. cc

  pub answer_end-IsQuiet :
      (event : Option EndEvent) (s x : Server F)
      → (event ≡ none → x ≡ s)
      → IsQuiet (ok (answer_end event x).0, (answer_end event x).1) s
  unfolding answer_end
  answer_end-IsQuiet none s x h = λ c e. h refl
  answer_end-IsQuiet (some event) s x h = λ c e. cc

  pub answer_discard-IsQuiet :
      (sid : Option String) (s x : Server F)
      → (sid ≡ none → x ≡ s)
      → IsQuiet (ok (answer_discard sid x).0, (answer_discard sid x).1) s
  unfolding answer_discard
  answer_discard-IsQuiet none s x h = λ c e. h refl
  answer_discard-IsQuiet (some sid) s x h = λ c e. cc

  pub answer_timer-IsQuiet :
      (r : Result Timer) (h : Store F) (s : Server F)
      → IsTidy (r, h) s.history
      → IsQuiet (answer_timer r (record s { history = h })) s
  unfolding answer_timer
  answer_timer-IsQuiet (ok row) h s t = λ c e. cc
  answer_timer-IsQuiet (err timer_completed) h s t =
      λ c e. stayed timer_completed h s (λ q. cc) (t timer_completed refl)
  answer_timer-IsQuiet (err invalid_mode) h s t =
      λ c e. stayed invalid_mode h s (λ q. cc) (t invalid_mode refl)
  answer_timer-IsQuiet (err inactive_session) h s t =
      λ c e. stayed inactive_session h s (λ q. cc) (t inactive_session refl)
  answer_timer-IsQuiet (err no_such_session) h s t =
      λ c e. stayed no_such_session h s (λ q. cc) (t no_such_session refl)
  answer_timer-IsQuiet (err no_such_timer) h s t =
      λ c e. stayed no_such_timer h s (λ q. cc) (t no_such_timer refl)
  answer_timer-IsQuiet (err integrity_error) h s t = λ c e. cc
  answer_timer-IsQuiet (err assertion_error) h s t = λ c e. cc
  answer_timer-IsQuiet (err database_error) h s t = λ c e. cc
  answer_timer-IsQuiet (err key_error) h s t = λ c e. cc
  answer_timer-IsQuiet (err value_error) h s t = λ c e. cc
  answer_timer-IsQuiet (err overflow_error) h s t = λ c e. cc
  answer_timer-IsQuiet (err type_error) h s t = λ c e. cc
  answer_timer-IsQuiet (err attribute_error) h s t = λ c e. cc
