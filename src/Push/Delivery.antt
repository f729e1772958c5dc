-- ===== src/Push/Delivery.antt =====
-- What an alert sends and which devices it drops, and the throttle of the Live Activity updates
-- (service/push/service.py).
use igrill_remote_server.Prelude.{
  ℕ, ◌+◌, ◌<◌, String, ◌≡◌, refl, ap, ◌∙◌, inl, inr, Bool, true, false, not, ◌&&◌, ◌||◌, List, [],
  ◌∷◌, ◌++◌, arith, ==_iff, Bool-cases, if◌then◌else◌, any_where,
}
use igrill_remote_server.Push.{
  PushToken, Answer, successful, raised, failed, Push, token_is, is_invalid_reason, is_retryable,
  should_send_la_update, la_update_interval, send_live_activity_update, get_la_tokens,
  is_successful, push_la, clear_invalid,
}

-- APNS calls the token invalid.
abbrev pub is_refused : Answer → Bool
is_refused successful = false
is_refused raised = false
is_refused (failed status description) = is_invalid_reason description

-- The failure may pass.
abbrev pub is_transient : Answer → Bool
is_transient successful = false
is_transient raised = false
is_transient (failed status description) =
    not (is_invalid_reason description) && is_retryable status

-- The first answer refuses the token, or the second does after a failure that may pass.
abbrev pub is_dropped : (ℕ → Answer) → Bool
is_dropped answers = is_refused (answers 0) || is_transient (answers 0) && is_refused (answers 1)

abbrev pub sends : String → (ℕ → Answer) → List String
sends t answers = if is_transient (answers 0) then t ∷ t ∷ [] else t ∷ []

module _ (apns : String → ℕ → Answer) where
  -- A device that one of the tokens names, where the token is dropped.
  abbrev is_hit : List String → PushToken → Bool
  is_hit ts r = any_where (λ t. token_is t r && is_dropped (apns t)) ts

  -- The tokens of the notifications, device by device.
  abbrev pub notified : List String → List String
  notified [] = []
  notified (t ∷ ts) = sends t (apns t) ++ notified ts

  abbrev pub dropped_row : PushToken → Bool
  dropped_row r = is_dropped (apns r.token)

throttled :
    (apns : String → Answer) (soon end : ℕ) (q : Push)
    → 0 < q.last_la_update_ts
    → soon < q.last_la_update_ts + la_update_interval
    → send_live_activity_update apns soon end q ≡ (0, q)
unfolding send_live_activity_update should_send_la_update
throttled apns soon end q started near = elim (Bool-cases q.is_ready) [
  | inl e ↦ ground (arith, e, ==_iff q.last_la_update_ts 0)
  | inr e ↦ ground (arith, e)
]

-- APNS accepts an update for one of the tokens.
abbrev pub is_accepted : (String → Answer) → Push → Bool
is_accepted apns p = any_where (λ t. is_successful (apns t)) (get_la_tokens p.tokens)

push_la-accepted :
    (apns : String → Answer) (ts : List String) (l : List PushToken)
    → (push_la apns ts l).0 ≡ any_where (λ t. is_successful (apns t)) ts
unfolding push_la
push_la-accepted apns [] l = refl
push_la-accepted apns (t ∷ ts) l =
    ap (λ b. is_successful (apns t) || b) (push_la-accepted apns ts (clear_invalid (apns t) t l))

last_update :
    (apns : String → Answer) (now later : ℕ) (p : Push)
    → p.is_ready && should_send_la_update now p ≡ true
    → (send_live_activity_update apns now later p).1.last_la_update_ts
      ≡ (if is_accepted apns p then later else p.last_la_update_ts)
unfolding send_live_activity_update
last_update apns now later p due =
    rw due (rw (push_la-accepted apns (get_la_tokens p.tokens) p.tokens) refl)

-- Where an update is due and APNS accepts it for one of the devices, its instant is kept, and no
-- update is sent for 15 seconds after it, whatever APNS would answer. Where APNS accepts it for
-- none, the throttle stays as it was.
pub send_live_activity_update-throttled :
    (apns unlucky apns' : String → Answer) (now later soon end : ℕ) (p : Push)
    → p.is_ready && should_send_la_update now p ≡ true
    → is_accepted apns p ≡ true
    → is_accepted unlucky p ≡ false
    → 0 < later
    → soon < later + la_update_interval
    → let q = (send_live_activity_update apns now later p).1 in
      (q.last_la_update_ts ≡ later)
      × (send_live_activity_update apns' soon end q ≡ (0, q))
      × ((send_live_activity_update unlucky now later p).1.last_la_update_ts ≡ p.last_la_update_ts)
send_live_activity_update-throttled apns unlucky apns' now later soon end p due accepted refused
      started near =
    let e = last_update apns now later p due ∙ rw accepted refl in
    (
      e,
      throttled apns' soon end (send_live_activity_update apns now later p).1 (rw e started)
          (rw e near),
      last_update unlucky now later p due ∙ rw refused refl,
    )
