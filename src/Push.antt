-- ===== src/Push.antt =====
-- PushService of service/push/service.py: the table push_tokens, the alerts with their retry, and the
-- Live Activity pushes with their throttle. What APNS answers is an argument; an instant is a number
-- of microseconds of time.monotonic(), and 0 stands for no update yet, as in the code.
pub mod Delivery
pub mod Tokens
use igrill_remote_server.Prelude.{
  ℕ, zero, suc, ◌+◌, ◌-◌, ℤ, pos, String, Bool, true, false, not, ◌&&◌, ◌||◌, Option, none, some,
  List, [], ◌∷◌, ◌++◌, map, length, str_eq, leb, leb_ℤ, ◌==◌, if◌then◌else◌, any_where,
  update_where, delete_where,
}

pub record PushToken : Type 0 where
  pub token : String
  pub live_activity_token : Option String
  pub created_at : String
  pub updated_at : String

-- `result.status`, which the client library gives as it likes: an int, or anything else.
pub data Status : Type 0 where
  int : ℤ → Status
  other : String → Status

-- The result of `send_notification`: `raised` where it raises, and the status and the description
-- where it is not successful.
pub data Answer : Type 0 where
  successful raised : Answer
  failed : Option Status → String → Answer

pub record Push : Type 0 where
  pub is_ready : Bool
  pub tokens : List PushToken
  pub last_la_update_ts : ℕ

abbrev pub token_is : String → PushToken → Bool
token_is t r = str_eq r.token t

-- COALESCE(excluded.live_activity_token, live_activity_token)
abbrev pub coalesce : Option String → Option String → Option String
coalesce none old = old
coalesce (some t) old = some t

unfoldable pub refresh_token : Option String → String → PushToken → PushToken
refresh_token la ts r = record r {
  live_activity_token = coalesce la r.live_activity_token;
  updated_at = ts;
}

-- INSERT ... ON CONFLICT(token) DO UPDATE
unfoldable pub upsert_token : String → Option String → String → List PushToken → List PushToken
upsert_token t la ts l =
    if any_where (token_is t) l
    then update_where (token_is t) (refresh_token la ts) l
    else l ++ record { token = t; live_activity_token = la; created_at = ts; updated_at = ts } ∷ []

unfoldable pub remove_token : String → List PushToken → List PushToken
remove_token t l = delete_where (token_is t) l

unfoldable pub get_all_tokens : List PushToken → List String
get_all_tokens l = map (λ (r : PushToken). r.token) l

unfoldable pub get_la_tokens : List PushToken → List String
get_la_tokens [] = []
get_la_tokens (r ∷ l) = elim r.live_activity_token [
  | none ↦ get_la_tokens l
  | some t ↦ t ∷ get_la_tokens l
]

abbrev pub has_la_token : String → PushToken → Bool
has_la_token t r = elim r.live_activity_token [ none ↦ false | some x ↦ str_eq x t ]

unfoldable pub clear_la : PushToken → PushToken
clear_la r = record r { live_activity_token = none }

-- `_remove_la_token`
unfoldable pub remove_la_token : String → List PushToken → List PushToken
remove_la_token t l = update_where (has_la_token t) clear_la l

-- `_INVALID_TOKEN_REASONS`
unfoldable pub is_invalid_reason : String → Bool
is_invalid_reason s = str_eq s "BadDeviceToken" || str_eq s "Unregistered"

-- No status, or an int of 500 and above.
abbrev pub is_retryable : Option Status → Bool
is_retryable none = true
is_retryable (some (int n)) = leb_ℤ (pos 500) n
is_retryable (some (other s)) = false

-- What follows one attempt: `left` more may be made, and `rest` is what they do.
unfoldable pub after_answer :
    Answer
    → ℕ
    → List String × List PushToken
    → String
    → List PushToken
    → List String × List PushToken
after_answer raised left rest t l = (t ∷ [], l)
after_answer successful left rest t l = (t ∷ [], l)
after_answer (failed status description) left rest t l =
    if is_invalid_reason description
    then (t ∷ [], remove_token t l)
    else if not (is_retryable status) || left == 0
    then (t ∷ [], l)
    else (t ∷ rest.0, rest.1)

-- The loop of `_send_alert_to_token` over the attempts that are left, with the token of each
-- notification that is sent.
unfoldable pub attempt_alert :
    ℕ → (ℕ → Answer) → ℕ → String → List PushToken → List String × List PushToken
unfolding after_answer
attempt_alert zero answers k t l = ([], l)
attempt_alert (suc left) answers k t l =
    after_answer (answers k) left (attempt_alert left answers (suc k) t l) t l

unfoldable pub send_alert_to_token :
    (ℕ → Answer) → String → List PushToken → List String × List PushToken
unfolding attempt_alert
send_alert_to_token answers t l = attempt_alert 2 answers 0 t l

-- The fan-out of `gather`, one token after the other: each coroutine removes its own token only.
unfoldable pub fan_out :
    (String → ℕ → Answer) → List String → List PushToken → List String × List PushToken
fan_out apns [] l = ([], l)
fan_out apns (t ∷ ts) l =
    let sent = send_alert_to_token (apns t) t l in
    let rest = fan_out apns ts sent.1 in (sent.0 ++ rest.0, rest.1)

unfoldable pub send_alert : (String → ℕ → Answer) → Push → List String × Push
unfolding fan_out get_all_tokens
send_alert apns p =
    if p.is_ready
    then (let sent = fan_out apns (get_all_tokens p.tokens) p.tokens in
        (sent.0, record p { tokens = sent.1 }))
    else ([], p)

-- 15 seconds
abbrev pub la_update_interval : ℕ
la_update_interval = 15000000

unfoldable pub should_send_la_update : ℕ → Push → Bool
should_send_la_update now p =
    if p.last_la_update_ts == 0 then true else leb la_update_interval (now - p.last_la_update_ts)

abbrev pub is_successful : Answer → Bool
is_successful successful = true
is_successful raised = false
is_successful (failed status description) = false

unfoldable pub clear_invalid : Answer → String → List PushToken → List PushToken
unfolding remove_la_token
clear_invalid successful t l = l
clear_invalid raised t l = l
clear_invalid (failed status description) t l =
    if is_invalid_reason description then remove_la_token t l else l

-- The loop over the Live Activity tokens, with whether one push has succeeded.
unfoldable pub push_la : (String → Answer) → List String → List PushToken → Bool × List PushToken
unfolding clear_invalid
push_la apns [] l = (false, l)
push_la apns (t ∷ ts) l =
    let rest = push_la apns ts (clear_invalid (apns t) t l) in
    (is_successful (apns t) || rest.0, rest.1)

-- The number of notifications, and the state; the clock is read again after the loop.
unfoldable pub send_live_activity_update : (String → Answer) → ℕ → ℕ → Push → ℕ × Push
unfolding push_la get_la_tokens should_send_la_update
send_live_activity_update apns now later p =
    if p.is_ready && should_send_la_update now p
    then (let sent = push_la apns (get_la_tokens p.tokens) p.tokens in
        (
          length (get_la_tokens p.tokens),
          record p {
            tokens = sent.1;
            last_la_update_ts = if sent.0 then later else p.last_la_update_ts;
          },
        ))
    else (0, p)

unfoldable pub end_live_activities : (String → Answer) → Push → Push
unfolding push_la get_la_tokens
end_live_activities apns p =
    if p.is_ready
    then record p { tokens = (push_la apns (get_la_tokens p.tokens) p.tokens).1 }
    else p
