-- ===== src/Tests/Pushes.antt =====
-- The theorems on push notifications at concrete devices.
use igrill_remote_server.Prelude.{
  ℕ, ◌≡◌, ◌≢◌, refl, arith, String, true, false, ◌&&◌, Option, none, some, List, [], ◌∷◌, str_eq,
  ◌==◌, if◌then◌else◌, first_where,
}
use igrill_remote_server.Push.{
  PushToken, Answer, successful, raised, failed, Push, token_is, coalesce, upsert_token,
  send_live_activity_update, get_la_tokens, should_send_la_update,
}
use igrill_remote_server.Push.Tokens.{la_token, upsert_token-la_token}
use igrill_remote_server.Push.Delivery.{is_accepted, send_live_activity_update-throttled}

abbrev device : String → Option String → PushToken
device t la = record { token = t; live_activity_token = la; created_at = "T"; updated_at = "T" }

abbrev phones : List PushToken
phones = device "a" (some "la") ∷ device "z" none ∷ []

abbrev first_phone : String
first_phone = "a"

abbrev later_ts : String
later_ts = "Ti"

rotated_keeps_la :
    (la_token first_phone (upsert_token first_phone none later_ts phones)
      ≡ coalesce none (la_token first_phone phones))
    × ((u : String)
        → first_phone ≢ u
        → first_where (token_is u) (upsert_token first_phone none later_ts phones)
          ≡ first_where (token_is u) phones)
rotated_keeps_la = upsert_token-la_token first_phone none later_ts phones

-- The first device has been uninstalled, the second one is busy at first.
abbrev apple : String → ℕ → Answer
apple t n =
    if str_eq t "a"
    then failed none "Unregistered"
    else if n == 0
    then failed none "busy"
    else successful

abbrev service : Push
service = record { is_ready = true; tokens = phones; last_la_update_ts = 0 }

abbrev reached : String → Answer
reached t = successful

abbrev lost : String → Answer
lost t = raised

service-due : service.is_ready && should_send_la_update 20000000 service ≡ true
unfolding should_send_la_update
service-due = refl

one-accepted : is_accepted reached service ≡ true
unfolding get_la_tokens
one-accepted = refl

none-accepted : is_accepted lost service ≡ false
unfolding get_la_tokens
none-accepted = refl

one_update :
    let q = (send_live_activity_update reached 20000000 20000001 service).1 in
    (q.last_la_update_ts ≡ 20000001)
    × (send_live_activity_update reached 30000000 30000001 q ≡ (0, q))
    × ((send_live_activity_update lost 20000000 20000001 service).1.last_la_update_ts ≡ 0)
one_update =
    send_live_activity_update-throttled reached lost reached 20000000 20000001 30000000 30000001
      service service-due one-accepted none-accepted (omega arith) (omega arith)
