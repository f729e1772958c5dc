-- ===== src/Tests/Requests.antt =====
-- The theorems on the registration of push tokens at concrete requests.
use igrill_remote_server.Prelude.{
  ℕ, ◌≡◌, refl, sym, ap, ◌∙◌, arith, length, String, true, Option, none, some, [], ◌∷◌,
}
use igrill_remote_server.Json.{text, object, field, end, as_object, get_field, find_field}
use igrill_remote_server.RateLimiter.{allow, allow_swept, swept}
use igrill_remote_server.Push.{Push, upsert_token}
use igrill_remote_server.Routes.{
  App, Request, is_push_token, check_push_token, push_token_handler, is_authorized, after_limit,
  check_token, check_la, register, remote_peer,
}
use igrill_remote_server.Routes.Tokens.{
  IsCleanTable, Registers, push_token_handler-IsCleanTable, push_token_handler-guarded,
}
use igrill_remote_server.Tests.Messages.{limiter}

abbrev hex_token : String
hex_token = "00112233445566778899aabbccddeeff00112233445566778899AABBCCDDEEFF"

hex_token-is_push_token : is_push_token hex_token ≡ true
unfolding is_push_token
hex_token-is_push_token = refl

abbrev app : App
app = record {
  push_token_limiter = limiter;
  push_service = some (record {
    is_ready = true;
    tokens =
        record { token = hex_token; live_activity_token = none; created_at = "T"; updated_at = "T" }
        ∷ [];
    last_la_update_ts = 0;
  });
}

abbrev strip : String → String
strip s = s

abbrev junk : Request ℕ
junk = record {
  credentials = record { authorization = "Bearer secret"; query_token = "" };
  remote = some "p";
  body = some (object (field "token" (text "junk") end));
}

junk_kept_out : IsCleanTable (push_token_handler strip "secret" junk 1 "Ti" app).1.push_service
junk_kept_out =
    push_token_handler-IsCleanTable strip "secret" junk 1 "Ti" app
      ((hex_token-is_push_token, tt), tt)

abbrev other_token : String
other_token = "ffeeddccbbaa99887766554433221100"

abbrev registration : Request ℕ
registration = record {
  credentials = record { authorization = ""; query_token = "secret" };
  remote = some "p";
  body = some (object (field "token" (text other_token) end));
}

abbrev rows : Option Push → ℕ
rows none = 0
rows (some p) = length p.tokens

one_more_row : rows (push_token_handler strip "secret" registration 1 "Ti" app).1.push_service ≡ 2
unfolding push_token_handler is_authorized allow allow_swept swept after_limit check_push_token
    as_object check_token check_la get_field find_field is_push_token register upsert_token
one_more_row = refl

registered :
    let out = push_token_handler strip "secret" registration 1 "Ti" app in
    (is_authorized strip "secret" registration.credentials ≡ true)
    × ((allow 1 (remote_peer registration.remote) limiter).0 ≡ true)
    × Registers registration.body "Ti" app.push_service out
registered =
    push_token_handler-guarded strip "secret" registration 1 "Ti" app
      (λ e. let n = sym one_more_row ∙ ap rows e in omega arith)
