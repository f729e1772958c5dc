-- ===== src/Routes.antt =====
-- service/api/routes.py: the registration of push tokens, and in Sessions the
-- list and the detail of sessions, with
-- is_authorized of service/api/websocket.py. A body that is no JSON is `none`; an exception that no
-- clause catches is an error of the Result, which aiohttp answers with status 500. The status and the
-- text of an error stand in `http_error`.
pub mod Tokens
pub mod Sessions
use Prim.Native.Char.{code}
use Prim.Native.String
use igrill_remote_server.Prelude.{
  ℕ, suc, ℤ, pos, pos_part, String, Bool, true, false, not, ◌&&◌, ◌||◌, Option, none, some, List,
  [], ◌∷◌, str_eq, is_truthy, leb, ◌==◌, if◌then◌else◌,
}
use igrill_remote_server.Action.{Result, ok, err}
use igrill_remote_server.Json.{Json, Fields, null, text, as_object, get_field}
use igrill_remote_server.RateLimiter.{RateLimiter, allow}
use igrill_remote_server.Push.{PushToken, Push, upsert_token}

-- What follows a prefix; `none` where the text does not start with it.
abbrev pub without_prefix : String → String → Option String
without_prefix String.[] s = some s
without_prefix (String.◌∷◌ c p) String.[] = none
without_prefix (String.◌∷◌ c p) (String.◌∷◌ d s) =
    let rest = without_prefix p s in if code c == code d then rest else none

-- The header `Authorization` and the parameter `token` of the query, "" where they are missing.
pub record Credentials : Type 0 where
  pub authorization : String
  pub query_token : String

abbrev pub bears : (String → String) → String → Option String → Bool
bears strip token none = false
bears strip token (some rest) = str_eq (strip rest) token

-- `str.strip` is an argument.
unfoldable pub is_authorized : (String → String) → String → Credentials → Bool
is_authorized strip token r =
    not (is_truthy token)
    || bears strip token (without_prefix "Bearer " r.authorization)
    || is_truthy r.query_token && str_eq r.query_token token

-- `[0-9a-fA-F]`
abbrev pub is_hex : ℕ → Bool
is_hex n = leb 48 n && leb n 57 || leb 97 n && leb n 102 || leb 65 n && leb n 70

abbrev pub one_more : Option ℕ → Option ℕ
one_more none = none
one_more (some n) = some (suc n)

-- How many digits the text has, where it has nothing else: `$` matches at the end and also before a
-- line feed that ends the text.
abbrev pub hex_length : String → Option ℕ
hex_length String.[] = some 0
hex_length (String.◌∷◌ c s) =
    let rest = one_more (hex_length s) in
    if is_hex (code c) then rest else if code c == 10 && not (is_truthy s) then some 0 else none

abbrev pub within : Option ℕ → Bool
within none = false
within (some n) = leb 32 n && leb n 200

-- `_PUSH_TOKEN_RE.match(token)`
unfoldable pub is_push_token : String → Bool
is_push_token s = within (hex_length s)

pub data Response : Type 0 where
  http_ok : Response
  http_error : ℕ → String → Response

-- What the validation of the body makes of it: the tokens, or the text of the answer with status 400.
pub data TokenRequest : Type 0 where
  accepted : String → Option String → TokenRequest
  refused : String → TokenRequest

module _ {F : Type 0} where
  unfoldable pub check_la : String → Json F → TokenRequest
  check_la t v = elim v [
    | null ↦ accepted t none
    | text s ↦
        if is_push_token s
        then accepted t (some s)
        else refused "liveActivityToken must be a hex string"
    | _ ↦ refused "liveActivityToken must be a hex string"
  ]

  unfoldable pub check_token : Json F → Json F → TokenRequest
  check_token v la = elim v [
    | text t ↦
        if is_truthy t
        then (if is_push_token t then check_la t la else refused "token must be a hex string")
        else refused "token is required"
    | _ ↦ refused "token is required"
  ]

  abbrev pub check_fields : Result (Fields F) → Result TokenRequest
  check_fields (err e) = err e
  check_fields (ok fields) =
      ok (check_token (get_field "token" null fields) (get_field "liveActivityToken" null fields))

  unfoldable pub check_push_token : Option (Json F) → Result TokenRequest
  check_push_token none = ok (refused "invalid JSON body")
  check_push_token (some body) = check_fields (as_object body)

-- `push_token_limiter` and `push_service` of the application; the latter may be missing.
pub record App : Type 0 where
  pub push_token_limiter : RateLimiter
  pub push_service : Option Push

abbrev pub upsert_service : String → Option String → String → Option Push → Option Push
upsert_service t la ts none = none
upsert_service t la ts (some p) = some (record p { tokens = upsert_token t la ts p.tokens })

unfoldable pub register : Result TokenRequest → String → App → Result Response × App
register (err e) ts s = (err e, s)
register (ok (refused message)) ts s = (ok (http_error 400 message), s)
register (ok (accepted t la)) ts s =
    (ok http_ok, record s { push_service = upsert_service t la ts s.push_service })

-- `request.remote or "unknown"`
abbrev pub remote_peer : Option String → String
remote_peer none = "unknown"
remote_peer (some p) = if is_truthy p then p else "unknown"

pub record Request (F : Type 0) : Type 0 where
  pub credentials : Credentials
  pub remote : Option String
  pub body : Option (Json F)

module _ {F : Type 0} where
  unfoldable pub after_limit :
      Bool × RateLimiter → Option (Json F) → String → App → Result Response × App
  after_limit (true, l) body ts s =
      register (check_push_token body) ts (record s { push_token_limiter = l })
  after_limit (false, l) body ts s =
      (ok (http_error 429 "rate limited"), record s { push_token_limiter = l })

  unfoldable pub push_token_handler :
      (String → String) → String → Request F → ℕ → String → App → Result Response × App
  push_token_handler strip session_token r now ts s =
      if is_authorized strip session_token r.credentials
      then after_limit (allow now (remote_peer r.remote) s.push_token_limiter) r.body ts s
      else (ok (http_error 401 "unauthorised"), s)
