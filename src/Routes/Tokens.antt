-- ===== src/Routes/Tokens.antt =====
-- What push_token_handler of service/api/routes.py lets into the table push_tokens.
use igrill_remote_server.Prelude.{
  ℕ, ◌≡◌, ◌≢◌, refl, inl, inr, String, Bool, true, false, Option, none, some, List, [], ◌∷◌, All,
  All-append, is_truthy, Bool-cases, any_where, update_where, str_eq,
}
use igrill_remote_server.Action.{Result, ok, err}
use igrill_remote_server.Json.{
  Json, Fields, null, flag, int, float, text, array, object, as_object, get_field,
}
use igrill_remote_server.RateLimiter.{RateLimiter, allow}
use igrill_remote_server.Push.{PushToken, Push, token_is, coalesce, refresh_token, upsert_token}
use igrill_remote_server.Routes.{
  Response, http_ok, TokenRequest, accepted, refused, is_push_token, check_la, check_token,
  check_fields, check_push_token, App, upsert_service, register, remote_peer, Request,
  is_authorized, after_limit, push_token_handler,
}

abbrev pub IsPattern : Option String → Type 0
IsPattern none = Unit
IsPattern (some t) = is_push_token t ≡ true

-- Both tokens of the row have the shape of a token.
abbrev pub IsClean : PushToken → Type 0
IsClean r = (is_push_token r.token ≡ true) × IsPattern r.live_activity_token

abbrev pub IsCleanTable : Option Push → Type 0
IsCleanTable none = Unit
IsCleanTable (some p) = All IsClean p.tokens

abbrev IsChecked : TokenRequest → Type 0
IsChecked (refused message) = Unit
IsChecked (accepted t la) = (is_push_token t ≡ true) × IsPattern la

abbrev IsCheckedResult : Result TokenRequest → Type 0
IsCheckedResult (err e) = Unit
IsCheckedResult (ok q) = IsChecked q

coalesce-IsPattern :
    (la old : Option String) → IsPattern la → IsPattern old → IsPattern (coalesce la old)
coalesce-IsPattern none old h k = k
coalesce-IsPattern (some t) old h k = h

module _ (t : String) (la : Option String) (ts : String) (h : is_push_token t ≡ true)
    (k : IsPattern la) where
  refresh_token-IsClean : (r : PushToken) → IsClean r → IsClean (refresh_token la ts r)
  unfolding refresh_token
  refresh_token-IsClean r c = (c.0, coalesce-IsPattern la r.live_activity_token k c.1)

  updated-IsClean :
      (l : List PushToken)
      → All IsClean l
      → All IsClean (update_where (token_is t) (refresh_token la ts) l)
  updated-IsClean [] c = tt
  updated-IsClean (r ∷ l) c = elim (Bool-cases (str_eq r.token t)) [
    | inl e ↦ rw e (refresh_token-IsClean r c.0, updated-IsClean l c.1)
    | inr e ↦ rw e (c.0, updated-IsClean l c.1)
  ]

  upsert_token-IsClean : (l : List PushToken) → All IsClean l → All IsClean (upsert_token t la ts l)
  unfolding upsert_token
  upsert_token-IsClean l c = elim (Bool-cases (any_where (token_is t) l)) [
    | inl e ↦ rw e (updated-IsClean l c)
    | inr e ↦ rw e (
        All-append IsClean l
          (record { token = t; live_activity_token = la; created_at = ts; updated_at = ts } ∷ []) c
          ((h, k), tt))
  ]

  upsert_service-IsCleanTable :
      (p : Option Push) → IsCleanTable p → IsCleanTable (upsert_service t la ts p)
  upsert_service-IsCleanTable none c = tt
  upsert_service-IsCleanTable (some p) c = upsert_token-IsClean p.tokens c

module _ {F : Type 0} where
  check_la-IsChecked : (t : String) (v : Json F) → is_push_token t ≡ true → IsChecked (check_la t v)
  unfolding check_la
  check_la-IsChecked t null h = (h, tt)
  check_la-IsChecked t (text s) h = elim (Bool-cases (is_push_token s)) [
    | inl e ↦ rw e (h, e)
    | inr e ↦ rw e tt
  ]
  check_la-IsChecked t (flag b) h = tt
  check_la-IsChecked t (int n) h = tt
  check_la-IsChecked t (float x) h = tt
  check_la-IsChecked t (array l) h = tt
  check_la-IsChecked t (object l) h = tt

  text-IsChecked : (t : String) (la : Json F) → IsChecked (check_token (text t) la)
  unfolding check_token
  text-IsChecked t la = elim (Bool-cases (is_truthy t)) [
    | inl e ↦ rw e (elim (Bool-cases (is_push_token t)) [
      | inl h ↦ rw h (check_la-IsChecked t la h)
      | inr h ↦ rw h tt
    ])
    | inr e ↦ rw e tt
  ]

  check_token-IsChecked : (v la : Json F) → IsChecked (check_token v la)
  unfolding check_token
  check_token-IsChecked (text t) la = text-IsChecked t la
  check_token-IsChecked null la = tt
  check_token-IsChecked (flag b) la = tt
  check_token-IsChecked (int n) la = tt
  check_token-IsChecked (float x) la = tt
  check_token-IsChecked (array l) la = tt
  check_token-IsChecked (object l) la = tt

  check_fields-IsChecked : (f : Result (Fields F)) → IsCheckedResult (check_fields f)
  check_fields-IsChecked (err e) = tt
  check_fields-IsChecked (ok fields) =
      check_token-IsChecked (get_field "token" null fields)
        (get_field "liveActivityToken" null fields)

  check_push_token-IsChecked : (body : Option (Json F)) → IsCheckedResult (check_push_token body)
  unfolding check_push_token
  check_push_token-IsChecked none = tt
  check_push_token-IsChecked (some body) = check_fields-IsChecked (as_object body)

module _ {F : Type 0} where
  -- The Live Activity token that a registration takes from the field of the body.
  abbrev pub LaIs : Json F → Option String → Type 0
  LaIs v none = v ≡ null
  LaIs v (some t) = (v ≡ text t) × (is_push_token t ≡ true)

  -- The body registers its tokens, and that is what happened to the table.
  abbrev pub Registers : Option (Json F) → String → Option Push → Result Response × App → Type 0
  Registers body ts p out =
      (fields : Fields F) × (t : String) × (la : Option String) × (body ≡ some (object fields))
      × (get_field "token" null fields ≡ text t)
      × (is_push_token t ≡ true)
      × LaIs (get_field "liveActivityToken" null fields) la
      × (out.0 ≡ ok http_ok)
      × (out.1.push_service ≡ upsert_service t la ts p)

  -- What the acceptance of a token and a Live Activity token says of the two values.
  abbrev Accepts : Json F → Json F → TokenRequest → Type 0
  Accepts v w (refused message) = Unit
  Accepts v w (accepted t la) = (v ≡ text t) × (is_push_token t ≡ true) × LaIs w la

register-IsCleanTable :
    (q : Result TokenRequest) (ts : String) (s : App)
    → IsCheckedResult q
    → IsCleanTable s.push_service
    → IsCleanTable (register q ts s).1.push_service
unfolding register
register-IsCleanTable (err e) ts s h c = c
register-IsCleanTable (ok (refused message)) ts s h c = c
register-IsCleanTable (ok (accepted t la)) ts s h c =
    upsert_service-IsCleanTable t la ts h.0 h.1 s.push_service c

module _ {F : Type 0} where
  check_la-Accepts :
      (t : String) (w : Json F) → is_push_token t ≡ true → Accepts (text t) w (check_la t w)
  unfolding check_la
  check_la-Accepts t null h = (refl, h, refl)
  check_la-Accepts t (text s) h = elim (Bool-cases (is_push_token s)) [
    | inl e ↦ rw e (refl, h, (refl, e))
    | inr e ↦ rw e tt
  ]
  check_la-Accepts t (flag b) h = tt
  check_la-Accepts t (int n) h = tt
  check_la-Accepts t (float x) h = tt
  check_la-Accepts t (array l) h = tt
  check_la-Accepts t (object l) h = tt

  text-Accepts : (t : String) (w : Json F) → Accepts (text t) w (check_token (text t) w)
  unfolding check_token
  text-Accepts t w = elim (Bool-cases (is_truthy t)) [
    | inl e ↦ rw e (elim (Bool-cases (is_push_token t)) [
      | inl h ↦ rw h (check_la-Accepts t w h)
      | inr h ↦ rw h tt
    ])
    | inr e ↦ rw e tt
  ]

  check_token-Accepts : (v w : Json F) → Accepts v w (check_token v w)
  unfolding check_token
  check_token-Accepts (text t) w = text-Accepts t w
  check_token-Accepts null w = tt
  check_token-Accepts (flag b) w = tt
  check_token-Accepts (int n) w = tt
  check_token-Accepts (float x) w = tt
  check_token-Accepts (array l) w = tt
  check_token-Accepts (object l) w = tt

  register-guarded :
      (fields : Fields F) (q : TokenRequest) (ts : String) (s : App)
      → Accepts (get_field "token" null fields) (get_field "liveActivityToken" null fields) q
      → (register (ok q) ts s).1.push_service ≢ s.push_service
      → Registers (some (object fields)) ts s.push_service (register (ok q) ts s)
  unfolding register
  register-guarded fields (refused message) ts s h changed = absurd (changed refl)
  register-guarded fields (accepted t la) ts s h changed =
      (fields, t, la, refl, h.0, h.1, h.2, refl, refl)

  checked-guarded :
      (body : Option (Json F)) (ts : String) (s : App)
      → (register (check_push_token body) ts s).1.push_service ≢ s.push_service
      → Registers body ts s.push_service (register (check_push_token body) ts s)
  unfolding check_push_token register as_object
  checked-guarded none ts s changed = absurd (changed refl)
  checked-guarded (some (object fields)) ts s changed =
      register-guarded fields
        (check_token (get_field "token" null fields) (get_field "liveActivityToken" null fields)) ts
        s
        (check_token-Accepts (get_field "token" null fields)
          (get_field "liveActivityToken" null fields))
        changed
  checked-guarded (some null) ts s changed = absurd (changed refl)
  checked-guarded (some (flag b)) ts s changed = absurd (changed refl)
  checked-guarded (some (int n)) ts s changed = absurd (changed refl)
  checked-guarded (some (float x)) ts s changed = absurd (changed refl)
  checked-guarded (some (text t)) ts s changed = absurd (changed refl)
  checked-guarded (some (array l)) ts s changed = absurd (changed refl)

  after_limit-guarded :
      (b : Bool × RateLimiter) (body : Option (Json F)) (ts : String) (s : App)
      → (after_limit b body ts s).1.push_service ≢ s.push_service
      → (b.0 ≡ true) × Registers body ts s.push_service (after_limit b body ts s)
  unfolding after_limit
  after_limit-guarded (true, l) body ts s changed =
      (refl, checked-guarded body ts (record s { push_token_limiter = l }) changed)
  after_limit-guarded (false, l) body ts s changed = absurd (changed refl)

  after_limit-IsCleanTable :
      (b : Bool × RateLimiter) (body : Option (Json F)) (ts : String) (s : App)
      → IsCleanTable s.push_service
      → IsCleanTable (after_limit b body ts s).1.push_service
  unfolding after_limit
  after_limit-IsCleanTable (true, l) body ts s c =
      register-IsCleanTable (check_push_token body) ts (record s { push_token_limiter = l })
        (check_push_token-IsChecked body) c
  after_limit-IsCleanTable (false, l) body ts s c = c

module _ {F : Type 0} (strip : String → String) (session_token : String) (r : Request F) (now : ℕ)
    (ts : String) (s : App) where
  -- Whatever a request for a registration holds, also a refused one: a table in which all push tokens
  -- and Live Activity tokens match the pattern of a token is such a table afterwards.
  pub push_token_handler-IsCleanTable :
      IsCleanTable s.push_service
      → IsCleanTable (push_token_handler strip session_token r now ts s).1.push_service
  unfolding push_token_handler
  push_token_handler-IsCleanTable c =
      elim (Bool-cases (is_authorized strip session_token r.credentials)) [
        | inl e ↦ rw e (
            after_limit-IsCleanTable (allow now (remote_peer r.remote) s.push_token_limiter) r.body
              ts s c)
        | inr e ↦ rw e c
      ]

  -- A request changes the table only where it carries the session token, if there is one, where the
  -- limiter lets its peer through, and where the body is an object whose `token` has the shape of a
  -- token. It is then answered with success, and the one change is the upsert of that token, with
  -- the Live Activity token of the body or none.
  pub push_token_handler-guarded :
      (push_token_handler strip session_token r now ts s).1.push_service ≢ s.push_service
      → (is_authorized strip session_token r.credentials ≡ true)
        × ((allow now (remote_peer r.remote) s.push_token_limiter).0 ≡ true)
        × Registers r.body ts s.push_service (push_token_handler strip session_token r now ts s)
  unfolding push_token_handler
  push_token_handler-guarded changed =
      elim (Bool-cases (is_authorized strip session_token r.credentials)) [
        | inl e ↦
            let (through, registered) =
              after_limit-guarded (allow now (remote_peer r.remote) s.push_token_limiter) r.body ts
                s (rw e at changed) in
            rw e (refl, through, registered)
        | inr e ↦ absurd ((rw e at changed) refl)
      ]
