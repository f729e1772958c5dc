-- ===== src/RateLimiter.antt =====
-- _RateLimiter of service/api/websocket.py. Instants and the window are numbers of microseconds; the
-- dictionary is a function, which gives a key that it does not hold the empty list, as its only
-- read, `get(key, [])`, does.
pub mod Window
use igrill_remote_server.Prelude.{
  ℕ, ◌+◌, String, Bool, true, false, List, [], ◌∷◌, ◌++◌, str_eq, ltb, leb, length, if◌then◌else◌,
  select_where, any_where,
}

pub record RateLimiter : Type 0 where
  pub max : ℕ
  pub window : ℕ
  pub requests : String → List ℕ
  pub last_sweep : ℕ

-- 300 seconds
abbrev pub sweep_interval : ℕ
sweep_interval = 300000000

-- `now - t < self._window`
abbrev pub is_live : ℕ → ℕ → ℕ → Bool
is_live window now t = ltb now (t + window)

-- `d[key] = l`
abbrev pub put_requests : String → List ℕ → (String → List ℕ) → String → List ℕ
put_requests key l f k = if str_eq k key then l else f k

unfoldable pub sweep : ℕ → RateLimiter → RateLimiter
sweep now r = record r {
  requests = λ k. if any_where (is_live r.window now) (r.requests k) then r.requests k else [];
}

unfoldable pub swept : ℕ → RateLimiter → RateLimiter
swept now r =
    if ltb (r.last_sweep + sweep_interval) now then record (sweep now r) { last_sweep = now } else r

-- After the sweep that is due.
unfoldable pub allow_swept : ℕ → String → RateLimiter → Bool × RateLimiter
allow_swept now key r =
    let entries = select_where (is_live r.window now) (r.requests key) in
    if leb r.max (length entries)
    then (false, record r { requests = put_requests key entries r.requests })
    else (true, record r { requests = put_requests key (entries ++ now ∷ []) r.requests })

unfoldable pub allow : ℕ → String → RateLimiter → Bool × RateLimiter
allow now key r = allow_swept now key (swept now r)
