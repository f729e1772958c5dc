-- ===== src/RateLimiter/Window.antt =====
-- The limiter of service/api/websocket.py beside a log of all accepted requests.
use igrill_remote_server.Prelude.{
  ℕ, ◌+◌, ◌≤◌, String, ◌≡◌, refl, sym, subst, ap, ◌∙◌, inl, inr, Bool, true, false, List, [], ◌∷◌,
  ◌++◌, arith, eq_iff, ltb, leb, length, length-append, if◌then◌else◌, select_where, any_where,
  Bool-cases,
}
use igrill_remote_server.RateLimiter.{
  RateLimiter, is_live, put_requests, sweep_interval, sweep, swept, allow_swept, allow,
}

abbrev pub Log : Type 0
Log = String → List ℕ

-- How many accepted requests of the key are younger than the window.
abbrev pub recent : ℕ → ℕ → String → Log → ℕ
recent window now key log = length (select_where (is_live window now) (log key))

-- A request is accepted where fewer than `max` are recent, and then it is logged.
unfoldable pub allow_logged : ℕ → ℕ → ℕ → String → Log → Bool × Log
allow_logged max window now key log =
    if leb max (recent window now key log)
    then (false, log)
    else (true, put_requests key (log key ++ now ∷ []) log)

-- What is not live at an instant is not live later.
select-later :
    (w now n : ℕ)
    → now ≤ n
    → (l : List ℕ)
    → select_where (is_live w n) (select_where (is_live w now) l) ≡ select_where (is_live w n) l
select-later w now n h [] = refl
select-later w now n h (t ∷ ts) = ground (arith, select-later w now n h ts)

select-expired :
    (w now n : ℕ)
    → now ≤ n
    → (l : List ℕ) → any_where (is_live w now) l ≡ false
    → select_where (is_live w n) l ≡ []
select-expired w now n h [] e = refl
select-expired w now n h (t ∷ ts) e = ground (arith, select-expired w now n h ts)

select-append :
    (p : ℕ → Bool) (l m : List ℕ) → select_where p (l ++ m) ≡ select_where p l ++ select_where p m
select-append p [] m = refl
select-append p (x ∷ xs) m = ground (arith, select-append p xs m)

-- From `now` on, the two tables show the same recent requests of every key.
abbrev pub Agree : ℕ → ℕ → (String → List ℕ) → Log → Type 0
Agree w now f log =
    (n : ℕ) (key : String)
    → now ≤ n
    → select_where (is_live w n) (f key) ≡ select_where (is_live w n) (log key)

sweep-live :
    (now n : ℕ) (r : RateLimiter) (key : String)
    → now ≤ n
    → select_where (is_live r.window n) ((sweep now r).requests key)
      ≡ select_where (is_live r.window n) (r.requests key)
unfolding sweep
sweep-live now n r key h = elim (Bool-cases (any_where (is_live r.window now) (r.requests key))) [
  | inl e ↦ ground (arith, e)
  | inr e ↦ ground (arith, e, select-expired r.window now n h (r.requests key) e)
]

module _ (w now : ℕ) (key : String) (f : String → List ℕ) (log : Log) (v : Agree w now f log) where
  -- What `allow` writes back where it refuses, and where it accepts.
  Agree-pruned : Agree w now (put_requests key (select_where (is_live w now) (f key)) f) log
  Agree-pruned n k h =
      ground (arith, eq_iff k key, select-later w now n h (f key), v n key h, v n k h)

  Agree-accepted :
      Agree w now
        (put_requests key (select_where (is_live w now) (f key) ++ now ∷ []) f)
        (put_requests key (log key ++ now ∷ []) log)
  Agree-accepted n k h = ground (
    arith,
    select-append (is_live w n) (select_where (is_live w now) (f key)) (now ∷ []),
    select-append (is_live w n) (log key) (now ∷ []),
    select-later w now n h (f key),
    v n key h,
    v n k h,
  )

-- One request: the answer of the log, and the tables agree afterwards.
record Answers (now max window : ℕ) (out : Bool × RateLimiter) (spec : Bool × Log) : Type 0 where
  answer : out.0 ≡ spec.0
  agree : Agree window now out.1.requests spec.1
  max_kept : out.1.max ≡ max
  window_kept : out.1.window ≡ window

allow_swept-Answers :
    (now : ℕ) (key : String) (r : RateLimiter) (log : Log)
    → Agree r.window now r.requests log
    → Answers now r.max r.window (allow_swept now key r) (allow_logged r.max r.window now key log)
unfolding allow_swept allow_logged
allow_swept-Answers now key r log v =
    elim (Bool-cases (leb r.max (length (select_where (is_live r.window now) (r.requests key))))) [
      | inl e ↦
          rw (e, sym same ∙ e)
            (record {
              answer = refl;
              agree = Agree-pruned r.window now key r.requests log v;
              max_kept = refl;
              window_kept = refl;
            })
      | inr e ↦
          rw (e, sym same ∙ e)
            (record {
              answer = refl;
              agree = Agree-accepted r.window now key r.requests log v;
              max_kept = refl;
              window_kept = refl;
            })
    ]
  where
    same :
        leb r.max (length (select_where (is_live r.window now) (r.requests key)))
        ≡ leb r.max (recent r.window now key log)
    same = ap (λ l. leb r.max (length l)) (v now key (omega arith))

allow-Answers :
    (t now : ℕ) (key : String) (r : RateLimiter) (log : Log)
    → t ≤ now
    → Agree r.window t r.requests log
    → Answers now r.max r.window (allow now key r) (allow_logged r.max r.window now key log)
unfolding allow sweep swept
allow-Answers t now key r log h v = elim (Bool-cases (ltb (r.last_sweep + sweep_interval) now)) [
  | inl e ↦
      simp (e, swept)
        (allow_swept-Answers now key (record (sweep now r) { last_sweep = now }) log
          (λ n k l. sweep-live now n r k l ∙ v n k (omega arith)))
  | inr e ↦ simp (e, swept) (allow_swept-Answers now key r log (λ n k l. v n k (omega arith)))
]

-- Calls of `allow` in order, each with its instant.
abbrev pub Calls : Type 0
Calls = List (ℕ × String)

abbrev pub InOrder : ℕ → Calls → Type 0
InOrder t [] = Unit
InOrder t ((now, key) ∷ calls) = (t ≤ now) × InOrder now calls

unfoldable pub answers : Calls → RateLimiter → List Bool
answers [] r = []
answers ((now, key) ∷ calls) r = let (b, r') = allow now key r in b ∷ answers calls r'

unfoldable pub logged_answers : ℕ → ℕ → Calls → Log → List Bool
logged_answers max window [] log = []
logged_answers max window ((now, key) ∷ calls) log =
    let (b, log') = allow_logged max window now key log in b ∷ logged_answers max window calls log'

answers-Agree :
    (t : ℕ) (calls : Calls) (r : RateLimiter) (log : Log)
    → InOrder t calls
    → Agree r.window t r.requests log
    → answers calls r ≡ logged_answers r.max r.window calls log
unfolding answers logged_answers
answers-Agree t [] r log o v = refl
answers-Agree t ((now, key) ∷ calls) r log o v =
    let first = allow-Answers t now key r log o.0 v in
    let r' = (allow now key r).1 in
    let log' = (allow_logged r.max r.window now key log).1 in
    let rest =
      answers-Agree now calls r' log' o.1
        (subst (λ w. Agree w now r'.requests log') (sym first.window_kept) first.agree) in
    rw (first.answer, rest, first.max_kept, first.window_kept) refl

-- The limiter that `_RateLimiter(max, window)` makes.
abbrev pub new_limiter : ℕ → ℕ → RateLimiter
new_limiter max window = record { max = max; window = window; requests = λ key. []; last_sweep = 0 }

-- For calls in the order of time, a new limiter answers as the log of all accepted requests does:
-- pruning and the sweeps never change an answer.
pub answers-logged :
    (max window : ℕ) (calls : Calls)
    → InOrder 0 calls
    → answers calls (new_limiter max window) ≡ logged_answers max window calls (λ key. [])
answers-logged max window calls o =
    answers-Agree 0 calls (new_limiter max window) (λ key. []) o (λ n k h. refl)

-- The log after the calls.
unfoldable pub logged : ℕ → ℕ → Calls → Log → Log
logged max window [] log = log
logged max window ((now, key) ∷ calls) log =
    logged max window calls (allow_logged max window now key log).1

recent-later :
    (w now n : ℕ) (l : List ℕ)
    → now ≤ n
    → length (select_where (is_live w n) l) ≤ length (select_where (is_live w now) l)
recent-later w now n [] h = omega arith
recent-later w now n (t ∷ ts) h = ground (arith, recent-later w now n ts h)

allow_logged-bound :
    (max window now : ℕ) (key : String) (log : Log) (k : String)
    → recent window now k log ≤ max
    → recent window now k (allow_logged max window now key log).1 ≤ max
unfolding allow_logged
allow_logged-bound max window now key log k h = ground (
  arith,
  eq_iff k key,
  h,
  select-append (is_live window now) (log key) (now ∷ []),
  length-append (select_where (is_live window now) (log key))
      (select_where (is_live window now) (now ∷ [])),
)

-- The calls are in the order of time, from `t` to `n`.
abbrev pub Within : ℕ → Calls → ℕ → Type 0
Within t [] n = t ≤ n
Within t ((now, key) ∷ calls) n = (t ≤ now) × Within now calls n

logged-bound :
    (max window t n : ℕ) (calls : Calls) (log : Log)
    → Within t calls n
    → ((k : String) → recent window t k log ≤ max)
    → (k : String) → recent window n k (logged max window calls log) ≤ max
unfolding logged
logged-bound max window t n [] log o h = λ k. ground (arith, recent-later window t n (log k) o, h k)
logged-bound max window t n ((now, key) ∷ calls) log o h =
    logged-bound max window now n calls (allow_logged max window now key log).1 o.1 (λ k.
      allow_logged-bound max window now key log k
        (ground (arith, recent-later window t now (log k) o.0, h k)))

-- The requests that the limiter accepts, by key.
unfoldable pub accepted : Calls → RateLimiter → Log → Log
accepted [] r log = log
accepted ((now, key) ∷ calls) r log =
    let (b, r') = allow now key r in
    accepted calls r' (if b then put_requests key (log key ++ now ∷ []) log else log)

allow_logged_lem :
    (max window now : ℕ) (key : String) (log : Log)
    → (if (allow_logged max window now key log).0
        then put_requests key (log key ++ now ∷ []) log
        else log)
      ≡ (allow_logged max window now key log).1
unfolding allow_logged
allow_logged_lem max window now key log = elim (Bool-cases (leb max (recent window now key log))) [
  | inl e ↦ rw e refl
  | inr e ↦ rw e refl
]

accepted-logged :
    (t : ℕ) (calls : Calls) (n : ℕ) (r : RateLimiter) (log : Log)
    → Within t calls n
    → Agree r.window t r.requests log
    → accepted calls r log ≡ logged r.max r.window calls log
unfolding accepted logged
accepted-logged t [] n r log o v = refl
accepted-logged t ((now, key) ∷ calls) n r log o v =
    let first = allow-Answers t now key r log o.0 v in
    let r' = (allow now key r).1 in
    let log' = (allow_logged r.max r.window now key log).1 in
    let rest =
      accepted-logged now calls n r' log' o.1
        (subst (λ w. Agree w now r'.requests log') (sym first.window_kept) first.agree) in
    rw (first.answer, allow_logged_lem r.max r.window now key log)
      (rw (first.max_kept, first.window_kept) at rest)

-- Whatever the calls, in the order of time up to `n`, of the requests of a key that the limiter has
-- accepted at most `max` are younger than the window at `n`.
pub accepted-bound :
    (max window n : ℕ) (calls : Calls) (key : String)
    → Within 0 calls n
    → recent window n key (accepted calls (new_limiter max window) (λ k. [])) ≤ max
accepted-bound max window n calls key o =
    subst (λ log. recent window n key log ≤ max)
      (sym (accepted-logged 0 calls n (new_limiter max window) (λ k. []) o (λ n k h. refl)))
      (logged-bound max window 0 n calls (λ k. []) o (λ k. omega arith) key)
