-- ===== src/Action.antt =====
-- Methods that change an object and may raise. What was written before the raise stays written,
-- so the state comes back beside the error too.
pub mod Frame

-- The exceptions of the program, one constructor for each place that raises with its own text.
pub data Error : Type 0 where
  invalid_mode inactive_session no_such_session no_such_timer timer_completed : Error
  integrity_error assertion_error database_error key_error value_error overflow_error : Error
  type_error attribute_error : Error

pub data Result {ℓ} (A : Type ℓ) : Type ℓ where
  ok : A → Result A
  err : Error → Result A

abbrev pub Action {ℓ} : Type ℓ → Type ℓ → Type ℓ
Action S A = S → Result A × S

module _ {ℓ} {S A : Type ℓ} where
  abbrev pub pure : A → Action S A
  pure a s = (ok a, s)

  abbrev pub raise : Error → Action S A
  raise e s = (err e, s)

module _ {ℓ} {S : Type ℓ} where
  abbrev pub gets {κ} : {A : Type κ} → (S → A) → S → Result A × S
  gets f s = (ok (f s), s)

  abbrev pub modify : (S → S) → S → Result (Unit {0}) × S
  modify f s = (ok tt, f s)

  infixl 5 ◌>>=◌ ◌>>◌
  abbrev pub ◌>>=◌ {κ μ} :
      {A : Type κ} {B : Type μ} → (S → Result A × S) → (A → S → Result B × S) → S → Result B × S
  ◌>>=◌ m f s = let (r, s') = m s in elim r [ ok a ↦ f a s' | err e ↦ (err e, s') ]

  abbrev pub ◌>>◌ {κ μ} :
      {A : Type κ} {B : Type μ} → (S → Result A × S) → (S → Result B × S) → S → Result B × S
  m >> n = m >>= λ _. n

-- A chain of fallible steps on values, with no state.
infixl 5 ◌then_try◌
abbrev pub ◌then_try◌ {ℓ κ} : {A : Type ℓ} {B : Type κ} → Result A → (A → Result B) → Result B
ok a then_try f = f a
err e then_try f = err e
