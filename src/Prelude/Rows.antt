-- ===== src/Prelude/Rows.antt =====
-- A table as the list of its rows, and what the SQL statements do with it: a WHERE clause is a
-- Boolean test on rows.
use mathlib.Core.Path.{◌≡◌, refl, sym, subst}
use mathlib.Core.Logic.{◌⊎◌, inl, inr}
use mathlib.Core.Bool.{Bool, true, false, ◌||◌}
use mathlib.Core.Option
use mathlib.Core.Option.{Option, none, some}
use mathlib.Core.List.Memᴰ
use mathlib.Core.List.{Memᴰ, List, [], ◌∷◌, ◌++◌}
use native.Mathlib.Omega.{arith}
use igrill_remote_server.Prelude.Tests.{if◌then◌else◌, is_some, Bool-cases}
use igrill_remote_server.Prelude.Lists.{All}

module _ {ℓ} {A : Type ℓ} where
  -- SELECT ... WHERE p
  abbrev pub select_where : (A → Bool) → List A → List A
  select_where p [] = []
  select_where p (x ∷ xs) = if p x then x ∷ select_where p xs else select_where p xs

  -- the first row of such a SELECT, `fetchone()`
  abbrev pub first_where : (A → Bool) → List A → Option A
  first_where p [] = none
  first_where p (x ∷ xs) = if p x then some x else first_where p xs

  -- whether such a SELECT has a row
  abbrev pub any_where : (A → Bool) → List A → Bool
  any_where p [] = false
  any_where p (x ∷ xs) = p x || any_where p xs

  -- UPDATE ... SET f WHERE p
  abbrev pub update_where : (A → Bool) → (A → A) → List A → List A
  update_where p f [] = []
  update_where p f (x ∷ xs) = (if p x then f x else x) ∷ update_where p f xs

  -- DELETE ... WHERE p
  abbrev pub delete_where : (A → Bool) → List A → List A
  delete_where p [] = []
  delete_where p (x ∷ xs) = if p x then delete_where p xs else x ∷ delete_where p xs

module _ {ℓ} {A : Type ℓ} where
  pub any_where-eq-is_some : (p : A → Bool) (l : List A) → any_where p l ≡ is_some (first_where p l)
  any_where-eq-is_some p [] = refl
  any_where-eq-is_some p (x ∷ xs) = ground (arith, any_where-eq-is_some p xs)

  -- An update that keeps the test of its own WHERE clause changes the row that is fetched.
  pub first_where-update_where :
      (p : A → Bool) (f : A → A) (l : List A)
      → ((x : A) → p (f x) ≡ p x)
      → first_where p (update_where p f l) ≡ Option.map f (first_where p l)
  first_where-update_where p f [] h = refl
  first_where-update_where p f (x ∷ xs) h = ground (arith, h x, first_where-update_where p f xs h)

  pub any_where-update_where :
      (p q : A → Bool) (f : A → A) (l : List A)
      → ((x : A) → p (f x) ≡ p x)
      → any_where p (update_where q f l) ≡ any_where p l
  any_where-update_where p q f [] h = refl
  any_where-update_where p q f (x ∷ xs) h = ground (arith, h x, any_where-update_where p q f xs h)

  -- After an UPDATE that keeps the test of a SELECT, it fetches the same row, updated or not.
  pub update_where-first :
      (p q : A → Bool) (f : A → A) (l : List A)
      → ((x : A) → p (f x) ≡ p x)
      → {r : A} → first_where p l ≡ some r
      → (first_where p (update_where q f l) ≡ some r)
        ⊎ (first_where p (update_where q f l) ≡ some (f r))
  update_where-first p q f [] keep h = cc
  update_where-first p q f (x ∷ xs) keep {r} h =
      ground (arith, keep x, update_where-first p q f xs keep {r = r})

  -- A new row is fetched where no old one meets the test.
  pub first_where-append_new :
      (p : A → Bool) (l : List A) (x : A)
      → any_where p l ≡ false
      → p x ≡ true
      → first_where p (l ++ x ∷ []) ≡ some x
  first_where-append_new p [] x n h = rw h refl
  first_where-append_new p (y ∷ ys) x n h = ground (arith, first_where-append_new p ys x)

  -- Rows that a WHERE clause leaves out are fetched as before.
  pub first_where-update_where_ne :
      (p q : A → Bool) (f : A → A) (l : List A)
      → ((x : A) → p x ≡ true → q x ≡ false)
      → ((x : A) → p x ≡ true → q (f x) ≡ false)
      → first_where q (update_where p f l) ≡ first_where q l
  first_where-update_where_ne p q f [] h k = refl
  first_where-update_where_ne p q f (x ∷ xs) h k =
      ground (arith, h x, k x, first_where-update_where_ne p q f xs h k)

  pub first_where-delete_where :
      (p : A → Bool) (l : List A) → first_where p (delete_where p l) ≡ none
  first_where-delete_where p [] = refl
  first_where-delete_where p (x ∷ xs) = ground (arith, first_where-delete_where p xs)

  pub first_where-delete_where_ne :
      (p q : A → Bool) (l : List A)
      → ((x : A) → p x ≡ true → q x ≡ false)
      → first_where q (delete_where p l) ≡ first_where q l
  first_where-delete_where_ne p q [] h = refl
  first_where-delete_where_ne p q (x ∷ xs) h =
      ground (arith, h x, first_where-delete_where_ne p q xs h)

  pub first_where-append :
      (p : A → Bool) (l m : List A)
      → first_where p (l ++ m) ≡ elim (first_where p l) [ none ↦ first_where p m | some x ↦ some x ]
  first_where-append p [] m = refl
  first_where-append p (x ∷ xs) m = ground (arith, first_where-append p xs m)

  -- The row that is fetched meets the test.
  pub first_where-holds :
      (p : A → Bool) (l : List A) {x : A} → first_where p l ≡ some x → p x ≡ true
  first_where-holds p [] h = cc
  first_where-holds p (y ∷ ys) {x} h = ground (arith, first_where-holds p ys {x = x})

  pub select_where-delete_where :
      (p : A → Bool) (l : List A) → select_where p (delete_where p l) ≡ []
  select_where-delete_where p [] = refl
  select_where-delete_where p (x ∷ xs) = ground (arith, select_where-delete_where p xs)

module _ {ℓ κ μ} {A : Type ℓ} (P : A → Type κ) (Q : A → Type μ) where
  -- An UPDATE whose rows satisfy `P` leaves rows that satisfy `Q`.
  pub All-update_where_to :
      (p : A → Bool) (f : A → A) (l : List A)
      → ((x : A) → p x ≡ true → P x → Q (f x))
      → ((x : A) → p x ≡ false → P x → Q x)
      → All P l
      → All Q (update_where p f l)
  All-update_where_to p f [] k n h = tt
  All-update_where_to p f (x ∷ xs) k n h = elim (Bool-cases (p x)) [
    | inl e ↦ rw e (k x e h.0, All-update_where_to p f xs k n h.1)
    | inr e ↦ rw e (n x e h.0, All-update_where_to p f xs k n h.1)
  ]

module _ {ℓ} {A : Type ℓ} where
  -- A DELETE leaves what another SELECT returns, where their tests exclude one another.
  pub select_where-delete_where_ne :
      (p q : A → Bool) (l : List A)
      → ((x : A) → p x ≡ true → q x ≡ false)
      → select_where q (delete_where p l) ≡ select_where q l
  select_where-delete_where_ne p q [] h = refl
  select_where-delete_where_ne p q (x ∷ xs) h =
      ground (arith, h x, select_where-delete_where_ne p q xs h)

module _ {ℓ κ} {A : Type ℓ} (P : A → Type κ) where
  pub All-select_where : (q : A → Bool) (l : List A) → All P l → All P (select_where q l)
  All-select_where q [] h = tt
  All-select_where q (x ∷ xs) h = elim (Bool-cases (q x)) [
    | inl e ↦ rw e (h.0, All-select_where q xs h.1)
    | inr e ↦ rw e (All-select_where q xs h.1)
  ]

  pub All-select_where_test :
      (q : A → Bool) (l : List A) → All P l → All (λ x. P x × (q x ≡ true)) (select_where q l)
  All-select_where_test q [] h = tt
  All-select_where_test q (x ∷ xs) h = elim (Bool-cases (q x)) [
    | inl e ↦ rw e ((h.0, e), All-select_where_test q xs h.1)
    | inr e ↦ rw e (All-select_where_test q xs h.1)
  ]

  pub All-of_select_where :
      (q : A → Bool) (l : List A) → All P (select_where q l) → All (λ x. q x ≡ true → P x) l
  All-of_select_where q [] h = tt
  All-of_select_where q (x ∷ xs) h = elim (Bool-cases (q x)) [
    | inl e ↦ let k = rw e at h in (λ _. k.0, All-of_select_where q xs k.1)
    | inr e ↦ (λ t. absurd (ground arith), All-of_select_where q xs (rw e at h))
  ]

  pub All-update_where :
      (p : A → Bool) (f : A → A) (l : List A)
      → ((x : A) → p x ≡ true → P x → P (f x))
      → All P l
      → All P (update_where p f l)
  All-update_where p f [] k h = tt
  All-update_where p f (x ∷ xs) k h = elim (Bool-cases (p x)) [
    | inl e ↦ rw e (k x e h.0, All-update_where p f xs k h.1)
    | inr e ↦ rw e (h.0, All-update_where p f xs k h.1)
  ]

  pub All-delete_where : (p : A → Bool) (l : List A) → All P l → All P (delete_where p l)
  All-delete_where p [] h = tt
  All-delete_where p (x ∷ xs) h = elim (Bool-cases (p x)) [
    | inl e ↦ rw e (All-delete_where p xs h.1)
    | inr e ↦ rw e (h.0, All-delete_where p xs h.1)
  ]

  pub All-first_where :
      (p : A → Bool) (l : List A) {x : A} → All P l → first_where p l ≡ some x → P x
  All-first_where p [] h e = cc
  All-first_where p (y ∷ ys) {x} h e = elim (Bool-cases (p y)) [
    | inl c ↦ subst P {x = y} (ground arith) h.0
    | inr c ↦ All-first_where p ys h.1 (ground arith)
  ]

module _ {ℓ} {A : Type ℓ} (p : A → Bool) where
  -- A row is selected exactly when it is in the table and meets the test.
  pub mem-select_where_intro :
      {x : A} (l : List A) → Memᴰ x l → p x ≡ true → Memᴰ x (select_where p l)
  mem-select_where_intro {x} [] m h = elim m [ ]
  mem-select_where_intro {x} (y ∷ ys) (Memᴰ.head e) h =
      let here : p y ≡ true = subst (λ z. p z ≡ true) e h in rw here (Memᴰ.head e)
  mem-select_where_intro {x} (y ∷ ys) (Memᴰ.tail m) h = elim (Bool-cases (p y)) [
    | inl c ↦ rw c (Memᴰ.tail (mem-select_where_intro ys m h))
    | inr c ↦ rw c (mem-select_where_intro ys m h)
  ]

  mem_cons_test :
      {x y : A} {l m : List A}
      → p y ≡ true
      → (Memᴰ x m → Memᴰ x l × (p x ≡ true))
      → Memᴰ x (y ∷ m)
      → Memᴰ x (y ∷ l) × (p x ≡ true)
  mem_cons_test {x} {y} c ih (Memᴰ.head e) = (Memᴰ.head e, subst (λ z. p z ≡ true) (sym e) c)
  mem_cons_test c ih (Memᴰ.tail n) = (Memᴰ.tail (ih n).0, (ih n).1)

  pub mem-select_where_elim :
      {x : A} (l : List A) → Memᴰ x (select_where p l) → Memᴰ x l × (p x ≡ true)
  mem-select_where_elim [] m = absurd (Memᴰ.not-nil m)
  mem-select_where_elim {x} (y ∷ ys) m = elim (Bool-cases (p y)) [
    | inl c ↦ mem_cons_test c (mem-select_where_elim ys) (rw c at m)
    | inr c ↦ let r = mem-select_where_elim ys (rw c at m) in (Memᴰ.tail r.0, r.1)
  ]

-- ORDER BY, by insertion
module _ {ℓ} {A : Type ℓ} (before : A → A → Bool) where
  abbrev pub insert_ordered : A → List A → List A
  insert_ordered a [] = a ∷ []
  insert_ordered a (x ∷ xs) = if before x a then x ∷ insert_ordered a xs else a ∷ x ∷ xs

  abbrev pub ordered : List A → List A
  ordered [] = []
  ordered (x ∷ xs) = insert_ordered x (ordered xs)
