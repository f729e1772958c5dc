-- ===== src/Store/Listings/Pages.antt =====
-- The pages of list_sessions (service/history/store.py).
use igrill_remote_server.Prelude.{
  insert_ordered, ordered, ℕ, zero, suc, ◌+◌, ◌*◌, ◌≡◌, refl, sym, ap, ◌∙◌, List, [], ◌∷◌, ◌++◌,
  map, arith, take, drop, text_ltb, text_ltb-asymmetric, Bool, false, Bool-cases, inl, inr,
}
use mathlib.Core.List.{Perm}
use mathlib.Core.List.Perm
use igrill_remote_server.Store.{Store, Session}
use igrill_remote_server.Store.Listings.{SessionSummary, list_sessions, summary, started_later}

next_sum : (m n : ℕ) → suc m + n ≡ suc (m + n)
next_sum m n = omega arith

no_sum : (n : ℕ) → 0 + n ≡ n
no_sum n = omega arith

no_product : (n : ℕ) → 0 * n ≡ 0
no_product n = omega arith

next_product : (m n : ℕ) → suc m * n ≡ n + m * n
next_product m n = grind arith

module _ {ℓ} {A : Type ℓ} where
  take-nil : (n : ℕ) → take {A = A} n [] ≡ []
  take-nil zero = refl
  take-nil (suc n) = refl

  drop-nil : (n : ℕ) → drop {A = A} n [] ≡ []
  drop-nil zero = refl
  drop-nil (suc n) = refl

  take-add : (m n : ℕ) (l : List A) → take (m + n) l ≡ take m l ++ take n (drop m l)
  take-add zero n l = ap (λ k. take k l) (no_sum n)
  take-add (suc m) n [] = take-nil (suc m + n) ∙ sym (take-nil n)
  take-add (suc m) n (x ∷ xs) =
      ap (λ k. take k (x ∷ xs)) (next_sum m n) ∙ ap (λ l. x ∷ l) (take-add m n xs)

  drop-drop : (m n : ℕ) (l : List A) → drop m (drop n l) ≡ drop (n + m) l
  drop-drop m zero l = ap (λ k. drop k l) (sym (no_sum m))
  drop-drop m (suc n) [] = drop-nil m ∙ sym (drop-nil (suc n + m))
  drop-drop m (suc n) (x ∷ xs) = drop-drop m n xs ∙ ap (λ k. drop k (x ∷ xs)) (sym (next_sum n m))

map-append {ℓ κ} :
    {A : Type ℓ} {B : Type κ} (f : A → B) (l m : List A) → map f (l ++ m) ≡ map f l ++ map f m
map-append f [] m = refl
map-append f (x ∷ l) m = ap (λ k. f x ∷ k) (map-append f l m)

-- Each session started no earlier than the one below it.
abbrev pub IsLatestFirst : List Session → Type 0
IsLatestFirst [] = Unit
IsLatestFirst (r ∷ []) = Unit
IsLatestFirst (r ∷ x ∷ l) = (text_ltb r.started_at x.started_at ≡ false) × IsLatestFirst (x ∷ l)

insert-IsLatestFirst :
    (r : Session) (l : List Session)
    → IsLatestFirst l
    → IsLatestFirst (insert_ordered started_later r l)
insert-IsLatestFirst r [] h = tt
insert-IsLatestFirst r (x ∷ []) h = elim (Bool-cases (started_later x r)) [
  | inl e ↦ rw e (text_ltb-asymmetric r.started_at x.started_at e, tt)
  | inr e ↦ rw e (e, tt)
]
insert-IsLatestFirst r (x ∷ y ∷ l) h = elim (Bool-cases (started_later x r)) [
  | inr e ↦ rw e (e, h)
  | inl e ↦
      let below = insert-IsLatestFirst r (y ∷ l) h.1 in
      elim (Bool-cases (started_later y r)) [
        | inl f ↦ rw (e, f) (h.0, rw f at below)
        | inr f ↦ rw (e, f) (text_ltb-asymmetric r.started_at x.started_at e, rw f at below)
      ]
]

ordered-IsLatestFirst : (l : List Session) → IsLatestFirst (ordered started_later l)
ordered-IsLatestFirst [] = tt
ordered-IsLatestFirst (r ∷ l) =
    insert-IsLatestFirst r (ordered started_later l) (ordered-IsLatestFirst l)

module _ {ℓ} {A : Type ℓ} (before : A → A → Bool) where
  insert-perm : (a : A) (l : List A) → Perm (insert_ordered before a l) (a ∷ l)
  insert-perm a [] = Perm.refl (a ∷ [])
  insert-perm a (x ∷ l) = elim (Bool-cases (before x a)) [
    | inl e ↦ rw e (Perm.trans (Perm.cons x (insert-perm a l)) (Perm.swap a x l))
    | inr e ↦ rw e (Perm.refl (a ∷ x ∷ l))
  ]

  ordered-perm : (l : List A) → Perm (ordered before l) l
  ordered-perm [] = Perm.refl []
  ordered-perm (x ∷ l) =
      Perm.trans (insert-perm x (ordered before l)) (Perm.cons x (ordered-perm l))

module _ {T : Type 0} (limit : ℕ) (s : Store T) where
  -- What a client reads that asks for `n` pages in turn.
  abbrev pub pages : ℕ → ℕ → List SessionSummary
  pages zero offset = []
  pages (suc n) offset = list_sessions limit offset s ++ pages n (offset + limit)

  pages-take :
      (n offset : ℕ)
      → pages n offset
        ≡ map (summary s) (take (n * limit) (drop offset (ordered started_later s.sessions)))
  unfolding list_sessions
  pages-take zero offset =
      ap (λ k. map (summary s) (take k (drop offset (ordered started_later s.sessions))))
        (sym (no_product limit))
  pages-take (suc n) offset =
      let l = drop offset (ordered started_later s.sessions) in
      ap (λ k. map (summary s) (take limit l) ++ k)
        (pages-take n (offset + limit)
          ∙ ap (λ k. map (summary s) (take (n * limit) k))
              (sym (drop-drop limit offset (ordered started_later s.sessions))))
      ∙ sym (map-append (summary s) (take limit l) (take (n * limit) (drop limit l)))
      ∙ ap (λ k. map (summary s) k) (sym (take-add limit (n * limit) l))
      ∙ ap (λ k. map (summary s) (take k l)) (sym (next_product n limit))

  -- There is one listing of the sessions of the store, each of them in it as often as in the table
  -- and none started before the one below it, such that the pages which a client reads in turn, put
  -- together, are the summaries of that listing from the offset on: as long as the table does not
  -- change no session is left out between two pages and none comes twice.
  pub pages-list_sessions :
      (listing : List Session) × Perm listing s.sessions
      × IsLatestFirst listing
      × ((n offset : ℕ) → pages n offset ≡ map (summary s) (take (n * limit) (drop offset listing)))
  pages-list_sessions = (
    ordered started_later s.sessions,
    ordered-perm started_later s.sessions,
    ordered-IsLatestFirst s.sessions,
    pages-take,
  )
