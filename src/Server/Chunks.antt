-- ===== src/Server/Chunks.antt =====
-- What _handle_history sends (service/api/websocket.py).
use igrill_remote_server.Prelude.{
  ℕ, suc, ◌≤◌, ◌<◌, ◌≡◌, refl, sym, ap, ◌∙◌, inl, inr, String, true, false, Option, List, [], ◌∷◌,
  ◌++◌, arith, All, length, leb, Bool-cases, ℤ, pos, negsuc, pos_part, ltb_ℤ,
}
use mathlib.Core.List.{append_assoc}
use igrill_remote_server.Store.Listings.{HistoryItem}
use igrill_remote_server.Server.{Server, Context}
use igrill_remote_server.Server.Reads.{send_chunks, chunk_limit, answer_history}

still_open : (size n : ℕ) → leb size n ≡ false → n < size
still_open size n e = ground arith

module _ {ℓ} {A : Type ℓ} where
  abbrev pub joined : List (List A) → List A
  joined [] = []
  joined (c ∷ cs) = c ++ joined cs

  -- A message with at least one item and at most `size`.
  abbrev pub Fits : ℕ → List A → Type 0
  Fits size c = (1 ≤ length c) × (length c ≤ size)

  grown : (chunk : List A) (x : A) → length (chunk ++ x ∷ []) ≡ suc (length chunk)
  grown [] x = refl
  grown (y ∷ chunk) x = ap suc (grown chunk x)

  joined-send_chunks :
      (size : ℕ) (chunk items : List A) → joined (send_chunks size chunk items) ≡ chunk ++ items
  unfolding send_chunks
  joined-send_chunks size [] [] = refl
  joined-send_chunks size (x ∷ chunk) [] = refl
  joined-send_chunks size chunk (x ∷ items) =
      elim (Bool-cases (leb size (length (chunk ++ x ∷ [])))) [
        | inl e ↦ rw e (
            ap (λ k. (chunk ++ x ∷ []) ++ k) (joined-send_chunks size [] items)
            ∙ append_assoc chunk (x ∷ []) items)
        | inr e ↦
            rw e
              (joined-send_chunks size (chunk ++ x ∷ []) items ∙ append_assoc chunk (x ∷ []) items)
      ]

  send_chunks-Fits :
      (size : ℕ) (chunk items : List A)
      → 0 < size
      → length chunk < size
      → All (Fits size) (send_chunks size chunk items)
  unfolding send_chunks
  send_chunks-Fits size [] [] o h = tt
  send_chunks-Fits size (x ∷ chunk) [] o h = ((omega arith, omega arith), tt)
  send_chunks-Fits size chunk (x ∷ items) o h =
      let g = grown chunk x in
      elim (Bool-cases (leb size (length (chunk ++ x ∷ [])))) [
        | inl e ↦ rw e (((omega arith, omega arith), send_chunks-Fits size [] items o o))
        | inr e ↦ rw e (
            send_chunks-Fits size (chunk ++ x ∷ []) items o
              (still_open size (length (chunk ++ x ∷ [])) e))
      ]

positive : (n : ℤ) → ltb_ℤ (pos 0) n ≡ true → 0 < pos_part n
positive (pos n) e = ground arith
positive (negsuc n) e = ground arith

chunk_limit-positive : (n : ℤ) → 0 < chunk_limit n
unfolding chunk_limit
chunk_limit-positive n = elim (Bool-cases (ltb_ℤ (pos 0) n)) [
  | inl e ↦ rw e (positive n e)
  | inr e ↦ rw e (omega arith)
]

module _ {F : Type 0} (C : Context F) where
  -- Whatever the `chunkSize` of the request: the chunks put together are the items in their order,
  -- no chunk is empty or larger than the size, and the `count` of history_end is the number of items
  -- in the chunks.
  pub answer_history-Fits :
      (n : ℤ) (sid : Option String) (items : List (HistoryItem F)) (s : Server F)
      → let r = answer_history C (chunk_limit n) sid items s in
        (joined r.chunks ≡ items)
        × All (Fits (chunk_limit n)) r.chunks
        × (r.count ≡ length (joined r.chunks))
  unfolding answer_history
  answer_history-Fits n sid items s =
      let j = joined-send_chunks (chunk_limit n) [] items in
      (
        j,
        send_chunks-Fits (chunk_limit n) [] items (chunk_limit-positive n) (chunk_limit-positive n),
        ap length (sym j),
      )
