-- ===== src/Queues/Newest.antt =====
-- The bounded queues (service/models/device.py, service/api/websocket.py) over sequences of messages.
use igrill_remote_server.Prelude.{
  ℕ, zero, suc, ◌-◌, ◌≤◌, ◌≡◌, refl, sym, ap, ◌∙◌, Bool, true, false, List, [], ◌∷◌, ◌++◌, arith,
  length, drop, length-append, length-drop,
}
use mathlib.Core.List.{append-nil, append_assoc}
use igrill_remote_server.Queues.{offer, Client, enqueue}

module _ {M : Type 0} where
  -- The last `n` items.
  abbrev pub newest : ℕ → List M → List M
  newest n l = drop (length l - n) l

  drop-append : (k : ℕ) (l m : List M) → k ≤ length l → drop k (l ++ m) ≡ drop k l ++ m
  drop-append zero l m h = refl
  drop-append (suc k) [] m h = absurd (omega (arith, h))
  drop-append (suc k) (x ∷ l) m h = drop-append k l m (omega (arith, h))

  drop-suc : (k : ℕ) (l : List M) → drop 1 (drop k l) ≡ drop (suc k) l
  drop-suc zero l = refl
  drop-suc (suc k) [] = refl
  drop-suc (suc k) (x ∷ l) = drop-suc k l

  drop-nil : (k : ℕ) → drop {A = M} k [] ≡ []
  drop-nil zero = refl
  drop-nil (suc k) = refl

  offer-newest :
      (n : ℕ) (m : M) (l : List M) → 1 ≤ n → offer n m (newest n l) ≡ newest n (l ++ m ∷ [])
  unfolding offer
  offer-newest n m l h = ground (
    arith,
    length-append l (m ∷ []),
    length-drop (length l - n) l,
    drop-suc (length l - n) l,
    drop-append (length l - n) l (m ∷ []),
    drop-append (suc (length l - n)) l (m ∷ []),
  )

  -- Messages published in order on a queue of `n` places.
  unfoldable pub offer_all : ℕ → List M → List M → List M
  offer_all n [] queue = queue
  offer_all n (m ∷ ms) queue = offer_all n ms (offer n m queue)

  offer_all-newest :
      (n : ℕ) (ms l : List M) → 1 ≤ n → offer_all n ms (newest n l) ≡ newest n (l ++ ms)
  unfolding offer_all
  offer_all-newest n [] l h = ap (newest n) (sym (append-nil l))
  offer_all-newest n (m ∷ ms) l h =
      ap (offer_all n ms) (offer-newest n m l h)
      ∙ offer_all-newest n ms (l ++ m ∷ []) h
      ∙ ap (newest n) (append_assoc l (m ∷ []) ms)

  -- A queue that nobody reads holds the newest messages that fit, in their order.
  pub offer_all-keeps_newest : (n : ℕ) (ms : List M) → 1 ≤ n → offer_all n ms [] ≡ newest n ms
  offer_all-keeps_newest n ms h =
      ap (offer_all n ms) (sym (drop-nil (0 - n))) ∙ offer_all-newest n ms [] h

-- The messages of one kind.
module _ {M : Type 0} where
  abbrev pub of_kind : Bool → List (M × Bool) → List M
  of_kind b [] = []
  of_kind true ((m, true) ∷ ms) = m ∷ of_kind true ms
  of_kind true ((m, false) ∷ ms) = of_kind true ms
  of_kind false ((m, true) ∷ ms) = of_kind false ms
  of_kind false ((m, false) ∷ ms) = m ∷ of_kind false ms

  unfoldable pub enqueue_all : List (M × Bool) → Client M → Client M
  enqueue_all [] c = c
  enqueue_all ((m, critical) ∷ ms) c = enqueue_all ms (enqueue m critical c)

  enqueue_all-queues :
      (ms : List (M × Bool)) (c : Client M)
      → ((enqueue_all ms c).event_queue ≡ offer_all 64 (of_kind true ms) c.event_queue)
        × ((enqueue_all ms c).reading_queue ≡ offer_all 1 (of_kind false ms) c.reading_queue)
  unfolding enqueue_all enqueue offer_all
  enqueue_all-queues [] c = (refl, refl)
  enqueue_all-queues ((m, true) ∷ ms) c = enqueue_all-queues ms (enqueue m true c)
  enqueue_all-queues ((m, false) ∷ ms) c = enqueue_all-queues ms (enqueue m false c)

  -- Readings never push an event out. However the two kinds are mixed, a client that is not read
  -- holds the newest 64 critical messages and the newest other one.
  pub enqueue_all-keeps_newest :
      (ms : List (M × Bool))
      → let c = enqueue_all ms (record { reading_queue = []; event_queue = [] }) in
        (c.event_queue ≡ newest 64 (of_kind true ms))
        × (c.reading_queue ≡ newest 1 (of_kind false ms))
  enqueue_all-keeps_newest ms =
      let queues = enqueue_all-queues ms (record { reading_queue = []; event_queue = [] }) in
      (
        queues.0 ∙ offer_all-keeps_newest 64 (of_kind true ms) (omega arith),
        queues.1 ∙ offer_all-keeps_newest 1 (of_kind false ms) (omega arith),
      )
