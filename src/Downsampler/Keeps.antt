-- ===== src/Downsampler/Keeps.antt =====
-- Statements of downsample_range that leave a part of the tables as it is
-- (service/history/downsampler.py).
use igrill_remote_server.Prelude.{
  insert_ordered, ordered, ℕ, zero, suc, ◌≤◌, String, ◌≡◌, subst, Option-cases, refl, sym, ap, ◌∙◌,
  inl, inr, Bool, true, false, not, ◌&&◌, Option, none, some, List, [], ◌∷◌, ◌++◌, arith, All,
  All-append, All-update_where, str_eq, ltb, ◌==◌, ==_iff, eq_iff, Bool-cases, select_where,
  any_where, delete_where, select_where-delete_where_ne,
}
use igrill_remote_server.Action.{Result, ok, err, ◌then_try◌}
use igrill_remote_server.Store.{Store, Db, ProbeReading, DeviceReading}
use igrill_remote_server.Store.Devices.{session_is}
use igrill_remote_server.Store.Readings.{probe_key, device_key}
use igrill_remote_server.Downsampler.{Averages, same_collapsed, is_in, Bucket, Collapsed, note_seqs}
use igrill_remote_server.Downsampler.Pass.{
  attempt, delete_ids, insert_average, collapsed_row, snapshot, write_snapshot, rewrite_devices,
}

abbrev pub OnOk {ℓ κ} : {A : Type ℓ} → (A → Type κ) → Result A → Type κ
OnOk P (ok a) = P a
OnOk P (err e) = Unit

abbrev pub OnSome {ℓ κ} : {A : Type ℓ} → (A → Type κ) → Option A → Type κ
OnSome P none = Unit
OnSome P (some a) = P a

pub OnOk-then_try {ℓ κ μ ν} :
    {A : Type ℓ} {B : Type κ} (P : A → Type μ) (Q : B → Type ν) (r : Result A) (f : A → Result B)
    → ((a : A) → P a → OnOk Q (f a))
    → OnOk P r
    → OnOk Q (r then_try f)
OnOk-then_try P Q (ok a) f h p = h a p
OnOk-then_try P Q (err e) f h p = tt

pub OnOk-map {ℓ κ ν} :
    {A : Type ℓ} {B : Type κ} (Q : B → Type ν) (r : Result A) (f : A → B)
    → ((a : A) → Q (f a))
    → OnOk Q (r then_try λ a. ok (f a))
OnOk-map Q (ok a) f h = h a
OnOk-map Q (err e) f h = tt

pub note_seqs-sid :
    (sid s addr : String) (n : ℕ) (seqs : List ℕ) (l : List Collapsed)
    → str_eq s sid ≡ true
    → All (λ (c : Collapsed). str_eq c.session_id sid ≡ true) l
    → All (λ (c : Collapsed). str_eq c.session_id sid ≡ true) (note_seqs s addr n seqs l)
unfolding note_seqs
note_seqs-sid sid s addr n seqs l h hs = elim (Bool-cases (any_where (same_collapsed s addr n) l)) [
  | inl e ↦ rw e (
      All-update_where (λ (c : Collapsed). str_eq c.session_id sid ≡ true) (same_collapsed s addr n)
        (λ c. record c { seqs = c.seqs ++ seqs }) l (λ c e v. v) hs)
  | inr e ↦ rw e (
      All-append (λ (c : Collapsed). str_eq c.session_id sid ≡ true) l
        (record { session_id = s; address = addr; min_seq = n; seqs = seqs } ∷ []) hs (h, tt))
]

pub All-select_where_implies {ℓ κ} :
    {A : Type ℓ} (P : A → Type κ) (q : A → Bool) (l : List A)
    → ((x : A) → q x ≡ true → P x)
    → All P (select_where q l)
All-select_where_implies P q [] h = tt
All-select_where_implies P q (x ∷ xs) h = elim (Bool-cases (q x)) [
  | inl e ↦ rw e (h x e, All-select_where_implies P q xs h)
  | inr e ↦ rw e (All-select_where_implies P q xs h)
]

module _ {ℓ κ} {A : Type ℓ} (P : A → Type κ) (before : A → A → Bool) where
  pub All-insert_ordered : (a : A) (l : List A) → P a → All P l → All P (insert_ordered before a l)
  All-insert_ordered a [] h hs = (h, tt)
  All-insert_ordered a (x ∷ xs) h hs = elim (Bool-cases (before x a)) [
    | inl e ↦ rw e (hs.0, All-insert_ordered a xs h hs.1)
    | inr e ↦ rw e (h, hs)
  ]

  pub All-ordered : (l : List A) → All P l → All P (ordered before l)
  All-ordered [] h = tt
  All-ordered (x ∷ xs) h = All-insert_ordered x (ordered before xs) h.0 (All-ordered xs h.1)

module _ {ℓ} {D : Type 0} {X : Type ℓ} (view : D → X) where
  pub OnSome-then :
      {d d' : D} (o : Option D)
      → OnSome (λ x. view x ≡ view d') o
      → view d' ≡ view d
      → OnSome (λ x. view x ≡ view d) o
  OnSome-then none h e = tt
  OnSome-then (some x) h e = h ∙ e

  pub by_some :
      (d d' : D) (o : Option D) → o ≡ some d' → OnSome (λ x. view x ≡ view d) o → view d' ≡ view d
  by_some d d' o e =
      subst (λ p. OnSome (λ x. view x ≡ view d) p → view d' ≡ view d) (sym e) (λ h. h)

-- Statements that leave a part of the tables as it is leave it so together.
pub attempt-kept {ℓ} :
    {D : Type 0} {X : Type ℓ} (view : D → X) (fault : Option ℕ) (sts : List (D → Option D))
    → All (λ st. (d : D) → OnSome (λ d'. view d' ≡ view d) (st d)) sts
    → (d : D) → OnSome (λ d'. view d' ≡ view d) (attempt fault sts d)
unfolding attempt
attempt-kept view none [] h d = refl
attempt-kept view none (st ∷ sts) h d = elim (Option-cases (st d)) [
  | inl e ↦ rw e tt
  | inr (d', e) ↦ rw e (
      OnSome-then view (attempt none sts d') (attempt-kept view none sts h.1 d')
        (by_some view d d' (st d) e (h.0 d)))
]
attempt-kept view (some n) [] h d = elim (Bool-cases (n == 0)) [
  | inl e ↦ rw e tt
  | inr e ↦ rw e refl
]
attempt-kept view (some zero) (st ∷ sts) h d = tt
attempt-kept view (some (suc n)) (st ∷ sts) h d = elim (Option-cases (st d)) [
  | inl e ↦ rw e tt
  | inr (d', e) ↦ rw e (
      OnSome-then view (attempt (some n) sts d') (attempt-kept view (some n) sts h.1 d')
        (by_some view d d' (st d) e (h.0 d)))
]

pub select_where-append_skip {ℓ} :
    {A : Type ℓ} (q : A → Bool) (l : List A) (x : A)
    → q x ≡ false
    → select_where q (l ++ x ∷ []) ≡ select_where q l
select_where-append_skip q [] x h = ground (arith, h)
select_where-append_skip q (y ∷ ys) x h = ground (arith, select_where-append_skip q ys x h)

pub is_in_trans :
    (ids l : List ℕ) (n : ℕ)
    → All (λ (m : ℕ). is_in ids m ≡ true) l
    → is_in l n ≡ true
    → is_in ids n ≡ true
is_in_trans ids [] n h e = ground arith
is_in_trans ids (m ∷ l) n h e = elim (Bool-cases (m == n)) [
  | inl f ↦ subst (λ (k : ℕ). is_in ids k ≡ true) ((==_iff m n).0 f) h.0
  | inr f ↦ is_in_trans ids l n h.1 (ground (arith, e, f))
]

module _ {T : Type 0} where
  -- The tables without the readings.
  abbrev pub rest : Db T → Db T
  rest d = record d { probe_readings = []; device_readings = [] }

  -- The store without its readings.
  abbrev pub forget_readings : Store T → Store T
  forget_readings s = record s { db = rest s.db }

  -- A row that is none of `ids` and is older than the row `new_id`.
  abbrev pub is_outside : List ℕ → ℕ → ProbeReading T → Bool
  is_outside ids new_id r = not (is_in ids r.id) && ltb r.id new_id

  abbrev pub of_other : String → DeviceReading T → Bool
  of_other sid r = not (str_eq r.session_id sid)

  module _ (sid : String) (ids : List ℕ) (new_id : ℕ) where
    abbrev pub view : Db T → Db T × List (ProbeReading T) × List (DeviceReading T)
    view d = (
      rest d,
      select_where (is_outside ids new_id) d.probe_readings,
      select_where (of_other sid) d.device_readings,
    )

    -- No other table and no field; the readings that are not the window_rows's; the device readings
    -- of the other sessions.
    abbrev pub outside_view : Store T → Store T × List (ProbeReading T) × List (DeviceReading T)
    outside_view s = (
      record s { db = rest s.db },
      select_where (is_outside ids new_id) s.probe_readings,
      select_where (of_other sid) s.device_readings,
    )

    abbrev pub Keeps : (Db T → Option (Db T)) → Type 0
    Keeps st = (d : Db T) → OnSome (λ d'. view d' ≡ view d) (st d)

    abbrev pub IsOwn : ProbeReading T → Type 0
    IsOwn r = (str_eq r.session_id sid ≡ true) × (is_in ids r.id ≡ true)

    abbrev pub IsOwnBucket : Bucket T → Type 0
    IsOwnBucket b = All IsOwn b.readings

    pub delete_ids-Keeps :
        (l : List ℕ) → All (λ (n : ℕ). is_in ids n ≡ true) l → Keeps (delete_ids l)
    unfolding delete_ids
    delete_ids-Keeps l h d =
        ap (λ x. (rest d, x, select_where (of_other sid) d.device_readings))
          (select_where-delete_where_ne (λ (r : ProbeReading T). is_in l r.id)
            (is_outside ids new_id) d.probe_readings
            (λ r e. ground (arith, is_in_trans ids l r.id h e)))

    pub insert_average-Keeps : (r : ProbeReading T) → new_id ≤ r.id → Keeps (insert_average r)
    unfolding insert_average
    insert_average-Keeps r h d =
        elim (Bool-cases (
          any_where (session_is r.session_id) d.sessions
          && not (
              any_where (probe_key r.session_id r.address r.seq r.probe_index) d.probe_readings))) [
                | inr e ↦ rw e tt
                | inl e ↦ rw e (
                    ap (λ x. (rest d, x, select_where (of_other sid) d.device_readings))
                      (select_where-append_skip (is_outside ids new_id) d.probe_readings r
                        (ground arith)))
              ]

    pub write_snapshot-Keeps :
        (A : Averages T) (c : Collapsed) (rs : List (DeviceReading T))
        → str_eq c.session_id sid ≡ true
        → Keeps (write_snapshot A c rs)
    unfolding write_snapshot snapshot
    write_snapshot-Keeps A c [] h d = refl
    write_snapshot-Keeps A c (r ∷ rs) h d =
        let kept = delete_where (collapsed_row c) d.device_readings in
        elim (Bool-cases (
          any_where (session_is c.session_id) d.sessions
          && not (any_where (device_key c.session_id c.address c.min_seq) kept))) [
            | inr e ↦ rw e tt
            | inl e ↦ rw e (
                ap (λ x. (rest d, select_where (is_outside ids new_id) d.probe_readings, x))
                  (select_where-append_skip (of_other sid) kept (snapshot A c r rs)
                      (ground (arith, h))
                    ∙ select_where-delete_where_ne (collapsed_row c) (of_other sid)
                        d.device_readings
                        (λ x e. ground (arith, h, e, eq_iff x.session_id c.session_id))))
          ]

    pub rewrite_devices-Keeps :
        (A : Averages T) (c : Collapsed)
        → str_eq c.session_id sid ≡ true
        → Keeps (rewrite_devices A c)
    unfolding rewrite_devices
    rewrite_devices-Keeps A c h d =
        write_snapshot-Keeps A c
          (ordered (λ (x y : DeviceReading T). ltb x.seq y.seq)
            (select_where (collapsed_row c) d.device_readings))
          h d
