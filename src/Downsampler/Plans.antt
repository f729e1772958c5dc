-- ===== src/Downsampler/Plans.antt =====
-- The buckets and the statements of downsample_range hold rows of the window_rows only
-- (service/history/downsampler.py).
use igrill_remote_server.Prelude.{
  ℕ, suc, ◌*◌, ◌/◌, ◌≤◌, String, ◌≡◌, Option-cases, refl, inl, inr, true, List, [], ◌∷◌, ◌++◌, map,
  arith, All, All-map, All-append, All-update_where, str_eq, ==_iff, Bool-cases, any_where,
}
use igrill_remote_server.Action.{ok, ◌then_try◌}
use igrill_remote_server.Clock.{Iso}
use igrill_remote_server.Store.{ProbeReading}
use igrill_remote_server.Downsampler.{
  TimeZone, Averages, least, unless_empty, given_values, is_in, Bucket, Collapsed, note_seqs,
  same_bucket, put_bucket, group_rows, parse_all, mid_ts_iso, timestamp,
}
use igrill_remote_server.Downsampler.Pass.{
  delete_ids, insert_average, Plan, average, plan_bucket, plan, seqs_of,
}
use igrill_remote_server.Downsampler.Keeps.{
  IsOwn, IsOwnBucket, Keeps, OnOk, OnOk-map, OnOk-then_try, delete_ids-Keeps, insert_average-Keeps,
  note_seqs-sid,
}

module _ {T : Type 0} where
  module _ (sid : String) (ids : List ℕ) (new_id : ℕ) where
    pub put_bucket-IsOwn :
        (key : ℕ) (r : ProbeReading T) (l : List (Bucket T))
        → (IsOwn sid ids new_id) r
        → All (IsOwnBucket sid ids new_id) l
        → All (IsOwnBucket sid ids new_id) (put_bucket key r l)
    unfolding put_bucket
    put_bucket-IsOwn key r l h hs = elim (Bool-cases (any_where (same_bucket key r) l)) [
      | inl e ↦ rw e (
          All-update_where (IsOwnBucket sid ids new_id) (same_bucket key r)
            (λ b. record b { readings = b.readings ++ r ∷ [] }) l
            (λ b e v. All-append (IsOwn sid ids new_id) b.readings (r ∷ []) v (h, tt)) hs)
      | inr e ↦ rw e (
          All-append (IsOwnBucket sid ids new_id) l
            (record {
              address = r.address;
              probe_index = r.probe_index;
              bucket_key = key;
              readings = r ∷ [];
            }
              ∷ [])
            hs ((h, tt), tt))
    ]

    pub group_rows-IsOwn :
        (I : Iso) (Z : TimeZone) (secs : ℕ) (rs : List (ProbeReading T)) (l : List (Bucket T))
        → All (IsOwn sid ids new_id) rs
        → All (IsOwnBucket sid ids new_id) l
        → OnOk (All (IsOwnBucket sid ids new_id)) (group_rows I Z secs rs l)
    unfolding group_rows
    group_rows-IsOwn I Z secs [] l h hs = hs
    group_rows-IsOwn I Z secs (r ∷ rs) l h hs =
        elim (Option-cases (I.fromisoformat r.recorded_at)) [
          | inl e ↦ simp (e, group_rows) tt
          | inr (dt, e) ↦
              simp (e, group_rows)
                (group_rows-IsOwn I Z secs rs (put_bucket (timestamp Z dt / (secs * 1000000)) r l)
                  h.1 (put_bucket-IsOwn (timestamp Z dt / (secs * 1000000)) r l h.0 hs))
        ]

    pub All-ids :
        (rs : List (ProbeReading T))
        → All (IsOwn sid ids new_id) rs
        → All (λ (n : ℕ). is_in ids n ≡ true) (map (λ (x : ProbeReading T). x.id) rs)
    All-ids [] h = tt
    All-ids (r ∷ rs) h = (h.0.1, All-ids rs h.1)

    pub average-ok :
        (A : Averages T) (I : Iso) (Z : TimeZone) (id : ℕ) (b : Bucket T) (r : ProbeReading T)
        (rs : List (ProbeReading T))
        → OnOk (λ (row : ProbeReading T). row.id ≡ id) (average A I Z id b r rs)
    unfolding average
    average-ok A I Z id b r rs =
        OnOk-map (λ (row : ProbeReading T). row.id ≡ id)
          (parse_all I (r ∷ rs) then_try mid_ts_iso I Z)
          (λ mid. record {
            id = id;
            session_id = r.session_id;
            address = b.address;
            recorded_at = mid;
            seq = least r.seq (seqs_of A rs);
            probe_index = b.probe_index;
            temperature =
                unless_empty A.mean
                  (given_values (map (λ (x : ProbeReading T). x.temperature) (r ∷ rs)));
          })
          (λ mid. refl)

    abbrev pub IsFraming : {A : Averages T} → Plan A → Type 0
    IsFraming p =
        All (Keeps sid ids new_id) p.statements
        × All (λ (c : Collapsed). str_eq c.session_id sid ≡ true) p.bucket_seqs

    pub plan_bucket-IsFraming :
        (A : Averages T) (I : Iso) (Z : TimeZone) (id : ℕ) (b : Bucket T)
        (rs : List (ProbeReading T)) (p : Plan A)
        → new_id ≤ id
        → All (IsOwn sid ids new_id) rs
        → IsFraming p
        → OnOk (λ (q : ℕ × Plan A). (new_id ≤ q.0) × IsFraming q.1) (plan_bucket A I Z id b rs p)
    unfolding plan_bucket
    plan_bucket-IsFraming A I Z id b [] p le h v = (le, v)
    plan_bucket-IsFraming A I Z id b (r ∷ []) p le h v = (le, v)
    plan_bucket-IsFraming A I Z id b (r ∷ r' ∷ rs) p le h v =
        OnOk-then_try (λ (row : ProbeReading T). row.id ≡ id)
          (λ (q : ℕ × Plan A). (new_id ≤ q.0) × IsFraming q.1) (average A I Z id b r (r' ∷ rs))
          (λ row. ok (
            suc id,
            record {
              statements =
                  p.statements
                  ++ delete_ids (map (λ (x : ProbeReading T). x.id) (r ∷ r' ∷ rs))
                    ∷ insert_average row
                    ∷ [];
              bucket_seqs =
                  note_seqs r.session_id b.address row.seq (seqs_of A (r ∷ r' ∷ rs)) p.bucket_seqs;
            },
          ))
          (λ row e. (
            omega arith,
            (
              All-append (Keeps sid ids new_id) p.statements
                  (delete_ids (map (λ (x : ProbeReading T). x.id) (r ∷ r' ∷ rs))
                    ∷ insert_average row
                    ∷ [])
                  v.0
                  (
                    delete_ids-Keeps sid ids new_id
                        (map (λ (x : ProbeReading T). x.id) (r ∷ r' ∷ rs))
                        (All-ids (r ∷ r' ∷ rs) h),
                    (insert_average-Keeps sid ids new_id row (omega arith), tt),
                  ),
              note_seqs-sid sid r.session_id b.address row.seq (seqs_of A (r ∷ r' ∷ rs))
                  p.bucket_seqs h.0.0 v.1,
            ),
          ))
          (average-ok A I Z id b r (r' ∷ rs))

    pub plan-IsFraming :
        (A : Averages T) (I : Iso) (Z : TimeZone) (id : ℕ) (bs : List (Bucket T)) (p : Plan A)
        → new_id ≤ id
        → All (IsOwnBucket sid ids new_id) bs
        → IsFraming p
        → OnOk IsFraming (plan A I Z id bs p)
    unfolding plan
    plan-IsFraming A I Z id [] p le hs v = v
    plan-IsFraming A I Z id (b ∷ bs) p le hs v =
        OnOk-then_try (λ (q : ℕ × Plan A). (new_id ≤ q.0) × IsFraming q.1) IsFraming
          (plan_bucket A I Z id b b.readings p) (λ q. plan A I Z q.0 bs q.1)
          (λ q w. plan-IsFraming A I Z q.0 bs q.1 w.0 hs.1 w.1)
          (plan_bucket-IsFraming A I Z id b b.readings p le hs.0 v)

module _ {T : Type 0} where
  pub All-own_ids :
      (rs : List (ProbeReading T))
      → All (λ (r : ProbeReading T). is_in (map (λ (x : ProbeReading T). x.id) rs) r.id ≡ true) rs
  All-own_ids [] = tt
  All-own_ids (r ∷ rs) = (
    ground (arith, ==_iff r.id r.id),
    All-map (λ (x : ProbeReading T). is_in (map (λ (y : ProbeReading T). y.id) rs) x.id ≡ true)
        (λ (x : ProbeReading T). is_in (map (λ (y : ProbeReading T). y.id) (r ∷ rs)) x.id ≡ true)
        (λ x e. ground (arith, e)) rs (All-own_ids rs),
  )
