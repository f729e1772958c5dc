-- ===== src/Downsampler/Pass.antt =====
-- The writes of downsample_range (service/history/downsampler.py), the two passes of
-- downsample_session, and end_session of service/history/store.py. `fault` is the number of
-- statements that succeed before the database raises, and `new_id` the next id of AUTOINCREMENT.
use igrill_remote_server.Prelude.{
  ordered, ℕ, zero, suc, ◌-◌, ◌*◌, String, Bool, not, ◌&&◌, Option, none, some, List, [], ◌∷◌, ◌++◌,
  map, str_eq, ltb, ◌==◌, if◌then◌else◌, select_where, any_where, first_where, delete_where,
  default,
}
use igrill_remote_server.Action.{Action, Result, ok, err, ◌>>◌, ◌then_try◌, database_error}
use igrill_remote_server.Clock.{Iso}
use igrill_remote_server.Store.{Store, Db, ProbeReading, DeviceReading}
use igrill_remote_server.Store.Devices.{session_is}
use igrill_remote_server.Store.Readings.{probe_key, device_key}
use igrill_remote_server.Store.Sessions.{EndEvent, end_session_locked}
use igrill_remote_server.Downsampler.{
  TimeZone, Averages, mid_ts_iso, given_values, unless_empty, least, is_in, row_before, in_window,
  Bucket, Collapsed, note_seqs, group_rows, parse_all,
}

-- Statements in one transaction, each of which may raise; `none` after the ROLLBACK.
unfoldable pub attempt : {D : Type 0} → Option ℕ → List (D → Option D) → D → Option D
attempt none [] d = some d
attempt none (st ∷ sts) d = elim (st d) [ none ↦ none | some d' ↦ attempt none sts d' ]
attempt (some n) [] d = if n == 0 then none else some d
attempt (some zero) (st ∷ sts) d = none
attempt (some (suc n)) (st ∷ sts) d = elim (st d) [
  | none ↦ none
  | some d' ↦ attempt (some n) sts d'
]

abbrev pub last_or {ℓ} : {A : Type ℓ} → A → List A → A
last_or a [] = a
last_or a (x ∷ xs) = last_or x xs

module _ {T : Type 0} where
  -- DELETE FROM probe_readings WHERE id IN (...)
  unfoldable pub delete_ids : List ℕ → Db T → Option (Db T)
  delete_ids ids d = some (record d {
    probe_readings = delete_where (λ (r : ProbeReading T). is_in ids r.id) d.probe_readings;
  })

  -- INSERT INTO probe_readings
  unfoldable pub insert_average : ProbeReading T → Db T → Option (Db T)
  insert_average r d =
      if any_where (session_is r.session_id) d.sessions
        && not (any_where (probe_key r.session_id r.address r.seq r.probe_index) d.probe_readings)
      then some (record d { probe_readings = d.probe_readings ++ r ∷ [] })
      else none

  -- The rows of `device_readings` that one bucket stands for.
  abbrev pub collapsed_row : Collapsed → DeviceReading T → Bool
  collapsed_row c r =
      str_eq r.session_id c.session_id && str_eq r.address c.address && is_in c.seqs r.seq

module _ {T : Type 0} (A : Averages T) where
  -- The averaged row; `r` is the first of the rows, which are in the order of `seq`.
  unfoldable pub snapshot : Collapsed → DeviceReading T → List (DeviceReading T) → DeviceReading T
  snapshot c r rs = record {
    session_id = c.session_id;
    address = c.address;
    recorded_at =
        (default r
          (first_where (λ (x : DeviceReading T). x.seq == c.min_seq) (r ∷ rs))).recorded_at;
    seq = c.min_seq;
    battery =
        unless_empty A.rounded_mean
          (given_values (map (λ (x : DeviceReading T). x.battery) (r ∷ rs)));
    propane =
        unless_empty A.mean (given_values (map (λ (x : DeviceReading T). x.propane) (r ∷ rs)));
    heating_json = (last_or r rs).heating_json;
  }

  -- The DELETE and the INSERT for the rows of one entry of `bucket_seqs`.
  unfoldable pub write_snapshot : Collapsed → List (DeviceReading T) → Db T → Option (Db T)
  unfolding snapshot
  write_snapshot c [] d = some d
  write_snapshot c (r ∷ rs) d =
      let kept = delete_where (collapsed_row c) d.device_readings in
      if any_where (session_is c.session_id) d.sessions
        && not (any_where (device_key c.session_id c.address c.min_seq) kept)
      then some (record d { device_readings = kept ++ snapshot c r rs ∷ [] })
      else none

  -- ORDER BY seq ASC
  unfoldable pub rewrite_devices : Collapsed → Db T → Option (Db T)
  unfolding write_snapshot
  rewrite_devices c d =
      write_snapshot c
        (ordered (λ (x y : DeviceReading T). ltb x.seq y.seq)
          (select_where (collapsed_row c) d.device_readings))
        d

  -- The statements for the buckets, and what `bucket_seqs` holds after them.
  pub record Plan : Type 0 where
    pub statements : List (Db T → Option (Db T))
    pub bucket_seqs : List Collapsed

  abbrev pub seqs_of : List (ProbeReading T) → List ℕ
  seqs_of rs = map (λ (r : ProbeReading T). r.seq) rs

  unfoldable pub average :
      Iso
      → TimeZone
      → ℕ
      → Bucket T
      → ProbeReading T
      → List (ProbeReading T)
      → Result (ProbeReading T)
  average I Z new_id b r rs = parse_all I (r ∷ rs) then_try mid_ts_iso I Z then_try λ mid.
      ok (record {
        id = new_id;
        session_id = r.session_id;
        address = b.address;
        recorded_at = mid;
        seq = least r.seq (seqs_of rs);
        probe_index = b.probe_index;
        temperature =
            unless_empty A.mean
              (given_values (map (λ (x : ProbeReading T). x.temperature) (r ∷ rs)));
      })

  -- The body of the loop over `buckets`, for the rows of one; a single row is left as it is.
  unfoldable pub plan_bucket :
      Iso → TimeZone → ℕ → Bucket T → List (ProbeReading T) → Plan → Result (ℕ × Plan)
  plan_bucket I Z new_id b [] p = ok (new_id, p)
  plan_bucket I Z new_id b (r ∷ []) p = ok (new_id, p)
  plan_bucket I Z new_id b (r ∷ r' ∷ rs) p = average I Z new_id b r (r' ∷ rs) then_try λ row. ok (
    suc new_id,
    record {
      statements =
          p.statements
          ++ delete_ids (map (λ (x : ProbeReading T). x.id) (r ∷ r' ∷ rs))
            ∷ insert_average row
            ∷ [];
      bucket_seqs = note_seqs r.session_id b.address row.seq (seqs_of (r ∷ r' ∷ rs)) p.bucket_seqs;
    },
  )

  unfoldable pub plan : Iso → TimeZone → ℕ → List (Bucket T) → Plan → Result Plan
  plan I Z new_id [] p = ok p
  plan I Z new_id (b ∷ bs) p =
      plan_bucket I Z new_id b b.readings p then_try λ (new_id', p'). plan I Z new_id' bs p'

  unfoldable pub window_rows : String → String → Option String → Store T → List (ProbeReading T)
  window_rows sid older_than newer_than s =
      ordered row_before (select_where (in_window sid older_than newer_than) s.probe_readings)

  -- The COMMIT, or the ROLLBACK where a statement raises.
  unfoldable pub commit : Option (Db T) → Action (Store T) (Unit {0})
  commit none s = (err database_error, s)
  commit (some d) s = (ok tt, record s { db = d })

  -- The statements are listed before the first one runs: what the code computes between them reads
  -- only rows selected before BEGIN or by the statement itself, and where it raises the ROLLBACK
  -- undoes the statements that have run.
  unfoldable pub execute : Option ℕ → Result Plan → Action (Store T) (Unit {0})
  unfolding commit
  execute fault (err e) s = (err e, s)
  execute fault (ok p) s =
      commit (attempt fault (p.statements ++ map rewrite_devices p.bucket_seqs) s.db) s

  unfoldable pub collapse :
      Iso → TimeZone → Option ℕ → ℕ → ℕ → List (ProbeReading T) → Action (Store T) (Unit {0})
  unfolding execute
  collapse I Z fault new_id bucket_seconds [] s = (ok tt, s)
  collapse I Z fault new_id bucket_seconds (r ∷ rs) s =
      execute fault
        (group_rows I Z bucket_seconds (r ∷ rs) [] then_try λ buckets.
          plan I Z new_id buckets (record { statements = []; bucket_seqs = [] }))
        s

  unfoldable pub downsample_range :
      Iso
      → TimeZone
      → Option ℕ
      → ℕ
      → String
      → String
      → Option String
      → ℕ
      → Action (Store T) (Unit {0})
  unfolding collapse
  downsample_range I Z fault new_id sid older_than newer_than bucket_seconds s =
      collapse I Z fault new_id bucket_seconds (window_rows sid older_than newer_than s) s

  unfoldable pub downsample_session :
      Iso → TimeZone → ℕ → Option ℕ × Option ℕ → ℕ × ℕ → String → Action (Store T) (Unit {0})
  unfolding downsample_range
  downsample_session I Z now (fault, fault') (new_id, new_id') sid =
      let cutoff_24h = I.isoformat (now - 24 * 3600 * 1000000) in
      let cutoff_7d = I.isoformat (now - 7 * 24 * 3600 * 1000000) in
      downsample_range I Z fault new_id sid cutoff_7d none 300
      >> downsample_range I Z fault' new_id' sid cutoff_24h (some cutoff_7d) 60

  -- What the downsampling raises is logged; the caller does not see it.
  unfoldable pub downsample_ended :
      Iso
      → TimeZone
      → ℕ
      → Option ℕ × Option ℕ
      → ℕ × ℕ
      → Option EndEvent
      → Store T
      → Option EndEvent × Store T
  unfolding downsample_session
  downsample_ended I Z later faults ids none s = (none, s)
  downsample_ended I Z later faults ids (some event) s =
      (some event, (downsample_session I Z later faults ids event.session_id s).1)

  unfoldable pub end_session :
      Iso
      → TimeZone
      → ℕ
      → ℕ
      → Option ℕ × Option ℕ
      → ℕ × ℕ
      → String
      → Store T
      → Option EndEvent × Store T
  unfolding downsample_ended end_session_locked
  end_session I Z now later faults ids reason s =
      let (result, ended) = end_session_locked I now reason s in
      downsample_ended I Z later faults ids result ended
