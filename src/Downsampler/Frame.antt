-- ===== src/Downsampler/Frame.antt =====
-- What downsample_range leaves alone, and what end_session gives (service/history/downsampler.py,
-- service/history/store.py).
use igrill_remote_server.Prelude.{
  ℕ, ◌-◌, ◌*◌, String, ◌≡◌, refl, ap, ◌∙◌, true, Option, none, some, List, [], ◌∷◌, ◌++◌, map,
  arith, All, All-append, All-zip, str_eq, select_where,
}
use igrill_remote_server.Action.{Result, ok, err, ◌then_try◌}
use igrill_remote_server.Action.Frame.{bind-frame}
use igrill_remote_server.Clock.{Iso}
use igrill_remote_server.Store.{Store, Db, ProbeReading}
use igrill_remote_server.Store.Sessions.{EndEvent, end_session_locked}
use igrill_remote_server.Downsampler.{
  TimeZone, Averages, is_in, row_before, in_window, Collapsed, group_rows,
}
use igrill_remote_server.Downsampler.Pass.{
  attempt, rewrite_devices, Plan, plan, window_rows, commit, execute, collapse, downsample_range,
  downsample_session, downsample_ended, end_session,
}
use igrill_remote_server.Downsampler.Keeps.{
  forget_readings, All-ordered, All-select_where_implies, IsOwn, IsOwnBucket, Keeps, OnOk,
  OnOk-then_try, OnSome, attempt-kept, outside_view, rewrite_devices-Keeps, view,
}
use igrill_remote_server.Downsampler.Plans.{
  All-own_ids, IsFraming, group_rows-IsOwn, plan-IsFraming,
}

module _ {T : Type 0} (A : Averages T) (I : Iso) (Z : TimeZone) where
  module _ (new_id : ℕ) (sid : String) (ids : List ℕ) where
    commit-kept :
        (o : Option (Db T)) (s : Store T)
        → OnSome (λ d. view sid ids new_id d ≡ view sid ids new_id s.db) o
        → outside_view sid ids new_id (commit A o s).1 ≡ outside_view sid ids new_id s
    unfolding commit
    commit-kept none s h = refl
    commit-kept (some d) s h = ap (λ v. (record s { db = v.0 }, v.1, v.2)) h

    All-Keeps :
        (l : List Collapsed)
        → All (λ (c : Collapsed). str_eq c.session_id sid ≡ true) l
        → All (Keeps sid ids new_id) (map (rewrite_devices A) l)
    All-Keeps [] h = tt
    All-Keeps (c ∷ l) h = (rewrite_devices-Keeps sid ids new_id A c h.0, All-Keeps l h.1)

    execute-kept :
        (fault : Option ℕ) (r : Result (Plan A)) (s : Store T)
        → OnOk (IsFraming sid ids new_id) r
        → outside_view sid ids new_id (execute A fault r s).1 ≡ outside_view sid ids new_id s
    unfolding execute
    execute-kept fault (err e) s h = refl
    execute-kept fault (ok p) s h =
        commit-kept (attempt fault (p.statements ++ map (rewrite_devices A) p.bucket_seqs) s.db) s (
          attempt-kept (view sid ids new_id) fault
            (p.statements ++ map (rewrite_devices A) p.bucket_seqs)
            (All-append (Keeps sid ids new_id) p.statements (map (rewrite_devices A) p.bucket_seqs)
              h.0 (All-Keeps p.bucket_seqs h.1))
            s.db)

    collapse-kept :
        (fault : Option ℕ) (secs : ℕ) (rows : List (ProbeReading T)) (s : Store T)
        → All (IsOwn sid ids new_id) rows
        → outside_view sid ids new_id (collapse A I Z fault new_id secs rows s).1
          ≡ outside_view sid ids new_id s
    unfolding collapse
    collapse-kept fault secs [] s h = refl
    collapse-kept fault secs (r ∷ rs) s h =
        let start : Plan A = record { statements = []; bucket_seqs = [] } in
        execute-kept fault
          (group_rows I Z secs (r ∷ rs) [] then_try λ buckets. plan A I Z new_id buckets start) s
          (OnOk-then_try (All (IsOwnBucket sid ids new_id)) (IsFraming sid ids new_id)
            (group_rows I Z secs (r ∷ rs) []) (λ buckets. plan A I Z new_id buckets start)
            (λ buckets v.
              plan-IsFraming sid ids new_id A I Z new_id buckets start (omega arith) v (tt, tt))
            (group_rows-IsOwn sid ids new_id I Z secs (r ∷ rs) [] h tt))

  module _ (fault : Option ℕ) (new_id : ℕ) (sid older_than : String) (newer_than : Option String)
      (secs : ℕ) (s : Store T) where
    abbrev pub window_ids : List ℕ
    window_ids = map (λ (r : ProbeReading T). r.id) (window_rows A sid older_than newer_than s)

    window_rows-sid :
        All
          (λ (r : ProbeReading T). str_eq r.session_id sid ≡ true)
          (window_rows A sid older_than newer_than s)
    unfolding window_rows in_window
    window_rows-sid =
        All-ordered (λ (r : ProbeReading T). str_eq r.session_id sid ≡ true) row_before
          (select_where (in_window sid older_than newer_than) s.probe_readings)
          (All-select_where_implies (λ (r : ProbeReading T). str_eq r.session_id sid ≡ true)
            (in_window sid older_than newer_than) s.probe_readings (λ r e. ground (arith, e)))

    -- A pass changes no other table and no field of the store. It leaves every reading that is none of the window_rows's and is
    -- older than the rows it inserts, in their order, and the device readings of all other sessions.
    pub downsample_range-outside_view :
        outside_view sid window_ids new_id
          (downsample_range A I Z fault new_id sid older_than newer_than secs s).1
        ≡ outside_view sid window_ids new_id s
    unfolding downsample_range
    downsample_range-outside_view =
        collapse-kept new_id sid window_ids fault secs (window_rows A sid older_than newer_than s) s
          (All-zip (λ (r : ProbeReading T). str_eq r.session_id sid ≡ true)
            (λ (r : ProbeReading T). is_in window_ids r.id ≡ true) (IsOwn sid window_ids new_id)
            (λ r a b. (a, b)) (window_rows A sid older_than newer_than s) window_rows-sid
            (All-own_ids (window_rows A sid older_than newer_than s)))

  downsample_range-forget :
      (fault : Option ℕ) (new_id : ℕ) (sid older_than : String) (newer_than : Option String)
      (secs : ℕ) (s : Store T)
      → forget_readings (downsample_range A I Z fault new_id sid older_than newer_than secs s).1
        ≡ forget_readings s
  downsample_range-forget fault new_id sid older_than newer_than secs s =
      ap (λ v. v.0) (downsample_range-outside_view fault new_id sid older_than newer_than secs s)

  downsample_ended-forget :
      (later : ℕ) (faults : Option ℕ × Option ℕ) (ids : ℕ × ℕ) (event : Option EndEvent)
      (s : Store T)
      → ((downsample_ended A I Z later faults ids event s).0 ≡ event)
        × (forget_readings (downsample_ended A I Z later faults ids event s).1 ≡ forget_readings s)
  unfolding downsample_ended downsample_session
  downsample_ended-forget later faults ids none s = (refl, refl)
  downsample_ended-forget later faults ids (some event) s =
      let first =
        downsample_range A I Z faults.0 ids.0 event.session_id
          (I.isoformat (later - 7 * 24 * 3600 * 1000000)) none 300 s in
      (
        refl,
        bind-frame forget_readings first.0 first.1
              (λ _.
                downsample_range A I Z faults.1 ids.1 event.session_id
                  (I.isoformat (later - 24 * 3600 * 1000000))
                  (some (I.isoformat (later - 7 * 24 * 3600 * 1000000))) 60)
              (λ _.
                downsample_range-forget faults.1 ids.1 event.session_id
                  (I.isoformat (later - 24 * 3600 * 1000000))
                  (some (I.isoformat (later - 7 * 24 * 3600 * 1000000))) 60)
            ∙ downsample_range-forget faults.0 ids.0 event.session_id
                (I.isoformat (later - 7 * 24 * 3600 * 1000000)) none 300 s,
      )

  -- Whatever the downsampling does, and however it fails, `end_session` returns what
  -- `_end_session_locked` returns, and the store differs from what that leaves in readings only.
  pub end_session-locked :
      (now later : ℕ) (faults : Option ℕ × Option ℕ) (ids : ℕ × ℕ) (reason : String) (s : Store T)
      → ((end_session A I Z now later faults ids reason s).0
          ≡ (end_session_locked I now reason s).0)
        × (forget_readings (end_session A I Z now later faults ids reason s).1
            ≡ forget_readings (end_session_locked I now reason s).1)
  unfolding end_session
  end_session-locked now later faults ids reason s =
      let (event, ended) = end_session_locked I now reason s in
      downsample_ended-forget later faults ids event ended
