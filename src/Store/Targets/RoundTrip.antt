-- ===== src/Store/Targets/RoundTrip.antt =====
-- `update_targets` and `get_targets_by_device` of service/history/store.py, one after the other.
use igrill_remote_server.Prelude.{
  ℤ, String, ◌≡◌, ◌≢◌, refl, ap, ◌∙◌, Bool, true, false, some, List, [], ◌∷◌, ◌++◌, map, arith,
  str_eq_refl, eq_ℤ_iff, select_where, any_where, delete_where, All, All-map,
  select_where-delete_where,
}
use mathlib.Core.List.{append-nil, append_assoc}
use igrill_remote_server.Action.{ok, err, ◌>>=◌, integrity_error}
use igrill_remote_server.Real.{Real}
use igrill_remote_server.Target.{TargetConfig}
use igrill_remote_server.Store.{Store, SessionTarget}
use igrill_remote_server.Store.Devices.{session_is}
use igrill_remote_server.Store.Targets.{
  is_bound, stored_given, target_of, target_key, target_row, with_targets, insert_target,
  insert_targets, update_targets, target_config, get_targets_by_device,
}

-- No two targets are of one probe.
abbrev pub DistinctProbes : {F : Type 0} → List (TargetConfig F) → Type 0
DistinctProbes [] = Unit
DistinctProbes {F} (t ∷ ts) =
    All (λ (u : TargetConfig F). u.probe_index ≢ t.probe_index) ts × DistinctProbes ts

module _ {F : Type 0} (R : Real F) (sid addr : String) where
  -- None of the targets has a row yet.
  abbrev Unused : List (TargetConfig F) → List (SessionTarget F) → Type 0
  Unused ts rows =
      All (λ (t : TargetConfig F). any_where (target_key sid addr t.probe_index) rows ≡ false) ts

  any_append :
      (p : SessionTarget F → Bool) (rows : List (SessionTarget F)) (r : SessionTarget F)
      → any_where p rows ≡ false
      → p r ≡ false
      → any_where p (rows ++ r ∷ []) ≡ false
  any_append p [] r h e = ground (arith, h, e)
  any_append p (x ∷ rows) r h e = ground (arith, any_append p rows r, h, e)

  Unused-append :
      (t : TargetConfig F) (ts : List (TargetConfig F)) (rows : List (SessionTarget F))
      → All (λ (u : TargetConfig F). u.probe_index ≢ t.probe_index) ts
      → Unused ts rows
      → Unused ts (rows ++ target_row R sid addr t ∷ [])
  Unused-append t [] rows d h = tt
  Unused-append t (u ∷ ts) rows d h = (
    any_append (target_key sid addr u.probe_index) rows (target_row R sid addr t) h.0
        (ground (arith, d.0, eq_ℤ_iff t.probe_index u.probe_index)),
    Unused-append t ts rows d.1 h.1,
  )

  insert_target-run :
      (t : TargetConfig F) (s : Store F)
      → any_where (session_is sid) s.sessions ≡ true
      → any_where (target_key sid addr t.probe_index) s.session_targets ≡ false
      → is_bound t ≡ true
      → insert_target R sid addr t s
        ≡ (ok tt, with_targets s (s.session_targets ++ target_row R sid addr t ∷ []))
  unfolding insert_target
  insert_target-run t s known h b = rw (b, known, h) refl

  insert_targets-run :
      (ts : List (TargetConfig F)) (s : Store F)
      → any_where (session_is sid) s.sessions ≡ true
      → DistinctProbes ts
      → Unused ts s.session_targets
      → All (λ (t : TargetConfig F). is_bound t ≡ true) ts
      → insert_targets R sid addr ts s
        ≡ (ok tt, with_targets s (s.session_targets ++ map (target_row R sid addr) ts))
  unfolding insert_targets
  insert_targets-run [] s known d h b = rw (append-nil s.session_targets) refl
  insert_targets-run (t ∷ ts) s known d h b =
      simp (insert_target-run t s known h.0 b.0, insert_targets, ◌>>=◌)
        (insert_targets-run ts (with_targets s (s.session_targets ++ target_row R sid addr t ∷ []))
            known d.1 (Unused-append t ts s.session_targets d.0 h.1) b.1
          ∙ ap (λ rows. (ok tt, with_targets s rows))
              (append_assoc s.session_targets (target_row R sid addr t ∷ [])
                (map (target_row R sid addr) ts)))

  Unused-deleted :
      (ts : List (TargetConfig F)) (rows : List (SessionTarget F))
      → Unused ts (delete_where (target_of sid addr) rows)
  Unused-deleted [] rows = tt
  Unused-deleted (t ∷ ts) rows = (none_left t.probe_index rows, Unused-deleted ts rows)
    where
      none_left :
          (idx : ℤ) (rows : List (SessionTarget F))
          → any_where (target_key sid addr idx) (delete_where (target_of sid addr) rows) ≡ false
      none_left idx [] = refl
      none_left idx (r ∷ rows) = ground (arith, none_left idx rows)

  update_targets-run :
      (ts : List (TargetConfig F)) (s : Store F)
      → any_where (session_is sid) s.sessions ≡ true
      → DistinctProbes ts
      → All (λ (t : TargetConfig F). is_bound t ≡ true) ts
      → update_targets R sid addr ts s ≡ (
        ok tt,
        with_targets s
            (delete_where (target_of sid addr) s.session_targets ++ map (target_row R sid addr) ts),
      )
  unfolding update_targets
  update_targets-run ts s known d b =
      insert_targets-run ts (with_targets s (delete_where (target_of sid addr) s.session_targets))
        known d (Unused-deleted ts s.session_targets) b

  select-rows :
      (ts : List (TargetConfig F))
      → select_where (target_of sid addr) (map (target_row R sid addr) ts)
        ≡ map (target_row R sid addr) ts
  select-rows [] = refl
  select-rows (t ∷ ts) = ground (arith, str_eq_refl sid, str_eq_refl addr, select-rows ts)

  -- SQLite keeps the values of the target: its integers can be bound and its numbers are no NaN.
  abbrev pub IsStorable : TargetConfig F → Type 0
  IsStorable t =
      (is_bound t ≡ true)
      × (stored_given R t.target_value ≡ t.target_value)
      × (stored_given R t.range_low ≡ t.range_low)
      × (stored_given R t.range_high ≡ t.range_high)
      × (R.stored t.pre_alert_offset ≡ some t.pre_alert_offset)

  config-row : (t : TargetConfig F) → IsStorable t → target_config R (target_row R sid addr t) ≡ t
  config-row t h = rw (h.1, h.2, h.3, h.4) refl

  configs :
      (ts : List (TargetConfig F))
      → All IsStorable ts
      → map (target_config R) (map (target_row R sid addr) ts) ≡ ts
  configs [] h = refl
  configs (t ∷ ts) h =
      ap (λ (u : TargetConfig F). u ∷ map (target_config R) (map (target_row R sid addr) ts))
        (config-row t h.0)
      ∙ ap (λ (us : List (TargetConfig F)). t ∷ us) (configs ts h.1)

  select_append :
      (p : SessionTarget F → Bool) (a b : List (SessionTarget F))
      → select_where p (a ++ b) ≡ select_where p a ++ select_where p b
  select_append p [] b = refl
  select_append p (r ∷ a) b = ground (arith, select_append p a b)

  -- An update for a session that exists, with one target for a probe, whose integers fit 64 bits and
  -- whose numbers the database keeps, succeeds, and the targets that it wrote are those read back
  -- for the device, in their order.
  pub get_targets_by_device-update_targets :
      (ts : List (TargetConfig F)) (s : Store F)
      → any_where (session_is sid) s.sessions ≡ true
      → DistinctProbes ts
      → All IsStorable ts
      → ((update_targets R sid addr ts s).0 ≡ ok tt)
        × (get_targets_by_device R sid (update_targets R sid addr ts s).1 addr ≡ ts)
  unfolding get_targets_by_device
  get_targets_by_device-update_targets ts s known d h =
      rw
        (update_targets-run ts s known d
          (All-map IsStorable (λ (t : TargetConfig F). is_bound t ≡ true) (λ t x. x.0) ts h))
        (
          refl,
          ap (map (target_config R)) (
                select_append (target_of sid addr)
                  (delete_where (target_of sid addr) s.session_targets)
                  (map (target_row R sid addr) ts)
                ∙ rw (select_where-delete_where (target_of sid addr) s.session_targets)
                    (select-rows ts))
              ∙ configs ts h,
        )

  any_last :
      (p : SessionTarget F → Bool) (rows : List (SessionTarget F)) (r : SessionTarget F)
      → p r ≡ true
      → any_where p (rows ++ r ∷ []) ≡ true
  any_last p [] r h = ground (arith, h)
  any_last p (x ∷ rows) r h = ground (arith, any_last p rows r h)

  -- Two targets of one probe, whose integers fit 64 bits: the second INSERT raises, the old targets of the device are gone and
  -- the first one is written all the same.
  pub update_targets-repeated :
      (t u : TargetConfig F) (s : Store F)
      → any_where (session_is sid) s.sessions ≡ true
      → u.probe_index ≡ t.probe_index
      → is_bound t ≡ true
      → is_bound u ≡ true
      → update_targets R sid addr (t ∷ u ∷ []) s ≡ (
        err integrity_error,
        with_targets s
            (delete_where (target_of sid addr) s.session_targets ++ target_row R sid addr t ∷ []),
      )
  unfolding update_targets insert_targets
  update_targets-repeated t u s known e bt bu =
      simp
        (
          insert_target-run t (with_targets s (delete_where (target_of sid addr) s.session_targets))
              known (Unused-deleted (t ∷ []) s.session_targets).0 bt,
          second,
          ◌>>=◌,
        )
        refl
    where
      taken :
          any_where
            (target_key sid addr u.probe_index)
            (delete_where (target_of sid addr) s.session_targets ++ target_row R sid addr t ∷ [])
          ≡ true
      taken = ground (
        arith,
        any_last (target_key sid addr u.probe_index)
            (delete_where (target_of sid addr) s.session_targets) (target_row R sid addr t),
        str_eq_refl sid,
        str_eq_refl addr,
        eq_ℤ_iff t.probe_index u.probe_index,
        e,
      )

      second :
          insert_target R sid addr u (
            with_targets s
              (delete_where (target_of sid addr) s.session_targets ++ target_row R sid addr t ∷ []))
          ≡ (
            err integrity_error,
            with_targets s (
                delete_where (target_of sid addr) s.session_targets
                ++ target_row R sid addr t ∷ []),
          )
      second = unfold insert_target in simp (bu, known, taken) refl
