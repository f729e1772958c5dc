-- ===== src/Store/Readings/Stored.antt =====
-- The tables of readings before and after `record_reading` (service/history/store.py).
use igrill_remote_server.Prelude.{
  ℕ, suc, ◌<◌, ℤ, String, ◌≡◌, ◌≢◌, refl, sym, ap, ◌∙◌, inl, inr, Bool, true, false, Option, none,
  List, [], ◌∷◌, ◌++◌, arith, str_eq_refl, eq_ℤ_iff, select_where, any_where, All, Bool-cases,
}
use mathlib.Core.List.{append-nil, append_assoc}
use igrill_remote_server.Action.{ok}
use igrill_remote_server.Clock.{Iso, now_iso_utc}
use igrill_remote_server.Store.{Store, ProbeReading, DeviceReading}
use igrill_remote_server.Store.Devices.{session_is}
use igrill_remote_server.Alerts.{Probe}
use igrill_remote_server.Store.Readings.{
  device_key, reading_of, probe_key, with_probes, probe_row, insert_device_reading, insert_probes,
  record_reading, max_seq, get_max_seq,
}

module _ {T : Type 0} where
  -- The probes of a reading have different indices.
  abbrev pub DistinctIndices : List (Probe T) → Type 0
  DistinctIndices [] = Unit
  DistinctIndices (p ∷ ps) = All (λ (q : Probe T). q.index ≢ p.index) ps × DistinctIndices ps

  -- The rows of the probes, with ids counted up.
  abbrev pub probe_rows : ℕ → String → String → String → ℕ → List (Probe T) → List (ProbeReading T)
  probe_rows id sid addr ts seq [] = []
  probe_rows id sid addr ts seq (p ∷ ps) =
      probe_row id sid addr ts seq p ∷ probe_rows (suc id) sid addr ts seq ps

  module _ (sid addr ts : String) (seq : ℕ) where
    unused :
        (idx : ℤ) (rows : List (ProbeReading T))
        → max_seq (select_where (reading_of sid addr) rows) < seq
        → any_where (probe_key sid addr seq idx) rows ≡ false
    unused idx [] h = refl
    unused idx (r ∷ rows) h = ground (arith, unused idx rows)

    abbrev Unused : List (Probe T) → List (ProbeReading T) → Type 0
    Unused ps rows =
        All (λ (p : Probe T). any_where (probe_key sid addr seq p.index) rows ≡ false) ps

    All-Unused :
        (ps : List (Probe T)) (rows : List (ProbeReading T))
        → max_seq (select_where (reading_of sid addr) rows) < seq
        → Unused ps rows
    All-Unused [] rows h = tt
    All-Unused (p ∷ ps) rows h = (unused p.index rows h, All-Unused ps rows h)

    any_append :
        (k : ProbeReading T → Bool) (rows : List (ProbeReading T)) (r : ProbeReading T)
        → any_where k rows ≡ false
        → k r ≡ false
        → any_where k (rows ++ r ∷ []) ≡ false
    any_append k [] r h e = ground (arith, h, e)
    any_append k (x ∷ rows) r h e = ground (arith, any_append k rows r, h, e)

    Unused-append :
        (id : ℕ) (p : Probe T) (ps : List (Probe T)) (rows : List (ProbeReading T))
        → All (λ (q : Probe T). q.index ≢ p.index) ps
        → Unused ps rows
        → Unused ps (rows ++ probe_row id sid addr ts seq p ∷ [])
    Unused-append id p [] rows d h = tt
    Unused-append id p (q ∷ ps) rows d h = (
      any_append (probe_key sid addr seq q.index) rows (probe_row id sid addr ts seq p) h.0
          (ground (arith, d.0, eq_ℤ_iff p.index q.index)),
      Unused-append id p ps rows d.1 h.1,
    )

    insert_probes-all :
        (id : ℕ) (ps : List (Probe T)) (rows : List (ProbeReading T))
        → DistinctIndices ps
        → Unused ps rows
        → insert_probes id sid addr ts seq ps rows ≡ rows ++ probe_rows id sid addr ts seq ps
    unfolding insert_probes
    insert_probes-all id [] rows d h = sym (append-nil rows)
    insert_probes-all id (p ∷ ps) rows d h = rw h.0 (
        insert_probes-all (suc id) ps (rows ++ probe_row id sid addr ts seq p ∷ []) d.1
          (Unused-append id p ps rows d.0 h.1)
        ∙ append_assoc rows (probe_row id sid addr ts seq p ∷ [])
            (probe_rows (suc id) sid addr ts seq ps))

  probes_kept :
      (r : DeviceReading T) (s : Store T)
      → (insert_device_reading r s).probe_readings ≡ s.probe_readings
  unfolding insert_device_reading
  probes_kept r s = ground arith

  sessions_kept :
      (r : DeviceReading T) (s : Store T) → (insert_device_reading r s).sessions ≡ s.sessions
  unfolding insert_device_reading
  sessions_kept r s = ground arith

  -- A reading whose number is above the largest of its device in the session is stored with a row
  -- for every probe, none ignored, after the rows that there are.
  pub record_reading-stored :
      (I : Iso) (now new_id : ℕ) (sid addr : String) (seq : ℕ) (probes : List (Probe T))
      (battery : Option ℕ) (propane : Option T) (heating_json : Option String) (s : Store T)
      → any_where (session_is sid) s.sessions ≡ true
      → get_max_seq sid addr s < seq
      → DistinctIndices probes
      → let out =
          record_reading I now new_id sid addr seq probes battery propane heating_json none s in
        (out.0 ≡ ok tt)
        × (out.1.probe_readings
            ≡ s.probe_readings ++ probe_rows new_id sid addr (now_iso_utc I now) seq probes)
  unfolding record_reading get_max_seq
  record_reading-stored I now new_id sid addr seq probes battery propane heating_json s known above
        d =
      rw known (
        refl,
        rw (probes_kept _ s) (
            insert_probes-all sid addr (now_iso_utc I now) seq new_id probes s.probe_readings d
              (All-Unused sid addr (now_iso_utc I now) seq probes s.probe_readings above)),
      )

  any_last :
      (k : DeviceReading T → Bool) (rows : List (DeviceReading T)) (r : DeviceReading T)
      → k r ≡ true
      → any_where k (rows ++ r ∷ []) ≡ true
  any_last k [] r h = ground (arith, h)
  any_last k (x ∷ rows) r h = ground (arith, any_last k rows r h)

  own_key : (r : DeviceReading T) → device_key r.session_id r.address r.seq r ≡ true
  own_key r = ground (arith, str_eq_refl r.session_id, str_eq_refl r.address)

  inserted :
      (r : DeviceReading T) (s : Store T)
      → any_where
          (device_key r.session_id r.address r.seq)
          (insert_device_reading r s).device_readings
        ≡ true
  unfolding insert_device_reading
  inserted r s =
      elim (Bool-cases (any_where (device_key r.session_id r.address r.seq) s.device_readings)) [
        | inl e ↦ rw e e
        | inr e ↦
            rw e
              (any_last (device_key r.session_id r.address r.seq) s.device_readings r (own_key r))
      ]

  ignored :
      (r : DeviceReading T) (s : Store T)
      → any_where (device_key r.session_id r.address r.seq) s.device_readings ≡ true
      → insert_device_reading r s ≡ s
  unfolding insert_device_reading
  ignored r s h = rw h refl

  -- After a reading without probes `get_max_seq` is what it was, and a second reading with the same
  -- number adds nothing to device_readings: its battery, propane and heating are lost.
  pub record_reading-without_probes :
      (I : Iso) (now later new_id : ℕ) (sid addr : String) (seq : ℕ) (probes : List (Probe T))
      (battery battery' : Option ℕ) (propane propane' : Option T) (heating heating' : Option String)
      (s : Store T)
      → any_where (session_is sid) s.sessions ≡ true
      → let s' = (record_reading I now new_id sid addr seq [] battery propane heating none s).1 in
        (get_max_seq sid addr s' ≡ get_max_seq sid addr s)
        × ((record_reading I later new_id sid addr seq probes battery' propane' heating' none
              s').1.device_readings
            ≡ s'.device_readings)
  unfolding record_reading get_max_seq insert_probes
  record_reading-without_probes I now later new_id sid addr seq probes battery battery' propane
        propane' heating heating' s known =
      rw known (
        ap (λ rows. max_seq (select_where (reading_of sid addr) rows)) (probes_kept first s),
        rw (ap (any_where (session_is sid)) (sessions_kept first s) ∙ known)
            (ap (λ (x : Store T). x.device_readings) (ignored second s' (inserted first s))),
      )
    where
      reading : ℕ → Option ℕ → Option T → Option String → DeviceReading T
      reading t battery propane heating = record {
        session_id = sid;
        address = addr;
        recorded_at = now_iso_utc I t;
        seq = seq;
        battery = battery;
        propane = propane;
        heating_json = heating;
      }

      first : DeviceReading T
      first = reading now battery propane heating

      second : DeviceReading T
      second = reading later battery' propane' heating'

      s' : Store T
      s' =
          with_probes (insert_device_reading first s) (insert_device_reading first s).probe_readings
