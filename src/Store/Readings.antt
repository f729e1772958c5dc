-- ===== src/Store/Readings.antt =====
-- The readings of HistoryStore (service/history/store.py). `heating_json` is the text that json.dumps
-- gives, and `new_id` the next id of AUTOINCREMENT.
pub mod Stored
use igrill_remote_server.Prelude.{
  ℕ, suc, ℤ, String, Bool, true, false, ◌&&◌, Option, none, some, List, [], ◌∷◌, ◌++◌, str_eq, ltb,
  ◌==◌, eq_ℤ, if◌then◌else◌, select_where, any_where, default,
}
use igrill_remote_server.Action.{
  Action, Error, Result, ok, err, pure, raise, modify, ◌>>=◌, ◌>>◌, integrity_error,
}
use igrill_remote_server.Clock.{Iso, now_iso_utc}
use igrill_remote_server.Store.{Store, Session, ProbeReading, DeviceReading}
use igrill_remote_server.Store.Devices.{session_is}
use igrill_remote_server.Alerts.{Probe}

module _ {T : Type 0} where
  -- WHERE session_id = ? AND address = ?
  abbrev pub reading_of : String → String → ProbeReading T → Bool
  reading_of sid addr r = str_eq r.session_id sid && str_eq r.address addr

  -- UNIQUE(session_id, address, seq, probe_index)
  abbrev pub probe_key : String → String → ℕ → ℤ → ProbeReading T → Bool
  probe_key sid addr seq idx r = reading_of sid addr r && (r.seq == seq && eq_ℤ r.probe_index idx)

  abbrev pub device_key : String → String → ℕ → DeviceReading T → Bool
  device_key sid addr seq r = str_eq r.session_id sid && str_eq r.address addr && r.seq == seq

  abbrev pub with_probes : Store T → List (ProbeReading T) → Store T
  with_probes s rows = record s { db = record s.db { probe_readings = rows } }

  abbrev pub probe_row : ℕ → String → String → String → ℕ → Probe T → ProbeReading T
  probe_row id sid addr ts seq probe = record {
    id = id;
    session_id = sid;
    address = addr;
    recorded_at = ts;
    seq = seq;
    probe_index = probe.index;
    temperature = probe.temperature;
  }

  -- INSERT OR IGNORE INTO device_readings
  unfoldable pub insert_device_reading : DeviceReading T → Store T → Store T
  insert_device_reading r s =
      if any_where (device_key r.session_id r.address r.seq) s.device_readings
      then s
      else record s { db = record s.db { device_readings = s.device_readings ++ r ∷ [] } }

  -- The loop of INSERT OR IGNORE INTO probe_readings
  unfoldable pub insert_probes :
      ℕ
      → String
      → String
      → String
      → ℕ
      → List (Probe T)
      → List (ProbeReading T)
      → List (ProbeReading T)
  insert_probes new_id sid addr ts seq [] rows = rows
  insert_probes new_id sid addr ts seq (p ∷ ps) rows =
      if any_where (probe_key sid addr seq p.index) rows
      then insert_probes new_id sid addr ts seq ps rows
      else insert_probes (suc new_id) sid addr ts seq ps
          (rows ++ probe_row new_id sid addr ts seq p ∷ [])

  -- The foreign key is not covered by OR IGNORE.
  unfoldable pub record_reading :
      Iso
      → ℕ
      → ℕ
      → String
      → String
      → ℕ
      → List (Probe T)
      → Option ℕ
      → Option T
      → Option String
      → Option String
      → Action (Store T) (Unit {0})
  record_reading I now new_id sid addr seq probes battery propane heating_json recorded_at s =
      let ts = default (now_iso_utc I now) recorded_at in
      let s' =
        insert_device_reading
          (record {
            session_id = sid;
            address = addr;
            recorded_at = ts;
            seq = seq;
            battery = battery;
            propane = propane;
            heating_json = heating_json;
          })
          s in
      if any_where (session_is sid) s.sessions
      then (ok tt, with_probes s' (insert_probes new_id sid addr ts seq probes s'.probe_readings))
      else (err integrity_error, s)

  -- MAX(seq), and 0 where there is no row.
  abbrev pub max_seq : List (ProbeReading T) → ℕ
  max_seq [] = 0
  max_seq (r ∷ rows) = let m = max_seq rows in if ltb m r.seq then r.seq else m

  unfoldable pub get_max_seq : String → String → Store T → ℕ
  get_max_seq sid addr s = max_seq (select_where (reading_of sid addr) s.probe_readings)
