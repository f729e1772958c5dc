-- ===== src/Store/Listings.antt =====
-- The listings of HistoryStore (service/history/store.py). `heating` stays the text that json.dumps
-- wrote.
pub mod Pages
use igrill_remote_server.Prelude.{
  ordered, ℕ, zero, suc, ◌+◌, ℤ, String, Bool, true, false, not, ◌&&◌, ◌||◌, Option, none, some,
  List, [], ◌∷◌, ◌++◌, map, str_eq, is_truthy, text_ltb, eq_ℤ, ltb_ℤ, ltb, ◌==◌, length, take, drop,
  if◌then◌else◌, select_where, first_where, any_where,
}
use igrill_remote_server.Store.{
  Store, Device, Session, SessionDevice, ProbeReading, DeviceReading, Timer, Note,
}
use igrill_remote_server.Store.Devices.{get_session_devices}
use igrill_remote_server.Store.Readings.{device_key}

-- A probe reading with the device reading of its number, which the LEFT JOIN may not find.
pub record HistoryItem (T : Type 0) : Type 0 where
  pub probe : ProbeReading T
  pub device : Option (DeviceReading T)

-- A filter that is None or empty is left out.
abbrev pub filtered : Option String → (String → Bool) → Bool
filtered none p = true
filtered (some ts) p = if is_truthy ts then p ts else true

-- A limit of None or 0 is no limit.
abbrev pub limited {ℓ} : {A : Type ℓ} → Option ℕ → List A → List A
limited none l = l
limited (some zero) l = l
limited (some (suc n)) l = take (suc n) l

-- ORDER BY started_at DESC
abbrev pub started_later : Session → Session → Bool
started_later r x = text_ltb x.started_at r.started_at

abbrev pub timer_before : Timer → Timer → Bool
timer_before r x =
    text_ltb r.address x.address || str_eq r.address x.address && ltb_ℤ r.probe_index x.probe_index

abbrev pub created_before : Note → Note → Bool
created_before r x =
    text_ltb r.created_at x.created_at || str_eq r.created_at x.created_at && ltb r.id x.id

module _ {T : Type 0} where
  -- ORDER BY recorded_at ASC, probe_index ASC
  abbrev pub reading_before : ProbeReading T → ProbeReading T → Bool
  reading_before r x =
      text_ltb r.recorded_at x.recorded_at
      || str_eq r.recorded_at x.recorded_at && ltb_ℤ r.probe_index x.probe_index

  abbrev pub join_device : Store T → ProbeReading T → HistoryItem T
  join_device s r = record {
    probe = r;
    device = first_where (device_key r.session_id r.address r.seq) s.device_readings;
  }

  unfoldable pub get_session_readings : String → Store T → List (HistoryItem T)
  get_session_readings sid s = map (join_device s) (
      ordered reading_before
        (select_where (λ (r : ProbeReading T). str_eq r.session_id sid) s.probe_readings))

  abbrev pub in_session : Option String → ProbeReading T → Bool
  in_session none r = true
  in_session (some sid) r = str_eq r.session_id sid

  unfoldable pub get_history_items :
      Option String → Option String → Option ℕ → Option String → Store T → List (HistoryItem T)
  get_history_items since_ts until_ts limit sid s = limited limit (
      map (join_device s) (
        ordered reading_before (
          select_where
            (λ (r : ProbeReading T).
              in_session sid r
              && filtered since_ts (λ ts. not (text_ltb r.recorded_at ts))
              && filtered until_ts (λ ts. not (text_ltb ts r.recorded_at)))
            s.probe_readings)))

pub record SessionSummary : Type 0 where
  pub session : Session
  pub reading_count : ℕ
  pub devices : List (SessionDevice × Option Device)

module _ {T : Type 0} where
  abbrev pub summary : Store T → Session → SessionSummary
  summary s r = record {
    session = r;
    reading_count =
        length (select_where (λ (x : ProbeReading T). str_eq x.session_id r.id) s.probe_readings);
    devices = get_session_devices r.id s;
  }

  unfoldable pub list_sessions : ℕ → ℕ → Store T → List SessionSummary
  list_sessions limit offset s =
      map (summary s) (take limit (drop offset (ordered started_later s.sessions)))

  unfoldable pub get_timers : String → Store T → List Timer
  get_timers sid s =
      ordered timer_before (select_where (λ (r : Timer). str_eq r.session_id sid) s.session_timers)

  unfoldable pub get_notes : String → Store T → List Note
  get_notes sid s =
      ordered created_before (select_where (λ (r : Note). str_eq r.session_id sid) s.session_notes)

  unfoldable pub has_history : Store T → Bool
  has_history s = any_where (λ (r : ProbeReading T). true) s.probe_readings

  -- MAX(recorded_at)
  abbrev pub latest_of : List (ProbeReading T) → Option String
  latest_of [] = none
  latest_of (r ∷ l) = elim (latest_of l) [
    | none ↦ some r.recorded_at
    | some ts ↦ if text_ltb ts r.recorded_at then some r.recorded_at else some ts
  ]

  unfoldable pub latest_ts : Store T → Option String
  latest_ts s = latest_of s.probe_readings

  unfoldable pub get_current_session_id : Store T → Option String
  get_current_session_id s = s.current_session_id
