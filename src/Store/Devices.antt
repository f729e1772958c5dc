-- ===== src/Store/Devices.antt =====
-- The device registry and the devices of a session in HistoryStore (service/history/store.py).
use igrill_remote_server.Prelude.{
  ordered, text_ltb, ℕ, String, Bool, true, false, ◌&&◌, ◌==◌, Option, none, some, List, [], ◌∷◌,
  ◌++◌, str_eq, is_some, is_none, if◌then◌else◌, first_where, any_where, select_where, update_where,
  map, length,
}
use igrill_remote_server.Action.{Action, raise, gets, modify, ◌>>=◌, ◌>>◌, integrity_error}
use igrill_remote_server.Clock.{Iso, now_iso_utc}
use igrill_remote_server.Store.{Store, Session, Device, SessionDevice}

abbrev pub device_is : String → Device → Bool
device_is addr d = str_eq d.address addr

abbrev pub session_is : String → Session → Bool
session_is sid r = str_eq r.id sid

abbrev pub member_is : String → String → SessionDevice → Bool
member_is sid addr m = str_eq m.session_id sid && str_eq m.address addr

-- `name = ?` only where the argument is not None.
abbrev pub given : Option String → Option String → Option String
given none old = old
given (some new) old = some new

unfoldable pub touch_device : Option String → Option String → String → Device → Device
touch_device name model now_ts d = record d {
  last_seen = now_ts;
  name = given name d.name;
  model = given model d.model;
}

module _ {T : Type 0} (I : Iso) (now : ℕ) where
  -- `_register_device_locked`
  unfoldable pub register_device_locked : String → Option String → Option String → Store T → Store T
  register_device_locked addr name model s =
      let now_ts = now_iso_utc I now in
      record s {
        db = record s.db {
          devices =
              if any_where (device_is addr) s.devices
              then update_where (device_is addr) (touch_device name model now_ts) s.devices
              else s.devices
                ++ record {
                  address = addr;
                  name = name;
                  model = model;
                  first_seen = now_ts;
                  last_seen = now_ts;
                }
                  ∷ [];
        };
      }

  -- INSERT OR IGNORE INTO session_devices
  unfoldable pub join_session : String → String → Store T → Store T
  join_session sid addr s = record s {
    db = record s.db {
      session_devices =
          if any_where (member_is sid addr) s.session_devices
          then s.session_devices
          else s.session_devices
            ++ record {
              session_id = sid;
              address = addr;
              joined_at = now_iso_utc I now;
              left_at = none;
            }
              ∷ [];
    };
  }

  unfoldable pub register_device :
      String → Option String → Option String → Action (Store T) (Unit {0})
  register_device addr name model = modify (register_device_locked addr name model)

  -- The foreign key on `sessions` is checked by the INSERT.
  unfoldable pub add_device_to_session : String → String → Action (Store T) (Unit {0})
  add_device_to_session sid addr = do
    modify (register_device_locked addr none none)
    known ← gets (λ s. any_where (session_is sid) s.sessions)
    if known then modify (join_session sid addr) else raise integrity_error

  unfoldable pub device_left_session : String → String → Action (Store T) (Unit {0})
  device_left_session sid addr = modify (λ s. record s {
    db = record s.db {
      session_devices =
          update_where (member_is sid addr) (λ m. record m { left_at = some (now_iso_utc I now) })
            s.session_devices;
    };
  })

abbrev pub has_joined : SessionDevice → SessionDevice
has_joined m = record m { left_at = none }

module _ {T : Type 0} where
  unfoldable pub device_rejoined_session : String → String → Action (Store T) (Unit {0})
  device_rejoined_session sid addr = modify (λ s. record s {
    db = record s.db {
      session_devices = update_where (member_is sid addr) has_joined s.session_devices;
    };
  })

  -- The rows of `get_session_devices`, each with its device where that is registered. The query
  -- has no ORDER BY; SQLite answers it from the index of the primary key, by address.
  unfoldable pub get_session_devices : String → Store T → List (SessionDevice × Option Device)
  get_session_devices sid s =
      map (λ m. (m, first_where (device_is m.address) s.devices))
        (ordered (λ (m n : SessionDevice). text_ltb m.address n.address)
          (select_where (λ (m : SessionDevice). str_eq m.session_id sid) s.session_devices))

  -- COUNT(*) and COUNT(left_at)
  unfoldable pub all_devices_left : String → Store T → Bool
  all_devices_left sid s =
      let members =
        select_where (λ (m : SessionDevice). str_eq m.session_id sid) s.session_devices in
      if length members == 0
      then true
      else length (select_where (λ (m : SessionDevice). is_some m.left_at) members)
        == length members

  unfoldable pub is_device_in_session : String → Store T → Bool
  is_device_in_session addr s = elim s.current_session_id [
    | none ↦ false
    | some sid ↦ any_where (λ m. member_is sid addr m && is_none m.left_at) s.session_devices
  ]

  unfoldable pub list_devices : Store T → List Device
  list_devices s = s.devices
