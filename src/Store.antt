-- ===== src/Store.antt =====
-- The state of HistoryStore (service/history/store.py): the tables of service/db/schema.py as lists
-- of rows, with the columns that the migrations add, and the fields of the object. `T` is the type
-- of the REAL columns, which the store only moves.
pub mod Timers
pub mod Devices
pub mod Sessions
pub mod Targets
pub mod Notes
pub mod Readings
pub mod Listings
use igrill_remote_server.Prelude.{ℕ, ℤ, String, Option, List}
use igrill_remote_server.Action.{Action}

pub record Device : Type 0 where
  pub address : String
  pub name : Option String
  pub model : Option String
  pub first_seen : String
  pub last_seen : String

pub record Session : Type 0 where
  pub id : String
  pub started_at : String
  pub ended_at : Option String
  pub start_reason : String
  pub end_reason : Option String
  pub name : Option String
  pub notes : Option String
  pub target_duration_secs : Option ℤ

pub record SessionDevice : Type 0 where
  pub session_id : String
  pub address : String
  pub joined_at : String
  pub left_at : Option String

pub record ProbeReading (T : Type 0) : Type 0 where
  pub id : ℕ
  pub session_id : String
  pub address : String
  pub recorded_at : String
  pub seq : ℕ
  pub probe_index : ℤ
  pub temperature : Option T

pub record DeviceReading (T : Type 0) : Type 0 where
  pub session_id : String
  pub address : String
  pub recorded_at : String
  pub seq : ℕ
  pub battery : Option ℕ
  pub propane : Option T
  pub heating_json : Option String

-- "fixed" or "range"; "C" or "F"; "count_up" or "count_down".
pub data Mode : Type 0 where
  fixed range : Mode

pub data TempUnit : Type 0 where
  celsius fahrenheit : TempUnit

pub data TimerMode : Type 0 where
  count_up count_down : TimerMode

pub record SessionTarget (T : Type 0) : Type 0 where
  pub session_id : String
  pub address : String
  pub probe_index : ℤ
  pub mode : Mode
  pub target_value : Option T
  pub range_low : Option T
  pub range_high : Option T
  pub pre_alert_offset : Option T
  pub reminder_interval_secs : Option ℤ
  pub label : Option String
  pub unit : TempUnit

pub record Timer : Type 0 where
  pub session_id : String
  pub address : String
  pub probe_index : ℤ
  pub mode : TimerMode
  pub duration_secs : Option ℤ
  pub started_at : Option String
  pub paused_at : Option String
  pub accumulated_secs : ℕ
  pub completed_at : Option String

pub record Note : Type 0 where
  pub id : ℕ
  pub session_id : String
  pub created_at : String
  pub updated_at : String
  pub body : String

pub record Db (T : Type 0) : Type 0 where
  pub devices : List Device
  pub sessions : List Session
  pub session_devices : List SessionDevice
  pub probe_readings : List (ProbeReading T)
  pub device_readings : List (DeviceReading T)
  pub session_targets : List (SessionTarget T)
  pub session_timers : List Timer
  pub session_notes : List Note

pub record Store (T : Type 0) : Type 0 where
  pub db : Db T
  pub open db use *
  pub current_session_id : Option String
  pub current_session_start_ts : Option String
  pub last_session_id : Option String
  pub reconnect_grace : ℕ
