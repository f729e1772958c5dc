-- ===== src/Server.antt =====
-- What the WebSocket handlers of service/api/websocket.py share: the HistoryStore, the
-- AlertEvaluator, and the DeviceStore of service/models/device.py with its devices and its queue of
-- events. A message to a peer or to the queue is a constructor of Message.
pub mod Checks
pub mod Handlers
pub mod Dispatch
pub mod Quiet
pub mod QuietHandlers
pub mod Refusals
pub mod Rehydrate
pub mod Coupling
pub mod Coupled
pub mod Lifecycle
pub mod Start
pub mod Acks
pub mod Calls
pub mod Reads
pub mod Chunks
use igrill_remote_server.Prelude.{
  ℕ, ℤ, String, Bool, true, false, ◌&&◌, Option, none, some, List, [], ◌∷◌, ◌++◌, str_eq,
  if◌then◌else◌, any_where, update_where,
}
use igrill_remote_server.Action.{Action, Result, ok, err, Error, ◌>>=◌}
use igrill_remote_server.Clock.{Iso}
use igrill_remote_server.Real.{Real}
use igrill_remote_server.Json.{Json, Python, array, object}
use igrill_remote_server.Store.{Store, Timer, Note}
use igrill_remote_server.Store.Sessions.{EndEvent, StartEvent}
use igrill_remote_server.Target.{TargetConfig}
use igrill_remote_server.Alerts.{Evaluator}
use igrill_remote_server.Downsampler.{TimeZone, Averages}
use igrill_remote_server.Queues.{publish_event}

-- The entry of one device in `DeviceStore._devices`, with the fields that the handlers use.
pub record LiveDevice : Type 0 where
  pub address : String
  pub connected : Bool
  pub session_id : Option String
  pub session_start_ts : Option String

-- The codes of `send_error`.
pub data Code : Type 0 where
  unauthorized invalid_payload no_devices device_not_found no_active_session invalid_mode : Code
  invalid_action timer_completed timer_not_found no_session_specified session_not_found : Code
  no_session invalid_json invalid_message unsupported_version rate_limited : Code
  missing_request_id unknown_type : Code

-- The payload of `target_update`; the map of targets by device is a function.
pub record TargetUpdate (F : Type 0) : Type 0 where
  pub session_id : String
  pub device_address : Json F
  pub targets : List (TargetConfig F)
  pub all_targets : String → List (TargetConfig F)

pub data Message (F : Type 0) : Type 0 where
  session_start : StartEvent → List (TargetConfig F) → (String → List (TargetConfig F)) → Message F
  session_end : EndEvent → Message F
  session_discarded : String → Message F
  probe_timer : Timer → Message F
  session_notes : Note → Message F
  target_update : TargetUpdate F → Message F
  device_joined : String → String → String → Message F
  session_update : String → Option String → Option String → Message F

pub data Reply (F : Type 0) : Type 0 where
  error_reply : Code → Reply F
  ack : Message F → Reply F

pub record Server (F : Type 0) : Type 0 where
  pub history : Store F
  pub evaluator : Evaluator F
  pub devices : List LiveDevice
  pub events : List (Message F)

-- What SQLite stores for a value that is bound to a TEXT or an INTEGER column.
pub record Affinity (F : Type 0) : Type 0 where
  pub as_text : Json F → String
  pub as_int : Json F → Option ℤ

-- The libraries, and what one request finds: the instants of its first and of its later calls of
-- the clock, the places where the database raises, and the identifiers that it draws.
pub record Context (F : Type 0) : Type 0 where
  pub iso : Iso
  pub time_zone : TimeZone
  pub averages : Averages F
  pub real : Real F
  pub python : Python F
  pub affinity : Affinity F
  pub now : ℕ
  pub later : ℕ
  pub fault : Option ℕ
  pub faults : Option ℕ × Option ℕ
  pub ids : ℕ × ℕ
  pub uuid : String
  pub note_id : ℕ
  pub authorized : Bool
  pub payload : Json F

-- A chain of the tests at the head of a handler.
pub data Checked {ℓ} (A : Type ℓ) : Type ℓ where
  passes : A → Checked A
  rejects : Code → Checked A
  throws : Error → Checked A

infixl 5 ◌and_then◌
abbrev pub ◌and_then◌ {ℓ κ} : {A : Type ℓ} {B : Type κ} → Checked A → (A → Checked B) → Checked B
passes a and_then f = f a
rejects c and_then f = rejects c
throws e and_then f = throws e

-- An exception that no clause catches.
abbrev pub uncaught {ℓ} : {A : Type ℓ} → Result A → Checked A
uncaught (ok a) = passes a
uncaught (err e) = throws e

abbrev pub ensure : Bool → Code → Checked (Unit {0})
ensure true c = passes tt
ensure false c = rejects c

abbrev pub require {ℓ} : {A : Type ℓ} → Option A → Code → Checked A
require (some a) c = passes a
require none c = rejects c

-- `for address in addresses: await store.upsert(address, session_id=..., session_start_ts=...)`
unfoldable pub upsert : String → String → String → List LiveDevice → List LiveDevice
upsert addr sid ts l =
    if any_where (λ d. str_eq d.address addr) l
    then update_where (λ d. str_eq d.address addr)
        (λ d. record d { session_id = some sid; session_start_ts = some ts }) l
    else l
      ++ record {
        address = addr;
        connected = false;
        session_id = some sid;
        session_start_ts = some ts;
      }
        ∷ []

module _ {F : Type 0} where
  -- An array or an object cannot be bound.
  abbrev pub is_bindable : Json F → Bool
  is_bindable (array l) = false
  is_bindable (object o) = false
  is_bindable _ = true

  -- `await ctx.store.publish_event(...)`
  unfoldable pub publish : Message F → Server F → Server F
  publish m s = record s { events = publish_event m s.events }

  -- The body of a handler after its tests.
  unfoldable pub settle {ℓ} :
      {A : Type ℓ} → Checked A → (A → Action (Server F) (Reply F)) → Action (Server F) (Reply F)
  settle (passes a) body s = body a s
  settle (rejects c) body s = (ok (error_reply c), s)
  settle (throws e) body s = (err e, s)
