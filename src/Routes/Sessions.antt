-- ===== src/Routes/Sessions.antt =====
-- sessions_handler and session_detail_handler of service/api/routes.py. The texts of the query are
-- none where they are missing.
use igrill_remote_server.Prelude.{ℕ, ℤ, pos_part, String, Option, none, some, List, if◌then◌else◌}
use igrill_remote_server.Action.{Result, ok, err}
use igrill_remote_server.Real.{Real}
use igrill_remote_server.Json.{Python}
use igrill_remote_server.Store.{Store, Session, SessionDevice, Device, Timer, Note}
use igrill_remote_server.Store.Devices.{get_session_devices}
use igrill_remote_server.Store.Sessions.{session_exists, get_session_metadata}
use igrill_remote_server.Store.Targets.{get_targets}
use igrill_remote_server.Store.Listings.{
  HistoryItem, SessionSummary, get_session_readings, list_sessions, get_timers, get_notes,
}
use igrill_remote_server.Target.{TargetConfig}
use igrill_remote_server.Server.Reads.{page_limit}
use igrill_remote_server.Routes.{Credentials, is_authorized}

-- An answer with a body, or an error with its status and text.
pub data HttpAnswer (A : Type 0) : Type 0 where
  found : A → HttpAnswer A
  denied : ℕ → String → HttpAnswer A

-- The body of the detail; of the session it uses the name, the notes and the target duration, which
-- are null where there is no row.
pub record Detail (F : Type 0) : Type 0 where
  pub session_id : String
  pub metadata : Option Session
  pub devices : List (SessionDevice × Option Device)
  pub targets : List (TargetConfig F)
  pub readings : List (HistoryItem F)
  pub timers : List Timer
  pub notes : List Note

-- `request.query.get(key, default)`
abbrev pub given_or : String → Option String → String
given_or default none = default
given_or default (some t) = t

module _ {F : Type 0} where
  -- int() of a text raises ValueError alone, which the handler catches.
  abbrev pub page : Result ℤ → Result ℤ → Store F → HttpAnswer (List SessionSummary)
  page (err e) offset s = denied 400 "limit and offset must be integers"
  page (ok limit) (err e) s = denied 400 "limit and offset must be integers"
  page (ok limit) (ok offset) s = found (list_sessions (page_limit limit) (pos_part offset) s)

  abbrev pub detail : Real F → String → Store F → Detail F
  detail R sid s = record {
    session_id = sid;
    metadata = get_session_metadata sid s;
    devices = get_session_devices sid s;
    targets = get_targets R sid s;
    readings = get_session_readings sid s;
    timers = get_timers sid s;
    notes = get_notes sid s;
  }

module _ {F : Type 0} (strip : String → String) (session_token : String) where
  unfoldable pub sessions_handler :
      Python F
      → Credentials
      → Option String
      → Option String
      → Store F
      → HttpAnswer (List SessionSummary)
  sessions_handler python r limit offset s =
      if is_authorized strip session_token r
      then page (python.int_of_text (given_or "20" limit))
          (python.int_of_text (given_or "0" offset)) s
      else denied 401 "unauthorised"

  unfoldable pub session_detail_handler :
      Real F → Credentials → String → Store F → HttpAnswer (Detail F)
  session_detail_handler R r sid s =
      if is_authorized strip session_token r
      then (if session_exists sid s then found (detail R sid s) else denied 404 "session not found")
      else denied 401 "unauthorised"
