-- ===== src/Tests.antt =====
-- Concrete values for the tests: a clock, and a store with two sessions and three timers.
pub mod Histories
pub mod Cooks
pub mod Services
pub mod Messages
pub mod Pushes
pub mod Listings
pub mod Requests
use Prim.Native.String
use igrill_remote_server.Prelude.{ℤ}
use igrill_remote_server.Prelude.{
  ℕ, zero, suc, ◌+◌, ◌≡◌, ap, refl, String, Option, none, some, List, [], ◌∷◌,
}
use igrill_remote_server.Prelude
use igrill_remote_server.Clock.{Iso, Datetime, aware}
use igrill_remote_server.Store.{
  Store, Db, Session, SessionDevice, Timer, TimerMode, count_up, count_down,
}

-- Timestamps in tally marks.
abbrev tally : ℕ → String
tally zero = String.[]
tally (suc n) = String.◌∷◌ "i" (tally n)

abbrev count : String → ℕ
count String.[] = 0
count (String.◌∷◌ c s) = suc (count s)

abbrev read : String → Option Datetime
read String.[] = none
read (String.◌∷◌ c s) = some (aware (count s))

pub count-tally : (n : ℕ) → count (tally n) ≡ n
count-tally zero = refl
count-tally (suc n) = ap suc (count-tally n)

abbrev pub clock : Iso
clock = record {
  isoformat = λ t. String.◌∷◌ "T" (tally t);
  fromisoformat = read;
  round_trip = λ t. ap (λ n. some (aware n)) (count-tally t);
}

abbrev pub session : String → Option String → Session
session id ended_at = record {
  id = id;
  started_at = "T";
  ended_at = ended_at;
  start_reason = "user";
  end_reason = none;
  name = none;
  notes = none;
  target_duration_secs = none;
}

abbrev pub timer : ℤ → Option String → ℕ → Timer
timer idx started_at accumulated_secs = record {
  session_id = "s";
  address = "d";
  probe_index = idx;
  mode = count_down;
  duration_secs = some (Prelude.pos 60);
  started_at = started_at;
  paused_at = none;
  accumulated_secs = accumulated_secs;
  completed_at = none;
}

abbrev pub joined : SessionDevice
joined = record { session_id = "s"; address = "d"; joined_at = "T"; left_at = none }

-- A session that runs, an old one, and two timers.
abbrev pub cooking : Store ℕ
cooking = record {
  db = record {
    devices = [];
    sessions = session "s" none ∷ session "old" (some "Tii") ∷ [];
    session_devices = joined ∷ [];
    probe_readings = [];
    device_readings = [];
    session_targets = [];
    session_timers = timer (Prelude.pos 1) (some "Ti") 60 ∷ timer (Prelude.pos 2) none 0 ∷ [];
    session_notes = [];
  };
  current_session_id = some "s";
  current_session_start_ts = some "T";
  last_session_id = some "old";
  reconnect_grace = 60;
}
