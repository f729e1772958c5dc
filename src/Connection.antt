-- ===== src/Connection.antt =====
-- ConnectionStateMachine of service/ble/connection_state.py. Durations are whole milliseconds.
pub mod Backoff
use igrill_remote_server.Prelude.{ℕ, ◌+◌, ◌-◌, ◌*◌, ◌^◌, min, Bool, true, false, leb, if◌then◌else◌}
use igrill_remote_server.Action.{Action, ok, err, overflow_error}

pub data ConnectionState : Type 0 where
  discovered connecting authenticating polling disconnected backoff : ConnectionState

pub record ConnectionStateMachine : Type 0 where
  pub state : ConnectionState
  pub initial_backoff : ℕ
  pub max_backoff : ℕ
  pub consecutive_failures : ℕ
  pub backoff_seconds : ℕ
  pub had_successful_connection : Bool

unfoldable pub new_machine : ℕ → ℕ → ConnectionStateMachine
new_machine initial_backoff max_backoff = record {
  state = discovered;
  initial_backoff = initial_backoff;
  max_backoff = max_backoff;
  consecutive_failures = 0;
  backoff_seconds = initial_backoff;
  had_successful_connection = false;
}

abbrev pub same_state : ConnectionState → ConnectionState → Bool
same_state discovered discovered = true
same_state connecting connecting = true
same_state authenticating authenticating = true
same_state polling polling = true
same_state disconnected disconnected = true
same_state backoff backoff = true
same_state _ _ = false

-- `consecutive_failures` on entering BACKOFF.
unfoldable pub failures_after : ConnectionStateMachine → ℕ
failures_after m = (if m.had_successful_connection then 0 else m.consecutive_failures) + 1

unfoldable pub capped_backoff : ℕ → ℕ → ℕ → ℕ
capped_backoff initial_backoff max_backoff failures =
    min (initial_backoff * 2 ^ (failures - 1)) max_backoff

-- Entering BACKOFF with the jitter that `random.uniform` gave. A float times an integer of 2 ** 1024
-- or more is the OverflowError, raised before the state is set.
unfoldable pub enter_backoff : ℕ → Action ConnectionStateMachine (Unit {0})
enter_backoff jitter m =
    let failures = failures_after m in
    let m' = record m { had_successful_connection = false; consecutive_failures = failures } in
    if leb 1024 (failures - 1) then (err overflow_error, m') else (
      ok tt,
      record m' {
        backoff_seconds = capped_backoff m.initial_backoff m.max_backoff failures + jitter;
        state = backoff;
      },
    )

unfoldable pub enter : ConnectionState → ℕ → Action ConnectionStateMachine (Unit {0})
enter polling jitter m = (
  ok tt,
  record m { had_successful_connection = true; consecutive_failures = 0; state = polling },
)
enter backoff jitter m = enter_backoff jitter m
enter new_state jitter m = (ok tt, record m { state = new_state })

unfoldable pub transition : ConnectionState → ℕ → Action ConnectionStateMachine (Unit {0})
transition new_state jitter m =
    if same_state new_state m.state then (ok tt, m) else enter new_state jitter m
