-- ===== src/Tests/Services.antt =====
-- The theorems about the limiter, the queues, the connection and the background tasks, applied.
use igrill_remote_server.Prelude.{
  ℕ, ◌≤◌, ◌*◌, ◌+◌, ◌^◌, min, ◌≡◌, refl, Bool, true, false, some, List, [], ◌∷◌, arith, suc, pos,
  Memᴰ,
}
use igrill_remote_server.Action.{ok, err, overflow_error}
use igrill_remote_server.RateLimiter.Window.{
  Calls, answers, logged_answers, new_limiter, answers-logged, recent, accepted, accepted-bound,
}
use igrill_remote_server.Queues.Newest.{newest, of_kind, enqueue_all, enqueue_all-keeps_newest}
use igrill_remote_server.Connection.{
  ConnectionStateMachine, backoff, disconnected, connecting, new_machine,
}
use igrill_remote_server.Connection.Backoff.{
  HasFailed, fail_attempt, fail_attempt-backoff, fail_attempt-overflow, transitions,
  transitions-bound,
}
use igrill_remote_server.Countdown.{tick}
use igrill_remote_server.Countdown.Completes.{IsStored, IsDone, tick-completes}
use igrill_remote_server.Store.Devices.{is_device_in_session}
use igrill_remote_server.Store.Timers.{fetch_timer, find_expired_running_countdowns}
use igrill_remote_server.Clock.{now_iso_utc, parse_iso}
use igrill_remote_server.Worker.{on_connected, on_disconnected, on_connected-on_disconnected}
use igrill_remote_server.Tests.{clock, timer, cooking}

abbrev knocks : Calls
knocks = (1, "peer") ∷ (2, "peer") ∷ (3, "peer") ∷ []

two_then_refused : answers knocks (new_limiter 2 60) ≡ logged_answers 2 60 knocks (λ key. [])
two_then_refused = answers-logged 2 60 knocks (omega arith, (omega arith, (omega arith, tt)))

two_at_most : recent 60 9 "peer" (accepted knocks (new_limiter 2 60) (λ key. [])) ≤ 2
two_at_most =
    accepted-bound 2 60 9 knocks "peer" (omega arith, (omega arith, (omega arith, omega arith)))

abbrev mixed : List (ℕ × Bool)
mixed = (1, true) ∷ (2, false) ∷ (3, false) ∷ (4, true) ∷ []

mixed_kept :
    let c = enqueue_all mixed (record { reading_queue = []; event_queue = [] }) in
    (c.event_queue ≡ newest 64 (of_kind true mixed))
    × (c.reading_queue ≡ newest 1 (of_kind false mixed))
mixed_kept = enqueue_all-keeps_newest mixed

-- Waiting after `n` failures.
abbrev waiting : ℕ → ConnectionStateMachine
waiting n = record {
  state = backoff;
  initial_backoff = 2000;
  max_backoff = 60000;
  consecutive_failures = n;
  backoff_seconds = 2000;
  had_successful_connection = false;
}

waiting-HasFailed : (n : ℕ) → HasFailed n (waiting n)
waiting-HasFailed n = record { waits = refl; failures = refl; no_success = refl }

fourth_failure : fail_attempt 7 (waiting 3) ≡ (
  ok tt,
  record (waiting 3) {
    consecutive_failures = suc 3;
    backoff_seconds = min (2000 * 2 ^ 3) 60000 + 7;
  },
)
fourth_failure = fail_attempt-backoff 3 7 (waiting 3) (waiting-HasFailed 3) (omega arith)

too_many_failures : fail_attempt 7 (waiting 1024) ≡ (
  err overflow_error,
  record (waiting 1024) { state = disconnected; consecutive_failures = suc 1024 },
)
too_many_failures =
    fail_attempt-overflow 1024 7 (waiting 1024) (waiting-HasFailed 1024) (omega arith)

a_minute_at_most :
    (transitions
      ((connecting, 0) ∷ (disconnected, 0) ∷ (backoff, 500) ∷ [])
      (new_machine 2000 60000)).backoff_seconds
    ≤ 60000 + 15000
a_minute_at_most =
    transitions-bound 2000 60000 15000 ((connecting, 0) ∷ (disconnected, 0) ∷ (backoff, 500) ∷ [])
      (omega arith) (omega arith, (omega arith, (omega arith, tt)))

gone_and_back :
    (is_device_in_session "d" (on_disconnected clock 9 "d" cooking) ≡ false)
    × (on_connected "d" (on_disconnected clock 9 "d" cooking) ≡ on_disconnected clock 9 "d" cooking)
gone_and_back = on_connected-on_disconnected clock 9 "d" cooking

first_found : Memᴰ (timer (pos 1) (some "Ti") 60) (find_expired_running_countdowns clock 5 cooking)
unfolding find_expired_running_countdowns parse_iso now_iso_utc
first_found = Memᴰ.head refl

first-IsStored : IsStored "s" "d" (pos 1) cooking
unfolding fetch_timer
first-IsStored = record {
  row = timer (pos 1) (some "Ti") 60;
  active = refl;
  found = refl;
  well_formed = record { exclusive = λ h. refl; terminal = λ h. cc };
}

first_completed : IsDone "s" "d" (pos 1) (tick clock 5 cooking).store
first_completed =
    tick-completes clock 5 cooking (timer (pos 1) (some "Ti") 60) first_found first-IsStored
