-- ===== src/Connection/Backoff.antt =====
-- The delays before a reconnect (service/ble/connection_state.py).
use igrill_remote_server.Prelude.{
  ℕ, suc, ◌+◌, ◌-◌, ◌*◌, ◌^◌, ◌≤◌, min, ◌≡◌, refl, inl, inr, true, false, List, [], ◌∷◌, arith, leb,
  Bool-cases,
}
use igrill_remote_server.Action.{Action, ok, err, ◌>>◌, ◌>>=◌, overflow_error}
use igrill_remote_server.Connection.{
  ConnectionState, discovered, connecting, authenticating, polling, disconnected, backoff,
  ConnectionStateMachine, new_machine, same_state, failures_after, capped_backoff, enter_backoff,
  enter, transition,
}

-- An attempt that fails: CONNECTING, DISCONNECTED, BACKOFF, as the worker goes through them.
unfoldable pub fail_attempt : ℕ → Action ConnectionStateMachine (Unit {0})
fail_attempt jitter =
    transition connecting jitter >> transition disconnected jitter >> transition backoff jitter

-- The machine waits, and has failed `n` times since the last success.
pub record HasFailed (n : ℕ) (m : ConnectionStateMachine) : Type 0 where
  pub waits : m.state ≡ backoff
  pub failures : m.consecutive_failures ≡ n
  pub no_success : m.had_successful_connection ≡ false

module _ (n jitter : ℕ) (m : ConnectionStateMachine) (v : HasFailed n m) where
  connects : transition connecting jitter m ≡ (ok tt, record m { state = connecting })
  unfolding transition enter
  connects = rw v.waits refl

  -- The third step of the attempt.
  entering : fail_attempt jitter m ≡ enter_backoff jitter (record m { state = disconnected })
  unfolding fail_attempt transition enter
  entering = simp (connects, ◌>>=◌) refl

  failures_next : failures_after (record m { state = disconnected }) ≡ suc n
  unfolding failures_after
  failures_next = ground (arith, v.no_success, v.failures)

  -- A further attempt that fails waits for the initial delay doubled `n` times, at most the maximum,
  -- and the jitter.
  pub fail_attempt-backoff :
      n ≤ 1024 - 1
      → fail_attempt jitter m ≡ (
        ok tt,
        record m {
          consecutive_failures = suc n;
          backoff_seconds = min (m.initial_backoff * 2 ^ n) m.max_backoff + jitter;
        },
      )
  unfolding enter_backoff capped_backoff
  fail_attempt-backoff h =
      rw (entering, failures_next, index, below) (rw (v.waits, v.no_success) refl)
    where
      index : suc n - 1 ≡ n
      index = omega arith

      below : leb 1024 n ≡ false
      below = ground arith

  -- After 1024 failures in a row the next attempt raises OverflowError, and the machine is left in
  -- DISCONNECTED.
  pub fail_attempt-overflow :
      1024 ≤ n
      → fail_attempt jitter m
        ≡ (err overflow_error, record m { state = disconnected; consecutive_failures = suc n })
  unfolding enter_backoff
  fail_attempt-overflow h = rw (entering, failures_next, index, above) (rw v.no_success refl)
    where
      index : suc n - 1 ≡ n
      index = omega arith

      above : leb 1024 n ≡ true
      above = ground arith

-- The machine after transitions, each with the jitter that it would draw.
unfoldable pub transitions :
    List (ConnectionState × ℕ) → ConnectionStateMachine → ConnectionStateMachine
transitions [] m = m
transitions ((new_state, jitter) ∷ rest) m = transitions rest (transition new_state jitter m).1

abbrev pub JitterAtMost : ℕ → List (ConnectionState × ℕ) → Type 0
JitterAtMost j [] = Unit
JitterAtMost j ((new_state, jitter) ∷ rest) = (jitter ≤ j) × JitterAtMost j rest

pub record IsBounded (limit : ℕ) (j : ℕ) (m : ConnectionStateMachine) : Type 0 where
  pub maximum : m.max_backoff ≡ limit
  pub delay : m.backoff_seconds ≤ limit + j

module _ (limit j jitter : ℕ) (m : ConnectionStateMachine) (h : jitter ≤ j)
    (v : IsBounded limit j m) where
  capped-le : capped_backoff m.initial_backoff m.max_backoff (failures_after m) + jitter ≤ limit + j
  unfolding capped_backoff
  capped-le = omega (arith, v.maximum, h)

  enter-IsBounded : (new_state : ConnectionState) → IsBounded limit j (enter new_state jitter m).1
  unfolding enter enter_backoff
  enter-IsBounded discovered = record { maximum = v.maximum; delay = v.delay }
  enter-IsBounded connecting = record { maximum = v.maximum; delay = v.delay }
  enter-IsBounded authenticating = record { maximum = v.maximum; delay = v.delay }
  enter-IsBounded polling = record { maximum = v.maximum; delay = v.delay }
  enter-IsBounded disconnected = record { maximum = v.maximum; delay = v.delay }
  enter-IsBounded backoff = elim (Bool-cases (leb 1024 (failures_after m - 1))) [
    | inl e ↦ rw e (record { maximum = v.maximum; delay = v.delay })
    | inr e ↦ rw e (record { maximum = v.maximum; delay = capped-le })
  ]

  transition-IsBounded :
      (new_state : ConnectionState) → IsBounded limit j (transition new_state jitter m).1
  unfolding transition
  transition-IsBounded new_state = elim (Bool-cases (same_state new_state m.state)) [
    | inl e ↦ rw e v
    | inr e ↦ rw e (enter-IsBounded new_state)
  ]

transitions-IsBounded :
    (limit j : ℕ) (steps : List (ConnectionState × ℕ)) (m : ConnectionStateMachine)
    → JitterAtMost j steps
    → IsBounded limit j m
    → IsBounded limit j (transitions steps m)
unfolding transitions
transitions-IsBounded limit j [] m h v = v
transitions-IsBounded limit j ((new_state, jitter) ∷ rest) m h v =
    transitions-IsBounded limit j rest (transition new_state jitter m).1 h.1
      (transition-IsBounded limit j jitter m h.0 v new_state)

-- Whatever the transitions of a new machine, those that raise included, its delay is at most the
-- maximum and the largest jitter, where the initial delay is at most the maximum.
pub transitions-bound :
    (initial_backoff max_backoff j : ℕ) (steps : List (ConnectionState × ℕ))
    → initial_backoff ≤ max_backoff
    → JitterAtMost j steps
    → (transitions steps (new_machine initial_backoff max_backoff)).backoff_seconds
      ≤ max_backoff + j
unfolding new_machine
transitions-bound initial_backoff max_backoff j steps h k =
    (transitions-IsBounded max_backoff j steps (new_machine initial_backoff max_backoff) k
      (record { maximum = refl; delay = omega (arith, h) })).delay
