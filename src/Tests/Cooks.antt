-- ===== src/Tests/Cooks.antt =====
-- The alerts' theorems at concrete readings, with temperatures in whole degrees.
use igrill_remote_server.Prelude.{
  fits_integer-pos, Memᴰ, delete_where, ◌++◌, ◌⊎◌, arith, ℕ, ◌+◌, ◌-◌, ◌*◌, ◌/◌, ◌≤◌, ◌≡◌, ◌≢◌,
  refl, String, Bool, true, false, Option, none, some, List, [], ◌∷◌, ltb, leb,
}
use igrill_remote_server.Prelude
use igrill_remote_server.Real.{Real}
use igrill_remote_server.Store.{fixed, celsius}
use igrill_remote_server.Target.{TargetConfig}
use igrill_remote_server.Alerts.{Evaluator, reached}
use igrill_remote_server.Action.{ok, err, integrity_error}
use igrill_remote_server.Target.{effective_target}
use igrill_remote_server.Alerts.{fresh_state, get_state, target_to_celsius}
use igrill_remote_server.Alerts.Evaluate.{set_targets, last_target, targets_of}
use igrill_remote_server.Alerts.Rearm.{set_targets-raised, set_targets-kept}
use igrill_remote_server.Store.Targets.{
  is_bound, update_targets, get_targets_by_device, with_targets, target_of, target_row,
}
use igrill_remote_server.Store.Targets.RoundTrip.{
  get_targets_by_device-update_targets, update_targets-repeated,
}
use igrill_remote_server.Reading.{parse_temperature_probe, parse_temperature_probe-cases}
use igrill_remote_server.Tests.{cooking}
use igrill_remote_server.Alerts.OneShot.{Poll, times, flag, run_polls, run_polls-once}

abbrev pub degrees : Real ℕ
degrees = record {
  of_ℕ = λ n. n;
  lt = ltb;
  le = leb;
  sub = λ a b. a - b;
  mul = λ a b. a * b;
  div = λ a b. a / b;
  stored = λ a. some a;
}

abbrev pub steak : ℕ → TargetConfig ℕ
steak value = record {
  probe_index = Prelude.pos 1;
  mode = fixed;
  target_value = some value;
  range_low = none;
  range_high = none;
  pre_alert_offset = 5;
  reminder_interval_secs = Prelude.pos 0;
  label = none;
  unit = celsius;
}

abbrev pub cook : Evaluator ℕ
cook = record { states = []; targets = record { session_id = "s"; targets = steak 60 ∷ [] } ∷ [] }

abbrev poll : ℕ → ℕ → Poll ℕ
poll now temp = record {
  now = now;
  session_id = "s";
  probes =
      record {
        index = Prelude.pos 1;
        temperature = some temp;
        raw = some temp;
        unplugged = some false;
      }
      ∷ [];
  sensor_id = "d";
}

abbrev evening : List (Poll ℕ)
evening = poll 1 50 ∷ poll 2 57 ∷ poll 3 61 ∷ poll 4 58 ∷ poll 5 62 ∷ []

reached_once :
    times reached "s" (Prelude.pos 1) (run_polls degrees evening cook).0
      + flag reached "s" (Prelude.pos 1) []
    ≤ 1
reached_once = run_polls-once degrees reached "s" (Prelude.pos 1) evening cook (λ e. cc)

-- The target goes up from 60 to 65 degrees while the probe has passed 60.
abbrev served : Evaluator ℕ
served = record cook {
  states =
      record {
        session_id = "s";
        probe_index = Prelude.pos 1;
        state = record fresh_state { reached_sent = true };
      }
      ∷ [];
}

raised_starts_again :
    get_state "s" (Prelude.pos 1) (set_targets degrees "s" (steak 65 ∷ []) served).states
    ≡ some fresh_state
raised_starts_again =
    set_targets-raised degrees "s" (steak 65 ∷ []) served (steak 60) (steak 65)
      (unfold last_target targets_of in refl)
      (record {
        old_eff = 60;
        new_eff = 65;
        old_at = unfold effective_target in refl;
        new_at = unfold effective_target in refl;
        above = unfold target_to_celsius in refl;
      })
      (Memᴰ.head refl)

lowered_keeps :
    get_state "s" (Prelude.pos 1) (set_targets degrees "s" (steak 55 ∷ []) served).states
    ≡ some (record fresh_state { reached_sent = true })
lowered_keeps =
    set_targets-kept degrees "s" (steak 55 ∷ []) served (steak 60) (Prelude.pos 1)
      (record fresh_state { reached_sent = true }) (unfold last_target targets_of in refl) refl
      (
        (λ i. record {
          old_eff = 60;
          new_eff = 55;
          old_at = unfold effective_target in refl;
          new_at = unfold effective_target in refl;
          below = unfold target_to_celsius in refl;
        }),
        tt,
      )
      (unfold get_state in refl)

-- Targets in the database.
steak-is_bound : (value : ℕ) → is_bound (steak value) ≡ true
unfolding is_bound
steak-is_bound value = rw (fits_integer-pos 1 refl, fits_integer-pos 0 refl) refl

two_targets_read :
    ((update_targets degrees "s" "d" (steak 60 ∷ []) cooking).0 ≡ ok tt)
    × (get_targets_by_device degrees "s"
          (update_targets degrees "s" "d" (steak 60 ∷ []) cooking).1
          "d"
        ≡ steak 60 ∷ [])
two_targets_read =
    get_targets_by_device-update_targets degrees "s" "d" (steak 60 ∷ []) cooking refl (tt, tt)
      ((steak-is_bound 60, refl, refl, refl, refl), tt)

repeated_probe : update_targets degrees "s" "d" (steak 60 ∷ steak 65 ∷ []) cooking ≡ (
  err integrity_error,
  with_targets cooking (
      delete_where (target_of "s" "d") cooking.session_targets
      ++ target_row degrees "s" "d" (steak 60) ∷ []),
)
repeated_probe =
    update_targets-repeated degrees "s" "d" (steak 60) (steak 65) cooking refl refl
      (steak-is_bound 60) (steak-is_bound 65)

abbrev low : ℕ
low = 48

abbrev high : ℕ
high = 248

unplugged_bytes :
    let p = parse_temperature_probe degrees (Prelude.pos 1) (low ∷ high ∷ []) in
    ((low ≡ 48) × (high ≡ 248) × (p.unplugged ≡ some true) × (p.temperature ≡ none))
    ⊎ (((low ≢ 48) ⊎ (high ≢ 248))
        × (p.unplugged ≡ some false)
        × (p.temperature ≡ some (low + high * 256))
        × (low + high * 256 ≤ 65535))
unplugged_bytes =
    parse_temperature_probe-cases degrees (Prelude.pos 1) low high [] (omega arith) (omega arith)
