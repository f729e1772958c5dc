-- ===== src/Alerts.antt =====
-- AlertEvaluator of service/alerts/evaluator.py. The dictionaries are lists of entries with
-- distinct keys; time.monotonic() is a number of microseconds.
pub mod Evaluate
pub mod OneShot
pub mod Rearm
use igrill_remote_server.Prelude.{
  ℕ, ◌-◌, ◌*◌, ℤ, String, Bool, true, false, not, ◌&&◌, Option, none, some, List, [], ◌∷◌, ◌++◌,
  str_eq, eq_ℤ, leb, leb_ℤ, ltb_ℤ, pos_part, if◌then◌else◌, first_where, any_where, select_where,
  update_where, delete_where, default,
}
use igrill_remote_server.Prelude
use igrill_remote_server.Real.{Real}
use igrill_remote_server.Store.{Mode, fixed, range, TempUnit, celsius, fahrenheit}
use igrill_remote_server.Target.{TargetConfig, effective_target, effective_low}

-- One probe of a reading: `unplugged` is None where the data was too short.
pub record Probe (F : Type 0) : Type 0 where
  pub index : ℤ
  pub temperature : Option F
  pub raw : Option ℕ
  pub unplugged : Option Bool

pub record ProbeAlertState : Type 0 where
  pub approaching_sent : Bool
  pub approaching_high_sent : Bool
  pub reached_sent : Bool
  pub exceeded_sent : Bool
  pub last_reminder_ts : ℕ

abbrev pub fresh_state : ProbeAlertState
fresh_state = record {
  approaching_sent = false;
  approaching_high_sent = false;
  reached_sent = false;
  exceeded_sent = false;
  last_reminder_ts = 0;
}

-- The event types; `approaching_high` is target_approaching with the subtype "high".
pub data Alert : Type 0 where
  approaching approaching_high reached exceeded reminder : Alert

pub record AlertEvent (F : Type 0) : Type 0 where
  pub kind : Alert
  pub sensor_id : String
  pub session_id : String
  pub probe_index : ℤ
  pub current_temp : F
  pub target : TargetConfig F

pub record StateEntry : Type 0 where
  pub session_id : String
  pub probe_index : ℤ
  pub state : ProbeAlertState

pub record TargetEntry (F : Type 0) : Type 0 where
  pub session_id : String
  pub targets : List (TargetConfig F)

pub record Evaluator (F : Type 0) : Type 0 where
  pub states : List StateEntry
  pub targets : List (TargetEntry F)

abbrev pub state_key : String → ℤ → StateEntry → Bool
state_key sid idx e = str_eq e.session_id sid && eq_ℤ e.probe_index idx

abbrev pub target_key : {F : Type 0} → String → TargetEntry F → Bool
target_key sid e = str_eq e.session_id sid

-- `self._state.get(key)` and `self._state[key] = st`
unfoldable pub get_state : String → ℤ → List StateEntry → Option ProbeAlertState
get_state sid idx l = elim (first_where (state_key sid idx) l) [
  | none ↦ none
  | some e ↦ some e.state
]

unfoldable pub put_state : String → ℤ → ProbeAlertState → List StateEntry → List StateEntry
put_state sid idx st l =
    if any_where (state_key sid idx) l
    then update_where (state_key sid idx) (λ e. record e { state = st }) l
    else l ++ record { session_id = sid; probe_index = idx; state = st } ∷ []

-- What one temperature means for one target.
pub record Zone : Type 0 where
  pub is_approaching : Bool
  pub is_approaching_high : Bool
  pub is_reached : Bool
  pub is_exceeded : Bool

module _ {F : Type 0} (R : Real F) where
  open R use {of_ℕ, lt, le, sub, mul, div}

  unfoldable pub target_to_celsius : F → TempUnit → F
  target_to_celsius value fahrenheit = div (mul (sub value (of_ℕ 32)) (of_ℕ 5)) (of_ℕ 9)
  target_to_celsius value celsius = value

  unfoldable pub offset_to_celsius : F → TempUnit → F
  offset_to_celsius offset fahrenheit = div (mul offset (of_ℕ 5)) (of_ℕ 9)
  offset_to_celsius offset celsius = offset

  unfoldable pub fixed_zone : F → F → F → Zone
  fixed_zone temp target offset =
      let is_reached = le target temp in
      record {
        is_approaching = le (sub target offset) temp && not is_reached;
        is_approaching_high = false;
        is_reached = is_reached;
        is_exceeded = lt target temp;
      }

  unfoldable pub range_zone : F → F → F → F → Zone
  range_zone temp low high offset =
      let is_exceeded = lt high temp in
      record {
        is_approaching = le (sub low offset) temp && lt temp low;
        is_approaching_high = lt (sub high offset) temp && le temp high && not is_exceeded;
        is_reached = le low temp && le temp high;
        is_exceeded = is_exceeded;
      }

  -- `none` where the loop goes on to the next target.
  unfoldable pub zone : TargetConfig F → F → Option Zone
  zone t temp = elim (effective_target t) [
    | none ↦ none
    | some raw ↦
        let high = target_to_celsius raw t.unit in
        let offset = offset_to_celsius t.pre_alert_offset t.unit in
        elim t.mode [
          | fixed ↦ some (fixed_zone temp high offset)
          | range ↦ elim (effective_low t) [
            | none ↦ none
            | some low ↦ some (range_zone temp (target_to_celsius low t.unit) high offset)
          ]
        ]
  ]

-- The five tests at the end of the loop, each with what it has appended so far.
abbrev pub is_range : Mode → Bool
is_range fixed = false
is_range range = true

abbrev Fired : Type 0
Fired = List Alert × ProbeAlertState

unfoldable pub fire_approaching : Zone → Fired → Fired
fire_approaching z (out, st) =
    if z.is_approaching && not st.approaching_sent
    then (out ++ approaching ∷ [], record st { approaching_sent = true })
    else (out, st)

unfoldable pub fire_approaching_high : Mode → Zone → Fired → Fired
fire_approaching_high mode z (out, st) =
    if is_range mode && z.is_approaching_high && not st.approaching_high_sent
    then (out ++ approaching_high ∷ [], record st { approaching_high_sent = true })
    else (out, st)

unfoldable pub fire_reached : Zone → Fired → Fired
fire_reached z (out, st) =
    if z.is_reached && not st.reached_sent
    then (out ++ reached ∷ [], record st { reached_sent = true; approaching_sent = true })
    else (out, st)

unfoldable pub fire_exceeded : ℕ → Zone → Fired → Fired
fire_exceeded now z (out, st) =
    if z.is_exceeded && not st.exceeded_sent
    then (
      out ++ exceeded ∷ [],
      record st {
        exceeded_sent = true;
        reached_sent = true;
        approaching_sent = true;
        last_reminder_ts = now;
      },
    )
    else (out, st)

unfoldable pub fire_reminder : ℕ → ℤ → Zone → Fired → Fired
fire_reminder now interval z (out, st) =
    if z.is_exceeded
      && ltb_ℤ (Prelude.pos 0) interval
      && st.exceeded_sent
      && leb (pos_part interval * 1000000) (now - st.last_reminder_ts)
    then (out ++ reminder ∷ [], record st { last_reminder_ts = now })
    else (out, st)

unfoldable pub fire : ℕ → Mode → ℤ → Zone → ProbeAlertState → Fired
unfolding fire_approaching fire_approaching_high fire_reached fire_exceeded fire_reminder
fire now mode interval z st = fire_reminder now interval z (
    fire_exceeded now z
      (fire_reached z (fire_approaching_high mode z (fire_approaching z ([], st)))))
