-- ===== src/Target.antt =====
-- TargetConfig of service/models/session.py.
pub mod Wire
use igrill_remote_server.Prelude.{ℤ, String, Option, none}
use igrill_remote_server.Store.{Mode, fixed, range, TempUnit}

pub record TargetConfig (F : Type 0) : Type 0 where
  pub probe_index : ℤ
  pub mode : Mode
  pub target_value : Option F
  pub range_low : Option F
  pub range_high : Option F
  pub pre_alert_offset : F
  pub reminder_interval_secs : ℤ
  pub label : Option String
  pub unit : TempUnit

module _ {F : Type 0} where
  abbrev target_at : Mode → TargetConfig F → Option F
  target_at fixed t = t.target_value
  target_at range t = t.range_high

  abbrev low_at : Mode → TargetConfig F → Option F
  low_at fixed t = none
  low_at range t = t.range_low

  unfoldable pub effective_target : TargetConfig F → Option F
  effective_target t = target_at t.mode t

  unfoldable pub effective_low : TargetConfig F → Option F
  effective_low t = low_at t.mode t
