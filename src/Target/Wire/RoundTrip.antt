-- ===== src/Target/Wire/RoundTrip.antt =====
-- A target written as a dictionary and read again (service/models/session.py).
use igrill_remote_server.Prelude.{
  pos, ◌≡◌, refl, true, false, Option, none, some, leb_ℤ, ltb_ℤ, String,
}
use igrill_remote_server.Action.{ok}
use igrill_remote_server.Real.{Real}
use igrill_remote_server.Store.{Mode, fixed, range, TempUnit, celsius, fahrenheit}
use igrill_remote_server.Json.{
  float, text, Python, to_float, to_int, to_text, get_field, find_field, as_object,
}
use igrill_remote_server.Target.{TargetConfig}
use igrill_remote_server.Target.Wire.{
  mode_of, unit_of, mode_text, unit_text, or_null, to_dict, opt_float, label_of, probe_index_of,
  offset_of, interval_of, from_dict, from_fields, required,
}

module _ (F : Type 0) where
  mode-text : (m : Mode) → mode_of {F = F} (text (mode_text m)) ≡ ok m
  unfolding mode_of
  mode-text fixed = refl
  mode-text range = refl

  unit-text : (u : TempUnit) → unit_of {F = F} (text (unit_text u)) ≡ ok u
  unfolding unit_of
  unit-text celsius = refl
  unit-text fahrenheit = refl

module _ {F : Type 0} (P : Python F) where
  opt_float-float : (x : Option F) → opt_float P (or_null float x) ≡ ok x
  unfolding opt_float to_float
  opt_float-float none = refl
  opt_float-float (some x) = refl

  label-text : (l : Option String) → label_of P (or_null text l) ≡ l
  unfolding label_of to_text
  label-text none = refl
  label-text (some s) = refl

-- What `from_dict` asks of a target.
pub record IsAccepted {F : Type 0} (R : Real F) (t : TargetConfig F) : Type 0 where
  pub probe_low : leb_ℤ (pos 1) t.probe_index ≡ true
  pub probe_high : leb_ℤ t.probe_index (pos 4) ≡ true
  pub offset_sign : R.lt t.pre_alert_offset (R.of_ℕ 0) ≡ false
  pub interval_sign : ltb_ℤ t.reminder_interval_secs (pos 0) ≡ false

module _ {F : Type 0} (R : Real F) (P : Python F) where
  -- A target whose probe is 1 to 4, and whose offset and interval are not negative, is read back as
  -- it was written.
  pub from_dict-to_dict : (t : TargetConfig F) → IsAccepted R t → from_dict R P (to_dict t) ≡ ok t
  unfolding from_dict to_dict as_object from_fields get_field find_field probe_index_of offset_of
      interval_of required to_int to_float
  from_dict-to_dict t v =
      simp
        (
          mode-text F t.mode,
          unit-text F t.unit,
          opt_float-float P t.target_value,
          opt_float-float P t.range_low,
          opt_float-float P t.range_high,
          label-text P t.label,
          v.probe_low,
          v.probe_high,
          v.offset_sign,
          v.interval_sign,
        )
        refl
