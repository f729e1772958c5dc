-- ===== src/Target/Wire.antt =====
-- TargetConfig.from_dict and TargetConfig.to_dict of service/models/session.py.
pub mod RoundTrip
use igrill_remote_server.Prelude.{
  ℕ, ℤ, pos, String, Bool, true, false, not, ◌&&◌, ◌||◌, Option, none, some, List, [], ◌∷◌, str_eq,
  leb_ℤ, ltb_ℤ, if◌then◌else◌,
}
use igrill_remote_server.Action.{Result, ok, err, ◌then_try◌, key_error, value_error}
use igrill_remote_server.Real.{Real}
use igrill_remote_server.Store.{Mode, fixed, range, TempUnit, celsius, fahrenheit}
use igrill_remote_server.Json.{
  Json, null, int, float, text, object, Fields, end, field, Python, find_field, get_field,
  as_object, is_null, to_int, to_float, to_text,
}
use igrill_remote_server.Target.{TargetConfig}

abbrev pub mode_text : Mode → String
mode_text fixed = "fixed"
mode_text range = "range"

abbrev pub unit_text : TempUnit → String
unit_text celsius = "C"
unit_text fahrenheit = "F"

module _ {F : Type 0} where
  -- `str(value)` is "fixed" or "range" for those texts only.
  unfoldable pub mode_of : Json F → Result Mode
  mode_of (text s) =
      if str_eq s "fixed" then ok fixed else if str_eq s "range" then ok range else err value_error
  mode_of v = err value_error

  -- `str(raw_unit).upper()`, where null stands for "C".
  unfoldable pub unit_of : Json F → Result TempUnit
  unit_of null = ok celsius
  unit_of (text s) =
      if str_eq s "C" || str_eq s "c"
      then ok celsius
      else if str_eq s "F" || str_eq s "f"
      then ok fahrenheit
      else err value_error
  unit_of v = err value_error

  -- `data["probe_index"]`
  unfoldable pub required : String → Fields F → Result (Json F)
  required key fields = elim (find_field key fields) [ none ↦ err key_error | some v ↦ ok v ]

  abbrev pub or_null {ℓ} : {A : Type ℓ} → (A → Json F) → Option A → Json F
  or_null f none = null
  or_null f (some a) = f a

  unfoldable pub to_dict : TargetConfig F → Json F
  to_dict t = object (
      field "probe_index" (int t.probe_index) (
        field "mode" (text (mode_text t.mode)) (
          field "target_value" (or_null float t.target_value) (
            field "range_low" (or_null float t.range_low) (
              field "range_high" (or_null float t.range_high) (
                field "pre_alert_offset" (float t.pre_alert_offset) (
                  field "reminder_interval_secs" (int t.reminder_interval_secs) (
                    field "label" (or_null text t.label)
                      (field "unit" (text (unit_text t.unit)) end)))))))))

abbrev pub guarded {ℓ} : {A : Type ℓ} → Bool → A → Result A
guarded true a = ok a
guarded false a = err value_error

module _ {F : Type 0} (P : Python F) where
  -- `_opt_float`
  unfoldable pub opt_float : Json F → Result (Option F)
  opt_float v = if is_null v then ok none else to_float P v then_try λ x. ok (some x)

  unfoldable pub label_of : Json F → Option String
  label_of v = if is_null v then none else some (to_text P v)

  unfoldable pub probe_index_of : Fields F → Result ℤ
  unfolding required
  probe_index_of fields = required "probe_index" fields then_try to_int P then_try λ n.
      guarded (leb_ℤ (pos 1) n && leb_ℤ n (pos 4)) n

  unfoldable pub interval_of : Fields F → Result ℤ
  interval_of fields =
      to_int P (get_field "reminder_interval_secs" (int (pos 0)) fields) then_try λ n.
      guarded (not (ltb_ℤ n (pos 0))) n

module _ {F : Type 0} (R : Real F) (P : Python F) where
  unfoldable pub offset_of : Fields F → Result F
  offset_of fields =
      to_float P (get_field "pre_alert_offset" (float (R.of_ℕ 5)) fields) then_try λ x.
      guarded (not (R.lt x (R.of_ℕ 0))) x

  unfoldable pub from_fields : Fields F → Result (TargetConfig F)
  from_fields fields = mode_of (get_field "mode" (text "fixed") fields) then_try λ mode.
      probe_index_of P fields then_try λ probe_index. offset_of fields then_try λ offset.
      interval_of P fields then_try λ interval.
      unit_of (get_field "unit" (text "C") fields) then_try λ unit.
      opt_float P (get_field "target_value" null fields) then_try λ target_value.
      opt_float P (get_field "range_low" null fields) then_try λ range_low.
      opt_float P (get_field "range_high" null fields) then_try λ range_high. ok (record {
        probe_index = probe_index;
        mode = mode;
        target_value = target_value;
        range_low = range_low;
        range_high = range_high;
        pre_alert_offset = offset;
        reminder_interval_secs = interval;
        label = label_of P (get_field "label" null fields);
        unit = unit;
      })

  unfoldable pub from_dict : Json F → Result (TargetConfig F)
  from_dict v = as_object v then_try from_fields

  -- The loop of the handlers over a value that should be a list of targets.
  unfoldable pub targets_from : List (Json F) → Result (List (TargetConfig F))
  targets_from [] = ok []
  targets_from (v ∷ rest) =
      from_dict v then_try λ t. elim (targets_from rest) [ ok ts ↦ ok (t ∷ ts) | err e ↦ err e ]
