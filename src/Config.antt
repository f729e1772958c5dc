-- ===== src/Config.antt =====
-- The integers of the environment (service/config.py). `parse` is Python's int() on a text, `none`
-- where it raises ValueError.
use igrill_remote_server.Prelude.{
  String, ℤ, ◌≤ℤ◌, ltb_ℤ, Option, none, some, arith, is_truthy, if◌then◌else◌,
}

abbrev pub clamp_min : Option ℤ → ℤ → ℤ
clamp_min none value = value
clamp_min (some min_value) value = if ltb_ℤ value min_value then min_value else value

abbrev pub clamp_max : Option ℤ → ℤ → ℤ
clamp_max none value = value
clamp_max (some max_value) value = if ltb_ℤ max_value value then max_value else value

-- `raw` is `os.getenv(name, "")`.
unfoldable pub read_int_env : (String → Option ℤ) → String → ℤ → Option ℤ → Option ℤ → ℤ
read_int_env parse raw default_value min_value max_value =
    if is_truthy raw
    then elim (parse raw) [
      | none ↦ default_value
      | some value ↦ clamp_max max_value (clamp_min min_value value)
    ]
    else default_value

-- Between the two bounds, where they are given.
abbrev pub Above : Option ℤ → ℤ → Type 0
Above none value = Unit
Above (some lo) value = lo ≤ℤ value

abbrev pub Below : Option ℤ → ℤ → Type 0
Below none value = Unit
Below (some hi) value = value ≤ℤ hi

-- Whatever the environment holds, a value is within its bounds where the default is.
pub read_int_env-bounds :
    (parse : String → Option ℤ) (raw : String) (d : ℤ) (lo hi : Option ℤ)
    → Above lo d
    → Below hi d
    → Above lo (read_int_env parse raw d lo hi) × Below hi (read_int_env parse raw d lo hi)
unfolding read_int_env
read_int_env-bounds parse raw d none none h k = (tt, tt)
read_int_env-bounds parse raw d none (some hi) h k = (tt, ground arith)
read_int_env-bounds parse raw d (some lo) none h k = (ground arith, tt)
read_int_env-bounds parse raw d (some lo) (some hi) h k = (ground arith, ground arith)
