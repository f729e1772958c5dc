-- ===== src/Reading.antt =====
-- parse_temperature_probe of service/models/reading.py. A byte is a number below 256, so `|` of the
-- low byte and the shifted high byte is their sum.
use igrill_remote_server.Prelude.{
  ℕ, ◌+◌, ◌*◌, ◌≤◌, ◌<◌, ℤ, ◌≡◌, ◌≢◌, ◌⊎◌, true, false, ◌==◌, none, some, List, ◌∷◌, arith,
  if◌then◌else◌, Bool-cases, inl, inr,
}
use igrill_remote_server.Real.{Real}
use igrill_remote_server.Alerts.{Probe}

abbrev pub unplugged_probe_constant : ℕ
unplugged_probe_constant = 63536

module _ {F : Type 0} (R : Real F) where
  -- The result for data of two bytes or more.
  unfoldable pub probe_of : ℤ → ℕ → Probe F
  probe_of index raw = record {
    index = index;
    temperature = if raw == unplugged_probe_constant then none else some (R.of_ℕ raw);
    raw = some raw;
    unplugged = some (raw == unplugged_probe_constant);
  }

  unfoldable pub parse_temperature_probe : ℤ → List ℕ → Probe F
  parse_temperature_probe index (lo ∷ hi ∷ _) = probe_of index (lo + hi * 256)
  parse_temperature_probe index _ = record {
    index = index;
    temperature = none;
    raw = none;
    unplugged = none;
  }

  -- Two bytes are read as unplugged where they are 0x30 0xF8, and only then; any other two give the
  -- temperature of their number, which is at most 65535.
  pub parse_temperature_probe-cases :
      (index : ℤ) (lo hi : ℕ) (rest : List ℕ)
      → lo < 256
      → hi < 256
      → let p = parse_temperature_probe index (lo ∷ hi ∷ rest) in
        ((lo ≡ 48) × (hi ≡ 248) × (p.unplugged ≡ some true) × (p.temperature ≡ none))
        ⊎ (((lo ≢ 48) ⊎ (hi ≢ 248))
            × (p.unplugged ≡ some false)
            × (p.temperature ≡ some (R.of_ℕ (lo + hi * 256)))
            × (lo + hi * 256 ≤ 65535))
  unfolding parse_temperature_probe probe_of
  parse_temperature_probe-cases index lo hi rest h k =
      elim (Bool-cases (lo + hi * 256 == unplugged_probe_constant)) [
        | inl e ↦ inl (ground arith, ground arith, ground arith, ground arith)
        | inr e ↦ inr (other e, ground arith, ground arith, ground arith)
      ]
    where
      other : (lo + hi * 256 == unplugged_probe_constant) ≡ false → (lo ≢ 48) ⊎ (hi ≢ 248)
      other e = elim (Bool-cases (lo == 48)) [
        | inl f ↦ inr (λ g. ground arith)
        | inr f ↦ inl (λ g. ground arith)
      ]
