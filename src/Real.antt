-- ===== src/Real.antt =====
-- Python's float as an interface: a type with the operations that the program uses on
-- temperatures.
use igrill_remote_server.Prelude.{ℕ, Bool, Option}

pub record Real (F : Type 0) : Type 0 where
  pub of_ℕ : ℕ → F
  pub lt : F → F → Bool
  pub le : F → F → Bool
  pub sub : F → F → F
  pub mul : F → F → F
  pub div : F → F → F
  -- What a REAL column holds after it was bound: `none` is the NULL that SQLite stores for a NaN.
  pub stored : F → Option F
