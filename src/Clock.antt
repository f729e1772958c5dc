-- ===== src/Clock.antt =====
-- Timestamps: now_iso_utc and parse_iso of service/history/store.py over the parts of Python's
-- datetime that they call. An instant is a number of microseconds since a fixed day before year 1.
use igrill_remote_server.Prelude.{
  ℕ, ◌-◌, ◌/◌, ◌≡◌, String, Option, none, some, ℤ, arith, leb, if◌then◌else◌,
}
use igrill_remote_server.Prelude

-- A parsed datetime, with a timezone or without one.
pub data Datetime : Type 0 where
  aware naive : ℕ → Datetime

-- datetime.isoformat of an aware UTC datetime, and datetime.fromisoformat, where `none` is the
-- ValueError. The law is the documented inverse.
pub record Iso : Type 0 where
  pub isoformat : ℕ → String
  pub fromisoformat : String → Option Datetime
  pub round_trip : (t : ℕ) → fromisoformat (isoformat t) ≡ some (aware t)

-- `now_iso_utc()` at the instant `now` of the system clock.
unfoldable pub now_iso_utc : Iso → ℕ → String
now_iso_utc I now = I.isoformat now

-- `dt.replace(tzinfo=timezone.utc)` on a naive datetime keeps its reading.
abbrev to_utc : Datetime → ℕ
to_utc (aware t) = t
to_utc (naive t) = t

unfoldable pub parse_iso : Iso → String → Option ℕ
parse_iso I timestamp = elim (I.fromisoformat timestamp) [
  | none ↦ none
  | some dt ↦ some (to_utc dt)
]

-- `int((a - b).total_seconds())`: whole seconds, cut off towards 0.
unfoldable pub whole_seconds : ℕ → ℕ → ℤ
whole_seconds a b =
    if leb b a then Prelude.pos ((a - b) / 1000000) else Prelude.sub_ℕ 0 ((b - a) / 1000000)

-- What the store writes it reads back.
pub parse_iso-now_iso_utc : (I : Iso) (t : ℕ) → parse_iso I (now_iso_utc I t) ≡ some t
unfolding parse_iso now_iso_utc
parse_iso-now_iso_utc I t = ground (arith, I.round_trip t)
