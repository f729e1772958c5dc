-- ===== src/Store/Timers/Elapsed.antt =====
-- The seconds that a timer shows, across pauses and resumptions.
use igrill_remote_server.Prelude.{ℕ, ◌-◌, ◌/◌, ◌≤◌, ◌≡◌, ◌≢◌, refl, some, arith, if◌then◌else◌}
use igrill_remote_server.Clock.{Iso, now_iso_utc, parse_iso-now_iso_utc}
use igrill_remote_server.Store.{Timer}
use igrill_remote_server.Store.Timers.{
  is_running, elapsed_secs, set_running, set_paused, set_stopped, set_completed, set_terminal,
}
use igrill_remote_server.Store.Timers.Phase.{
  TimerOp, start, pause, resume, reset, complete, IsTimer, row_after, total_secs,
}

-- What clients show for a row at the instant `now`.
abbrev pub shown_secs : Iso → ℕ → Timer → ℕ
shown_secs I now row = if is_running row then total_secs I now row else row.accumulated_secs

pub elapsed_secs-now :
    (I : Iso) (now t : ℕ)
    → elapsed_secs I (now_iso_utc I now) (some (now_iso_utc I t)) ≡ (now - t) / 1000000
unfolding elapsed_secs
elapsed_secs-now I now t = ground (arith, parse_iso-now_iso_utc I now, parse_iso-now_iso_utc I t)

-- Starting, pausing, resuming and completing a well-formed timer changes none of the seconds
-- that it shows at that instant.
pub row_after-shown :
    (I : Iso) (now : ℕ) (op : TimerOp) (row : Timer)
    → IsTimer row
    → op ≢ reset
    → shown_secs I now (row_after I now op row) ≡ shown_secs I now row
unfolding row_after set_running set_paused set_stopped set_completed set_terminal
row_after-shown I now start row v h = ground (arith, elapsed_secs-now I now now)
row_after-shown I now pause row v h = ground arith
row_after-shown I now resume row v h = ground (arith, elapsed_secs-now I now now)
row_after-shown I now reset row v h = absurd (h refl)
row_after-shown I now complete row v h = ground arith

-- Time alone takes nothing away.
pub shown_secs_mono :
    (I : Iso) (now later : ℕ) (row : Timer)
    → now ≤ later
    → shown_secs I now row ≤ shown_secs I later row
unfolding elapsed_secs
shown_secs_mono I now later row h =
    ground (arith, parse_iso-now_iso_utc I now, parse_iso-now_iso_utc I later)
