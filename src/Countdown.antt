-- ===== src/Countdown.antt =====
-- CountdownCompleter.tick of service/timers.py. A publication on the event queue does not raise.
pub mod Completes
use igrill_remote_server.Prelude.{ℕ, ◌+◌, ℤ, String, List, [], ◌∷◌, ◌++◌}
use igrill_remote_server.Action.{Result, ok, err}
use igrill_remote_server.Clock.{Iso}
use igrill_remote_server.Store.{Store, Timer}
use igrill_remote_server.Store.Timers.{complete_timer, find_expired_running_countdowns}

-- The two events that follow a completion.
pub data TimerEvent : Type 0 where
  probe_timer_update : Timer → TimerEvent
  timer_complete : String → String → ℤ → TimerEvent

pub record Tick (T : Type 0) : Type 0 where
  pub events : List TimerEvent
  pub completed_count : ℕ
  pub store : Store T

module _ {T : Type 0} where
  -- What follows `complete_timer` in the body of the loop; an exception goes on to the next row.
  unfoldable pub after_complete : Timer → List TimerEvent → ℕ → Result Timer × Store T → Tick T
  after_complete row events n (ok completed_row, s) = record {
    events =
        events
        ++ probe_timer_update completed_row
          ∷ timer_complete row.address row.session_id row.probe_index
          ∷ [];
    completed_count = n + 1;
    store = s;
  }
  after_complete row events n (err e, s) = record {
    events = events;
    completed_count = n;
    store = s;
  }

  unfoldable pub complete_row : Iso → ℕ → Timer → Tick T → Tick T
  complete_row I now row t =
      after_complete row t.events t.completed_count
        (complete_timer I now row.session_id row.address row.probe_index t.store)

  unfoldable pub complete_rows : Iso → ℕ → List Timer → Tick T → Tick T
  complete_rows I now [] t = t
  complete_rows I now (row ∷ rows) t = complete_rows I now rows (complete_row I now row t)

  unfoldable pub tick : Iso → ℕ → Store T → Tick T
  tick I now s =
      complete_rows I now (find_expired_running_countdowns I now s)
        (record { events = []; completed_count = 0; store = s })
