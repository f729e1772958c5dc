-- ===== src/Tests/Histories.antt =====
-- The store's theorems at concrete stores.
use igrill_remote_server.Prelude.{
  ℕ, ◌≤◌, arith, ◌≡◌, ◌≢◌, refl, ◌⊎◌, inl, inr, ◌↔◌, String, true, false, Option, none, some, List,
  [], ◌∷◌, All, Memᴰ, first_where, any_where, str_eq,
}
use igrill_remote_server.Prelude
use igrill_remote_server.Action.{ok, err, database_error}
use igrill_remote_server.Clock.{now_iso_utc, parse_iso}
use igrill_remote_server.Store.{Store, Timer}
use igrill_remote_server.Store.Devices.{session_is}
use igrill_remote_server.Store.Sessions.{discard_session_locked, recover_orphaned_sessions}
use igrill_remote_server.Store.Sessions.Soundness.{IsSound}
use igrill_remote_server.Store.Sessions.Recovery.{Keeps, recover-IsSound}
use igrill_remote_server.Store.Sessions.Discard.{IsDiscarded, discard_session_locked-atomic}
use igrill_remote_server.Store.Sessions.Reach.{IsKept, here, next, restarts, restart, Reach-IsKept}
use igrill_remote_server.Store.Timers.{fetch_timer, find_expired_running_countdowns, elapsed_secs}
use igrill_remote_server.Store.Timers.Phase.{pause, complete, phase, next_phase, IsTimer, run_op}
use igrill_remote_server.Store.Timers.Refinement.{Meets, run_op-refines}
use igrill_remote_server.Store.Timers.Frame.{with_timers, run_op-frame}
use igrill_remote_server.Store.Timers.History.{Shows, run_ops, run_ops-never_falls}
use igrill_remote_server.Store.Timers.Expiry.{IsExpired, find_expired_running_countdowns_iff}
use igrill_remote_server.Store.{Note}
use igrill_remote_server.Store.Notes.{
  new_note, with_notes, set_body, earliest, get_primary_note, upsert_primary_note,
}
use igrill_remote_server.Store.Notes.Primary.{upsert_primary_note-existing}
use igrill_remote_server.Prelude.{◌++◌}
use igrill_remote_server.Alerts.{Probe}
use igrill_remote_server.Store.Readings.{record_reading, get_max_seq}
use igrill_remote_server.Store.Readings.Stored.{
  probe_rows, record_reading-stored, record_reading-without_probes,
}
use igrill_remote_server.Tests.{clock, session, timer, cooking}

abbrev one : Prelude.ℤ
one = Prelude.pos 1

abbrev two : Prelude.ℤ
two = Prelude.pos 2

cooking-IsSound : IsSound cooking
cooking-IsSound = record {
  open_is_current = (λ o. refl, (λ o. absurd cc, tt));
  current_is_open = (session "s" none, refl, refl, refl);
}

cooking-IsKept : IsKept cooking
cooking-IsKept = record { sound = cooking-IsSound; distinct = ((λ e. cc, tt), (tt, tt)) }

-- The process dies while the session runs, and a new one recovers it.
restarted-IsKept : IsKept (restart clock 9 cooking)
restarted-IsKept = Reach-IsKept clock (next here (restarts 9)) cooking-IsKept

abbrev row_one : Timer
row_one = timer one (some "Ti") 60

row_one-IsTimer : IsTimer row_one
row_one-IsTimer = record { exclusive = λ h. refl; terminal = λ h. cc }

row_one-stored : fetch_timer "s" "d" one cooking ≡ some row_one
unfolding fetch_timer
row_one-stored = refl

row_two-IsTimer : IsTimer (timer two none 0)
row_two-IsTimer = record { exclusive = λ h. refl; terminal = λ h. cc }

paused_row :
    Meets "s" "d" one cooking
      (next_phase pause (phase row_one))
      (run_op clock 5 pause "s" "d" one cooking)
paused_row =
    run_op-refines clock 5 pause "s" "d" one cooking row_one refl row_one-stored row_one-IsTimer

second_timer_kept :
    let s' = (run_op clock 5 pause "s" "d" one cooking).1 in
    (s' ≡ with_timers cooking s'.session_timers)
    × (fetch_timer "s" "d" two s' ≡ fetch_timer "s" "d" two cooking)
second_timer_kept = run_op-frame "s" "d" one cooking clock 5 pause "s" "d" two (inr (inr (λ e. cc)))

paused_then_completed :
    (m : ℕ) × Shows clock "s" "d" one 9 m
      (run_ops clock "s" "d" one ((6, pause) ∷ (8, complete) ∷ []) cooking)
    × (60 ≤ m)
paused_then_completed =
    run_ops-never_falls clock "s" "d" one 5 9 ((6, pause) ∷ (8, complete) ∷ []) cooking 60
      (omega arith, (λ e. cc), (omega arith, (λ e. cc), omega arith))
      (
        row_one,
        refl,
        row_one-stored,
        row_one-IsTimer,
        unfold elapsed_secs parse_iso now_iso_utc in refl,
      )

first_timer-IsExpired :
    Memᴰ row_one (find_expired_running_countdowns clock 5 cooking)
    ↔ (Memᴰ row_one cooking.session_timers × IsExpired clock 5 row_one)
first_timer-IsExpired =
    find_expired_running_countdowns_iff clock 5 cooking
      ((inr (1, unfold now_iso_utc in refl), row_one-IsTimer), ((inl refl, row_two-IsTimer), tt))
      row_one

-- Two sessions were left open.
abbrev crashed : Store ℕ
crashed = record cooking {
  db = record cooking.db { sessions = session "s" none ∷ session "old" none ∷ [] };
  current_session_id = none;
}

one_recovered :
    IsSound (recover_orphaned_sessions clock 9 crashed)
    × Keeps crashed (recover_orphaned_sessions clock 9 crashed)
one_recovered = recover-IsSound clock 9 crashed refl ((λ e. cc, tt), (tt, tt))

discard_some :
    (discard_session_locked (some 3) "old" cooking ≡ (err database_error, cooking))
    ⊎ (((discard_session_locked (some 3) "old" cooking).0
          ≡ ok (any_where (session_is "old") cooking.sessions))
        × IsDiscarded "old" cooking (discard_session_locked (some 3) "old" cooking).1)
discard_some = discard_session_locked-atomic (some 3) "old" cooking

abbrev noted : Note
noted = new_note 7 "s" "Ti" "rub"

abbrev with_note : Store ℕ
with_note = with_notes cooking (noted ∷ [])

note_changed :
    ((upsert_primary_note clock 9 8 "s" "smoke" with_note).0
      ≡ ok (set_body "smoke" (now_iso_utc clock 9) noted))
    × (get_primary_note "s" (upsert_primary_note clock 9 8 "s" "smoke" with_note).1
        ≡ some (set_body "smoke" (now_iso_utc clock 9) noted))
note_changed =
    upsert_primary_note-existing clock 9 8 "s" "smoke" with_note noted
      (unfold get_primary_note earliest in refl)

abbrev two_probes : List (Probe ℕ)
two_probes =
    record { index = one; temperature = some 50; raw = some 50; unplugged = some false }
    ∷ record { index = two; temperature = none; raw = some 63536; unplugged = some true }
    ∷ []

first_reading :
    let out = record_reading clock 9 4 "s" "d" 1 two_probes (some 80) none none none cooking in
    (out.0 ≡ ok tt)
    × (out.1.probe_readings
        ≡ cooking.probe_readings ++ probe_rows 4 "s" "d" (now_iso_utc clock 9) 1 two_probes)
first_reading =
    record_reading-stored clock 9 4 "s" "d" 1 two_probes (some 80) none none cooking refl
      (unfold get_max_seq in omega arith) ((λ e. cc, tt), (tt, tt))

summary_lost :
    let s' = (record_reading clock 9 4 "s" "d" 1 [] (some 80) none none none cooking).1 in
    (get_max_seq "s" "d" s' ≡ get_max_seq "s" "d" cooking)
    × ((record_reading clock 10 4 "s" "d" 1 two_probes
          (some 79)
          none
          none
          none
          s').1.device_readings
        ≡ s'.device_readings)
summary_lost =
    record_reading-without_probes clock 9 10 4 "s" "d" 1 two_probes (some 80) (some 79) none none
      none none cooking refl
