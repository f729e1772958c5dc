-- ===== src/Store/Timers/Expiry.antt =====
-- The rows that `find_expired_running_countdowns` (service/history/store.py) returns.
use igrill_remote_server.Prelude.{
  ℕ, inl, inr, sym, ◌∙◌, ◌≤◌, ◌-◌, ◌/◌, String, ◌≡◌, refl, Bool, true, false, ◌&&◌, ◌⊎◌, ◌↔◌,
  Option, some, none, arith, ℤ, pos_part, neg_part, ◌≤ℤ◌, List, Memᴰ, select_where,
  mem-select_where_intro, mem-select_where_elim, All, All-mem,
}
use igrill_remote_server.Prelude
use igrill_remote_server.Clock.{Iso, now_iso_utc, parse_iso-now_iso_utc}
use igrill_remote_server.Store.{Store, Timer, count_down}
use igrill_remote_server.Store.Timers.{
  is_candidate, is_due, reaches, elapsed_secs, find_expired_running_countdowns,
}
use igrill_remote_server.Store.Timers.Phase.{running, phase, IsTimer}
use igrill_remote_server.Store.Timers.Elapsed.{shown_secs}

-- A countdown that runs and has shown at least its duration.
pub record IsExpired (I : Iso) (now : ℕ) (row : Timer) : Type 0 where
  pub counts_down : row.mode ≡ count_down
  pub runs : phase row ≡ running
  pub over : (d : ℤ) × (row.duration_secs ≡ some d) × (d ≤ℤ Prelude.pos (shown_secs I now row))

-- `started_at`, where it is set, was written by the clock.
abbrev pub IsClocked : Iso → Timer → Type 0
IsClocked I row = (row.started_at ≡ none) ⊎ ((t : ℕ) × (row.started_at ≡ some (now_iso_utc I t)))

and_true : (a b : Bool) → (a && b) ≡ true → (a ≡ true) × (b ≡ true)
and_true true b h = (refl, h)
and_true false b h = (cc, cc)

reaches-le :
    (o : Option ℤ) (n : ℕ) → reaches o n ≡ true → (d : ℤ) × (o ≡ some d) × (d ≤ℤ Prelude.pos n)
reaches-le none n h = cc
reaches-le (some d) n h = (d, refl, ground arith)

module _ (I : Iso) (now : ℕ) (row : Timer) where
  -- A running row that the clock wrote: the comparison is with the seconds that it shows.
  shown_running :
      (t : ℕ)
      → row.started_at ≡ some (now_iso_utc I t)
      → row.paused_at ≡ none
      → (is_due I now row ≡ reaches row.duration_secs (shown_secs I now row))
  unfolding elapsed_secs
  shown_running t e p = ground (arith, parse_iso-now_iso_utc I t, parse_iso-now_iso_utc I now)

  due-IsExpired :
      IsClocked I row → (is_candidate row && is_due I now row) ≡ true → IsExpired I now row
  due-IsExpired (inl e) h = absurd (ground arith)
  due-IsExpired (inr (t, e)) h = record {
    counts_down = ground arith;
    runs = ground arith;
    over =
        reaches-le row.duration_secs (shown_secs I now row)
          (sym (shown_running t e (ground arith)) ∙ ground arith);
  }

  IsExpired-due :
      IsClocked I row
      → IsTimer row
      → IsExpired I now row
      → (is_candidate row && is_due I now row) ≡ true
  IsExpired-due (inl e) v x = absurd (ground (arith, x.runs))
  IsExpired-due (inr (t, e)) v x =
      let (d, has, le) = x.over in ground (arith, x.runs, x.counts_down, shown_running t e)

-- The rows that the store itself has written.
abbrev pub IsWritten : Iso → Timer → Type 0
IsWritten I row = IsClocked I row × IsTimer row

module _ {T : Type 0} (I : Iso) (now : ℕ) (s : Store T) where
  find_expired_running_countdowns_lem :
      find_expired_running_countdowns I now s
      ≡ select_where (is_due I now) (select_where is_candidate s.session_timers)
  unfolding find_expired_running_countdowns
  find_expired_running_countdowns_lem = ground (arith, parse_iso-now_iso_utc I now)

  -- Of the timers that the store has written, exactly the running countdowns that have shown at
  -- least their duration are returned.
  pub find_expired_running_countdowns_iff :
      All (IsWritten I) s.session_timers
      → (row : Timer)
      → Memᴰ row (find_expired_running_countdowns I now s)
        ↔ (Memᴰ row s.session_timers × IsExpired I now row)
  find_expired_running_countdowns_iff written row =
      rw find_expired_running_countdowns_lem (found, finds)
    where
      found :
          Memᴰ row (select_where (is_due I now) (select_where is_candidate s.session_timers))
          → Memᴰ row s.session_timers × IsExpired I now row
      found m =
          let (n, due) = mem-select_where_elim (is_due I now) _ m in
          let (k, fits) = mem-select_where_elim is_candidate s.session_timers n in
          (
            k,
            due-IsExpired I now row (All-mem (IsWritten I) _ written k).0
                (ground (arith, due, fits)),
          )

      finds :
          Memᴰ row s.session_timers × IsExpired I now row
          → Memᴰ row (select_where (is_due I now) (select_where is_candidate s.session_timers))
      finds (k, x) =
          let (c, v) = All-mem (IsWritten I) _ written k in
          let (fits, due) = and_true _ _ (IsExpired-due I now row c v x) in
          mem-select_where_intro (is_due I now) _ (mem-select_where_intro is_candidate _ k fits) due
