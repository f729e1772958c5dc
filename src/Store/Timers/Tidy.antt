-- ===== src/Store/Timers/Tidy.antt =====
-- The timer methods that raise (service/history/store.py).
use igrill_remote_server.Prelude.{
  ℕ, ◌+◌, ℤ, String, ◌≡◌, refl, sym, subst, str_eq, Option-cases, Bool, true, false, not, ◌⊎◌, inl,
  inr, Option, none, some, arith, is_some, is_none, if◌then◌else◌, any_where,
}
use igrill_remote_server.Action.{
  Action, Error, Result, ok, err, ◌>>=◌, ◌>>◌, pure, raise, gets, modify, no_such_session,
  timer_completed, assertion_error,
}
use igrill_remote_server.Clock.{Iso, now_iso_utc}
use igrill_remote_server.Store.{Store, Session, Timer, TimerMode}
use igrill_remote_server.Store.Timers.{
  timer_mode, fresh_timer, put_timer, fetch_timer, is_running, set_running, set_paused,
  elapsed_secs, or_raise, require_timer, require_active_session, update_timer, write_timer,
  upsert_timer, start_timer, pause_timer, resume_timer, reset_timer, reset_fields,
}

module _ {T : Type 0} where
  -- What raises leaves the store, but for the assertion at the end of a write.
  abbrev pub IsTidy : Result Timer × Store T → Store T → Type 0
  IsTidy m s = (e : Error) → m.0 ≡ err e → (e ≡ assertion_error) ⊎ (m.1 ≡ s)

  bind-IsTidy :
      {A : Type 0} (r : Result A) (x s : Store T) (f : A → Action (Store T) Timer)
      → x ≡ s
      → ((a : A) → IsTidy (f a s) s)
      → IsTidy (((λ _. (r, x)) >>= f) s) s
  bind-IsTidy (ok a) x s f p h = subst (λ y. IsTidy (f a y) s) (sym p) (h a)
  bind-IsTidy (err e) x s f p h = λ e' h'. inr p

  if-IsTidy :
      (b : Bool) (m n : Action (Store T) Timer) (s : Store T)
      → IsTidy (m s) s
      → IsTidy (n s) s
      → IsTidy ((if b then m else n) s) s
  if-IsTidy true m n s h k = h
  if-IsTidy false m n s h k = k

  pure-IsTidy : (r : Timer) (s : Store T) → IsTidy (ok r, s) s
  pure-IsTidy r s = λ e h. inr refl

  or_raise-IsTidy : (o : Option Timer) (x s : Store T) → IsTidy (or_raise assertion_error o x) s
  or_raise-IsTidy none x s = λ e h. inl cc
  or_raise-IsTidy (some r) x s = λ e h. inl cc

  require_timer-state :
      (sid addr : String) (idx : ℤ) (s : Store T) → (require_timer sid addr idx s).1 ≡ s
  unfolding require_timer require_active_session
  require_timer-state sid addr idx s = ground arith

  write_timer-IsTidy :
      (sid addr : String) (idx : ℤ) (f : Timer → Timer) (s : Store T)
      → IsTidy (write_timer sid addr idx f s) s
  unfolding write_timer
  write_timer-IsTidy sid addr idx f s =
      or_raise-IsTidy (fetch_timer sid addr idx (update_timer sid addr idx f s))
        (update_timer sid addr idx f s) s

  abbrev write_mode : String → String → ℤ → TimerMode → Option ℤ → Action (Store T) Timer
  write_mode sid addr idx m d = do
    modify (put_timer (fresh_timer sid addr idx m d))
    row ← gets (fetch_timer sid addr idx)
    or_raise assertion_error row

  abbrev known_then : String → String → ℤ → TimerMode → Option ℤ → Action (Store T) Timer
  known_then sid addr idx m d = do
    known ← gets (λ s. any_where (λ (r : Session). str_eq r.id sid) s.sessions)
    if known then write_mode sid addr idx m d else raise no_such_session

  -- `upsert_timer` for a mode that is one of the two.
  abbrev put_mode : String → String → ℤ → TimerMode → Option ℤ → Action (Store T) Timer
  put_mode sid addr idx m d = require_active_session sid >> known_then sid addr idx m d

  require_active_session-state : (sid : String) (s : Store T) → (require_active_session sid s).1 ≡ s
  unfolding require_active_session
  require_active_session-state sid s = ground arith

  put_mode-IsTidy :
      (sid addr : String) (idx : ℤ) (m : TimerMode) (d : Option ℤ) (s : Store T)
      → IsTidy (put_mode sid addr idx m d s) s
  put_mode-IsTidy sid addr idx m d s =
      bind-IsTidy (require_active_session sid s).0 (require_active_session sid s).1 s
        (λ _. known_then sid addr idx m d) (require_active_session-state sid s)
        (λ _.
          if-IsTidy (any_where (λ (r : Session). str_eq r.id sid) s.sessions)
            (write_mode sid addr idx m d) (raise no_such_session) s
            (or_raise-IsTidy (fetch_timer sid addr idx (put_timer (fresh_timer sid addr idx m d) s))
              (put_timer (fresh_timer sid addr idx m d) s) s)
            (λ e h. inr refl))

  pub upsert_timer-IsTidy :
      (sid addr : String) (idx : ℤ) (mode : String) (d : Option ℤ) (s : Store T)
      → IsTidy (upsert_timer sid addr idx mode d s) s
  unfolding upsert_timer
  upsert_timer-IsTidy sid addr idx mode d s = elim (Option-cases (timer_mode mode)) [
    | inl e ↦ simp (e, upsert_timer) (λ x h. inr refl)
    | inr (m, e) ↦ simp (e, upsert_timer) (put_mode-IsTidy sid addr idx m d s)
  ]

module _ {T : Type 0} (I : Iso) (now : ℕ) (sid addr : String) (idx : ℤ) (s : Store T) where
  pub start_timer-IsTidy : IsTidy (start_timer I now sid addr idx s) s
  unfolding start_timer
  start_timer-IsTidy =
      bind-IsTidy (require_timer sid addr idx s).0 (require_timer sid addr idx s).1 s
        (λ row.
          if is_some row.completed_at
          then raise timer_completed
          else if is_running row
          then pure row
          else write_timer sid addr idx (set_running (now_iso_utc I now)))
        (require_timer-state sid addr idx s)
        (λ row.
          if-IsTidy (is_some row.completed_at) (raise timer_completed)
            (if is_running row
              then pure row
              else write_timer sid addr idx (set_running (now_iso_utc I now)))
            s (λ e h. inr refl)
            (if-IsTidy (is_running row) (pure row)
              (write_timer sid addr idx (set_running (now_iso_utc I now))) s (pure-IsTidy row s)
              (write_timer-IsTidy sid addr idx (set_running (now_iso_utc I now)) s)))

  pub pause_timer-IsTidy : IsTidy (pause_timer I now sid addr idx s) s
  unfolding pause_timer
  pause_timer-IsTidy =
      bind-IsTidy (require_timer sid addr idx s).0 (require_timer sid addr idx s).1 s
        (λ row.
          let new_accum =
            row.accumulated_secs + elapsed_secs I (now_iso_utc I now) row.started_at in
          if not (is_running row)
          then pure row
          else write_timer sid addr idx (set_paused (now_iso_utc I now) new_accum))
        (require_timer-state sid addr idx s)
        (λ row.
          let new_accum =
            row.accumulated_secs + elapsed_secs I (now_iso_utc I now) row.started_at in
          if-IsTidy (not (is_running row)) (pure row)
            (write_timer sid addr idx (set_paused (now_iso_utc I now) new_accum)) s
            (pure-IsTidy row s)
            (write_timer-IsTidy sid addr idx (set_paused (now_iso_utc I now) new_accum) s))

  pub resume_timer-IsTidy : IsTidy (resume_timer I now sid addr idx s) s
  unfolding resume_timer
  resume_timer-IsTidy =
      bind-IsTidy (require_timer sid addr idx s).0 (require_timer sid addr idx s).1 s
        (λ row.
          if is_some row.completed_at
          then raise timer_completed
          else if is_none row.paused_at
          then pure row
          else write_timer sid addr idx (set_running (now_iso_utc I now)))
        (require_timer-state sid addr idx s)
        (λ row.
          if-IsTidy (is_some row.completed_at) (raise timer_completed)
            (if is_none row.paused_at
              then pure row
              else write_timer sid addr idx (set_running (now_iso_utc I now)))
            s (λ e h. inr refl)
            (if-IsTidy (is_none row.paused_at) (pure row)
              (write_timer sid addr idx (set_running (now_iso_utc I now))) s (pure-IsTidy row s)
              (write_timer-IsTidy sid addr idx (set_running (now_iso_utc I now)) s)))

module _ {T : Type 0} (sid addr : String) (idx : ℤ) (s : Store T) where
  pub reset_timer-IsTidy : IsTidy (reset_timer sid addr idx s) s
  unfolding reset_timer
  reset_timer-IsTidy =
      bind-IsTidy (require_timer sid addr idx s).0 (require_timer sid addr idx s).1 s
        (λ row. write_timer sid addr idx reset_fields) (require_timer-state sid addr idx s)
        (λ row. write_timer-IsTidy sid addr idx reset_fields s)
