-- ===== src/Store/Sessions/Soundness.antt =====
-- The sessions table and the two fields of HistoryStore that name the current session, through
-- `start_session` and `_end_session_locked` (service/history/store.py).
use igrill_remote_server.Prelude.{
  ℕ, ℤ, String, ◌≡◌, refl, sym, subst, ◌∙◌, inl, inr, ◌⊎◌, true, false, Bool-cases, fits_given,
  Option, none, some, List, [], ◌∷◌, ◌++◌, arith, eq_iff, str_eq_refl, Option-cases, first_where,
  any_where, update_where, All, All-append, All-map, All-update_where_to, first_where-append_new,
  any_where-update_where,
}
use igrill_remote_server.Action.{Error, ok, err, overflow_error, integrity_error}
use igrill_remote_server.Clock.{Iso, now_iso_utc}
use igrill_remote_server.Store.{Store, Session}
use igrill_remote_server.Store.Devices.{session_is, register_device_locked, join_session}
use igrill_remote_server.Store.Sessions.{
  session_seconds, end_row, close_row, end_session_locked, join_all, insert_session, start_session,
  add_session, open_session, finish_start, start_info,
}

-- An open row is the current session.
abbrev pub OpenIs : Option String → Session → Type 0
OpenIs current r = r.ended_at ≡ none → current ≡ some r.id

-- The current session has an open row, and `_current_session_start_ts` is its start.
abbrev pub HasRow : List Session → Option String → Option String → Type 0
HasRow rows none start_ts = Unit
HasRow rows (some sid) start_ts =
    (r : Session) × (first_where (session_is sid) rows ≡ some r)
    × (r.ended_at ≡ none)
    × (start_ts ≡ some r.started_at)

pub record IsSound {T : Type 0} (s : Store T) : Type 0 where
  pub open_is_current : All (OpenIs s.current_session_id) s.sessions
  pub current_is_open : HasRow s.sessions s.current_session_id s.current_session_start_ts

-- No row is open once the current session has ended.
none_open :
    (now_ts reason sid : String) (rows : List Session)
    → All (OpenIs (some sid)) rows
    → All (OpenIs none) (update_where (session_is sid) (end_row now_ts reason) rows)
unfolding end_row
none_open now_ts reason sid rows =
    All-update_where_to (OpenIs (some sid)) (OpenIs none) (session_is sid) _ rows (λ r e h o. cc)
      (λ r e h o. absurd (ground (arith, eq_iff r.id sid, h o)))

module _ {T : Type 0} (I : Iso) (now : ℕ) (reason : String) (s : Store T) where
  pub end_session-inactive :
      s.current_session_id ≡ none → end_session_locked I now reason s ≡ (none, s)
  unfolding end_session_locked
  end_session-inactive e = ground arith

  pub end_session-active :
      (sid : String)
      → s.current_session_id ≡ some sid
      → end_session_locked I now reason s ≡ (
        some (record {
          session_id = sid;
          session_end_ts = now_iso_utc I now;
          reason = reason;
          duration_seconds = session_seconds I s.current_session_start_ts (now_iso_utc I now);
        }),
        record (close_row (now_iso_utc I now) reason sid s) {
          last_session_id = some sid;
          current_session_id = none;
          current_session_start_ts = none;
        },
      )
  unfolding end_session_locked
  end_session-active sid e = ground arith

  -- After the end no row is open and there is no current session.
  pub end_session-closes :
      IsSound s
      → All (OpenIs none) (end_session_locked I now reason s).1.sessions
        × ((end_session_locked I now reason s).1.current_session_id ≡ none)
  unfolding close_row
  end_session-closes v = elim (Option-cases s.current_session_id) [
    | inl e ↦
        rw (end_session-inactive e) (subst (λ c. All (OpenIs c) s.sessions) e v.open_is_current, e)
    | inr (sid, e) ↦ rw (end_session-active sid e) (
      none_open (now_iso_utc I now) reason sid s.sessions
          (subst (λ c. All (OpenIs c) s.sessions) e v.open_is_current),
      refl,
    )
  ]

  -- Ending a session keeps the table and the object in agreement.
  pub end_session-IsSound : IsSound s → IsSound (end_session_locked I now reason s).1
  end_session-IsSound v =
      let (closed, gone) = end_session-closes v in
      let ended : Store T = (end_session_locked I now reason s).1 in
      record {
        open_is_current = subst (λ c. All (OpenIs c) ended.sessions) (sym gone) closed;
        current_is_open =
            subst (λ c. HasRow ended.sessions c ended.current_session_start_ts) (sym gone) tt;
      }

  -- No session is added or renamed.
  pub any_where-end_session :
      (sid : String)
      → any_where (session_is sid) (end_session_locked I now reason s).1.sessions
        ≡ any_where (session_is sid) s.sessions
  unfolding close_row end_row
  any_where-end_session sid = elim (Option-cases s.current_session_id) [
    | inl e ↦ rw (end_session-inactive e) refl
    | inr (c, e) ↦ rw (end_session-active c e) (
        any_where-update_where (session_is sid) (session_is c) (end_row (now_iso_utc I now) reason)
          s.sessions (λ r. refl))
  ]

-- `start_session` adds one row, and its joins touch no session.
module _ {T : Type 0} (I : Iso) (now : ℕ) where
  sessions-join_all :
      (sid : String) (addrs : List String) (s : Store T)
      → (join_all I now sid addrs s).sessions ≡ s.sessions
  unfolding join_all join_session register_device_locked
  sessions-join_all sid [] s = refl
  sessions-join_all sid (addr ∷ addrs) s = sessions-join_all sid addrs _

  module _ (sid : String) (addrs : List String) (reason : String) (name : Option String)
      (target : Option ℤ) (s : Store T) where
    abbrev pub opened : Store T
    opened =
        open_session I now sid addrs
          (add_session I now sid reason name target (end_session_locked I now reason s).1)

    abbrev pub new_row : Session
    new_row = record {
      id = sid;
      started_at = now_iso_utc I now;
      ended_at = none;
      start_reason = reason;
      end_reason = none;
      name = name;
      notes = none;
      target_duration_secs = target;
    }

    pub sessions-start :
        opened.sessions ≡ (end_session_locked I now reason s).1.sessions ++ new_row ∷ []
    unfolding open_session add_session
    sessions-start = sessions-join_all sid addrs _

    -- A start with a fresh id leaves the new session as the only open row, whatever was active.
    pub start_session-IsSound :
        IsSound s → any_where (session_is sid) s.sessions ≡ false → IsSound opened
    unfolding open_session
    start_session-IsSound v fresh = record {
      open_is_current =
          subst (λ rows. All (OpenIs (some sid)) rows) (sym sessions-start)
            (All-append (OpenIs (some sid)) _ (new_row ∷ [])
              (All-map (OpenIs none) (OpenIs (some sid)) (λ r h o. absurd (ground (arith, h o))) _
                (end_session-closes I now reason s v).0)
              (λ o. refl, tt));
      current_is_open = (new_row, found, refl, refl);
    }
      where
        found : first_where (session_is sid) opened.sessions ≡ some new_row
        found = rw sessions-start (
            first_where-append_new (session_is sid) _ new_row
              (any_where-end_session I now reason s sid ∙ fresh) (str_eq_refl sid))

    -- Where the INSERT raises, the prior session has ended and nothing else has happened; otherwise
    -- the id was fresh and the session is open.
    pub start_session-cases :
        ((e : Error) × (start_session I now sid addrs reason name target s
            ≡ (err e, (end_session_locked I now reason s).1)))
        ⊎ ((start_session I now sid addrs reason name target s ≡ (
          ok (start_info I now sid addrs reason name target (end_session_locked I now reason s).0),
          opened,
        ))
            × (any_where (session_is sid) s.sessions ≡ false))
    unfolding start_session insert_session finish_start
    start_session-cases = elim (Bool-cases (fits_given target)) [
      | inr e ↦ inl (overflow_error, rw e refl)
      | inl e ↦
          elim (Bool-cases
            (any_where (session_is sid) (end_session_locked I now reason s).1.sessions)) [
              | inl f ↦ inl (integrity_error, rw (e, f) refl)
              | inr f ↦ inr (rw (e, f) refl, sym (any_where-end_session I now reason s sid) ∙ f)
            ]
    ]

    -- A duration that fits and a fresh id are enough.
    pub start_session-ok :
        fits_given target ≡ true
        → any_where (session_is sid) s.sessions ≡ false
        → start_session I now sid addrs reason name target s ≡ (
          ok (start_info I now sid addrs reason name target (end_session_locked I now reason s).0),
          opened,
        )
    unfolding start_session insert_session finish_start
    start_session-ok e f = rw (e, any_where-end_session I now reason s sid ∙ f) refl

    -- The prior session has ended before the value is bound.
    pub start_session-overflow :
        fits_given target ≡ false
        → start_session I now sid addrs reason name target s
          ≡ (err overflow_error, (end_session_locked I now reason s).1)
    unfolding start_session insert_session finish_start
    start_session-overflow e = rw e refl
