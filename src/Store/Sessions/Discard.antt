-- ===== src/Store/Sessions/Discard.antt =====
-- The tables before and after a discard (service/history/store.py).
use igrill_remote_server.Prelude.{
  ℕ, zero, suc, String, ◌≡◌, ◌≢◌, refl, sym, subst, ◌⊎◌, inl, inr, Bool, true, false, Option, none,
  some, List, [], ◌∷◌, arith, eq_iff, str_eq, str_eq_refl, Option-cases, Bool-cases, if◌then◌else◌,
  any_where, select_where, delete_where, select_where-delete_where, select_where-delete_where_ne,
  All,
}
use igrill_remote_server.Action.{Result, ok, err, pure, modify, ◌>>=◌, ◌>>◌, database_error}
use igrill_remote_server.Store.{
  Store, Db, Session, SessionDevice, ProbeReading, DeviceReading, SessionTarget, Timer, Note,
}
use igrill_remote_server.Store.Devices.{session_is}
use igrill_remote_server.Store.Sessions.{
  transaction, discard_statements, discard_session_locked, discard_current_session, forget,
}
use igrill_remote_server.Store.Sessions.Soundness.{OpenIs, HasRow, IsSound}

-- The rows of one session, table by table.
pub record Rows (T : Type 0) : Type 0 where
  pub session : List Session
  pub members : List SessionDevice
  pub probes : List (ProbeReading T)
  pub readings : List (DeviceReading T)
  pub targets : List (SessionTarget T)
  pub timers : List Timer
  pub notes : List Note

abbrev pub rows_of : {T : Type 0} → String → Db T → Rows T
rows_of sid d = record {
  session = select_where (session_is sid) d.sessions;
  members = select_where (λ (r : SessionDevice). str_eq r.session_id sid) d.session_devices;
  probes = select_where (λ r. str_eq r.session_id sid) d.probe_readings;
  readings = select_where (λ r. str_eq r.session_id sid) d.device_readings;
  targets = select_where (λ r. str_eq r.session_id sid) d.session_targets;
  timers = select_where (λ (r : Timer). str_eq r.session_id sid) d.session_timers;
  notes = select_where (λ (r : Note). str_eq r.session_id sid) d.session_notes;
}

abbrev pub no_rows : {T : Type 0} → Rows T
no_rows = record {
  session = [];
  members = [];
  probes = [];
  readings = [];
  targets = [];
  timers = [];
  notes = [];
}

run_all : {D : Type 0} → List (D → D) → D → D
run_all [] d = d
run_all (st ∷ sts) d = run_all sts (st d)

-- Every statement runs, or none has an effect.
transaction-cases :
    {D : Type 0} (fault : Option ℕ) (sts : List (D → D)) (d : D)
    → (transaction fault sts d ≡ none) ⊎ (transaction fault sts d ≡ some (run_all sts d))
unfolding transaction run_all
transaction-cases none [] d = inr refl
transaction-cases none (st ∷ sts) d = transaction-cases none sts (st d)
transaction-cases (some zero) [] d = inl refl
transaction-cases (some (suc n)) [] d = inr (ground arith)
transaction-cases (some zero) (st ∷ sts) d = inl refl
transaction-cases (some (suc n)) (st ∷ sts) d = transaction-cases (some n) sts (st d)

excludes : (a b x : String) → a ≢ b → str_eq x a ≡ true → str_eq x b ≡ false
excludes a b x ne h = ground (arith, eq_iff x a, eq_iff x b)

kept :
    {A : Type 0} (sid other : String)
    → sid ≢ other
    → (key : A → String) (l : List A)
    → select_where (λ r. str_eq (key r) other) (delete_where (λ r. str_eq (key r) sid) l)
      ≡ select_where (λ r. str_eq (key r) other) l
kept sid other ne key l = select_where-delete_where_ne _ _ l (λ x. excludes sid other (key x) ne)

module _ {T : Type 0} (sid : String) (d : Db T) where
  purged : rows_of sid (run_all (discard_statements sid) d) ≡ no_rows
  unfolding run_all discard_statements
  purged = simp select_where-delete_where

  spared :
      (other : String)
      → sid ≢ other
      → rows_of other (run_all (discard_statements sid) d) ≡ rows_of other d
  unfolding run_all discard_statements
  spared other ne = λ i. record {
    session = kept sid other ne (λ r. r.id) d.sessions i;
    members = kept sid other ne (λ r. r.session_id) d.session_devices i;
    probes = kept sid other ne (λ r. r.session_id) d.probe_readings i;
    readings = kept sid other ne (λ r. r.session_id) d.device_readings i;
    targets = kept sid other ne (λ r. r.session_id) d.session_targets i;
    timers = kept sid other ne (λ r. r.session_id) d.session_timers i;
    notes = kept sid other ne (λ r. r.session_id) d.session_notes i;
  }

-- What a discard does, with every row accounted for.
pub record IsDiscarded {T : Type 0} (sid : String) (s s' : Store T) : Type 0 where
  pub nothing_left : rows_of sid s'.db ≡ no_rows
  pub others_kept : (other : String) → sid ≢ other → rows_of other s'.db ≡ rows_of other s.db
  pub devices_kept : s'.devices ≡ s.devices
  pub not_current : s'.current_session_id ≢ some sid
  pub not_last : s'.last_session_id ≢ some sid

forget-ne : (sid : String) (o : Option String) → forget sid o ≢ some sid
forget-ne sid none h = cc
forget-ne sid (some x) h = ground (arith, eq_iff x sid)

module _ {T : Type 0} (fault : Option ℕ) (sid : String) (s : Store T) where
  -- Where no transaction is open before it, a discard is all or nothing. Either the database raises, and neither a table nor a field of
  -- the store has changed; or it returns whether the session existed, no table has a row of the
  -- session, the rows of every other session and the devices are as before, and neither the
  -- current nor the last session is the discarded one.
  pub discard_session_locked-atomic :
      (discard_session_locked fault sid s ≡ (err database_error, s))
      ⊎ (((discard_session_locked fault sid s).0 ≡ ok (any_where (session_is sid) s.sessions))
          × IsDiscarded sid s (discard_session_locked fault sid s).1)
  unfolding discard_session_locked
  discard_session_locked-atomic = elim (transaction-cases fault (discard_statements sid) s.db) [
    | inl e ↦ inl (simp (e, discard_session_locked))
    | inr e ↦ inr (
        simp (e, discard_session_locked)
          (
            refl,
            record {
              nothing_left = purged sid s.db;
              others_kept = spared sid s.db;
              devices_kept = unfold run_all discard_statements in refl;
              not_current = forget-ne sid s.current_session_id;
              not_last = forget-ne sid s.last_session_id;
            },
          ))
  ]

module _ {T : Type 0} (fault : Option ℕ) (s : Store T) where
  pub discard_current-inactive :
      s.current_session_id ≡ none → discard_current_session fault s ≡ (ok none, s)
  unfolding discard_current_session
  discard_current-inactive e = ground arith

  -- A row that stays is of another session, so it was not open.
  none_open :
      (sid : String) (rows : List Session)
      → All (OpenIs (some sid)) rows
      → All (OpenIs none) (delete_where (session_is sid) rows)
  none_open sid [] h = tt
  none_open sid (r ∷ rs) h = elim (Bool-cases (session_is sid r)) [
    | inl e ↦ rw e (none_open sid rs h.1)
    | inr e ↦ rw e ((λ o. absurd (ground (arith, eq_iff r.id sid, h.0 o))), none_open sid rs h.1)
  ]

  -- Where a session is current, either the database raises and nothing has changed, or it is gone
  -- and its id is returned, if the table had its row.
  abbrev pub Outcome : String → Result (Option String) × Store T → Type 0
  Outcome sid (r, s') =
      (r ≡ ok (if any_where (session_is sid) s.sessions then some sid else none))
      × IsDiscarded sid s s'
      × (s'.current_session_id ≡ none)
      × (s'.sessions ≡ delete_where (session_is sid) s.sessions)

  abbrev clear_current : Store T → Store T
  clear_current s' = record s' { current_session_id = none; current_session_start_ts = none }

  finish :
      (sid : String) (b : Bool) (s' : Store T)
      → IsDiscarded sid s s'
      → s'.current_session_id ≡ none
      → s'.sessions ≡ delete_where (session_is sid) s.sessions
      → let (r, t) = (if b then pure (some sid) else (modify clear_current >> pure none)) s' in
        (r ≡ ok (if b then some sid else none))
        × IsDiscarded sid s t
        × (t.current_session_id ≡ none)
        × (t.sessions ≡ delete_where (session_is sid) s.sessions)
  finish sid true s' d c r = (refl, d, c, r)
  finish sid false s' d c r = (
    refl,
    record {
      nothing_left = d.nothing_left;
      others_kept = d.others_kept;
      devices_kept = d.devices_kept;
      not_current = λ h. cc;
      not_last = d.not_last;
    },
    refl,
    r,
  )

  discard_run :
      (sid : String)
      → transaction fault (discard_statements sid) s.db
        ≡ some (run_all (discard_statements sid) s.db)
      → s.current_session_id ≡ some sid
      → Outcome sid (discard_current_session fault s)
  unfolding discard_current_session discard_session_locked
  discard_run sid t e =
      simp (e, t, discard_current_session, discard_session_locked, ◌>>=◌)
        (finish sid (any_where (session_is sid) s.sessions) _
          (record {
            nothing_left = purged sid s.db;
            others_kept = spared sid s.db;
            devices_kept = unfold run_all discard_statements in refl;
            not_current = forget-ne sid (some sid);
            not_last = forget-ne sid s.last_session_id;
          })
          (rw (str_eq_refl sid) refl) (unfold run_all discard_statements in refl))

  -- Where a session is active its discard is all or nothing. Either the database raises and nothing
  -- has changed; or every row of the session is gone and those of the others are as before, there
  -- is no current session, the id is returned where the session had a row, and the sessions that
  -- are left are those without its id.
  pub discard_current-active :
      (sid : String)
      → s.current_session_id ≡ some sid
      → (discard_current_session fault s ≡ (err database_error, s))
        ⊎ Outcome sid (discard_current_session fault s)
  unfolding discard_current_session discard_session_locked
  discard_current-active sid e = elim (transaction-cases fault (discard_statements sid) s.db) [
    | inl t ↦ inl (simp (e, t, discard_current_session, discard_session_locked, ◌>>=◌))
    | inr t ↦ inr (discard_run sid t e)
  ]

  -- A discard keeps the table and the object in agreement, where it raises too.
  pub discard_current-IsSound : IsSound s → IsSound (discard_current_session fault s).1
  discard_current-IsSound v = elim (Option-cases s.current_session_id) [
    | inl e ↦ rw (discard_current-inactive e) v
    | inr (sid, e) ↦ elim (discard_current-active sid e) [
      | inl raised ↦ rw raised v
      | inr (_, _, gone, rows) ↦ closed sid e (discard_current_session fault s).1 gone rows
    ]
  ]
    where
      closed :
          (sid : String)
          → s.current_session_id ≡ some sid
          → (s' : Store T) → s'.current_session_id ≡ none
          → s'.sessions ≡ delete_where (session_is sid) s.sessions
          → IsSound s'
      closed sid e s' gone rows = record {
        open_is_current =
            subst (λ c. All (OpenIs c) s'.sessions) (sym gone)
              (subst (All (OpenIs none)) (sym rows) (
                none_open sid s.sessions
                  (subst (λ c. All (OpenIs c) s.sessions) e v.open_is_current)));
        current_is_open =
            subst (λ c. HasRow s'.sessions c s'.current_session_start_ts) (sym gone) tt;
      }
