-- ===== src/Store/Sessions/Reach.antt =====
-- The life of a store (service/history/store.py): sequences of its operations, crashes and restarts.
use igrill_remote_server.Prelude.{
  ℕ, ℤ, String, ◌≡◌, ◌≢◌, refl, sym, ap, subst, ◌∙◌, inl, inr, Bool, false, Option, none, some,
  List, [], ◌∷◌, ◌++◌, arith, eq_iff, if◌then◌else◌, Bool-cases, Option-cases, first_where,
  any_where, select_where, update_where, update_where-first, delete_where, All, All-append,
  All-update_where_to, All-delete_where,
}
use igrill_remote_server.Clock.{Iso, now_iso_utc}
use igrill_remote_server.Store.{Store, Session}
use igrill_remote_server.Store.Devices.{
  session_is, register_device_locked, register_device, join_session, add_device_to_session,
  device_left_session, device_rejoined_session,
}
use igrill_remote_server.Store.Timers.{upsert_timer, require_active_session, put_timer}
use igrill_remote_server.Store.Timers.Phase.{TimerOp, run_op}
use igrill_remote_server.Store.Timers.Frame.{run_op-rest}
use igrill_remote_server.Store.Sessions.{
  end_row, close_row, end_session_locked, start_session, close_duplicates, resume_session, adopt,
  newest_first, is_open, discard_current_session, recover_orphaned_sessions, set_given,
  update_session,
}
use igrill_remote_server.Store.Sessions.Soundness.{
  OpenIs, HasRow, IsSound, end_session-inactive, end_session-active, end_session-IsSound,
  sessions-start, new_row, start_session-IsSound, start_session-cases, any_where-end_session,
}
use igrill_remote_server.Store.Sessions.Recovery.{Distinct, recover-IsSound}
use igrill_remote_server.Store.Sessions.Discard.{
  discard_current-inactive, discard_current-active, discard_current-IsSound,
}

-- A new process opens the database: the fields of the object are gone, and recovery runs.
abbrev pub reopened : {T : Type 0} → Store T → Store T
reopened s = record s {
  current_session_id = none;
  current_session_start_ts = none;
  last_session_id = none;
}

unfoldable pub restart : {T : Type 0} → Iso → ℕ → Store T → Store T
restart I now s = recover_orphaned_sessions I now (reopened s)

pub data Step {T : Type 0} (I : Iso) (s : Store T) : Store T → Type 0 where
  starts :
      (now : ℕ) (sid : String) (addrs : List String) (reason : String) (name : Option String)
      (target : Option ℤ)
      → Step I s (start_session I now sid addrs reason name target s).1
  ends : (now : ℕ) (reason : String) → Step I s (end_session_locked I now reason s).1
  discards : (fault : Option ℕ) → Step I s (discard_current_session fault s).1
  updates :
      (sid : String) (name notes : Option String) → Step I s (update_session sid name notes s).1
  joins : (now : ℕ) (sid addr : String) → Step I s (add_device_to_session I now sid addr s).1
  leaves : (now : ℕ) (sid addr : String) → Step I s (device_left_session I now sid addr s).1
  rejoins : (sid addr : String) → Step I s (device_rejoined_session sid addr s).1
  times :
      (now : ℕ) (op : TimerOp) (sid addr : String) (idx : ℤ)
      → Step I s (run_op I now op sid addr idx s).1
  upserts :
      (sid addr : String) (idx : ℤ) (mode : String) (duration : Option ℤ)
      → Step I s (upsert_timer sid addr idx mode duration s).1
  registers :
      (now : ℕ) (addr : String) (name model : Option String)
      → Step I s (register_device I now addr name model s).1
  restarts : (now : ℕ) → Step I s (restart I now s)

pub data Reach {T : Type 0} (I : Iso) (s : Store T) : Store T → Type 0 where
  here : Reach I s s
  next : {t u : Store T} → Reach I s t → Step I t u → Reach I s u

-- The ids stay distinct.
Distinct-update :
    (p : Session → Bool) (f : Session → Session)
    → ((x : Session) → (f x).id ≡ x.id)
    → (l : List Session) → Distinct l
    → Distinct (update_where p f l)
Distinct-update p f keep [] d = tt
Distinct-update p f keep (x ∷ xs) d = (
  All-update_where_to (λ (y : Session). y.id ≢ x.id)
      (λ (y : Session). y.id ≢ (if p x then f x else x).id) p f xs
      (λ y e ne. ground (arith, keep x, keep y)) (λ y e ne. ground (arith, keep x)) d.0,
  Distinct-update p f keep xs d.1,
)

Distinct-delete : (p : Session → Bool) (l : List Session) → Distinct l → Distinct (delete_where p l)
Distinct-delete p [] d = tt
Distinct-delete p (x ∷ xs) d = elim (Bool-cases (p x)) [
  | inl e ↦ rw e (Distinct-delete p xs d.1)
  | inr e ↦
      rw e (All-delete_where (λ (y : Session). y.id ≢ x.id) p xs d.0, Distinct-delete p xs d.1)
]

Distinct-append :
    (l : List Session) (r : Session)
    → any_where (session_is r.id) l ≡ false
    → Distinct l
    → Distinct (l ++ r ∷ [])
Distinct-append [] r n d = (tt, tt)
Distinct-append (x ∷ xs) r n d = (
  All-append (λ (y : Session). y.id ≢ x.id) xs (r ∷ []) d.0
      (λ e. ground (arith, eq_iff x.id r.id), tt),
  Distinct-append xs r (ground arith) d.1,
)

pub record IsKept {T : Type 0} (s : Store T) : Type 0 where
  pub sound : IsSound s
  pub distinct : Distinct s.sessions

-- An operation that leaves the sessions and the two fields alone.
record SameLife {T : Type 0} (s s' : Store T) : Type 0 where
  rows : s'.sessions ≡ s.sessions
  current : s'.current_session_id ≡ s.current_session_id
  started : s'.current_session_start_ts ≡ s.current_session_start_ts

module _ {T : Type 0} {s s' : Store T} where
  SameLife-IsKept : SameLife s s' → IsKept s → IsKept s'
  SameLife-IsKept e k = record {
    sound = record {
      open_is_current =
          subst (λ c. All (OpenIs c) s'.sessions) (sym e.current)
            (subst (All (OpenIs s.current_session_id)) (sym e.rows) k.sound.open_is_current);
      current_is_open =
          subst (λ c. HasRow s'.sessions c s'.current_session_start_ts) (sym e.current)
            (subst (λ t. HasRow s'.sessions s.current_session_id t) (sym e.started)
              (subst (λ l. HasRow l s.current_session_id s.current_session_start_ts) (sym e.rows)
                k.sound.current_is_open));
    };
    distinct = subst Distinct (sym e.rows) k.distinct;
  }

module _ {T : Type 0} (I : Iso) (now : ℕ) (s : Store T) where
  Distinct-end :
      (reason : String)
      → Distinct s.sessions
      → Distinct (end_session_locked I now reason s).1.sessions
  unfolding close_row end_row
  Distinct-end reason d = elim (Option-cases s.current_session_id) [
    | inl e ↦ rw (end_session-inactive I now reason s e) d
    | inr (sid, e) ↦ rw (end_session-active I now reason s sid e) (
        Distinct-update (session_is sid) (end_row (now_iso_utc I now) reason) (λ x. refl) s.sessions
          d)
  ]

  end-IsKept : (reason : String) → IsKept s → IsKept (end_session_locked I now reason s).1
  end-IsKept reason k = record {
    sound = end_session-IsSound I now reason s k.sound;
    distinct = Distinct-end reason k.distinct;
  }

  add_device-SameLife : (sid addr : String) → SameLife s (add_device_to_session I now sid addr s).1
  unfolding add_device_to_session register_device_locked join_session
  add_device-SameLife sid addr = elim (Bool-cases (any_where (session_is sid) s.sessions)) [
    | inl e ↦ rw e (record { rows = refl; current = refl; started = refl })
    | inr e ↦ rw e (record { rows = refl; current = refl; started = refl })
  ]

  run_op-SameLife :
      (op : TimerOp) (sid addr : String) (idx : ℤ) → SameLife s (run_op I now op sid addr idx s).1
  run_op-SameLife op sid addr idx =
      let e = (run_op-rest sid addr idx s I now op).0 in
      record {
        rows = ap (λ (x : Store T). x.sessions) e;
        current = ap (λ (x : Store T). x.current_session_id) e;
        started = ap (λ (x : Store T). x.current_session_start_ts) e;
      }

  close_duplicates-Distinct :
      (rest : List Session) (t : Store T)
      → Distinct t.sessions
      → Distinct (close_duplicates I now rest t).sessions
  unfolding close_duplicates close_row end_row
  close_duplicates-Distinct [] t d = d
  close_duplicates-Distinct (r ∷ rest) t d = close_duplicates-Distinct rest _ (
      Distinct-update (session_is r.id) (end_row (now_iso_utc I now) "server_restart_duplicate")
        (λ x. refl) t.sessions d)

  adopt-Distinct :
      (l : List Session) (t : Store T) → Distinct t.sessions → Distinct (adopt I now l t).sessions
  unfolding adopt resume_session
  adopt-Distinct [] t d = d
  adopt-Distinct (primary ∷ rest) t d = close_duplicates-Distinct rest _ d

  restart-IsKept : IsKept s → IsKept (restart I now s)
  unfolding restart recover_orphaned_sessions
  restart-IsKept k = record {
    sound = (recover-IsSound I now (reopened s) refl k.distinct).0;
    distinct =
        adopt-Distinct (newest_first (select_where is_open s.sessions)) (reopened s) k.distinct;
  }

module _ {T : Type 0} (s : Store T) where
  discard-IsKept : (fault : Option ℕ) → IsKept s → IsKept (discard_current_session fault s).1
  discard-IsKept fault k = record {
    sound = discard_current-IsSound fault s k.sound;
    distinct = elim (Option-cases s.current_session_id) [
      | inl e ↦ rw (discard_current-inactive fault s e) k.distinct
      | inr (sid, e) ↦ elim (discard_current-active fault s sid e) [
        | inl raised ↦ rw raised k.distinct
        | inr (_, _, _, rows) ↦
            subst Distinct (sym rows) (Distinct-delete (session_is sid) s.sessions k.distinct)
      ]
    ];
  }

  -- A rename changes neither the id of a row, nor its start, nor whether it is open.
  renamed : (sid : String) (name notes : Option String) → List Session
  renamed sid name notes = update_where (session_is sid) (set_given name notes) s.sessions

  HasRow-renamed :
      (sid : String) (name notes : Option String) (current start_ts : Option String)
      → HasRow s.sessions current start_ts
      → HasRow (renamed sid name notes) current start_ts
  unfolding renamed set_given
  HasRow-renamed sid name notes none start_ts h = tt
  HasRow-renamed sid name notes (some c) start_ts (r, found, unended, start) =
      elim (update_where-first (session_is c) (session_is sid) (set_given name notes) s.sessions
        (λ x. refl) found) [
          | inl e ↦ (r, e, unended, start)
          | inr e ↦ (set_given name notes r, e, unended, start)
        ]

  renamed-IsKept :
      (sid : String) (name notes : Option String)
      → IsKept s
      → IsKept (record s { db = record s.db { sessions = renamed sid name notes } })
  unfolding renamed set_given
  renamed-IsKept sid name notes k = record {
    sound = record {
      open_is_current =
          All-update_where_to (OpenIs s.current_session_id) (OpenIs s.current_session_id)
            (session_is sid) (set_given name notes) s.sessions (λ x e h. h) (λ x e h. h)
            k.sound.open_is_current;
      current_is_open = unfold renamed in HasRow-renamed sid name notes _ _ k.sound.current_is_open;
    };
    distinct =
        Distinct-update (session_is sid) (set_given name notes) (λ x. refl) s.sessions k.distinct;
  }

  update-IsKept :
      (sid : String) (name notes : Option String)
      → IsKept s
      → IsKept (update_session sid name notes s).1
  unfolding update_session
  update-IsKept sid name notes k = elim (Option-cases (first_where (session_is sid) s.sessions)) [
    | inl e ↦ simp (e, update_session) k
    | inr (r, e) ↦ simp (e, update_session) (unfold renamed in renamed-IsKept sid name notes k)
  ]

  device_left-SameLife :
      (I : Iso) (now : ℕ) (sid addr : String) → SameLife s (device_left_session I now sid addr s).1
  unfolding device_left_session
  device_left-SameLife I now sid addr = record { rows = refl; current = refl; started = refl }

  device_rejoined-SameLife : (sid addr : String) → SameLife s (device_rejoined_session sid addr s).1
  unfolding device_rejoined_session
  device_rejoined-SameLife sid addr = record { rows = refl; current = refl; started = refl }

  upsert_timer-SameLife :
      (sid addr : String) (idx : ℤ) (mode : String) (duration : Option ℤ)
      → SameLife s (upsert_timer sid addr idx mode duration s).1
  unfolding upsert_timer require_active_session put_timer
  upsert_timer-SameLife sid addr idx mode duration = record {
    rows = ground arith;
    current = ground arith;
    started = ground arith;
  }

  register_device-SameLife :
      (I : Iso) (now : ℕ) (addr : String) (name model : Option String)
      → SameLife s (register_device I now addr name model s).1
  unfolding register_device register_device_locked
  register_device-SameLife I now addr name model = record {
    rows = refl;
    current = refl;
    started = refl;
  }

module _ {T : Type 0} (I : Iso) where
  Step-IsKept : {s t : Store T} → Step I s t → IsKept s → IsKept t
  Step-IsKept {s = s} (starts now sid addrs reason name target) k =
      elim (start_session-cases I now sid addrs reason name target s) [
        | inl (e, raised) ↦ rw raised (end-IsKept I now s reason k)
        | inr (opened, fresh) ↦ rw opened (record {
          sound = start_session-IsSound I now sid addrs reason name target s k.sound fresh;
          distinct = subst Distinct (sym (sessions-start I now sid addrs reason name target s)) (
              Distinct-append _ (new_row I now sid addrs reason name target s)
                (any_where-end_session I now reason s sid ∙ fresh)
                (Distinct-end I now s reason k.distinct));
        })
      ]
  Step-IsKept {s = s} (ends now reason) k = end-IsKept I now s reason k
  Step-IsKept {s = s} (discards fault) k = discard-IsKept s fault k
  Step-IsKept {s = s} (updates sid name notes) k = update-IsKept s sid name notes k
  Step-IsKept {s = s} (joins now sid addr) k =
      SameLife-IsKept (add_device-SameLife I now s sid addr) k
  Step-IsKept {s = s} (leaves now sid addr) k =
      SameLife-IsKept (device_left-SameLife s I now sid addr) k
  Step-IsKept {s = s} (rejoins sid addr) k = SameLife-IsKept (device_rejoined-SameLife s sid addr) k
  Step-IsKept {s = s} (times now op sid addr idx) k =
      SameLife-IsKept (run_op-SameLife I now s op sid addr idx) k
  Step-IsKept {s = s} (upserts sid addr idx mode duration) k =
      SameLife-IsKept (upsert_timer-SameLife s sid addr idx mode duration) k
  Step-IsKept {s = s} (registers now addr name model) k =
      SameLife-IsKept (register_device-SameLife s I now addr name model) k
  Step-IsKept {s = s} (restarts now) k = restart-IsKept I now s k

  -- From a store in agreement, any sequence of session, device and timer operations, of database
  -- faults in a discard, and of restarts keeps it: session ids stay distinct, every open session
  -- is the current one, and the current session has an open row with its start.
  pub Reach-IsKept : {s t : Store T} → Reach I s t → IsKept s → IsKept t
  Reach-IsKept here k = k
  Reach-IsKept (next r st) k = Step-IsKept st (Reach-IsKept r k)
