-- ===== src/Store/Sessions/Recovery.antt =====
-- What `recover_orphaned_sessions` makes of the rows that a crash or a restart left behind.
use igrill_remote_server.Prelude.{
  ℕ, ◌≡◌, ◌≢◌, refl, sym, subst, ◌∙◌, ◌⊎◌, inl, inr, Bool, true, false, none, some, List, [], ◌∷◌,
  arith, eq_iff, str_eq_refl, text_ltb, text_ltb-asymmetric, text_ltb-transitive, String,
  Bool-cases, any_where, first_where, select_where, All, All-map, All-zip, All-select_where,
  All-select_where_test, All-of_select_where, All-update_where_to, first_where-update_where_ne,
}
use igrill_remote_server.Clock.{Iso, now_iso_utc}
use igrill_remote_server.Store.{Store, Session}
use igrill_remote_server.Store.Devices.{session_is}
use igrill_remote_server.Store.Sessions.{
  insert_desc, newest_first, is_open, end_row, close_row, close_duplicates, resume_session, adopt,
  recover_orphaned_sessions,
}
use igrill_remote_server.Store.Sessions.Soundness.{OpenIs, HasRow, IsSound}

-- The primary key of `sessions`.
abbrev pub Distinct : List Session → Type 0
Distinct [] = Unit
Distinct (x ∷ xs) = All (λ (y : Session). y.id ≢ x.id) xs × Distinct xs

-- The sort keeps the rows.
module _ (P : Session → Type 0) where
  All-insert_desc : (r : Session) (l : List Session) → P r → All P l → All P (insert_desc r l)
  All-insert_desc r [] p h = (p, tt)
  All-insert_desc r (y ∷ ys) p h = elim (Bool-cases (text_ltb r.started_at y.started_at)) [
    | inl older ↦ rw older (h.0, All-insert_desc r ys p h.1)
    | inr newer ↦ rw newer (p, h)
  ]

  All-newest_first : (l : List Session) → All P l → All P (newest_first l)
  All-newest_first [] h = tt
  All-newest_first (x ∷ xs) h = All-insert_desc x (newest_first xs) h.0 (All-newest_first xs h.1)

  All-of_insert_desc : (r : Session) (l : List Session) → All P (insert_desc r l) → P r × All P l
  All-of_insert_desc r [] h = h
  All-of_insert_desc r (y ∷ ys) h = elim (Bool-cases (text_ltb r.started_at y.started_at)) [
    | inl older ↦
        let k = rw older at h in
        let below = All-of_insert_desc r ys k.1 in (below.0, (k.0, below.1))
    | inr newer ↦ rw newer at h
  ]

  All-of_newest_first : (l : List Session) → All P (newest_first l) → All P l
  All-of_newest_first [] h = tt
  All-of_newest_first (x ∷ xs) h =
      let k = All-of_insert_desc x (newest_first xs) h in (k.0, All-of_newest_first xs k.1)

Distinct-insert_desc :
    (r : Session) (l : List Session)
    → All (λ (y : Session). y.id ≢ r.id) l
    → Distinct l
    → Distinct (insert_desc r l)
Distinct-insert_desc r [] n d = (tt, tt)
Distinct-insert_desc r (y ∷ ys) n d = elim (Bool-cases (text_ltb r.started_at y.started_at)) [
  | inl older ↦ rw older (
    All-insert_desc (λ (z : Session). z.id ≢ y.id) r ys (λ e. n.0 (sym e)) d.0,
    Distinct-insert_desc r ys n.1 d.1,
  )
  | inr newer ↦ rw newer (n, d)
]

Distinct-newest_first : (l : List Session) → Distinct l → Distinct (newest_first l)
Distinct-newest_first [] d = tt
Distinct-newest_first (x ∷ xs) d =
    Distinct-insert_desc x (newest_first xs)
      (All-newest_first (λ (z : Session). z.id ≢ x.id) xs d.0) (Distinct-newest_first xs d.1)

-- The first row of the sort started no earlier than any other.
abbrev pub IsLatest : Session → List Session → Type 0
IsLatest r l = All (λ (x : Session). text_ltb r.started_at x.started_at ≡ false) l

abbrev HeadIsLatest : List Session → Type 0
HeadIsLatest [] = Unit
HeadIsLatest (r ∷ l) = IsLatest r l

insert_desc-IsLatest :
    (r : Session) (l : List Session) → HeadIsLatest l → HeadIsLatest (insert_desc r l)
insert_desc-IsLatest r [] h = tt
insert_desc-IsLatest r (y ∷ ys) h = elim (Bool-cases (text_ltb r.started_at y.started_at)) [
  | inl older ↦ rw older (
      All-insert_desc (λ (x : Session). text_ltb y.started_at x.started_at ≡ false) r ys
        (text_ltb-asymmetric r.started_at y.started_at older) h)
  | inr newer ↦ rw newer (
    newer,
    All-map (λ (x : Session). text_ltb y.started_at x.started_at ≡ false)
        (λ (x : Session). text_ltb r.started_at x.started_at ≡ false)
        (λ x k. text_ltb-transitive r.started_at y.started_at x.started_at newer k) ys h,
  )
]

newest_first-IsLatest : (l : List Session) → HeadIsLatest (newest_first l)
newest_first-IsLatest [] = tt
newest_first-IsLatest (x ∷ xs) = insert_desc-IsLatest x (newest_first xs) (newest_first-IsLatest xs)

text_ltb-same : (a : String) → text_ltb a a ≡ false
text_ltb-same a = elim (Bool-cases (text_ltb a a)) [ inl e ↦ text_ltb-asymmetric a a e | inr e ↦ e ]

none_open : (l : List Session) → All (λ r. is_open r ≡ true → ⊥) l → any_where is_open l ≡ false
none_open [] h = refl
none_open (x ∷ xs) h = elim (Bool-cases (is_open x)) [
  | inl e ↦ absurd (h.0 e)
  | inr e ↦ rw e (none_open xs h.1)
]

Distinct-select : (q : Session → Bool) (l : List Session) → Distinct l → Distinct (select_where q l)
Distinct-select q [] d = tt
Distinct-select q (x ∷ xs) d = elim (Bool-cases (q x)) [
  | inl e ↦
      rw e (All-select_where (λ (z : Session). z.id ≢ x.id) q xs d.0, Distinct-select q xs d.1)
  | inr e ↦ rw e (Distinct-select q xs d.1)
]

-- With distinct ids, a SELECT by the id of a row fetches that row.
fetched : (l : List Session) → Distinct l → All (λ r. first_where (session_is r.id) l ≡ some r) l
fetched [] d = tt
fetched (x ∷ xs) d = (
  rw (str_eq_refl x.id) refl,
  All-zip (λ (y : Session). y.id ≢ x.id) (λ r. first_where (session_is r.id) xs ≡ some r)
      (λ r. first_where (session_is r.id) (x ∷ xs) ≡ some r)
      (λ r ne h. ground (arith, eq_iff x.id r.id)) xs d.0 (fetched xs d.1),
)

-- `r` has the id of one of the rows.
abbrev HasId : List Session → Session → Type 0
HasId [] r = ⊥
HasId (x ∷ xs) r = (r.id ≡ x.id) ⊎ HasId xs r

HasId-self : (l : List Session) → All (HasId l) l
HasId-self [] = tt
HasId-self (x ∷ xs) =
    (inl refl, All-map (HasId xs) (HasId (x ∷ xs)) (λ r h. inr h) xs (HasId-self xs))

abbrev OpenAmong : Session → List Session → Session → Type 0
OpenAmong primary rest r = r.ended_at ≡ none → (r.id ≡ primary.id) ⊎ HasId rest r

-- What a recovery makes `t` of `s`: nothing new where no row was open, and otherwise the one of the
-- open rows that started last is the current session and has its row as before.
module _ {T : Type 0} where
  abbrev pub Keeps : Store T → Store T → Type 0
  Keeps s t =
      ((any_where is_open s.sessions ≡ false) × (t.current_session_id ≡ none) × (t ≡ s))
      ⊎ ((r : Session) × (first_where (session_is r.id) s.sessions ≡ some r)
          × (is_open r ≡ true)
          × All (λ (x : Session). is_open x ≡ true → text_ltb r.started_at x.started_at ≡ false)
              s.sessions
          × (t.current_session_id ≡ some r.id)
          × (first_where (session_is r.id) t.sessions ≡ some r))

module _ {T : Type 0} (I : Iso) (now : ℕ) (primary : Session) where
  close_step :
      (r : Session) (rest : List Session) (s : Store T)
      → All (OpenAmong primary (r ∷ rest)) s.sessions
      → All
          (OpenAmong primary rest)
          (close_row (now_iso_utc I now) "server_restart_duplicate" r.id s).sessions
  unfolding close_row end_row
  close_step r rest s h =
      All-update_where_to (OpenAmong primary (r ∷ rest)) (OpenAmong primary rest) (session_is r.id)
        _ s.sessions (λ x e k o. cc)
        (λ x e k o. elim (k o) [
          | inl p ↦ inl p
          | inr (inl same) ↦ absurd (ground (arith, eq_iff x.id r.id))
          | inr (inr later) ↦ inr later
        ])
        h

  close_duplicates-closes :
      (rest : List Session) (s : Store T)
      → All (OpenAmong primary rest) s.sessions
      → All (OpenAmong primary []) (close_duplicates I now rest s).sessions
  unfolding close_duplicates
  close_duplicates-closes [] s h = h
  close_duplicates-closes (r ∷ rest) s h = close_duplicates-closes rest _ (close_step r rest s h)

  close_duplicates-keeps :
      (rest : List Session) (s : Store T)
      → All (λ (y : Session). y.id ≢ primary.id) rest
      → first_where (session_is primary.id) (close_duplicates I now rest s).sessions
        ≡ first_where (session_is primary.id) s.sessions
  unfolding close_duplicates close_row end_row
  close_duplicates-keeps [] s n = refl
  close_duplicates-keeps (r ∷ rest) s n =
      close_duplicates-keeps rest _ n.1
      ∙ first_where-update_where_ne (session_is r.id) (session_is primary.id) _ s.sessions
          (λ x e. ground (arith, eq_iff x.id r.id, eq_iff x.id primary.id))
          (λ x e. ground (arith, eq_iff x.id r.id, eq_iff x.id primary.id))

  close_duplicates-fields :
      (rest : List Session) (s : Store T)
      → ((close_duplicates I now rest s).current_session_id ≡ s.current_session_id)
        × ((close_duplicates I now rest s).current_session_start_ts ≡ s.current_session_start_ts)
  unfolding close_duplicates close_row
  close_duplicates-fields [] s = (refl, refl)
  close_duplicates-fields (r ∷ rest) s = close_duplicates-fields rest _

  module _ (rest : List Session) (s : Store T) (d : Distinct s.sessions)
      (e : newest_first (select_where is_open s.sessions) ≡ primary ∷ rest) where
    All-found : All (OpenAmong primary rest) s.sessions
    All-found =
        All-map (λ r. is_open r ≡ true → (r.id ≡ primary.id) ⊎ HasId rest r)
          (OpenAmong primary rest) (λ r h o. h (rw o refl)) s.sessions
          (All-of_select_where (λ r. (r.id ≡ primary.id) ⊎ HasId rest r) is_open s.sessions
            (All-of_newest_first (λ r. (r.id ≡ primary.id) ⊎ HasId rest r) _
              (subst (All (λ r. (r.id ≡ primary.id) ⊎ HasId rest r)) (sym e) (
                inl refl,
                All-map (HasId rest) (λ r. (r.id ≡ primary.id) ⊎ HasId rest r) (λ r h. inr h) rest
                    (HasId-self rest),
              ))))

    orphans-Distinct : Distinct (primary ∷ rest)
    orphans-Distinct =
        subst Distinct e (Distinct-newest_first _ (Distinct-select is_open s.sessions d))

    abbrev Fetched : Session → Type 0
    Fetched r = first_where (session_is r.id) s.sessions ≡ some r

    primary_found : Fetched primary × (is_open primary ≡ true)
    primary_found =
        (subst (All (λ r. Fetched r × (is_open r ≡ true))) e (
          All-newest_first (λ r. Fetched r × (is_open r ≡ true)) _
            (All-select_where_test Fetched is_open s.sessions (fetched s.sessions d)))).0

    adopt-IsSound : IsSound (close_duplicates I now rest (resume_session primary s))
    unfolding resume_session
    adopt-IsSound =
        let resumed : Store T = resume_session primary s in
        let (now_current, now_started) = close_duplicates-fields rest resumed in
        let closed = close_duplicates-closes rest resumed All-found in
        record {
          open_is_current =
              subst (λ c. All (OpenIs c) (close_duplicates I now rest resumed).sessions)
                (sym now_current)
                (All-map (OpenAmong primary []) (OpenIs (some primary.id))
                  (λ r h o. elim (h o) [ inl p ↦ rw p | inr f ↦ absurd f ]) _ closed);
          current_is_open =
              subst
                (λ c.
                  HasRow (close_duplicates I now rest resumed).sessions c
                    (close_duplicates I now rest resumed).current_session_start_ts)
                (sym now_current)
                (
                  primary,
                  close_duplicates-keeps rest resumed orphans-Distinct.0 ∙ primary_found.0,
                  ground (arith, primary_found.1),
                  now_started,
                );
        }

    adopt-Keeps : Keeps s (close_duplicates I now rest (resume_session primary s))
    unfolding resume_session
    adopt-Keeps =
        let resumed : Store T = resume_session primary s in
        let latest =
          subst HeadIsLatest e (newest_first-IsLatest (select_where is_open s.sessions)) in
        let found = primary_found in
        inr (
          primary,
          found.0,
          found.1,
          All-of_select_where (λ (x : Session). text_ltb primary.started_at x.started_at ≡ false)
              is_open s.sessions
              (All-of_newest_first
                (λ (x : Session). text_ltb primary.started_at x.started_at ≡ false) _
                (subst (IsLatest primary) (sym e) (text_ltb-same primary.started_at, latest))),
          (close_duplicates-fields rest resumed).0,
          close_duplicates-keeps rest resumed orphans-Distinct.0 ∙ found.0,
        )

-- At a start, whatever rows were left open: where there was one, recovery ends all open rows but
-- one, which is kept as it was; it started no earlier than the others, and it is the current
-- session. Where no row was open, there is no current session and nothing changes.
pub recover-IsSound :
    {T : Type 0} (I : Iso) (now : ℕ) (s : Store T)
    → s.current_session_id ≡ none
    → Distinct s.sessions
    → IsSound (recover_orphaned_sessions I now s) × Keeps s (recover_orphaned_sessions I now s)
unfolding recover_orphaned_sessions
recover-IsSound {T} I now s fresh d = go (newest_first (select_where is_open s.sessions)) refl
  where
    go :
        (l : List Session)
        → newest_first (select_where is_open s.sessions) ≡ l
        → IsSound (adopt {T = T} I now l s) × Keeps s (adopt {T = T} I now l s)
    go (primary ∷ rest) e =
        (adopt-IsSound I now primary rest s d e, adopt-Keeps I now primary rest s d e)
    go [] e =
        let closed =
          All-of_select_where (λ r. ⊥) is_open s.sessions
            (All-of_newest_first (λ r. ⊥) _ (rw e tt)) in
        (
          record {
            open_is_current =
                All-map (λ r. is_open r ≡ true → ⊥) (OpenIs s.current_session_id)
                  (λ r h o. absurd (h (rw o refl))) s.sessions closed;
            current_is_open =
                subst (λ c. HasRow s.sessions c s.current_session_start_ts) (sym fresh) tt;
          },
          inl (none_open s.sessions closed, fresh, refl),
        )
