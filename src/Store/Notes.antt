-- ===== src/Store/Notes.antt =====
-- The notes of HistoryStore (service/history/store.py). The id that AUTOINCREMENT gives is an
-- argument.
pub mod Primary
use igrill_remote_server.Prelude.{
  ℕ, String, Bool, true, false, ◌&&◌, ◌||◌, Option, none, some, List, [], ◌∷◌, ◌++◌, str_eq, ltb,
  ◌==◌, text_ltb, if◌then◌else◌, select_where, any_where, update_where,
}
use igrill_remote_server.Action.{
  Action, Error, Result, ok, err, pure, raise, gets, modify, ◌>>=◌, ◌>>◌, integrity_error,
  assertion_error,
}
use igrill_remote_server.Clock.{Iso, now_iso_utc}
use igrill_remote_server.Store.{Store, Session, Note}
use igrill_remote_server.Store.Devices.{session_is}

-- ORDER BY created_at ASC, id ASC
abbrev pub note_before : Note → Note → Bool
note_before a b =
    text_ltb a.created_at b.created_at || (str_eq a.created_at b.created_at && ltb a.id b.id)

-- LIMIT 1
unfoldable pub earliest : List Note → Option Note
earliest [] = none
earliest (x ∷ xs) = elim (earliest xs) [
  | none ↦ some x
  | some y ↦ if note_before y x then some y else some x
]

abbrev pub note_of : String → Note → Bool
note_of sid n = str_eq n.session_id sid

abbrev pub note_is : ℕ → Note → Bool
note_is id n = n.id == id

unfoldable pub set_body : String → String → Note → Note
set_body body now_ts n = record n { body = body; updated_at = now_ts }

abbrev pub new_note : ℕ → String → String → String → Note
new_note id sid now_ts body = record {
  id = id;
  session_id = sid;
  created_at = now_ts;
  updated_at = now_ts;
  body = body;
}

module _ {T : Type 0} where
  unfoldable pub get_primary_note : String → Store T → Option Note
  get_primary_note sid s = earliest (select_where (note_of sid) s.session_notes)

  abbrev pub with_notes : Store T → List Note → Store T
  with_notes s notes = record s { db = record s.db { session_notes = notes } }

  -- INSERT where there is no note, UPDATE of the primary one otherwise.
  unfoldable pub write_note : ℕ → String → String → String → Store T → Result (Unit {0}) × Store T
  write_note new_id now_ts sid body s = elim (get_primary_note sid s) [
    | none ↦
        if any_where (session_is sid) s.sessions
        then (ok tt, with_notes s (s.session_notes ++ new_note new_id sid now_ts body ∷ []))
        else (err integrity_error, s)
    | some existing ↦ (
      ok tt,
      with_notes s (update_where (note_is existing.id) (set_body body now_ts) s.session_notes),
    )
  ]

  -- UPDATE sessions SET notes = ? WHERE id = ?
  unfoldable pub copy_notes : String → String → Store T → Store T
  copy_notes sid body s = record s {
    db = record s.db {
      sessions = update_where (session_is sid) (λ r. record r { notes = some body }) s.sessions;
    };
  }

  abbrev pub or_assert : Option Note → Action (Store T) Note
  or_assert none = raise assertion_error
  or_assert (some row) = pure row

  unfoldable pub upsert_primary_note : Iso → ℕ → ℕ → String → String → Action (Store T) Note
  upsert_primary_note I now new_id sid body = do
    write_note new_id (now_iso_utc I now) sid body
    modify (copy_notes sid body)
    row ← gets (get_primary_note sid)
    or_assert row
