-- ===== src/Store/Notes/Primary.antt =====
-- The primary note (service/history/store.py) before and after `upsert_primary_note`.
use mathlib.Core.Option
use igrill_remote_server.Prelude.{
  ℕ, String, ◌≡◌, refl, ap, ◌∙◌, Bool, true, none, some, List, [], ◌∷◌, ◌++◌, arith, str_eq_refl,
  if◌then◌else◌, select_where, any_where, update_where,
}
use igrill_remote_server.Action.{ok, ◌>>=◌}
use igrill_remote_server.Clock.{Iso, now_iso_utc}
use igrill_remote_server.Store.{Store, Note}
use igrill_remote_server.Store.Devices.{session_is}
use igrill_remote_server.Store.Notes.{
  earliest, note_of, note_is, set_body, get_primary_note, with_notes, new_note, write_note,
  copy_notes, upsert_primary_note,
}

-- An update that keeps the session, the creation and the id of a note keeps their order.
module _ (p : Note → Bool) (body now_ts : String) where
  abbrev updated : Note → Note
  updated n = if p n then set_body body now_ts n else n

  select-update :
      (sid : String) (l : List Note)
      → select_where (note_of sid) (update_where p (set_body body now_ts) l)
        ≡ update_where p (set_body body now_ts) (select_where (note_of sid) l)
  unfolding set_body
  select-update sid [] = refl
  select-update sid (n ∷ l) = ground (arith, select-update sid l)

  earliest-update :
      (l : List Note)
      → earliest (update_where p (set_body body now_ts) l) ≡ Option.map updated (earliest l)
  unfolding earliest set_body
  earliest-update [] = refl
  earliest-update (n ∷ l) = ground (arith, earliest-update l)

earliest-none : (l : List Note) → earliest l ≡ none → l ≡ []
unfolding earliest
earliest-none [] h = refl
earliest-none (n ∷ l) h = ground arith

select-append_new :
    (sid : String) (n : Note) (l : List Note)
    → note_of sid n ≡ true
    → select_where (note_of sid) (l ++ n ∷ []) ≡ select_where (note_of sid) l ++ n ∷ []
select-append_new sid n [] h = rw h refl
select-append_new sid n (x ∷ l) h = ground (arith, select-append_new sid n l h)

module _ {T : Type 0} (I : Iso) (now new_id : ℕ) (sid body : String) (s : Store T) where
  abbrev now_ts : String
  now_ts = now_iso_utc I now

  -- What the method does once the first statement has run.
  upsert-written :
      (n : Note) (notes : List Note)
      → write_note new_id now_ts sid body s ≡ (ok tt, with_notes s notes)
      → earliest (select_where (note_of sid) notes) ≡ some n
      → upsert_primary_note I now new_id sid body s
        ≡ (ok n, copy_notes sid body (with_notes s notes))
  unfolding upsert_primary_note get_primary_note copy_notes
  upsert-written n notes w e = simp (w, ◌>>=◌) (rw e refl)

  write-existing :
      (n : Note)
      → get_primary_note sid s ≡ some n
      → write_note new_id now_ts sid body s
        ≡ (ok tt, with_notes s (update_where (note_is n.id) (set_body body now_ts) s.session_notes))
  unfolding write_note
  write-existing n h = simp (h, write_note) refl

  write-new :
      get_primary_note sid s ≡ none
      → any_where (session_is sid) s.sessions ≡ true
      → write_note new_id now_ts sid body s
        ≡ (ok tt, with_notes s (s.session_notes ++ new_note new_id sid now_ts body ∷ []))
  unfolding write_note
  write-new h known = simp (h, known, write_note) refl

  written_back :
      (n : Note) (notes : List Note)
      → earliest (select_where (note_of sid) notes) ≡ some n
      → get_primary_note sid (copy_notes sid body (with_notes s notes)) ≡ some n
  unfolding get_primary_note copy_notes
  written_back n notes e = e

  changed :
      (n : Note)
      → get_primary_note sid s ≡ some n
      → earliest (
          select_where
            (note_of sid)
            (update_where (note_is n.id) (set_body body now_ts) s.session_notes))
        ≡ some (set_body body now_ts n)
  unfolding get_primary_note
  changed n h =
      ap earliest (select-update (note_is n.id) body now_ts sid s.session_notes)
      ∙ earliest-update (note_is n.id) body now_ts (select_where (note_of sid) s.session_notes)
      ∙ rw h (ground arith)

  added :
      get_primary_note sid s ≡ none
      → earliest
          (select_where (note_of sid) (s.session_notes ++ new_note new_id sid now_ts body ∷ []))
        ≡ some (new_note new_id sid now_ts body)
  unfolding get_primary_note earliest
  added h =
      ap earliest
        (select-append_new sid (new_note new_id sid now_ts body) s.session_notes (str_eq_refl sid))
      ∙ rw (earliest-none (select_where (note_of sid) s.session_notes) h) refl

  -- Where the session has a primary note, active or ended, writing it gives that note its new body
  -- and the instant, keeps its id and its creation, and it is the primary note still.
  pub upsert_primary_note-existing :
      (n : Note)
      → get_primary_note sid s ≡ some n
      → ((upsert_primary_note I now new_id sid body s).0 ≡ ok (set_body body (now_iso_utc I now) n))
        × (get_primary_note sid (upsert_primary_note I now new_id sid body s).1
            ≡ some (set_body body (now_iso_utc I now) n))
  upsert_primary_note-existing n h =
      rw (upsert-written (set_body body now_ts n) _ (write-existing n h) (changed n h))
        (refl, written_back (set_body body now_ts n) _ (changed n h))

  -- Where a session that exists has no note, writing one makes it the primary note.
  pub upsert_primary_note-new :
      get_primary_note sid s ≡ none
      → any_where (session_is sid) s.sessions ≡ true
      → ((upsert_primary_note I now new_id sid body s).0
          ≡ ok (new_note new_id sid (now_iso_utc I now) body))
        × (get_primary_note sid (upsert_primary_note I now new_id sid body s).1
            ≡ some (new_note new_id sid (now_iso_utc I now) body))
  upsert_primary_note-new h known =
      rw (upsert-written (new_note new_id sid now_ts body) _ (write-new h known) (added h))
        (refl, written_back (new_note new_id sid now_ts body) _ (added h))
