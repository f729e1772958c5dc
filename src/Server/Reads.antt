-- ===== src/Server/Reads.antt =====
-- _handle_sessions and _handle_history of service/api/websocket.py, which only read.
use igrill_remote_server.Prelude.{
  ℕ, ℤ, pos, pos_part, String, Option, none, some, List, [], ◌∷◌, ◌++◌, is_truthy, leb, leb_ℤ,
  ltb_ℤ, length, if◌then◌else◌,
}
use igrill_remote_server.Action.{type_error}
use igrill_remote_server.Json.{Json, null, int, Fields, object, get_field, is_null, to_int, to_text}
use igrill_remote_server.Store.Listings.{
  HistoryItem, SessionSummary, get_history_items, list_sessions,
}
use igrill_remote_server.Store.Targets.{get_targets}
use igrill_remote_server.Target.{TargetConfig}
use igrill_remote_server.Server.{
  Server, Context, invalid_payload, Checked, passes, rejects, throws, ◌and_then◌, is_bindable,
}
use igrill_remote_server.Server.Checks.{caught, stored_text, holds}

-- `limit` of a page: 20 where it is not positive, and at most 100.
unfoldable pub page_limit : ℤ → ℕ
page_limit n = if ltb_ℤ (pos 0) n then (if leb_ℤ n (pos 100) then pos_part n else 100) else 20

-- `limit` of a history: 10000 where it is missing or not positive, and at most that.
unfoldable pub history_limit : Option ℤ → ℕ
history_limit none = 10000
history_limit (some n) =
    if ltb_ℤ (pos 0) n then (if leb_ℤ n (pos 10000) then pos_part n else 10000) else 10000

unfoldable pub chunk_limit : ℤ → ℕ
chunk_limit n = if ltb_ℤ (pos 0) n then pos_part n else 200

-- The loop over the items, with the chunk that is being filled.
unfoldable pub send_chunks {ℓ} : {A : Type ℓ} → ℕ → List A → List A → List (List A)
send_chunks size [] [] = []
send_chunks size (x ∷ chunk) [] = (x ∷ chunk) ∷ []
send_chunks size chunk (x ∷ items) =
    let filled = chunk ++ x ∷ [] in
    let next = send_chunks size [] items in
    let more = send_chunks size filled items in
    if leb size (length filled) then filled ∷ next else more

-- `item.get("recorded_at") or latest_ts`
unfoldable pub last_recorded : {F : Type 0} → Option String → List (HistoryItem F) → Option String
last_recorded ts [] = ts
last_recorded ts (x ∷ items) =
    last_recorded (if is_truthy x.probe.recorded_at then some x.probe.recorded_at else ts) items

-- What the history handler sends: the chunks, and the payload of `history_end`.
pub record History (F : Type 0) : Type 0 where
  pub chunks : List (List (HistoryItem F))
  pub count : ℕ
  pub latest : Option String
  pub targets : Option (List (TargetConfig F))

module _ {F : Type 0} (C : Context F) where
  -- `isinstance(ctx.payload, dict)`
  unfoldable pub dictionary : Checked (Fields F)
  dictionary = elim C.payload [ object fields ↦ passes fields | _ ↦ rejects invalid_payload ]

  unfoldable pub handle_sessions : Server F → Checked (List SessionSummary)
  unfolding dictionary
  handle_sessions s = dictionary and_then λ fields.
      caught (to_int C.python (get_field "limit" (int (pos 20)) fields)) and_then λ limit.
      caught (to_int C.python (get_field "offset" (int (pos 0)) fields)) and_then λ offset.
      passes (list_sessions (page_limit limit) (pos_part offset) s.history)

  -- `int(limit)` where it is given.
  unfoldable pub optional_int : Json F → Checked (Option ℤ)
  optional_int v =
      if is_null v then passes none else caught (to_int C.python v) and_then λ n. passes (some n)

  -- A filter that is falsy is left out; an array or an object cannot be bound.
  unfoldable pub filter_of : Json F → Checked (Option String)
  filter_of v =
      if holds C v
      then (if is_bindable v then passes (some (stored_text C v)) else throws type_error)
      else passes none

  abbrev pub targets_at : Option String → Server F → Option (List (TargetConfig F))
  targets_at none s = none
  targets_at (some sid) s = some (get_targets C.real sid s.history)

  unfoldable pub answer_history : ℕ → Option String → List (HistoryItem F) → Server F → History F
  answer_history size sid items s = record {
    chunks = send_chunks size [] items;
    count = length items;
    latest = last_recorded none items;
    targets = targets_at sid s;
  }

  unfoldable pub handle_history : Server F → Checked (History F)
  unfolding dictionary optional_int filter_of answer_history
  handle_history s = dictionary and_then λ fields.
      optional_int (get_field "limit" null fields) and_then λ limit.
      (let given = get_field "sessionId" null fields in
        let sid = if is_null given then none else some (to_text C.python given) in
        caught (to_int C.python (get_field "chunkSize" (int (pos 200)) fields)) and_then λ size.
        filter_of (get_field "sinceTs" null fields) and_then λ since.
        filter_of (get_field "untilTs" null fields) and_then λ until. passes (
          answer_history (chunk_limit size) sid
            (get_history_items since until (some (history_limit limit)) sid s.history) s))
