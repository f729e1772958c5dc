-- ===== src/Server/Checks.antt =====
-- The tests at the head of the handlers of service/api/websocket.py, in their order.
use igrill_remote_server.Prelude.{
  ℕ, zero, suc, ℤ, pos, String, Bool, true, false, not, ◌&&◌, ◌||◌, Option, none, some, List, [],
  ◌∷◌, map, str_eq, is_truthy, is_some, ltb_ℤ, if◌then◌else◌, any_where, select_where,
}
use igrill_remote_server.Action.{Result, ok, err, ◌then_try◌, key_error, value_error, type_error}
use igrill_remote_server.Json.{
  Json, null, int, text, array, object, nil, Fields, get_field, as_object, iterate, is_null, texts,
  truthy, to_int, to_text,
}
use igrill_remote_server.Store.Sessions.{get_session_state, session_exists}
use igrill_remote_server.Store.Timers.{timer_mode}
use igrill_remote_server.Target.{TargetConfig}
use igrill_remote_server.Target.Wire.{targets_from}
use igrill_remote_server.Server.{
  LiveDevice, unauthorized, invalid_payload, no_devices, device_not_found, no_active_session,
  invalid_mode, no_session_specified, session_not_found, no_session, Server, Context, Checked,
  passes, rejects, throws, ◌and_then◌, uncaught, ensure, require, is_bindable,
}

-- `except (KeyError, TypeError, ValueError)`
unfoldable pub caught {ℓ} : {A : Type ℓ} → Result A → Checked A
caught (ok a) = passes a
caught (err key_error) = rejects invalid_payload
caught (err type_error) = rejects invalid_payload
caught (err value_error) = rejects invalid_payload
caught (err e) = throws e

-- `str(value)[:n]`
abbrev pub truncated : ℕ → String → String
truncated zero s = String.[]
truncated (suc n) String.[] = String.[]
truncated (suc n) (String.◌∷◌ c s) = String.◌∷◌ c (truncated n s)

pub record StartRequest (F : Type 0) : Type 0 where
  pub targets : List (TargetConfig F)
  pub addresses : List String
  pub name : Option String
  pub target_duration_secs : Option ℤ

-- `action` of the timer handler.
pub data TimerAction : Type 0 where
  upsert start pause resume reset unsupported : TimerAction

pub record TimerRequest (F : Type 0) : Type 0 where
  pub session_id : String
  pub address : String
  pub probe_index : ℤ
  pub action : TimerAction
  pub mode : String
  pub duration_secs : Option ℤ

abbrev pub is_known : List LiveDevice → String → Bool
is_known l addr = any_where (λ (d : LiveDevice). str_eq d.address addr) l

unfoldable pub timer_action : String → TimerAction
timer_action s =
    if str_eq s "upsert"
    then upsert
    else if str_eq s "start"
    then start
    else if str_eq s "pause"
    then pause
    else if str_eq s "resume"
    then resume
    else if str_eq s "reset"
    then reset
    else unsupported

abbrev pub is_empty {ℓ} : {A : Type ℓ} → List A → Bool
is_empty [] = true
is_empty (a ∷ l) = false

module _ {F : Type 0} (C : Context F) where
  open C use {real, python}

  abbrev pub is_zero : F → Bool
  is_zero x = real.le x (real.of_ℕ 0) && real.le (real.of_ℕ 0) x

  abbrev pub holds : Json F → Bool
  holds v = truthy is_zero v

  -- `if not ctx.authorized`, and the first `ctx.payload.get`
  unfoldable pub open_payload : Checked (Fields F)
  open_payload = ensure C.authorized unauthorized and_then λ _. uncaught (as_object C.payload)

  unfoldable pub parse_targets : Fields F → Checked (List (TargetConfig F))
  parse_targets fields =
      caught (iterate (get_field "targets" (array nil) fields) then_try targets_from real python)

  -- `current_session_id`, which must be set
  unfoldable pub active_session : Server F → Checked String
  unfolding get_session_state
  active_session s = require (get_session_state s.history).current_session_id no_active_session

  -- `deviceAddresses`, else `deviceAddress`, else the devices that are connected
  unfoldable pub wanted_addresses : Fields F → Server F → Result (List String)
  wanted_addresses fields s =
      let several = get_field "deviceAddresses" (array nil) fields in
      let single = get_field "deviceAddress" null fields in
      if holds several
      then iterate several then_try texts
      else if holds single
      then texts (single ∷ [])
      else ok (
          map (λ (d : LiveDevice). d.address)
            (select_where (λ (d : LiveDevice). d.connected) s.devices))

  unfoldable pub name_of : Json F → Option String
  name_of v = if is_null v then none else some (truncated 200 (to_text python v))

  -- `int(...)`, where a TypeError or a ValueError is caught, and the test for a positive number
  unfoldable pub duration_of : Json F → Checked (Option ℤ)
  unfolding caught
  duration_of v =
      if is_null v
      then passes none
      else caught (to_int python v) and_then λ n.
          ensure (ltb_ℤ (pos 0) n) invalid_payload and_then λ _. passes (some n)

  unfoldable pub check_start : Server F → Checked (StartRequest F)
  unfolding open_payload parse_targets wanted_addresses duration_of
  check_start s = open_payload and_then λ fields. parse_targets fields and_then λ targets.
      uncaught (wanted_addresses fields s) and_then λ addresses.
      ensure (not (is_empty addresses)) no_devices and_then λ _.
      ensure (is_empty (select_where (λ a. not (is_known s.devices a)) addresses)) device_not_found
      and_then λ _. duration_of (get_field "targetDurationSecs" null fields) and_then λ duration.
          passes (record {
            targets = targets;
            addresses = addresses;
            name = name_of (get_field "name" null fields);
            target_duration_secs = duration;
          })

  abbrev pub text_or : String → Json F → String
  text_or other (text s) = s
  text_or other _ = other

  abbrev pub is_text : Json F → Bool
  is_text (text s) = true
  is_text _ = false

  abbrev pub as_index : Json F → Option ℤ
  as_index (int n) = some n
  as_index _ = none

  abbrev pub stored_int : Json F → Option ℤ
  stored_int null = none
  stored_int (int n) = some n
  stored_int v = C.affinity.as_int v

  abbrev pub stored_text : Json F → String
  stored_text (text s) = s
  stored_text v = C.affinity.as_text v

  -- What the branch of "upsert" asks before the store is called; a mode that is no text is none of
  -- the two, and an array or an object is refused when it is bound.
  unfoldable pub check_upsert : TimerAction → Json F → Json F → Checked (Unit {0})
  check_upsert upsert mode duration =
      ensure (not (str_eq (text_or "" mode) "count_down" && is_null duration)) invalid_mode
      and_then λ _.
          if is_some (timer_mode (text_or "" mode)) && not (is_bindable duration)
          then throws type_error
          else passes tt
  check_upsert _ mode duration = passes tt

  unfoldable pub check_timer : Server F → Checked (TimerRequest F)
  unfolding open_payload active_session check_upsert timer_action
  check_timer s = open_payload and_then λ fields.
      ensure (is_truthy (text_or "" (get_field "address" null fields))) invalid_payload
      and_then λ _.
          require (as_index (get_field "probe_index" null fields)) invalid_payload
          and_then λ probe_index.
              ensure (is_text (get_field "action" null fields)) invalid_payload and_then λ _.
              active_session s and_then λ sid.
              (let action = timer_action (text_or "" (get_field "action" null fields)) in
                let mode = get_field "mode" null fields in
                let duration = get_field "duration_secs" null fields in
                check_upsert action mode duration and_then λ _. passes (record {
                  session_id = sid;
                  address = text_or "" (get_field "address" null fields);
                  probe_index = probe_index;
                  action = action;
                  mode = text_or "" mode;
                  duration_secs = stored_int duration;
                }))

  -- The session and the body of a note.
  unfoldable pub check_notes : Server F → Checked (String × String)
  unfolding open_payload session_exists get_session_state
  check_notes s = open_payload and_then λ fields.
      ensure (is_text (get_field "body" null fields)) invalid_payload and_then λ _.
      (let given = get_field "sessionId" null fields in
        if is_null given
        then require (get_session_state s.history).current_session_id no_session_specified
        else passes (to_text python given))
      and_then λ sid. ensure (session_exists sid s.history) session_not_found and_then λ _.
          passes (sid, text_or "" (get_field "body" null fields))

  -- The session, the targets and `deviceAddress` as it came.
  unfoldable pub check_target_update : Server F → Checked (String × List (TargetConfig F) × Json F)
  unfolding open_payload parse_targets active_session
  check_target_update s = open_payload and_then λ fields. parse_targets fields and_then λ targets.
      active_session s and_then λ sid. passes (sid, targets, get_field "deviceAddress" null fields)

  -- `add_address not in known_devices`; an array or an object cannot be hashed.
  unfoldable pub known_device : List LiveDevice → Json F → Checked String
  known_device l (text a) = ensure (is_known l a) device_not_found and_then λ _. passes a
  known_device l (array v) = throws type_error
  known_device l (object o) = throws type_error
  known_device l _ = rejects device_not_found

  unfoldable pub check_add : Server F → Checked (String × String)
  unfolding open_payload known_device active_session
  check_add s = open_payload and_then λ fields.
      ensure (holds (get_field "deviceAddress" null fields)) invalid_payload and_then λ _.
      known_device s.devices (get_field "deviceAddress" null fields) and_then λ addr.
      active_session s and_then λ sid. passes (sid, addr)

  -- The session, the name and the notes, which are bound where the session is there.
  unfoldable pub check_update : Server F → Checked (String × Option String × Option String)
  unfolding open_payload get_session_state name_of session_exists
  check_update s = open_payload and_then λ fields.
      (let given = get_field "sessionId" null fields in
        let notes = get_field "notes" null fields in
        (if is_null given
          then require (get_session_state s.history).current_session_id no_session
          else passes (stored_text given))
        and_then λ sid.
            if is_bindable given && (is_bindable notes || not (session_exists sid s.history))
            then passes (
              sid,
              name_of (get_field "name" null fields),
              if is_null notes then none else some (stored_text notes),
            )
            else throws type_error)
