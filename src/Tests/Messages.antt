-- ===== src/Tests/Messages.antt =====
-- The theorems on messages, targets and downsampling at concrete values.
use igrill_remote_server.Prelude.{
  fits_integer-large, ℕ, ◌≡◌, refl, subst, arith, pos, negsuc, String, Bool, true, false, none,
  some, List, [], ◌∷◌,
}
use igrill_remote_server.Action.{ok, err, overflow_error, value_error}
use igrill_remote_server.Json.{
  to_int, Json, int, text, object, Fields, end, field, Python, get_field, find_field, truthy,
  as_object, iterate, texts,
}
use igrill_remote_server.Store.{Store, ProbeReading}
use igrill_remote_server.Store.Sessions.{
  end_session_locked, session_exists, discard_current_session, discard_session_locked, transaction,
  discard_statements,
}
use igrill_remote_server.Store.Targets.{get_targets}
use igrill_remote_server.RateLimiter.{RateLimiter, allow, allow_swept, swept}
use igrill_remote_server.Target.Wire.{targets_from, from_dict, to_dict}
use igrill_remote_server.Target.Wire.RoundTrip.{from_dict-to_dict}
use igrill_remote_server.Alerts.Evaluate.{targets_of}
use igrill_remote_server.Downsampler.{TimeZone, Averages}
use igrill_remote_server.Downsampler.Pass.{downsample_range, end_session}
use igrill_remote_server.Downsampler.Keeps.{outside_view, forget_readings}
use igrill_remote_server.Downsampler.Frame.{
  downsample_range-outside_view, window_ids, end_session-locked,
}
use igrill_remote_server.Server.{
  Server, Context, unauthorized, Message, session_discarded, ack, Affinity, settle, publish,
}
use igrill_remote_server.Server.Checks.{
  StartRequest, check_start, open_payload, parse_targets, caught, wanted_addresses, duration_of,
  name_of,
}
use igrill_remote_server.Server.Handlers.{
  handle_session_start, handle_session_discard, answer_discard, forget_session,
}
use igrill_remote_server.Server.Dispatch.{
  dispatch, dispatch_object, dispatch_type, limit, handler_of, route, call, replied,
}
use igrill_remote_server.Server.Refusals.{dispatch-error_reply}
use igrill_remote_server.Server.Rehydrate.{no_evaluator, rehydrate_alert_evaluator}
use igrill_remote_server.Server.Coupling.{rehydrate-IsCoupled}
use igrill_remote_server.Server.Coupled.{IsCoupledServer}
use igrill_remote_server.Server.Calls.{dispatch-IsCoupledServer}
use igrill_remote_server.Server.Acks.{handle_session_start-ack, handle_session_start-overflow}
use igrill_remote_server.Tests.{clock, cooking}
use igrill_remote_server.Tests.Cooks.{degrees, steak}

abbrev whole : Python ℕ
whole = record {
  int_of_float = λ x. ok (pos x);
  int_of_text = λ s. err value_error;
  float_of_int = λ n. elim n [ pos k ↦ ok k | negsuc k ↦ err value_error ];
  float_of_text = λ s. err value_error;
  text_of = λ v. "?";
}

steak_again : from_dict degrees whole (to_dict (steak 60)) ≡ ok (steak 60)
steak_again =
    from_dict-to_dict degrees whole (steak 60)
      (record { probe_low = refl; probe_high = refl; offset_sign = refl; interval_sign = refl })

abbrev local_zone : TimeZone
local_zone = record { local = λ t. t; isoformat_naive = λ t. "N" }

abbrev first_value : List ℕ → ℕ
first_value [] = 0
first_value (x ∷ l) = x

abbrev averages : Averages ℕ
averages = record { mean = first_value; rounded_mean = first_value }

abbrev reading : ℕ → ℕ → String → ProbeReading ℕ
reading id seq ts = record {
  id = id;
  session_id = "s";
  address = "d";
  recorded_at = ts;
  seq = seq;
  probe_index = pos 1;
  temperature = some 60;
}

-- Two readings of one minute, and a later one.
abbrev measured : Store ℕ
measured = record cooking {
  db = record cooking.db {
    probe_readings = reading 1 1 "Ti" ∷ reading 2 2 "Tii" ∷ reading 3 3 "Tiiiiii" ∷ [];
  };
}

abbrev cutoff : String
cutoff = "Tiiii"

abbrev sid : String
sid = "s"

later_reading_kept :
    outside_view sid
      (window_ids averages clock local_zone none 4 sid cutoff none 60 measured)
      4
      (downsample_range averages clock local_zone none 4 sid cutoff none 60 measured).1
    ≡ outside_view sid
        (window_ids averages clock local_zone none 4 sid cutoff none 60 measured)
        4
        measured
later_reading_kept =
    downsample_range-outside_view averages clock local_zone none 4 sid cutoff none 60 measured

ended_anyway :
    let out = end_session averages clock local_zone 9 10 (some 0, none) (4, 5) "user" measured in
    let locked = end_session_locked clock 9 "user" measured in
    (out.0 ≡ locked.0) × (forget_readings out.1 ≡ forget_readings locked.1)
ended_anyway =
    end_session-locked averages clock local_zone 9 10 (some 0, none) (4, 5) "user" measured

-- A server that cooks, and the requests of one client.
abbrev affinity : Affinity ℕ
affinity = record { as_text = λ v. ""; as_int = λ v. none }

abbrev pub asked : Bool → Fields ℕ → Context ℕ
asked authorized payload = record {
  iso = clock;
  time_zone = local_zone;
  averages = averages;
  real = degrees;
  python = whole;
  affinity = affinity;
  now = 9;
  later = 10;
  fault = none;
  faults = (none, none);
  ids = (4, 5);
  uuid = "new";
  note_id = 8;
  authorized = authorized;
  payload = object payload;
}

abbrev pub server : Server ℕ
server = record {
  history = cooking;
  evaluator = no_evaluator;
  devices =
      record { address = "d"; connected = true; session_id = none; session_start_ts = none } ∷ [];
  events = [];
}

abbrev pub limiter : RateLimiter
limiter = record { max = 10; window = 60000000; requests = λ k. []; last_sweep = 0 }

abbrev discard_request : Json ℕ
discard_request = object (
    field "v" (int (pos 2))
      (field "type" (text "session_discard_request") (field "requestId" (text "r") end)))

abbrev peer : String
peer = "p"

sid_exists : session_exists sid cooking ≡ true
unfolding session_exists
sid_exists = refl

server-IsGrounded :
    (x : String) → cooking.current_session_id ≡ some x → session_exists x cooking ≡ true
server-IsGrounded x e =
    subst (λ (y : String). session_exists y cooking ≡ true) (ground (arith, e)) sid_exists

stranger_changes_nothing :
    (dispatch (asked false end) 1 peer (some discard_request) (limiter, server)).1.1 ≡ server
stranger_changes_nothing =
    dispatch-error_reply (asked false end) server 1 peer limiter server-IsGrounded unauthorized
      (some discard_request)
      (unfold dispatch dispatch_object dispatch_type get_field find_field limit handler_of allow
          allow_swept swept route truthy call handle_session_discard settle in
        refl)

server-IsCoupled : IsCoupledServer degrees server
unfolding targets_of get_targets
server-IsCoupled x e = refl

discard_keeps_coupled :
    IsCoupledServer degrees
      (dispatch (asked true end) 1 peer (some discard_request) (limiter, server)).1.1
discard_keeps_coupled =
    dispatch-IsCoupledServer (asked true end) server server-IsCoupled
      (record {
        not_current = λ e. cc;
        no_targets = unfold get_targets in refl;
        unknown = unfold targets_of in refl;
      })
      1 peer limiter (replied (ack (session_discarded sid))) (some discard_request)
      (unfold dispatch dispatch_object dispatch_type get_field find_field limit handler_of allow
          allow_swept swept route truthy call handle_session_discard settle discard_current_session
          discard_session_locked transaction discard_statements answer_discard publish
          forget_session in
        refl)

abbrev next_cook : StartRequest ℕ
next_cook = record { targets = []; addresses = "d" ∷ []; name = none; target_duration_secs = none }

cook_acknowledged :
    (message : Message ℕ) × ((handle_session_start
        (asked true (field "deviceAddress" (text "d") end))
        server).0
      ≡ ok (ack message))
cook_acknowledged =
    handle_session_start-ack (asked true (field "deviceAddress" (text "d") end)) server next_cook
      (unfold check_start open_payload as_object parse_targets get_field find_field iterate
          targets_from caught wanted_addresses truthy texts duration_of name_of in
        refl)
      refl tt refl

abbrev too_long : ℕ
too_long = 9223372036854775808

abbrev long_cook : StartRequest ℕ
long_cook = record next_cook { target_duration_secs = some (pos too_long) }

abbrev long_request : Context ℕ
long_request =
    asked true
      (field "deviceAddress" (text "d") (field "targetDurationSecs" (int (pos too_long)) end))

prior_ended : handle_session_start long_request server ≡ (
  err overflow_error,
  record server { history = (end_session_locked clock 9 "user" cooking).1 },
)
prior_ended =
    handle_session_start-overflow long_request server long_cook
      (unfold check_start open_payload as_object parse_targets get_field find_field iterate
          targets_from caught wanted_addresses truthy texts duration_of name_of to_int in
        refl)
      (fits_integer-large too_long refl)

resumed_targets :
    targets_of sid (rehydrate_alert_evaluator degrees cooking no_evaluator).targets
    ≡ get_targets degrees sid cooking
resumed_targets = rehydrate-IsCoupled degrees cooking sid refl
