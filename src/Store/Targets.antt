-- ===== src/Store/Targets.antt =====
-- The targets of HistoryStore (service/history/store.py). The foreign key on `sessions` and the
-- primary key are checked by each INSERT; what ran before the one that raises stays in the
-- connection's open transaction.
pub mod RoundTrip
use igrill_remote_server.Prelude.{
  ℤ, String, Bool, true, false, not, ◌&&◌, Option, none, some, List, [], ◌∷◌, ◌++◌, map, str_eq,
  eq_ℤ, pos, fits_integer, if◌then◌else◌, default, select_where, any_where, delete_where,
}
use igrill_remote_server.Action.{
  Action, Error, Result, ok, err, pure, raise, modify, ◌>>=◌, ◌>>◌, integrity_error, overflow_error,
}
use igrill_remote_server.Real.{Real}
use igrill_remote_server.Target.{TargetConfig}
use igrill_remote_server.Store.{Store, Session, SessionTarget}
use igrill_remote_server.Store.Devices.{session_is}

module _ {F : Type 0} where
  -- WHERE session_id = ? AND address = ?
  abbrev pub target_of : String → String → SessionTarget F → Bool
  target_of sid addr r = str_eq r.session_id sid && str_eq r.address addr

  abbrev pub target_key : String → String → ℤ → SessionTarget F → Bool
  target_key sid addr idx r = target_of sid addr r && eq_ℤ r.probe_index idx

  abbrev pub with_targets : Store F → List (SessionTarget F) → Store F
  with_targets s rows = record s { db = record s.db { session_targets = rows } }

  -- The two integers can be bound; of others the binding raises OverflowError.
  unfoldable pub is_bound : TargetConfig F → Bool
  is_bound t = fits_integer t.probe_index && fits_integer t.reminder_interval_secs

module _ {F : Type 0} (R : Real F) where
  abbrev pub stored_given : Option F → Option F
  stored_given none = none
  stored_given (some x) = R.stored x

  -- The row that the values of the INSERT make.
  abbrev pub target_row : String → String → TargetConfig F → SessionTarget F
  target_row sid addr t = record {
    session_id = sid;
    address = addr;
    probe_index = t.probe_index;
    mode = t.mode;
    target_value = stored_given t.target_value;
    range_low = stored_given t.range_low;
    range_high = stored_given t.range_high;
    pre_alert_offset = R.stored t.pre_alert_offset;
    reminder_interval_secs = some t.reminder_interval_secs;
    label = t.label;
    unit = t.unit;
  }

  -- INSERT INTO session_targets
  unfoldable pub insert_target : String → String → TargetConfig F → Action (Store F) (Unit {0})
  insert_target sid addr t s =
      if not (is_bound t)
      then (err overflow_error, s)
      else if any_where (session_is sid) s.sessions
          && not (any_where (target_key sid addr t.probe_index) s.session_targets)
      then (ok tt, with_targets s (s.session_targets ++ target_row sid addr t ∷ []))
      else (err integrity_error, s)

  -- INSERT OR REPLACE INTO session_targets
  unfoldable pub replace_target : String → String → TargetConfig F → Action (Store F) (Unit {0})
  replace_target sid addr t s =
      if not (is_bound t)
      then (err overflow_error, s)
      else if any_where (session_is sid) s.sessions
      then (
        ok tt,
        with_targets s (
            delete_where (target_key sid addr t.probe_index) s.session_targets
            ++ target_row sid addr t ∷ []),
      )
      else (err integrity_error, s)

  unfoldable pub save_targets :
      String → String → List (TargetConfig F) → Action (Store F) (Unit {0})
  save_targets sid addr [] = pure tt
  save_targets sid addr (t ∷ ts) = replace_target sid addr t >> save_targets sid addr ts

  -- The loop of `update_targets`.
  unfoldable pub insert_targets :
      String → String → List (TargetConfig F) → Action (Store F) (Unit {0})
  insert_targets sid addr [] = pure tt
  insert_targets sid addr (t ∷ ts) = insert_target sid addr t >> insert_targets sid addr ts

  unfoldable pub update_targets :
      String → String → List (TargetConfig F) → Action (Store F) (Unit {0})
  update_targets sid addr targets = do
    modify (λ s. with_targets s (delete_where (target_of sid addr) s.session_targets))
    insert_targets sid addr targets

  -- The TargetConfig of a row; a missing offset is 5.0 and a missing interval is 0.
  abbrev pub target_config : SessionTarget F → TargetConfig F
  target_config r = record {
    probe_index = r.probe_index;
    mode = r.mode;
    target_value = r.target_value;
    range_low = r.range_low;
    range_high = r.range_high;
    pre_alert_offset = default (R.of_ℕ 5) r.pre_alert_offset;
    reminder_interval_secs = default (pos 0) r.reminder_interval_secs;
    label = r.label;
    unit = r.unit;
  }

  unfoldable pub get_targets : String → Store F → List (TargetConfig F)
  get_targets sid s =
      map target_config (select_where (λ r. str_eq r.session_id sid) s.session_targets)

  -- The dictionary as a function; an address that it does not hold has no target.
  unfoldable pub get_targets_by_device : String → Store F → String → List (TargetConfig F)
  get_targets_by_device sid s addr =
      map target_config (select_where (target_of sid addr) s.session_targets)
