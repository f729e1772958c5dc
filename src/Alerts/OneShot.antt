-- ===== src/Alerts/OneShot.antt =====
-- The events of AlertEvaluator.evaluate (service/alerts/evaluator.py) over sequences of readings.
use igrill_remote_server.Prelude.{
  ℕ, ◌+◌, ◌≤◌, ℤ, String, ◌≡◌, ◌≢◌, refl, ap, ◌⊎◌, inl, inr, Bool, true, false, ◌&&◌, none, some,
  List, [], ◌∷◌, ◌++◌, map, str_eq, eq_ℤ, eq_ℤ_iff, str_eq_refl, eq_iff, arith,
  any_where-eq-is_some, first_where-update_where, first_where-append_new,
  first_where-update_where_ne, first_where-append, Bool-cases, Option-cases, any_where,
}
use mathlib.Core.Option
use igrill_remote_server.Real.{Real}
use igrill_remote_server.Target.{TargetConfig}
use igrill_remote_server.Store.{Mode}
use igrill_remote_server.Alerts.{
  Probe, ProbeAlertState, Alert, approaching, approaching_high, reached, exceeded, reminder,
  AlertEvent, StateEntry, Evaluator, state_key, get_state, put_state, Zone, zone, fire, Fired,
  fire_approaching, fire_approaching_high, fire_reached, fire_exceeded, fire_reminder,
}
use igrill_remote_server.Alerts.Evaluate.{
  reading_at, state_or_fresh, targets_of, check_target, check_targets, evaluate,
}

-- 1 where the flag of the alert is set; a reminder has no flag.
abbrev one_if : Bool → ℕ
one_if false = 0
one_if true = 1

abbrev pub sent : Alert → ProbeAlertState → Bool
sent approaching st = st.approaching_sent
sent approaching_high st = st.approaching_high_sent
sent reached st = st.reached_sent
sent exceeded st = st.exceeded_sent
sent reminder st = false

abbrev is_alert : Alert → Alert → Bool
is_alert approaching approaching = true
is_alert approaching_high approaching_high = true
is_alert reached reached = true
is_alert exceeded exceeded = true
is_alert reminder reminder = true
is_alert _ _ = false

abbrev count_kind : Alert → List Alert → ℕ
count_kind k [] = 0
count_kind k (x ∷ xs) = one_if (is_alert k x) + count_kind k xs

fire-once :
    (now : ℕ) (mode : Mode) (interval : ℤ) (z : Zone) (st : ProbeAlertState) (k : Alert)
    → k ≢ reminder
    → count_kind k (fire now mode interval z st).0 + one_if (sent k st)
      ≤ one_if (sent k (fire now mode interval z st).1)
unfolding fire fire_approaching fire_approaching_high fire_reached fire_exceeded fire_reminder
fire-once now mode interval z st approaching ne = ground arith
fire-once now mode interval z st approaching_high ne = ground arith
fire-once now mode interval z st reached ne = ground arith
fire-once now mode interval z st exceeded ne = ground arith
fire-once now mode interval z st reminder ne = absurd (ne refl)

-- The table of states.
pub state_key_ne :
    (sid sid' : String) (idx idx' : ℤ) (e : StateEntry)
    → (sid ≢ sid') ⊎ (idx ≢ idx')
    → state_key sid idx e ≡ true
    → state_key sid' idx' e ≡ false
state_key_ne sid sid' idx idx' e (inl ne) h =
    ground (arith, eq_iff e.session_id sid, eq_iff e.session_id sid', ne)
state_key_ne sid sid' idx idx' e (inr ne) h =
    ground (arith, eq_ℤ_iff e.probe_index idx, eq_ℤ_iff e.probe_index idx', ne)

pub own_key : (sid : String) (idx : ℤ) → (str_eq sid sid && eq_ℤ idx idx) ≡ true
own_key sid idx = ground (arith, str_eq_refl sid, eq_ℤ_iff idx idx)

module _ (sid : String) (idx : ℤ) (st : ProbeAlertState) (l : List StateEntry) where
  pub get_state-put_state : get_state sid idx (put_state sid idx st l) ≡ some st
  unfolding get_state put_state
  get_state-put_state = elim (Bool-cases (any_where (state_key sid idx) l)) [
    | inl e ↦ rw e (
        ground (
          arith,
          any_where-eq-is_some (state_key sid idx) l,
          first_where-update_where (state_key sid idx) (λ e. record e { state = st }) l (λ x. refl),
        ))
    | inr e ↦ rw e (
        ground (
          arith,
          first_where-append_new (state_key sid idx) l
              (record { session_id = sid; probe_index = idx; state = st }) e (own_key sid idx),
        ))
  ]

  pub get_state-put_state_ne :
      (sid' : String) (idx' : ℤ)
      → (sid ≢ sid') ⊎ (idx ≢ idx')
      → get_state sid' idx' (put_state sid idx st l) ≡ get_state sid' idx' l
  unfolding get_state put_state
  get_state-put_state_ne sid' idx' ne = elim (Bool-cases (any_where (state_key sid idx) l)) [
    | inl e ↦ rw e (
        ap (Option.map (λ x. x.state)) (
          first_where-update_where_ne (state_key sid idx) (state_key sid' idx')
            (λ e. record e { state = st }) l (λ x h. state_key_ne sid sid' idx idx' x ne h)
            (λ x h. state_key_ne sid sid' idx idx' (record x { state = st }) ne h)))
    | inr e ↦ rw e (
        ground (
          arith,
          first_where-append (state_key sid' idx') l
              (record { session_id = sid; probe_index = idx; state = st } ∷ []),
          state_key_ne sid sid' idx idx'
              (record { session_id = sid; probe_index = idx; state = st }) ne (own_key sid idx),
        ))
  ]

-- The events of one kind for one probe of one session.
module _ {F : Type 0} (k : Alert) (sid : String) (idx : ℤ) where
  abbrev pub concerns : AlertEvent F → Bool
  concerns e = is_alert k e.kind && str_eq e.session_id sid && eq_ℤ e.probe_index idx

  abbrev pub times : List (AlertEvent F) → ℕ
  times [] = 0
  times (e ∷ es) = one_if (concerns e) + times es

  times-append : (a b : List (AlertEvent F)) → times (a ++ b) ≡ times a + times b
  times-append [] b = omega arith
  times-append (x ∷ xs) b = ground (arith, times-append xs b)

  module _ (sensor_id sid' : String) (idx' : ℤ) (temp : F) (t : TargetConfig F) where
    abbrev event : Alert → AlertEvent F
    event kind = record {
      kind = kind;
      sensor_id = sensor_id;
      session_id = sid';
      probe_index = idx';
      current_temp = temp;
      target = t;
    }

    times-own :
        sid' ≡ sid
        → idx' ≡ idx
        → (kinds : List Alert) → times (map event kinds) ≡ count_kind k kinds
    times-own e h [] = refl
    times-own e h (x ∷ xs) = ground (arith, str_eq_refl sid, eq_ℤ_iff idx' idx, times-own e h xs)

    times-other : (sid' ≢ sid) ⊎ (idx' ≢ idx) → (kinds : List Alert) → times (map event kinds) ≡ 0
    times-other ne [] = refl
    times-other (inl ne) (x ∷ xs) = ground (arith, eq_iff sid' sid, times-other (inl ne) xs)
    times-other (inr ne) (x ∷ xs) = ground (arith, eq_ℤ_iff idx' idx, times-other (inr ne) xs)

pub same_key :
    (sid sid' : String) (idx idx' : ℤ)
    → ((sid' ≡ sid) × (idx' ≡ idx)) ⊎ ((sid' ≢ sid) ⊎ (idx' ≢ idx))
same_key sid sid' idx idx' = elim (Bool-cases (str_eq sid' sid)) [
  | inr e ↦ inr (inl (λ h. ground (arith, eq_iff sid' sid)))
  | inl e ↦ elim (Bool-cases (eq_ℤ idx' idx)) [
    | inr f ↦ inr (inr (λ h. ground (arith, eq_ℤ_iff idx' idx)))
    | inl f ↦ inl ((eq_iff sid' sid).0 e, (eq_ℤ_iff idx' idx).0 f)
  ]
]

abbrev pub flag : Alert → String → ℤ → List StateEntry → ℕ
flag k sid idx states = elim (get_state sid idx states) [ none ↦ 0 | some st ↦ one_if (sent k st) ]

flag-fresh :
    (k : Alert) (sid : String) (idx : ℤ) (states : List StateEntry)
    → one_if (sent k (state_or_fresh sid idx states)) ≡ flag k sid idx states
unfolding state_or_fresh
flag-fresh approaching sid idx states = ground arith
flag-fresh approaching_high sid idx states = ground arith
flag-fresh reached sid idx states = ground arith
flag-fresh exceeded sid idx states = ground arith
flag-fresh reminder sid idx states = ground arith

module _ {F : Type 0} (R : Real F) (k : Alert) (sid : String) (idx : ℤ) (ne : k ≢ reminder) where
  -- What is sent and what is yet to be flagged do not exceed what is flagged.
  abbrev Accounts :
      List (AlertEvent F) × List StateEntry → List (AlertEvent F) × List StateEntry → Type 0
  Accounts (events, states) (events', states') =
      times k sid idx events' + flag k sid idx states
      ≤ times k sid idx events + flag k sid idx states'

  fired-Accounts :
      (sensor_id sid' : String) (temp : F) (t : TargetConfig F) (events : List (AlertEvent F))
      (states : List StateEntry) (f : Fired)
      → count_kind k f.0 + one_if (sent k (state_or_fresh sid' t.probe_index states))
        ≤ one_if (sent k f.1)
      → Accounts
          (events, states)
          (
            events ++ map (event k sid idx sensor_id sid' t.probe_index temp t) f.0,
            put_state sid' t.probe_index f.1 states,
          )
  fired-Accounts sensor_id sid' temp t events states (kinds, st) h =
      elim (same_key sid sid' idx t.probe_index) [
        | inl (e, i) ↦ ground (
          arith,
          times-append k sid idx events
              (map (event k sid idx sensor_id sid' t.probe_index temp t) kinds),
          times-own k sid idx sensor_id sid' t.probe_index temp t e i kinds,
          get_state-put_state sid' t.probe_index st states,
          flag-fresh k sid idx states,
        )
        | inr n ↦ ground (
          arith,
          times-append k sid idx events
              (map (event k sid idx sensor_id sid' t.probe_index temp t) kinds),
          times-other k sid idx sensor_id sid' t.probe_index temp t n kinds,
          get_state-put_state_ne sid' t.probe_index st states sid idx n,
        )
      ]

  idle-Accounts :
      (sid' : String) (idx' : ℤ) (events : List (AlertEvent F)) (states : List StateEntry)
      → Accounts
          (events, states)
          (events, put_state sid' idx' (state_or_fresh sid' idx' states) states)
  idle-Accounts sid' idx' events states = elim (same_key sid sid' idx idx') [
    | inl (e, i) ↦ ground (
      arith,
      e,
      i,
      get_state-put_state sid' idx' (state_or_fresh sid' idx' states) states,
      flag-fresh k sid idx states,
    )
    | inr n ↦
        ground (
          arith,
          get_state-put_state_ne sid' idx' (state_or_fresh sid' idx' states) states sid idx n,
        )
  ]

  check_target-Accounts :
      (now : ℕ) (sid' sensor_id : String) (probes : List (Probe F)) (t : TargetConfig F)
      (acc : List (AlertEvent F) × List StateEntry)
      → Accounts acc (check_target R now sid' sensor_id probes t acc)
  unfolding check_target
  check_target-Accounts now sid' sensor_id probes t (events, states) =
      elim (Option-cases (reading_at t.probe_index probes)) [
        | inl e ↦ simp (e, check_target) (omega arith)
        | inr (temp, e) ↦ elim (Option-cases (zone R t temp)) [
          | inl f ↦ simp (e, f, check_target) (idle-Accounts sid' t.probe_index events states)
          | inr (z, f) ↦
              simp (e, f, check_target)
                (fired-Accounts sensor_id sid' temp t events states
                  (fire now t.mode t.reminder_interval_secs z
                    (state_or_fresh sid' t.probe_index states))
                  (fire-once now t.mode t.reminder_interval_secs z
                    (state_or_fresh sid' t.probe_index states) k ne))
        ]
      ]

  check_targets-Accounts :
      (now : ℕ) (sid' sensor_id : String) (probes : List (Probe F)) (ts : List (TargetConfig F))
      (acc : List (AlertEvent F) × List StateEntry)
      → Accounts acc (check_targets R now sid' sensor_id probes ts acc)
  unfolding check_targets
  check_targets-Accounts now sid' sensor_id probes [] acc = omega arith
  check_targets-Accounts now sid' sensor_id probes (t ∷ ts) acc = ground (
    arith,
    check_target-Accounts now sid' sensor_id probes t acc,
    check_targets-Accounts now sid' sensor_id probes ts
        (check_target R now sid' sensor_id probes t acc),
  )

-- One reading of a sensor, at its instant.
pub record Poll (F : Type 0) : Type 0 where
  pub now : ℕ
  pub session_id : String
  pub probes : List (Probe F)
  pub sensor_id : String

module _ {F : Type 0} (R : Real F) where
  -- The events of the polls, in order, and the evaluator after them.
  unfoldable pub run_polls : List (Poll F) → Evaluator F → List (AlertEvent F) × Evaluator F
  run_polls [] ev = ([], ev)
  run_polls (p ∷ ps) ev =
      let (events, ev') = evaluate R p.now p.session_id p.probes p.sensor_id ev in
      let (later, last) = run_polls ps ev' in (events ++ later, last)

  run_polls-flag :
      (k : Alert) (sid : String) (idx : ℤ)
      → k ≢ reminder
      → (ps : List (Poll F)) (ev : Evaluator F)
      → times k sid idx (run_polls ps ev).0 + flag k sid idx ev.states
        ≤ flag k sid idx (run_polls ps ev).1.states
  unfolding run_polls evaluate
  run_polls-flag k sid idx ne [] ev = omega arith
  run_polls-flag k sid idx ne (p ∷ ps) ev =
      let first =
        check_targets R p.now p.session_id p.sensor_id p.probes (targets_of p.session_id ev.targets)
          ([], ev.states) in
      ground (
        arith,
        times-append k sid idx first.0 (run_polls ps (record ev { states = first.1 })).0,
        check_targets-Accounts R k sid idx ne p.now p.session_id p.sensor_id p.probes
            (targets_of p.session_id ev.targets) ([], ev.states),
        run_polls-flag k sid idx ne ps (record ev { states = first.1 }),
      )

  flag-le :
      (k : Alert) (sid : String) (idx : ℤ) (states : List StateEntry) → flag k sid idx states ≤ 1
  flag-le k sid idx states = ground arith

  -- Over any sequence of readings, of any sessions and sensors, each alert but the reminder is sent
  -- at most once for a probe of a session, and not at all where its flag was set before.
  pub run_polls-once :
      (k : Alert) (sid : String) (idx : ℤ) (ps : List (Poll F)) (ev : Evaluator F)
      → k ≢ reminder
      → times k sid idx (run_polls ps ev).0 + flag k sid idx ev.states ≤ 1
  run_polls-once k sid idx ps ev ne =
      ground
        (arith, run_polls-flag k sid idx ne ps ev, flag-le k sid idx (run_polls ps ev).1.states)
