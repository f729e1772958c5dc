-- ===== src/Worker.antt =====
-- How DeviceWorker.run (service/ble/device_worker.py) keeps the membership of its device in the
-- active session.
use igrill_remote_server.Prelude.{
  ℕ, String, ◌≡◌, refl, false, ◌&&◌, none, some, List, [], ◌∷◌, arith, if◌then◌else◌, is_none,
  any_where, update_where, Option-cases, Bool-cases, inl, inr,
}
use igrill_remote_server.Clock.{Iso, now_iso_utc}
use igrill_remote_server.Store.{Store, SessionDevice}
use igrill_remote_server.Store.Devices.{
  member_is, device_left_session, device_rejoined_session, is_device_in_session,
}

module _ {T : Type 0} where
  -- After the device has authenticated.
  unfoldable pub on_connected : String → Store T → Store T
  on_connected address s = elim s.current_session_id [
    | none ↦ s
    | some session_id ↦
        if is_device_in_session address s
        then (device_rejoined_session session_id address s).1
        else s
  ]

  -- After the connection has gone.
  unfoldable pub on_disconnected : Iso → ℕ → String → Store T → Store T
  on_disconnected I now address s = elim s.current_session_id [
    | none ↦ s
    | some session_id ↦
        if is_device_in_session address s
        then (device_left_session I now session_id address s).1
        else s
  ]

none_joined :
    (sid addr now_ts : String) (rows : List SessionDevice)
    → any_where
        (λ m. member_is sid addr m && is_none m.left_at)
        (update_where (member_is sid addr) (λ m. record m { left_at = some now_ts }) rows)
      ≡ false
none_joined sid addr now_ts [] = refl
none_joined sid addr now_ts (m ∷ rows) = ground (arith, none_joined sid addr now_ts rows)

module _ {T : Type 0} (I : Iso) (now : ℕ) (address : String) (s : Store T) where
  left_out :
      (sid : String)
      → s.current_session_id ≡ some sid
      → is_device_in_session address (device_left_session I now sid address s).1 ≡ false
  unfolding is_device_in_session device_left_session
  left_out sid e = rw e (none_joined sid address (now_iso_utc I now) s.session_devices)

  absent : s.current_session_id ≡ none → is_device_in_session address s ≡ false
  unfolding is_device_in_session
  absent e = rw e refl

  -- A device whose connection has gone is not in the active session.
  on_disconnected-out : is_device_in_session address (on_disconnected I now address s) ≡ false
  unfolding on_disconnected
  on_disconnected-out = elim (Option-cases s.current_session_id) [
    | inl e ↦ simp (e, on_disconnected) (absent e)
    | inr (sid, e) ↦ elim (Bool-cases (is_device_in_session address s)) [
      | inl b ↦ simp (e, b, on_disconnected) (left_out sid e)
      | inr b ↦ simp (e, b, on_disconnected) refl
    ]
  ]

  -- The reconnect of the device then changes nothing: it does not rejoin its session, whatever that
  -- is.
  pub on_connected-on_disconnected :
      (is_device_in_session address (on_disconnected I now address s) ≡ false)
      × (on_connected address (on_disconnected I now address s) ≡ on_disconnected I now address s)
  unfolding on_connected
  on_connected-on_disconnected = (on_disconnected-out, ground (arith, on_disconnected-out))
