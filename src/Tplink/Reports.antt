-- ===== src/Tplink/Reports.antt =====
-- What a status report of a TP-Link device does to the registry.
use devicectrl_server.Prelude.{
  ℕ, ◌≡◌, some, List, [], ◌∷◌, ◌==◌, if◌then◌else◌, Result, ok, err, get, true, ◌⊎◌, values, find?,
  take, Option-cases, Result-cases, inl, inr,
}
use devicectrl_server.Deps.{Deps, Bytes}
use devicectrl_server.Common.{DeviceState, UpdateNotification}
use devicectrl_server.Devices.{Device}
use devicectrl_server.Devices.Registry.{IsKeyed, find-get}
use devicectrl_server.App.{Env, AppState, ◌>>=◌}
use devicectrl_server.Dispatch.Notification.{process_update_notification}
use devicectrl_server.Dispatch.Laws.{
  process_update_notification_known, process_update_notification-IsKeyed,
}
use devicectrl_server.Tplink.Cipher.{decrypt}
use devicectrl_server.Tplink.Payload.{parse_query_payload}
use devicectrl_server.Tplink.Listener.{is_at, notify, handle_datagram, start_listening}

module _ ⦃d : Deps⦄ where
  abbrev pub report : Device → DeviceState → UpdateNotification
  report device state = record { device_id = device.id; reachable = true; new_state = state }

  -- a datagram that is a report of `state` by `device`
  pub record IsReport (address : ℕ) (datagram : Bytes) (s : AppState) (device : Device)
      (state : DeviceState) : Type 0 where
    pub found : find? (is_at address) (values s.devices) ≡ some device
    pub payload : d.Value
    pub decoded : d.from_slice (decrypt (take 1500 datagram)) ≡ ok payload
    pub parsed : parse_query_payload payload device.device_type ≡ ok state

module _ ⦃d : Deps⦄ ⦃e : Env⦄ where
  report_effect :
      (address : ℕ) (datagram : Bytes) (s : AppState) {device : Device} {state : DeviceState}
      → IsReport address datagram s device state
      → (handle_datagram address datagram s).1
        ≡ (process_update_notification (report device state) s).1
  unfolding handle_datagram notify ◌>>=◌
  report_effect address datagram s h = rw (h.found, h.decoded, h.parsed)

  datagram_cases :
      (address : ℕ) (datagram : Bytes) (s : AppState)
      → ((handle_datagram address datagram s).1 ≡ s)
        ⊎ ((device : Device) × (state : DeviceState) × IsReport address datagram s device state)
  unfolding handle_datagram notify ◌>>=◌
  datagram_cases address datagram s =
      elim (Option-cases (find? (is_at address) (values s.devices))) [
        | inl nobody ↦ inl (rw nobody)
        | inr (device, found) ↦ elim (Result-cases (d.from_slice (decrypt (take 1500 datagram)))) [
          | inr (x, garbled) ↦ inl (rw (found, garbled))
          | inl (payload, decoded) ↦
              elim (Result-cases (parse_query_payload payload device.device_type)) [
                | inr (x, unread) ↦ inl (rw (found, decoded, unread))
                | inl (state, parsed) ↦ inr (
                  device,
                  state,
                  record { found = found; payload = payload; decoded = decoded; parsed = parsed },
                )
              ]
        ]
      ]

  -- A datagram from the address of a registered device, which deciphers to a report that its type
  -- can read, gives that device the reported state and leaves every other entry as it was.
  pub handle_datagram_report :
      (address : ℕ) (datagram : Bytes) (s : AppState) {device : Device} {state : DeviceState}
      → IsKeyed s.devices
      → IsReport address datagram s device state
      → (i : ℕ)
      → get i (handle_datagram address datagram s).1.devices
        ≡ (if device.id == i then some (record device { state = state }) else get i s.devices)
  handle_datagram_report address datagram s {device} {state} keyed h i =
      rw (report_effect address datagram s h) (
        (process_update_notification_known (report device state) s
            (find-get (is_at address) s.devices keyed h.found)).0
          i)

  -- Any other datagram changes nothing at all.
  pub handle_datagram_ignored :
      (address : ℕ) (datagram : Bytes) (s : AppState)
      → ((device : Device) (state : DeviceState) → ¬ IsReport address datagram s device state)
      → (handle_datagram address datagram s).1 ≡ s
  handle_datagram_ignored address datagram s none_reports =
      elim (datagram_cases address datagram s) [
        | inl same ↦ same
        | inr (device, state, h) ↦ absurd (none_reports device state h)
      ]

  handle_datagram-IsKeyed :
      (address : ℕ) (datagram : Bytes) (s : AppState)
      → IsKeyed s.devices
      → IsKeyed (handle_datagram address datagram s).1.devices
  handle_datagram-IsKeyed address datagram s keyed = elim (datagram_cases address datagram s) [
    | inl same ↦ rw same keyed
    | inr (device, state, h) ↦
        rw (report_effect address datagram s h)
          (process_update_notification-IsKeyed (report device state) s keyed)
  ]

  -- Whatever arrives, errors of the socket included, the loop keeps the registry well formed.
  pub start_listening-IsKeyed :
      (arrivals : List (Result (ℕ × Bytes))) (s : AppState)
      → IsKeyed s.devices
      → IsKeyed (start_listening arrivals s).devices
  unfolding start_listening
  start_listening-IsKeyed [] s h = h
  start_listening-IsKeyed (err x ∷ arrivals) s h = start_listening-IsKeyed arrivals s h
  start_listening-IsKeyed (ok (address, datagram) ∷ arrivals) s h =
      start_listening-IsKeyed arrivals (handle_datagram address datagram s).1
        (handle_datagram-IsKeyed address datagram s h)
