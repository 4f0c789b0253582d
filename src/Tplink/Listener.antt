-- ===== src/Tplink/Listener.antt =====
-- The listener of src/devices/controllers/tplink.rs: what one datagram does, and the loop over them.
use devicectrl_server.Prelude.{
  ℕ, Option, none, some, List, [], ◌∷◌, Bool, false, Result, ok, err, ◌==◌, find?, take, values,
}
use devicectrl_server.Deps.{Deps, Bytes}
use devicectrl_server.Config.{ControllerConfig}
use devicectrl_server.Devices.{Device}
use devicectrl_server.App.{Env, AppState, Action, lift, pure, within, ◌>>=◌}
use devicectrl_server.Dispatch.Notification.{process_update_notification}
use devicectrl_server.Tplink.Cipher.{decrypt}
use devicectrl_server.Tplink.Payload.{parse_query_payload}

module _ ⦃d : Deps⦄ where
  -- `matches!(&device.controller, ControllerConfig::Tplink(config) if config.address == addr.ip())`
  abbrev pub controller_is_at : ℕ → ControllerConfig → Bool
  controller_is_at address (ControllerConfig.tplink config) = config.address == address
  controller_is_at address _ = false

  abbrev pub is_at : ℕ → Device → Bool
  is_at address device = controller_is_at address device.controller

module _ ⦃d : Deps⦄ ⦃e : Env⦄ where
  -- what is done for the device that was found at the sender's address
  unfoldable pub notify : Device → Bytes → Action (Unit {0})
  notify device buf = do
    payload ← lift (d.from_slice (decrypt buf))
    state ← lift (parse_query_payload payload device.device_type)
    within "failed to process tplink update notification" (
        process_update_notification
          (record { device_id = device.id; reachable = Bool.true; new_state = state }))

  unfoldable pub notify_found : Option Device → Bytes → Action (Unit {0})
  notify_found none buf = pure tt
  notify_found (some device) buf = notify device buf

  -- the body of the loop for a datagram of which the buffer takes 1500 bytes
  unfoldable pub handle_datagram : ℕ → Bytes → Action (Unit {0})
  unfolding notify_found
  handle_datagram address datagram s =
      notify_found (find? (is_at address) (values s.devices)) (take 1500 datagram) s

  -- The loop: an error of the socket or of the body is logged, and the next datagram awaited.
  unfoldable pub start_listening : List (Result (ℕ × Bytes)) → AppState → AppState
  start_listening [] s = s
  start_listening (err x ∷ arrivals) s = start_listening arrivals s
  start_listening (ok (address, datagram) ∷ arrivals) s =
      start_listening arrivals (handle_datagram address datagram s).1
