-- ===== src/Simple/Messages.antt =====
-- `handle_message` of src/devices/controllers/simple.rs, and how its connections come to a device
-- and its key. A message that is only logged changes nothing.
use devicectrl_server.Prelude.{
  ℕ, Result, ok, err, message, ◌==◌, if◌then◌else◌, or_message, get, ◌>>=◌ as ◌>>?◌,
}
use devicectrl_server.Deps.{Deps, Bytes}
use devicectrl_server.Common.{ServerBoundSimpleMessage}
use devicectrl_server.Config.{ControllerConfig}
use devicectrl_server.Devices.{Devices}
use devicectrl_server.App.{Env, Action, pure, bail, within}
use devicectrl_server.Dispatch.Notification.{process_update_notification}
use devicectrl_server.Simple.Codec.{SimpleCodec}

module _ ⦃d : Deps⦄ ⦃e : Env⦄ where
  unfoldable pub handle_message : ServerBoundSimpleMessage → (device_id : ℕ) → Action (Unit {0})
  handle_message (ServerBoundSimpleMessage.identify _) device_id =
      bail "Device sent another identify"
  handle_message ServerBoundSimpleMessage.request_received device_id = pure tt
  handle_message (ServerBoundSimpleMessage.failure text) device_id = pure tt
  handle_message (ServerBoundSimpleMessage.update_notification notification) device_id =
      if notification.device_id == device_id
      then within "failed to process simple update notification"
          (process_update_notification notification)
      else bail "Device sent update with incorrect device id"
  handle_message (ServerBoundSimpleMessage.other _) device_id = pure tt

module _ ⦃d : Deps⦄ where
  open d use {VerifyingKey}

  unfoldable pub key_of : ControllerConfig → Result VerifyingKey
  key_of (ControllerConfig.simple config) = ok config.public_key
  key_of _ = err (message "Device is not a simple device")

  unfoldable pub key_by_id : ℕ → Devices → Result (ℕ × VerifyingKey)
  unfolding key_of
  key_by_id device_id devices =
      or_message (get device_id devices) "Message received from unknown device" >>? λ device.
      key_of device.controller >>? λ key. ok (device_id, key)

  unfoldable pub identified : ServerBoundSimpleMessage → Devices → Result (ℕ × VerifyingKey)
  unfolding key_by_id
  identified (ServerBoundSimpleMessage.identify device_id) devices = key_by_id device_id devices
  identified _ devices = err (message "Device did not identify itself!")

  -- the part of `handle_conn` from the identify message to the device's key
  unfoldable pub identify : ⦃c : SimpleCodec⦄ → Bytes → Devices → Result (ℕ × VerifyingKey)
  unfolding identified
  identify ⦃c⦄ identify_buf devices =
      c.decode identify_buf >>? λ message'. identified message' devices
