-- ===== src/Krypton/Messages.antt =====
-- `handle_message` of src/devices/controllers/krypton.rs. A message that is only logged changes
-- nothing.
use devicectrl_server.Prelude.{ℕ, Result, ok, err, message, ◌==◌, if◌then◌else◌}
use devicectrl_server.Deps.{Deps, Bytes}
use devicectrl_server.Common.{ServerBoundKryptonMessage}
use devicectrl_server.Config.{ControllerConfig}
use devicectrl_server.App.{Env, Action, pure, bail, lift, within, find_device, ◌>>=◌, ◌>>◌}
use devicectrl_server.Dispatch.Notification.{process_update_notification}
use devicectrl_server.Krypton.Codec.{KryptonCodec}

module _ ⦃d : Deps⦄ where
  -- `let ControllerConfig::Krypton(ref _config) = .. else { bail!(..) }`
  unfoldable pub is_krypton : ControllerConfig → Result (Unit {0})
  is_krypton (ControllerConfig.krypton config) = ok tt
  is_krypton _ = err (message "Device is not a krypton device")

module _ ⦃d : Deps⦄ ⦃e : Env⦄ where
  -- the match on the decoded message
  unfoldable pub obey : ServerBoundKryptonMessage → (device_id : ℕ) → Action (Unit {0})
  obey (ServerBoundKryptonMessage.identify _) device_id = bail "Device sent another identify"
  obey ServerBoundKryptonMessage.request_received device_id = pure tt
  obey (ServerBoundKryptonMessage.failure text) device_id = pure tt
  obey (ServerBoundKryptonMessage.update_notification notification) device_id =
      if notification.device_id == device_id
      then within "failed to process krypton update notification"
          (process_update_notification notification)
      else bail "Device sent update with incorrect device id"
  obey (ServerBoundKryptonMessage.other _) device_id = pure tt

  unfoldable pub handle_message : ⦃c : KryptonCodec⦄ → Bytes → (device_id : ℕ) → Action (Unit {0})
  handle_message ⦃c⦄ buf device_id = do
    device ← find_device device_id "Message received from unknown device"
    lift (is_krypton device.controller)
    message' ← lift (c.decode buf)
    obey message' device_id
