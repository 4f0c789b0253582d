-- ===== src/Krypton/Requests.antt =====
-- `send_query` and `send_update` of src/devices/controllers/krypton.rs: a request goes into the
-- broadcast channel that every connection of the controller reads.
use devicectrl_server.Deps.{Deps}
use devicectrl_server.Common.{UpdateRequest, DeviceBoundKryptonMessage}
use devicectrl_server.Devices.{Device}
use devicectrl_server.App.{Env, Action, send_krypton, perform}

module _ ⦃d : Deps⦄ ⦃e : Env⦄ where
  unfoldable pub send_query : Device → Action (Unit {0})
  send_query device = perform (send_krypton (DeviceBoundKryptonMessage.state_query device.id))

  unfoldable pub send_update : UpdateRequest → Action (Unit {0})
  send_update request = perform (
      send_krypton (
        DeviceBoundKryptonMessage.update_command
          (record { device_id = request.device_id; update = request.update })))
