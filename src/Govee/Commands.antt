-- ===== src/Govee/Commands.antt =====
-- `send_command`, `send_query` and `send_update` of src/devices/controllers/govee.rs.
use devicectrl_server.Deps.{Deps}
use devicectrl_server.Common.{UpdateRequest}
use devicectrl_server.Config.{GoveeControllerConfig}
use devicectrl_server.Devices.{Device}
use devicectrl_server.App.{
  Env, Action, govee_shared, GoveeController, send_udp, perform, sleep_for, lift, ◌>>=◌, ◌>>◌,
}
use devicectrl_server.Govee.Payload.{build_update_payload, build_query_payload}

module _ ⦃d : Deps⦄ ⦃e : Env⦄ where
  open d use {Value, to_vec}

  unfoldable pub send_command : GoveeControllerConfig → Value → Action (Unit {0})
  send_command config command = do
    bytes ← lift (to_vec command)
    perform (send_udp govee_shared config.address 4003 bytes)

  unfoldable pub send_query : GoveeControllerConfig → Action (Unit {0})
  send_query config = send_command config build_query_payload

  unfoldable pub send_update :
      GoveeController → GoveeControllerConfig → Device → UpdateRequest → Action (Unit {0})
  send_update controller config device request = do
    payload ← lift (build_update_payload device request.update)
    send_command config payload
    sleep_for controller.global_config.update_query_delay
    send_command config build_query_payload
