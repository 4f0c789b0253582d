-- ===== src/Tplink/Commands.antt =====
-- `send_command`, `receive_response`, `send_query` and `send_update` of
-- src/devices/controllers/tplink.rs.
use devicectrl_server.Prelude.{ℕ, Bool, true, false, take}
use devicectrl_server.Deps.{Deps}
use devicectrl_server.Common.{UpdateRequest}
use devicectrl_server.Config.{TplinkControllerConfig}
use devicectrl_server.Devices.{Device}
use devicectrl_server.App.{
  Env, Action, UdpSocket, tplink_shared, tplink_update, TplinkController, bind_udp, send_udp,
  perform, receive_within, lift, pure, bail, ◌>>=◌, ◌>>◌,
}
use devicectrl_server.Tplink.Cipher.{encrypt, decrypt}
use devicectrl_server.Tplink.Payload.{
  build_update_payload, build_query_payload, is_response_success,
}

module _ ⦃d : Deps⦄ ⦃e : Env⦄ where
  open d use {Value, to_vec, from_slice}

  unfoldable pub send_command : UdpSocket → TplinkControllerConfig → Value → Action (Unit {0})
  send_command socket config command = do
    bytes ← lift (to_vec command)
    perform (send_udp socket config.address 9999 (encrypt bytes))

  -- under the `timeout` of its only caller; the buffer holds 1500 bytes
  unfoldable pub receive_response : ℕ → UdpSocket → Action Value
  receive_response limit socket = do
    buf ← receive_within limit socket
    lift (from_slice (decrypt (take 1500 buf)))

  unfoldable pub send_query : TplinkControllerConfig → Action (Unit {0})
  send_query config = send_command tplink_shared config build_query_payload

  unfoldable pub confirm : Bool → Action (Unit {0})
  confirm true = pure tt
  confirm false = bail "Device update was unsuccessful"

  unfoldable pub send_update :
      TplinkController → TplinkControllerConfig → Device → UpdateRequest → Action (Unit {0})
  send_update controller config device request = do
    payload ← lift (build_update_payload request.update)
    perform (bind_udp tplink_update)
    send_command tplink_update config payload
    set_res ← receive_response controller.global_config.response_timeout tplink_update
    success ← lift (is_response_success set_res device.device_type)
    confirm success
    send_query config
