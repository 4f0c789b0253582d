-- ===== src/Tplink/Update.antt =====
-- What an update of a TP-Link switch has done when it reports success.
use devicectrl_server.Prelude.{ℕ, ◌≡◌, refl, Bool, true, List, ◌∷◌, ok, arith, take}
use devicectrl_server.Deps.{Deps, Bytes}
use devicectrl_server.Common.{SwitchPower, DeviceType, AttributeUpdate, UpdateRequest}
use devicectrl_server.Config.{TplinkControllerConfig}
use devicectrl_server.Devices.{Device}
use devicectrl_server.App.{
  Env, AppState, Effect, UdpSocket, tplink_shared, tplink_update, TplinkController, bind_udp,
  send_udp, receive_udp, ◌>>=◌,
}
use devicectrl_server.App.Inversion.{bind_inv, lift_inv, perform_inv, receive_within_inv}
use devicectrl_server.Tplink.Cipher.{encrypt, decrypt}
use devicectrl_server.Tplink.Payload.{
  build_update_payload, build_query_payload, is_response_success,
}
use devicectrl_server.Tplink.Commands.{
  send_command, receive_response, send_query, confirm, send_update,
}

module _ ⦃d : Deps⦄ where
  open d use {Value, to_vec, from_slice}

  abbrev datagram : UdpSocket → TplinkControllerConfig → Bytes → Effect
  datagram socket config bytes = send_udp socket config.address 9999 (encrypt bytes)

  -- The update was one of power on a switch; its command went out from a socket of its own, an
  -- answer came back there that says success, and only then the state was queried.
  pub record IsConfirmed (config : TplinkControllerConfig) (device : Device)
      (request : UpdateRequest) (before after : List Effect) : Type 0 where
    pub power : SwitchPower
    pub is_power : request.update ≡ AttributeUpdate.power power
    pub is_switch : device.device_type ≡ DeviceType.switch
    pub payload : Value
    pub payload_built : build_update_payload request.update ≡ ok payload
    pub command : Bytes
    pub command_encoded : to_vec payload ≡ ok command
    pub answer : Bytes
    pub response : Value
    pub answer_decoded : from_slice (decrypt (take 1500 answer)) ≡ ok response
    pub answer_success : is_response_success response device.device_type ≡ ok true
    pub query : Bytes
    pub query_encoded : to_vec build_query_payload ≡ ok query
    pub emitted :
        after
        ≡ datagram tplink_shared config query
          ∷ receive_udp tplink_update answer
          ∷ datagram tplink_update config command
          ∷ bind_udp tplink_update
          ∷ before

  payload_is_power :
      (update : AttributeUpdate) {payload : Value}
      → build_update_payload update ≡ ok payload
      → (power : SwitchPower) × (update ≡ AttributeUpdate.power power)
  unfolding build_update_payload
  payload_is_power (AttributeUpdate.power power) h = (power, refl)
  payload_is_power _ h = cc

  success_is_switch :
      (response : Value) (type : DeviceType) {b : Bool}
      → is_response_success response type ≡ ok b
      → type ≡ DeviceType.switch
  unfolding is_response_success
  success_is_switch response DeviceType.switch h = refl
  success_is_switch response _ h = cc

module _ ⦃d : Deps⦄ ⦃e : Env⦄ where
  open d use {Value, to_vec, from_slice}

  send_command_inv :
      (socket : UdpSocket) (config : TplinkControllerConfig) (v : Value) (s t : AppState)
      → send_command socket config v s ≡ (ok tt, t)
      → (bytes : Bytes) × (to_vec v ≡ ok bytes) × (t.trace ≡ datagram socket config bytes ∷ s.trace)
  unfolding send_command
  send_command_inv socket config v s t h =
      let (bytes, u, e1, e2) = bind_inv _ _ s t h in
      let (e3, e4) = lift_inv _ s u e1 in (bytes, e3, ground (arith, perform_inv _ u t e2))

  receive_response_inv :
      (limit : ℕ) (socket : UdpSocket) (s t : AppState) {v : Value}
      → receive_response limit socket s ≡ (ok v, t)
      → (answer : Bytes) × (from_slice (decrypt (take 1500 answer)) ≡ ok v)
        × (t.trace ≡ receive_udp socket answer ∷ s.trace)
  unfolding receive_response
  receive_response_inv limit socket s t h =
      let (answer, u, e1, e2) = bind_inv _ _ s t h in
      let (e3, e4) = lift_inv _ u t e2 in
      (answer, e3, ground (arith, receive_within_inv _ _ s u e1))

  confirm_inv :
      (success : Bool) (s t : AppState)
      → confirm success s ≡ (ok tt, t)
      → (success ≡ true) × (t ≡ s)
  unfolding confirm ◌>>=◌
  confirm_inv success s t h = ground arith

  -- An update of a TP-Link device that succeeds was a change of power on a switch, was sent to the
  -- device's address, was answered with a decoded report of success, and was followed by a query:
  -- these four effects, in this order, and no other.
  pub send_update-IsConfirmed :
      (controller : TplinkController) (config : TplinkControllerConfig) (device : Device)
      (request : UpdateRequest) (s t : AppState)
      → send_update controller config device request s ≡ (ok tt, t)
      → IsConfirmed config device request s.trace t.trace
  unfolding send_update send_query
  send_update-IsConfirmed controller config device request s t h =
      let (payload, s1, h1, k1) = bind_inv _ _ s t h in
      let (built, same1) = lift_inv _ s s1 h1 in
      let (_, s2, h2, k2) = bind_inv _ _ s1 t k1 in
      let (_, s3, h3, k3) = bind_inv _ _ s2 t k2 in
      let (command, encoded, sent) = send_command_inv _ config payload s2 s3 h3 in
      let (response, s4, h4, k4) = bind_inv _ _ s3 t k3 in
      let (answer, decoded, heard) = receive_response_inv _ _ s3 s4 h4 in
      let (success, s5, h5, k5) = bind_inv _ _ s4 t k4 in
      let (reported, same5) = lift_inv _ s4 s5 h5 in
      let (_, s6, h6, k6) = bind_inv _ _ s5 t k5 in
      let (confirmed, same6) = confirm_inv success s5 s6 h6 in
      let (query, query_encoded, queried) = send_command_inv _ config _ s6 t k6 in
      let (power, is_power) = payload_is_power request.update built in
      record {
        power = power;
        is_power = is_power;
        is_switch = success_is_switch response device.device_type reported;
        payload = payload;
        payload_built = built;
        command = command;
        command_encoded = encoded;
        answer = answer;
        response = response;
        answer_decoded = decoded;
        answer_success = cc;
        query = query;
        query_encoded = query_encoded;
        emitted = ground (arith, perform_inv _ s1 s2 h2);
      }
