-- ===== src/Simple/Isolation.antt =====
-- A connection acts for one device of this controller only.
use devicectrl_server.Prelude.{
  ℕ, ◌≡◌, refl, some, ok, arith, get, >>=_inv, ap, get-modify, ◌>>=◌ as ◌>>?◌, ◌↔◌,
}
use devicectrl_server.Deps.{Deps, Bytes}
use devicectrl_server.Common.{ServerBoundSimpleMessage}
use devicectrl_server.Config.{ControllerConfig}
use devicectrl_server.Devices.{Device, Devices}
use devicectrl_server.App.Scope.{OnlyDevice}
use devicectrl_server.App.{Env, AppState, perform, find_device, ◌>>=◌}
use devicectrl_server.Dispatch.Notification.{set_state, write_state, process_update_notification}
use devicectrl_server.Simple.Codec.{SimpleCodec}
use devicectrl_server.Simple.Messages.{handle_message, identify, identified, key_by_id, key_of}

module _ ⦃d : Deps⦄ ⦃e : Env⦄ where
  -- Whatever message a device sends, and however its handling ends, the registry's other entries
  -- stay as they are.
  pub handle_message-OnlyDevice :
      (message : ServerBoundSimpleMessage) (device_id : ℕ) (s : AppState)
      → OnlyDevice device_id s (handle_message message device_id s).1
  unfolding handle_message process_update_notification write_state find_device perform ◌>>=◌
  handle_message-OnlyDevice (ServerBoundSimpleMessage.update_notification n) device_id s = record {
    config = ground arith;
    controllers = ground arith;
    others = λ i ne. ground (arith, get-modify n.device_id i (set_state n) s.devices);
  }
  handle_message-OnlyDevice _ device_id s = record {
    config = refl;
    controllers = refl;
    others = λ i ne. refl;
  }

module _ ⦃d : Deps⦄ where
  open d use {VerifyingKey}

  key_of_inv :
      (config : ControllerConfig) {key : VerifyingKey}
      → key_of config ≡ ok key
      → config ≡ ControllerConfig.simple (record { public_key = key })
  unfolding key_of
  key_of_inv (ControllerConfig.simple config) h = ground arith
  key_of_inv _ h = cc

  key_by_id_inv :
      (device_id : ℕ) (devices : Devices) {id : ℕ} {key : VerifyingKey}
      → key_by_id device_id devices ≡ ok (id, key)
      → (device : Device) × (device_id ≡ id)
        × (get id devices ≡ some device)
        × (device.controller ≡ ControllerConfig.simple (record { public_key = key }))
  unfolding key_by_id
  key_by_id_inv device_id devices {id} {key} h =
      let (device, found, h1) = >>=_inv _ _ h in
      let (key', is_key, h2) = >>=_inv _ _ h1 in
      let same : device_id ≡ id = ground arith in
      let same' : key' ≡ key = ground arith in
      (device, same, rw (← same) (ground arith), rw (← same') (key_of_inv device.controller is_key))

  identified_inv :
      (message : ServerBoundSimpleMessage) (devices : Devices) {id : ℕ} {key : VerifyingKey}
      → identified message devices ≡ ok (id, key)
      → (device : Device) × (message ≡ ServerBoundSimpleMessage.identify id)
        × (get id devices ≡ some device)
        × (device.controller ≡ ControllerConfig.simple (record { public_key = key }))
  unfolding identified
  identified_inv (ServerBoundSimpleMessage.identify device_id) devices h =
      let (device, same, found, simple) = key_by_id_inv device_id devices h in
      (device, ap ServerBoundSimpleMessage.identify same, found, simple)
  identified_inv _ devices h = cc

module _ ⦃d : Deps⦄ ⦃c : SimpleCodec⦄ where
  open d use {VerifyingKey}

  accepted :
      (buf : Bytes) (devices : Devices) (id : ℕ) (key : VerifyingKey)
      → identify buf devices ≡ ok (id, key)
      → (device : Device) × (c.decode buf ≡ ok (ServerBoundSimpleMessage.identify id))
        × (get id devices ≡ some device)
        × (device.controller ≡ ControllerConfig.simple (record { public_key = key }))
  unfolding identify
  accepted buf devices id key h =
      let (message, decoded, h1) = >>=_inv _ _ h in
      let (device, is_identify, found, simple) = identified_inv message devices h1 in
      (device, rw is_identify at decoded, found, simple)

  -- A connection is accepted for an identifier and a key exactly when its first message identifies
  -- a registered device of this controller, and the key is that device's.
  pub identify_iff :
      (buf : Bytes) (devices : Devices) (id : ℕ) (key : VerifyingKey)
      → (identify buf devices ≡ ok (id, key)) ↔ (
          (device : Device) × (c.decode buf ≡ ok (ServerBoundSimpleMessage.identify id))
          × (get id devices ≡ some device)
          × (device.controller ≡ ControllerConfig.simple (record { public_key = key })))
  unfolding identify identified key_by_id key_of ◌>>?◌
  identify_iff buf devices id key = (accepted buf devices id key, λ h. ground arith)
