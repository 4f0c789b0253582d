-- ===== src/Govee/Update.antt =====
-- What an update of a Govee device that succeeds has sent.
use devicectrl_server.Prelude.{ℕ, ◌≡◌, refl, ok, ◌⊎◌, inl, inr, List, ◌∷◌, arith, >>=_inv, sym, ap}
use devicectrl_server.Deps.{Deps, Bytes}
use devicectrl_server.Common.{SwitchPower, AttributeUpdate, UpdateRequest}
use devicectrl_server.Config.{GoveeControllerConfig}
use devicectrl_server.Devices.{Device}
use devicectrl_server.App.{
  Env, AppState, Effect, GoveeController, govee_shared, send_udp, sleep, sleep_for,
}
use devicectrl_server.App.Inversion.{bind_inv, lift_inv, perform_inv}
use devicectrl_server.Govee.Payload.{build_update_payload, build_query_payload, update_command}
use devicectrl_server.Govee.Commands.{send_command, send_update}

module _ ⦃d : Deps⦄ where
  open d use {Value, BrightnessUpdate, NumericState, to_vec}

  -- the attributes that a Govee device has
  abbrev pub IsOfLight : AttributeUpdate → Type 0
  IsOfLight update =
      ((p : SwitchPower) × (update ≡ AttributeUpdate.power p))
      ⊎ ((b : BrightnessUpdate) × (update ≡ AttributeUpdate.brightness b))

  abbrev datagram : GoveeControllerConfig → Bytes → Effect
  datagram config bytes = send_udp govee_shared config.address 4003 bytes

  -- The command and a query went to the device, with a pause between them.
  pub record IsQueried (controller : GoveeController) (config : GoveeControllerConfig)
      (device : Device) (request : UpdateRequest) (before after : List Effect) : Type 0 where
    pub of_light : IsOfLight request.update
    pub payload : Value
    pub payload_built : build_update_payload device request.update ≡ ok payload
    pub command : Bytes
    pub command_encoded : to_vec payload ≡ ok command
    pub query : Bytes
    pub query_encoded : to_vec build_query_payload ≡ ok query
    pub trace :
        after
        ≡ datagram config query
          ∷ sleep controller.global_config.update_query_delay
          ∷ datagram config command
          ∷ before

  update_command_inv :
      (state : NumericState) (update : AttributeUpdate) {v : Value}
      → update_command state update ≡ ok v
      → IsOfLight update
  unfolding update_command
  update_command_inv state (AttributeUpdate.power p) h = inl (p, refl)
  update_command_inv state (AttributeUpdate.brightness b) h = inr (b, refl)
  update_command_inv state _ h = cc

  payload-IsOfLight :
      (device : Device) (update : AttributeUpdate) {v : Value}
      → build_update_payload device update ≡ ok v
      → IsOfLight update
  unfolding build_update_payload
  payload-IsOfLight device update h =
      let (state, known, built) = >>=_inv _ _ h in update_command_inv state update built

module _ ⦃d : Deps⦄ ⦃e : Env⦄ where
  open d use {Value, to_vec}

  send_command_inv :
      (config : GoveeControllerConfig) (v : Value) (s t : AppState)
      → send_command config v s ≡ (ok tt, t)
      → (bytes : Bytes) × (to_vec v ≡ ok bytes) × (t.trace ≡ datagram config bytes ∷ s.trace)
  unfolding send_command
  send_command_inv config v s t h =
      let (bytes, u, encoding, sending) = bind_inv _ _ s t h in
      let (encoded, same) = lift_inv _ s u encoding in
      (bytes, encoded, ground (arith, perform_inv _ u t sending))

  sleep_for_inv :
      (n : ℕ) (s t : AppState) → sleep_for n s ≡ (ok tt, t) → t.trace ≡ sleep n ∷ s.trace
  unfolding sleep_for
  sleep_for_inv n s t h = ap (λ p. p.1.trace) (sym h)

  -- An update of a Govee device that succeeds was a change of power or of brightness; its command
  -- went to the device, and after the configured pause a query: these effects and no other.
  pub send_update-IsQueried :
      (controller : GoveeController) (config : GoveeControllerConfig) (device : Device)
      (request : UpdateRequest) (s t : AppState)
      → send_update controller config device request s ≡ (ok tt, t)
      → IsQueried controller config device request s.trace t.trace
  unfolding send_update
  send_update-IsQueried controller config device request s t h =
      let (payload, s1, building, h1) = bind_inv _ _ s t h in
      let (built, same) = lift_inv _ s s1 building in
      let (_, s2, sending, h2) = bind_inv _ _ s1 t h1 in
      let (command, encoded, sent) = send_command_inv config payload s1 s2 sending in
      let (_, s3, sleeping, h3) = bind_inv _ _ s2 t h2 in
      let slept = sleep_for_inv _ s2 s3 sleeping in
      let (query, query_encoded, queried) = send_command_inv config build_query_payload s3 t h3 in
      record {
        of_light = payload-IsOfLight device request.update built;
        payload = payload;
        payload_built = built;
        command = command;
        command_encoded = encoded;
        query = query;
        query_encoded = query_encoded;
        trace = ground (arith, queried, slept, sent, same);
      }
