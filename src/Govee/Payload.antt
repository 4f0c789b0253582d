-- ===== src/Govee/Payload.antt =====
-- The JSON payloads of src/devices/controllers/govee.rs.
use devicectrl_server.Prelude.{ℕ, ◌%◌, ◌^◌, [], ◌∷◌, Result, ok, err, message, ◌>>=◌, or_message}
use devicectrl_server.Deps.{Deps, NumericProperties}
use devicectrl_server.Common.{DeviceState, DeviceType, AttributeUpdate}
use devicectrl_server.Devices.{Device}
use devicectrl_server.Tplink.Payload.{power_bit, bit_power}

abbrev pub brightness_props : NumericProperties
brightness_props = record { min = 0; max = 100; step = 1 }

-- the cast `as u32` of a u64
abbrev pub as_u32 : ℕ → ℕ
as_u32 n = n % 2 ^ 32

module _ ⦃d : Deps⦄ where
  open d use {Value, object, number, text, index, as_i64, as_u64, NumericState, to_state}
  open d use {color_brightness, apply_to}

  -- `{"msg": {"cmd": .., "data": ..}}`
  abbrev pub command : Value → Value → Value
  command cmd body = object (("msg", object (("cmd", cmd) ∷ ("data", body) ∷ [])) ∷ [])

  unfoldable pub brightness_state : DeviceState → Result NumericState
  brightness_state DeviceState.unknown = ok (to_state brightness_props 0)
  brightness_state (DeviceState.dimmable_light state) = ok state.brightness
  brightness_state (DeviceState.color_light state) = ok (color_brightness state)
  brightness_state _ = err (message "Unsupported state for govee controller update!")

  unfoldable pub update_command : NumericState → AttributeUpdate → Result Value
  update_command state (AttributeUpdate.power power) =
      ok (command (text "turn") (object (("value", number (power_bit power)) ∷ [])))
  update_command state (AttributeUpdate.brightness brightness) =
      ok (command (text "brightness") (object (("value", apply_to brightness state) ∷ [])))
  update_command state _ = err (message "Unsupported update for govee controller update!")

  unfoldable pub build_update_payload : Device → AttributeUpdate → Result Value
  unfolding brightness_state update_command
  build_update_payload device update = do
    state ← brightness_state device.state
    update_command state update

  unfoldable pub build_query_payload : Value
  build_query_payload = command (text "devStatus") (object [])

  unfoldable pub parse_query_payload : Value → DeviceType → Result DeviceState
  parse_query_payload payload DeviceType.dimmable_light = do
    bit ←
        or_message (as_i64 (index (index (index payload "msg") "data") "onOff"))
          "govee device query payload missing onOff"
    level ←
        or_message (as_u64 (index (index (index payload "msg") "data") "brightness"))
          "govee device query payload missing brightness"
    ok (
        DeviceState.dimmable_light
          (record { power = bit_power bit; brightness = to_state brightness_props (as_u32 level) }))
  parse_query_payload payload _ = err (message "Unsupported state for govee controller query!")
