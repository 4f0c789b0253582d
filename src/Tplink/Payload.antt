-- ===== src/Tplink/Payload.antt =====
-- The JSON payloads of src/devices/controllers/tplink.rs.
use devicectrl_server.Prelude.{
  ℕ, ℤ, pos, negsuc, Bool, false, [], ◌∷◌, ◌==◌, if◌then◌else◌, Result, ok, err, message, ◌>>=◌,
  or_message,
}
use devicectrl_server.Deps.{Deps}
use devicectrl_server.Common.{SwitchPower, on, off, DeviceState, DeviceType, AttributeUpdate}

-- `match power { On => 1, Off => 0 }`
abbrev pub power_bit : SwitchPower → ℕ
power_bit on = 1
power_bit off = 0

-- `match bit { 1 => On, _ => Off }`
abbrev pub bit_power : ℤ → SwitchPower
bit_power (pos n) = if n == 1 then on else off
bit_power (negsuc n) = off

-- `code == 0`
abbrev pub is_zero : ℤ → Bool
is_zero (pos n) = n == 0
is_zero (negsuc n) = false

module _ ⦃d : Deps⦄ where
  open d use {Value, object, number, index, as_i64}

  unfoldable pub build_update_payload : AttributeUpdate → Result Value
  build_update_payload (AttributeUpdate.power power) = ok (
      object (
        (
          "system",
          object (("set_relay_state", object (("state", number (power_bit power)) ∷ [])) ∷ []),
        )
        ∷ []))
  build_update_payload _ = err (message "Unsupported state for tplink controller!")

  unfoldable pub build_query_payload : Value
  build_query_payload = object (("system", object (("get_sysinfo", object []) ∷ [])) ∷ [])

  unfoldable pub parse_query_payload : Value → DeviceType → Result DeviceState
  parse_query_payload payload DeviceType.switch = do
    bit ←
        or_message (as_i64 (index (index (index payload "system") "get_sysinfo") "relay_state"))
          "tplink device query payload missing relay state"
    ok (DeviceState.switch (record { power = bit_power bit }))
  parse_query_payload payload _ = err (message "Unsupported state for tplink controller!")

  unfoldable pub is_response_success : Value → DeviceType → Result Bool
  is_response_success payload DeviceType.switch = do
    code ←
        or_message (as_i64 (index (index (index payload "system") "set_relay_state") "err_code"))
          "tplink device response payload missing relay state err code"
    ok (is_zero code)
  is_response_success payload _ = err (message "Unsupported state for tplink controller!")
