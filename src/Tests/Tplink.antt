-- ===== src/Tests/Tplink.antt =====
-- TP-Link switches at concrete inputs.
use Prim.Native.Nat.{bit_xor}
use devicectrl_server.Prelude.{
  ℕ, ◌≡◌, refl, some, List, [], ◌∷◌, Result, ok, err, get, library, find?, values, ◌>>=◌ as try,
}
use devicectrl_server.Deps.{Bytes}
use devicectrl_server.Common.{on, DeviceState, AttributeUpdate, UpdateRequest}
use devicectrl_server.Config.{TplinkControllerConfig}
use devicectrl_server.App.{AppState, TplinkController, perform, receive_within, ◌>>=◌}
use devicectrl_server.Devices.{Device}
use devicectrl_server.Tplink.Cipher.{encrypt, decrypt}
use devicectrl_server.Tplink.Cipher.Laws.{IsAt, decrypt-encrypt, cipher_bytes}
use devicectrl_server.Tplink.Payload.{
  build_update_payload, parse_query_payload, is_response_success,
}
use devicectrl_server.Tplink.Commands.{
  send_command, receive_response, send_query, confirm, send_update,
}
use devicectrl_server.Tplink.Update.{IsConfirmed, send_update-IsConfirmed}
use devicectrl_server.Tplink.Listener.{is_at, handle_datagram}
use devicectrl_server.Tplink.Reports.{IsReport, handle_datagram_report, handle_datagram_ignored}
use devicectrl_server.Tests.Instance.{plain, calm, field, num, null}
use devicectrl_server.Tests.Registry.{plug, house, start}

-- the first bytes of the cipher text of `{"system":..}`
encrypt_brace : encrypt (0x7b ∷ 0x22 ∷ 0x73 ∷ []) ≡ 0xd0 ∷ 0xf2 ∷ 0x81 ∷ []
unfolding encrypt
encrypt_brace = refl

abbrev text : Bytes
text = 0x7b ∷ 0x22 ∷ 0x73 ∷ []

decrypt-encrypt_example : (decrypt (encrypt text) ≡ text) × (encrypt (decrypt text) ≡ text)
decrypt-encrypt_example = decrypt-encrypt text

cipher_bytes_example :
    IsAt 1 (encrypt text) (bit_xor (bit_xor 0xab 0x7b) 0x22)
    × IsAt 1 (decrypt text) (bit_xor 0x22 0x7b)
cipher_bytes_example = cipher_bytes (0x7b ∷ []) 0x22 (0x73 ∷ [])

abbrev turn_on : UpdateRequest
turn_on = record { device_id = 2; update = AttributeUpdate.power on }

abbrev controller : TplinkController
controller = record { global_config = record { response_timeout = 1 } }

abbrev address : TplinkControllerConfig
address = record { address = 160 }

abbrev final : AppState
final = (send_update controller address plug turn_on start).1

send_update-IsConfirmed_example : IsConfirmed address plug turn_on [] final.trace
unfolding send_update send_command receive_response send_query confirm perform receive_within
    build_update_payload is_response_success decrypt ◌>>=◌ try
send_update-IsConfirmed_example =
    send_update-IsConfirmed controller address plug turn_on start final refl

-- `1 ∷ 1`, enciphered: the relay is on
abbrev report : Bytes
report = 0xaa ∷ 0xab ∷ []

relay_on : IsReport 160 report start plug (DeviceState.switch (record { power = on }))
unfolding decrypt parse_query_payload try
relay_on = record {
  found = refl;
  payload = field "system" (field "get_sysinfo" (field "relay_state" (num 1) null) null) null;
  decoded = refl;
  parsed = refl;
}

handle_datagram_report_example :
    get 2 (handle_datagram 160 report start).1.devices
    ≡ some (record plug { state = DeviceState.switch (record { power = on }) })
handle_datagram_report_example =
    handle_datagram_report 160 report start (refl, refl, (refl, refl, tt)) relay_on 2

not_at : {device : Device} → find? (is_at 161) (values house) ≡ some device → ⊥
not_at h = cc

handle_datagram_ignored_example : (handle_datagram 161 report start).1 ≡ start
handle_datagram_ignored_example =
    handle_datagram_ignored 161 report start (λ device state h. not_at h.found)

abbrev arrivals : List (Result (ℕ × Bytes))
arrivals = err (library "socket") ∷ ok (160, report) ∷ ok (9, []) ∷ []
