-- ===== src/Tests/Simple.antt =====
-- Connections of devices that sign their messages, at concrete inputs.
use devicectrl_server.Prelude.{
  ◌≡◌, ◌↔◌, refl, ap, some, List, [], ◌∷◌, ◌++◌, ok, err, nonce_mismatch, arith, length, library,
  get, ◌>>=◌,
}
use devicectrl_server.Deps.{Bytes}
use devicectrl_server.Common.{
  DeviceState, DeviceType, ServerBoundSimpleMessage, DeviceBoundSimpleMessage,
}
use devicectrl_server.Config.{ControllerConfig}
use devicectrl_server.Devices.{Device}
use devicectrl_server.App.{bail}
use devicectrl_server.Simple.Frame.{
  create_signed_message, read_signed_message, read_frame, read_body, open_frame, read_loop,
}
use devicectrl_server.Simple.Authentic.{IsAuthentic, read_loop-IsAuthentic, replay_refused}
use devicectrl_server.Simple.RoundTrip.{KeyPair, read-create}
use devicectrl_server.Simple.Messages.{handle_message, identify}
use devicectrl_server.App.Scope.{OnlyDevice}
use devicectrl_server.Simple.Isolation.{identify_iff}
use devicectrl_server.Simple.Connection.{
  Turn, is_for, received, requested, channel_error, serve, take_turn, write_message,
}
use devicectrl_server.Simple.Delivery.{IsDelivery, serve-IsDelivery}
use devicectrl_server.Tests.Instance.{plain, calm, codec, byte_reader, byte_line, open_wire}
use devicectrl_server.Tests.Registry.{start, plug_on}

-- two frames, under the nonces 6 and 7
abbrev first_frame : Bytes
first_frame = 0 ∷ 0 ∷ 0 ∷ 6 ∷ 0 ∷ 0 ∷ 0 ∷ 1 ∷ 1 ∷ 15 ∷ 0 ∷ []

abbrev second_frame : Bytes
second_frame = 0 ∷ 0 ∷ 0 ∷ 7 ∷ 0 ∷ 0 ∷ 0 ∷ 1 ∷ 1 ∷ 16 ∷ 0 ∷ []

abbrev message : ServerBoundSimpleMessage
message = ServerBoundSimpleMessage.request_received

abbrev query : DeviceBoundSimpleMessage
query = DeviceBoundSimpleMessage.state_query 3

created : create_signed_message query 5 tt ≡ (ok first_frame, 6)
unfolding create_signed_message ◌>>=◌
created = refl

read_two : read_loop 9 tt 5 (first_frame ++ second_frame) ≡ message ∷ message ∷ []
unfolding read_loop read_signed_message read_frame read_body open_frame ◌>>=◌
read_two = refl

-- the first frame again: its nonce has passed
read_again : read_loop 9 tt 5 (first_frame ++ first_frame) ≡ message ∷ []
unfolding read_loop read_signed_message read_frame read_body open_frame ◌>>=◌
read_again = refl

read_loop-IsAuthentic_example : IsAuthentic tt 5 (read_loop 9 tt 5 (first_frame ++ second_frame))
read_loop-IsAuthentic_example = read_loop-IsAuthentic 9 tt 5 (first_frame ++ second_frame)

first_read : (read_signed_message tt 5 first_frame).0 ≡ ok (message, [])
unfolding read_signed_message read_frame read_body open_frame ◌>>=◌
first_read = refl

replay_refused_example : (read_signed_message tt 6 first_frame).0 ≡ err (nonce_mismatch 7 6)
replay_refused_example =
    replay_refused tt 5 6 first_frame [] (omega arith) (omega arith) (omega arith) first_read

pair : KeyPair tt tt
pair = record {
  verifies = λ bytes signature h. ground arith;
  length_signature = λ bytes signature h. ground arith;
}

read-create_example :
    read_signed_message tt 5 (first_frame ++ second_frame)
    ≡ (ok (message, second_frame), (create_signed_message query 5 tt).1)
read-create_example =
    read-create byte_line query 5 tt tt [] second_frame pair refl (omega arith) refl
      (ap (λ p. p.0) created)

abbrev sensor : Device
sensor = record {
  id = 3;
  device_type = DeviceType.switch;
  state = DeviceState.unknown;
  controller = ControllerConfig.simple (record { public_key = tt });
}

identify_iff_example : (identify (0 ∷ 3 ∷ []) ((3, sensor) ∷ []) ≡ ok (3, tt)) ↔ (
    (device : Device) × (codec.decode (0 ∷ 3 ∷ []) ≡ ok (ServerBoundSimpleMessage.identify 3))
    × (get 3 ((3, sensor) ∷ []) ≡ some device)
    × (device.controller ≡ ControllerConfig.simple (record { public_key = tt })))
identify_iff_example = identify_iff (0 ∷ 3 ∷ []) ((3, sensor) ∷ []) 3 tt

-- a notification for another device, a request for this one and one for another
abbrev turns : List Turn
turns =
    received (ServerBoundSimpleMessage.update_notification plug_on)
    ∷ requested query
    ∷ requested (DeviceBoundSimpleMessage.state_query 2)
    ∷ channel_error (library "lagged")
    ∷ requested query
    ∷ []

serve_two : length (serve tt 3 turns 5 start).frames ≡ 2
unfolding serve take_turn write_message is_for create_signed_message handle_message ◌>>=◌ bail
serve_two = refl

serve-IsDelivery_example :
    IsDelivery tt 3 5 (serve tt 3 turns 5 start).frames
    × OnlyDevice 3 start (serve tt 3 turns 5 start).state
serve-IsDelivery_example = serve-IsDelivery tt 3 turns 5 start
