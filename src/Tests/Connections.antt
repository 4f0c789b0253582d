-- ===== src/Tests/Connections.antt =====
-- Connections of clients at concrete inputs.
use devicectrl_server.Prelude.{
  ℕ, zero, suc, ◌≡◌, refl, true, List, [], ◌∷◌, ◌↔◌, Result, ok, err, library,
}
use devicectrl_server.Deps.{Bytes}
use devicectrl_server.Common.{on, DeviceState, UpdateNotification}
use devicectrl_server.App.{device_state_update, scene_activate}
use devicectrl_server.App.Emits.{is_unreported, Emits}
use devicectrl_server.Automations.Dependencies.{power_request}
use devicectrl_server.Clients.Connection.{go_on}
use devicectrl_server.Clients.Http.{Response, handle_request}
use devicectrl_server.Clients.Isolation.{clients-Emit}
use devicectrl_server.Clients.Messages.{
  ServerBoundSocketMessage, ClientBoundSocketMessage, ServerBoundHttpMessage, SocketCodec,
  HttpCodec,
}
use devicectrl_server.Clients.Protocol.Answers.{AllSent, told}
use devicectrl_server.Clients.Protocol.Relays.{notified}
use devicectrl_server.Clients.Responses.{IsServed, handle_request_iff}
use devicectrl_server.Clients.Service.{IsAnswered, line-answers, tcp_serve-relays}
use devicectrl_server.Clients.Tcp as Tcp
use devicectrl_server.Clients.Websocket as Websocket
use devicectrl_server.Tests.Instance.{plain, calm, in_turn}
use devicectrl_server.Tests.Scenes.{home}

abbrev decode_line : Bytes → Result ServerBoundSocketMessage
decode_line (zero ∷ []) = ok ServerBoundSocketMessage.query_catalog
decode_line (suc zero ∷ id ∷ []) =
    ok (ServerBoundSocketMessage.update_request (power_request id on))
decode_line _ = err (library "expected value")

instance abbrev pub socket_codec : SocketCodec
socket_codec = record {
  decode = decode_line;
  encode = λ m. ok (1 ∷ []);
  failure_of = λ x. ClientBoundSocketMessage.other "failure";
}

abbrev decode_body : Bytes → Result ServerBoundHttpMessage
decode_body (suc zero ∷ id ∷ []) = ok (ServerBoundHttpMessage.update_request (power_request id on))
decode_body _ = ok (ServerBoundHttpMessage.other "other")

instance abbrev pub http_codec : HttpCodec
http_codec = record { decode = decode_body; encode = λ m. ok (2 ∷ []) }

all_sent : AllSent
all_sent = record {
  encodes = λ m. (1 ∷ [], refl);
  sends = λ t transport m frame. refl;
  pongs = λ t. refl;
}

-- device 9 is unknown: the request is acknowledged, and its failure reported
line-answers_example :
    IsAnswered "failed to handle tcp line"
      (1 ∷ 9 ∷ [])
      home
      (Tcp.handle_line (1 ∷ 9 ∷ []) home).0
      (Tcp.take_turn (Tcp.received (1 ∷ 9 ∷ [])) home)
    × IsAnswered "failed to handle websocket message"
        (1 ∷ 9 ∷ [])
        home
        (Websocket.handle_line (1 ∷ 9 ∷ []) home).0
        (Websocket.take_turn (Websocket.received (Websocket.text (1 ∷ 9 ∷ []))) home)
line-answers_example = line-answers (1 ∷ 9 ∷ []) home all_sent

abbrev reported : ℕ → UpdateNotification
reported id = record { device_id = id; reachable = true; new_state = DeviceState.unknown }

abbrev tcp_turns : List Tcp.Turn
tcp_turns =
    Tcp.hooked (device_state_update (reported 1))
    ∷ Tcp.received (0 ∷ [])
    ∷ Tcp.hooked (scene_activate 5)
    ∷ Tcp.hooked (device_state_update (reported 2))
    ∷ []

abbrev websocket_turns : List Websocket.Turn
websocket_turns =
    Websocket.hooked (device_state_update (reported 1))
    ∷ Websocket.received Websocket.ping
    ∷ Websocket.received (Websocket.text (9 ∷ []))
    ∷ Websocket.hooked (device_state_update (reported 2))
    ∷ []

tcp_serve-relays_example :
    ((Tcp.serve tcp_turns home).0 ≡ ok go_on)
    × (notified (told (Tcp.serve tcp_turns home).1.trace) ≡ reported 2 ∷ reported 1 ∷ [])
tcp_serve-relays_example = tcp_serve-relays tcp_turns home all_sent (λ x. refl) tt

abbrev refusal : Response
refusal = record { status = 501; body = 2 ∷ [] }

handle_request_iff_example :
    (handle_request (ok []) home ≡ (ok refusal, home)) ↔ IsServed (ok []) home refusal home
handle_request_iff_example = handle_request_iff (ok []) home home refusal

clients-Emit_example :
    ((accepted : Result (Unit {0})) (turns : List Tcp.Turn)
      → Emits is_unreported (Tcp.handle_conn accepted turns))
    × ((accepted upgraded : Result (Unit {0})) (turns : List Websocket.Turn)
        → Emits is_unreported (Websocket.handle_tcp_conn accepted upgraded turns))
    × ((body : Result Bytes) → Emits is_unreported (handle_request body))
clients-Emit_example = clients-Emit
