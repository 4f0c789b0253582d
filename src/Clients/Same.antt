-- ===== src/Clients/Same.antt =====
-- The connections of src/server_backends/tcp.rs and src/server_backends/websocket.rs follow one
-- protocol.
use devicectrl_server.Prelude.{◌≡◌, refl, ap, List, [], ◌∷◌, map}
use devicectrl_server.Deps.{Deps, Bytes}
use devicectrl_server.App.{
  Env, device_state_update, device_update_dispatch, scene_activate, lift, ◌>>=◌,
}
use devicectrl_server.Clients.Messages.{tcp, websocket, ServerBoundSocketMessage, SocketCodec}
use devicectrl_server.Clients.Protocol as Protocol
use devicectrl_server.Clients.Tcp as Tcp
use devicectrl_server.Clients.Websocket as Websocket
use devicectrl_server.Tasks.Join.{Scheduler}

module _ ⦃d : Deps⦄ where
  -- what a turn of either loop is to the protocol
  abbrev pub of_tcp : Tcp.Turn → Protocol.Turn
  of_tcp (Tcp.received line) = Protocol.received line
  of_tcp (Tcp.stream_error x) = Protocol.broken x
  of_tcp Tcp.closed = Protocol.closed
  of_tcp (Tcp.hooked hook) = Protocol.hooked hook
  of_tcp (Tcp.hooks_error x) = Protocol.broken x

  abbrev pub of_websocket : Websocket.Turn → Protocol.Turn
  of_websocket Websocket.closed = Protocol.closed
  of_websocket (Websocket.received Websocket.close) = Protocol.closed
  of_websocket (Websocket.received Websocket.ping) = Protocol.pinged
  of_websocket (Websocket.received (Websocket.text line)) = Protocol.received line
  of_websocket (Websocket.received Websocket.ignored) = Protocol.ignored
  of_websocket (Websocket.stream_error x) = Protocol.broken x
  of_websocket (Websocket.hooked hook) = Protocol.hooked hook
  of_websocket (Websocket.hooks_error x) = Protocol.broken x

module _ ⦃d : Deps⦄ ⦃e : Env⦄ ⦃c : Scheduler⦄ ⦃k : SocketCodec⦄ where
  tcp_obey : (m : ServerBoundSocketMessage) → Tcp.obey m ≡ Protocol.obey tcp m
  unfolding Tcp.obey Protocol.obey Tcp.send Protocol.send
  tcp_obey (ServerBoundSocketMessage.update_request request) = refl
  tcp_obey (ServerBoundSocketMessage.state_query id) = refl
  tcp_obey (ServerBoundSocketMessage.activate_scene id) = refl
  tcp_obey ServerBoundSocketMessage.query_catalog = refl
  tcp_obey (ServerBoundSocketMessage.other _) = refl

  websocket_obey : (m : ServerBoundSocketMessage) → Websocket.obey m ≡ Protocol.obey websocket m
  unfolding Websocket.obey Protocol.obey Websocket.send Protocol.send
  websocket_obey (ServerBoundSocketMessage.update_request request) = refl
  websocket_obey (ServerBoundSocketMessage.state_query id) = refl
  websocket_obey (ServerBoundSocketMessage.activate_scene id) = refl
  websocket_obey ServerBoundSocketMessage.query_catalog = refl
  websocket_obey (ServerBoundSocketMessage.other _) = refl

  pub tcp_line : (line : Bytes) → Tcp.handle_line line ≡ Protocol.handle_line tcp line
  unfolding Tcp.handle_line Protocol.handle_line
  tcp_line line = ap (λ f. lift (k.decode line) >>= f) (λ i m. tcp_obey m i)

  pub tcp_turn :
      (turn : Tcp.Turn)
      → Tcp.take_turn turn ≡ Protocol.take_turn tcp "failed to handle tcp line" (of_tcp turn)
  unfolding Tcp.take_turn Protocol.take_turn Tcp.send Protocol.send
  tcp_turn (Tcp.received line) = rw (tcp_line line) refl
  tcp_turn (Tcp.stream_error x) = refl
  tcp_turn Tcp.closed = refl
  tcp_turn (Tcp.hooked (device_state_update n)) = refl
  tcp_turn (Tcp.hooked (device_update_dispatch r)) = refl
  tcp_turn (Tcp.hooked (scene_activate id)) = refl
  tcp_turn (Tcp.hooks_error x) = refl

  pub tcp_serve :
      (turns : List Tcp.Turn)
      → Tcp.serve turns ≡ Protocol.serve tcp "failed to handle tcp line" (map of_tcp turns)
  unfolding Tcp.serve Protocol.serve
  tcp_serve [] = refl
  tcp_serve (turn ∷ turns) = rw (tcp_turn turn, tcp_serve turns) refl

  pub websocket_line :
      (line : Bytes) → Websocket.handle_line line ≡ Protocol.handle_line websocket line
  unfolding Websocket.handle_line Protocol.handle_line
  websocket_line line = ap (λ f. lift (k.decode line) >>= f) (λ i m. websocket_obey m i)

  pub websocket_turn :
      (turn : Websocket.Turn)
      → Websocket.take_turn turn
        ≡ Protocol.take_turn websocket "failed to handle websocket message" (of_websocket turn)
  unfolding Websocket.take_turn Protocol.take_turn Websocket.send Protocol.send
  websocket_turn Websocket.closed = refl
  websocket_turn (Websocket.received Websocket.close) = refl
  websocket_turn (Websocket.received Websocket.ping) = refl
  websocket_turn (Websocket.received (Websocket.text line)) = rw (websocket_line line) refl
  websocket_turn (Websocket.received Websocket.ignored) = refl
  websocket_turn (Websocket.stream_error x) = refl
  websocket_turn (Websocket.hooked (device_state_update n)) = refl
  websocket_turn (Websocket.hooked (device_update_dispatch r)) = refl
  websocket_turn (Websocket.hooked (scene_activate id)) = refl
  websocket_turn (Websocket.hooks_error x) = refl

  pub websocket_serve :
      (turns : List Websocket.Turn)
      → Websocket.serve turns
        ≡ Protocol.serve websocket "failed to handle websocket message" (map of_websocket turns)
  unfolding Websocket.serve Protocol.serve
  websocket_serve [] = refl
  websocket_serve (turn ∷ turns) = rw (websocket_turn turn, websocket_serve turns) refl
