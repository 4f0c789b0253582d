-- ===== src/Clients/Websocket.antt =====
-- src/server_backends/websocket.rs: what the server does for one client.
use devicectrl_server.Prelude.{ℕ, List, [], ◌∷◌, Result, err, Error}
use devicectrl_server.Config.{WebsocketServerConfig}
use devicectrl_server.Clients.Listener.{server_tls, accept_all}
use devicectrl_server.Tls.{Tls}
use devicectrl_server.Deps.{Deps, Bytes}
use devicectrl_server.App.{
  Env, Hook, listen_tcp, device_state_update, Action, send_client, send_pong, perform, pure, lift,
  within, or_else, find_device, ◌>>=◌, ◌>>◌,
}
use devicectrl_server.Clients.Catalog.{catalog}
use devicectrl_server.Clients.Connection.{Flow, go_on, leave, carry_on}
use devicectrl_server.Clients.Messages.{
  websocket, ServerBoundSocketMessage, ClientBoundSocketMessage, SocketCodec,
}
use devicectrl_server.Controllers.Dispatch.{dispatch_query_state}
use devicectrl_server.Dispatch.Request.{process_update_request}
use devicectrl_server.Scenes.{process_scene_activate}
use devicectrl_server.Tasks.Join.{Scheduler}

module _ ⦃d : Deps⦄ where
  pub data Message : Type 0 where
    close ping ignored : Message
    text : Bytes → Message

  -- What `select` yields: from the stream a message, an error or its end; from the hooks' broadcast
  -- channel a hook, or an error such as that of a receiver that lags.
  pub data Turn : Type 0 where
    received : Message → Turn
    stream_error : Error → Turn
    closed : Turn
    hooked : Hook → Turn
    hooks_error : Error → Turn

module _ ⦃d : Deps⦄ ⦃e : Env⦄ ⦃c : Scheduler⦄ ⦃k : SocketCodec⦄ where
  -- the closure `send` of `handle_line`
  unfoldable pub send : ClientBoundSocketMessage → Action (Unit {0})
  send message' = do json ← lift (k.encode message'); perform (send_client websocket message' json)

  -- the match on the decoded message
  unfoldable pub obey : ServerBoundSocketMessage → Action (Unit {0})
  obey (ServerBoundSocketMessage.update_request request) = do
    send ClientBoundSocketMessage.request_received
    process_update_request request
  obey (ServerBoundSocketMessage.state_query device_id) = do
    device ← find_device device_id "failed to find device"
    dispatch_query_state device
  obey (ServerBoundSocketMessage.activate_scene scene_id) = do
    process_scene_activate scene_id
    send ClientBoundSocketMessage.request_received
  obey ServerBoundSocketMessage.query_catalog =
      λ s. send (ClientBoundSocketMessage.catalog (catalog s)) s
  obey (ServerBoundSocketMessage.other _) = send ClientBoundSocketMessage.unimplemented

  unfoldable pub handle_line : Bytes → Action (Unit {0})
  handle_line line = do message' ← lift (k.decode line); obey message'

  unfoldable pub take_turn : Turn → Action Flow
  take_turn closed = pure leave
  take_turn (received close) = pure leave
  take_turn (received ping) = do perform send_pong; pure go_on
  take_turn (received (text line)) = do
    or_else (λ x. send (k.failure_of x))
        (within "failed to handle websocket message" (handle_line line))
    pure go_on
  -- a message of another kind is only logged
  take_turn (received ignored) = pure go_on
  take_turn (stream_error x) = lift (err x)
  take_turn (hooked (device_state_update notification)) = do
    send (ClientBoundSocketMessage.update_notification notification)
    pure go_on
  take_turn (hooked _) = pure go_on
  take_turn (hooks_error x) = lift (err x)

  -- the loop, for the turns that come
  unfoldable pub serve : List Turn → Action Flow
  serve [] = pure go_on
  serve (turn ∷ turns) = let rest = serve turns in take_turn turn >>= λ flow. carry_on flow rest

  -- the TLS and websocket handshakes, and the loop
  unfoldable pub handle_tcp_conn : (accepted upgraded : Result (Unit {0})) → List Turn → Action Flow
  handle_tcp_conn accepted upgraded turns = do
    lift accepted
    within "failed to perform websocket handshake" (lift upgraded)
    serve turns

module _ ⦃d : Deps⦄ ⦃e : Env⦄ ⦃t : Tls⦄ where
  -- until the sockets that are accepted are used up
  unfoldable pub start_server :
      WebsocketServerConfig → (sockets : List (Result (Unit {0}))) → Action ℕ
  start_server config sockets = do
    lift (server_tls config.client_ca_bytes config.cert_bytes config.key_bytes)
    perform (listen_tcp config.listen_on)
    lift (accept_all 0 sockets)
