-- ===== src/Clients/Protocol.antt =====
-- What src/server_backends/tcp.rs and src/server_backends/websocket.rs have in common: one loop,
-- over the turns of either, that sends its frames by a transport and reports errors under a context.
pub mod Answers
pub mod Quiet
pub mod Relays
pub mod Tasks
pub mod Turns
use devicectrl_server.Prelude.{ℕ, ◌≡◌, refl, ap, String, List, [], ◌∷◌, map, Result, ok, err, Error}
use devicectrl_server.Deps.{Deps, Bytes}
use devicectrl_server.App.{
  Env, AppState, Hook, device_state_update, Action, send_client, send_pong, perform, pure, lift,
  within, or_else, find_device, ◌>>=◌, ◌>>◌,
}
use devicectrl_server.Clients.Catalog.{catalog}
use devicectrl_server.Clients.Connection.{Flow, go_on, leave, carry_on}
use devicectrl_server.Clients.Messages.{
  Transport, ServerBoundSocketMessage, ClientBoundSocketMessage, SocketCodec,
}
use devicectrl_server.Controllers.Dispatch.{dispatch_query_state}
use devicectrl_server.Dispatch.Request.{process_update_request}
use devicectrl_server.Scenes.{process_scene_activate}
use devicectrl_server.Tasks.Join.{Scheduler}

module _ ⦃d : Deps⦄ where
  pub data Turn : Type 0 where
    received : Bytes → Turn
    pinged ignored closed : Turn
    hooked : Hook → Turn
    broken : Error → Turn

module _ ⦃d : Deps⦄ ⦃e : Env⦄ ⦃c : Scheduler⦄ ⦃k : SocketCodec⦄ (transport : Transport) where
  unfoldable pub send : ClientBoundSocketMessage → Action (Unit {0})
  send message' = do json ← lift (k.encode message'); perform (send_client transport message' json)

  unfoldable pub obey : ServerBoundSocketMessage → Action (Unit {0})
  obey (ServerBoundSocketMessage.update_request request) = do
    send ClientBoundSocketMessage.request_received
    process_update_request request
  obey (ServerBoundSocketMessage.state_query device_id) = do
    device ← find_device device_id "failed to find device"
    dispatch_query_state device
  obey (ServerBoundSocketMessage.activate_scene scene_id) = do
    process_scene_activate scene_id
    send ClientBoundSocketMessage.request_received
  obey ServerBoundSocketMessage.query_catalog =
      λ s. send (ClientBoundSocketMessage.catalog (catalog s)) s
  obey (ServerBoundSocketMessage.other _) = send ClientBoundSocketMessage.unimplemented

  unfoldable pub handle_line : Bytes → Action (Unit {0})
  handle_line line = do message' ← lift (k.decode line); obey message'

module _ ⦃d : Deps⦄ ⦃e : Env⦄ ⦃c : Scheduler⦄ ⦃k : SocketCodec⦄ (transport : Transport)
    (m : String) where
  unfoldable pub take_turn : Turn → Action Flow
  take_turn (received line) = do
    or_else (λ x. send transport (k.failure_of x)) (within m (handle_line transport line))
    pure go_on
  take_turn pinged = do perform send_pong; pure go_on
  take_turn ignored = pure go_on
  take_turn closed = pure leave
  take_turn (hooked (device_state_update notification)) = do
    send transport (ClientBoundSocketMessage.update_notification notification)
    pure go_on
  take_turn (hooked _) = pure go_on
  take_turn (broken x) = lift (err x)

  unfoldable pub serve : List Turn → Action Flow
  serve [] = pure go_on
  serve (turn ∷ turns) = let rest = serve turns in take_turn turn >>= λ flow. carry_on flow rest
