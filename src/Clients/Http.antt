-- ===== src/Clients/Http.antt =====
-- src/server_backends/http.rs: how a request is answered.
pub mod Connection
pub mod Tasks
use devicectrl_server.Prelude.{ℕ, List, Result}
use devicectrl_server.Config.{HttpServerConfig}
use devicectrl_server.Clients.Listener.{server_tls, accept_all}
use devicectrl_server.Tls.{Tls}
use devicectrl_server.Deps.{Deps, Bytes}
use devicectrl_server.App.{Env, Action, listen_tcp, perform, lift, pure, ◌>>=◌, ◌>>◌}
use devicectrl_server.Clients.Messages.{ServerBoundHttpMessage, ClientBoundHttpMessage, HttpCodec}
use devicectrl_server.Dispatch.Request.{process_update_request}
use devicectrl_server.Scenes.{process_scene_activate}
use devicectrl_server.Tasks.Join.{Scheduler}

-- `Response<String>`
pub record Response : Type 0 where
  pub status : ℕ
  pub body : Bytes

module _ ⦃d : Deps⦄ ⦃e : Env⦄ ⦃c : Scheduler⦄ ⦃k : HttpCodec⦄ where
  -- the match on the decoded message; `Response::new` has the status 200
  unfoldable pub answer : ServerBoundHttpMessage → Action Response
  answer (ServerBoundHttpMessage.update_request request) = do
    process_update_request request
    text ← lift (k.encode ClientBoundHttpMessage.request_received)
    pure (record { status = 200; body = text })
  answer (ServerBoundHttpMessage.activate_scene scene_id) = do
    process_scene_activate scene_id
    text ← lift (k.encode ClientBoundHttpMessage.request_received)
    pure (record { status = 200; body = text })
  answer (ServerBoundHttpMessage.other _) = do
    text ← lift (k.encode ClientBoundHttpMessage.unimplemented)
    pure (record { status = 501; body = text })

  -- for the body that `collect` yields
  unfoldable pub handle_request : (body : Result Bytes) → Action Response
  handle_request body = do bytes ← lift body; message' ← lift (k.decode bytes); answer message'

module _ ⦃d : Deps⦄ ⦃e : Env⦄ ⦃t : Tls⦄ where
  -- until the sockets that are accepted are used up
  unfoldable pub start_server : HttpServerConfig → (sockets : List (Result (Unit {0}))) → Action ℕ
  start_server config sockets = do
    lift (server_tls config.client_ca_bytes config.cert_bytes config.key_bytes)
    perform (listen_tcp config.listen_on)
    lift (accept_all 0 sockets)
