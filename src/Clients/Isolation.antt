-- ===== src/Clients/Isolation.antt =====
-- What no client of the servers of src/server_backends/ can change.
use devicectrl_server.Prelude.{List, Result}
use devicectrl_server.Deps.{Deps, Bytes}
use devicectrl_server.App.{Env}
use devicectrl_server.App.Emits.{is_unreported, Emits, Emits-wider, is_internal-Implies}
use devicectrl_server.App.Emits.Rules.{Emits-bind, Emits-lift, Emits-pure, Emits-within}
use devicectrl_server.Clients.Messages.{
  tcp, websocket, ServerBoundHttpMessage, SocketCodec, HttpCodec,
}
use devicectrl_server.Clients.Http.{answer, handle_request}
use devicectrl_server.Clients.Protocol.Quiet.{Emits-serve}
use devicectrl_server.Clients.Same.{tcp_serve, websocket_serve}
use devicectrl_server.Clients.Tcp as Tcp
use devicectrl_server.Clients.Websocket as Websocket
use devicectrl_server.Dispatch.Laws.{Emits-process_update_request}
use devicectrl_server.Scenes.Activation.{Emits-process_scene_activate}
use devicectrl_server.Tasks.Join.{Scheduler}

module _ ⦃d : Deps⦄ ⦃e : Env⦄ ⦃c : Scheduler⦄ ⦃k : HttpCodec⦄ where
  Emits-answer : (message' : ServerBoundHttpMessage) → Emits is_unreported (answer message')
  unfolding answer
  Emits-answer (ServerBoundHttpMessage.update_request request) =
      Emits-bind _ _ (Emits-wider _ is_internal-Implies (Emits-process_update_request request))
        λ _. Emits-bind _ _ (Emits-lift _) λ text. Emits-pure _
  Emits-answer (ServerBoundHttpMessage.activate_scene id) =
      Emits-bind _ _ (Emits-wider _ is_internal-Implies (Emits-process_scene_activate id))
        λ _. Emits-bind _ _ (Emits-lift _) λ text. Emits-pure _
  Emits-answer (ServerBoundHttpMessage.other _) = Emits-bind _ _ (Emits-lift _) λ text. Emits-pure _

  pub Emits-handle_request : (body : Result Bytes) → Emits is_unreported (handle_request body)
  unfolding handle_request
  Emits-handle_request body =
      Emits-bind _ _ (Emits-lift _) λ bytes. Emits-bind _ _ (Emits-lift _) Emits-answer

module _ ⦃d : Deps⦄ ⦃e : Env⦄ ⦃c : Scheduler⦄ ⦃k : SocketCodec⦄ ⦃h : HttpCodec⦄ where
  -- No client changes the registry, the configuration or the controllers, whatever it sends, in
  -- whichever way it is connected and however its connection ends: a connection over TCP, a
  -- websocket and a request over HTTP add effects to the trace only, and none that reports the state
  -- of a device.
  pub clients-Emit :
      ((accepted : Result (Unit {0})) (turns : List Tcp.Turn)
        → Emits is_unreported (Tcp.handle_conn accepted turns))
      × ((accepted upgraded : Result (Unit {0})) (turns : List Websocket.Turn)
          → Emits is_unreported (Websocket.handle_tcp_conn accepted upgraded turns))
      × ((body : Result Bytes) → Emits is_unreported (handle_request body))
  unfolding Tcp.handle_conn Websocket.handle_tcp_conn
  clients-Emit = (
    λ accepted turns. Emits-bind _ _ (Emits-lift _) λ _. rw (tcp_serve turns) (Emits-serve tcp _ _),
    λ accepted upgraded turns. Emits-bind _ _ (Emits-lift _) λ _.
        Emits-bind _ _ (Emits-within _ _ (Emits-lift _))
          λ _. rw (websocket_serve turns) (Emits-serve websocket _ _),
    Emits-handle_request,
  )
