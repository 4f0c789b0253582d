-- ===== src/Clients/Protocol/Turns.antt =====
-- What the turns of a connection of src/server_backends/tcp.rs and src/server_backends/websocket.rs
-- leave alone.
use devicectrl_server.Prelude.{refl, String, List, [], ◌∷◌}
use devicectrl_server.Deps.{Deps, Bytes}
use devicectrl_server.App.{Env, device_state_update, device_update_dispatch, scene_activate}
use devicectrl_server.App.Emits.{is_unreported}
use devicectrl_server.App.Emits.Rules.{Emits-lift, Emits-perform, Emits-find_device}
use devicectrl_server.Clients.Catalog.{catalog}
use devicectrl_server.Clients.Messages.{
  Transport, ServerBoundSocketMessage, ClientBoundSocketMessage, SocketCodec,
}
use devicectrl_server.Clients.Protocol.{Turn, received, pinged, ignored, closed, hooked, broken}
use devicectrl_server.Clients.Protocol.Quiet.{Emits-send}
use devicectrl_server.Clients.Protocol.Tasks.{obey_task, line_task, answer_task, serve_task}
use devicectrl_server.Dispatch.Tasks.Turns.{request_task-TurnsEmit, query_task-TurnsEmit}
use devicectrl_server.Scenes.Tasks.{scene_task, scene_task-TurnsEmit}
use devicectrl_server.Tasks.Join.{Scheduler}
use devicectrl_server.Tasks.Keeps.{TurnsEmit-await, TurnsEmit-finally, TurnsEmit-and_then}
use devicectrl_server.Tasks.Quiet.{IsQuiet, internal-IsQuiet, command-IsQuiet}
use devicectrl_server.Tasks.Nested.{TurnsEmit-within, TurnsEmit-or_else}

module _ ⦃d : Deps⦄ ⦃e : Env⦄ ⦃c : Scheduler⦄ ⦃k : SocketCodec⦄ (transport : Transport)
    (m : String) where
  obey_task-IsQuiet : (message' : ServerBoundSocketMessage) → IsQuiet (obey_task transport message')
  unfolding obey_task
  obey_task-IsQuiet (ServerBoundSocketMessage.update_request request) =
      TurnsEmit-await is_unreported _ _ (Emits-send transport m _)
        λ _. internal-IsQuiet _ (request_task-TurnsEmit request)
  obey_task-IsQuiet (ServerBoundSocketMessage.state_query id) =
      TurnsEmit-await is_unreported _ _ (Emits-find_device id _)
        λ device. command-IsQuiet _ (query_task-TurnsEmit device)
  obey_task-IsQuiet (ServerBoundSocketMessage.activate_scene id) =
      TurnsEmit-and_then is_unreported (scene_task id) _
        (internal-IsQuiet _ (scene_task-TurnsEmit id))
        (TurnsEmit-finally is_unreported _ (Emits-send transport m _))
  obey_task-IsQuiet ServerBoundSocketMessage.query_catalog =
      TurnsEmit-finally is_unreported _ (record {
        at = λ s. (Emits-send transport m (ClientBoundSocketMessage.catalog (catalog s))).at s;
      })
  obey_task-IsQuiet (ServerBoundSocketMessage.other _) =
      TurnsEmit-finally is_unreported _ (Emits-send transport m _)

  answer_task-IsQuiet : (line : Bytes) → IsQuiet (answer_task transport m line)
  unfolding answer_task line_task
  answer_task-IsQuiet line =
      TurnsEmit-or_else is_unreported _ _
        (TurnsEmit-within is_unreported m _
          (TurnsEmit-await is_unreported _ _ (Emits-lift _) obey_task-IsQuiet))
        λ x. TurnsEmit-finally is_unreported _ (Emits-send transport m _)

  -- No turn of a connection changes the registry or reports the state of a device.
  pub serve_task-IsQuiet : (turns : List Turn) → IsQuiet (serve_task transport m turns)
  unfolding serve_task
  serve_task-IsQuiet [] = tt
  serve_task-IsQuiet (received line ∷ turns) =
      TurnsEmit-and_then is_unreported (answer_task transport m line) _ (answer_task-IsQuiet line)
        (serve_task-IsQuiet turns)
  serve_task-IsQuiet (pinged ∷ turns) =
      TurnsEmit-await is_unreported _ _ (Emits-perform _ refl) λ _. serve_task-IsQuiet turns
  serve_task-IsQuiet (ignored ∷ turns) = serve_task-IsQuiet turns
  serve_task-IsQuiet (closed ∷ turns) = tt
  serve_task-IsQuiet (hooked (device_state_update n) ∷ turns) =
      TurnsEmit-await is_unreported _ _ (Emits-send transport m _) λ _. serve_task-IsQuiet turns
  serve_task-IsQuiet (hooked (device_update_dispatch r) ∷ turns) = serve_task-IsQuiet turns
  serve_task-IsQuiet (hooked (scene_activate id) ∷ turns) = serve_task-IsQuiet turns
  serve_task-IsQuiet (broken x ∷ turns) = tt
