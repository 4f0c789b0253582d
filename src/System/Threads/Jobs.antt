-- ===== src/System/Threads/Jobs.antt =====
-- The jobs of the server report no device's state, whatever they do between two awaits.
use devicectrl_server.Prelude.{◌*◌, length, values}
use devicectrl_server.Deps.{Deps}
use devicectrl_server.App.{Env}
use devicectrl_server.App.Emits.{is_command, SameState-refl}
use devicectrl_server.Automations.Dependencies.Channel.{Broadcast}
use devicectrl_server.Automations.Dependencies.Loop.{dependency_task-TurnsEmit}
use devicectrl_server.Automations.Sunset.Evening.{Sun}
use devicectrl_server.Automations.Sunset.Evening.Tasks.{sunset_task-TurnsEmit}
use devicectrl_server.Clients.Http.Tasks.{hand_over, http_task-IsQuiet}
use devicectrl_server.Clients.Messages.{tcp, websocket, SocketCodec, HttpCodec}
use devicectrl_server.Clients.Protocol.Turns.{serve_task-IsQuiet}
use devicectrl_server.Dispatch.Queries.{logged_query}
use devicectrl_server.Dispatch.Tasks.{query_task}
use devicectrl_server.Dispatch.Tasks.Turns.{query_task-TurnsEmit}
use devicectrl_server.System.Threads.{
  Job, tcp_connection, websocket_connection, http_request, dependencies, sunset_light_temp, queries,
  queries_task, job_task,
}
use devicectrl_server.Tasks.Join.{Scheduler}
use devicectrl_server.Tasks.Keeps.{TurnsEmit, TurnsEmit-logged, AllTurnsEmit-map}
use devicectrl_server.Tasks.Nested.{TurnsEmit-try_join_all}
use devicectrl_server.Tasks.Quiet.{IsQuiet, internal-IsQuiet, command-IsQuiet}

module _ ⦃d : Deps⦄ ⦃e : Env⦄ ⦃c : Scheduler⦄ where
  queries_task-TurnsEmit : TurnsEmit is_command queries_task
  unfolding queries_task
  queries_task-TurnsEmit = λ s. (
    SameState-refl is_command s,
    TurnsEmit-try_join_all is_command (1 * length (values s.devices)) _ (
        AllTurnsEmit-map is_command logged_query (values s.devices)
          λ device. TurnsEmit-logged is_command (query_task device) (query_task-TurnsEmit device)),
  )

module _ ⦃d : Deps⦄ ⦃e : Env⦄ ⦃c : Scheduler⦄ ⦃p : SocketCodec⦄ ⦃h : HttpCodec⦄ ⦃b : Broadcast⦄
    ⦃u : Sun⦄ where
  pub job_task-IsQuiet : (job : Job) → IsQuiet (job_task job)
  unfolding job_task
  job_task-IsQuiet (tcp_connection turns) = serve_task-IsQuiet tcp _ _
  job_task-IsQuiet (websocket_connection turns) = serve_task-IsQuiet websocket _ _
  job_task-IsQuiet (http_request body) = http_task-IsQuiet hand_over body (λ response. tt)
  job_task-IsQuiet (dependencies config rounds read) =
      internal-IsQuiet _ (dependency_task-TurnsEmit config rounds read)
  job_task-IsQuiet (sunset_light_temp config rounds) =
      internal-IsQuiet _ (sunset_task-TurnsEmit config rounds)
  job_task-IsQuiet queries = command-IsQuiet _ queries_task-TurnsEmit
