-- ===== src/System/Threads.antt =====
-- The tasks of src/main.rs at once, as the runtime of tokio runs them: each goes on by one turn at a
-- time, up to its next await, and the turns of all others may come in between, in any order.
--
-- A device is heard on one connection, or by the one listener of its controller, which awaits what
-- it does for one message before it takes the next, so one report of it is under way at a time.
-- `Overtaken` of Dispatch/Tasks has what two may come to.
pub mod Alone
pub mod Delivered
pub mod Informed
pub mod Jobs
pub mod Reporting
pub mod Serving
use devicectrl_server.Prelude.{
  ℕ, ◌*◌, ◌≡◌, String, Option, some, List, [], ◌∷◌, map, Result, ok, ◌==◌, if◌then◌else◌, length,
  values,
}
use devicectrl_server.Deps.{Deps, Bytes}
use devicectrl_server.Common.{UpdateNotification}
use devicectrl_server.Config.{DependencyAutomationConfig, SunsetLightTempAutomationConfig}
use devicectrl_server.App.{Env, AppState}
use devicectrl_server.Automations.Dependencies.Channel.{Broadcast}
use devicectrl_server.Automations.Dependencies.Loop.{dependency_task}
use devicectrl_server.Automations.Sunset.Evening.{Sun}
use devicectrl_server.Automations.Sunset.Evening.Tasks.{sunset_task}
use devicectrl_server.Clients.Http.Tasks.{hand_over, http_task}
use devicectrl_server.Clients.Messages.{tcp, websocket, SocketCodec, HttpCodec}
use devicectrl_server.Clients.Protocol.Tasks.{serve_task}
use devicectrl_server.Clients.Same.{of_tcp, of_websocket}
use devicectrl_server.Clients.Tcp as Tcp
use devicectrl_server.Clients.Websocket as Websocket
use devicectrl_server.Controllers.Reports.{DeviceEvent, context_of, reported}
use devicectrl_server.Dispatch.Queries.{logged_query}
use devicectrl_server.Dispatch.Tasks.Notify.{notification_task}
use devicectrl_server.Krypton.Codec.{KryptonCodec}
use devicectrl_server.Tasks.{Task, done, turn}
use devicectrl_server.Tasks.Join.{Scheduler, poll}
use devicectrl_server.Tasks.Nested.{task_within, try_join_task}

module _ ⦃d : Deps⦄ where
  -- what the server spawns that hears no device
  pub data Job : Type 0 where
    tcp_connection : List Tcp.Turn → Job
    websocket_connection : List Websocket.Turn → Job
    http_request : (body : Result Bytes) → Job
    dependencies : DependencyAutomationConfig → (rounds read : ℕ) → Job
    sunset_light_temp : SunsetLightTempAutomationConfig → (rounds : ℕ) → Job
    queries : Job

module _ ⦃d : Deps⦄ ⦃e : Env⦄ ⦃c : Scheduler⦄ where
  -- `query_all_device_states`, which reads the registry as it is when its turn comes
  unfoldable pub queries_task : Task
  queries_task =
      turn (λ s. s)
        (λ s. try_join_task (1 * length (values s.devices)) (map logged_query (values s.devices)))

module _ ⦃d : Deps⦄ ⦃e : Env⦄ ⦃c : Scheduler⦄ ⦃p : SocketCodec⦄ ⦃h : HttpCodec⦄ ⦃b : Broadcast⦄
    ⦃u : Sun⦄ where
  -- What a request is answered over HTTP is up to the library that serves the connection.
  unfoldable pub job_task : Job → Task
  job_task (tcp_connection turns) = serve_task tcp "failed to handle tcp line" (map of_tcp turns)
  job_task (websocket_connection turns) =
      serve_task websocket "failed to handle websocket message" (map of_websocket turns)
  job_task (http_request body) = http_task body hand_over
  job_task (dependencies config rounds read) = dependency_task config rounds read
  job_task (sunset_light_temp config rounds) = sunset_task config rounds
  job_task queries = queries_task

module _ ⦃d : Deps⦄ where
  -- the state that all share, the jobs' tasks, and for each device the report that is under way
  pub record Pool : Type 0 where
    pub state : AppState
    pub tasks : List Task
    pub reports : ℕ → Task

  abbrev pub begin : AppState → Pool
  begin s = record { state = s; tasks = []; reports = λ id. done (ok tt) }

  abbrev pub put : ℕ → Task → (ℕ → Task) → ℕ → Task
  put id task reports i = if id == i then task else reports i

  abbrev pub go_on : Task → AppState → Task × AppState
  go_on (done r) s = (done r, s)
  go_on (turn f k) s = (k s, f s)

module _ ⦃d : Deps⦄ ⦃e : Env⦄ where
  abbrev pub report_task : (m : String) → UpdateNotification → Task
  report_task m n = task_within m (notification_task n)

module _ ⦃d : Deps⦄ ⦃e : Env⦄ ⦃c : Scheduler⦄ ⦃p : SocketCodec⦄ ⦃h : HttpCodec⦄ ⦃k : KryptonCodec⦄
    ⦃b : Broadcast⦄ ⦃u : Sun⦄ where
  -- what may happen next: a job is spawned, or has a turn; a device is heard, where none of its
  -- reports is under way; a report has a turn
  pub data Step (pool : Pool) : Pool → Type 0 where
    spawn : (job : Job) → Step pool (record pool { tasks = job_task job ∷ pool.tasks })
    run :
        (i : ℕ)
        → Step pool (record pool {
          tasks = (poll i pool.tasks pool.state).0;
          state = (poll i pool.tasks pool.state).1;
        })
    hear :
        (event : DeviceEvent) {n : UpdateNotification} {r : Result (Unit {0})}
        → reported event pool.state ≡ some n
        → pool.reports n.device_id ≡ done r
        → Step pool (record pool {
          reports = put n.device_id (report_task (context_of event) n) pool.reports;
        })
    report :
        (id : ℕ)
        → Step pool (record pool {
          reports = put id (go_on (pool.reports id) pool.state).0 pool.reports;
          state = (go_on (pool.reports id) pool.state).1;
        })

  -- the pools that the server may come to from a state
  pub data Reach (start : AppState) : Pool → Type 0 where
    here : Reach start (begin start)
    later : {pool next : Pool} → Reach start pool → Step pool next → Reach start next
