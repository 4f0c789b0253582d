-- ===== src/System/Crowd.antt =====
-- The tasks of src/main.rs at once, turn by turn, with any number of reports of a device under way:
-- as where a device has connected again while an earlier message of it is still handled.
pub mod Grew
pub mod Honest
use devicectrl_server.Prelude.{ℕ, ◌≡◌, Option, some, List, [], ◌∷◌}
use devicectrl_server.Deps.{Deps}
use devicectrl_server.Common.{UpdateNotification}
use devicectrl_server.App.{Env, AppState}
use devicectrl_server.Automations.Dependencies.Channel.{Broadcast}
use devicectrl_server.Automations.Sunset.Evening.{Sun}
use devicectrl_server.Clients.Messages.{SocketCodec, HttpCodec}
use devicectrl_server.Controllers.Reports.{DeviceEvent, context_of, reported}
use devicectrl_server.Krypton.Codec.{KryptonCodec}
use devicectrl_server.System.Threads.{Job, job_task, report_task}
use devicectrl_server.Tasks.{Task}
use devicectrl_server.Tasks.Join.{Scheduler, poll}

module _ ⦃d : Deps⦄ where
  -- the state that all share, the tasks of jobs and of reports, and what was ever reported
  pub record Crowd : Type 0 where
    pub state : AppState
    pub tasks : List Task
    pub heard : List UpdateNotification

module _ ⦃d : Deps⦄ ⦃e : Env⦄ ⦃c : Scheduler⦄ ⦃p : SocketCodec⦄ ⦃h : HttpCodec⦄ ⦃k : KryptonCodec⦄
    ⦃b : Broadcast⦄ ⦃u : Sun⦄ where
  -- what may happen next: a job is spawned, a device is heard, or a task has a turn
  pub data Step (crowd : Crowd) : Crowd → Type 0 where
    spawn : (job : Job) → Step crowd (record crowd { tasks = job_task job ∷ crowd.tasks })
    hear :
        (event : DeviceEvent) {n : UpdateNotification}
        → reported event crowd.state ≡ some n
        → Step crowd (record crowd {
          tasks = report_task (context_of event) n ∷ crowd.tasks;
          heard = n ∷ crowd.heard;
        })
    run :
        (i : ℕ)
        → Step crowd (record crowd {
          tasks = (poll i crowd.tasks crowd.state).0;
          state = (poll i crowd.tasks crowd.state).1;
        })

  -- what the server may come to from a state
  pub data Reach (start : AppState) : Crowd → Type 0 where
    here : Reach start (record { state = start; tasks = []; heard = [] })
    later : {crowd next : Crowd} → Reach start crowd → Step crowd next → Reach start next
