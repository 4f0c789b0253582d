-- ===== src/System/Threads/Alone.antt =====
-- Each task of the server, by itself and turn by turn, does what the function does that it runs.
use devicectrl_server.Prelude.{
  ◌≡◌, ◌∙◌, sym, String, some, Option, none, map, length, values, Result, ◌*◌,
}
use devicectrl_server.Deps.{Deps}
use devicectrl_server.Common.{UpdateNotification}
use devicectrl_server.App.{Env, AppState, Action, within, pure, ◌>>◌}
use devicectrl_server.Automations.Dependencies.Channel.{Broadcast, Automation}
use devicectrl_server.Automations.Dependencies.Channel as Dependencies
use devicectrl_server.Automations.Dependencies.Loop.{outcome, dependency_task_alone}
use devicectrl_server.Automations.Sunset.Evening as Sunset
use devicectrl_server.Automations.Sunset.Evening.Tasks.{sunset_task_alone}
use devicectrl_server.Clients.Http.{handle_request}
use devicectrl_server.Clients.Http.Tasks.{hand_over, http_task_alone}
use devicectrl_server.Clients.Messages.{tcp, websocket, SocketCodec, HttpCodec}
use devicectrl_server.Clients.Protocol.Tasks.{forget, serve_task_alone}
use devicectrl_server.Clients.Same.{of_tcp, of_websocket, tcp_serve, websocket_serve}
use devicectrl_server.Clients.Tcp as Tcp
use devicectrl_server.Clients.Websocket as Websocket
use devicectrl_server.Controllers.Reports.{DeviceEvent, context_of, reported, handle}
use devicectrl_server.Controllers.Reports.Answers.{Answers, handle-reported}
use devicectrl_server.Dispatch.Notification.{process_update_notification}
use devicectrl_server.Dispatch.Queries.{logged_query, query_all_device_states}
use devicectrl_server.Dispatch.Tasks.Notify.{notification_task, notification_task_alone}
use devicectrl_server.Krypton.Codec.{KryptonCodec}
use devicectrl_server.System.Threads.{
  Job, tcp_connection, websocket_connection, http_request, dependencies, sunset_light_temp, queries,
  queries_task, job_task, report_task,
}
use devicectrl_server.Tasks.{run_alone}
use devicectrl_server.Tasks.Join.{Scheduler}
use devicectrl_server.Tasks.Nested.{run_alone-within, run_alone-try_join_all}

module _ ⦃d : Deps⦄ ⦃e : Env⦄ ⦃c : Scheduler⦄ ⦃p : SocketCodec⦄ ⦃h : HttpCodec⦄ ⦃b : Broadcast⦄
    ⦃u : Sunset.Sun⦄ where
  -- what the function of a job comes to
  abbrev pub job_result : Job → Action (Unit {0})
  job_result (tcp_connection turns) s = forget (Tcp.serve turns s)
  job_result (websocket_connection turns) s = forget (Websocket.serve turns s)
  job_result (http_request body) s = (handle_request body >> pure tt) s
  job_result (dependencies config rounds read) s = outcome (Dependencies.run config rounds read s)
  job_result (sunset_light_temp config rounds) s = Sunset.start_automation config rounds s
  job_result queries s = query_all_device_states s

  -- A job that runs by itself, turn by turn, fails or succeeds as its function does, with the same
  -- error, effects and state: a connection, a request over HTTP, either automation, and the queries
  -- of all devices.
  pub job_task-alone : (job : Job) (s : AppState) → run_alone (job_task job) s ≡ job_result job s
  unfolding job_task queries_task run_alone query_all_device_states pure
  job_task-alone (tcp_connection turns) s =
      serve_task_alone tcp "failed to handle tcp line" (map of_tcp turns) s ∙ λ i.
      forget (sym (tcp_serve turns) i s)
  job_task-alone (websocket_connection turns) s =
      serve_task_alone websocket "failed to handle websocket message" (map of_websocket turns) s
      ∙ λ i. forget (sym (websocket_serve turns) i s)
  job_task-alone (http_request body) s = http_task_alone hand_over body s
  job_task-alone (dependencies config rounds read) s = dependency_task_alone config rounds read s
  job_task-alone (sunset_light_temp config rounds) s = sunset_task_alone config rounds s
  job_task-alone queries s =
      run_alone-try_join_all (1 * length (values s.devices)) (map logged_query (values s.devices)) s

module _ ⦃d : Deps⦄ ⦃e : Env⦄ ⦃k : KryptonCodec⦄ where
  report_alone :
      (m : String) (n : UpdateNotification) (s : AppState)
      → run_alone (report_task m n) s ≡ within m (process_update_notification n) s
  report_alone m n s = run_alone-within m (notification_task n) s ∙ λ i.
      within m (λ t. notification_task_alone n t i) s

  -- what the task of a report does by itself, or nothing
  abbrev pub AsTask :
      (m : String) → Option UpdateNotification → Result (Unit {0}) × AppState → AppState → Type 0
  AsTask m none done s = done.1 ≡ s
  AsTask m (some n) done s = done ≡ run_alone (report_task m n) s

  as_task :
      (m : String) (report : Option UpdateNotification) (done : Result (Unit {0}) × AppState)
      (s : AppState)
      → Answers m report done s
      → AsTask m report done s
  as_task m none done s h = h
  as_task m (some n) done s h = h ∙ sym (report_alone m n s)

  -- What a device sends, if it amounts to a report, is handled as the report's task by itself does
  -- it, turn by turn, with the same result, effects and state; else the state stays as it is.
  pub report_task-alone :
      (event : DeviceEvent) (s : AppState)
      → AsTask (context_of event) (reported event s) (handle event s) s
  report_task-alone event s =
      as_task (context_of event) (reported event s) (handle event s) s (handle-reported event s)
