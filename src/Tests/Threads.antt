-- ===== src/Tests/Threads.antt =====
-- All tasks of a server at once, at a schedule in which they overtake each other.
use devicectrl_server.Prelude.{◌≡◌, refl, true, some, [], ◌∷◌, get, ◌>>=◌}
use devicectrl_server.Common.{off, DeviceState, UpdateNotification}
use devicectrl_server.App.{device_state_update}
use devicectrl_server.App.Hooks.{hooks_sent}
use devicectrl_server.Clients.Tcp as Tcp
use devicectrl_server.Controllers.Reports.{
  DeviceEvent, tplink_datagram, context_of, reported, handle,
}
use devicectrl_server.Dispatch.Notification.{set_state}
use devicectrl_server.Dispatch.Tasks.Notify.{notification_task}
use devicectrl_server.Dispatch.Tasks.Overtaken.{turns_of, overtaken}
use devicectrl_server.Main.Threads.{IsAtWork, start-IsAtWork}
use devicectrl_server.System.Threads.{
  Pool, Job, tcp_connection, begin, put, job_task, report_task, go_on, spawn, run, hear, report,
  Reach, here, later,
}
use devicectrl_server.System.Threads.Alone.{AsTask, report_task-alone}
use devicectrl_server.Tasks.Join.{poll}
use devicectrl_server.Tests.Broadcast.{keeps_16}
use devicectrl_server.Tests.Connections.{socket_codec, http_codec}
use devicectrl_server.Tests.Evening.{northern}
use devicectrl_server.Tests.Instance.{plain, calm, in_turn}
use devicectrl_server.Tests.Krypton.{krypton_codec}
use devicectrl_server.Tests.Main.{begun, begins}
use devicectrl_server.Tplink.Cipher.{decrypt}
use devicectrl_server.Tplink.Payload.{parse_query_payload}
use devicectrl_server.Tests.Registry.{start, plug, plug_on}

-- a client that sends one line, and the plug's report that it is on
abbrev pub client : Job
client = tcp_connection (Tcp.received (1 ∷ 2 ∷ []) ∷ [])

abbrev pub datagram : DeviceEvent
datagram = tplink_datagram 160 (0xaa ∷ 0xab ∷ [])

pub plug_reports : reported datagram begun ≡ some plug_on
unfolding reported ◌>>=◌ decrypt parse_query_payload
plug_reports = refl

report_task-alone_example :
    AsTask (context_of datagram) (reported datagram begun) (handle datagram begun) begun
report_task-alone_example = report_task-alone datagram begun

abbrev pub plug_off : UpdateNotification
plug_off = record {
  device_id = 2;
  reachable = true;
  new_state = DeviceState.switch (record { power = off });
}

overtaken_example :
    let t =
      turns_of
        (0 ∷ 1 ∷ 1 ∷ 0 ∷ [])
        (notification_task plug_on ∷ notification_task plug_off ∷ [])
        start in
    (get 2 t.devices ≡ some (set_state plug_off plug))
    × (hooks_sent t.trace ≡ device_state_update plug_on ∷ device_state_update plug_off ∷ [])
overtaken_example = overtaken plug_on plug_off start (λ t hook. refl) refl refl

-- the pools as a client connects, the plug is heard, the client has a turn, the report writes, the
-- client has another turn, and the report tells
abbrev connected : Pool
connected = record (begin begun) { tasks = job_task client ∷ [] }

abbrev pub heard : Pool
heard = record connected {
  reports = put 2 (report_task (context_of datagram) plug_on) connected.reports;
}

abbrev pub ran : Pool → Pool
ran pool = record pool {
  tasks = (poll 0 pool.tasks pool.state).0;
  state = (poll 0 pool.tasks pool.state).1;
}

abbrev reporting : Pool → Pool
reporting pool = record pool {
  reports = put 2 (go_on (pool.reports 2) pool.state).0 pool.reports;
  state = (go_on (pool.reports 2) pool.state).1;
}

abbrev ended : Pool
ended = reporting (ran (reporting (ran heard)))

reached : Reach begun ended
reached =
    later
      (later
        (later (later (later (later here (spawn client)) (hear datagram plug_reports refl)) (run 0))
          (report 2))
        (run 0))
      (report 2)

start-IsAtWork_example : IsAtWork start.config ended
start-IsAtWork_example = start-IsAtWork start.config begins (λ t hook. refl) reached
