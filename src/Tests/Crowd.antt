-- ===== src/Tests/Crowd.antt =====
-- Two reports of one device at once, which overtake each other.
use devicectrl_server.Prelude.{ℕ, ◌≡◌, refl, some, [], ◌∷◌}
use devicectrl_server.Common.{ServerBoundSimpleMessage}
use devicectrl_server.Controllers.Reports.{DeviceEvent, simple_message, context_of, reported}
use devicectrl_server.Main.Crowd.{IsHonest, start-IsHonest}
use devicectrl_server.System.Crowd.{Crowd, Reach, here, later, spawn, hear, run}
use devicectrl_server.System.Threads.{job_task, report_task}
use devicectrl_server.Tasks.Join.{poll}
use devicectrl_server.Tests.Broadcast.{keeps_16}
use devicectrl_server.Tests.Connections.{socket_codec, http_codec}
use devicectrl_server.Tests.Evening.{northern}
use devicectrl_server.Tests.Instance.{plain, calm, in_turn}
use devicectrl_server.Tests.Krypton.{krypton_codec}
use devicectrl_server.Tests.Main.{begun, begins}
use devicectrl_server.Tests.Registry.{start, plug_on}
use devicectrl_server.Tests.Threads.{client, datagram, plug_reports, plug_off}

abbrev switched_off : DeviceEvent
switched_off = simple_message (ServerBoundSimpleMessage.update_notification plug_off) 2

off_reported : reported switched_off begun ≡ some plug_off
unfolding reported
off_reported = refl

abbrev heard : Crowd
heard = record {
  state = begun;
  tasks =
      report_task (context_of switched_off) plug_off
      ∷ report_task (context_of datagram) plug_on
      ∷ job_task client
      ∷ [];
  heard = plug_off ∷ plug_on ∷ [];
}

abbrev ran : ℕ → Crowd → Crowd
ran i crowd = record crowd {
  tasks = (poll i crowd.tasks crowd.state).0;
  state = (poll i crowd.tasks crowd.state).1;
}

abbrev ended : Crowd
ended = ran 1 (ran 0 (ran 2 (ran 0 (ran 1 heard))))

reached : Reach begun ended
reached =
    later
      (later
        (later
          (later
            (later
              (later (later (later here (spawn client)) (hear datagram plug_reports))
                (hear switched_off off_reported))
              (run 1))
            (run 0))
          (run 2))
        (run 0))
      (run 1)

start-IsHonest_example : IsHonest start.config ended
start-IsHonest_example = start-IsHonest start.config begins reached
