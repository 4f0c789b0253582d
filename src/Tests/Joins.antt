-- ===== src/Tests/Joins.antt =====
-- How the server ends, at concrete inputs: one server and one automation.
use devicectrl_server.Prelude.{◌≡◌, refl, some, none, List, [], ◌∷◌, ◌++◌, ok, err, library}
use devicectrl_server.Config.{Config}
use devicectrl_server.Main.Tasks.{
  spawn_servers, spawn_automations, finished, panicked, Event, server_end, automation_end,
  servers_return, automations_return, result_of, main_joins, join_next, on_event, begin_joins,
  run_events,
}
use devicectrl_server.Main.Verdict.{IsFrom, IsByBoth}
use devicectrl_server.Main.Returns.{servers_verdict, automations_verdict, main_joins-returns}
use devicectrl_server.Tests.Instance.{plain}
use devicectrl_server.Tests.Registry.{start}

abbrev busy_config : Config
busy_config = record start.config {
  servers = record {
    tcp = some (record { listen_on = 9; cert_bytes = []; key_bytes = []; client_ca_bytes = [] });
    http = none;
    websocket = none;
  };
  automations = record { sunset_light_temp = none; dependencies = some [] };
}

abbrev events : List Event
events = server_end (finished (ok tt)) ∷ automation_end panicked ∷ []

abbrev all_told : List Event
all_told = events ++ (servers_return ∷ automations_return ∷ [])

-- the panic of the automation ends the program
ends_by_panic :
    result_of (main_joins busy_config all_told).main ≡ some (err (library "task panicked"))
unfolding main_joins spawn_servers spawn_automations begin_joins run_events on_event join_next
ends_by_panic = refl

main_joins-returns_example :
    IsFrom
      (servers_verdict busy_config events)
      (automations_verdict busy_config events)
      (result_of (main_joins busy_config events).main)
    × IsByBoth
        (servers_verdict busy_config events)
        (automations_verdict busy_config events)
        (result_of (main_joins busy_config all_told).main)
main_joins-returns_example = main_joins-returns busy_config events
