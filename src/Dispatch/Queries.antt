-- ===== src/Dispatch/Queries.antt =====
-- `query_all_device_states` of src/devices/dispatch.rs: a query of each device, all at once.
use devicectrl_server.Prelude.{◌*◌, ◌≡◌, ◌∙◌, ap, map, ok, length, values}
use devicectrl_server.Deps.{Deps}
use devicectrl_server.Devices.{Device}
use devicectrl_server.App.{Env, AppState, Action}
use devicectrl_server.App.Emits.{is_command, SameState}
use devicectrl_server.Tasks.{Task, logged}
use devicectrl_server.Tasks.Join.{Scheduler, or_stuck, try_join_all}
use devicectrl_server.Tasks.Within.{TotalWithin-map, join_ends, Within-logged, Within-finally}
use devicectrl_server.Tasks.Keeps.{AllTurnsEmit-map, join-SameState, TurnsEmit-logged}
use devicectrl_server.Tasks.Succeed.{AllSucceed-map, Succeeds-logged, join_succeeds}
use devicectrl_server.Dispatch.Tasks.{query_task}
use devicectrl_server.Dispatch.Tasks.Turns.{query_task-TurnsEmit}

module _ ⦃d : Deps⦄ ⦃e : Env⦄ where
  -- the query of one device, whose error is logged
  abbrev pub logged_query : Device → Task
  logged_query device = logged (query_task device)

module _ ⦃d : Deps⦄ ⦃e : Env⦄ ⦃c : Scheduler⦄ where
  -- `join_all`: the futures cannot fail, so `try_join_all` of them waits for all.
  unfoldable pub query_all_device_states : Action (Unit {0})
  unfolding try_join_all
  query_all_device_states s =
      try_join_all (1 * length (values s.devices)) (map logged_query (values s.devices)) s

  -- The queries of all devices come to an end and never fail, whatever each of them meets; they
  -- send no hook and no frame to a client, and leave the registry, the configuration and the
  -- controllers alone.
  pub query_all_device_states_lem :
      (s : AppState)
      → ((query_all_device_states s).0 ≡ ok tt)
        × SameState is_command s (query_all_device_states s).1
  unfolding query_all_device_states query_task
  query_all_device_states_lem s =
      let tasks = map logged_query (values s.devices) in
      let fuel = 1 * length (values s.devices) in
      let (r, over) = join_ends fuel s.clock 0 tasks s (
        TotalWithin-map 1 logged_query (values s.devices)
          (λ device. Within-logged (query_task device) 1 (Within-finally _ 0))) in
      let good =
        join_succeeds fuel s.clock 0 tasks s
          (AllSucceed-map logged_query (values s.devices)
            (λ device. Succeeds-logged (query_task device)))
          over in
      (
        ap or_stuck over ∙ good,
        join-SameState is_command fuel s.clock 0 tasks s (
            AllTurnsEmit-map is_command logged_query (values s.devices) (λ device.
              TurnsEmit-logged is_command (query_task device) (query_task-TurnsEmit device))),
      )
