-- ===== src/Tests/Automations.antt =====
-- The dependency automation at concrete inputs: three switches over TLS, and the hooks of updates.
use devicectrl_server.Prelude.{
  ℕ, ◌-◌, ◌≡◌, ◌⊎◌, refl, String, Bool, false, Option, none, some, [], ◌∷◌, ◌==◌, ◌||◌, Error,
  arith, inl, inr, Bool-cases,
}
use devicectrl_server.Common.{on, DeviceState, DeviceType}
use devicectrl_server.Config.{ControllerConfig, DependencyRelationship, DependencyAutomationConfig}
use devicectrl_server.Devices.{Device}
use devicectrl_server.Dispatch.Request.{process_update_request}
use devicectrl_server.Controllers.Dispatch.{enabled, update_by, dispatch_update}
use devicectrl_server.Krypton.Requests.{send_update}
use devicectrl_server.App.{
  AppState, perform, find_device, within, ◌>>=◌, device_update_dispatch, send_hook,
}
use devicectrl_server.Automations.Dependencies.{power_request, request_if, on_event}
use devicectrl_server.Automations.Dependencies.Channel.{busy, failed, run, step, after_event}
use devicectrl_server.Automations.Dependencies.Trigger.{respond}
use devicectrl_server.Automations.Dependencies.First.{Counts, called_for, on_event-first}
use devicectrl_server.Automations.Dependencies.Cascade.{IsRanked, is_busy, run-IsFinite}
use devicectrl_server.Automations.Dependencies.Cycle.{IsClosed, run-IsEndless}
use devicectrl_server.Tests.Instance.{plain, calm}
use devicectrl_server.Tests.Broadcast.{keeps_16}
use devicectrl_server.Tests.Registry.{start}

abbrev pub remote : ℕ → Device
remote id = record {
  id = id;
  device_type = DeviceType.switch;
  state = DeviceState.unknown;
  controller = ControllerConfig.krypton (record { cert_bytes = id ∷ [] });
}

-- the hook of an update that turned device 1 on is unread
abbrev pub turned_on : AppState
turned_on = record start {
  devices = (1, remote 1) ∷ (2, remote 2) ∷ (3, remote 3) ∷ [];
  controllers = record {
    simple = none;
    krypton =
        some (record { global_config = record { listen_on = 8; cert_bytes = []; key_bytes = [] } });
    tplink = none;
    govee = none;
  };
  trace = send_hook (device_update_dispatch (power_request 1 on)) ∷ [];
}

abbrev chain : DependencyAutomationConfig
chain =
    record { dependent_id = 1; dependency_id = 2 }
    ∷ record { dependent_id = 2; dependency_id = 3 }
    ∷ []

abbrev cycle : DependencyAutomationConfig
cycle =
    record { dependent_id = 1; dependency_id = 2 }
    ∷ record { dependent_id = 2; dependency_id = 1 }
    ∷ []

on_event-first_example :
    (found : Option DependencyRelationship) × Counts chain
      (device_update_dispatch (power_request 1 on))
      found
    × (m : String) × (on_event chain (device_update_dispatch (power_request 1 on)) turned_on
        ≡ respond m (called_for (device_update_dispatch (power_request 1 on)) found) turned_on)
on_event-first_example =
    on_event-first chain (device_update_dispatch (power_request 1 on)) turned_on

abbrev chain_rank : ℕ → ℕ
chain_rank id = 3 - id

chain-IsRanked : IsRanked chain_rank chain
chain-IsRanked = omega arith

run-IsFinite_example : is_busy (run chain 4 0 turned_on).standing ≡ false
run-IsFinite_example =
    run-IsFinite chain chain_rank 4 0 turned_on chain-IsRanked (omega arith) (omega arith)

abbrev in_cycle : ℕ → Bool
in_cycle id = (id == 1) || (id == 2)

cycle-IsClosed : IsClosed in_cycle cycle
cycle-IsClosed id h = elim (Bool-cases (1 == id)) [
  | inl first ↦ (record { dependent_id = 1; dependency_id = 2 }, rw first refl, refl)
  | inr other ↦ elim (Bool-cases (2 == id)) [
    | inl second ↦ (record { dependent_id = 2; dependency_id = 1 }, rw (other, second) refl, refl)
    | inr neither ↦ absurd (ground arith)
  ]
]

-- no request fails, and the automation is still at work
cycle_goes_on : ((run cycle 9 0 turned_on).standing ≡ busy) × ((run cycle 9 0 turned_on).read ≡ 9)
unfolding run step on_event request_if process_update_request dispatch_update update_by perform
    find_device within ◌>>=◌ send_update enabled after_event
cycle_goes_on = (refl, refl)

run-IsEndless_example :
    (((run cycle 9 0 turned_on).standing ≡ busy) × ((run cycle 9 0 turned_on).read ≡ 9))
    ⊎ ((x : Error) × ((run cycle 9 0 turned_on).standing ≡ failed x))
run-IsEndless_example =
    run-IsEndless in_cycle cycle 9 0 turned_on cycle-IsClosed
      (0, device_update_dispatch (power_request 1 on), omega arith, refl, (2, refl, refl))
