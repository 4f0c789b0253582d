-- ===== src/Tests/Scenes.antt =====
-- Scenes, and the queries of all devices, at concrete inputs.
use mathlib.Core.List.{Perm}
use devicectrl_server.Prelude.{◌≡◌, refl, some, List, [], ◌∷◌, ◌++◌, map, ok, get}
use devicectrl_server.Common.{on, off, UpdateRequest}
use devicectrl_server.App.{
  AppState, Hook, device_update_dispatch, scene_activate, perform, find_device, within, pure, ◌>>=◌,
}
use devicectrl_server.App.Emits.{is_command, SameState}
use devicectrl_server.App.Hooks.{hooks_sent}
use devicectrl_server.Automations.Dependencies.{power_request}
use devicectrl_server.Controllers.Dispatch.{enabled}
use devicectrl_server.Dispatch.Queries.{query_all_device_states, query_all_device_states_lem}
use devicectrl_server.Dispatch.Tasks.{announce, update_task, request_task}
use devicectrl_server.Krypton.Requests.{send_update}
use devicectrl_server.Scenes.{find_scene, update_all, process_scene_activate}
use devicectrl_server.Scenes.Activation.{process_scene_activate-announced}
use devicectrl_server.Tasks.{call, await, finally}
use devicectrl_server.Tasks.Join.{join, try_join_all}
use devicectrl_server.Tests.Automations.{turned_on}
use devicectrl_server.Tests.Instance.{plain, calm, in_turn}

abbrev evening : List UpdateRequest
evening = power_request 1 off ∷ power_request 3 on ∷ []

abbrev pub home : AppState
home = record turned_on { config = record turned_on.config { scenes = (5, evening) ∷ [] } }

abbrev after : AppState
after = (process_scene_activate 5 home).1

activated : process_scene_activate 5 home ≡ (ok tt, after)
unfolding process_scene_activate find_scene update_all try_join_all join request_task announce
    update_task call await finally find_device within perform pure enabled send_update ◌>>=◌
activated = refl

process_scene_activate-announced_example :
    (scene : List UpdateRequest) × (recent : List Hook) × (get 5 home.config.scenes ≡ some scene)
    × (hooks_sent after.trace ≡ recent ++ (scene_activate 5 ∷ hooks_sent home.trace))
    × Perm recent (map device_update_dispatch scene)
process_scene_activate-announced_example = process_scene_activate-announced 5 home after activated

query_all_device_states_lem_example :
    ((query_all_device_states home).0 ≡ ok tt)
    × SameState is_command home (query_all_device_states home).1
query_all_device_states_lem_example = query_all_device_states_lem home
