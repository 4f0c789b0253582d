-- ===== src/Tests/Evening.antt =====
-- An evening of the automation of the light temperature, with two devices.
use mathlib.Core.List.{Perm}
use devicectrl_server.Prelude.{ℕ, ◌≡◌, refl, some, [], ◌∷◌, ◌++◌, ok}
use devicectrl_server.Config.{SunsetLightTempAutomationConfig}
use devicectrl_server.App.{AppState, find_device, within, perform, pure, lift, sleep_for, ◌>>=◌}
use devicectrl_server.App.Hooks.{hooks_sent}
use devicectrl_server.Automations.Sunset.{pause}
use devicectrl_server.Automations.Sunset.Evening.{
  Sun, wait_time, ramp_step_task, ramp_from_task, ramp_task, ramp_all, evening,
}
use devicectrl_server.Automations.Sunset.Evening.Hooks.{temps_of, evening-hooks}
use devicectrl_server.Controllers.Dispatch.{enabled}
use devicectrl_server.Dispatch.Tasks.{announce, update_task, request_task}
use devicectrl_server.Krypton.Requests.{send_update}
use devicectrl_server.Tasks.{call, await, finally, and_then}
use devicectrl_server.Tasks.Join.{join, try_join_all}
use devicectrl_server.Tasks.Owes.{concat_map}
use devicectrl_server.Tests.Automations.{turned_on}
use devicectrl_server.Tests.Instance.{plain, calm, in_turn}

instance abbrev pub northern : Sun
northern = record {
  Coordinates = ℕ × ℕ;
  coordinates = λ a b. some (a, b);
  sunset = λ coord day. 70;
  dusk = λ coord day. 190;
  now = λ n. 50;
  today = λ n. 0;
  tomorrow = λ n. some 1;
}

abbrev config : SunsetLightTempAutomationConfig
config = record {
  coords = (48, 11);
  devices =
      record { device_id = 2; first = 4; last = 6; total_duration_secs = 60 }
      ∷ record { device_id = 3; first = 1; last = 2; total_duration_secs = 60 }
      ∷ [];
}

abbrev later_state : AppState
later_state = (evening config (48, 11) 0 turned_on).1

-- the ramps go on together
evening_succeeds : evening config (48, 11) 0 turned_on ≡ (ok tt, later_state)
unfolding evening wait_time ramp_all ramp_task ramp_from_task ramp_step_task try_join_all join
    and_then request_task announce update_task call await finally find_device within perform pure
    lift sleep_for enabled send_update pause ◌>>=◌
evening_succeeds = refl

evening-hooks_example :
    Perm
      (hooks_sent later_state.trace)
      (concat_map temps_of config.devices ++ hooks_sent turned_on.trace)
evening-hooks_example = evening-hooks config (48, 11) 0 turned_on later_state evening_succeeds
