-- ===== src/Tests/Sunset.antt =====
-- The ramp of the light temperature at concrete inputs.
use devicectrl_server.Prelude.{◌≡◌, refl, [], ◌∷◌, ok, Error, err}
use devicectrl_server.Common.{on}
use devicectrl_server.Dispatch.Request.{process_update_request}
use devicectrl_server.Controllers.Dispatch.{enabled, update_by, dispatch_update}
use devicectrl_server.Krypton.Requests.{send_update}
use devicectrl_server.App.{device_update_dispatch, perform, find_device, within, sleep_for, ◌>>=◌}
use devicectrl_server.Automations.Dependencies.{power_request}
use devicectrl_server.App.Hooks.{hooks_sent}
use devicectrl_server.Config.{SunsetDeviceConfig}
use devicectrl_server.Automations.Sunset.{pause, temp_request, ramp_step, ramp_from, ramp}
use devicectrl_server.Automations.Sunset.Ramp.{ramp-hooks, ramp_fails}
use devicectrl_server.Tests.Instance.{plain, calm}
use devicectrl_server.Tests.Automations.{turned_on}

abbrev evening : SunsetDeviceConfig
evening = record { device_id = 2; first = 2700; last = 2702; total_duration_secs = 60 }

ramp_works : (ramp evening turned_on).0 ≡ ok tt
unfolding ramp ramp_from ramp_step pause sleep_for process_update_request dispatch_update update_by
    perform find_device within ◌>>=◌ send_update enabled
ramp_works = refl

ramp-hooks_example :
    hooks_sent (ramp evening turned_on).1.trace
    ≡ device_update_dispatch (temp_request evening 2702)
      ∷ device_update_dispatch (temp_request evening 2701)
      ∷ device_update_dispatch (temp_request evening 2700)
      ∷ device_update_dispatch (power_request 1 on)
      ∷ []
ramp-hooks_example =
    ramp-hooks evening turned_on (ramp evening turned_on).1
      (λ i. (ramp_works i, (ramp evening turned_on).1))

ramp_fails_example :
    (x : Error) × ((ramp
        (record { device_id = 2; first = 2700; last = 2700; total_duration_secs = 60 })
        turned_on).0
      ≡ err x)
ramp_fails_example =
    ramp_fails (record { device_id = 2; first = 2700; last = 2700; total_duration_secs = 60 })
      turned_on refl
