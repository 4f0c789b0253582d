-- ===== src/Automations/Sunset.antt =====
-- src/automations/sunset_light_temp.rs. The ramp for one device: a request for each color temperature
-- of a range, and a pause after each. `Evening` has the waiting for the sunset, and the ramps of all
-- devices at once.
pub mod Evening
pub mod Ramp
use devicectrl_server.Prelude.{
  ℕ, zero, suc, ◌+◌, ◌-◌, ◌*◌, ◌/◌, ◌^◌, ◌==◌, if◌then◌else◌, Result, ok, err, library,
}
use devicectrl_server.Deps.{Deps}
use devicectrl_server.Common.{AttributeUpdate, NumericUpdate, UpdateRequest}
use devicectrl_server.Config.{SunsetDeviceConfig}
use devicectrl_server.App.{Env, Action, pure, lift, sleep_for, ◌>>=◌, ◌>>◌}
use devicectrl_server.Dispatch.Request.{process_update_request}

-- The pause in seconds. Where it is computed, `first` is at most `last`, so the difference does not
-- wrap; a division by zero panics, which ends the task as an error does.
unfoldable pub pause : SunsetDeviceConfig → Result ℕ
pause config =
    if config.last - config.first == 0
    then err (library "attempt to divide by zero")
    else ok (config.total_duration_secs / (config.last - config.first))

module _ ⦃d : Deps⦄ where
  abbrev pub temp_request : SunsetDeviceConfig → ℕ → UpdateRequest
  temp_request config color_temp = record {
    device_id = config.device_id;
    update = AttributeUpdate.color_temp (NumericUpdate.absolute color_temp);
  }

module _ ⦃d : Deps⦄ ⦃e : Env⦄ (config : SunsetDeviceConfig) where
  -- the body of the `for` loop
  unfoldable pub ramp_step : ℕ → Action (Unit {0})
  ramp_step color_temp = do
    process_update_request (temp_request config color_temp)
    duration ← lift (pause config)
    sleep_for (duration * 10 ^ 9)

  -- the loop over the next `count` temperatures
  unfoldable pub ramp_from : (count : ℕ) → ℕ → Action (Unit {0})
  ramp_from zero color_temp = pure tt
  ramp_from (suc count) color_temp = ramp_step color_temp >> ramp_from count (color_temp + 1)

  -- over `first ..= last`
  unfoldable pub ramp : Action (Unit {0})
  unfolding ramp_from
  ramp = ramp_from (config.last + 1 - config.first) config.first
