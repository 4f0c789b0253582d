-- ===== src/Automations/Sunset/Evening.antt =====
-- The loop of `start_automation` of src/automations/sunset_light_temp.rs: at each sunset, the ramps of
-- all devices, which take turns.
pub mod Ends
pub mod Hooks
pub mod Tasks
use devicectrl_server.Prelude.{
  ℕ, zero, suc, ◌+◌, ◌-◌, ◌*◌, ◌^◌, ◌≤◌, Option, List, [], ◌∷◌, map, Result, ok, err, library,
  context, leb, if◌then◌else◌, or_message, ◌>>=◌ as ◌>>?◌,
}
use devicectrl_server.Deps.{Deps}
use devicectrl_server.Config.{SunsetDeviceConfig, SunsetLightTempAutomationConfig}
use devicectrl_server.App.{Env, Action, pure, lift, sleep_for, ◌>>=◌, ◌>>◌}
use devicectrl_server.Automations.Sunset.{pause, temp_request}
use devicectrl_server.Dispatch.Tasks.{request_task}
use devicectrl_server.Dispatch.Tasks.Turns.{request_turns}
use devicectrl_server.Tasks.{Task, done, await, finally, and_then}
use devicectrl_server.Tasks.Join.{Scheduler, try_join_all}

-- What is used of the crates sunrise and chrono: times are in nanoseconds and days are numbers, and
-- the clock is read once in each round of the loop.
pub record Sun ⦃d : Deps⦄ : Type 1 where
  pub Coordinates : Type 0
  -- `Coordinates::new`
  pub coordinates : d.Coordinate → d.Coordinate → Option Coordinates
  -- `SolarDay::new(coord, day).event_time(..)` of `Sunset` and of `Dusk(Civil)`
  pub sunset : Coordinates → (day : ℕ) → ℕ
  pub dusk : Coordinates → (day : ℕ) → ℕ
  -- `Utc::now()`, the date of `Local::now()`, and that of the day after, in the n-th round
  pub now : ℕ → ℕ
  pub today : ℕ → ℕ
  pub tomorrow : ℕ → Option ℕ

-- `to_std` of the time from `now` to `event`, which fails where that is negative
abbrev pub until : (event now : ℕ) → Result ℕ
until event now =
    if leb now event
    then ok (event - now)
    else err (context "tmr's sunset duration could not be found" (library "negative duration"))

module _ ⦃d : Deps⦄ ⦃u : Sun⦄ where
  -- for the n-th round
  unfoldable pub wait_time : u.Coordinates → (n : ℕ) → Result ℕ
  wait_time coord n =
      if leb (u.sunset coord (u.today n)) (u.now n)
      then (or_message (u.tomorrow n) "tmr could not be determined" >>? λ day.
          until (u.dusk coord day) (u.now n))
      else ok (u.sunset coord (u.today n) - u.now n)

-- the turns that a request and the pause after it take at most
abbrev pub step_turns : ℕ
step_turns = request_turns + 2

abbrev pub ramp_length : SunsetDeviceConfig → ℕ
ramp_length config = config.last + 1 - config.first

-- the turns that the ramps take at most
abbrev pub ramp_turns : List SunsetDeviceConfig → ℕ
ramp_turns [] = 0
ramp_turns (config ∷ configs) = ramp_length config * step_turns + ramp_turns configs

module _ ⦃d : Deps⦄ ⦃e : Env⦄ where
  -- the body of the `for` loop
  unfoldable pub ramp_step_task : SunsetDeviceConfig → ℕ → Task
  ramp_step_task config color_temp =
      and_then (request_task (temp_request config color_temp))
        (await (lift (pause config)) λ duration. finally (sleep_for (duration * 10 ^ 9)))

  unfoldable pub ramp_from_task : SunsetDeviceConfig → (count : ℕ) → ℕ → Task
  ramp_from_task config zero color_temp = done (ok tt)
  ramp_from_task config (suc count) color_temp =
      and_then (ramp_step_task config color_temp) (ramp_from_task config count (color_temp + 1))

  -- the future of one device
  unfoldable pub ramp_task : SunsetDeviceConfig → Task
  unfolding ramp_from_task
  ramp_task config = ramp_from_task config (ramp_length config) config.first

module _ ⦃d : Deps⦄ ⦃e : Env⦄ ⦃c : Scheduler⦄ where
  unfoldable pub ramp_all : List SunsetDeviceConfig → Action (Unit {0})
  unfolding try_join_all
  ramp_all devices = try_join_all (ramp_turns devices) (map ramp_task devices)

module _ ⦃d : Deps⦄ ⦃e : Env⦄ ⦃c : Scheduler⦄ ⦃u : Sun⦄ where
  -- the body of the loop
  unfoldable pub evening :
      SunsetLightTempAutomationConfig → u.Coordinates → (n : ℕ) → Action (Unit {0})
  evening config coord n = do
    duration ← lift (wait_time coord n)
    sleep_for duration
    ramp_all config.devices

  -- the loop, for a number of rounds from the n-th on
  unfoldable pub evenings :
      SunsetLightTempAutomationConfig → u.Coordinates → (rounds n : ℕ) → Action (Unit {0})
  evenings config coord zero n = pure tt
  evenings config coord (suc rounds) n =
      evening config coord n >> evenings config coord rounds (n + 1)

  unfoldable pub start_automation :
      SunsetLightTempAutomationConfig → (rounds : ℕ) → Action (Unit {0})
  start_automation config rounds = do
    coord ← lift (or_message (u.coordinates config.coords.0 config.coords.1) "invalid coordinates")
    evenings config coord rounds 0
