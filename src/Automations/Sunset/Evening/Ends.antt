-- ===== src/Automations/Sunset/Evening/Ends.antt =====
-- The ramps of an evening come to an end, and are those of their devices.
use devicectrl_server.Prelude.{
  ℕ, zero, suc, ◌+◌, ◌*◌, ◌≡◌, ◌∙◌, refl, some, List, [], ◌∷◌, map, Result, arith,
}
use devicectrl_server.Deps.{Deps}
use devicectrl_server.Config.{SunsetDeviceConfig, SunsetLightTempAutomationConfig}
use devicectrl_server.App.{Env, AppState, Action, pure, ◌>>=◌, continue}
use devicectrl_server.App.Emits.{is_internal, Emits}
use devicectrl_server.App.Emits.Rules.{Emits-bind, Emits-lift, Emits-pure, Emits-sleep_for}
use devicectrl_server.Automations.Sunset.{temp_request, ramp_step, ramp_from, ramp}
use devicectrl_server.Automations.Sunset.Evening.{
  Sun, step_turns, ramp_length, ramp_turns, ramp_step_task, ramp_from_task, ramp_task, ramp_all,
  evening, evenings, start_automation,
}
use devicectrl_server.Dispatch.Tasks.Alone.{request_task_alone}
use devicectrl_server.Dispatch.Tasks.Turns.{
  request_turns, request_task-Within, request_task-TurnsEmit,
}
use devicectrl_server.Tasks.{
  Task, and_then, run_alone, run_alone-and_then, run_alone-await, run_alone-finally,
}
use devicectrl_server.Tasks.Join.{Scheduler, join}
use devicectrl_server.Tasks.Keeps.{
  TurnsEmit, AllTurnsEmit-map, TurnsEmit-await, TurnsEmit-finally, TurnsEmit-and_then,
  join-SameState,
}
use devicectrl_server.Tasks.Within.{
  Within, TotalWithin, Within-await, Within-finally, Within-and_then, join_ends,
}

module _ ⦃d : Deps⦄ ⦃e : Env⦄ (config : SunsetDeviceConfig) where
  ramp_step_task-Within : (n : ℕ) → Within (ramp_step_task config n) step_turns
  unfolding ramp_step_task
  ramp_step_task-Within n =
      Within-and_then _ _ request_turns 2 (request_task-Within (temp_request config n))
        (Within-await _ _ 1 λ duration. Within-finally _ 0)

  ramp_from_task-Within :
      (count n : ℕ) → Within (ramp_from_task config count n) (count * step_turns)
  unfolding ramp_from_task
  ramp_from_task-Within zero n = tt
  ramp_from_task-Within (suc count) n =
      let sum : suc count * step_turns ≡ step_turns + count * step_turns = omega arith in
      rw sum (
        Within-and_then _ _ step_turns (count * step_turns) (ramp_step_task-Within n)
          (ramp_from_task-Within count (n + 1)))

  ramp_step_task-TurnsEmit : (n : ℕ) → TurnsEmit is_internal (ramp_step_task config n)
  unfolding ramp_step_task
  ramp_step_task-TurnsEmit n =
      TurnsEmit-and_then is_internal _ _ (request_task-TurnsEmit (temp_request config n)) (
        TurnsEmit-await is_internal _ _ (Emits-lift _)
          λ duration. TurnsEmit-finally is_internal _ (Emits-sleep_for _ refl))

  ramp_from_task-TurnsEmit : (count n : ℕ) → TurnsEmit is_internal (ramp_from_task config count n)
  unfolding ramp_from_task
  ramp_from_task-TurnsEmit zero n = tt
  ramp_from_task-TurnsEmit (suc count) n =
      TurnsEmit-and_then is_internal _ _ (ramp_step_task-TurnsEmit n)
        (ramp_from_task-TurnsEmit count (n + 1))

  bound_alone :
      (task next : Task) (m k : Action (Unit {0})) (s : AppState)
      → ((t : AppState) → run_alone task t ≡ m t)
      → ((t : AppState) → run_alone next t ≡ k t)
      → run_alone (and_then task next) s ≡ (m >>= λ _. k) s
  unfolding ◌>>=◌
  bound_alone task next m k s h g =
      run_alone-and_then task next s ∙ (λ i. continue (h s i).0 (λ done t. g t i) (h s i).1)

  ramp_step_alone :
      (n : ℕ) (s : AppState) → run_alone (ramp_step_task config n) s ≡ ramp_step config n s
  unfolding ramp_step_task ramp_step
  ramp_step_alone n s =
      bound_alone _ _ _ _ s (request_task_alone (temp_request config n))
        λ t. run_alone-await _ _ _ t λ duration u. run_alone-finally _ u

  ramp_from_alone :
      (count n : ℕ) (s : AppState)
      → run_alone (ramp_from_task config count n) s ≡ ramp_from config count n s
  unfolding ramp_from_task ramp_from run_alone pure
  ramp_from_alone zero n s = refl
  ramp_from_alone (suc count) n s =
      bound_alone _ _ _ _ s (ramp_step_alone n) (ramp_from_alone count (n + 1))

module _ ⦃d : Deps⦄ ⦃e : Env⦄ where
  pub ramp_task-TurnsEmit : (config : SunsetDeviceConfig) → TurnsEmit is_internal (ramp_task config)
  unfolding ramp_task
  ramp_task-TurnsEmit config = ramp_from_task-TurnsEmit config (ramp_length config) config.first

  ramp_tasks-Within :
      (devices : List SunsetDeviceConfig) → TotalWithin (map ramp_task devices) (ramp_turns devices)
  unfolding ramp_task
  ramp_tasks-Within [] = tt
  ramp_tasks-Within (config ∷ devices) = (
    ramp_length config * step_turns,
    ramp_turns devices,
    omega arith,
    ramp_from_task-Within config (ramp_length config) config.first,
    ramp_tasks-Within devices,
  )

  -- The turns of a device's ramp, with no other in between, are its ramp.
  pub ramp_task_alone :
      (config : SunsetDeviceConfig) (s : AppState) → run_alone (ramp_task config) s ≡ ramp config s
  unfolding ramp_task ramp
  ramp_task_alone config s = ramp_from_alone config (ramp_length config) config.first s

module _ ⦃d : Deps⦄ ⦃e : Env⦄ ⦃c : Scheduler⦄ where
  -- The ramps of all devices come to a result, in whichever order they take their turns: 6 turns
  -- for each color temperature of each device are enough.
  pub ramp_all_ends :
      (devices : List SunsetDeviceConfig) (start : ℕ) (s : AppState)
      → (r : Result (Unit {0})) × ((join (ramp_turns devices) start 0 (map ramp_task devices) s).0
          ≡ some r)
  ramp_all_ends devices start s =
      join_ends (ramp_turns devices) start 0 (map ramp_task devices) s (ramp_tasks-Within devices)

  Emits-ramp_all : (devices : List SunsetDeviceConfig) → Emits is_internal (ramp_all devices)
  unfolding ramp_all
  Emits-ramp_all devices = record {
    at = λ s.
        join-SameState is_internal (ramp_turns devices) s.clock 0 (map ramp_task devices) s
          (AllTurnsEmit-map is_internal ramp_task devices ramp_task-TurnsEmit);
  }

module _ ⦃d : Deps⦄ ⦃e : Env⦄ ⦃c : Scheduler⦄ ⦃u : Sun⦄ where
  Emits-evening :
      (config : SunsetLightTempAutomationConfig) (coord : u.Coordinates) (n : ℕ)
      → Emits is_internal (evening config coord n)
  unfolding evening
  Emits-evening config coord n =
      Emits-bind _ _ (Emits-lift _)
        λ duration. Emits-bind _ _ (Emits-sleep_for _ refl) λ _. Emits-ramp_all config.devices

  Emits-evenings :
      (config : SunsetLightTempAutomationConfig) (coord : u.Coordinates) (rounds n : ℕ)
      → Emits is_internal (evenings config coord rounds n)
  unfolding evenings
  Emits-evenings config coord zero n = Emits-pure tt
  Emits-evenings config coord (suc rounds) n =
      Emits-bind _ _ (Emits-evening config coord n) λ _. Emits-evenings config coord rounds (n + 1)

  -- The automation never changes the registry, the configuration or the controllers: it adds
  -- effects to the trace only, and none that reports the state of a device or is a frame to a
  -- client.
  pub Emits-start_automation :
      (config : SunsetLightTempAutomationConfig) (rounds : ℕ)
      → Emits is_internal (start_automation config rounds)
  unfolding start_automation
  Emits-start_automation config rounds =
      Emits-bind _ _ (Emits-lift _) λ coord. Emits-evenings config coord rounds 0
