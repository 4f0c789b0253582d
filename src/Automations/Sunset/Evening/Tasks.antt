-- ===== src/Automations/Sunset/Evening/Tasks.antt =====
-- `start_automation` of src/automations/sunset_light_temp.rs turn by turn, among the tasks of the
-- server.
use devicectrl_server.Prelude.{ℕ, zero, suc, ◌+◌, ◌≡◌, refl, ◌∙◌, List, map, ok, or_message}
use devicectrl_server.Deps.{Deps}
use devicectrl_server.Config.{SunsetDeviceConfig, SunsetLightTempAutomationConfig}
use devicectrl_server.App.{Env, AppState, lift, sleep_for, pure, ◌>>◌}
use devicectrl_server.App.Emits.{is_internal}
use devicectrl_server.App.Emits.Rules.{Emits-lift, Emits-sleep_for}
use devicectrl_server.Automations.Sunset.Evening.{
  Sun, wait_time, ramp_turns, ramp_task, ramp_all, evening, evenings, start_automation,
}
use devicectrl_server.Automations.Sunset.Evening.Ends.{ramp_task-TurnsEmit}
use devicectrl_server.Tasks.{
  Task, done, await, and_then, run_alone, run_alone-await, run_alone-and_then,
}
use devicectrl_server.Tasks.Join.{Scheduler}
use devicectrl_server.Tasks.Keeps.{TurnsEmit, TurnsEmit-await, TurnsEmit-and_then, AllTurnsEmit-map}
use devicectrl_server.Tasks.Nested.{try_join_task, run_alone-try_join_all, TurnsEmit-try_join_all}

module _ ⦃d : Deps⦄ ⦃e : Env⦄ ⦃c : Scheduler⦄ where
  unfoldable pub ramp_all_task : List SunsetDeviceConfig → Task
  ramp_all_task devices = try_join_task (ramp_turns devices) (map ramp_task devices)

module _ ⦃d : Deps⦄ ⦃e : Env⦄ ⦃c : Scheduler⦄ ⦃u : Sun⦄ where
  unfoldable pub evening_task : SunsetLightTempAutomationConfig → u.Coordinates → (n : ℕ) → Task
  unfolding ramp_all_task
  evening_task config coord n =
      await (lift (wait_time coord n))
        λ duration. await (sleep_for duration) λ _. ramp_all_task config.devices

  unfoldable pub evenings_task :
      SunsetLightTempAutomationConfig → u.Coordinates → (rounds n : ℕ) → Task
  evenings_task config coord zero n = done (ok tt)
  evenings_task config coord (suc rounds) n =
      and_then (evening_task config coord n) (evenings_task config coord rounds (n + 1))

  unfoldable pub sunset_task : SunsetLightTempAutomationConfig → (rounds : ℕ) → Task
  sunset_task config rounds =
      await
        (lift (or_message (u.coordinates config.coords.0 config.coords.1) "invalid coordinates"))
        λ coord. evenings_task config coord rounds 0

  evening_task_alone :
      (config : SunsetLightTempAutomationConfig) (coord : u.Coordinates) (n : ℕ) (s : AppState)
      → run_alone (evening_task config coord n) s ≡ evening config coord n s
  unfolding evening_task evening ramp_all
  evening_task_alone config coord n s = run_alone-await _ _ _ s λ duration t.
      run_alone-await _ _ _ t λ _ v. run_alone-try_join_all _ (map ramp_task config.devices) v

  evenings_task_alone :
      (config : SunsetLightTempAutomationConfig) (coord : u.Coordinates) (rounds n : ℕ)
      (s : AppState)
      → run_alone (evenings_task config coord rounds n) s ≡ evenings config coord rounds n s
  unfolding evenings_task evenings run_alone pure
  evenings_task_alone config coord zero n s = refl
  evenings_task_alone config coord (suc rounds) n s =
      run_alone-and_then (evening_task config coord n) _ s ∙ λ i.
      ((λ t. evening_task_alone config coord n t i)
          >> (λ t. evenings_task_alone config coord rounds (n + 1) t i))
        s

  -- The automation by itself, turn by turn, does what `start_automation` does.
  pub sunset_task_alone :
      (config : SunsetLightTempAutomationConfig) (rounds : ℕ) (s : AppState)
      → run_alone (sunset_task config rounds) s ≡ start_automation config rounds s
  unfolding sunset_task start_automation
  sunset_task_alone config rounds s =
      run_alone-await _ _ _ s λ coord t. evenings_task_alone config coord rounds 0 t

  evening_task-TurnsEmit :
      (config : SunsetLightTempAutomationConfig) (coord : u.Coordinates) (n : ℕ)
      → TurnsEmit is_internal (evening_task config coord n)
  unfolding evening_task
  evening_task-TurnsEmit config coord n = TurnsEmit-await is_internal _ _ (Emits-lift _) λ duration.
      TurnsEmit-await is_internal _ _ (Emits-sleep_for _ refl) λ _.
        TurnsEmit-try_join_all is_internal _ _
          (AllTurnsEmit-map is_internal ramp_task config.devices ramp_task-TurnsEmit)

  evenings_task-TurnsEmit :
      (config : SunsetLightTempAutomationConfig) (coord : u.Coordinates) (rounds n : ℕ)
      → TurnsEmit is_internal (evenings_task config coord rounds n)
  unfolding evenings_task
  evenings_task-TurnsEmit config coord zero n = tt
  evenings_task-TurnsEmit config coord (suc rounds) n =
      TurnsEmit-and_then is_internal _ _ (evening_task-TurnsEmit config coord n)
        (evenings_task-TurnsEmit config coord rounds (n + 1))

  pub sunset_task-TurnsEmit :
      (config : SunsetLightTempAutomationConfig) (rounds : ℕ)
      → TurnsEmit is_internal (sunset_task config rounds)
  unfolding sunset_task
  sunset_task-TurnsEmit config rounds =
      TurnsEmit-await is_internal _ _ (Emits-lift _)
        λ coord. evenings_task-TurnsEmit config coord rounds 0
