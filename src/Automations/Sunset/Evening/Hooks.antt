-- ===== src/Automations/Sunset/Evening/Hooks.antt =====
-- Which requests the ramps of an evening make.
use mathlib.Core.List.{Perm}
use devicectrl_server.Prelude.{
  ℕ, zero, suc, ◌+◌, ◌≡◌, refl, ◌∙◌, ap, sym, List, [], ◌∷◌, ◌++◌, map, ok,
}
use devicectrl_server.Deps.{Deps}
use devicectrl_server.Config.{SunsetDeviceConfig, SunsetLightTempAutomationConfig}
use devicectrl_server.App.{Env, AppState, Hook, device_update_dispatch, sleep_for}
use devicectrl_server.App.Emits.{is_command}
use devicectrl_server.App.Emits.Rules.{Emits-lift, Emits-sleep_for}
use devicectrl_server.App.Hooks.{hooks_sent}
use devicectrl_server.App.Inversion.{bind_inv, lift_inv}
use devicectrl_server.Automations.Sunset.{temp_request}
use devicectrl_server.Automations.Sunset.Evening.{
  Sun, ramp_length, ramp_step_task, ramp_from_task, ramp_task, ramp_all, wait_time, evening,
}
use devicectrl_server.Dispatch.Tasks.Turns.{request_task-Owes}
use devicectrl_server.Tasks.Join.{Scheduler}
use devicectrl_server.Tasks.Keeps.{TurnsEmit-await, TurnsEmit-finally}
use devicectrl_server.Tasks.Paid.{try_join_all-Owes}
use devicectrl_server.Tasks.Owes.{
  Owes, Owes-of_command, Owes-and_then, TotalOwes-concat_map, concat_map,
}

module _ ⦃d : Deps⦄ where
  -- the hooks of the requests for `count` color temperatures from one on, in their order
  abbrev pub temps_from : SunsetDeviceConfig → (count : ℕ) → ℕ → List Hook
  temps_from config zero n = []
  temps_from config (suc count) n =
      device_update_dispatch (temp_request config n) ∷ temps_from config count (n + 1)

  -- those for the range of a device
  abbrev pub temps_of : SunsetDeviceConfig → List Hook
  temps_of config = temps_from config (ramp_length config) config.first

module _ ⦃d : Deps⦄ ⦃e : Env⦄ where
  ramp_step_task-Owes :
      (config : SunsetDeviceConfig) (n : ℕ)
      → Owes (ramp_step_task config n) (device_update_dispatch (temp_request config n) ∷ [])
  unfolding ramp_step_task
  ramp_step_task-Owes config n =
      Owes-and_then _ _ (device_update_dispatch (temp_request config n) ∷ []) []
        (request_task-Owes (temp_request config n))
        (Owes-of_command _ (
          TurnsEmit-await is_command _ _ (Emits-lift _)
            λ duration. TurnsEmit-finally is_command _ (Emits-sleep_for _ refl)))

  ramp_from_task-Owes :
      (config : SunsetDeviceConfig) (count n : ℕ)
      → Owes (ramp_from_task config count n) (temps_from config count n)
  unfolding ramp_from_task
  ramp_from_task-Owes config zero n = refl
  ramp_from_task-Owes config (suc count) n =
      Owes-and_then _ _ (device_update_dispatch (temp_request config n) ∷ [])
        (temps_from config count (n + 1)) (ramp_step_task-Owes config n)
        (ramp_from_task-Owes config count (n + 1))

  ramp_task-Owes : (config : SunsetDeviceConfig) → Owes (ramp_task config) (temps_of config)
  unfolding ramp_task
  ramp_task-Owes config = ramp_from_task-Owes config (ramp_length config) config.first

module _ ⦃d : Deps⦄ ⦃e : Env⦄ ⦃c : Scheduler⦄ where
  ramp_all-hooks :
      (devices : List SunsetDeviceConfig) (s t : AppState)
      → ramp_all devices s ≡ (ok tt, t)
      → Perm (hooks_sent t.trace) (concat_map temps_of devices ++ hooks_sent s.trace)
  unfolding ramp_all
  ramp_all-hooks devices s t h =
      try_join_all-Owes _ (map ramp_task devices) s t _
        (TotalOwes-concat_map ramp_task temps_of devices ramp_task-Owes) h

module _ ⦃d : Deps⦄ ⦃e : Env⦄ ⦃c : Scheduler⦄ ⦃u : Sun⦄ where
  -- An evening that succeeds has requested exactly the color temperatures of the ranges of all its
  -- devices, each once, in some order.
  pub evening-hooks :
      (config : SunsetLightTempAutomationConfig) (coord : u.Coordinates) (n : ℕ) (s t : AppState)
      → evening config coord n s ≡ (ok tt, t)
      → Perm (hooks_sent t.trace) (concat_map temps_of config.devices ++ hooks_sent s.trace)
  unfolding evening sleep_for
  evening-hooks config coord n s t h =
      let (duration, s1, waiting, h1) = bind_inv _ _ s t h in
      let (is_wait, same) = lift_inv (wait_time coord n) s s1 waiting in
      let (_, s2, slept, h2) = bind_inv _ _ s1 t h1 in
      let quiet : hooks_sent s2.trace ≡ hooks_sent s1.trace =
        ap (λ p. hooks_sent p.1.trace) (sym slept) in
      rw (quiet ∙ ap (λ v. hooks_sent v.trace) same) at (ramp_all-hooks config.devices s2 t h2)
