-- ===== src/Automations/Dependencies/Tasks.antt =====
-- `start_automation` of src/automations/dependencies.rs turn by turn, among the tasks of the server,
-- which may send hooks between any two turns.
use devicectrl_server.Prelude.{◌≡◌, refl, ◌∙◌, Bool, true, false, String, Option, none, some, ok}
use devicectrl_server.Deps.{Deps}
use devicectrl_server.Common.{SwitchPower, on, off}
use devicectrl_server.Config.{DependencyRelationship, DependencyAutomationConfig}
use devicectrl_server.App.{
  Env, AppState, Hook, device_update_dispatch, device_state_update, scene_activate, pure, within,
  ◌>>◌,
}
use devicectrl_server.App.Emits.{is_internal}
use devicectrl_server.Automations.Dependencies.{
  dependency_of, turns_on, is_switched, power_request, request_if, on_event,
}
use devicectrl_server.Dispatch.Tasks.{request_task}
use devicectrl_server.Dispatch.Tasks.Alone.{request_task_alone}
use devicectrl_server.Dispatch.Tasks.Turns.{request_task-TurnsEmit}
use devicectrl_server.Tasks.{Task, done, and_then, run_alone, run_alone-and_then}
use devicectrl_server.Tasks.Keeps.{TurnsEmit, TurnsEmit-and_then}
use devicectrl_server.Tasks.Nested.{task_within, run_alone-within, TurnsEmit-within}

module _ ⦃d : Deps⦄ ⦃e : Env⦄ where
  unfoldable pub request_if_task :
      Option DependencyRelationship → Bool → SwitchPower → String → Task
  request_if_task none test p m = done (ok tt)
  request_if_task (some dependency) true p m =
      task_within m (request_task (power_request dependency.dependency_id p))
  request_if_task (some dependency) false p m = done (ok tt)

  unfoldable pub on_event_task : DependencyAutomationConfig → Hook → Task
  unfolding request_if_task
  on_event_task config (device_update_dispatch request) =
      request_if_task (dependency_of config request.device_id) (turns_on request.update) on
        "failed to process dependent update request"
  on_event_task config (device_state_update update) =
      and_then
        (request_if_task (dependency_of config update.device_id) (is_switched on update.new_state)
          on "failed to process dependent update request")
        (request_if_task (dependency_of config update.device_id) (is_switched off update.new_state)
          off "failed to process dependent state update")
  on_event_task config (scene_activate scene) = done (ok tt)

  request_if_task_alone :
      (found : Option DependencyRelationship) (test : Bool) (p : SwitchPower) (m : String)
      (s : AppState)
      → run_alone (request_if_task found test p m) s ≡ request_if found test p m s
  unfolding request_if_task request_if run_alone pure
  request_if_task_alone none test p m s = refl
  request_if_task_alone (some dependency) true p m s =
      let request = power_request dependency.dependency_id p in
      run_alone-within m (request_task request) s ∙ λ i.
      within m (λ t. request_task_alone request t i) s
  request_if_task_alone (some dependency) false p m s = refl

  -- An event by itself, turn by turn, is handled as by `on_event`.
  pub on_event_task_alone :
      (config : DependencyAutomationConfig) (hook : Hook) (s : AppState)
      → run_alone (on_event_task config hook) s ≡ on_event config hook s
  unfolding on_event_task on_event run_alone pure
  on_event_task_alone config (device_update_dispatch request) s =
      request_if_task_alone (dependency_of config request.device_id) (turns_on request.update) on _
        s
  on_event_task_alone config (device_state_update update) s =
      let found = dependency_of config update.device_id in
      let first =
        request_if_task found (is_switched on update.new_state) on
          "failed to process dependent update request" in
      run_alone-and_then first _ s ∙ λ i.
      ((λ t.
            request_if_task_alone found (is_switched on update.new_state) on
              "failed to process dependent update request" t i)
          >> (λ t.
              request_if_task_alone found (is_switched off update.new_state) off
                "failed to process dependent state update" t i))
        s
  on_event_task_alone config (scene_activate scene) s = refl

  request_if_task-TurnsEmit :
      (found : Option DependencyRelationship) (test : Bool) (p : SwitchPower) (m : String)
      → TurnsEmit is_internal (request_if_task found test p m)
  unfolding request_if_task
  request_if_task-TurnsEmit none test p m = tt
  request_if_task-TurnsEmit (some dependency) true p m =
      TurnsEmit-within is_internal m _ (request_task-TurnsEmit _)
  request_if_task-TurnsEmit (some dependency) false p m = tt

  pub on_event_task-TurnsEmit :
      (config : DependencyAutomationConfig) (hook : Hook)
      → TurnsEmit is_internal (on_event_task config hook)
  unfolding on_event_task
  on_event_task-TurnsEmit config (device_update_dispatch request) =
      request_if_task-TurnsEmit _ _ _ _
  on_event_task-TurnsEmit config (device_state_update update) =
      TurnsEmit-and_then is_internal _ _ (request_if_task-TurnsEmit _ _ _ _)
        (request_if_task-TurnsEmit _ _ _ _)
  on_event_task-TurnsEmit config (scene_activate scene) = tt
