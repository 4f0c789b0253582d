-- ===== src/Scenes/Tasks.antt =====
-- `process_scene_activate` of src/scenes.rs turn by turn, among the tasks of the server.
use devicectrl_server.Prelude.{ℕ, ◌*◌, ◌≡◌, refl, ◌∙◌, List, map, length, ap}
use devicectrl_server.Deps.{Deps}
use devicectrl_server.Common.{UpdateRequest}
use devicectrl_server.App.{Env, AppState, scene_activate, send_hook, perform, within}
use devicectrl_server.App.Emits.{is_internal, SameState-refl}
use devicectrl_server.App.Emits.Rules.{Emits-within, Emits-perform}
use devicectrl_server.Dispatch.Tasks.{request_task}
use devicectrl_server.Dispatch.Tasks.Turns.{request_turns, request_task-TurnsEmit}
use devicectrl_server.Scenes.{find_scene, update_all, process_scene_activate}
use devicectrl_server.Tasks.{Task, await, run_alone, run_alone-await}
use devicectrl_server.Tasks.Join.{Scheduler}
use devicectrl_server.Tasks.Keeps.{TurnsEmit, TurnsEmit-await, AllTurnsEmit-map}
use devicectrl_server.Tasks.Nested.{
  task_within, try_join_task, run_alone-within, run_alone-try_join_all, TurnsEmit-within,
  TurnsEmit-try_join_all,
}

module _ ⦃d : Deps⦄ ⦃e : Env⦄ ⦃c : Scheduler⦄ where
  -- the updates of a scene, which take turns with each other and with all other tasks
  unfoldable pub update_all_task : List UpdateRequest → Task
  update_all_task scene = try_join_task (request_turns * length scene) (map request_task scene)

  unfoldable pub scene_task : ℕ → Task
  unfolding update_all_task
  scene_task request = await (find_scene request) λ scene.
      await
        (within "failed to send scene activation hook"
          (perform (send_hook (scene_activate request))))
        λ _. task_within "failed to update activate scene" (update_all_task scene)

  -- An activation that runs by itself, turn by turn, does what `process_scene_activate` does.
  pub scene_task_alone :
      (request : ℕ) (s : AppState)
      → run_alone (scene_task request) s ≡ process_scene_activate request s
  unfolding scene_task process_scene_activate update_all within
  scene_task_alone request s = run_alone-await (find_scene request) _ _ s λ scene t.
      run_alone-await _ _ _ t λ _ u.
        run_alone-within "failed to update activate scene" (update_all_task scene) u
        ∙ ap (λ p. (within "failed to update activate scene" (λ _. p) u))
            (run_alone-try_join_all _ (map request_task scene) u)

  pub scene_task-TurnsEmit : (request : ℕ) → TurnsEmit is_internal (scene_task request)
  unfolding scene_task find_scene
  scene_task-TurnsEmit request =
      TurnsEmit-await is_internal _ _ (record { at = λ s. SameState-refl is_internal s })
        λ scene. TurnsEmit-await is_internal _ _ (Emits-within _ _ (Emits-perform _ refl)) λ _.
          TurnsEmit-within is_internal _ _ (
            TurnsEmit-try_join_all is_internal _ _
              (AllTurnsEmit-map is_internal request_task scene request_task-TurnsEmit))
