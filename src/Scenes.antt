-- ===== src/Scenes.antt =====
-- src/scenes.rs: the updates of a scene, all at once.
pub mod Activation
pub mod Tasks
use devicectrl_server.Prelude.{
  ℕ, ◌*◌, String, Option, none, some, List, map, Result, ok, err, library, or_message, get, length,
}
use devicectrl_server.Deps.{Deps}
use devicectrl_server.Common.{UpdateRequest}
use devicectrl_server.App.{
  Env, AppState, Action, scene_activate, send_hook, perform, within, ◌>>=◌, ◌>>◌,
}
use devicectrl_server.Tasks.{Task}
use devicectrl_server.Tasks.Join.{Scheduler, try_join_all}
use devicectrl_server.Dispatch.Tasks.{request_task}
use devicectrl_server.Dispatch.Tasks.Turns.{request_turns}

module _ ⦃d : Deps⦄ where
  -- `app_state.config.scenes.get(request).context(..)?`
  unfoldable pub find_scene : ℕ → Action (List UpdateRequest)
  find_scene id s = (or_message (get id s.config.scenes) "Could not find scene!", s)

module _ ⦃d : Deps⦄ ⦃e : Env⦄ ⦃c : Scheduler⦄ where
  -- the updates of a scene, with the turns that they take at most
  unfoldable pub update_all : List UpdateRequest → Action (Unit {0})
  unfolding try_join_all
  update_all scene = try_join_all (request_turns * length scene) (map request_task scene)

  unfoldable pub process_scene_activate : ℕ → Action (Unit {0})
  process_scene_activate request = do
    scene ← find_scene request
    within "failed to send scene activation hook" (perform (send_hook (scene_activate request)))
    within "failed to update activate scene" (update_all scene)
