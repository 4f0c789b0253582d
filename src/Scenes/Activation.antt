-- ===== src/Scenes/Activation.antt =====
-- What the activation of a scene by src/scenes.rs does, in whichever order its updates take their
-- turns.
use mathlib.Core.List.{Perm, perm-append_right_iff}
use devicectrl_server.Prelude.{
  ℕ, String, ◌*◌, ◌≡◌, refl, ◌∙◌, ap, some, List, ◌∷◌, ◌++◌, map, Result, ok, length, get, arith,
}
use devicectrl_server.Deps.{Deps}
use devicectrl_server.Common.{UpdateRequest}
use devicectrl_server.App.{
  Env, AppState, Hook, device_update_dispatch, scene_activate, send_hook, perform, within,
}
use devicectrl_server.App.Hooks.{hooks_sent, hooks_sent-append}
use devicectrl_server.App.Emits.{is_internal, SameState, Emits, SameState-refl}
use devicectrl_server.App.Emits.Rules.{Emits-bind, Emits-within, Emits-perform}
use devicectrl_server.App.Inversion.{bind_inv}
use devicectrl_server.Tasks.Join.{Scheduler, join}
use devicectrl_server.Tasks.Within.{TotalWithin-map, join_ends}
use devicectrl_server.Tasks.Keeps.{AllTurnsEmit-map, join-SameState}
use devicectrl_server.Tasks.Paid.{try_join_all-Owes}
use devicectrl_server.Tasks.Owes.{TotalOwes-map}
use devicectrl_server.Dispatch.Tasks.{request_task}
use devicectrl_server.Dispatch.Tasks.Turns.{
  request_turns, request_task-Within, request_task-TurnsEmit, request_task-Owes,
}
use devicectrl_server.Scenes.{find_scene, update_all, process_scene_activate}

module _ ⦃d : Deps⦄ ⦃e : Env⦄ ⦃c : Scheduler⦄ where
  -- The updates of a scene come to a result, in whichever order they take their turns: 4 turns for
  -- each are enough.
  pub update_all_ends :
      (scene : List UpdateRequest) (start : ℕ) (s : AppState)
      → (r : Result (Unit {0})) × ((join
            (request_turns * length scene)
            start
            0
            (map request_task scene)
            s).0
          ≡ some r)
  update_all_ends scene start s =
      join_ends (request_turns * length scene) start 0 (map request_task scene) s
        (TotalWithin-map request_turns request_task scene request_task-Within)

  Emits-update_all : (scene : List UpdateRequest) → Emits is_internal (update_all scene)
  unfolding update_all
  Emits-update_all scene = record {
    at = λ s.
        join-SameState is_internal (request_turns * length scene) s.clock 0 (map request_task scene)
          s (AllTurnsEmit-map is_internal request_task scene request_task-TurnsEmit);
  }

  -- A scene's activation never changes the registry, the configuration or the controllers, and it
  -- adds no effect to the trace that
  -- reports the state of a device or is a frame to a client.
  pub Emits-process_scene_activate : (id : ℕ) → Emits is_internal (process_scene_activate id)
  unfolding process_scene_activate find_scene
  Emits-process_scene_activate id =
      Emits-bind _ _ (record { at = λ s. SameState-refl is_internal s })
        λ scene.
          Emits-bind _ _ (Emits-within _ _ (Emits-perform _ refl))
            λ _. Emits-within _ _ (Emits-update_all scene)

  -- what is sent by updates that succeed: exactly their requests, in some order
  update_all-hooks :
      (scene : List UpdateRequest) (s t : AppState)
      → update_all scene s ≡ (ok tt, t)
      → (recent : List Hook) × (hooks_sent t.trace ≡ recent ++ hooks_sent s.trace)
        × Perm recent (map device_update_dispatch scene)
  unfolding update_all
  update_all-hooks scene s t h =
      let added : SameState is_internal s t =
        rw (ap (λ p. p.1) h) at ((Emits-update_all scene).at s) in
      let recent : hooks_sent t.trace ≡ hooks_sent added.fresh ++ hooks_sent s.trace =
        ap hooks_sent added.trace ∙ hooks_sent-append added.fresh s.trace in
      let all =
        try_join_all-Owes _ (map request_task scene) s t _
          (TotalOwes-map request_task device_update_dispatch scene request_task-Owes) h in
      (
        hooks_sent added.fresh,
        recent,
        (perm-append_right_iff (hooks_sent s.trace)).0 (rw recent at all),
      )

  find_scene_inv :
      (id : ℕ) (s t : AppState) {scene : List UpdateRequest}
      → find_scene id s ≡ (ok scene, t)
      → (get id s.config.scenes ≡ some scene) × (t ≡ s)
  unfolding find_scene
  find_scene_inv id s t h = ground arith

  within_inv :
      (m : String) (f : AppState → Result (Unit {0}) × AppState) (s t : AppState)
      → within m f s ≡ (ok tt, t)
      → f s ≡ (ok tt, t)
  unfolding within
  within_inv m f s t h = ground arith

  hook_sent :
      (h : Hook) (s t : AppState)
      → perform (send_hook h) s ≡ (ok tt, t)
      → hooks_sent t.trace ≡ h ∷ hooks_sent s.trace
  unfolding perform
  hook_sent h s t sent = ground arith

  -- A scene that is activated is configured; the activation was announced, and after it exactly the
  -- requests of the scene: each as often as the scene lists it, in some order.
  pub process_scene_activate-announced :
      (id : ℕ) (s t : AppState)
      → process_scene_activate id s ≡ (ok tt, t)
      → (scene : List UpdateRequest) × (recent : List Hook) × (get id s.config.scenes ≡ some scene)
        × (hooks_sent t.trace ≡ recent ++ (scene_activate id ∷ hooks_sent s.trace))
        × Perm recent (map device_update_dispatch scene)
  unfolding process_scene_activate
  process_scene_activate-announced id s t h =
      let (scene, s1, finding, h1) = bind_inv _ _ s t h in
      let (found, same) = find_scene_inv id s s1 finding in
      let (_, s2, sending, h2) = bind_inv _ _ s1 t h1 in
      let sent = hook_sent _ s1 s2 (within_inv _ _ s1 s2 sending) in
      let before = sent ∙ ap (λ u. scene_activate id ∷ hooks_sent u.trace) same in
      let (recent, after, all) = update_all-hooks scene s2 t (within_inv _ _ s2 t h2) in
      (scene, recent, found, after ∙ ap (λ hooks. recent ++ hooks) before, all)
