-- ===== src/Automations/Dependencies/First.antt =====
-- Which relationship counts for a hook that the automation of src/automations/dependencies.rs
-- reads: the first of the device that the hook is about.
use devicectrl_server.Prelude.{
  ℕ, ◌≡◌, ◌≢◌, refl, ap, Bool-cases, inl, inr, String, Option, none, some, [], ◌∷◌, ◌++◌, ◌==◌,
  arith,
}
use devicectrl_server.Deps.{Deps}
use devicectrl_server.Common.{on, UpdateRequest}
use devicectrl_server.Config.{DependencyRelationship, DependencyAutomationConfig}
use devicectrl_server.App.{
  Env, AppState, Hook, device_update_dispatch, device_state_update, scene_activate,
}
use devicectrl_server.Automations.Dependencies.{dependency_of, on_event}
use devicectrl_server.Automations.Dependencies.Trigger.{
  to_dependency, when_power, when_switched, respond, on_event-trigger,
}

-- no relationship is one of the device
abbrev pub IsNoneOf : ℕ → DependencyAutomationConfig → Type 0
IsNoneOf id [] = Unit
IsNoneOf id (r ∷ config) = (r.dependent_id ≢ id) × IsNoneOf id config

-- the device's relationship before which there is none of it, or nothing where there is none at all
abbrev pub IsFirst : ℕ → DependencyAutomationConfig → Option DependencyRelationship → Type 0
IsFirst id config none = IsNoneOf id config
IsFirst id config (some r) =
    (before after : DependencyAutomationConfig) × (config ≡ before ++ (r ∷ after))
    × (r.dependent_id ≡ id)
    × IsNoneOf id before

IsFirst-later :
    (id : ℕ) (r : DependencyRelationship) (config : DependencyAutomationConfig)
    (found : Option DependencyRelationship)
    → r.dependent_id ≢ id
    → IsFirst id config found
    → IsFirst id (r ∷ config) found
IsFirst-later id r config none other h = (other, h)
IsFirst-later id r config (some q) other (before, after, parts, named, h) =
    (r ∷ before, after, ap (λ rs. r ∷ rs) parts, named, (other, h))

dependency_of-IsFirst :
    (config : DependencyAutomationConfig) (id : ℕ) → IsFirst id config (dependency_of config id)
dependency_of-IsFirst [] id = tt
dependency_of-IsFirst (r ∷ config) id = elim (Bool-cases (r.dependent_id == id)) [
  | inl same ↦ rw same ([], config, refl, ground (arith, same), tt)
  | inr other ↦
      let differs : r.dependent_id ≢ id = ground (arith, other) in
      rw other (IsFirst-later id r config _ differs (dependency_of-IsFirst config id))
]

module _ ⦃d : Deps⦄ where
  -- the relationship that counts for a hook
  abbrev pub Counts : DependencyAutomationConfig → Hook → Option DependencyRelationship → Type 0
  Counts config (device_update_dispatch request) found = IsFirst request.device_id config found
  Counts config (device_state_update update) found = IsFirst update.device_id config found
  Counts config (scene_activate scene) found = found ≡ none

  -- the request that a hook calls for, with that relationship
  abbrev pub called_for : Hook → Option DependencyRelationship → Option UpdateRequest
  called_for (device_update_dispatch request) found =
      when_power request.update (to_dependency found on)
  called_for (device_state_update update) found = when_switched update.new_state found
  called_for (scene_activate scene) found = none

module _ ⦃d : Deps⦄ ⦃e : Env⦄ where
  -- A hook calls for at most one request, and that request is all that is done: where a dispatch
  -- turns a device on, or a switch reports to be on or off, the dependency that the first
  -- relationship of the device names is put in the same state; else nothing is done.
  pub on_event-first :
      (config : DependencyAutomationConfig) (h : Hook) (s : AppState)
      → (found : Option DependencyRelationship) × Counts config h found
        × (m : String) × (on_event config h s ≡ respond m (called_for h found) s)
  on_event-first config (device_update_dispatch request) s =
      let (m, only) = on_event-trigger config (device_update_dispatch request) s in
      (
        dependency_of config request.device_id,
        dependency_of-IsFirst config request.device_id,
        m,
        only,
      )
  on_event-first config (device_state_update update) s =
      let (m, only) = on_event-trigger config (device_state_update update) s in
      (
        dependency_of config update.device_id,
        dependency_of-IsFirst config update.device_id,
        m,
        only,
      )
  on_event-first config (scene_activate scene) s =
      let (m, only) = on_event-trigger config (scene_activate scene) s in (none, refl, m, only)
