-- ===== src/Automations/Dependencies.antt =====
-- src/automations/dependencies.rs: a device that is turned on turns on the device it depends on.
pub mod Channel
pub mod Trigger
pub mod Turn
pub mod Cascade
pub mod Cycle
pub mod First
pub mod Loop
pub mod Tasks
use devicectrl_server.Prelude.{
  ℕ, Bool, true, false, String, Option, none, some, ◌&&◌, ◌==◌, if◌then◌else◌, find?,
}
use devicectrl_server.Deps.{Deps}
use devicectrl_server.Common.{
  SwitchPower, on, off, DeviceState, AttributeUpdate, UpdateRequest, UpdateNotification,
}
use devicectrl_server.Config.{DependencyRelationship, DependencyAutomationConfig}
use devicectrl_server.App.{
  Env, Action, Hook, device_update_dispatch, device_state_update, scene_activate, pure, within,
  ◌>>=◌, ◌>>◌,
}
use devicectrl_server.Dispatch.Request.{process_update_request}

-- `config.iter().find(|d| d.dependent_id == id)`: the first relationship of that dependent
abbrev pub dependency_of : DependencyAutomationConfig → ℕ → Option DependencyRelationship
dependency_of config id = find? (λ r. r.dependent_id == id) config

abbrev pub is_power : SwitchPower → SwitchPower → Bool
is_power on on = true
is_power off off = true
is_power _ _ = false

module _ ⦃d : Deps⦄ where
  -- `matches!(update, AttributeUpdate::Power(SwitchPower::On))`
  abbrev pub turns_on : AttributeUpdate → Bool
  turns_on (AttributeUpdate.power p) = is_power on p
  turns_on _ = false

  -- `matches!(state, DeviceState::Switch(SwitchState { power }))`
  abbrev pub is_switched : SwitchPower → DeviceState → Bool
  is_switched p (DeviceState.switch state) = is_power p state.power
  is_switched p _ = false

  abbrev pub power_request : ℕ → SwitchPower → UpdateRequest
  power_request id p = record { device_id = id; update = AttributeUpdate.power p }

module _ ⦃d : Deps⦄ ⦃e : Env⦄ where
  -- `if let Some(dependency) = found && test { process_update_request(..).await.context(m)?; }`
  unfoldable pub request_if :
      Option DependencyRelationship → Bool → SwitchPower → String → Action (Unit {0})
  request_if none test p m = pure tt
  request_if (some dependency) test p m =
      if test
      then within m (process_update_request (power_request dependency.dependency_id p))
      else pure tt

  -- the body of the loop in `start_automation`
  unfoldable pub on_event : DependencyAutomationConfig → Hook → Action (Unit {0})
  on_event config (device_update_dispatch request) =
      request_if (dependency_of config request.device_id) (turns_on request.update) on
        "failed to process dependent update request"
  on_event config (device_state_update update) = do
    request_if (dependency_of config update.device_id) (is_switched on update.new_state) on
        "failed to process dependent update request"
    request_if (dependency_of config update.device_id) (is_switched off update.new_state) off
        "failed to process dependent state update"
  on_event config (scene_activate scene) = pure tt
