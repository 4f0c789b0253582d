-- ===== src/System/Quiet.antt =====
-- What the server does by itself and for its clients reports no device's state.
use devicectrl_server.Prelude.{ℕ, Bool, true, false, String, Option, none, some, refl}
use devicectrl_server.Deps.{Deps}
use devicectrl_server.Common.{SwitchPower}
use devicectrl_server.Config.{DependencyAutomationConfig, DependencyRelationship}
use devicectrl_server.App.{
  Env, AppState, Hook, device_update_dispatch, device_state_update, scene_activate,
}
use devicectrl_server.App.Emits.{
  is_command, is_internal, is_unreported, is_command-Implies, is_internal-Implies, SameState,
  SameState-wider, Emits, Emits-wider,
}
use devicectrl_server.App.Emits.Rules.{
  Emits-pure, Emits-lift, Emits-bind, Emits-within, Emits-sleep_for,
}
use devicectrl_server.Automations.Dependencies.{request_if, on_event}
use devicectrl_server.Config.{SunsetDeviceConfig}
use devicectrl_server.Automations.Sunset.{ramp_step}
use devicectrl_server.Dispatch.Laws.{Emits-process_update_request}

module _ ⦃d : Deps⦄ where
  pub command_unreported : {s t : AppState} → SameState is_command s t → SameState is_unreported s t
  command_unreported h = SameState-wider is_internal-Implies (SameState-wider is_command-Implies h)

module _ ⦃d : Deps⦄ ⦃e : Env⦄ where
  Emits-request_if :
      (found : Option DependencyRelationship) (test : Bool) (p : SwitchPower) (m : String)
      → Emits is_internal (request_if found test p m)
  unfolding request_if
  Emits-request_if none test p m = Emits-pure tt
  Emits-request_if (some dependency) true p m = Emits-within _ _ (Emits-process_update_request _)
  Emits-request_if (some dependency) false p m = Emits-pure tt

  Emits-on_event :
      (config : DependencyAutomationConfig) (hook : Hook) → Emits is_internal (on_event config hook)
  unfolding on_event
  Emits-on_event config (device_update_dispatch request) = Emits-request_if _ _ _ _
  Emits-on_event config (device_state_update update) =
      Emits-bind _ _ (Emits-request_if _ _ _ _) λ _. Emits-request_if _ _ _ _
  Emits-on_event config (scene_activate scene) = Emits-pure tt

  pub on_event_unreported :
      (config : DependencyAutomationConfig) (hook : Hook)
      → Emits is_unreported (on_event config hook)
  on_event_unreported config hook = Emits-wider _ is_internal-Implies (Emits-on_event config hook)

  Emits-ramp_step :
      (config : SunsetDeviceConfig) (color_temp : ℕ)
      → Emits is_internal (ramp_step config color_temp)
  unfolding ramp_step
  Emits-ramp_step config color_temp =
      Emits-bind _ _ (Emits-process_update_request _)
        λ _. Emits-bind _ _ (Emits-lift _) λ duration. Emits-sleep_for _ refl

  pub ramp_step_unreported :
      (config : SunsetDeviceConfig) (color_temp : ℕ)
      → Emits is_unreported (ramp_step config color_temp)
  ramp_step_unreported config color_temp =
      Emits-wider _ is_internal-Implies (Emits-ramp_step config color_temp)
