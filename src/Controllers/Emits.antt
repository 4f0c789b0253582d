-- ===== src/Controllers/Emits.antt =====
-- No request to a device, whatever its controller and however it ends, changes what the server
-- holds of any device: only notifications do.
use devicectrl_server.Deps.{Deps}
use devicectrl_server.Common.{UpdateRequest}
use devicectrl_server.Config.{TplinkControllerConfig, GoveeControllerConfig, ControllerConfig}
use devicectrl_server.Devices.{Device}
use devicectrl_server.Prelude.{ℕ, String, Bool, true, false, Option}
use devicectrl_server.App.{Env, TplinkController, GoveeController, Controllers, UdpSocket}
use devicectrl_server.App.Emits.{is_command, Emits, SameState-refl}
use devicectrl_server.App.Emits.Rules.{emits_rules, Emits-bail, Emits-pure}
use devicectrl_server.Controllers.Dispatch.{
  enabled, update_by, query_by, dispatch_update, dispatch_query_state,
}
use devicectrl_server.Simple.Requests as Simple
use devicectrl_server.Krypton.Requests as Krypton
use devicectrl_server.Tplink.Commands as Tplink
use devicectrl_server.Govee.Commands as Govee

module _ ⦃d : Deps⦄ ⦃e : Env⦄ where
  open d use {Value}

  Emits-simple_query : (device : Device) → Emits is_command (Simple.send_query device)
  unfolding Simple.send_query
  Emits-simple_query device = search emits_rules

  pub Emits-simple_update :
      (request : UpdateRequest) → Emits is_command (Simple.send_update request)
  unfolding Simple.send_update
  Emits-simple_update request = search emits_rules

  Emits-krypton_query : (device : Device) → Emits is_command (Krypton.send_query device)
  unfolding Krypton.send_query
  Emits-krypton_query device = search emits_rules

  pub Emits-krypton_update :
      (request : UpdateRequest) → Emits is_command (Krypton.send_update request)
  unfolding Krypton.send_update
  Emits-krypton_update request = search emits_rules

  pub Emits-govee_command :
      (config : GoveeControllerConfig) (v : Value) → Emits is_command (Govee.send_command config v)
  unfolding Govee.send_command
  Emits-govee_command config v = search emits_rules

  Emits-govee_query : (config : GoveeControllerConfig) → Emits is_command (Govee.send_query config)
  unfolding Govee.send_query
  Emits-govee_query config = search (emits_rules, Emits-govee_command)

  Emits-govee_update :
      (controller : GoveeController) (config : GoveeControllerConfig) (device : Device)
      (request : UpdateRequest)
      → Emits is_command (Govee.send_update controller config device request)
  unfolding Govee.send_update
  Emits-govee_update controller config device request =
      search (emits_rules, Emits-govee_command) depth 9

  pub Emits-tplink_command :
      (socket : UdpSocket) (config : TplinkControllerConfig) (v : Value)
      → Emits is_command (Tplink.send_command socket config v)
  unfolding Tplink.send_command
  Emits-tplink_command socket config v = search emits_rules

  pub Emits-tplink_query :
      (config : TplinkControllerConfig) → Emits is_command (Tplink.send_query config)
  unfolding Tplink.send_query
  Emits-tplink_query config = search (emits_rules, Emits-tplink_command)

  pub Emits-tplink_response :
      (limit : ℕ) (socket : UdpSocket) → Emits is_command (Tplink.receive_response limit socket)
  unfolding Tplink.receive_response
  Emits-tplink_response limit socket = search emits_rules

  pub Emits-confirm : (success : Bool) → Emits is_command (Tplink.confirm success)
  unfolding Tplink.confirm
  Emits-confirm true = Emits-pure tt
  Emits-confirm false = Emits-bail _

  Emits-tplink_update :
      (controller : TplinkController) (config : TplinkControllerConfig) (device : Device)
      (request : UpdateRequest)
      → Emits is_command (Tplink.send_update controller config device request)
  unfolding Tplink.send_update
  Emits-tplink_update controller config device request =
      search
        (
          emits_rules, Emits-tplink_command, Emits-tplink_response, Emits-confirm,
          Emits-tplink_query,
        )
        depth 12

  pub Emits-enabled :
      {C : Type 0} (field : Controllers → Option C) (m : String)
      → Emits is_command (enabled field m)
  unfolding enabled
  Emits-enabled field m = record { at = λ s. SameState-refl is_command s }

  ruleset controller_rules = (
    emits_rules, Emits-enabled, Emits-simple_query, Emits-simple_update, Emits-krypton_query,
    Emits-krypton_update, Emits-govee_query, Emits-govee_update, Emits-tplink_query,
    Emits-tplink_update,
  )

  Emits-update_by :
      (config : ControllerConfig) (device : Device) (request : UpdateRequest)
      → Emits is_command (update_by config device request)
  unfolding update_by
  Emits-update_by (ControllerConfig.simple config) device request = search controller_rules
  Emits-update_by (ControllerConfig.krypton config) device request = search controller_rules
  Emits-update_by (ControllerConfig.tplink config) device request = search controller_rules
  Emits-update_by (ControllerConfig.govee config) device request = search controller_rules

  pub Emits-dispatch_update :
      (device : Device) (request : UpdateRequest)
      → Emits is_command (dispatch_update device request)
  unfolding dispatch_update
  Emits-dispatch_update device request = Emits-update_by device.controller device request

  pub Emits-query_by :
      (config : ControllerConfig) (device : Device) → Emits is_command (query_by config device)
  unfolding query_by
  Emits-query_by (ControllerConfig.simple config) device = search controller_rules
  Emits-query_by (ControllerConfig.krypton config) device = search controller_rules
  Emits-query_by (ControllerConfig.tplink config) device = search controller_rules
  Emits-query_by (ControllerConfig.govee config) device = search controller_rules

  pub Emits-dispatch_query_state :
      (device : Device) → Emits is_command (dispatch_query_state device)
  unfolding dispatch_query_state
  Emits-dispatch_query_state device = Emits-query_by device.controller device
