-- ===== src/Controllers/Dispatch.antt =====
-- `dispatch_update` and `dispatch_query_state` of the macro `make_controllers`, written out for the
-- four controllers of src/devices/controllers/mod.rs.
use devicectrl_server.Prelude.{String, Option, or_message}
use devicectrl_server.Deps.{Deps}
use devicectrl_server.Common.{UpdateRequest}
use devicectrl_server.Config.{ControllerConfig}
use devicectrl_server.Devices.{Device}
use devicectrl_server.App.{Env, Controllers, Action, ◌>>=◌, ◌>>◌}
use devicectrl_server.Simple.Requests as Simple
use devicectrl_server.Krypton.Requests as Krypton
use devicectrl_server.Tplink.Commands as Tplink
use devicectrl_server.Govee.Commands as Govee

module _ ⦃d : Deps⦄ where
  -- `app_state.controllers.$field.as_ref().context(..)?`
  unfoldable pub enabled : {C : Type 0} → (Controllers → Option C) → String → Action C
  enabled field m s = (or_message (field s.controllers) m, s)

module _ ⦃d : Deps⦄ ⦃e : Env⦄ where
  unfoldable pub update_by : ControllerConfig → Device → UpdateRequest → Action (Unit {0})
  update_by (ControllerConfig.simple config) device request = do
    enabled (λ c. c.simple) "Simple controller is not enabled!"
    Simple.send_update request
  update_by (ControllerConfig.krypton config) device request = do
    enabled (λ c. c.krypton) "Krypton controller is not enabled!"
    Krypton.send_update request
  update_by (ControllerConfig.tplink config) device request = do
    controller ← enabled (λ c. c.tplink) "Tplink controller is not enabled!"
    Tplink.send_update controller config device request
  update_by (ControllerConfig.govee config) device request = do
    controller ← enabled (λ c. c.govee) "Govee controller is not enabled!"
    Govee.send_update controller config device request

  unfoldable pub dispatch_update : Device → UpdateRequest → Action (Unit {0})
  unfolding update_by
  dispatch_update device request = update_by device.controller device request

  unfoldable pub query_by : ControllerConfig → Device → Action (Unit {0})
  query_by (ControllerConfig.simple config) device = do
    enabled (λ c. c.simple) "Simple controller is not enabled!"
    Simple.send_query device
  query_by (ControllerConfig.krypton config) device = do
    enabled (λ c. c.krypton) "Krypton controller is not enabled!"
    Krypton.send_query device
  query_by (ControllerConfig.tplink config) device = do
    enabled (λ c. c.tplink) "Tplink controller is not enabled!"
    Tplink.send_query config
  query_by (ControllerConfig.govee config) device = do
    enabled (λ c. c.govee) "Govee controller is not enabled!"
    Govee.send_query config

  unfoldable pub dispatch_query_state : Device → Action (Unit {0})
  unfolding query_by
  dispatch_query_state device = query_by device.controller device
