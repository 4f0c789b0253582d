-- ===== src/Controllers/New.antt =====
-- How the controllers of src/devices/controllers are made when the server starts.
use devicectrl_server.Prelude.{Option, none, some}
use devicectrl_server.Deps.{Deps}
use devicectrl_server.Config.{
  ControllersConfig, SimpleControllerGlobalConfig, KryptonControllerGlobalConfig,
  TplinkControllerGlobalConfig, GoveeControllerGlobalConfig,
}
use devicectrl_server.App.{
  Env, Action, Controllers, SimpleController, KryptonController, TplinkController, GoveeController,
  tplink_shared, govee_shared, listen_tcp, bind_udp, perform, pure, ◌>>=◌, ◌>>◌,
}

module _ ⦃d : Deps⦄ ⦃e : Env⦄ where
  -- the four functions `new`
  unfoldable pub new_simple : SimpleControllerGlobalConfig → Action SimpleController
  new_simple global_config = do
    perform (listen_tcp global_config.listen_on)
    pure (record { global_config = global_config })

  unfoldable pub new_krypton : KryptonControllerGlobalConfig → Action KryptonController
  new_krypton global_config = do
    perform (listen_tcp global_config.listen_on)
    pure (record { global_config = global_config })

  unfoldable pub new_tplink : TplinkControllerGlobalConfig → Action TplinkController
  new_tplink global_config = do
    perform (bind_udp tplink_shared)
    pure (record { global_config = global_config })

  unfoldable pub new_govee : GoveeControllerGlobalConfig → Action GoveeController
  new_govee global_config = do
    perform (bind_udp govee_shared)
    pure (record { global_config = global_config })

  -- one field of `Controllers::new`
  unfoldable pub new_if : {C K : Type 0} → (C → Action K) → Option C → Action (Option K)
  new_if new none = pure none
  new_if new (some config) = do controller ← new config; pure (some controller)

  -- `Controllers::new`
  unfoldable pub new_controllers : ControllersConfig → Action Controllers
  new_controllers config = do
    simple ← new_if new_simple config.simple
    krypton ← new_if new_krypton config.krypton
    tplink ← new_if new_tplink config.tplink
    govee ← new_if new_govee config.govee
    pure (record { simple = simple; krypton = krypton; tplink = tplink; govee = govee })
