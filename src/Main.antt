-- ===== src/Main.antt =====
-- How src/main.rs makes the shared state, from a configuration that was read.
pub mod Boot
pub mod Crowd
pub mod Returns
pub mod Serves
pub mod Tasks
pub mod Threads
pub mod Told
pub mod Trust
pub mod Verdict
use devicectrl_server.Prelude.{ℕ, Option, none, some, [], Result, ok, err, library}
use devicectrl_server.Deps.{Deps}
use devicectrl_server.Config.{Config}
use devicectrl_server.Devices.{Devices, load_devices}
use devicectrl_server.App.{Env, AppState, Controllers}
use devicectrl_server.Controllers.New.{new_controllers}

module _ ⦃d : Deps⦄ where
  abbrev no_controllers : Controllers
  no_controllers = record { simple = none; krypton = none; tplink = none; govee = none }

  -- before the controllers are made
  abbrev pub fresh_state : Config → Devices → AppState
  fresh_state config devices = record {
    config = config;
    devices = devices;
    controllers = no_controllers;
    clock = 0;
    trace = [];
  }

  abbrev pub with_controllers : Result Controllers × AppState → Result AppState
  with_controllers (ok controllers, s) = ok (record s { controllers = controllers })
  with_controllers (err x, s) = err x

module _ ⦃d : Deps⦄ ⦃e : Env⦄ where
  abbrev pub start_with : Config → Option Devices → Result AppState
  start_with config none = err (library "insufficient capacity")
  start_with config (some devices) =
      with_controllers (new_controllers config.controllers (fresh_state config devices))

  -- the leaked `AppState` of `main`; a device's name that does not fit an identifier panics
  unfoldable pub start : Config → Result AppState
  start config = start_with config (load_devices config.devices)
