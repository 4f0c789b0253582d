-- ===== src/Devices.antt =====
-- src/devices/mod.rs: the registry of devices and how it is filled from the configuration.
pub mod Registry
use devicectrl_server.Prelude.{ℕ, String, Option, none, some, List, [], ◌∷◌, ◌++◌, HashMap, insert}
use devicectrl_server.Deps.{Deps}
use devicectrl_server.Common.{DeviceState, DeviceType}
use devicectrl_server.Config.{ControllerConfig, DeviceConfig, DevicesConfig}

module _ ⦃d : Deps⦄ where
  pub record Device : Type 0 where
    pub id : ℕ
    pub device_type : DeviceType
    pub state : DeviceState
    pub controller : ControllerConfig

  pub record DeviceDescriptor : Type 0 where
    pub device_id : ℕ
    pub device_type : DeviceType

  -- `Device::descriptor`
  unfoldable pub descriptor : Device → DeviceDescriptor
  descriptor device = record { device_id = device.id; device_type = device.device_type }

  abbrev pub Devices : Type 0
  Devices = HashMap Device

  -- the closure's tuple for one entry of the configuration
  unfoldable pub new_device : ℕ → DeviceConfig → Device
  new_device id config = record {
    id = id;
    device_type = config.device_type;
    state = DeviceState.unknown;
    controller = config.controller;
  }

  -- The pairs are collected in the order of the configuration map, so of two keys for one
  -- identifier the later stays. `none` is the panic of `push_str` on a key that does not fit.
  collect : Devices → DevicesConfig → Option Devices
  unfolding new_device
  collect devices [] = some devices
  collect devices ((config_id, config) ∷ rest) = elim (d.device_id_of config_id) [
    | none ↦ none
    | some id ↦ collect (insert id (new_device id config) devices) rest
  ]

  unfoldable pub load_devices : DevicesConfig → Option Devices
  unfolding collect
  load_devices = collect []
