-- ===== src/Config.antt =====
-- The configuration: src/config.rs, with the records that the controllers, the scenes and the
-- automations declare for it. Durations are in nanoseconds and addresses are numbers. The three
-- records of the client servers are alike.
pub mod Load
use devicectrl_server.Prelude.{ℕ, String, Option, List, HashMap}
use devicectrl_server.Deps.{Deps, Bytes}
use devicectrl_server.Common.{DeviceType, UpdateRequest}

pub record KryptonControllerConfig : Type 0 where
  pub cert_bytes : Bytes

pub record KryptonControllerGlobalConfig : Type 0 where
  pub listen_on : ℕ
  pub cert_bytes : Bytes
  pub key_bytes : Bytes

pub record TplinkControllerConfig : Type 0 where
  pub address : ℕ

pub record TplinkControllerGlobalConfig : Type 0 where
  pub response_timeout : ℕ

pub record GoveeControllerConfig : Type 0 where
  pub address : ℕ

pub record GoveeControllerGlobalConfig : Type 0 where
  pub update_query_delay : ℕ

pub record DependencyRelationship : Type 0 where
  pub dependent_id : ℕ
  pub dependency_id : ℕ

pub record TcpServerConfig : Type 0 where
  pub listen_on : ℕ
  pub cert_bytes : Bytes
  pub key_bytes : Bytes
  pub client_ca_bytes : Bytes

pub record HttpServerConfig : Type 0 where
  pub listen_on : ℕ
  pub cert_bytes : Bytes
  pub key_bytes : Bytes
  pub client_ca_bytes : Bytes

pub record WebsocketServerConfig : Type 0 where
  pub listen_on : ℕ
  pub cert_bytes : Bytes
  pub key_bytes : Bytes
  pub client_ca_bytes : Bytes

pub record ServersConfig : Type 0 where
  pub tcp : Option TcpServerConfig
  pub http : Option HttpServerConfig
  pub websocket : Option WebsocketServerConfig

pub record SunsetDeviceConfig : Type 0 where
  pub device_id : ℕ
  -- `color_temp_range`
  pub first : ℕ
  pub last : ℕ
  pub total_duration_secs : ℕ

abbrev pub DependencyAutomationConfig : Type 0
DependencyAutomationConfig = List DependencyRelationship

module _ ⦃d : Deps⦄ where
  open d use {VerifyingKey, SigningKey, Coordinate}

  pub record SimpleControllerConfig : Type 0 where
    pub public_key : VerifyingKey

  pub record SimpleControllerGlobalConfig : Type 0 where
    pub server_private_key : SigningKey
    pub listen_on : ℕ

  pub data ControllerConfig : Type 0 where
    simple : SimpleControllerConfig → ControllerConfig
    krypton : KryptonControllerConfig → ControllerConfig
    tplink : TplinkControllerConfig → ControllerConfig
    govee : GoveeControllerConfig → ControllerConfig

  pub record ControllersConfig : Type 0 where
    pub simple : Option SimpleControllerGlobalConfig
    pub krypton : Option KryptonControllerGlobalConfig
    pub tplink : Option TplinkControllerGlobalConfig
    pub govee : Option GoveeControllerGlobalConfig

  pub record DeviceConfig : Type 0 where
    pub device_type : DeviceType
    pub controller : ControllerConfig

  abbrev pub DevicesConfig : Type 0
  DevicesConfig = List (String × DeviceConfig)

  abbrev pub ScenesConfig : Type 0
  ScenesConfig = HashMap (List UpdateRequest)

  pub record SunsetLightTempAutomationConfig : Type 0 where
    pub coords : Coordinate × Coordinate
    pub devices : List SunsetDeviceConfig

  pub record AutomationsConfig : Type 0 where
    pub sunset_light_temp : Option SunsetLightTempAutomationConfig
    pub dependencies : Option DependencyAutomationConfig

  pub record Config : Type 0 where
    pub servers : ServersConfig
    pub devices : DevicesConfig
    pub controllers : ControllersConfig
    pub automations : AutomationsConfig
    pub scenes : ScenesConfig
