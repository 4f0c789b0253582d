-- ===== src/Tests/Registry.antt =====
-- The registry and the dispatch at concrete inputs.
use devicectrl_server.Prelude.{ℕ, ◌≡◌, refl, true, none, some, [], ◌∷◌, err, message, get}
use devicectrl_server.Common.{
  on, off, DeviceState, DeviceType, AttributeUpdate, UpdateRequest, UpdateNotification,
}
use devicectrl_server.Config.{ControllerConfig, DevicesConfig}
use devicectrl_server.Devices.{Device, Devices, load_devices}
use devicectrl_server.Devices.Registry.{IsKeyed, last_entry, device_of, load_devices_lem}
use devicectrl_server.App.{AppState}
use devicectrl_server.Dispatch.Notification.{process_update_notification}
use devicectrl_server.Dispatch.Request.{process_update_request}
use devicectrl_server.Dispatch.Laws.{
  announced, process_update_notification-IsKeyed, process_update_request_disabled,
}
use devicectrl_server.Tests.Instance.{plain, calm}

abbrev entries : DevicesConfig
entries =
    (
      "lamp",
      record {
        device_type = DeviceType.dimmable_light;
        controller = ControllerConfig.govee (record { address = 150 });
      },
    )
    ∷ (
      "plug",
      record {
        device_type = DeviceType.switch;
        controller = ControllerConfig.tplink (record { address = 160 });
      },
    )
    ∷ []

abbrev pub lamp : Device
lamp = record {
  id = 1;
  device_type = DeviceType.dimmable_light;
  state = DeviceState.unknown;
  controller = ControllerConfig.govee (record { address = 150 });
}

abbrev pub plug : Device
plug = record {
  id = 2;
  device_type = DeviceType.switch;
  state = DeviceState.unknown;
  controller = ControllerConfig.tplink (record { address = 160 });
}

abbrev pub house : Devices
house = (1, lamp) ∷ (2, plug) ∷ []

-- only TP-Link devices are enabled
abbrev pub start : AppState
start = record {
  config = record {
    servers = record { tcp = none; http = none; websocket = none };
    devices = entries;
    controllers = record {
      simple = none;
      krypton = none;
      tplink = some (record { response_timeout = 1 });
      govee = none;
    };
    automations = record { sunset_light_temp = none; dependencies = none };
    scenes = [];
  };
  devices = house;
  controllers = record {
    simple = none;
    krypton = none;
    tplink = some (record { global_config = record { response_timeout = 1 } });
    govee = none;
  };
  clock = 0;
  trace = [];
}

load_house : load_devices entries ≡ some house
unfolding load_devices
load_house = refl

load_devices_lem_example :
    IsKeyed house × ((id : ℕ) → get id house ≡ device_of id (last_entry id entries) none)
load_devices_lem_example = load_devices_lem entries load_house

abbrev pub plug_on : UpdateNotification
plug_on = record {
  device_id = 2;
  reachable = true;
  new_state = DeviceState.switch (record { power = on });
}

process_update_notification-IsKeyed_example :
    IsKeyed (process_update_notification plug_on start).1.devices
process_update_notification-IsKeyed_example =
    process_update_notification-IsKeyed plug_on start (refl, refl, (refl, refl, tt))

abbrev lamp_off : UpdateRequest
lamp_off = record { device_id = 1; update = AttributeUpdate.power off }

process_update_request_disabled_example :
    process_update_request lamp_off start
    ≡ (err (message "Govee controller is not enabled!"), announced lamp_off start)
process_update_request_disabled_example =
    process_update_request_disabled lamp_off start (λ t h. refl) refl refl
