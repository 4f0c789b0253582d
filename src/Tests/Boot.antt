-- ===== src/Tests/Boot.antt =====
-- A server from its file on, at concrete inputs, and whom it lets in.
use devicectrl_server.Prelude.{◌≡◌, refl, String, filter, some, none, List, [], ◌∷◌, ok, ◌>>=◌}
use devicectrl_server.Deps.{Bytes}
use devicectrl_server.Common.{DeviceState, DeviceType}
use devicectrl_server.Config.{Config, ControllerConfig, DeviceConfig}
use devicectrl_server.Config.Load.{Files, load_config}
use devicectrl_server.Devices.{load_devices}
use devicectrl_server.Devices.Registry.{last_entry}
use devicectrl_server.App.{AppState, listen_tcp, perform, pure, ◌>>=◌ as ◌>>=a◌}
use devicectrl_server.Controllers.Listen as Listen
use devicectrl_server.Controllers.New.{new_krypton, new_tplink, new_if, new_controllers}
use devicectrl_server.Krypton.Certs.{device_certs, collect_certs}
use devicectrl_server.Krypton.Hello.{strip_prefix, device_id_in, greet}
use devicectrl_server.Krypton.Greeting.{IsTrusting}
use devicectrl_server.Krypton.Tls.{get_tls_config}
use devicectrl_server.Main as Main
use devicectrl_server.Main.Boot.{Spawned, listener, queries, spawn_all, boot}
use devicectrl_server.Main.Boot.Tasks.{is_configured, every_task, boot-tasks}
use devicectrl_server.Main.Tasks.{spawn_servers, spawn_automations}
use devicectrl_server.Main.Trust.{greet-configured}
use devicectrl_server.System.Threads.{Reach, here, later, spawn}
use devicectrl_server.System.Threads as Threads
use devicectrl_server.Tests.Broadcast.{keeps_16}
use devicectrl_server.Tests.Connections.{socket_codec, http_codec}
use devicectrl_server.Tests.Evening.{northern}
use devicectrl_server.Tests.Greeting.{trusting, global}
use devicectrl_server.Tests.Instance.{plain, calm, in_turn}
use devicectrl_server.Tests.Krypton.{krypton_codec}
use devicectrl_server.Tests.Main.{begun}
use devicectrl_server.Tests.Registry.{start}

instance abbrev files : Files
files = record {
  read = λ path. ok (7 ∷ []);
  config_from_slice = λ bytes. ok start.config;
  from_pkcs8_der = λ bytes. ok tt;
  from_public_key_der = λ bytes. ok tt;
}

abbrev at_work : AppState × List Spawned
at_work = (begun, listener Listen.tplink ∷ queries ∷ [])

booted : boot "config.json" ≡ ok at_work
unfolding boot load_config spawn_all Listen.start_listening spawn_servers spawn_automations
    Main.start load_devices new_controllers new_if new_tplink perform pure ◌>>=a◌ ◌>>=◌
booted = refl

boot-tasks_example :
    (config : Config) × (load_config "config.json" ≡ ok config)
    × (Main.start config ≡ ok begun)
    × ((listener Listen.tplink ∷ queries ∷ []) ≡ filter (is_configured config) every_task)
boot-tasks_example = boot-tasks "config.json" booted

-- a plug of the Krypton controller
abbrev config : Config
config = record start.config {
  devices =
      (
        "plug",
        record {
          device_type = DeviceType.switch;
          controller = ControllerConfig.krypton (record { cert_bytes = 2 ∷ [] });
        },
      )
      ∷ [];
  controllers = record { simple = none; krypton = some global; tplink = none; govee = none };
}

abbrev opened : AppState
opened = record {
  config = config;
  devices =
      (
        2,
        record {
          id = 2;
          device_type = DeviceType.switch;
          state = DeviceState.unknown;
          controller = ControllerConfig.krypton (record { cert_bytes = 2 ∷ [] });
        },
      )
      ∷ [];
  controllers = record {
    simple = none;
    krypton = some (record { global_config = global });
    tplink = none;
    govee = none;
  };
  clock = 1;
  trace = listen_tcp 8 ∷ [];
}

opens : Main.start config ≡ ok opened
unfolding Main.start load_devices new_controllers new_if new_krypton perform pure ◌>>=a◌
opens = refl

greeted : greet (device_certs opened.devices) global (some "krypton-deviceid=plug") ≡ ok (2, 2 ∷ [])
unfolding greet device_id_in get_tls_config device_certs collect_certs ◌>>=◌
greeted = refl

greet-configured_example :
    (name rest : String) × (entry : DeviceConfig) × (bytes : Bytes) × (some "krypton-deviceid=plug"
      ≡ some name)
    × (strip_prefix name "krypton-deviceid=" ≡ some rest)
    × (plain.device_id_of rest ≡ some 2)
    × (last_entry 2 config.devices ≡ some entry)
    × (entry.controller ≡ ControllerConfig.krypton (record { cert_bytes = bytes }))
    × IsTrusting bytes global (2 ∷ [])
greet-configured_example =
    greet-configured config global (some "krypton-deviceid=plug") opens (λ t hook. refl)
      (later here (spawn Threads.queries)) greeted
