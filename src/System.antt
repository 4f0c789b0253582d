-- ===== src/System.antt =====
-- The tasks of src/main.rs together: everything that happens to the shared state after the start,
-- one handler after the other.
pub mod Crowd
pub mod Quiet
pub mod History
pub mod Sound
pub mod Steps
pub mod Threads
use devicectrl_server.Prelude.{ℕ, Result}
use devicectrl_server.Deps.{Deps, Bytes}
use devicectrl_server.Config.{DependencyAutomationConfig}
use devicectrl_server.App.{Env, AppState, Hook}
use devicectrl_server.Automations.Dependencies.{on_event}
use devicectrl_server.Config.{SunsetDeviceConfig}
use devicectrl_server.Automations.Sunset.{ramp_step}
use devicectrl_server.Clients.Http.{handle_request}
use devicectrl_server.Clients.Messages.{SocketCodec, HttpCodec}
use devicectrl_server.Clients.Tcp as Tcp
use devicectrl_server.Clients.Websocket as Websocket
use devicectrl_server.Controllers.Reports.{DeviceEvent, handle}
use devicectrl_server.Dispatch.Queries.{query_all_device_states}
use devicectrl_server.Krypton.Codec.{KryptonCodec}
use devicectrl_server.Tasks.Join.{Scheduler}

module _ ⦃d : Deps⦄ ⦃e : Env⦄ ⦃c : Scheduler⦄ ⦃p : SocketCodec⦄ ⦃h : HttpCodec⦄
    ⦃k : KryptonCodec⦄ where
  -- what may happen next: a client's turn, a device's message, or a task of the server's own
  pub data Step (s : AppState) : AppState → Type 0 where
    tcp_turn : (turn : Tcp.Turn) → Step s (Tcp.take_turn turn s).1
    websocket_turn : (turn : Websocket.Turn) → Step s (Websocket.take_turn turn s).1
    http_request : (body : Result Bytes) → Step s (handle_request body s).1
    device_event : (event : DeviceEvent) → Step s (handle event s).1
    dependency_hook :
        (config : DependencyAutomationConfig) (hook : Hook) → Step s (on_event config hook s).1
    ramp : (config : SunsetDeviceConfig) (color_temp : ℕ) → Step s (ramp_step config color_temp s).1
    queries : Step s (query_all_device_states s).1

  -- the states that the server may come to from one
  pub data Reach (start : AppState) : AppState → Type 0 where
    here : Reach start start
    later : {s t : AppState} → Reach start s → Step s t → Reach start t
