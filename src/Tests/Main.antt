-- ===== src/Tests/Main.antt =====
-- A server at work, from its configuration on.
use devicectrl_server.Prelude.{◌≡◌, refl, [], ◌∷◌, ok}
use devicectrl_server.Common.{ServerBoundSimpleMessage}
use devicectrl_server.Devices.{load_devices}
use devicectrl_server.App.{AppState, bind_udp, tplink_shared, perform, pure, ◌>>=◌}
use devicectrl_server.Clients.Tcp as Tcp
use devicectrl_server.Controllers.New.{new_tplink, new_if, new_controllers}
use devicectrl_server.Controllers.Reports.{simple_message, tplink_datagram}
use devicectrl_server.Dispatch.Queries.{query_all_device_states}
use devicectrl_server.Main as Main
use devicectrl_server.Main.Serves.{IsServing, start-IsServing}
use devicectrl_server.System.{Reach, here, later, tcp_turn, device_event, queries}
use devicectrl_server.Simple.Messages.{handle_message}
use devicectrl_server.Tplink.Listener.{handle_datagram}
use devicectrl_server.Tests.Instance.{plain, calm, in_turn}
use devicectrl_server.Tests.Connections.{socket_codec, http_codec}
use devicectrl_server.Tests.Krypton.{krypton_codec}
use devicectrl_server.Tests.Registry.{start, plug_on}

-- one socket was bound
abbrev pub begun : AppState
begun = record start { clock = 1; trace = bind_udp tplink_shared ∷ [] }

pub begins : Main.start start.config ≡ ok begun
unfolding Main.start load_devices new_controllers new_if new_tplink perform pure ◌>>=◌
begins = refl

-- the devices are queried, the plug reports that it is on, and a client turns it on again
abbrev asked : AppState
asked = (query_all_device_states begun).1

abbrev reported : AppState
reported = (handle_datagram 160 (0xaa ∷ 0xab ∷ []) asked).1

abbrev acted : AppState
acted = (Tcp.take_turn (Tcp.received (1 ∷ 2 ∷ [])) reported).1

abbrev ended : AppState
ended = (handle_message (ServerBoundSimpleMessage.update_notification plug_on) 2 acted).1

reached : Reach begun ended
reached =
    later
      (later (later (later here queries) (device_event (tplink_datagram 160 (0xaa ∷ 0xab ∷ []))))
        (tcp_turn (Tcp.received (1 ∷ 2 ∷ []))))
      (device_event (simple_message (ServerBoundSimpleMessage.update_notification plug_on) 2))

start-IsServing_example : IsServing start.config ended
start-IsServing_example = start-IsServing start.config begins (λ t hook. refl) reached
