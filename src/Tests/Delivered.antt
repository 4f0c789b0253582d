-- ===== src/Tests/Delivered.antt =====
-- A report that comes through while a client is served.
use devicectrl_server.Prelude.{◌≡◌, refl, some, ◌∷◌, ok, get}
use devicectrl_server.App.{device_state_update, send_hook}
use devicectrl_server.Controllers.Reports.{context_of}
use devicectrl_server.Dispatch.Notification.{set_state}
use devicectrl_server.System.Threads.{Pool, Reach, here, later, spawn, hear, run}
use devicectrl_server.System.Threads.Delivered.{turned, nothing, other, report-delivered}
use devicectrl_server.Tasks.{done}
use devicectrl_server.Tests.Broadcast.{keeps_16}
use devicectrl_server.Tests.Connections.{socket_codec, http_codec}
use devicectrl_server.Tests.Evening.{northern}
use devicectrl_server.Tests.Instance.{plain, calm, in_turn}
use devicectrl_server.Tests.Krypton.{krypton_codec}
use devicectrl_server.Tests.Main.{begun}
use devicectrl_server.Tests.Registry.{plug, plug_on}
use devicectrl_server.Tests.Threads.{client, datagram, plug_reports, heard, ran}

heard_there : Reach begun heard
heard_there = later (later here (spawn client)) (hear datagram plug_reports refl)

abbrev told : Pool
told = ran (turned 2 (ran heard))

report-delivered_example :
    ((turned 2 told).reports 2 ≡ done (ok tt))
    × (get 2 (turned 2 told).state.devices ≡ some (set_state plug_on plug))
    × ((turned 2 told).state.trace ≡ send_hook (device_state_update plug_on) ∷ told.state.trace)
report-delivered_example =
    report-delivered (context_of datagram) plug_on (λ t hook. refl) (refl, refl, (refl, refl, tt))
      refl heard_there refl refl (other nothing (run 0) tt) (other nothing (run 0) tt)
