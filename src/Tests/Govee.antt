-- ===== src/Tests/Govee.antt =====
-- A light of the Govee controller at concrete inputs.
use devicectrl_server.Prelude.{◌≡◌, refl, ok, ◌>>=◌ as ◌>>?◌}
use devicectrl_server.Common.{on, AttributeUpdate, UpdateRequest}
use devicectrl_server.Config.{GoveeControllerConfig}
use devicectrl_server.App.{GoveeController, perform, sleep_for, ◌>>=◌}
use devicectrl_server.Govee.Payload.{build_update_payload, build_query_payload}
use devicectrl_server.Govee.Commands.{send_command, send_update}
use devicectrl_server.Govee.Update.{IsQueried, send_update-IsQueried}
use devicectrl_server.Tests.Instance.{plain, calm}
use devicectrl_server.Tests.Registry.{lamp, start}

abbrev controller : GoveeController
controller = record { global_config = record { update_query_delay = 5 } }

abbrev config : GoveeControllerConfig
config = record { address = 150 }

abbrev lamp_on : UpdateRequest
lamp_on = record { device_id = 1; update = AttributeUpdate.power on }

turned_on_lamp : (send_update controller config lamp lamp_on start).0 ≡ ok tt
unfolding send_update send_command build_update_payload build_query_payload perform sleep_for ◌>>=◌
    ◌>>?◌
turned_on_lamp = refl

send_update-IsQueried_example :
    IsQueried controller config lamp lamp_on start.trace
      (send_update controller config lamp lamp_on start).1.trace
send_update-IsQueried_example =
    send_update-IsQueried controller config lamp lamp_on start
      (send_update controller config lamp lamp_on start).1
      (λ i. (turned_on_lamp i, (send_update controller config lamp lamp_on start).1))
