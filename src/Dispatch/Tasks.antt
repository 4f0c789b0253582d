-- ===== src/Dispatch/Tasks.antt =====
-- `process_update_request` of src/devices/dispatch.rs and the functions that it calls of
-- src/devices/controllers, turn by turn: one turn ends at each await, and what a function
-- computes between two awaits belongs to the turn that follows it.
pub mod Alone
pub mod Notify
pub mod Overtaken
pub mod Turns
use devicectrl_server.Prelude.{ok}
use devicectrl_server.Deps.{Deps}
use devicectrl_server.Common.{UpdateRequest}
use devicectrl_server.Config.{ControllerConfig, TplinkControllerConfig, GoveeControllerConfig}
use devicectrl_server.Devices.{Device}
use devicectrl_server.App.{
  Env, Action, AppState, TplinkController, GoveeController, tplink_update, bind_udp,
  device_update_dispatch, send_hook, perform, within, find_device, lift, sleep_for, pure, ◌>>=◌,
  ◌>>◌,
}
use devicectrl_server.Tasks.{Task, done, call, await, finally}
use devicectrl_server.Controllers.Dispatch.{enabled, query_by}
use devicectrl_server.Simple.Requests as Simple
use devicectrl_server.Krypton.Requests as Krypton
use devicectrl_server.Tplink.Commands as Tplink
use devicectrl_server.Tplink.Payload.{build_update_payload, is_response_success}
use devicectrl_server.Govee.Commands as Govee
use devicectrl_server.Govee.Payload as GoveePayload

module _ ⦃d : Deps⦄ ⦃e : Env⦄ where
  unfoldable pub tplink_task :
      TplinkController → TplinkControllerConfig → Device → UpdateRequest → Task
  tplink_task controller config device request =
      call (lift (build_update_payload request.update)) λ payload.
        await (perform (bind_udp tplink_update)) λ _.
          await (Tplink.send_command tplink_update config payload) λ _.
            await (Tplink.receive_response controller.global_config.response_timeout tplink_update)
              λ set_res.
                call (lift (is_response_success set_res device.device_type))
                  λ success. call (Tplink.confirm success) λ _. finally (Tplink.send_query config)

  unfoldable pub govee_task :
      GoveeController → GoveeControllerConfig → Device → UpdateRequest → Task
  govee_task controller config device request =
      call (lift (GoveePayload.build_update_payload device request.update)) λ payload.
        await (Govee.send_command config payload) λ _.
          await (sleep_for controller.global_config.update_query_delay)
            λ _. finally (Govee.send_command config GoveePayload.build_query_payload)

  unfoldable pub update_task : ControllerConfig → Device → UpdateRequest → Task
  unfolding tplink_task govee_task
  update_task (ControllerConfig.simple config) device request =
      call (enabled (λ c. c.simple) "Simple controller is not enabled!")
        λ _. finally (Simple.send_update request)
  update_task (ControllerConfig.krypton config) device request =
      call (enabled (λ c. c.krypton) "Krypton controller is not enabled!")
        λ _. finally (Krypton.send_update request)
  update_task (ControllerConfig.tplink config) device request =
      call (enabled (λ c. c.tplink) "Tplink controller is not enabled!")
        λ controller. tplink_task controller config device request
  update_task (ControllerConfig.govee config) device request =
      call (enabled (λ c. c.govee) "Govee controller is not enabled!")
        λ controller. govee_task controller config device request

  -- the look-up and the hook, which no await parts
  unfoldable pub announce : UpdateRequest → Action Device
  announce request = do
    device ← find_device request.device_id "Could not find device id!"
    within "failed to send update request hook"
        (perform (send_hook (device_update_dispatch request)))
    pure device

  unfoldable pub request_task : UpdateRequest → Task
  unfolding announce update_task
  request_task request =
      call (announce request) λ device. update_task device.controller device request

  -- a query that is sent by itself, with its errors logged
  unfoldable pub query_task : Device → Task
  query_task device = finally (query_by device.controller device)
