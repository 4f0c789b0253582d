-- ===== src/Dispatch/Tasks/Alone.antt =====
-- Turn by turn, and with no other future in between, a request does what its function does.
use devicectrl_server.Prelude.{◌≡◌, arith, ◌∙◌}
use devicectrl_server.Deps.{Deps}
use devicectrl_server.Common.{UpdateRequest}
use devicectrl_server.Config.{ControllerConfig, TplinkControllerConfig, GoveeControllerConfig}
use devicectrl_server.Devices.{Device}
use devicectrl_server.App.{
  Env, AppState, Action, TplinkController, GoveeController, find_device, within, perform, send_hook,
  device_update_dispatch, ◌>>=◌,
}
use devicectrl_server.Tasks.{run_alone, run_alone-call, run_alone-await, run_alone-finally}
use devicectrl_server.Controllers.Dispatch.{update_by, dispatch_update}
use devicectrl_server.Dispatch.Request.{process_update_request}
use devicectrl_server.Dispatch.Tasks.{tplink_task, govee_task, update_task, announce, request_task}
use devicectrl_server.Tplink.Commands as Tplink
use devicectrl_server.Govee.Commands as Govee

module _ ⦃d : Deps⦄ ⦃e : Env⦄ where
  tplink_alone :
      (controller : TplinkController) (config : TplinkControllerConfig) (device : Device)
      (request : UpdateRequest) (s : AppState)
      → run_alone (tplink_task controller config device request) s
        ≡ Tplink.send_update controller config device request s
  unfolding tplink_task Tplink.send_update
  tplink_alone controller config device request s = run_alone-call _ _ _ s λ payload s1.
      run_alone-await _ _ _ s1 λ _ s2. run_alone-await _ _ _ s2 λ _ s3.
        run_alone-await _ _ _ s3 λ set_res s4. run_alone-call _ _ _ s4 λ success s5.
          run_alone-call _ _ _ s5 λ _ s6. run_alone-finally (Tplink.send_query config) s6

  govee_alone :
      (controller : GoveeController) (config : GoveeControllerConfig) (device : Device)
      (request : UpdateRequest) (s : AppState)
      → run_alone (govee_task controller config device request) s
        ≡ Govee.send_update controller config device request s
  unfolding govee_task Govee.send_update
  govee_alone controller config device request s = run_alone-call _ _ _ s λ payload s1.
      run_alone-await _ _ _ s1 λ _ s2. run_alone-await _ _ _ s2 λ _ s3. run_alone-finally _ s3

  update_alone :
      (config : ControllerConfig) (device : Device) (request : UpdateRequest) (s : AppState)
      → run_alone (update_task config device request) s ≡ update_by config device request s
  unfolding update_task update_by
  update_alone (ControllerConfig.simple config) device request s =
      run_alone-call _ _ _ s λ _ t. run_alone-finally _ t
  update_alone (ControllerConfig.krypton config) device request s =
      run_alone-call _ _ _ s λ _ t. run_alone-finally _ t
  update_alone (ControllerConfig.tplink config) device request s =
      run_alone-call _ _ _ s λ controller t. tplink_alone controller config device request t
  update_alone (ControllerConfig.govee config) device request s =
      run_alone-call _ _ _ s λ controller t. govee_alone controller config device request t

  announce_then :
      (request : UpdateRequest) (f : Device → Action (Unit {0})) (s : AppState)
      → (announce request >>= f) s
        ≡ (find_device request.device_id "Could not find device id!" >>= λ device.
              within "failed to send update request hook"
                (perform (send_hook (device_update_dispatch request)))
              >>= λ _. f device)
            s
  unfolding announce find_device ◌>>=◌
  announce_then request f s = ground arith

  -- A request that runs by itself, turn by turn, does what `process_update_request` does: the same
  -- result, the same effects, the same state.
  pub request_task_alone :
      (request : UpdateRequest) (s : AppState)
      → run_alone (request_task request) s ≡ process_update_request request s
  unfolding request_task process_update_request dispatch_update
  request_task_alone request s =
      run_alone-call (announce request) _ (λ device. update_by device.controller device request) s
        (λ device t. update_alone device.controller device request t)
      ∙ announce_then request (λ device. update_by device.controller device request) s
