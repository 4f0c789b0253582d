-- ===== src/Dispatch/Request.antt =====
-- `process_update_request` of src/devices/dispatch.rs.

use devicectrl_server.Deps.{Deps}
use devicectrl_server.Common.{UpdateRequest}
use devicectrl_server.Controllers.Dispatch.{dispatch_update}
use devicectrl_server.App.{
  Env, Action, device_update_dispatch, send_hook, perform, within, find_device, ◌>>=◌, ◌>>◌,
}

module _ ⦃d : Deps⦄ ⦃e : Env⦄ where
  unfoldable pub process_update_request : UpdateRequest → Action (Unit {0})
  process_update_request request = do
    device ← find_device request.device_id "Could not find device id!"
    within "failed to send update request hook"
        (perform (send_hook (device_update_dispatch request)))
    dispatch_update device request
