-- ===== src/Dispatch/Notification.antt =====
-- `process_update_notification` of src/devices/dispatch.rs. The write lock is held for the lookup
-- and the write, which are one step here.
use devicectrl_server.Prelude.{ok, modify}
use devicectrl_server.Deps.{Deps}
use devicectrl_server.Common.{UpdateNotification}
use devicectrl_server.App.{
  Env, Action, device_state_update, send_hook, perform, within, find_device, ◌>>◌,
}
use devicectrl_server.Devices.{Device}

module _ ⦃d : Deps⦄ where
  abbrev pub set_state : UpdateNotification → Device → Device
  set_state update device = record device { state = update.new_state }

  unfoldable pub write_state : UpdateNotification → Action (Unit {0})
  write_state update s =
      (ok tt, record s { devices = modify update.device_id (set_state update) s.devices })

module _ ⦃d : Deps⦄ ⦃e : Env⦄ where
  unfoldable pub process_update_notification : UpdateNotification → Action (Unit {0})
  process_update_notification update = do
    find_device update.device_id "Could not find device id!"
    write_state update
    within "failed to send update notification hook"
        (perform (send_hook (device_state_update update)))
