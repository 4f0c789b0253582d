-- ===== src/Dispatch/Tasks/Notify.antt =====
-- `process_update_notification` of src/devices/dispatch.rs turn by turn: the registry is written
-- under its lock, which is released before the hook is sent.
use devicectrl_server.Prelude.{◌≡◌, ◌∙◌, arith}
use devicectrl_server.Deps.{Deps}
use devicectrl_server.Common.{UpdateNotification}
use devicectrl_server.App.{
  Env, AppState, Action, device_state_update, send_hook, perform, within, find_device, ◌>>=◌, ◌>>◌,
}
use devicectrl_server.Tasks.{Task, await, finally, run_alone, run_alone-await, run_alone-finally}
use devicectrl_server.Dispatch.Notification.{write_state, process_update_notification}

module _ ⦃d : Deps⦄ ⦃e : Env⦄ where
  -- the block that holds the write lock
  unfoldable pub write_new_state : UpdateNotification → Action (Unit {0})
  write_new_state update = do
    find_device update.device_id "Could not find device id!"
    write_state update

  unfoldable pub tell : UpdateNotification → Action (Unit {0})
  tell update =
      within "failed to send update notification hook"
        (perform (send_hook (device_state_update update)))

  unfoldable pub notification_task : UpdateNotification → Task
  notification_task update = await (write_new_state update) λ _. finally (tell update)

  write_then :
      (update : UpdateNotification) (s : AppState)
      → (write_new_state update >> tell update) s ≡ process_update_notification update s
  unfolding write_new_state tell process_update_notification find_device write_state ◌>>=◌
  write_then update s = ground arith

  -- A notification that runs by itself, turn by turn, does what `process_update_notification` does.
  pub notification_task_alone :
      (update : UpdateNotification) (s : AppState)
      → run_alone (notification_task update) s ≡ process_update_notification update s
  unfolding notification_task
  notification_task_alone update s =
      run_alone-await (write_new_state update) _ (λ _. tell update) s
        (λ _ t. run_alone-finally (tell update) t)
      ∙ write_then update s
