-- ===== src/Dispatch/Tasks/Overtaken.antt =====
-- Two notifications for one device at once, in src/devices/dispatch.rs: what comes of them when the
-- one writes first and tells last.
use devicectrl_server.Prelude.{
  ℕ, ◌+◌, ◌≡◌, refl, ◌∙◌, some, List, [], ◌∷◌, ok, get, get-modify, arith, ap, sym,
}
use devicectrl_server.Deps.{Deps}
use devicectrl_server.Common.{UpdateNotification}
use devicectrl_server.Devices.{Device}
use devicectrl_server.App.{
  Env, AppState, HooksAreOpen, device_state_update, send_hook, perform, within, find_device, ◌>>=◌,
}
use devicectrl_server.App.Hooks.{hooks_sent}
use devicectrl_server.Tasks.{Task, await, finally}
use devicectrl_server.Tasks.Join.{poll}
use devicectrl_server.Dispatch.Notification.{set_state, write_state}
use devicectrl_server.Dispatch.Tasks.Notify.{write_new_state, tell, notification_task}

module _ ⦃d : Deps⦄ where
  -- the state once the futures at those indices, one after the other, have had a turn
  unfoldable pub turns_of : List ℕ → List Task → AppState → AppState
  turns_of [] tasks s = s
  turns_of (i ∷ order) tasks s = let (tasks', t) = poll i tasks s in turns_of order tasks' t

  turns_of_next :
      (i : ℕ) (order : List ℕ) (tasks : List Task) (s : AppState) {next : List Task × AppState}
      → poll i tasks s ≡ next
      → turns_of (i ∷ order) tasks s ≡ turns_of order next.0 next.1
  unfolding turns_of
  turns_of_next i order tasks s h = ap (λ next. turns_of order next.0 next.1) h

module _ ⦃d : Deps⦄ ⦃e : Env⦄ where
  pub write_new_state_known :
      (n : UpdateNotification) (s : AppState) {device : Device}
      → get n.device_id s.devices ≡ some device
      → write_new_state n s ≡ write_state n s
  unfolding write_new_state find_device write_state ◌>>=◌
  write_new_state_known n s known = rw known refl

  pub write_then_get :
      (n : UpdateNotification) (id : ℕ) (s : AppState) {device : Device}
      → n.device_id ≡ id
      → get id s.devices ≡ some device
      → get id (write_state n s).1.devices ≡ some (set_state n device)
  unfolding write_state
  write_then_get n id s same known =
      ground (arith, get-modify n.device_id id (set_state n) s.devices)

  pub tell_open :
      (n : UpdateNotification) (s : AppState)
      → HooksAreOpen e
      → tell n s ≡ (
        ok tt,
        record s { clock = s.clock + 1; trace = send_hook (device_state_update n) ∷ s.trace },
      )
  unfolding tell perform within
  tell_open n s open_hooks = rw (open_hooks s.clock (device_state_update n)) refl

  poll_written :
      (n : UpdateNotification) (rest : List Task) (s : AppState) {device : Device}
      → get n.device_id s.devices ≡ some device
      → poll 0 (notification_task n ∷ rest) s ≡ (finally (tell n) ∷ rest, (write_state n s).1)
  unfolding notification_task await write_state
  poll_written n rest s known =
      let wrote : write_new_state n s ≡ write_state n s = write_new_state_known n s known in
      rw wrote refl

  -- where the turns are: the first writes, the second writes, the second tells, the first tells
  overtaking :
      (n m : UpdateNotification) (s : AppState) {device : Device}
      → get n.device_id s.devices ≡ some device
      → m.device_id ≡ n.device_id
      → turns_of (0 ∷ 1 ∷ 1 ∷ 0 ∷ []) (notification_task n ∷ notification_task m ∷ []) s
        ≡ (tell n (tell m (write_state m (write_state n s).1).1).1).1
  unfolding turns_of finally await
  overtaking n m s {device} known same =
      let t = (write_state n s).1 in
      let first = poll_written n (notification_task m ∷ []) s known in
      let there : get m.device_id s.devices ≡ some device = rw same known in
      let kept = write_then_get n m.device_id s (sym same) there in
      let second = poll_written m [] t kept in
      turns_of_next 0 (1 ∷ 1 ∷ 0 ∷ []) (notification_task n ∷ notification_task m ∷ []) s first
      ∙ turns_of_next 1 (1 ∷ 0 ∷ []) (finally (tell n) ∷ notification_task m ∷ []) t
          (λ i. (finally (tell n) ∷ (second i).0, (second i).1))

  -- Of two notifications for one registered device, the first may write first and tell last, with
  -- the hooks open: then the registry has the state of the second, and the latest hook reports that
  -- of the first.
  pub overtaken :
      (n m : UpdateNotification) (s : AppState) {device : Device}
      → HooksAreOpen e
      → get n.device_id s.devices ≡ some device
      → m.device_id ≡ n.device_id
      → let t = turns_of (0 ∷ 1 ∷ 1 ∷ 0 ∷ []) (notification_task n ∷ notification_task m ∷ []) s in
        (get n.device_id t.devices ≡ some (set_state m device))
        × (hooks_sent t.trace ≡ device_state_update n ∷ device_state_update m ∷ hooks_sent s.trace)
  unfolding write_state
  overtaken n m s {device} open_hooks known same =
      let u = (write_state m (write_state n s).1).1 in
      let ends = overtaking n m s known same in
      let done_m = tell_open m u open_hooks in
      let done_n = tell_open n (tell m u).1 open_hooks in
      let kept = write_then_get n n.device_id s refl known in
      let there = write_then_get m n.device_id (write_state n s).1 same kept in
      rw (ends, done_n, done_m) (there, refl)
