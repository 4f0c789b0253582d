-- ===== src/System/Threads/Reporting/Turn.antt =====
-- One turn of a report of a device, in src/devices/dispatch.rs: how the report stands after it, and
-- what it leaves of the other devices.
use devicectrl_server.Prelude.{
  ℕ, ◌≡◌, refl, ◌∙◌, ap, String, Option, none, some, Option-cases, inl, inr, List, ◌∷◌, modify, ok,
  err, get, get-modify, arith, with_context, Error,
}
use mathlib.Core.Option
use devicectrl_server.Deps.{Deps}
use devicectrl_server.Common.{UpdateNotification}
use devicectrl_server.Devices.{Device}
use devicectrl_server.App.{Env, AppState, Hook, HooksAreOpen, device_state_update}
use devicectrl_server.App.Hooks.{hooks_sent}
use devicectrl_server.Dispatch.Notification.{set_state, write_state}
use devicectrl_server.Dispatch.Tasks.Notify.{write_new_state, tell, notification_task}
use devicectrl_server.Dispatch.Tasks.Overtaken.{write_new_state_known, tell_open}
use devicectrl_server.System.History.{latest, informed, IsInformedOf}
use devicectrl_server.System.Threads.{go_on, report_task}
use devicectrl_server.Tasks.{Task, done, await, finally, resume}
use devicectrl_server.Tasks.Nested.{task_within}
use devicectrl_server.System.Threads.Reporting.{
  telling_task, Standing, over, writing, telling, Concerns, Concerns-refl, write_state-Concerns,
  tell-Concerns, write_new_state_unknown, write_done, tell_done,
}

module _ ⦃d : Deps⦄ ⦃e : Env⦄ where
  -- after a turn of its report, for the device that the report is of
  abbrev pub AfterTurn : AppState → ℕ → Task → AppState → Type 0
  AfterTurn start id task s =
      Standing start id (go_on task s).0 (go_on task s).1 × Concerns id s (go_on task s).1

  turn_then :
      (start : AppState) (id : ℕ) (task next : Task) (s t : AppState)
      → go_on task s ≡ (next, t)
      → Standing start id next t
      → Concerns id s t
      → AfterTurn start id task s
  turn_then start id task next s t went stands concerns = rw went (stands, concerns)

  write_refused :
      (m : String) (n : UpdateNotification) (s t : AppState) {x : Error}
      → write_new_state n s ≡ (err x, t)
      → go_on (report_task m n) s ≡ (done (with_context m (err x)), t)
  unfolding notification_task await task_within
  write_refused m n s t h = ap (λ p. (task_within m (resume p.0 (λ _. finally (tell n))), p.1)) h

  set_over :
      (n : UpdateNotification) (id : ℕ) (hooks : List Hook) (found : Option Device)
      → Option.map (set_state n) (Option.map (informed id hooks) found)
        ≡ Option.map (set_state n) found
  set_over n id hooks none = refl
  set_over n id hooks (some device) = refl

  set_told :
      (n : UpdateNotification) (hooks : List Hook) (found : Option Device)
      → Option.map (set_state n) found
        ≡ Option.map (informed n.device_id (device_state_update n ∷ hooks)) found
  set_told n hooks none = refl
  set_told n hooks (some device) =
      let reported : latest n.device_id (device_state_update n ∷ hooks) device.state ≡ n.new_state =
        ground arith in
      rw reported refl

  written_device :
      (start : AppState) (n : UpdateNotification) (s : AppState)
      → IsInformedOf n.device_id start s
      → get n.device_id (write_state n s).1.devices
        ≡ Option.map (set_state n) (get n.device_id start.devices)
  unfolding write_state
  written_device start n s before =
      let changed : get n.device_id (modify n.device_id (set_state n) s.devices)
          ≡ Option.map (set_state n) (get n.device_id s.devices) =
        ground (arith, get-modify n.device_id n.device_id (set_state n) s.devices) in
      changed
      ∙ ap (Option.map (set_state n)) before
      ∙ set_over n n.device_id (hooks_sent s.trace) (get n.device_id start.devices)

  after_write :
      (start : AppState) (m : String) (n : UpdateNotification) (s : AppState)
      → IsInformedOf n.device_id start s
      → AfterTurn start n.device_id (report_task m n) s
  unfolding write_state
  after_write start m n s before = elim (Option-cases (get n.device_id s.devices)) [
    | inl unknown ↦
        let refused = write_refused m n s s (write_new_state_unknown n s unknown) in
        turn_then start n.device_id (report_task m n) _ s s refused (over _ refl before)
          (Concerns-refl n.device_id s)
    | inr (device, known) ↦
        let t = (write_state n s).1 in
        let wrote = write_done m n s t (write_new_state_known n s known) in
        turn_then start n.device_id (report_task m n) _ s t wrote
          (telling m n refl refl (written_device start n s before)) (write_state-Concerns n s)
  ]

  after_tell :
      (start : AppState) (m : String) (n : UpdateNotification) (s : AppState)
      → HooksAreOpen e
      → get n.device_id s.devices ≡ Option.map (set_state n) (get n.device_id start.devices)
      → AfterTurn start n.device_id (telling_task m n) s
  after_tell start m n s open_hooks before =
      let told = tell_open n s open_hooks in
      let caught_up = before ∙ set_told n (hooks_sent s.trace) (get n.device_id start.devices) in
      turn_then start n.device_id (telling_task m n) _ s _ (tell_done m n s _ told)
        (over (ok tt) refl caught_up) (rw told at (tell-Concerns n s open_hooks))

  -- A turn of a device's report, however the report stands.
  pub after_turn :
      (start : AppState) (id : ℕ) (task : Task) (s : AppState)
      → HooksAreOpen e
      → Standing start id task s
      → AfterTurn start id task s
  after_turn start id task s open_hooks (over r shape before) =
      rw shape (over r refl before, Concerns-refl id s)
  after_turn start id task s open_hooks (writing m n named shape before) =
      rw (shape, ← named) (after_write start m n s (rw (← named) at before))
  after_turn start id task s open_hooks (telling m n named shape before) =
      rw (shape, ← named) (after_tell start m n s open_hooks (rw (← named) at before))
