-- ===== src/System/Threads/Reporting.antt =====
-- A report of a device on its way, in src/devices/dispatch.rs: how the registry and the hooks stand
-- between its turns.
pub mod Turn
use devicectrl_server.Prelude.{
  ℕ, Bool, true, false, ◌≡◌, ◌≢◌, refl, ◌∙◌, ap, sym, String, Option, none, some, Option-cases, inl,
  inr, List, ◌∷◌, modify, Result, ok, err, message, get, get-modify, arith, with_context, Error,
}
use mathlib.Core.Option
use devicectrl_server.Deps.{Deps}
use devicectrl_server.Common.{UpdateNotification}
use devicectrl_server.Devices.{Device}
use devicectrl_server.Devices.Registry.{IsKeyed, IsKeyed-modify}
use devicectrl_server.App.{
  Env, AppState, Hook, HooksAreOpen, device_state_update, find_device, ◌>>=◌,
}
use devicectrl_server.App.Hooks.{hooks_sent}
use devicectrl_server.Dispatch.Notification.{set_state, write_state}
use devicectrl_server.Dispatch.Tasks.Notify.{write_new_state, tell, notification_task}
use devicectrl_server.Dispatch.Tasks.Overtaken.{write_new_state_known, tell_open}
use devicectrl_server.System.History.{latest, informed, IsInformedOf}
use devicectrl_server.System.Threads.{go_on, report_task}
use devicectrl_server.System.Threads.Informed.{SameOf, SameOf-refl, IsInformedOf-SameOf}
use devicectrl_server.Tasks.{Task, done, turn, await, finally, resume}
use devicectrl_server.Tasks.Nested.{task_within}

module _ ⦃d : Deps⦄ ⦃e : Env⦄ where
  -- what is left of a report once it has written
  abbrev pub telling_task : (m : String) → UpdateNotification → Task
  telling_task m n = task_within m (finally (tell n))

  -- How the report of a device stands: over, about to write or about to tell. In between, the
  -- registry is ahead of the hooks by that report.
  pub data Standing (start : AppState) (id : ℕ) (task : Task) (s : AppState) : Type 0 where
    over :
        (r : Result (Unit {0})) → task ≡ done r → IsInformedOf id start s → Standing start id task s
    writing :
        (m : String) (n : UpdateNotification)
        → n.device_id ≡ id
        → task ≡ report_task m n
        → IsInformedOf id start s
        → Standing start id task s
    telling :
        (m : String) (n : UpdateNotification)
        → n.device_id ≡ id
        → task ≡ telling_task m n
        → get id s.devices ≡ Option.map (set_state n) (get id start.devices)
        → Standing start id task s

  pub Standing-SameOf :
      (start : AppState) (id : ℕ) (task : Task) (s t : AppState)
      → SameOf id s t
      → Standing start id task s
      → Standing start id task t
  Standing-SameOf start id task s t same (over r shape before) =
      over r shape (IsInformedOf-SameOf id start s t same before)
  Standing-SameOf start id task s t same (writing m n named shape before) =
      writing m n named shape (IsInformedOf-SameOf id start s t same before)
  Standing-SameOf start id task s t same (telling m n named shape before) =
      telling m n named shape (same.device ∙ before)

  -- `t` differs from `s` in what concerns the device only
  pub record Concerns (id : ℕ) (s t : AppState) : Type 0 where
    pub config : t.config ≡ s.config
    pub controllers : t.controllers ≡ s.controllers
    pub keyed : IsKeyed s.devices → IsKeyed t.devices
    pub others : (i : ℕ) → id ≢ i → SameOf i s t

  pub Concerns-refl : (id : ℕ) (s : AppState) → Concerns id s s
  Concerns-refl id s = record {
    config = refl;
    controllers = refl;
    keyed = λ h. h;
    others = λ i other. SameOf-refl i s;
  }

  pub write_state-Concerns :
      (n : UpdateNotification) (s : AppState) → Concerns n.device_id s (write_state n s).1
  unfolding write_state
  write_state-Concerns n s = record {
    config = refl;
    controllers = refl;
    keyed = IsKeyed-modify n.device_id (set_state n) s.devices (λ device. refl);
    others = λ i other. record {
      device = ground (arith, get-modify n.device_id i (set_state n) s.devices);
      reported = λ initial. refl;
    };
  }

  pub tell-Concerns :
      (n : UpdateNotification) (s : AppState) → HooksAreOpen e → Concerns n.device_id s (tell n s).1
  tell-Concerns n s open_hooks = rw (tell_open n s open_hooks) (record {
    config = refl;
    controllers = refl;
    keyed = λ h. h;
    others = λ i other. record { device = refl; reported = λ initial. ground arith };
  })

  pub write_new_state_unknown :
      (n : UpdateNotification) (s : AppState)
      → get n.device_id s.devices ≡ none
      → write_new_state n s ≡ (err (message "Could not find device id!"), s)
  unfolding write_new_state find_device ◌>>=◌
  write_new_state_unknown n s unknown = rw unknown refl

  pub write_done :
      (m : String) (n : UpdateNotification) (s t : AppState)
      → write_new_state n s ≡ (ok tt, t)
      → go_on (report_task m n) s ≡ (telling_task m n, t)
  unfolding notification_task await task_within
  write_done m n s t h = ap (λ p. (task_within m (resume p.0 (λ _. finally (tell n))), p.1)) h

  pub tell_done :
      (m : String) (n : UpdateNotification) (s t : AppState)
      → tell n s ≡ (ok tt, t)
      → go_on (telling_task m n) s ≡ (done (ok tt), t)
  unfolding finally await task_within
  tell_done m n s t h = ap (λ p. (task_within m (resume p.0 (λ _. done (ok tt))), p.1)) h

  is_done : Task → Bool
  is_done (done r) = true
  is_done (turn f k) = false

  -- where no report is under way, the registry says what the hooks say
  pub over_inv :
      (start : AppState) (id : ℕ) (task : Task) (s : AppState) {r : Result (Unit {0})}
      → task ≡ done r
      → Standing start id task s
      → IsInformedOf id start s
  unfolding is_done notification_task finally await task_within
  over_inv start id task s ended (over r shape before) = before
  over_inv start id task s ended (writing m n named shape before) =
      let never : false ≡ true = sym (ap is_done shape) ∙ ap is_done ended in cc
  over_inv start id task s ended (telling m n named shape before) =
      let never : false ≡ true = sym (ap is_done shape) ∙ ap is_done ended in cc
