-- ===== src/App/Scope.antt =====
-- Changes of the state that concern one device only.
use devicectrl_server.Prelude.{ℕ, ◌≡◌, ◌≢◌, refl, ◌∙◌, arith, get, get-modify}
use devicectrl_server.Deps.{Deps}
use devicectrl_server.Common.{UpdateNotification}
use devicectrl_server.App.{Env, AppState, perform, find_device, ◌>>=◌}
use devicectrl_server.Dispatch.Notification.{set_state, write_state, process_update_notification}

module _ ⦃d : Deps⦄ where
  -- `t` is `s` but for the clock, the trace and the registry's entry for `id`
  pub record OnlyDevice (id : ℕ) (s t : AppState) : Type 0 where
    pub config : t.config ≡ s.config
    pub controllers : t.controllers ≡ s.controllers
    pub others : (i : ℕ) → id ≢ i → get i t.devices ≡ get i s.devices

  pub OnlyDevice-refl : (id : ℕ) (s : AppState) → OnlyDevice id s s
  OnlyDevice-refl id s = record { config = refl; controllers = refl; others = λ i ne. refl }

  pub OnlyDevice-at : {i j : ℕ} {s t : AppState} → i ≡ j → OnlyDevice i s t → OnlyDevice j s t
  OnlyDevice-at same h = rw (← same) h

  pub OnlyDevice-trans :
      {id : ℕ} {s t u : AppState} → OnlyDevice id s t → OnlyDevice id t u → OnlyDevice id s u
  OnlyDevice-trans p q = record {
    config = q.config ∙ p.config;
    controllers = q.controllers ∙ p.controllers;
    others = λ i ne. q.others i ne ∙ p.others i ne;
  }

  -- a notification for a device, however it ends
  pub process_update_notification-OnlyDevice :
      ⦃e : Env⦄ (n : UpdateNotification) (s : AppState)
      → OnlyDevice n.device_id s (process_update_notification n s).1
  unfolding process_update_notification write_state find_device perform ◌>>=◌
  process_update_notification-OnlyDevice n s = record {
    config = ground arith;
    controllers = ground arith;
    others = λ i ne. ground (arith, get-modify n.device_id i (set_state n) s.devices);
  }
