-- ===== src/Dispatch/Tasks/Turns.antt =====
-- The turns of a request: how many there are, and what they do.
use devicectrl_server.Prelude.{
  ℕ, ◌≡◌, refl, ◌⊎◌, inl, inr, err, Error, [], ◌∷◌, get, message, context, Option-cases,
  Result-cases,
}
use devicectrl_server.Deps.{Deps}
use devicectrl_server.Common.{UpdateRequest}
use devicectrl_server.Config.{ControllerConfig, TplinkControllerConfig, GoveeControllerConfig}
use devicectrl_server.Devices.{Device}
use devicectrl_server.App.{
  Env, AppState, TplinkController, GoveeController, device_update_dispatch, find_device, perform,
  send_hook, ◌>>=◌,
}
use devicectrl_server.App.Hooks.{hooks_sent}
use devicectrl_server.App.Emits.{is_command, is_internal, Emits, is_command-Implies}
use devicectrl_server.App.Emits.Rules.{
  Emits-lift, Emits-perform, Emits-sleep_for, Emits-bind, Emits-within, Emits-find_device,
  Emits-pure,
}
use devicectrl_server.Controllers.Emits.{
  Emits-simple_update, Emits-krypton_update, Emits-govee_command, Emits-tplink_command,
  Emits-tplink_query, Emits-tplink_response, Emits-confirm, Emits-enabled, Emits-query_by,
}
use devicectrl_server.Tasks.Within.{Within, Within-call, Within-await, Within-finally}
use devicectrl_server.Tasks.Keeps.{
  TurnsEmit, TurnsEmit-call, TurnsEmit-await, TurnsEmit-finally, TurnsEmit-wider,
}
use devicectrl_server.Tasks.Owes.{Owes, Owes-call}
use devicectrl_server.Dispatch.Tasks.{
  tplink_task, govee_task, update_task, announce, request_task, query_task,
}

-- the turns that a request takes at most
abbrev pub request_turns : ℕ
request_turns = 4

module _ ⦃d : Deps⦄ ⦃e : Env⦄ where
  tplink_task-Within :
      (controller : TplinkController) (config : TplinkControllerConfig) (device : Device)
      (request : UpdateRequest)
      → Within (tplink_task controller config device request) 4
  unfolding tplink_task
  tplink_task-Within controller config device request = Within-call _ _ 3 λ _.
      Within-await _ _ 3 λ _. Within-await _ _ 2 λ _.
        Within-await _ _ 1 λ _. Within-call _ _ 0 λ _. Within-call _ _ 0 λ _. Within-finally _ 0

  update_task-Within :
      (config : ControllerConfig) (device : Device) (request : UpdateRequest)
      → Within (update_task config device request) 4
  unfolding update_task govee_task
  update_task-Within (ControllerConfig.simple config) device request =
      Within-call _ _ 3 λ _. Within-finally _ 3
  update_task-Within (ControllerConfig.krypton config) device request =
      Within-call _ _ 3 λ _. Within-finally _ 3
  update_task-Within (ControllerConfig.tplink config) device request =
      Within-call _ _ 3 λ controller. tplink_task-Within controller config device request
  update_task-Within (ControllerConfig.govee config) device request =
      Within-call _ _ 3 λ _.
        Within-call _ _ 3 λ _. Within-await _ _ 3 λ _. Within-await _ _ 2 λ _. Within-finally _ 1

  pub request_task-Within : (request : UpdateRequest) → Within (request_task request) request_turns
  unfolding request_task
  request_task-Within request =
      Within-call _ _ 3 λ device. update_task-Within device.controller device request

  tplink_task-TurnsEmit :
      (controller : TplinkController) (config : TplinkControllerConfig) (device : Device)
      (request : UpdateRequest)
      → TurnsEmit is_command (tplink_task controller config device request)
  unfolding tplink_task
  tplink_task-TurnsEmit controller config device request =
      TurnsEmit-call is_command _ _ (Emits-lift _) λ payload.
        TurnsEmit-await is_command _ _ (Emits-perform _ refl) λ _.
          TurnsEmit-await is_command _ _ (Emits-tplink_command _ config payload) λ _.
            TurnsEmit-await is_command _ _ (Emits-tplink_response _ _) λ _.
              TurnsEmit-call is_command _ _ (Emits-lift _) λ success.
                TurnsEmit-call is_command _ _ (Emits-confirm success)
                  λ _. TurnsEmit-finally is_command _ (Emits-tplink_query config)

  govee_task-TurnsEmit :
      (controller : GoveeController) (config : GoveeControllerConfig) (device : Device)
      (request : UpdateRequest)
      → TurnsEmit is_command (govee_task controller config device request)
  unfolding govee_task
  govee_task-TurnsEmit controller config device request =
      TurnsEmit-call is_command _ _ (Emits-lift _) λ payload.
        TurnsEmit-await is_command _ _ (Emits-govee_command config payload) λ _.
          TurnsEmit-await is_command _ _ (Emits-sleep_for _ refl)
            λ _. TurnsEmit-finally is_command _ (Emits-govee_command config _)

  pub update_task-TurnsEmit :
      (config : ControllerConfig) (device : Device) (request : UpdateRequest)
      → TurnsEmit is_command (update_task config device request)
  unfolding update_task
  update_task-TurnsEmit (ControllerConfig.simple config) device request =
      TurnsEmit-call is_command _ _ (Emits-enabled _ _)
        λ _. TurnsEmit-finally is_command _ (Emits-simple_update request)
  update_task-TurnsEmit (ControllerConfig.krypton config) device request =
      TurnsEmit-call is_command _ _ (Emits-enabled _ _)
        λ _. TurnsEmit-finally is_command _ (Emits-krypton_update request)
  update_task-TurnsEmit (ControllerConfig.tplink config) device request =
      TurnsEmit-call is_command _ _ (Emits-enabled _ _)
        λ controller. tplink_task-TurnsEmit controller config device request
  update_task-TurnsEmit (ControllerConfig.govee config) device request =
      TurnsEmit-call is_command _ _ (Emits-enabled _ _)
        λ controller. govee_task-TurnsEmit controller config device request

  announce-hooks :
      (request : UpdateRequest) (s : AppState)
      → ((x : Error) × ((announce request s).0 ≡ err x)
          × (hooks_sent (announce request s).1.trace ≡ hooks_sent s.trace))
        ⊎ (hooks_sent (announce request s).1.trace
            ≡ device_update_dispatch request ∷ hooks_sent s.trace)
  unfolding announce find_device perform ◌>>=◌
  announce-hooks request s = elim (Option-cases (get request.device_id s.devices)) [
    | inl unknown ↦ rw unknown (inl (message "Could not find device id!", refl, refl))
    | inr (device, known) ↦
        let hook = send_hook (device_update_dispatch request) in
        elim (Result-cases (e.attempt s.clock hook)) [
          | inl (_, sent) ↦ rw (known, sent) (inr refl)
          | inr (x, lost) ↦
              rw (known, lost) (inl (context "failed to send update request hook" x, refl, refl))
        ]
  ]

  -- A request announces itself, and nothing else, before it succeeds.
  pub request_task-Owes :
      (request : UpdateRequest) → Owes (request_task request) (device_update_dispatch request ∷ [])
  unfolding request_task
  request_task-Owes request =
      Owes-call (announce request) _ (device_update_dispatch request) (announce-hooks request)
        λ device. update_task-TurnsEmit device.controller device request

  announce-Emits : (request : UpdateRequest) → Emits is_internal (announce request)
  unfolding announce
  announce-Emits request =
      Emits-bind _ _ (Emits-find_device request.device_id _)
        λ device. Emits-bind _ _ (Emits-within _ _ (Emits-perform _ refl)) λ _. Emits-pure device

  pub request_task-TurnsEmit :
      (request : UpdateRequest) → TurnsEmit is_internal (request_task request)
  unfolding request_task
  request_task-TurnsEmit request =
      TurnsEmit-call is_internal (announce request) _ (announce-Emits request) λ device.
        TurnsEmit-wider is_command is_internal _ is_command-Implies
          (update_task-TurnsEmit device.controller device request)

  pub query_task-TurnsEmit : (device : Device) → TurnsEmit is_command (query_task device)
  unfolding query_task
  query_task-TurnsEmit device =
      TurnsEmit-finally is_command _ (Emits-query_by device.controller device)
