-- ===== src/Dispatch/Laws.antt =====
-- What the two functions of src/devices/dispatch.rs do to the registry and to the trace.
use devicectrl_server.Prelude.{
  ℕ, ◌+◌, ◌≡◌, refl, ◌∙◌, String, Bool, true, false, Option, none, some, ◌∷◌, ◌==◌, if◌then◌else◌,
  ok, err, message, with_context, arith, get, get-modify,
}
use devicectrl_server.Deps.{Deps}
use devicectrl_server.Common.{UpdateRequest, UpdateNotification}
use devicectrl_server.Config.{ControllerConfig}
use devicectrl_server.Devices.{Device}
use devicectrl_server.Devices.Registry.{IsKeyed, IsKeyed-modify}
use devicectrl_server.App.{
  Env, AppState, Controllers, HooksAreOpen, send_hook, device_state_update, device_update_dispatch,
  perform, find_device, ◌>>=◌,
}
use devicectrl_server.App.Emits.{Emits, is_internal, is_command-Implies, Emits-wider}
use devicectrl_server.App.Emits.Rules.{Emits-bind, Emits-find_device, Emits-within, Emits-perform}
use devicectrl_server.Controllers.Dispatch.{enabled, update_by, dispatch_update}
use devicectrl_server.Controllers.Emits.{Emits-dispatch_update}
use devicectrl_server.Dispatch.Notification.{set_state, write_state, process_update_notification}
use devicectrl_server.Dispatch.Request.{process_update_request}

abbrev pub is_some {ℓ} : {A : Type ℓ} → Option A → Bool
is_some none = false
is_some (some a) = true

module _ ⦃d : Deps⦄ where
  -- the state once the hook for a request has been sent
  abbrev pub announced : UpdateRequest → AppState → AppState
  announced request s = record s {
    clock = s.clock + 1;
    trace = send_hook (device_update_dispatch request) ∷ s.trace;
  }

  abbrev pub is_enabled : ControllerConfig → Controllers → Bool
  is_enabled (ControllerConfig.simple config) c = is_some c.simple
  is_enabled (ControllerConfig.krypton config) c = is_some c.krypton
  is_enabled (ControllerConfig.tplink config) c = is_some c.tplink
  is_enabled (ControllerConfig.govee config) c = is_some c.govee

  abbrev pub not_enabled : ControllerConfig → String
  not_enabled (ControllerConfig.simple config) = "Simple controller is not enabled!"
  not_enabled (ControllerConfig.krypton config) = "Krypton controller is not enabled!"
  not_enabled (ControllerConfig.tplink config) = "Tplink controller is not enabled!"
  not_enabled (ControllerConfig.govee config) = "Govee controller is not enabled!"

module _ ⦃d : Deps⦄ ⦃e : Env⦄ where
  -- A notification for an unknown device is refused, and changes and announces nothing.
  pub process_update_notification_unknown :
      (update : UpdateNotification) (s : AppState)
      → get update.device_id s.devices ≡ none
      → process_update_notification update s ≡ (err (message "Could not find device id!"), s)
  unfolding process_update_notification find_device ◌>>=◌
  process_update_notification_unknown update s h = ground arith

  -- A notification for a known device gives that device the new state and leaves every other entry
  -- of the registry as it was, also where the hook cannot be sent; the result is that of the hook.
  pub process_update_notification_known :
      (update : UpdateNotification) (s : AppState) {device : Device}
      → get update.device_id s.devices ≡ some device
      → let (r, t) = process_update_notification update s in
        ((i : ℕ)
          → get i t.devices
            ≡ (if update.device_id == i then some (set_state update device) else get i s.devices))
        × (r
            ≡ with_context "failed to send update notification hook"
                (e.attempt s.clock (send_hook (device_state_update update))))
  unfolding process_update_notification find_device write_state perform ◌>>=◌
  process_update_notification_known update s h = (
    λ i. ground (arith, get-modify update.device_id i (set_state update) s.devices),
    ground arith,
  )

  pub process_update_notification_announced :
      (update : UpdateNotification) (s : AppState) {device : Device}
      → HooksAreOpen e
      → get update.device_id s.devices ≡ some device
      → let (r, t) = process_update_notification update s in
        (r ≡ ok tt) × (t.trace ≡ send_hook (device_state_update update) ∷ s.trace)
  unfolding process_update_notification find_device write_state perform ◌>>=◌
  process_update_notification_announced update s open_hooks h =
      ground (arith, open_hooks s.clock (device_state_update update))

  -- A notification, however it ends, keeps the registry well formed.
  pub process_update_notification-IsKeyed :
      (update : UpdateNotification) (s : AppState)
      → IsKeyed s.devices
      → IsKeyed (process_update_notification update s).1.devices
  unfolding process_update_notification find_device write_state perform ◌>>=◌
  process_update_notification-IsKeyed update s h =
      ground
        (arith, IsKeyed-modify update.device_id (set_state update) s.devices (λ device. refl) h)

  -- A request never changes the registry, the configuration or the controllers, whatever the
  -- device's controller and whether the request succeeds: it adds effects to the trace only, and none that
  -- reports the state of a device or is a frame to a client.
  pub Emits-process_update_request :
      (request : UpdateRequest) → Emits is_internal (process_update_request request)
  unfolding process_update_request
  Emits-process_update_request request =
      Emits-bind _ _ (Emits-find_device request.device_id _) λ device.
        Emits-bind _ _ (Emits-within _ _ (Emits-perform _ refl))
          λ _. Emits-wider _ is_command-Implies (Emits-dispatch_update device request)

  -- A request for an unknown device is refused with no effect at all.
  pub process_update_request_unknown :
      (request : UpdateRequest) (s : AppState)
      → get request.device_id s.devices ≡ none
      → process_update_request request s ≡ (err (message "Could not find device id!"), s)
  unfolding process_update_request find_device ◌>>=◌
  process_update_request_unknown request s h = ground arith

  -- A request for a known device is announced before its controller sees it, and then handed to the
  -- controller in the state that the announcement left.
  pub process_update_request_known :
      (request : UpdateRequest) (s : AppState) {device : Device}
      → HooksAreOpen e
      → get request.device_id s.devices ≡ some device
      → process_update_request request s ≡ dispatch_update device request (announced request s)
  unfolding process_update_request find_device perform ◌>>=◌
  process_update_request_known request s open_hooks h =
      ground (arith, open_hooks s.clock (device_update_dispatch request))

  disabled_update :
      (config : ControllerConfig) (device : Device) (request : UpdateRequest) (s : AppState)
      → is_enabled config s.controllers ≡ false
      → update_by config device request s ≡ (err (message (not_enabled config)), s)
  unfolding update_by enabled ◌>>=◌
  disabled_update (ControllerConfig.simple config) device request s h = ground arith
  disabled_update (ControllerConfig.krypton config) device request s h = ground arith
  disabled_update (ControllerConfig.tplink config) device request s h = ground arith
  disabled_update (ControllerConfig.govee config) device request s h = ground arith

  -- A request for a device whose controller is not enabled fails with that message, but only after
  -- it was announced: the hook is the one effect.
  pub process_update_request_disabled :
      (request : UpdateRequest) (s : AppState) {device : Device}
      → HooksAreOpen e
      → get request.device_id s.devices ≡ some device
      → is_enabled device.controller s.controllers ≡ false
      → process_update_request request s
        ≡ (err (message (not_enabled device.controller)), announced request s)
  process_update_request_disabled request s {device} open_hooks h disabled =
      process_update_request_known request s open_hooks h
      ∙ unfold dispatch_update in
        disabled_update device.controller device request (announced request s) disabled
