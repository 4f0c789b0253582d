-- ===== src/Automations/Dependencies/Trigger.antt =====
-- What one hook makes the automation of src/automations/dependencies.rs do: at most one request.
use devicectrl_server.Prelude.{
  ◌≡◌, refl, ◌∙◌, true, false, String, Option, none, some, Result, ok, with_context, arith,
  Result-cases, inl, inr,
}
use devicectrl_server.Deps.{Deps}
use devicectrl_server.Common.{
  SwitchPower, on, off, SwitchState, DeviceState, AttributeUpdate, UpdateRequest,
}
use devicectrl_server.Config.{DependencyRelationship, DependencyAutomationConfig}
use devicectrl_server.App.{
  Env, AppState, Hook, device_update_dispatch, device_state_update, scene_activate, pure, within,
  ◌>>=◌, ◌>>◌, Action,
}
use devicectrl_server.Dispatch.Request.{process_update_request}
use devicectrl_server.Automations.Dependencies.{
  dependency_of, turns_on, is_switched, request_if, on_event,
}

module _ ⦃d : Deps⦄ where
  abbrev pub to_dependency : Option DependencyRelationship → SwitchPower → Option UpdateRequest
  to_dependency none p = none
  to_dependency (some r) p =
      some (record { device_id = r.dependency_id; update = AttributeUpdate.power p })

  abbrev pub when_power : AttributeUpdate → Option UpdateRequest → Option UpdateRequest
  when_power (AttributeUpdate.power on) request = request
  when_power _ request = none

  abbrev pub when_switched : DeviceState → Option DependencyRelationship → Option UpdateRequest
  when_switched (DeviceState.switch state) found = to_dependency found state.power
  when_switched _ found = none

  -- the request that a hook calls for
  abbrev pub trigger : DependencyAutomationConfig → Hook → Option UpdateRequest
  trigger config (device_update_dispatch request) =
      when_power request.update (to_dependency (dependency_of config request.device_id) on)
  trigger config (device_state_update update) =
      when_switched update.new_state (dependency_of config update.device_id)
  trigger config (scene_activate scene) = none

module _ ⦃d : Deps⦄ ⦃e : Env⦄ where
  abbrev pub respond : String → Option UpdateRequest → AppState → Result (Unit {0}) × AppState
  respond m none s = (ok tt, s)
  respond m (some request) s =
      let (r, t) = process_update_request request s in (with_context m r, t)

  request_if-false :
      (found : Option DependencyRelationship) (p : SwitchPower) (m : String) (s : AppState)
      → request_if found false p m s ≡ (ok tt, s)
  unfolding request_if pure
  request_if-false none p m s = refl
  request_if-false (some r) p m s = refl

  request_if-true :
      (found : Option DependencyRelationship) (p : SwitchPower) (m : String) (s : AppState)
      → request_if found true p m s ≡ respond m (to_dependency found p) s
  unfolding request_if pure within
  request_if-true none p m s = refl
  request_if-true (some r) p m s = refl

  bind_done :
      (m k : Action (Unit {0})) (s : AppState)
      → ((t : AppState) → k t ≡ (ok tt, t))
      → (m >> k) s ≡ m s
  unfolding ◌>>=◌
  bind_done m k s h = elim (Result-cases (m s).0) [
    | inl (a, is_ok) ↦ ground (arith, h (m s).1)
    | inr (x, is_err) ↦ ground arith
  ]

  bind_begun : (m k : Action (Unit {0})) (s : AppState) → m s ≡ (ok tt, s) → (m >> k) s ≡ k s
  unfolding ◌>>=◌
  bind_begun m k s h = rw h

  on_report : DeviceState → Option DependencyRelationship → Action (Unit {0})
  on_report new_state found =
      request_if found (is_switched on new_state) on "failed to process dependent update request"
      >> request_if found (is_switched off new_state) off "failed to process dependent state update"

  on_report-neither :
      (new_state : DeviceState) (found : Option DependencyRelationship) (s : AppState)
      → is_switched on new_state ≡ false
      → is_switched off new_state ≡ false
      → on_report new_state found s ≡ (ok tt, s)
  unfolding on_report
  on_report-neither new_state found s h k =
      bind_begun _ _ s (rw h (request_if-false found on _ s))
      ∙ rw k (request_if-false found off _ s)

  on_report_switch :
      (state : SwitchState) (p : SwitchPower) (found : Option DependencyRelationship) (s : AppState)
      → state.power ≡ p
      → (m : String) × (on_report (DeviceState.switch state) found s
          ≡ respond m (to_dependency found p) s)
  unfolding on_report
  on_report_switch state on found s h = (
    "failed to process dependent update request",
    rw h (bind_done _ _ s (λ t. request_if-false found off _ t) ∙ request_if-true found on _ s),
  )
  on_report_switch state off found s h = (
    "failed to process dependent state update",
    rw h (bind_begun _ _ s (request_if-false found on _ s) ∙ request_if-true found off _ s),
  )

  on_report_lem :
      (new_state : DeviceState) (found : Option DependencyRelationship) (s : AppState)
      → (m : String) × (on_report new_state found s ≡ respond m (when_switched new_state found) s)
  on_report_lem (DeviceState.switch state) found s = on_report_switch state state.power found s refl
  on_report_lem DeviceState.unknown found s =
      ("", on_report-neither DeviceState.unknown found s refl refl)
  on_report_lem (DeviceState.dimmable_light b) found s =
      ("", on_report-neither (DeviceState.dimmable_light b) found s refl refl)
  on_report_lem (DeviceState.color_light b) found s =
      ("", on_report-neither (DeviceState.color_light b) found s refl refl)
  on_report_lem (DeviceState.other b) found s =
      ("", on_report-neither (DeviceState.other b) found s refl refl)

  -- A hook calls for at most one request, and that request is all that is done: where a dispatch
  -- turns a device on, or a switch reports to be on or off, the dependency that the first
  -- relationship of the device names is put in the same state; else nothing is done.
  pub on_event-trigger :
      (config : DependencyAutomationConfig) (h : Hook) (s : AppState)
      → (m : String) × (on_event config h s ≡ respond m (trigger config h) s)
  unfolding on_event pure ◌>>=◌
  on_event-trigger config (scene_activate scene) s = ("", refl)
  on_event-trigger config (device_update_dispatch request) s = (
    "failed to process dependent update request",
    dispatched request.update (dependency_of config request.device_id),
  )
    where
      dispatched :
          (update : AttributeUpdate) (found : Option DependencyRelationship)
          → request_if found (turns_on update) on "failed to process dependent update request" s
            ≡ respond "failed to process dependent update request"
                (when_power update (to_dependency found on))
                s
      dispatched (AttributeUpdate.power on) found = request_if-true found on _ s
      dispatched (AttributeUpdate.power off) found = request_if-false found on _ s
      dispatched (AttributeUpdate.brightness b) found = request_if-false found on _ s
      dispatched (AttributeUpdate.color_temp b) found = request_if-false found on _ s
      dispatched (AttributeUpdate.other b) found = request_if-false found on _ s
  on_event-trigger config (device_state_update update) s =
      unfold on_report in on_report_lem update.new_state (dependency_of config update.device_id) s
