-- ===== src/Automations/Dependencies/Turn.antt =====
-- What one turn of the loop of src/automations/dependencies.rs does to the channel of hooks.
use devicectrl_server.Prelude.{
  ℕ, ◌+◌, ◌-◌, ◌<◌, ◌≡◌, refl, ◌∙◌, ap, sym, Option, none, some, List, ◌∷◌, Result, ok, err, Error,
  context, library, String, arith, Result-cases, inl, inr, ◌⊎◌, length,
}
use devicectrl_server.Deps.{Deps}
use devicectrl_server.Common.{UpdateRequest}
use devicectrl_server.Config.{DependencyAutomationConfig}
use devicectrl_server.App.{
  Env, AppState, Hook, device_update_dispatch, Effect, within, perform, find_device,
}
use devicectrl_server.App.Inversion.{bind_inv}
use devicectrl_server.Controllers.Emits.{Emits-dispatch_update}
use devicectrl_server.Dispatch.Request.{process_update_request}
use devicectrl_server.Automations.Dependencies.{on_event}
use devicectrl_server.App.Hooks.{hooks_sent}
use devicectrl_server.Automations.Dependencies.Channel.{
  get_elem?, Broadcast, busy, failed, Automation, after_event, handle_received, step,
}
use devicectrl_server.App.Hooks.{hooks_sent-command}
use devicectrl_server.Automations.Dependencies.Trigger.{trigger, respond, on_event-trigger}

module _ ⦃d : Deps⦄ where
  abbrev pub sent_for : Option UpdateRequest → List Hook → List Hook
  sent_for none hooks = hooks
  sent_for (some request) hooks = device_update_dispatch request ∷ hooks

module _ ⦃d : Deps⦄ ⦃e : Env⦄ where
  announce_inv :
      (m : String) (effect : Effect) (s t : AppState)
      → within m (perform effect) s ≡ (ok tt, t)
      → t.trace ≡ effect ∷ s.trace
  unfolding within perform
  announce_inv m effect s t h = ground arith

  pub process_update_request-hooks :
      (request : UpdateRequest) (s t : AppState)
      → process_update_request request s ≡ (ok tt, t)
      → hooks_sent t.trace ≡ device_update_dispatch request ∷ hooks_sent s.trace
  unfolding process_update_request find_device
  process_update_request-hooks request s t h =
      let (device, u, found, k) = bind_inv _ _ s t h in
      let (done, v, sent, l) = bind_inv _ _ u t k in
      let same = (Emits-dispatch_update device request).at v in
      let left = hooks_sent-command same.fresh v.trace same.fresh_kind in
      let said = announce_inv _ _ u v sent in
      ap (λ p. hooks_sent p.1.trace) (sym l)
      ∙ ap hooks_sent same.trace
      ∙ left
      ∙ ap hooks_sent said
      ∙ ap (λ p. device_update_dispatch request ∷ hooks_sent p.1.trace) (sym found)

  respond-hooks :
      (m : String) (called : Option UpdateRequest) (s : AppState)
      → ((x : Error) × ((respond m called s).0 ≡ err x))
        ⊎ (((respond m called s).0 ≡ ok tt)
            × (hooks_sent (respond m called s).1.trace ≡ sent_for called (hooks_sent s.trace)))
  respond-hooks m none s = inr (refl, refl)
  respond-hooks m (some request) s = elim (Result-cases (process_update_request request s).0) [
    | inl (done, is_ok) ↦ inr (
      ground arith,
      process_update_request-hooks request s (process_update_request request s).1
          (ap (λ r. (r, (process_update_request request s).1)) is_ok),
    )
    | inr (x, is_err) ↦ inl (context m x, ground arith)
  ]

module _ ⦃d : Deps⦄ ⦃e : Env⦄ ⦃b : Broadcast⦄ (config : DependencyAutomationConfig) where
  -- What one turn with a hook to read comes to: the loop returns with an error, or it goes on
  -- with the oldest unread hook read, and the hook of the request that it calls for sent.
  abbrev pub TurnOf : ℕ → AppState → Automation → Type 0
  TurnOf n s a =
      ((x : Error) × (a.standing ≡ failed x))
      ⊎ ((h : Hook) × (get_elem? (hooks_sent s.trace) (length (hooks_sent s.trace) - (n + 1))
            ≡ some h)
          × (a.standing ≡ busy)
          × (a.read ≡ n + 1)
          × (hooks_sent a.state.trace ≡ sent_for (trigger config h) (hooks_sent s.trace)))

  after_event-err :
      (n : ℕ) (p : Result (Unit {0}) × AppState) {x : Error}
      → p.0 ≡ err x
      → after_event config n p ≡ record { standing = failed x; read = n + 1; state = p.1 }
  unfolding after_event
  after_event-err n (r, s) h = rw h

  after_event-ok :
      (n : ℕ) (p : Result (Unit {0}) × AppState)
      → p.0 ≡ ok tt
      → after_event config n p ≡ record { standing = busy; read = n + 1; state = p.1 }
  unfolding after_event
  after_event-ok n (r, s) h = rw h

  turn_on :
      (n : ℕ) (h : Hook) (s : AppState)
      → get_elem? (hooks_sent s.trace) (length (hooks_sent s.trace) - (n + 1)) ≡ some h
      → TurnOf n s (after_event config n (on_event config h s))
  turn_on n h s found =
      let (m, same) = on_event-trigger config h s in
      rw same (elim (respond-hooks m (trigger config h) s) [
        | inl (x, bad) ↦ inl (x, ap (λ a. a.standing) (after_event-err n _ bad))
        | inr (good, sent) ↦ inr (
          h,
          found,
          ap (λ a. a.standing) (after_event-ok n _ good),
          ap (λ a. a.read) (after_event-ok n _ good),
          ap (λ a. hooks_sent a.state.trace) (after_event-ok n _ good) ∙ sent,
        )
      ])

  pub step_turn :
      (n : ℕ) (s : AppState) → n < length (hooks_sent s.trace) → TurnOf n s (step config n s)
  unfolding step handle_received
  step_turn n s h =
      let (hook, found, received) = b.recv-unread n (hooks_sent s.trace) h in
      elim received [
        | inl far ↦ inl (library "channel lagged", rw far)
        | inr near ↦ rw near (turn_on n hook s found)
      ]
