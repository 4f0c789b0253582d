-- ===== src/Automations/Sunset/Ramp.antt =====
-- What the ramp of src/automations/sunset_light_temp.rs sends.
use devicectrl_server.Prelude.{
  ℕ, zero, suc, ◌+◌, ◌-◌, ◌≡◌, refl, ◌∙◌, ap, sym, List, [], ◌∷◌, ◌++◌, ok, err, Error, arith,
  Result-cases, inl, inr, library,
}
use devicectrl_server.Deps.{Deps}
use devicectrl_server.App.{
  Env, AppState, Hook, device_update_dispatch, pure, lift, sleep_for, ◌>>=◌,
}
use devicectrl_server.App.Inversion.{bind_inv, lift_inv}
use devicectrl_server.Dispatch.Request.{process_update_request}
use devicectrl_server.App.Hooks.{hooks_sent}
use devicectrl_server.Automations.Dependencies.Turn.{process_update_request-hooks}
use devicectrl_server.Config.{SunsetDeviceConfig}
use devicectrl_server.Automations.Sunset.{pause, temp_request, ramp_step, ramp_from, ramp}

-- the numbers from `n` on, the last of them first
abbrev pub countdown : (count : ℕ) → ℕ → List ℕ
countdown zero n = []
countdown (suc count) n = countdown count (n + 1) ++ (n ∷ [])

module _ ⦃d : Deps⦄ where
  abbrev pub temp_hooks : SunsetDeviceConfig → List ℕ → List Hook
  temp_hooks config [] = []
  temp_hooks config (n ∷ ns) = device_update_dispatch (temp_request config n) ∷ temp_hooks config ns

  temp_hooks-snoc :
      (config : SunsetDeviceConfig) (ns : List ℕ) (n : ℕ) (hooks : List Hook)
      → temp_hooks config (ns ++ (n ∷ [])) ++ hooks
        ≡ temp_hooks config ns ++ (device_update_dispatch (temp_request config n) ∷ hooks)
  temp_hooks-snoc config [] n hooks = refl
  temp_hooks-snoc config (m ∷ ns) n hooks =
      ap (◌∷◌ (device_update_dispatch (temp_request config m))) (temp_hooks-snoc config ns n hooks)

module _ ⦃d : Deps⦄ ⦃e : Env⦄ (config : SunsetDeviceConfig) where
  ramp_step-hooks :
      (n : ℕ) (s t : AppState)
      → ramp_step config n s ≡ (ok tt, t)
      → hooks_sent t.trace ≡ device_update_dispatch (temp_request config n) ∷ hooks_sent s.trace
  unfolding ramp_step sleep_for
  ramp_step-hooks n s t h =
      let (done, u, sent, k) = bind_inv _ _ s t h in
      let (duration, v, paused, l) = bind_inv _ _ u t k in
      let (is_pause, same) = lift_inv _ u v paused in
      ap (λ p. hooks_sent p.1.trace) (sym l)
      ∙ ap (λ v. hooks_sent v.trace) same
      ∙ process_update_request-hooks (temp_request config n) s u sent

  ramp_from-hooks :
      (count n : ℕ) (s t : AppState)
      → ramp_from config count n s ≡ (ok tt, t)
      → hooks_sent t.trace ≡ temp_hooks config (countdown count n) ++ hooks_sent s.trace
  unfolding ramp_from pure
  ramp_from-hooks zero n s t h = ap (λ p. hooks_sent p.1.trace) (sym h)
  ramp_from-hooks (suc count) n s t h =
      let (done, u, stepped, k) = bind_inv _ _ s t h in
      ramp_from-hooks count (n + 1) u t k
      ∙ ap (λ hooks. temp_hooks config (countdown count (n + 1)) ++ hooks)
          (ramp_step-hooks n s u stepped)
      ∙ sym (temp_hooks-snoc config (countdown count (n + 1)) n (hooks_sent s.trace))

  -- A ramp that succeeds has sent one request for each color temperature of its range, from the
  -- first to the last.
  pub ramp-hooks :
      (s t : AppState)
      → ramp config s ≡ (ok tt, t)
      → hooks_sent t.trace
        ≡ temp_hooks config (countdown (config.last + 1 - config.first) config.first)
          ++ hooks_sent s.trace
  unfolding ramp
  ramp-hooks s t h = ramp_from-hooks (config.last + 1 - config.first) config.first s t h

  ramp_step_fails :
      (n : ℕ) (s : AppState)
      → config.first ≡ config.last
      → (x : Error) × ((ramp_step config n s).0 ≡ err x)
  unfolding ramp_step pause lift ◌>>=◌
  ramp_step_fails n s h = elim (Result-cases (process_update_request (temp_request config n) s).0) [
    | inl (done, sent) ↦ (library "attempt to divide by zero", ground arith)
    | inr (x, bad) ↦ (x, ground arith)
  ]

  -- A ramp over a range of a single color temperature never succeeds.
  pub ramp_fails :
      (s : AppState) → config.first ≡ config.last → (x : Error) × ((ramp config s).0 ≡ err x)
  unfolding ramp ramp_from ◌>>=◌
  ramp_fails s h =
      let (x, bad) = ramp_step_fails config.first s h in
      let one : config.last + 1 - config.first ≡ suc zero = omega arith in (x, rw one (rw bad refl))
