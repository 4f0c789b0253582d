-- ===== src/Automations/Dependencies/Cycle.antt =====
-- What a cycle of dependencies makes of the loop of src/automations/dependencies.rs.
use devicectrl_server.Prelude.{
  ℕ, zero, suc, ◌+◌, ◌-◌, ◌<◌, ◌≡◌, refl, Bool, true, Option, none, some, List, arith, inl, inr,
  ◌⊎◌, length, ltb, Error, Bool-cases,
}
use devicectrl_server.Deps.{Deps}
use devicectrl_server.Common.{UpdateRequest, on}
use devicectrl_server.Config.{DependencyRelationship, DependencyAutomationConfig}
use devicectrl_server.App.{Env, AppState, Hook, device_update_dispatch}
use devicectrl_server.Automations.Dependencies.{dependency_of, power_request}
use devicectrl_server.App.Hooks.{hooks_sent}
use devicectrl_server.Automations.Dependencies.Channel.{
  get_elem?, Broadcast, busy, failed, step, run,
}
use devicectrl_server.Automations.Dependencies.Trigger.{trigger}
use devicectrl_server.Automations.Dependencies.Turn.{sent_for, step_turn}
use devicectrl_server.Automations.Dependencies.Cascade.{run-going, run-failed}

module _ ⦃d : Deps⦄ (ids : ℕ → Bool) (config : DependencyAutomationConfig) where
  -- Every device of the set has a dependency, and that is of the set too.
  abbrev pub IsClosed : Type 0
  IsClosed =
      (id : ℕ)
      → ids id ≡ true
      → (r : DependencyRelationship) × (dependency_of config id ≡ some r)
        × (ids r.dependency_id ≡ true)

  -- a hook that calls for a device of the set to be turned on
  abbrev pub IsLive : Hook → Type 0
  IsLive h = (id : ℕ) × (trigger config h ≡ some (power_request id on)) × (ids id ≡ true)

  -- one of the `k` latest hooks is live
  abbrev pub HasLive : ℕ → List Hook → Type 0
  HasLive k hooks = (i : ℕ) × (h : Hook) × (i < k) × (get_elem? hooks i ≡ some h) × IsLive h

  IsLive-dispatch :
      IsClosed → (id : ℕ) → ids id ≡ true → IsLive (device_update_dispatch (power_request id on))
  IsLive-dispatch closed id h =
      let (r, found, inside) = closed id h in (r.dependency_id, rw found refl, inside)

  HasLive-later :
      (n : ℕ) (hooks : List Hook) (called : Option UpdateRequest)
      → n < length hooks
      → HasLive (length hooks - (n + 1)) hooks
      → HasLive (length (sent_for called hooks) - (n + 1)) (sent_for called hooks)
  HasLive-later n hooks none behind h = h
  HasLive-later n hooks (some request) behind (i, live, near, at, is_live) =
      (suc i, live, omega arith, at, is_live)

  IsLive-same :
      (hooks : List Hook) (i : ℕ) {g h : Hook}
      → get_elem? hooks i ≡ some g
      → get_elem? hooks i ≡ some h
      → IsLive g
      → IsLive h
  IsLive-same hooks i {g} {h} at found (id, calls, inside) =
      let same : g ≡ h = cc in (id, rw (← same) calls, inside)

  HasLive-read :
      (n : ℕ) (hooks : List Hook) (h : Hook)
      → IsClosed
      → n < length hooks
      → IsLive h
      → HasLive
          (length (sent_for (trigger config h) hooks) - (n + 1))
          (sent_for (trigger config h) hooks)
  HasLive-read n hooks h closed behind (id, calls, inside) = rw calls (
    zero,
    device_update_dispatch (power_request id on),
    omega arith,
    refl,
    IsLive-dispatch closed id inside,
  )

  -- After a turn, a live hook is unread: the one that was, or the one that it called for.
  HasLive-sent_for :
      (n : ℕ) (hooks : List Hook) {h : Hook}
      → IsClosed
      → n < length hooks
      → get_elem? hooks (length hooks - (n + 1)) ≡ some h
      → HasLive (length hooks - n) hooks
      → HasLive
          (length (sent_for (trigger config h) hooks) - (n + 1))
          (sent_for (trigger config h) hooks)
  HasLive-sent_for n hooks {h} closed behind found (i, live, near, at, is_live) =
      elim (Bool-cases (ltb i (length hooks - (n + 1)))) [
        | inl later ↦
            HasLive-later n hooks (trigger config h) behind (i, live, ground arith, at, is_live)
        | inr now ↦
            let last : i ≡ length hooks - (n + 1) = ground arith in
            HasLive-read n hooks h closed behind (IsLive-same hooks i at (rw last found) is_live)
      ]

module _ ⦃d : Deps⦄ ⦃e : Env⦄ ⦃b : Broadcast⦄ (ids : ℕ → Bool)
    (config : DependencyAutomationConfig) where
  -- Where every device of a set depends on a device of the set, as in a cycle, and a hook to turn
  -- one of them on is unread, the automation never comes to rest by itself: after any number of
  -- turns it is still busy and has read a hook at each of them, or a request has failed.
  pub run-IsEndless :
      (fuel n : ℕ) (s : AppState)
      → IsClosed ids config
      → HasLive ids config (length (hooks_sent s.trace) - n) (hooks_sent s.trace)
      → (((run config fuel n s).standing ≡ busy) × ((run config fuel n s).read ≡ n + fuel))
        ⊎ ((x : Error) × ((run config fuel n s).standing ≡ failed x))
  unfolding run
  run-IsEndless zero n s closed waiting = inl (refl, omega arith)
  run-IsEndless (suc fuel) n s closed waiting =
      let (i, live, near, at, is_live) = waiting in
      let behind : n < length (hooks_sent s.trace) = omega arith in
      elim (step_turn config n s behind) [
        | inl (x, bad) ↦ inr (x, rw (run-failed config fuel n s bad) bad)
        | inr (h, found, going, read, sent) ↦
            let next = run-IsEndless fuel (n + 1) (step config n s).state closed (
              rw sent
                (HasLive-sent_for ids config n (hooks_sent s.trace) closed behind found waiting)) in
            let same : run config (suc fuel) n s ≡ run config fuel (n + 1) (step config n s).state =
              rw (run-going config fuel n s going, read) refl in
            elim next [
              | inl (goes, count) ↦ inl (rw same goes, rw same (omega arith))
              | inr (x, bad) ↦ inr (x, rw same bad)
            ]
      ]
