-- ===== src/Automations/Dependencies/Cascade.antt =====
-- Which dependencies make the loop of src/automations/dependencies.rs come to rest: an update of
-- the automation's own is a hook that it reads again.
use devicectrl_server.Prelude.{
  ℕ, zero, suc, ◌+◌, ◌-◌, ◌<◌, ◌==◌, ◌≤◌, ◌≡◌, refl, ap, Bool, true, false, Option, none, some,
  List, [], ◌∷◌, arith, inl, inr, length, ltb, Error, Option-cases, Bool-cases,
}
use devicectrl_server.Deps.{Deps}
use devicectrl_server.Common.{SwitchPower, UpdateRequest, on, off, AttributeUpdate, DeviceState}
use devicectrl_server.Config.{DependencyRelationship, DependencyAutomationConfig}
use devicectrl_server.App.{
  Env, AppState, Hook, device_update_dispatch, device_state_update, scene_activate,
}
use devicectrl_server.Automations.Dependencies.{dependency_of}
use devicectrl_server.App.Hooks.{hooks_sent}
use devicectrl_server.Automations.Dependencies.Channel.{
  get_elem?, Broadcast, Standing, idle, busy, failed, after_turn, handle_received, step, run,
}
use devicectrl_server.Automations.Dependencies.Trigger.{
  trigger, to_dependency, when_power, when_switched,
}
use devicectrl_server.Automations.Dependencies.Turn.{sent_for, step_turn}

module _ ⦃d : Deps⦄ where
  abbrev pub is_busy : Standing → Bool
  is_busy busy = true
  is_busy _ = false

  abbrev pub rank_of : (ℕ → ℕ) → Hook → ℕ
  rank_of rank (device_update_dispatch request) = rank request.device_id
  rank_of rank (device_state_update update) = rank update.device_id
  rank_of rank (scene_activate scene) = 0

  -- the work that the `k` latest hooks stand for
  abbrev pub backlog : (ℕ → ℕ) → ℕ → List Hook → ℕ
  backlog rank zero hooks = 0
  backlog rank (suc k) [] = 0
  backlog rank (suc k) (h ∷ hooks) = rank_of rank h + 1 + backlog rank k hooks

  -- A dependency ranks below each device that depends on it.
  abbrev pub IsRanked : (ℕ → ℕ) → DependencyAutomationConfig → Type 0
  IsRanked rank [] = Unit
  IsRanked rank (r ∷ config) = (rank r.dependency_id < rank r.dependent_id) × IsRanked rank config

  IsRanked-dependency_of :
      (rank : ℕ → ℕ) (config : DependencyAutomationConfig) (id : ℕ) (r : DependencyRelationship)
      → IsRanked rank config
      → dependency_of config id ≡ some r
      → rank r.dependency_id < rank id
  IsRanked-dependency_of rank [] id r ranked h = cc
  IsRanked-dependency_of rank (x ∷ config) id r ranked h =
      elim (Bool-cases (x.dependent_id == id)) [
        | inl here ↦
            let same : x ≡ r = ground arith in
            let own : x.dependent_id ≡ id = ground arith in rw (← same, ← own) ranked.0
        | inr later ↦ IsRanked-dependency_of rank config id r ranked.1 (ground arith)
      ]

  backlog-suc :
      (rank : ℕ → ℕ) (k : ℕ) (hooks : List Hook) {h : Hook}
      → get_elem? hooks k ≡ some h
      → backlog rank (k + 1) hooks ≡ backlog rank k hooks + (rank_of rank h + 1)
  backlog-suc rank k [] found = ground arith
  backlog-suc rank zero (x ∷ hooks) found = ground arith
  backlog-suc rank (suc k) (x ∷ hooks) found = ground (arith, backlog-suc rank k hooks found)

  dependency-rank :
      (rank : ℕ → ℕ) (config : DependencyAutomationConfig) (id : ℕ) (request : UpdateRequest)
      → IsRanked rank config
      → (p : SwitchPower) → to_dependency (dependency_of config id) p ≡ some request
      → rank request.device_id < rank id
  dependency-rank rank config id request ranked p h =
      elim (Option-cases (dependency_of config id)) [
        | inl absent ↦ ground arith
        | inr (r, found) ↦ ground (arith, IsRanked-dependency_of rank config id r ranked found)
      ]

  trigger-rank :
      (rank : ℕ → ℕ) (config : DependencyAutomationConfig) (h : Hook) (request : UpdateRequest)
      → IsRanked rank config
      → trigger config h ≡ some request
      → rank request.device_id < rank_of rank h
  trigger-rank rank config (device_update_dispatch sent) request ranked h = called sent.update h
    where
      called :
          (update : AttributeUpdate)
          → when_power update (to_dependency (dependency_of config sent.device_id) on)
            ≡ some request
          → rank request.device_id < rank sent.device_id
      called (AttributeUpdate.power on) h =
          dependency-rank rank config sent.device_id request ranked on h
      called (AttributeUpdate.power off) h = cc
      called (AttributeUpdate.brightness b) h = cc
      called (AttributeUpdate.color_temp b) h = cc
      called (AttributeUpdate.other b) h = cc
  trigger-rank rank config (device_state_update update) request ranked h = called update.new_state h
    where
      called :
          (new_state : DeviceState)
          → when_switched new_state (dependency_of config update.device_id) ≡ some request
          → rank request.device_id < rank update.device_id
      called (DeviceState.switch state) h =
          dependency-rank rank config update.device_id request ranked state.power h
      called DeviceState.unknown h = cc
      called (DeviceState.dimmable_light b) h = cc
      called (DeviceState.color_light b) h = cc
      called (DeviceState.other b) h = cc
  trigger-rank rank config (scene_activate scene) request ranked h = cc

  length-sent_for :
      (called : Option UpdateRequest) (hooks : List Hook)
      → length hooks ≤ length (sent_for called hooks)
  length-sent_for none hooks = omega arith
  length-sent_for (some request) hooks = omega arith

  backlog-sent_for :
      (rank : ℕ → ℕ) (called : Option UpdateRequest) (n : ℕ) (hooks : List Hook) {h : Hook}
      → n < length hooks
      → get_elem? hooks (length hooks - (n + 1)) ≡ some h
      → ((request : UpdateRequest)
          → called ≡ some request
          → rank request.device_id < rank_of rank h)
      → backlog rank (length (sent_for called hooks) - (n + 1)) (sent_for called hooks)
        < backlog rank (length hooks - n) hooks
  backlog-sent_for rank none n hooks unread found smaller =
      let last : length hooks - n ≡ length hooks - (n + 1) + 1 = omega arith in
      rw last (omega (arith, backlog-suc rank (length hooks - (n + 1)) hooks found))
  backlog-sent_for rank (some request) n hooks {h} unread found smaller =
      let last : length hooks - n ≡ length hooks - (n + 1) + 1 = omega arith in
      let next : suc (length hooks) - (n + 1) ≡ suc (length hooks - (n + 1)) = omega arith in
      rw (last, next)
        (omega (arith, backlog-suc rank (length hooks - (n + 1)) hooks found, smaller request refl))

module _ ⦃d : Deps⦄ ⦃e : Env⦄ ⦃b : Broadcast⦄ (config : DependencyAutomationConfig) where
  pub run-going :
      (fuel n : ℕ) (s : AppState)
      → (step config n s).standing ≡ busy
      → run config (suc fuel) n s ≡ run config fuel (step config n s).read (step config n s).state
  unfolding run
  run-going fuel n s h =
      ap
        (λ standing.
          after_turn standing (run config fuel (step config n s).read (step config n s).state)
            (step config n s))
        h

  pub run-failed :
      (fuel n : ℕ) (s : AppState) {x : Error}
      → (step config n s).standing ≡ failed x
      → run config (suc fuel) n s ≡ step config n s
  unfolding run
  run-failed fuel n s h =
      ap
        (λ standing.
          after_turn standing (run config fuel (step config n s).read (step config n s).state)
            (step config n s))
        h

  step-read :
      (n : ℕ) (s : AppState)
      → length (hooks_sent s.trace) ≡ n
      → step config n s ≡ record { standing = idle; read = n; state = s }
  unfolding step handle_received
  step-read n s h = rw (b.recv-read n (hooks_sent s.trace) h) refl

  run-read :
      (fuel n : ℕ) (s : AppState)
      → length (hooks_sent s.trace) ≡ n
      → run config (suc fuel) n s ≡ record { standing = idle; read = n; state = s }
  unfolding run
  run-read fuel n s h =
      ap (λ a. after_turn a.standing (run config fuel a.read a.state) a) (step-read n s h)

  -- Where the dependencies can be ranked, the automation comes to rest after at most as many turns
  -- as the ranks of the unread hooks' devices, each plus one, add up to, and one more: it has then
  -- nothing left to read or has returned with an error.
  pub run-IsFinite :
      (rank : ℕ → ℕ) (fuel n : ℕ) (s : AppState)
      → IsRanked rank config
      → n ≤ length (hooks_sent s.trace)
      → backlog rank (length (hooks_sent s.trace) - n) (hooks_sent s.trace) < fuel
      → is_busy (run config fuel n s).standing ≡ false
  run-IsFinite rank zero n s ranked known enough = absurd (omega arith)
  run-IsFinite rank (suc fuel) n s ranked known enough =
      elim (Bool-cases (ltb n (length (hooks_sent s.trace)))) [
        | inl unread ↦
            let behind : n < length (hooks_sent s.trace) = ground arith in
            elim (step_turn config n s behind) [
              | inl (x, bad) ↦ rw (run-failed fuel n s bad, bad) refl
              | inr (h, found, going, read, sent) ↦
                  rw (run-going fuel n s going, read)
                    (run-IsFinite rank fuel (n + 1) (step config n s).state ranked
                      (rw sent
                        (omega (arith, length-sent_for (trigger config h) (hooks_sent s.trace))))
                      (rw sent (
                        omega (
                          arith,
                          backlog-sent_for rank (trigger config h) n (hooks_sent s.trace) behind
                              found
                              (λ request called. trigger-rank rank config h request ranked called),
                        ))))
            ]
        | inr all_read ↦ rw (run-read fuel n s (ground arith)) refl
      ]
