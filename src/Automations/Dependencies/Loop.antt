-- ===== src/Automations/Dependencies/Loop.antt =====
-- The loop of src/automations/dependencies.rs turn by turn: other tasks may send hooks between any
-- two turns.
use devicectrl_server.Prelude.{
  ℕ, zero, suc, ◌+◌, ◌≡◌, refl, ◌∙◌, ap, Result, ok, err, library, Result-cases, inl, inr,
}
use devicectrl_server.Deps.{Deps}
use devicectrl_server.Config.{DependencyAutomationConfig}
use devicectrl_server.App.{Env, AppState, Hook, ◌>>=◌, ◌>>◌}
use devicectrl_server.App.Emits.{is_internal, SameState-refl}
use devicectrl_server.App.Hooks.{hooks_sent}
use devicectrl_server.Automations.Dependencies.{on_event}
use devicectrl_server.Automations.Dependencies.Channel.{
  Received, waiting, lagged, got, Broadcast, Standing, idle, busy, failed, Automation, after_turn,
  after_event, handle_received, step, run,
}
use devicectrl_server.Automations.Dependencies.Tasks.{
  on_event_task, on_event_task_alone, on_event_task-TurnsEmit,
}
use devicectrl_server.Tasks.{Task, done, turn, and_then, run_alone, run_alone-and_then}
use devicectrl_server.Tasks.Keeps.{TurnsEmit, TurnsEmit-and_then}

module _ ⦃d : Deps⦄ where
  -- what the loop has returned, if it has
  abbrev returned : Standing → Result (Unit {0})
  returned idle = ok tt
  returned busy = ok tt
  returned (failed x) = err x

  abbrev pub outcome : Automation → Result (Unit {0}) × AppState
  outcome a = (returned a.standing, a.state)

module _ ⦃d : Deps⦄ ⦃e : Env⦄ (config : DependencyAutomationConfig) where
  unfoldable pub received_task : (rest : ℕ → Task) → ℕ → Received → Task
  received_task rest n waiting = rest n
  received_task rest n lagged = done (err (library "channel lagged"))
  received_task rest n (got h) = and_then (on_event_task config h) (rest (n + 1))

module _ ⦃d : Deps⦄ ⦃e : Env⦄ ⦃b : Broadcast⦄ (config : DependencyAutomationConfig) where
  -- The loop for a number of rounds: a round in which there is no hook to read is a wait.
  unfoldable pub dependency_task : (rounds : ℕ) → ℕ → Task
  unfolding received_task
  dependency_task zero n = done (ok tt)
  dependency_task (suc rounds) n =
      turn (λ s. s)
        (λ s. received_task config (dependency_task rounds) n (b.recv n (hooks_sent s.trace)))

  waits :
      (rounds n : ℕ) (s : AppState)
      → b.recv n (hooks_sent s.trace) ≡ waiting
      → run_alone (dependency_task rounds n) s ≡ (ok tt, s)
  unfolding dependency_task run_alone
  waits zero n s h = refl
  waits (suc rounds) n s h =
      ap (λ r. run_alone (received_task config (dependency_task rounds) n r) s) h
      ∙ waits rounds n s h

  handled :
      (n : ℕ) (h : Hook) (next : Task) (s : AppState) (rounds : ℕ)
      → ((t : AppState) → run_alone next t ≡ outcome (run config rounds (n + 1) t))
      → (on_event config h >> run_alone next) s ≡ (
          let a = after_event config n (on_event config h s) in
          outcome (after_turn a.standing (run config rounds a.read a.state) a))
  unfolding after_event ◌>>=◌
  handled n h next s rounds go_on = elim (Result-cases (on_event config h s).0) [
    | inl (_, good) ↦ rw good (go_on (on_event config h s).1)
    | inr (x, bad) ↦ rw bad refl
  ]

  by_received :
      (rounds n : ℕ) (s : AppState) (r : Received)
      → b.recv n (hooks_sent s.trace) ≡ r
      → ((t : AppState)
          → run_alone (dependency_task rounds (n + 1)) t ≡ outcome (run config rounds (n + 1) t))
      → run_alone (received_task config (dependency_task rounds) n r) s ≡ (
          let a = handle_received config n r s in
          outcome (after_turn a.standing (run config rounds a.read a.state) a))
  unfolding received_task handle_received run_alone
  by_received rounds n s waiting h go_on = waits rounds n s h
  by_received rounds n s lagged h go_on = refl
  by_received rounds n s (got hook) h go_on =
      let next = dependency_task rounds (n + 1) in
      run_alone-and_then (on_event_task config hook) next s
      ∙ (λ i. ((λ t. on_event_task_alone config hook t i) >> run_alone next) s)
      ∙ handled n hook next s rounds go_on

  -- The loop by itself, turn by turn, comes to what `run` comes to.
  pub dependency_task_alone :
      (rounds n : ℕ) (s : AppState)
      → run_alone (dependency_task rounds n) s ≡ outcome (run config rounds n s)
  unfolding dependency_task run step run_alone
  dependency_task_alone zero n s = refl
  dependency_task_alone (suc rounds) n s =
      by_received rounds n s (b.recv n (hooks_sent s.trace)) refl
        (dependency_task_alone rounds (n + 1))

  received_task-TurnsEmit :
      (rest : ℕ → Task) (n : ℕ) (r : Received)
      → ((m : ℕ) → TurnsEmit is_internal (rest m))
      → TurnsEmit is_internal (received_task config rest n r)
  unfolding received_task
  received_task-TurnsEmit rest n waiting h = h n
  received_task-TurnsEmit rest n lagged h = tt
  received_task-TurnsEmit rest n (got hook) h =
      TurnsEmit-and_then is_internal _ _ (on_event_task-TurnsEmit config hook) (h (n + 1))

  pub dependency_task-TurnsEmit : (rounds n : ℕ) → TurnsEmit is_internal (dependency_task rounds n)
  unfolding dependency_task
  dependency_task-TurnsEmit zero n = tt
  dependency_task-TurnsEmit (suc rounds) n = λ s. (
    SameState-refl is_internal s,
    received_task-TurnsEmit (dependency_task rounds) n (b.recv n (hooks_sent s.trace))
        (dependency_task-TurnsEmit rounds),
  )
