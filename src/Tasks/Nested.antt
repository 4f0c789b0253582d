-- ===== src/Tasks/Nested.antt =====
-- Futures that await others: the context of an error, a handler for one, and a join within a future,
-- whose futures take turns with those of all other tasks.
use devicectrl_server.Prelude.{
  ℕ, zero, suc, ◌+◌, ◌%◌, ◌≡◌, refl, String, Bool, Option, none, some, List, Result, ok, err, Error,
  with_context, length, Option-cases, inl, inr,
}
use devicectrl_server.Deps.{Deps}
use devicectrl_server.App.{AppState, Effect, within, or_else}
use devicectrl_server.App.Emits.{SameState-refl}
use devicectrl_server.Tasks.{Task, done, turn, run_alone}
use devicectrl_server.Tasks.Join.{sweep, poll, ended, left, or_stuck, Scheduler, join, try_join_all}
use devicectrl_server.Tasks.Keeps.{TurnsEmit, AllTurnsEmit, poll-AllTurnsEmit, sweep-AllTurnsEmit}

module _ ⦃d : Deps⦄ where
  -- `future.await.context(m)`
  unfoldable pub task_within : String → Task → Task
  task_within m (done r) = done (with_context m r)
  task_within m (turn f k) = turn f (λ s. task_within m (k s))

  -- `if let Err(err) = future.await { report(err).await }`
  unfoldable pub task_or_else : (Error → Task) → Task → Task
  task_or_else report (done (ok _)) = done (ok tt)
  task_or_else report (done (err x)) = report x
  task_or_else report (turn f k) = turn f (λ s. task_or_else report (k s))

  abbrev pub unless_over : Option (Result (Unit {0})) → Task → Task
  unless_over (some r) task = done r
  unless_over none task = task

  pub run_alone-within :
      (m : String) (task : Task) (s : AppState)
      → run_alone (task_within m task) s ≡ within m (run_alone task) s
  unfolding run_alone task_within within
  run_alone-within m (done r) s = refl
  run_alone-within m (turn f k) s = run_alone-within m (k s) (f s)

  pub run_alone-or_else :
      (report : Error → Task) (task : Task) (s : AppState)
      → run_alone (task_or_else report task) s
        ≡ or_else (λ x. run_alone (report x)) (run_alone task) s
  unfolding run_alone task_or_else or_else
  run_alone-or_else report (done (ok _)) s = refl
  run_alone-or_else report (done (err x)) s = refl
  run_alone-or_else report (turn f k) s = run_alone-or_else report (k s) (f s)

module _ ⦃d : Deps⦄ (kind : Effect → Bool) where
  pub TurnsEmit-within :
      (m : String) (task : Task) → TurnsEmit kind task → TurnsEmit kind (task_within m task)
  unfolding task_within
  TurnsEmit-within m (done r) h = tt
  TurnsEmit-within m (turn f k) h = λ s. ((h s).0, TurnsEmit-within m (k s) (h s).1)

  pub TurnsEmit-or_else :
      (report : Error → Task) (task : Task)
      → TurnsEmit kind task
      → ((x : Error) → TurnsEmit kind (report x))
      → TurnsEmit kind (task_or_else report task)
  unfolding task_or_else
  TurnsEmit-or_else report (done (ok _)) h w = tt
  TurnsEmit-or_else report (done (err x)) h w = w x
  TurnsEmit-or_else report (turn f k) h w = λ s. ((h s).0, TurnsEmit-or_else report (k s) (h s).1 w)

  TurnsEmit-unless_over :
      (o : Option (Result (Unit {0}))) (task : Task)
      → TurnsEmit kind task
      → TurnsEmit kind (unless_over o task)
  TurnsEmit-unless_over none task h = h
  TurnsEmit-unless_over (some r) task h = tt

module _ ⦃d : Deps⦄ ⦃c : Scheduler⦄ where
  unfoldable pub join_task : (fuel start round : ℕ) → List Task → Task
  join_task zero start round tasks = done (or_stuck (ended (sweep tasks)))
  join_task (suc fuel) start round tasks =
      let pending = left (sweep tasks) in
      let i = c.choose start round % length pending in
      unless_over (ended (sweep tasks)) (
        turn (λ s. (poll i pending s).1)
          (λ s. join_task fuel start (round + 1) (poll i pending s).0))

  -- `try_join_all(tasks).await`; the first turn reads the clock that the scheduler goes by
  unfoldable pub try_join_task : (fuel : ℕ) → List Task → Task
  unfolding join_task
  try_join_task fuel tasks = turn (λ s. s) (λ s. join_task fuel s.clock 0 tasks)

  run_alone-join :
      (fuel start round : ℕ) (tasks : List Task) (s : AppState)
      → run_alone (join_task fuel start round tasks) s
        ≡ (or_stuck (join fuel start round tasks s).0, (join fuel start round tasks s).1)
  unfolding run_alone join_task join
  run_alone-join zero start round tasks s = refl
  run_alone-join (suc fuel) start round tasks s = elim (Option-cases (ended (sweep tasks))) [
    | inr (r, over) ↦ rw over refl
    | inl more ↦
        let pending = left (sweep tasks) in
        let i = c.choose start round % length pending in
        rw more (run_alone-join fuel start (round + 1) (poll i pending s).0 (poll i pending s).1)
  ]

  -- With no task in between, it is the join.
  pub run_alone-try_join_all :
      (fuel : ℕ) (tasks : List Task) (s : AppState)
      → run_alone (try_join_task fuel tasks) s ≡ try_join_all fuel tasks s
  unfolding run_alone try_join_task try_join_all
  run_alone-try_join_all fuel tasks s = run_alone-join fuel s.clock 0 tasks s

module _ ⦃d : Deps⦄ ⦃c : Scheduler⦄ (kind : Effect → Bool) where
  TurnsEmit-join :
      (fuel start round : ℕ) (tasks : List Task)
      → AllTurnsEmit kind tasks
      → TurnsEmit kind (join_task fuel start round tasks)
  unfolding join_task
  TurnsEmit-join zero start round tasks h = tt
  TurnsEmit-join (suc fuel) start round tasks h =
      TurnsEmit-unless_over kind (ended (sweep tasks)) _ λ s.
        let pending = left (sweep tasks) in
        let (same, rest) =
          poll-AllTurnsEmit kind (c.choose start round % length pending) pending s
            (sweep-AllTurnsEmit kind tasks h) in
        (same, TurnsEmit-join fuel start (round + 1) _ rest)

  pub TurnsEmit-try_join_all :
      (fuel : ℕ) (tasks : List Task)
      → AllTurnsEmit kind tasks
      → TurnsEmit kind (try_join_task fuel tasks)
  unfolding try_join_task
  TurnsEmit-try_join_all fuel tasks h =
      λ s. (SameState-refl kind s, TurnsEmit-join fuel s.clock 0 tasks h)
