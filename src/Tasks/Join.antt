-- ===== src/Tasks/Join.antt =====
-- `try_join_all`: futures that take turns until all have succeeded or one has failed. In which order
-- they do is a parameter, an arbitrary choice at each turn, so that what is proved holds for every
-- interleaving.
use devicectrl_server.Prelude.{
  ℕ, zero, suc, ◌+◌, ◌%◌, Option, none, some, List, [], ◌∷◌, Result, ok, err, library, length,
}
use devicectrl_server.Deps.{Deps}
use devicectrl_server.App.{AppState, Action}
use devicectrl_server.Tasks.{Task, done, turn}

module _ ⦃d : Deps⦄ where
  abbrev pub keep : Task → Result (List Task) → Result (List Task)
  keep task (ok pending) = ok (task ∷ pending)
  keep task (err x) = err x

  -- the futures that have not ended, or the error of one that has failed
  abbrev pub sweep : List Task → Result (List Task)
  sweep [] = ok []
  sweep (done (err x) ∷ tasks) = err x
  sweep (done (ok _) ∷ tasks) = sweep tasks
  sweep (turn f k ∷ tasks) = keep (turn f k) (sweep tasks)

  -- one turn of the future at an index
  abbrev pub poll : ℕ → List Task → AppState → List Task × AppState
  poll i [] s = ([], s)
  poll zero (done r ∷ tasks) s = (done r ∷ tasks, s)
  poll zero (turn f k ∷ tasks) s = (k s ∷ tasks, f s)
  poll (suc i) (task ∷ tasks) s = let (tasks', t) = poll i tasks s in (task ∷ tasks', t)

-- Which future has the next turn: at each turn of a join that began at a time of the clock.
pub record Scheduler : Type 0 where
  pub choose : ℕ → ℕ → ℕ

module _ ⦃d : Deps⦄ where
  -- what the join yields, if it ends: the first error, or success once none is left
  abbrev pub ended : Result (List Task) → Option (Result (Unit {0}))
  ended (err x) = some (err x)
  ended (ok []) = some (ok tt)
  ended (ok (task ∷ tasks)) = none

  abbrev pub left : Result (List Task) → List Task
  left (err x) = []
  left (ok tasks) = tasks

  -- A join that is given enough turns comes to a result.
  abbrev pub or_stuck : Option (Result (Unit {0})) → Result (Unit {0})
  or_stuck (some r) = r
  or_stuck none = err (library "out of turns")

  abbrev pub unless_ended :
      Option (Result (Unit {0}))
      → AppState
      → Option (Result (Unit {0})) × AppState
      → Option (Result (Unit {0})) × AppState
  unless_ended none s rest = rest
  unless_ended (some r) s rest = (some r, s)

module _ ⦃d : Deps⦄ ⦃c : Scheduler⦄ where
  -- For at most `fuel` turns: the result, `none` if it has not come to one, and the state.
  unfoldable pub join :
      (fuel start round : ℕ) → List Task → AppState → Option (Result (Unit {0})) × AppState
  join zero start round tasks s = (ended (sweep tasks), s)
  join (suc fuel) start round tasks s =
      let pending = left (sweep tasks) in
      let (tasks', t) = poll (c.choose start round % length pending) pending s in
      let rest = join fuel start (round + 1) tasks' t in unless_ended (ended (sweep tasks)) s rest

  -- `try_join_all(tasks).await`, for at most `fuel` turns
  unfoldable pub try_join_all : (fuel : ℕ) → List Task → Action (Unit {0})
  try_join_all fuel tasks s = let (r, t) = join fuel s.clock 0 tasks s in (or_stuck r, t)
