-- ===== src/Main/Tasks.antt =====
-- The tasks that src/main.rs, src/server_backends/mod.rs and src/automations/mod.rs spawn and join,
-- by how they end. A task that never ends, as a server that listens, has no end here. Either join
-- returns in a task of its own, which `main` joins at any later time.
use devicectrl_server.Prelude.{
  ℕ, zero, suc, Option, none, some, List, [], ◌∷◌, ◌++◌, Result, ok, err, library, length,
}
use devicectrl_server.Deps.{Deps}
use devicectrl_server.Config.{Config, ServersConfig, AutomationsConfig}

pub data Server : Type 0 where
  http tcp websocket : Server

pub data Automation : Type 0 where
  sunset_light_temp dependencies : Automation

-- `if let Some(ref config) = $config.$field { $tasks.spawn(..) }`
abbrev pub spawn_if {ℓ κ} : {C : Type ℓ} {T : Type κ} → Option C → T → List T
spawn_if none task = []
spawn_if (some config) task = task ∷ []

unfoldable pub spawn_servers : ServersConfig → List Server
spawn_servers config =
    spawn_if config.http http ++ spawn_if config.tcp tcp ++ spawn_if config.websocket websocket

module _ ⦃d : Deps⦄ where
  unfoldable pub spawn_automations : AutomationsConfig → List Automation
  spawn_automations config =
      spawn_if config.sunset_light_temp sunset_light_temp
      ++ spawn_if config.dependencies dependencies

-- the end of a task of a `JoinSet`
pub data End : Type 0 where
  finished : Result (Unit {0}) → End
  panicked : End

-- `while tasks.join_next().await.transpose()?.transpose()?.is_some() {}`, with how many tasks it
-- still has to join, or what it has come to: its function has returned, and the set was dropped.
pub data Join : Type 0 where
  joining : (left : ℕ) → Join
  joined : Result (Unit {0}) → Join

abbrev pub begin_join : (tasks : ℕ) → Join
begin_join zero = joined (ok tt)
begin_join (suc tasks) = joining (suc tasks)

unfoldable pub join_next : Join → End → Join
join_next (joining zero) (finished (ok _)) = joined (ok tt)
join_next (joining (suc left)) (finished (ok _)) = begin_join left
join_next (joining left) (finished (err x)) = joined (err x)
join_next (joining left) panicked = joined (err (library "task panicked"))
join_next (joined r) end = joined r

-- The end of a server or of an automation, or that `main` goes on: it joins the task that runs
-- `start_servers` or `start_automations`, if that has returned.
pub data Event : Type 0 where
  server_end : End → Event
  automation_end : End → Event
  servers_return : Event
  automations_return : Event

-- what a join has come to
abbrev pub result_of : Join → Option (Result (Unit {0}))
result_of (joining left) = none
result_of (joined r) = some r

-- the joins of `start_servers`, `start_automations` and `main`, and what `main` has joined
pub record Joins : Type 0 where
  pub servers : Join
  pub automations : Join
  pub servers_told : Option (Result (Unit {0}))
  pub automations_told : Option (Result (Unit {0}))
  pub main : Join

-- once only
abbrev pub told : Option (Result (Unit {0})) → Join → Option (Result (Unit {0}))
told none join = result_of join
told (some r) join = some r

-- a function that has returned is a task of `main` that has ended
abbrev pub returned : Option (Result (Unit {0})) → Join → (main : Join) → Join
returned none (joined r) main = join_next main (finished r)
returned _ _ main = main

unfoldable pub on_event : Joins → Event → Joins
unfolding join_next
on_event joins (server_end end) = record joins { servers = join_next joins.servers end }
on_event joins (automation_end end) = record joins { automations = join_next joins.automations end }
on_event joins servers_return = record joins {
  servers_told = told joins.servers_told joins.servers;
  main = returned joins.servers_told joins.servers joins.main;
}
on_event joins automations_return = record joins {
  automations_told = told joins.automations_told joins.automations;
  main = returned joins.automations_told joins.automations joins.main;
}

-- `start_servers` and `start_automations` with nothing to spawn return at once.
unfoldable pub begin_joins : (servers automations : ℕ) → Joins
begin_joins servers automations = record {
  servers = begin_join servers;
  automations = begin_join automations;
  servers_told = none;
  automations_told = none;
  main = begin_join 2;
}

unfoldable pub run_events : Joins → List Event → Joins
run_events joins [] = joins
run_events joins (event ∷ events) = run_events (on_event joins event) events

module _ ⦃d : Deps⦄ where
  -- the joins once the given ends have come about
  unfoldable pub main_joins : Config → List Event → Joins
  unfolding spawn_servers spawn_automations begin_joins run_events
  main_joins config events =
      run_events
        (begin_joins (length (spawn_servers config.servers))
          (length (spawn_automations config.automations)))
        events
