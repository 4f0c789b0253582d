-- ===== src/Main/Returns.antt =====
-- When src/main.rs returns, and with what.
use devicectrl_server.Prelude.{
  ℕ, zero, suc, ◌+◌, ◌≡◌, refl, ◌∙◌, ap, Option, none, some, List, [], ◌∷◌, ◌++◌, Result, ok, err,
  library, length, length-append,
}
use devicectrl_server.Deps.{Deps}
use devicectrl_server.Config.{Config, ServersConfig, AutomationsConfig}
use devicectrl_server.Main.Tasks.{
  http, tcp, websocket, sunset_light_temp, dependencies, spawn_if, spawn_servers, spawn_automations,
  End, finished, panicked, Join, joined, begin_join, join_next, Event, server_end, automation_end,
  servers_return, automations_return, result_of, Joins, told, on_event, begin_joins, run_events,
  main_joins,
}
use devicectrl_server.Main.Verdict.{verdict, server_ends, automation_ends, one_if, IsFrom, IsByBoth}
use devicectrl_server.Main.Told.{
  IsSound, Fits-IsByBoth, Fits-IsFrom, told-result, on_event-IsSound, run_events-IsSound,
  begin_joins-IsSound,
}

abbrev run_ends : Join → List End → Join
run_ends join [] = join
run_ends join (end ∷ ends) = run_ends (join_next join end) ends

run_ends-joined : (r : Result (Unit {0})) (ends : List End) → run_ends (joined r) ends ≡ joined r
unfolding join_next
run_ends-joined r [] = refl
run_ends-joined r (end ∷ ends) = run_ends-joined r ends

run_ends-verdict :
    (n : ℕ) (ends : List End) → result_of (run_ends (begin_join n) ends) ≡ verdict n ends
unfolding join_next
run_ends-verdict zero ends = ap result_of (run_ends-joined (ok tt) ends)
run_ends-verdict (suc n) [] = refl
run_ends-verdict (suc n) (finished (ok _) ∷ ends) = run_ends-verdict n ends
run_ends-verdict (suc n) (finished (err x) ∷ ends) = ap result_of (run_ends-joined (err x) ends)
run_ends-verdict (suc n) (panicked ∷ ends) =
    ap result_of (run_ends-joined (err (library "task panicked")) ends)

servers_lem :
    (joins : Joins) (events : List Event)
    → (run_events joins events).servers ≡ run_ends joins.servers (server_ends events)
unfolding run_events on_event
servers_lem joins [] = refl
servers_lem joins (server_end end ∷ events) = servers_lem (on_event joins (server_end end)) events
servers_lem joins (automation_end end ∷ events) =
    servers_lem (on_event joins (automation_end end)) events
servers_lem joins (servers_return ∷ events) = servers_lem (on_event joins servers_return) events
servers_lem joins (automations_return ∷ events) =
    servers_lem (on_event joins automations_return) events

automations_lem :
    (joins : Joins) (events : List Event)
    → (run_events joins events).automations ≡ run_ends joins.automations (automation_ends events)
unfolding run_events on_event
automations_lem joins [] = refl
automations_lem joins (server_end end ∷ events) =
    automations_lem (on_event joins (server_end end)) events
automations_lem joins (automation_end end ∷ events) =
    automations_lem (on_event joins (automation_end end)) events
automations_lem joins (servers_return ∷ events) =
    automations_lem (on_event joins servers_return) events
automations_lem joins (automations_return ∷ events) =
    automations_lem (on_event joins automations_return) events

spawn_if-length :
    {C T : Type 0} (xs : List T) (o : Option C) (x : T)
    → length (xs ++ spawn_if o x) ≡ length xs + one_if o
spawn_if-length xs none x = length-append xs []
spawn_if-length xs (some c) x = length-append xs (x ∷ [])

first_length : {C T : Type 0} (o : Option C) (x : T) → length (spawn_if o x) ≡ one_if o
first_length none x = refl
first_length (some c) x = refl

abbrev pub servers_of : ServersConfig → ℕ
servers_of config = one_if config.http + one_if config.tcp + one_if config.websocket

servers_of_lem : (config : ServersConfig) → length (spawn_servers config) ≡ servers_of config
unfolding spawn_servers
servers_of_lem config =
    let a = spawn_if config.http http in
    let b = a ++ spawn_if config.tcp tcp in
    spawn_if-length b config.websocket websocket
    ∙ ap (λ n. n + one_if config.websocket)
        (spawn_if-length a config.tcp tcp
          ∙ ap (λ n. n + one_if config.tcp) (first_length config.http http))

module _ ⦃d : Deps⦄ where
  abbrev pub automations_of : AutomationsConfig → ℕ
  automations_of config = one_if config.sunset_light_temp + one_if config.dependencies

  automations_of_lem :
      (config : AutomationsConfig) → length (spawn_automations config) ≡ automations_of config
  unfolding spawn_automations
  automations_of_lem config =
      let a = spawn_if config.sunset_light_temp sunset_light_temp in
      spawn_if-length a config.dependencies dependencies
      ∙ ap (λ n. n + one_if config.dependencies)
          (first_length config.sunset_light_temp sunset_light_temp)

-- the joins go on, with `main` last
after_all :
    (joins : Joins) (events : List Event)
    → (run_events joins (events ++ (servers_return ∷ automations_return ∷ []))).main
      ≡ (on_event (on_event (run_events joins events) servers_return) automations_return).main
unfolding run_events
after_all joins [] = refl
after_all joins (event ∷ events) = after_all (on_event joins event) events

caught_up :
    (joins : Joins)
    → IsSound joins
    → IsByBoth
        (result_of joins.servers)
        (result_of joins.automations)
        (result_of (on_event (on_event joins servers_return) automations_return).main)
unfolding on_event
caught_up joins h =
    let next = on_event-IsSound _ automations_return (on_event-IsSound joins servers_return h) in
    let s = told-result joins.servers_told joins.servers h.servers in
    let a = told-result joins.automations_told joins.automations h.automations in
    rw (← s, ← a)
      (Fits-IsByBoth (told joins.servers_told joins.servers)
        (told joins.automations_told joins.automations) _ next.main)

module _ ⦃d : Deps⦄ where
  abbrev pub servers_verdict : Config → List Event → Option (Result (Unit {0}))
  servers_verdict config events = verdict (servers_of config.servers) (server_ends events)

  abbrev pub automations_verdict : Config → List Event → Option (Result (Unit {0}))
  automations_verdict config events =
      verdict (automations_of config.automations) (automation_ends events)

  servers-verdict :
      (config : Config) (events : List Event)
      → result_of (main_joins config events).servers ≡ servers_verdict config events
  unfolding main_joins begin_joins
  servers-verdict config events =
      ap result_of (servers_lem _ events)
      ∙ run_ends-verdict (length (spawn_servers config.servers)) (server_ends events)
      ∙ ap (λ n. verdict n (server_ends events)) (servers_of_lem config.servers)

  automations-verdict :
      (config : Config) (events : List Event)
      → result_of (main_joins config events).automations ≡ automations_verdict config events
  unfolding main_joins begin_joins
  automations-verdict config events =
      ap result_of (automations_lem _ events)
      ∙ run_ends-verdict (length (spawn_automations config.automations)) (automation_ends events)
      ∙ ap (λ n. verdict n (automation_ends events)) (automations_of_lem config.automations)

  main_joins-IsSound : (config : Config) (events : List Event) → IsSound (main_joins config events)
  unfolding main_joins
  main_joins-IsSound config events = run_events-IsSound _ events (begin_joins-IsSound _ _)

  -- Whatever the order of events, `main` has returned success only if every configured server and
  -- automation has ended without an error, and an error only if it is the first of the servers or
  -- the first of the automations. Once it has then joined both functions, as far as they have
  -- returned, it has returned an error if either of them has one, success if both have ended so, and
  -- has not returned otherwise.
  pub main_joins-returns :
      (config : Config) (events : List Event)
      → IsFrom
          (servers_verdict config events)
          (automations_verdict config events)
          (result_of (main_joins config events).main)
        × IsByBoth (servers_verdict config events) (automations_verdict config events) (
            result_of
              (main_joins config (events ++ (servers_return ∷ automations_return ∷ []))).main)
  unfolding main_joins
  main_joins-returns config events =
      let h = main_joins-IsSound config events in
      let joins = main_joins config events in
      rw (← servers-verdict config events, ← automations-verdict config events)
        (
          Fits-IsFrom joins.servers_told joins.automations_told joins.servers joins.automations
              joins.main h.servers h.automations h.main,
          rw (after_all _ events) (caught_up joins h),
        )
