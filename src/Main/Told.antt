-- ===== src/Main/Told.antt =====
-- Where the join of src/main.rs stands, by what the joins that it waits for have come to.
use devicectrl_server.Prelude.{
  ℕ, ◌≡◌, refl, ap, sym, ◌⊎◌, inl, inr, Option, none, some, List, [], ◌∷◌, Result, ok, err, Error,
}
use devicectrl_server.Main.Tasks.{
  End, Join, joining, joined, join_next, Event, server_end, automation_end, servers_return,
  automations_return, result_of, Joins, told, returned, on_event, begin_joins, run_events,
}
use devicectrl_server.Main.Verdict.{IsFrom, IsByBoth}

-- where the join of `main` stands, by what it has been told
abbrev pub Fits : (servers automations : Option (Result (Unit {0}))) → Join → Type 0
Fits none none main = main ≡ joining 2
Fits none (some (ok _)) main = main ≡ joining 1
Fits none (some (err y)) main = main ≡ joined (err y)
Fits (some (ok _)) none main = main ≡ joining 1
Fits (some (ok _)) (some (ok _)) main = main ≡ joined (ok tt)
Fits (some (ok _)) (some (err y)) main = main ≡ joined (err y)
Fits (some (err x)) (some (err y)) main = (main ≡ joined (err x)) ⊎ (main ≡ joined (err y))
Fits (some (err x)) _ main = main ≡ joined (err x)

either_joined :
    (main : Join) {x y : Error}
    → (main ≡ joined (err x)) ⊎ (main ≡ joined (err y))
    → (result_of main ≡ some (err x)) ⊎ (result_of main ≡ some (err y))
either_joined main (inl h) = inl (ap result_of h)
either_joined main (inr h) = inr (ap result_of h)

pub Fits-IsByBoth :
    (servers automations : Option (Result (Unit {0}))) (main : Join)
    → Fits servers automations main
    → IsByBoth servers automations (result_of main)
Fits-IsByBoth none none main h = ap result_of h
Fits-IsByBoth none (some (ok _)) main h = ap result_of h
Fits-IsByBoth none (some (err y)) main h = ap result_of h
Fits-IsByBoth (some (ok _)) none main h = ap result_of h
Fits-IsByBoth (some (ok _)) (some (ok _)) main h = ap result_of h
Fits-IsByBoth (some (ok _)) (some (err y)) main h = ap result_of h
Fits-IsByBoth (some (err x)) none main h = ap result_of h
Fits-IsByBoth (some (err x)) (some (ok _)) main h = ap result_of h
Fits-IsByBoth (some (err x)) (some (err y)) main h = either_joined main h

-- what has been told is what the join has come to
abbrev pub IsTold : Option (Result (Unit {0})) → Join → Type 0
IsTold none join = Unit
IsTold (some r) join = join ≡ joined r

first_error :
    (servers automations main : Join) {x : Error}
    → servers ≡ joined (err x)
    → main ≡ joined (err x)
    → IsFrom (result_of servers) (result_of automations) (result_of main)
first_error servers automations main s m = rw m (inl (ap result_of s))

second_error :
    (servers automations main : Join) {y : Error}
    → automations ≡ joined (err y)
    → main ≡ joined (err y)
    → IsFrom (result_of servers) (result_of automations) (result_of main)
second_error servers automations main a m = rw m (inr (ap result_of a))

pub Fits-IsFrom :
    (s a : Option (Result (Unit {0}))) (servers automations main : Join)
    → IsTold s servers
    → IsTold a automations
    → Fits s a main
    → IsFrom (result_of servers) (result_of automations) (result_of main)
Fits-IsFrom none none servers automations main p q h = rw h tt
Fits-IsFrom none (some (ok _)) servers automations main p q h = rw h tt
Fits-IsFrom none (some (err y)) servers automations main p q h =
    second_error servers automations main q h
Fits-IsFrom (some (ok _)) none servers automations main p q h = rw h tt
Fits-IsFrom (some (ok _)) (some (ok _)) servers automations main p q h =
    rw h (ap result_of p, ap result_of q)
Fits-IsFrom (some (ok _)) (some (err y)) servers automations main p q h =
    second_error servers automations main q h
Fits-IsFrom (some (err x)) none servers automations main p q h =
    first_error servers automations main p h
Fits-IsFrom (some (err x)) (some (ok _)) servers automations main p q h =
    first_error servers automations main p h
Fits-IsFrom (some (err x)) (some (err y)) servers automations main p q (inl h) =
    first_error servers automations main p h
Fits-IsFrom (some (err x)) (some (err y)) servers automations main p q (inr h) =
    second_error servers automations main q h

Fits-swap : (s a : Option (Result (Unit {0}))) (main : Join) → Fits s a main → Fits a s main
Fits-swap none none main h = h
Fits-swap none (some (ok _)) main h = h
Fits-swap none (some (err y)) main h = h
Fits-swap (some (ok _)) none main h = h
Fits-swap (some (ok _)) (some (ok _)) main h = h
Fits-swap (some (ok _)) (some (err y)) main h = h
Fits-swap (some (err x)) none main h = h
Fits-swap (some (err x)) (some (ok _)) main h = h
Fits-swap (some (err x)) (some (err y)) main (inl h) = inr h
Fits-swap (some (err x)) (some (err y)) main (inr h) = inl h

Fits-returned :
    (s a : Option (Result (Unit {0}))) (join main : Join)
    → Fits s a main
    → Fits (told s join) a (returned s join main)
unfolding join_next
Fits-returned (some r) a join main h = h
Fits-returned none a (joining left) main h = h
Fits-returned none none (joined (ok _)) main h = rw h refl
Fits-returned none (some (ok _)) (joined (ok _)) main h = rw h refl
Fits-returned none (some (err y)) (joined (ok _)) main h = rw h refl
Fits-returned none none (joined (err x)) main h = rw h refl
Fits-returned none (some (ok _)) (joined (err x)) main h = rw h refl
Fits-returned none (some (err y)) (joined (err x)) main h = rw h (inr refl)

IsTold-told :
    (o : Option (Result (Unit {0}))) (join : Join) → IsTold o join → IsTold (told o join) join
IsTold-told (some r) join h = h
IsTold-told none (joining left) h = tt
IsTold-told none (joined r) h = refl

IsTold-next :
    (o : Option (Result (Unit {0}))) (join : Join) (end : End)
    → IsTold o join
    → IsTold o (join_next join end)
unfolding join_next
IsTold-next none join end h = tt
IsTold-next (some r) join end h = rw h refl

pub told-result :
    (o : Option (Result (Unit {0}))) (join : Join) → IsTold o join → told o join ≡ result_of join
told-result none join h = refl
told-result (some r) join h = sym (ap result_of h)

pub record IsSound (joins : Joins) : Type 0 where
  pub servers : IsTold joins.servers_told joins.servers
  pub automations : IsTold joins.automations_told joins.automations
  pub main : Fits joins.servers_told joins.automations_told joins.main

pub on_event-IsSound :
    (joins : Joins) (event : Event) → IsSound joins → IsSound (on_event joins event)
unfolding on_event
on_event-IsSound joins (server_end end) h = record {
  servers = IsTold-next joins.servers_told joins.servers end h.servers;
  automations = h.automations;
  main = h.main;
}
on_event-IsSound joins (automation_end end) h = record {
  servers = h.servers;
  automations = IsTold-next joins.automations_told joins.automations end h.automations;
  main = h.main;
}
on_event-IsSound joins servers_return h = record {
  servers = IsTold-told joins.servers_told joins.servers h.servers;
  automations = h.automations;
  main = Fits-returned joins.servers_told joins.automations_told joins.servers joins.main h.main;
}
on_event-IsSound joins automations_return h = record {
  servers = h.servers;
  automations = IsTold-told joins.automations_told joins.automations h.automations;
  main = Fits-swap (told joins.automations_told joins.automations) joins.servers_told _ (
      Fits-returned joins.automations_told joins.servers_told joins.automations joins.main
        (Fits-swap joins.servers_told joins.automations_told joins.main h.main));
}

pub run_events-IsSound :
    (joins : Joins) (events : List Event) → IsSound joins → IsSound (run_events joins events)
unfolding run_events
run_events-IsSound joins [] h = h
run_events-IsSound joins (event ∷ events) h =
    run_events-IsSound (on_event joins event) events (on_event-IsSound joins event h)

pub begin_joins-IsSound : (n m : ℕ) → IsSound (begin_joins n m)
unfolding begin_joins
begin_joins-IsSound n m = record { servers = tt; automations = tt; main = refl }
