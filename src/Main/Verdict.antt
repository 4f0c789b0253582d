-- ===== src/Main/Verdict.antt =====
-- What the servers and the automations that src/main.rs spawns have come to, by their ends.
use devicectrl_server.Prelude.{
  ℕ, zero, suc, ◌≡◌, ◌⊎◌, Option, none, some, List, [], ◌∷◌, Result, ok, err, Error, library,
}
use devicectrl_server.Main.Tasks.{End, finished, panicked, Event, server_end, automation_end}

abbrev pub error_of : End → Option Error
error_of (finished (ok _)) = none
error_of (finished (err x)) = some x
error_of panicked = some (library "task panicked")

abbrev pub or_error : Option Error → Option (Result (Unit {0})) → Option (Result (Unit {0}))
or_error none verdict = verdict
or_error (some x) verdict = some (err x)

-- What so many tasks have come to with the given ends: the first error, or success once all of them
-- have ended without one. An end of a task of which none is left cannot come about.
abbrev pub verdict : ℕ → List End → Option (Result (Unit {0}))
verdict zero ends = some (ok tt)
verdict (suc n) [] = none
verdict (suc n) (end ∷ ends) = or_error (error_of end) (verdict n ends)

abbrev pub server_ends : List Event → List End
server_ends [] = []
server_ends (server_end end ∷ events) = end ∷ server_ends events
server_ends (_ ∷ events) = server_ends events

abbrev pub automation_ends : List Event → List End
automation_ends [] = []
automation_ends (automation_end end ∷ events) = end ∷ automation_ends events
automation_ends (_ ∷ events) = automation_ends events

abbrev pub one_if {ℓ} : {A : Type ℓ} → Option A → ℕ
one_if none = 0
one_if (some x) = 1

-- What has come to an end by a result is what the verdicts say: success where both are success, and
-- an error where either is that error.
abbrev pub IsFrom : (servers automations main : Option (Result (Unit {0}))) → Type 0
IsFrom servers automations none = Unit
IsFrom servers automations (some (ok _)) = (servers ≡ some (ok tt)) × (automations ≡ some (ok tt))
IsFrom servers automations (some (err x)) = (servers ≡ some (err x)) ⊎ (automations ≡ some (err x))

-- The result by both verdicts: an error of either, success where both are success, else none.
abbrev pub IsByBoth : (servers automations main : Option (Result (Unit {0}))) → Type 0
IsByBoth (some (err x)) (some (err y)) main = (main ≡ some (err x)) ⊎ (main ≡ some (err y))
IsByBoth (some (err x)) _ main = main ≡ some (err x)
IsByBoth (some (ok _)) automations main = main ≡ automations
IsByBoth none (some (err y)) main = main ≡ some (err y)
IsByBoth none _ main = main ≡ none
