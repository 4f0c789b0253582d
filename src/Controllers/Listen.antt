-- ===== src/Controllers/Listen.antt =====
-- `start_listening` of src/devices/controllers/mod.rs, which spawns the listener of each controller
-- that is enabled, and the loop by which those of src/devices/controllers/simple.rs and
-- src/devices/controllers/krypton.rs accept connections.
use devicectrl_server.Prelude.{
  ◌≡◌, refl, Option, none, some, List, [], ◌∷◌, ◌++◌, map, Result, ok, err, Error,
}
use devicectrl_server.Deps.{Deps}
use devicectrl_server.App.{Controllers}

pub data Listener : Type 0 where
  simple krypton tplink govee : Listener

-- one field of the macro
abbrev pub listen_if {ℓ} : {C : Type ℓ} → Option C → Listener → List Listener
listen_if none listener = []
listen_if (some controller) listener = listener ∷ []

module _ ⦃d : Deps⦄ where
  unfoldable pub start_listening : Controllers → List Listener
  start_listening controllers =
      listen_if controllers.simple simple
      ++ listen_if controllers.krypton krypton
      ++ listen_if controllers.tplink tplink
      ++ listen_if controllers.govee govee

-- The loop over what `accept` yields: each socket is handled by a task of its own, and an error ends
-- the listener. The tasks that were spawned, and the error.
pub record Accepted {ℓ} (T : Type ℓ) : Type ℓ where
  pub spawned : List T
  pub ended : Option Error

module _ {ℓ κ} {A : Type ℓ} {T : Type κ} (handle : A → T) where
  unfoldable pub accept_loop : List (Result A) → Accepted T
  accept_loop [] = record { spawned = []; ended = none }
  accept_loop (ok socket ∷ sockets) =
      let rest = accept_loop sockets in record rest { spawned = handle socket ∷ rest.spawned }
  accept_loop (err x ∷ sockets) = record { spawned = []; ended = some x }

  -- While sockets are accepted, each has its task; the first error ends the loop, whatever would
  -- come after it.
  pub accept_loop-accepted :
      (sockets : List A) (x : Error) (rest : List (Result A))
      → (accept_loop (map (λ socket. ok socket) sockets)
          ≡ record { spawned = map handle sockets; ended = none })
        × (accept_loop (map (λ socket. ok socket) sockets ++ err x ∷ rest)
            ≡ record { spawned = map handle sockets; ended = some x })
  unfolding accept_loop
  accept_loop-accepted [] x rest = (refl, refl)
  accept_loop-accepted (socket ∷ sockets) x rest =
      let (going, over) = accept_loop-accepted sockets x rest in (rw going refl, rw over refl)
