-- ===== src/Automations/Dependencies/Channel.antt =====
-- The loop of src/automations/dependencies.rs over the broadcast channel of hooks, in which it also
-- finds the hooks of its own requests.
use devicectrl_server.Prelude.{
  ℕ, zero, suc, ◌+◌, ◌-◌, ◌<◌, ◌≡◌, ◌⊎◌, Option, none, some, List, [], ◌∷◌, Result, ok, err, Error,
  library, length,
}
use devicectrl_server.Deps.{Deps}
use devicectrl_server.Config.{DependencyAutomationConfig}
use devicectrl_server.App.Hooks.{hooks_sent}
use devicectrl_server.App.{Env, AppState, Hook}
use devicectrl_server.Automations.Dependencies.{on_event}

abbrev pub get_elem? {ℓ} : {A : Type ℓ} → List A → ℕ → Option A
get_elem? [] i = none
get_elem? (x ∷ xs) zero = some x
get_elem? (x ∷ xs) (suc i) = get_elem? xs i

module _ ⦃d : Deps⦄ where
  pub data Received : Type 0 where
    waiting : Received
    lagged : Received
    got : Hook → Received

  -- What `receiver.recv()` of tokio's broadcast channel yields to a receiver that has had `n` of the
  -- hooks: it waits where it has had all, and else has the oldest that is unread or, if the channel
  -- has dropped that one, is told that it lags.
  pub record Broadcast : Type 0 where
    pub recv : ℕ → List Hook → Received
    pub recv-read : (n : ℕ) (hooks : List Hook) → length hooks ≡ n → recv n hooks ≡ waiting
    pub recv-unread :
        (n : ℕ) (hooks : List Hook)
        → n < length hooks
        → (h : Hook) × (get_elem? hooks (length hooks - (n + 1)) ≡ some h)
          × ((recv n hooks ≡ lagged) ⊎ (recv n hooks ≡ got h))

  -- how the loop stands: nothing to read, at work, or returned with an error
  pub data Standing : Type 0 where
    idle : Standing
    busy : Standing
    failed : Error → Standing

  pub record Automation : Type 0 where
    pub standing : Standing
    pub read : ℕ
    pub state : AppState

  -- only a loop that is busy takes a further turn
  abbrev pub after_turn : Standing → (rest a : Automation) → Automation
  after_turn busy rest a = rest
  after_turn idle rest a = a
  after_turn (failed x) rest a = a

module _ ⦃d : Deps⦄ ⦃e : Env⦄ ⦃b : Broadcast⦄ (config : DependencyAutomationConfig) where
  unfoldable pub after_event : ℕ → Result (Unit {0}) × AppState → Automation
  after_event n (ok _, s) = record { standing = busy; read = n + 1; state = s }
  after_event n (err x, s) = record { standing = failed x; read = n + 1; state = s }

  unfoldable pub handle_received : ℕ → Received → AppState → Automation
  handle_received n waiting s = record { standing = idle; read = n; state = s }
  handle_received n lagged s = record {
    standing = failed (library "channel lagged");
    read = n;
    state = s;
  }
  handle_received n (got h) s = after_event n (on_event config h s)

  -- one turn of the loop
  unfoldable pub step : ℕ → AppState → Automation
  unfolding handle_received after_event
  step n s = handle_received n (b.recv n (hooks_sent s.trace)) s

  -- the loop for at most `fuel` turns, while no other task sends a hook
  unfoldable pub run : (fuel : ℕ) → ℕ → AppState → Automation
  run zero n s = record { standing = busy; read = n; state = s }
  run (suc fuel) n s =
      let a = step n s in let rest = run fuel a.read a.state in after_turn a.standing rest a
