-- ===== src/App/Emits/Rules.antt =====
-- Which effects an action over the state of src/main.rs adds: one rule for each way to build an
-- action.
use devicectrl_server.Prelude.{
  ℕ, String, ◌≡◌, refl, Bool, true, Option, none, some, [], ◌∷◌, Result, ok, err, Error,
}
use devicectrl_server.Deps.{Deps, Bytes}
use devicectrl_server.App.{
  Env, AppState, Action, Effect, UdpSocket, pure, bail, lift, within, perform, receive_within,
  sleep_for, find_device, rescue, or_else, ◌>>=◌, continue, tick, received, receive_udp, sleep,
}
use devicectrl_server.App.Emits.{SameState, Emits, SameState-refl, SameState-trans}

module _ ⦃d : Deps⦄ {A : Type 0} {kind : Effect → Bool} where
  pub Emits-pure : (a : A) → Emits kind (pure a)
  unfolding pure
  Emits-pure a = record { at = λ s. SameState-refl kind s }

  pub Emits-bail : (m : String) → Emits kind (bail {A = A} m)
  unfolding bail
  Emits-bail m = record { at = λ s. SameState-refl kind s }

  pub Emits-lift : (r : Result A) → Emits kind (lift r)
  unfolding lift
  Emits-lift r = record { at = λ s. SameState-refl kind s }

  pub Emits-within :
      (m : String) (action : Action A) → Emits kind action → Emits kind (within m action)
  unfolding within
  Emits-within m action h = record { at = h.at }

module _ ⦃d : Deps⦄ {A B : Type 0} {kind : Effect → Bool} where
  pub Emits-bind :
      (m : Action A) (f : A → Action B)
      → Emits kind m
      → ((a : A) → Emits kind (f a))
      → Emits kind (m >>= f)
  unfolding ◌>>=◌
  Emits-bind m f hm hf = record { at = λ s. step (m s).0 (m s).1 s (hm.at s) }
    where
      step :
          (r : Result A) (t s : AppState) → SameState kind s t → SameState kind s (continue r f t).1
      step (ok a) t s h = SameState-trans h ((hf a).at t)
      step (err x) t s h = h

module _ ⦃d : Deps⦄ {kind : Effect → Bool} where
  pub Emits-or_else :
      (report : Error → Action (Unit {0})) (m : Action (Unit {0}))
      → Emits kind m
      → ((x : Error) → Emits kind (report x))
      → Emits kind (or_else report m)
  unfolding or_else
  Emits-or_else report m hm hr = record { at = λ s. step (m s).0 (m s).1 s (hm.at s) }
    where
      step :
          (r : Result (Unit {0})) (t s : AppState)
          → SameState kind s t
          → SameState kind s (rescue r report t).1
      step (ok a) t s h = h
      step (err x) t s h = SameState-trans h ((hr x).at t)

module _ ⦃d : Deps⦄ ⦃e : Env⦄ {kind : Effect → Bool} where
  pub Emits-perform : (effect : Effect) → kind effect ≡ true → Emits kind (perform effect)
  unfolding perform
  Emits-perform effect h = record { at = λ s. ticked (e.attempt s.clock effect) s }
    where
      ticked : (r : Result (Unit {0})) (s : AppState) → SameState kind s (tick r effect s)
      ticked (ok _) s = record {
        config = refl;
        devices = refl;
        controllers = refl;
        fresh = effect ∷ [];
        fresh_kind = (h, tt);
        trace = refl;
      }
      ticked (err x) s = record {
        config = refl;
        devices = refl;
        controllers = refl;
        fresh = [];
        fresh_kind = tt;
        trace = refl;
      }

  pub Emits-receive_within :
      (limit : ℕ) (socket : UdpSocket)
      → ((bytes : Bytes) → kind (receive_udp socket bytes) ≡ true)
      → Emits kind (receive_within limit socket)
  unfolding receive_within
  Emits-receive_within limit socket h = record {
    at = λ s. heard (e.receive s.clock socket limit) s;
  }
    where
      heard : (r : Option (Result Bytes)) (s : AppState) → SameState kind s (received socket r s).1
      heard none s = record {
        config = refl;
        devices = refl;
        controllers = refl;
        fresh = [];
        fresh_kind = tt;
        trace = refl;
      }
      heard (some (err x)) s = record {
        config = refl;
        devices = refl;
        controllers = refl;
        fresh = [];
        fresh_kind = tt;
        trace = refl;
      }
      heard (some (ok bytes)) s = record {
        config = refl;
        devices = refl;
        controllers = refl;
        fresh = receive_udp socket bytes ∷ [];
        fresh_kind = (h bytes, tt);
        trace = refl;
      }

module _ ⦃d : Deps⦄ {kind : Effect → Bool} where
  pub Emits-sleep_for : (n : ℕ) → kind (sleep n) ≡ true → Emits kind (sleep_for n)
  unfolding sleep_for
  Emits-sleep_for n h = record {
    at = λ s. record {
      config = refl;
      devices = refl;
      controllers = refl;
      fresh = sleep n ∷ [];
      fresh_kind = (h, tt);
      trace = refl;
    };
  }

  pub Emits-find_device : (id : ℕ) (m : String) → Emits kind (find_device id m)
  unfolding find_device
  Emits-find_device id m = record { at = λ s. SameState-refl kind s }

pub ruleset emits_rules = (
  Emits-pure, Emits-bail, Emits-lift, Emits-within, Emits-bind, Emits-perform, Emits-receive_within,
  Emits-sleep_for, Emits-find_device, refl,
)
