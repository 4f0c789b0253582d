-- ===== src/App/Emits.antt =====
-- Actions that leave the registry and the configuration alone and only add effects of a given kind
-- to the trace.
pub mod Rules
use mathlib.Core.List.{append_assoc}
use devicectrl_server.Prelude.{◌≡◌, refl, ◌∙◌, Bool, true, false, List, [], ◌∷◌, ◌++◌}
use devicectrl_server.Deps.{Deps}
use devicectrl_server.App.{
  AppState, Action, Effect, send_hook, send_client, send_pong, device_state_update,
  device_update_dispatch, scene_activate,
}

module _ ⦃d : Deps⦄ where
  -- what a controller does: anything but a hook and a frame to a client
  abbrev pub is_command : Effect → Bool
  is_command (send_hook h) = false
  is_command (send_client transport m frame) = false
  is_command send_pong = false
  is_command _ = true

  -- anything but a hook for the state of a device
  abbrev pub is_unreported : Effect → Bool
  is_unreported (send_hook (device_state_update n)) = false
  is_unreported _ = true

  -- anything but such a hook and a frame to a client
  abbrev pub is_internal : Effect → Bool
  is_internal (send_hook (device_state_update n)) = false
  is_internal (send_client transport m frame) = false
  is_internal send_pong = false
  is_internal _ = true

  abbrev pub AllAre : (Effect → Bool) → List Effect → Type 0
  AllAre kind [] = Unit
  AllAre kind (effect ∷ effects) = (kind effect ≡ true) × AllAre kind effects

  AllAre-append :
      (kind : Effect → Bool) (xs ys : List Effect)
      → AllAre kind xs
      → AllAre kind ys
      → AllAre kind (xs ++ ys)
  AllAre-append kind [] ys h k = k
  AllAre-append kind (x ∷ xs) ys h k = (h.0, AllAre-append kind xs ys h.1 k)

  -- `t` differs from `s` in the clock, and in effects of that kind that were added to the trace
  pub record SameState (kind : Effect → Bool) (s t : AppState) : Type 0 where
    pub config : t.config ≡ s.config
    pub devices : t.devices ≡ s.devices
    pub controllers : t.controllers ≡ s.controllers
    pub fresh : List Effect
    pub fresh_kind : AllAre kind fresh
    pub trace : t.trace ≡ fresh ++ s.trace

  -- whether it succeeds or fails
  pub record Emits {A : Type 0} (kind : Effect → Bool) (m : Action A) : Type 0 where
    pub at : (s : AppState) → SameState kind s (m s).1

  pub SameState-refl : (kind : Effect → Bool) (s : AppState) → SameState kind s s
  SameState-refl kind s = record {
    config = refl;
    devices = refl;
    controllers = refl;
    fresh = [];
    fresh_kind = tt;
    trace = refl;
  }

  pub SameState-trans :
      {kind : Effect → Bool} {s t u : AppState}
      → SameState kind s t
      → SameState kind t u
      → SameState kind s u
  SameState-trans {kind} {s} p q = record {
    config = q.config ∙ p.config;
    devices = q.devices ∙ p.devices;
    controllers = q.controllers ∙ p.controllers;
    fresh = q.fresh ++ p.fresh;
    fresh_kind = AllAre-append kind q.fresh p.fresh q.fresh_kind p.fresh_kind;
    trace = rw (q.trace, p.trace, append_assoc q.fresh p.fresh s.trace);
  }

  -- Every effect of the one kind is of the other.
  abbrev pub Implies : (kind wider : Effect → Bool) → Type 0
  Implies kind wider = (effect : Effect) → kind effect ≡ true → wider effect ≡ true

  pub is_command-Implies : Implies is_command is_internal
  is_command-Implies (send_hook h) k = cc
  is_command-Implies (send_client transport m frame) k = k
  is_command-Implies send_pong k = k
  is_command-Implies _ k = refl

  pub is_internal-Implies : Implies is_internal is_unreported
  is_internal-Implies (send_hook (device_state_update n)) k = k
  is_internal-Implies (send_hook (device_update_dispatch r)) k = refl
  is_internal-Implies (send_hook (scene_activate id)) k = refl
  is_internal-Implies _ k = refl

  AllAre-wider :
      {kind wider : Effect → Bool}
      → Implies kind wider
      → (xs : List Effect) → AllAre kind xs
      → AllAre wider xs
  AllAre-wider i [] h = tt
  AllAre-wider i (x ∷ xs) h = (i x h.0, AllAre-wider i xs h.1)

  pub SameState-wider :
      {kind wider : Effect → Bool} {s t : AppState}
      → Implies kind wider
      → SameState kind s t
      → SameState wider s t
  SameState-wider i p = record {
    config = p.config;
    devices = p.devices;
    controllers = p.controllers;
    fresh = p.fresh;
    fresh_kind = AllAre-wider i p.fresh p.fresh_kind;
    trace = p.trace;
  }

  pub Emits-wider :
      {A : Type 0} {kind wider : Effect → Bool} (m : Action A)
      → Implies kind wider
      → Emits kind m
      → Emits wider m
  Emits-wider m i h = record { at = λ s. SameState-wider i (h.at s) }
