-- ===== src/Main/Crowd.antt =====
-- The server from its configuration on, with all of its tasks at once and any number of reports of
-- a device under way: what it can ever say of a device.
use mathlib.Core.List.{Memᴰ}
use mathlib.Core.Option
use devicectrl_server.Prelude.{
  ℕ, ◌≡◌, refl, ◌∙◌, ap, ◌⊎◌, inl, inr, Option, none, some, List, [], ◌∷◌, ok, get,
}
use devicectrl_server.Deps.{Deps}
use devicectrl_server.Common.{UpdateNotification}
use devicectrl_server.Config.{Config, DeviceConfig}
use devicectrl_server.Devices.{Device, new_device}
use devicectrl_server.Devices.Registry.{IsKeyed, last_entry, device_of}
use devicectrl_server.App.{Env, AppState, Effect, send_hook}
use devicectrl_server.App.Hooks.{hooks_sent}
use devicectrl_server.Automations.Dependencies.Channel.{Broadcast}
use devicectrl_server.Automations.Sunset.Evening.{Sun}
use devicectrl_server.Clients.Messages.{SocketCodec, HttpCodec}
use devicectrl_server.Controllers.Made.{configured}
use devicectrl_server.Dispatch.Notification.{set_state}
use devicectrl_server.Krypton.Codec.{KryptonCodec}
use devicectrl_server.Main.{start}
use devicectrl_server.Main.Serves.{IsFresh, start-IsFresh, device_in}
use devicectrl_server.Main.Threads.{device_with, ahead_device}
use devicectrl_server.System.Crowd.{Crowd, Reach}
use devicectrl_server.System.Crowd.Grew.{AreHeard, AreHeard-append, IsHeardOf}
use devicectrl_server.System.Crowd.Honest.{Reach-Grew}
use devicectrl_server.Tasks.Join.{Scheduler}

module _ ⦃d : Deps⦄ ⦃e : Env⦄ where
  -- a device of the configuration of which nothing is known
  abbrev pub unknown_device : ℕ → DeviceConfig → Device
  unknown_device id entry = device_in id [] entry

  -- Under an identifier, the registry has the configured device, in the unknown state or in one that
  -- was reported of it, or nothing.
  abbrev pub IsFoundAs : Config → ℕ → Crowd → Type 0
  IsFoundAs config id crowd =
      (get id crowd.state.devices ≡ Option.map (unknown_device id) (last_entry id config.devices))
      ⊎ ((n : UpdateNotification) × Memᴰ n crowd.heard
          × (n.device_id ≡ id)
          × (get id crowd.state.devices
              ≡ Option.map (device_with id n) (last_entry id config.devices)))

  pub record IsHonest (config : Config) (crowd : Crowd) : Type 0 where
    pub keyed : IsKeyed crowd.state.devices
    pub same_config : crowd.state.config ≡ config
    pub controllers : crowd.state.controllers ≡ configured config.controllers
    pub devices : (id : ℕ) → IsFoundAs config id crowd
    pub told : AreHeard crowd.heard crowd.state.trace

  untold :
      (heard : List UpdateNotification) (trace : List Effect)
      → hooks_sent trace ≡ []
      → AreHeard heard trace
  untold heard [] h = tt
  untold heard (send_hook hook ∷ trace) h = cc
  untold heard (_ ∷ trace) h = untold heard trace h

  as_loaded :
      (id : ℕ) (entry : Option DeviceConfig)
      → device_of id entry none ≡ Option.map (unknown_device id) entry
  unfolding new_device
  as_loaded id none = refl
  as_loaded id (some entry) = refl

  found_as :
      (config : Config) (id : ℕ) (s : AppState) (crowd : Crowd)
      → IsFresh config s
      → IsHeardOf crowd.heard id (get id s.devices) (get id crowd.state.devices)
      → IsFoundAs config id crowd
  found_as config id s crowd fresh (inl same) =
      inl (same ∙ fresh.loaded id ∙ as_loaded id (last_entry id config.devices))
  found_as config id s crowd fresh (inr (n, known, named, set)) = inr (
    n,
    known,
    named,
    set
        ∙ ap (Option.map (set_state n)) (fresh.loaded id)
        ∙ ahead_device id n (last_entry id config.devices),
  )

module _ ⦃d : Deps⦄ ⦃e : Env⦄ ⦃c : Scheduler⦄ ⦃p : SocketCodec⦄ ⦃h : HttpCodec⦄ ⦃k : KryptonCodec⦄
    ⦃b : Broadcast⦄ ⦃u : Sun⦄ where
  -- However the tasks of a server that has started from a configuration take their turns, with any
  -- number of reports of a device under way, and whether hooks can be sent or not, it never makes
  -- anything up: its configuration and controllers are as configured, its registry is well formed
  -- and holds for each identifier the last configuration entry for it, in the unknown state or in
  -- one that was reported of that device, and nothing where there is no entry; and every state of a
  -- device that a hook has told was reported of it.
  pub start-IsHonest :
      (config : Config) {s : AppState} {crowd : Crowd}
      → start config ≡ ok s
      → Reach s crowd
      → IsHonest config crowd
  start-IsHonest config {s} {crowd} started reach =
      let fresh = start-IsFresh config started in
      let (grew, tasks) = Reach-Grew reach in
      record {
        keyed = grew.keyed fresh.keyed;
        same_config = grew.config ∙ fresh.same_config;
        controllers = grew.controllers ∙ fresh.controllers;
        devices = λ id. found_as config id s crowd fresh (grew.devices id);
        told = rw grew.trace (
            AreHeard-append crowd.heard grew.fresh s.trace grew.fresh_heard
              (untold crowd.heard s.trace fresh.unreported));
      }
