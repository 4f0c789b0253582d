-- ===== src/Main/Serves.antt =====
-- The server from its configuration on: what it starts as, and what it can ever come to.
use devicectrl_server.Prelude.{
  ℕ, ◌≡◌, refl, ◌∙◌, ap, Option, none, some, List, [], Result, ok, err, library, get, Option-cases,
  inl, inr,
}
use mathlib.Core.Option
use devicectrl_server.Deps.{Deps}
use devicectrl_server.Common.{DeviceState}
use devicectrl_server.Config.{Config, DeviceConfig}
use devicectrl_server.Devices.{Device, Devices, load_devices, new_device}
use devicectrl_server.Devices.Registry.{IsKeyed, last_entry, device_of, load_devices_lem}
use devicectrl_server.App.{Env, AppState, Hook, Controllers, HooksAreOpen}
use devicectrl_server.App.Hooks.{hooks_sent, hooks_sent-command}
use devicectrl_server.Clients.Messages.{SocketCodec, HttpCodec}
use devicectrl_server.Controllers.Made.{configured, Emits-new_controllers, new_controllers_inv}
use devicectrl_server.Controllers.New.{new_controllers}
use devicectrl_server.Krypton.Codec.{KryptonCodec}
use devicectrl_server.Main.{fresh_state, with_controllers, start}
use devicectrl_server.System.{Reach}
use devicectrl_server.System.History.{latest, informed, Reach-IsInformed}
use devicectrl_server.System.Sound.{Reach-IsSound}
use devicectrl_server.Tasks.Join.{Scheduler}

module _ ⦃d : Deps⦄ ⦃e : Env⦄ where
  with_controllers_inv :
      (o : Result Controllers × AppState) {s : AppState}
      → with_controllers o ≡ ok s
      → (controllers : Controllers) × (o.0 ≡ ok controllers)
        × (s ≡ record o.1 { controllers = controllers })
  with_controllers_inv (ok controllers, t) h = (controllers, refl, cc)
  with_controllers_inv (err x, t) h = cc

  -- a start that succeeds, by what it was made from
  start_inv :
      (config : Config) {s : AppState}
      → start config ≡ ok s
      → (devices : Devices) × (controllers : Controllers) × (load_devices config.devices
          ≡ some devices)
        × ((new_controllers config.controllers (fresh_state config devices)).0 ≡ ok controllers)
        × (s ≡ record ((new_controllers config.controllers (fresh_state config devices)).1) {
          controllers = controllers;
        })
  unfolding start
  start_inv config {s} h = elim (Option-cases (load_devices config.devices)) [
    | inl too_long ↦
        let failed : err (library "insufficient capacity") ≡ ok s = rw too_long at h in cc
    | inr (devices, loaded) ↦
        let made : with_controllers
              (new_controllers config.controllers (fresh_state config devices))
            ≡ ok s =
          rw loaded at h in
        let (controllers, good, same) = with_controllers_inv _ made in
        (devices, controllers, loaded, good, same)
  ]

  -- how a server starts
  pub record IsFresh (config : Config) (s : AppState) : Type 0 where
    pub keyed : IsKeyed s.devices
    pub same_config : s.config ≡ config
    pub controllers : s.controllers ≡ configured config.controllers
    pub unreported : hooks_sent s.trace ≡ []
    pub loaded : (id : ℕ) → get id s.devices ≡ device_of id (last_entry id config.devices) none

  pub start-IsFresh : (config : Config) {s : AppState} → start config ≡ ok s → IsFresh config s
  start-IsFresh config {s} h =
      let (devices, controllers, loading, making, same) = start_inv config h in
      let fresh = fresh_state config devices in
      let made = (Emits-new_controllers config.controllers).at fresh in
      let (keyed, loaded) = load_devices_lem config.devices loading in
      let t = (new_controllers config.controllers fresh).1 in
      rw same (record {
        keyed = rw made.devices keyed;
        same_config = made.config;
        controllers = new_controllers_inv config.controllers fresh t (λ i. (making i, t));
        unreported = ap hooks_sent made.trace ∙ hooks_sent-command made.fresh [] made.fresh_kind;
        loaded = λ id. rw made.devices (loaded id);
      })

module _ ⦃d : Deps⦄ ⦃e : Env⦄ where
  -- a device of the configuration, in the state that the hooks report for it
  abbrev pub device_in : ℕ → List Hook → DeviceConfig → Device
  device_in id hooks entry = record {
    id = id;
    device_type = entry.device_type;
    state = latest id hooks DeviceState.unknown;
    controller = entry.controller;
  }

  -- `t` is a state of a server with that configuration.
  pub record IsServing (config : Config) (t : AppState) : Type 0 where
    pub keyed : IsKeyed t.devices
    pub same_config : t.config ≡ config
    pub controllers : t.controllers ≡ configured config.controllers
    pub devices :
        (id : ℕ)
        → get id t.devices
          ≡ Option.map (device_in id (hooks_sent t.trace)) (last_entry id config.devices)

  pub informed_device :
      (id : ℕ) (hooks : List Hook) (entry : Option DeviceConfig)
      → Option.map (informed id hooks) (device_of id entry none)
        ≡ Option.map (device_in id hooks) entry
  unfolding new_device
  informed_device id hooks none = refl
  informed_device id hooks (some entry) = refl

module _ ⦃d : Deps⦄ ⦃e : Env⦄ ⦃c : Scheduler⦄ ⦃p : SocketCodec⦄ ⦃h : HttpCodec⦄
    ⦃k : KryptonCodec⦄ where
  -- With the hooks open, a server that has started from a configuration, whatever its clients, its
  -- devices and its own tasks do, one handler after the other in any order, has the controllers
  -- that are configured and a well-formed registry, which holds for each identifier the last configuration entry for it, in
  -- the state that the latest hook for that device reports (unknown where there is none), and
  -- nothing where there is no such entry.
  pub start-IsServing :
      (config : Config) {s t : AppState}
      → start config ≡ ok s
      → HooksAreOpen e
      → Reach s t
      → IsServing config t
  start-IsServing config {s} {t} started open_hooks reach =
      let fresh = start-IsFresh config started in
      let sound = Reach-IsSound fresh.keyed reach in
      let hooks = hooks_sent t.trace in
      record {
        keyed = sound.keyed;
        same_config = sound.config ∙ fresh.same_config;
        controllers = sound.controllers ∙ fresh.controllers;
        devices = λ id.
            Reach-IsInformed open_hooks fresh.unreported reach id
            ∙ ap (Option.map (informed id hooks)) (fresh.loaded id)
            ∙ informed_device id hooks (last_entry id config.devices);
      }
