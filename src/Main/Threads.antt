-- ===== src/Main/Threads.antt =====
-- The server from its configuration on, with all of its tasks at once: what holds between any two
-- of their turns.
use devicectrl_server.Prelude.{
  ℕ, ◌≡◌, refl, ◌∙◌, ap, ◌⊎◌, inl, inr, String, Option, none, some, ok, get,
}
use mathlib.Core.Option
use devicectrl_server.Deps.{Deps}
use devicectrl_server.Common.{UpdateNotification}
use devicectrl_server.Config.{Config, DeviceConfig}
use devicectrl_server.Devices.{Device, new_device}
use devicectrl_server.Devices.Registry.{IsKeyed, last_entry, device_of}
use devicectrl_server.App.{Env, AppState, HooksAreOpen}
use devicectrl_server.App.Hooks.{hooks_sent}
use devicectrl_server.Automations.Dependencies.Channel.{Broadcast}
use devicectrl_server.Automations.Sunset.Evening.{Sun}
use devicectrl_server.Clients.Messages.{SocketCodec, HttpCodec}
use devicectrl_server.Controllers.Made.{configured}
use devicectrl_server.Dispatch.Notification.{set_state}
use devicectrl_server.Krypton.Codec.{KryptonCodec}
use devicectrl_server.Main.{start}
use devicectrl_server.Main.Serves.{IsFresh, start-IsFresh, device_in, informed_device}
use devicectrl_server.System.History.{informed, IsInformedOf}
use devicectrl_server.System.Threads.{Pool, Reach}
use devicectrl_server.System.Threads.Reporting.{Standing, over, writing, telling, telling_task}
use devicectrl_server.System.Threads.Serving.{Reach-IsInOrder}
use devicectrl_server.Tasks.Join.{Scheduler}

module _ ⦃d : Deps⦄ ⦃e : Env⦄ where
  -- a device of the configuration, in the state that a notification reports
  abbrev pub device_with : ℕ → UpdateNotification → DeviceConfig → Device
  device_with id n entry = record {
    id = id;
    device_type = entry.device_type;
    state = n.new_state;
    controller = entry.controller;
  }

  -- the registry says of a device what the hooks say
  abbrev pub SaysWhatHooksSay : Config → ℕ → AppState → Type 0
  SaysWhatHooksSay config id s =
      get id s.devices
      ≡ Option.map (device_in id (hooks_sent s.trace)) (last_entry id config.devices)

  -- A report of the device is written and about to be told: the registry has the state it reports.
  pub record IsAhead (config : Config) (id : ℕ) (pool : Pool) : Type 0 where
    pub context : String
    pub reports : UpdateNotification
    pub named : reports.device_id ≡ id
    pub untold : pool.reports id ≡ telling_task context reports
    pub device :
        get id pool.state.devices
        ≡ Option.map (device_with id reports) (last_entry id config.devices)

  -- `pool` is what the tasks of a server with that configuration have come to.
  pub record IsAtWork (config : Config) (pool : Pool) : Type 0 where
    pub keyed : IsKeyed pool.state.devices
    pub same_config : pool.state.config ≡ config
    pub controllers : pool.state.controllers ≡ configured config.controllers
    pub devices : (id : ℕ) → SaysWhatHooksSay config id pool.state ⊎ IsAhead config id pool

  pub ahead_device :
      (id : ℕ) (n : UpdateNotification) (entry : Option DeviceConfig)
      → Option.map (set_state n) (device_of id entry none) ≡ Option.map (device_with id n) entry
  unfolding new_device
  ahead_device id n none = refl
  ahead_device id n (some entry) = refl

  says :
      (config : Config) (id : ℕ) (s t : AppState)
      → IsFresh config s
      → IsInformedOf id s t
      → SaysWhatHooksSay config id t
  says config id s t fresh told =
      let hooks = hooks_sent t.trace in
      told
      ∙ ap (Option.map (informed id hooks)) (fresh.loaded id)
      ∙ informed_device id hooks (last_entry id config.devices)

  stands :
      (config : Config) (id : ℕ) (s : AppState) (pool : Pool)
      → IsFresh config s
      → Standing s id (pool.reports id) pool.state
      → SaysWhatHooksSay config id pool.state ⊎ IsAhead config id pool
  stands config id s pool fresh (over r shape told) = inl (says config id s pool.state fresh told)
  stands config id s pool fresh (writing m n named shape told) =
      inl (says config id s pool.state fresh told)
  stands config id s pool fresh (telling m n named shape written) = inr (record {
    context = m;
    reports = n;
    named = named;
    untold = shape;
    device =
        written
        ∙ ap (Option.map (set_state n)) (fresh.loaded id)
        ∙ ahead_device id n (last_entry id config.devices);
  })

module _ ⦃d : Deps⦄ ⦃e : Env⦄ ⦃c : Scheduler⦄ ⦃p : SocketCodec⦄ ⦃h : HttpCodec⦄ ⦃k : KryptonCodec⦄
    ⦃b : Broadcast⦄ ⦃u : Sun⦄ where
  -- With the hooks open, a server that has started from a configuration is in order between any two
  -- turns of its tasks, whatever their order, as long as a device has one report under way at a
  -- time: it has the controllers that are configured and a well-formed registry, which holds for
  -- each identifier the last configuration entry for it, and nothing where there is none; the state
  -- is that which the latest hook for the device reports (unknown where there is none), but where a
  -- report of it is written and about to be told, which is then the state that it reports.
  pub start-IsAtWork :
      (config : Config) {s : AppState} {pool : Pool}
      → start config ≡ ok s
      → HooksAreOpen e
      → Reach s pool
      → IsAtWork config pool
  start-IsAtWork config {s} {pool} started open_hooks reach =
      let fresh = start-IsFresh config started in
      let order = Reach-IsInOrder open_hooks fresh.keyed fresh.unreported reach in
      record {
        keyed = order.keyed;
        same_config = order.config ∙ fresh.same_config;
        controllers = order.controllers ∙ fresh.controllers;
        devices = λ id. stands config id s pool fresh (order.standing id);
      }
