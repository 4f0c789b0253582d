-- ===== src/Main/Boot/Tasks.antt =====
-- What a server that src/main.rs has started has spawned, by its configuration.
use mathlib.Core.Option
use mathlib.Core.List.{append-nil}
use devicectrl_server.Prelude.{
  ◌≡◌, refl, ◌∙◌, ap, sym, Bool, true, false, filter, [], if◌then◌else◌, Option, none, some, String,
  List, ◌++◌, ◌∷◌, map, ok, with_context_inv, >>=_inv,
}
use devicectrl_server.Deps.{Deps}
use devicectrl_server.Config.{Config, ControllersConfig, ServersConfig, AutomationsConfig}
use devicectrl_server.Config.Load.{Files, load_config}
use devicectrl_server.App.{Env, AppState}
use devicectrl_server.Controllers.Listen.{
  Listener, simple, krypton, tplink, govee, listen_if, start_listening,
}
use devicectrl_server.Controllers.Made.{configured}
use devicectrl_server.Main.{start}
use devicectrl_server.Main.Serves.{start-IsFresh}
use devicectrl_server.Main.Tasks.{
  http, tcp, websocket, sunset_light_temp, dependencies, spawn_if, spawn_servers, spawn_automations,
}
use devicectrl_server.Main.Boot.{Spawned, listener, queries, server, automation, spawn_all, boot}

module _ ⦃d : Deps⦄ where
  -- the listeners of the controllers that a configuration enables
  abbrev pub listeners_of : ControllersConfig → List Listener
  listeners_of config =
      listen_if config.simple simple
      ++ listen_if config.krypton krypton
      ++ listen_if config.tplink tplink
      ++ listen_if config.govee govee

  abbrev pub is_some {ℓ} : {A : Type ℓ} → Option A → Bool
  is_some none = false
  is_some (some x) = true

  -- whether a configuration asks for a task
  abbrev pub is_configured : Config → Spawned → Bool
  is_configured config (listener simple) = is_some config.controllers.simple
  is_configured config (listener krypton) = is_some config.controllers.krypton
  is_configured config (listener tplink) = is_some config.controllers.tplink
  is_configured config (listener govee) = is_some config.controllers.govee
  is_configured config queries = true
  is_configured config (server http) = is_some config.servers.http
  is_configured config (server tcp) = is_some config.servers.tcp
  is_configured config (server websocket) = is_some config.servers.websocket
  is_configured config (automation sunset_light_temp) = is_some config.automations.sunset_light_temp
  is_configured config (automation dependencies) = is_some config.automations.dependencies

  -- all that a server may spawn, in order
  abbrev pub every_task : List Spawned
  every_task =
      listener simple
      ∷ listener krypton
      ∷ listener tplink
      ∷ listener govee
      ∷ queries
      ∷ server http
      ∷ server tcp
      ∷ server websocket
      ∷ automation sunset_light_temp
      ∷ automation dependencies
      ∷ []

  map-append :
      {X : Type 0} (f : X → Spawned) (xs ys : List X) (rest : List Spawned)
      → map f (xs ++ ys) ++ rest ≡ map f xs ++ (map f ys ++ rest)
  map-append f [] ys rest = refl
  map-append f (x ∷ xs) ys rest = ap (λ tasks. f x ∷ tasks) (map-append f xs ys rest)

  -- `task`, where it is configured, and `rest`
  abbrev and_rest : {C : Type 0} → Option C → Spawned → List Spawned → List Spawned
  and_rest o task rest = if is_some o then task ∷ rest else rest

  listened :
      {C : Type 0} (ls : List Listener) (o : Option C) (l : Listener) (rest : List Spawned)
      → map listener (ls ++ listen_if o l) ++ rest ≡ map listener ls ++ and_rest o (listener l) rest
  listened ls none l rest = map-append listener ls [] rest
  listened ls (some c) l rest = map-append listener ls (l ∷ []) rest

  all_listened :
      (config : ControllersConfig) (rest : List Spawned)
      → map listener (listeners_of config) ++ rest
        ≡ and_rest config.simple (listener simple) (
            and_rest config.krypton (listener krypton) (
              and_rest config.tplink
                (listener tplink)
                (and_rest config.govee (listener govee) rest)))
  all_listened config rest =
      let a = listen_if config.simple simple in
      let b = a ++ listen_if config.krypton krypton in
      let c = b ++ listen_if config.tplink tplink in
      listened c config.govee govee rest
      ∙ listened b config.tplink tplink _
      ∙ listened a config.krypton krypton _
      ∙ listened [] config.simple simple _

  spawned_if :
      {C X : Type 0} (f : X → Spawned) (xs : List X) (o : Option C) (x : X) (rest : List Spawned)
      → map f (xs ++ spawn_if o x) ++ rest ≡ map f xs ++ and_rest o (f x) rest
  spawned_if f xs none x rest = map-append f xs [] rest
  spawned_if f xs (some c) x rest = map-append f xs (x ∷ []) rest

  all_served :
      (config : ServersConfig) (rest : List Spawned)
      → map server (spawn_servers config) ++ rest
        ≡ and_rest config.http
            (server http)
            (and_rest config.tcp (server tcp) (and_rest config.websocket (server websocket) rest))
  unfolding spawn_servers
  all_served config rest =
      let a = spawn_if config.http http in
      let b = a ++ spawn_if config.tcp tcp in
      spawned_if server b config.websocket websocket rest
      ∙ spawned_if server a config.tcp tcp _
      ∙ spawned_if server [] config.http http _

  all_automated :
      (config : AutomationsConfig)
      → map automation (spawn_automations config)
        ≡ and_rest config.sunset_light_temp
            (automation sunset_light_temp)
            (and_rest config.dependencies (automation dependencies) [])
  unfolding spawn_automations
  all_automated config =
      let a = spawn_if config.sunset_light_temp sunset_light_temp in
      sym (append-nil _)
      ∙ spawned_if automation a config.dependencies dependencies []
      ∙ spawned_if automation [] config.sunset_light_temp sunset_light_temp _

  tasks_lem :
      (config : Config)
      → map listener (listeners_of config.controllers)
          ++ (queries
              ∷ (map server (spawn_servers config.servers)
                  ++ map automation (spawn_automations config.automations)))
        ≡ filter (is_configured config) every_task
  tasks_lem config = all_listened config.controllers _ ∙ λ i.
      and_rest config.controllers.simple (listener simple) (
        and_rest config.controllers.krypton (listener krypton) (
          and_rest config.controllers.tplink (listener tplink) (
            and_rest config.controllers.govee (listener govee) (
              queries
              ∷ ((ap (λ tasks. map server (spawn_servers config.servers) ++ tasks)
                      (all_automated config.automations)
                    ∙ all_served config.servers _)
                  i)))))

  listen_if-map :
      {C K : Type 0} (f : C → K) (o : Option C) (l : Listener)
      → listen_if (Option.map f o) l ≡ listen_if o l
  listen_if-map f none l = refl
  listen_if-map f (some c) l = refl

module _ ⦃d : Deps⦄ ⦃e : Env⦄ where
  listeners-configured :
      (config : ControllersConfig) → start_listening (configured config) ≡ listeners_of config
  unfolding start_listening
  listeners-configured config =
      let of_simple : listen_if (configured config).simple simple ≡ listen_if config.simple simple =
        listen_if-map _ config.simple simple in
      let of_krypton : listen_if (configured config).krypton krypton
          ≡ listen_if config.krypton krypton =
        listen_if-map _ config.krypton krypton in
      let of_tplink : listen_if (configured config).tplink tplink ≡ listen_if config.tplink tplink =
        listen_if-map _ config.tplink tplink in
      let of_govee : listen_if (configured config).govee govee ≡ listen_if config.govee govee =
        listen_if-map _ config.govee govee in
      λ i. of_simple i ++ of_krypton i ++ of_tplink i ++ of_govee i

  spawn_all-configured :
      (config : Config) (s : AppState)
      → s.config ≡ config
      → s.controllers ≡ configured config.controllers
      → spawn_all s ≡ filter (is_configured config) every_task
  unfolding spawn_all
  spawn_all-configured config s same made =
      (λ i.
        map listener ((ap start_listening made ∙ listeners-configured config.controllers) i)
        ++ (queries
            ∷ (map server (spawn_servers (same i).servers)
                ++ map automation (spawn_automations (same i).automations))))
      ∙ tasks_lem config

module _ ⦃d : Deps⦄ ⦃e : Env⦄ ⦃f : Files⦄ where
  -- A server that has started has loaded a configuration from the file at its path, has started
  -- from it, and has spawned, of all the tasks that there are, those that the configuration asks
  -- for, and no other: the listener of each controller that it enables, the queries of all devices,
  -- and each server and each automation that it has.
  pub boot-tasks :
      (path : String) {s : AppState} {spawned : List Spawned}
      → boot path ≡ ok (s, spawned)
      → (config : Config) × (load_config path ≡ ok config)
        × (start config ≡ ok s)
        × (spawned ≡ filter (is_configured config) every_task)
  unfolding boot spawn_all
  boot-tasks path {s} {spawned} h =
      let (config, loaded, h1) = >>=_inv _ _ h in
      let (s', started, h2) = >>=_inv _ _ h1 in
      let same : s' ≡ s = cc in
      let all : spawn_all s' ≡ spawned = cc in
      let fresh = start-IsFresh config (rw same at started) in
      (
        config,
        with_context_inv _ _ loaded,
        rw same at started,
        sym all
            ∙ ap spawn_all same
            ∙ spawn_all-configured config s fresh.same_config fresh.controllers,
      )
