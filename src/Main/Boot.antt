-- ===== src/Main/Boot.antt =====
-- `main` of src/main.rs up to its joins: the configuration, the shared state, and what is spawned.
pub mod Tasks
use devicectrl_server.Prelude.{
  String, List, ◌++◌, ◌∷◌, map, Result, ok, with_context, ◌>>=◌ as ◌>>?◌,
}
use devicectrl_server.Deps.{Deps}
use devicectrl_server.Config.Load.{Files, load_config}
use devicectrl_server.App.{Env, AppState}
use devicectrl_server.Controllers.Listen.{Listener, start_listening}
use devicectrl_server.Main.{start}
use devicectrl_server.Main.Tasks.{Server, Automation, spawn_servers, spawn_automations}

-- the tasks of the server, as they are spawned
pub data Spawned : Type 0 where
  listener : Listener → Spawned
  queries : Spawned
  server : Server → Spawned
  automation : Automation → Spawned

module _ ⦃d : Deps⦄ where
  -- those of the controllers first, then `query_all_device_states`, the servers and the automations
  unfoldable pub spawn_all : AppState → List Spawned
  spawn_all s =
      map listener (start_listening s.controllers)
      ++ (queries
          ∷ (map server (spawn_servers s.config.servers)
              ++ map automation (spawn_automations s.config.automations)))

module _ ⦃d : Deps⦄ ⦃e : Env⦄ ⦃f : Files⦄ where
  -- for the path in CONFIG_PATH
  unfoldable pub boot : (path : String) → Result (AppState × List Spawned)
  unfolding spawn_all
  boot path = with_context "failed to load config" (load_config path) >>? λ config.
      start config >>? λ s. ok (s, spawn_all s)
