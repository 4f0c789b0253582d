-- ===== src/Krypton/Listener.antt =====
-- `handle_conn` of src/devices/controllers/krypton.rs as a whole, and the listener that spawns it.
use devicectrl_server.Prelude.{
  ℕ, String, Option, some, List, HashMap, Result, ok, err, ◌>>=◌ as ◌>>?◌,
}
use devicectrl_server.Deps.{Deps, Bytes}
use devicectrl_server.Config.{KryptonControllerGlobalConfig}
use devicectrl_server.Devices.{Devices}
use devicectrl_server.App.{Env, AppState, KryptonController}
use devicectrl_server.Controllers.Listen.{Accepted, accept_loop}
use devicectrl_server.Krypton.Certs.{device_certs}
use devicectrl_server.Krypton.Codec.{KryptonCodec, Framed}
use devicectrl_server.Krypton.Connection.{Turn, Outcome, quiet, serve}
use devicectrl_server.Krypton.Hello.{greet}
use devicectrl_server.Tls.{Tls}

-- a socket that was accepted, by what it will bring: the hello that the first loop comes to, whether
-- the TLS session is agreed on for a configuration, and the turns of the second loop
pub record Socket ⦃d : Deps⦄ ⦃t : Tls⦄ : Type 0 where
  pub hello : Result (Option String)
  pub accept : t.ServerConfig → Result (Unit {0})
  pub turns : List Turn

module _ ⦃d : Deps⦄ ⦃e : Env⦄ ⦃t : Tls⦄ ⦃c : KryptonCodec⦄ ⦃f : Framed⦄ where
  -- from the greeting on, with the identifier of the device that was let in
  abbrev pub let_in : Result ℕ → List Turn → AppState → Outcome
  let_in (ok device_id) turns s = serve device_id 0 turns s
  let_in (err x) turns s = quiet (some (err x)) s

  unfoldable pub handle_conn :
      HashMap Bytes → KryptonControllerGlobalConfig → Socket → AppState → Outcome
  handle_conn certs global_config socket s =
      let_in
        (socket.hello >>? λ server_name.
          greet certs global_config server_name >>? λ (device_id, tls_config).
          socket.accept tls_config >>? λ _. ok device_id)
        socket.turns s

  -- the certificates are collected once, from the registry as it is then
  unfoldable pub start_listening :
      KryptonController → Devices → List (Result Socket) → Accepted (AppState → Outcome)
  start_listening controller devices sockets =
      let certs = device_certs devices in
      accept_loop (handle_conn certs controller.global_config) sockets
