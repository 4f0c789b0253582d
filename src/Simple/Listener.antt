-- ===== src/Simple/Listener.antt =====
-- `handle_conn` of src/devices/controllers/simple.rs as a whole, and the listener that spawns it.
use devicectrl_server.Prelude.{ℕ, some, List, [], Result, ok, err}
use devicectrl_server.Deps.{Deps}
use devicectrl_server.App.{Env, AppState, SimpleController}
use devicectrl_server.Controllers.Listen.{Accepted, accept_loop}
use devicectrl_server.Simple.Codec.{SimpleCodec, Reader}
use devicectrl_server.Simple.Connection.{Turn, Wire, Served, serve}
use devicectrl_server.Simple.Hello.{Greeting, greet}

-- a socket that was accepted, by what it will bring: the random nonce for it and whether that is
-- written, its bytes, and the turns of the loop, of which `read_loop` yields those that are received
pub record Socket ⦃d : Deps⦄ ⦃r : Reader⦄ : Type 0 where
  pub nonce : ℕ
  pub written : Result (Unit {0})
  pub stream : r.Stream
  pub turns : List Turn

module _ ⦃d : Deps⦄ ⦃e : Env⦄ ⦃c : SimpleCodec⦄ ⦃r : Reader⦄ ⦃w : Wire⦄
    (server_private_key : d.SigningKey) where
  -- from the greeting on
  abbrev pub let_in : Result Greeting → List Turn → AppState → Served
  let_in (ok greeting) turns s =
      serve server_private_key greeting.device_id turns greeting.send_nonce s
  let_in (err x) turns s = record { ended = some (err x); frames = []; state = s }

  unfoldable pub handle_conn : Socket → AppState → Served
  handle_conn socket s =
      let_in (greet socket.nonce socket.written socket.stream s.devices) socket.turns s

module _ ⦃d : Deps⦄ ⦃e : Env⦄ ⦃c : SimpleCodec⦄ ⦃r : Reader⦄ ⦃w : Wire⦄ where
  unfoldable pub start_listening :
      SimpleController → List (Result Socket) → Accepted (AppState → Served)
  start_listening controller sockets =
      accept_loop (handle_conn controller.global_config.server_private_key) sockets
