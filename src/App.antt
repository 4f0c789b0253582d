-- ===== src/App.antt =====
-- The state that the server's tasks share (`AppState` of src/main.rs), its hooks (src/hooks.rs),
-- and the asynchronous functions over it as actions that change the state and may fail.
--
-- What a task does to the world outside `devices` is an entry of `trace`, the latest first: a hook
-- or a request put into a broadcast channel, a datagram, a pause. Whether it succeeds is for the
-- environment to say, at each tick of a clock that counts the attempts, so that an environment is
-- any sequence of successes and failures.
pub mod Emits
pub mod Hooks
pub mod Inversion
pub mod Scope
use devicectrl_server.Prelude.{
  ℕ, ◌+◌, String, Option, none, some, List, ◌∷◌, ◌≡◌, Result, ok, err, Error, message, context,
  library, or_message, with_context, get,
}
use devicectrl_server.Deps.{Deps, Bytes}
use devicectrl_server.Common.{
  UpdateRequest, UpdateNotification, DeviceBoundSimpleMessage, DeviceBoundKryptonMessage,
}
use devicectrl_server.Config.{
  Config, SimpleControllerGlobalConfig, KryptonControllerGlobalConfig, TplinkControllerGlobalConfig,
  GoveeControllerGlobalConfig,
}
use devicectrl_server.Devices.{Device, Devices}
use devicectrl_server.Clients.Messages.{Transport, ClientBoundSocketMessage}

-- the UDP sockets: one for each of two controllers, and one for each update of a TP-Link switch
pub data UdpSocket : Type 0 where
  tplink_shared tplink_update govee_shared : UdpSocket

module _ ⦃d : Deps⦄ where
  pub data Hook : Type 0 where
    device_update_dispatch : UpdateRequest → Hook
    device_state_update : UpdateNotification → Hook
    scene_activate : ℕ → Hook

  -- the controllers, without their sockets and channels, which are effects
  pub record SimpleController : Type 0 where
    pub global_config : SimpleControllerGlobalConfig

  pub record KryptonController : Type 0 where
    pub global_config : KryptonControllerGlobalConfig

  pub record TplinkController : Type 0 where
    pub global_config : TplinkControllerGlobalConfig

  pub record GoveeController : Type 0 where
    pub global_config : GoveeControllerGlobalConfig

  pub record Controllers : Type 0 where
    pub simple : Option SimpleController
    pub krypton : Option KryptonController
    pub tplink : Option TplinkController
    pub govee : Option GoveeController

  pub data Effect : Type 0 where
    send_hook : Hook → Effect
    send_simple : DeviceBoundSimpleMessage → Effect
    send_krypton : DeviceBoundKryptonMessage → Effect
    -- `TcpListener::bind`
    listen_tcp : (address : ℕ) → Effect
    bind_udp : UdpSocket → Effect
    send_udp : UdpSocket → (address port : ℕ) → Bytes → Effect
    receive_udp : UdpSocket → Bytes → Effect
    sleep : ℕ → Effect
    -- a frame to a client, beside the message that it encodes
    send_client : Transport → ClientBoundSocketMessage → Bytes → Effect
    send_pong : Effect

  pub record AppState : Type 0 where
    pub config : Config
    pub devices : Devices
    pub controllers : Controllers
    pub clock : ℕ
    pub trace : List Effect

  -- `receive t s n` is what arrives on `s` within `n` nanoseconds, `none` if that time runs out
  pub record Env : Type 0 where
    pub attempt : ℕ → Effect → Result (Unit {0})
    pub receive : ℕ → UdpSocket → ℕ → Option (Result Bytes)

  -- tokio: a broadcast fails only if no receiver is left, and `HooksChannel` holds one itself.
  abbrev pub HooksAreOpen : Env → Type 0
  HooksAreOpen e = (t : ℕ) (h : Hook) → e.attempt t (send_hook h) ≡ ok tt

  abbrev pub Action : Type 0 → Type 0
  Action A = AppState → Result A × AppState

module _ ⦃d : Deps⦄ {A : Type 0} where
  unfoldable pub pure : A → Action A
  pure a s = (ok a, s)

  unfoldable pub bail : String → Action A
  bail m s = (err (message m), s)

  -- a result that touches no state, under `?`
  unfoldable pub lift : Result A → Action A
  lift r s = (r, s)

  -- `action.await.context(m)`
  unfoldable pub within : String → Action A → Action A
  within m action s = let (r, s') = action s in (with_context m r, s')

  abbrev pub continue {κ} :
      {B : Type κ}
      → Result A
      → (A → AppState → Result B × AppState)
      → AppState
      → Result B × AppState
  continue (ok a) f s = f a s
  continue (err e) f s = (err e, s)

module _ ⦃d : Deps⦄ where
  abbrev pub rescue : Result (Unit {0}) → (Error → Action (Unit {0})) → Action (Unit {0})
  rescue (ok _) report s = (ok tt, s)
  rescue (err x) report s = report x s

  -- `if let Err(err) = action.await { report(err) }`
  unfoldable pub or_else : (Error → Action (Unit {0})) → Action (Unit {0}) → Action (Unit {0})
  or_else report action s = let (r, t) = action s in rescue r report t

module _ ⦃d : Deps⦄ {A B : Type 0} where
  infixl 5 ◌>>=◌ ◌>>◌
  -- opening this opens the four above too
  unfoldable pub ◌>>=◌ : Action A → (A → Action B) → Action B
  unfolding pure bail lift within
  ◌>>=◌ m f s = let (r, s') = m s in continue r f s'

  abbrev pub ◌>>◌ : Action A → Action B → Action B
  m >> k = m >>= λ _. k

module _ ⦃d : Deps⦄ ⦃e : Env⦄ where
  abbrev pub tick : Result (Unit {0}) → Effect → AppState → AppState
  tick (ok _) effect s = record s { clock = s.clock + 1; trace = effect ∷ s.trace }
  tick (err _) effect s = record s { clock = s.clock + 1 }

  unfoldable pub perform : Effect → Action (Unit {0})
  perform effect s = let r = e.attempt s.clock effect in (r, tick r effect s)

  -- `timeout(limit, socket.recv(..)).await`: a datagram, an error of the socket, or `none`
  abbrev pub received : UdpSocket → Option (Result Bytes) → Action (Bytes)
  received socket none s = (
    err (context "timed out waiting for response" (library "deadline has elapsed")),
    record s { clock = s.clock + 1 },
  )
  received socket (some (err x)) s = (err x, record s { clock = s.clock + 1 })
  received socket (some (ok bytes)) s =
      (ok bytes, record s { clock = s.clock + 1; trace = receive_udp socket bytes ∷ s.trace })

  unfoldable pub receive_within : ℕ → UdpSocket → Action Bytes
  receive_within limit socket s = received socket (e.receive s.clock socket limit) s

module _ ⦃d : Deps⦄ where
  unfoldable pub sleep_for : ℕ → Action (Unit {0})
  sleep_for duration s = (ok tt, record s { trace = sleep duration ∷ s.trace })

  -- `devices.get(&id).context(m)?`
  unfoldable pub find_device : ℕ → String → Action Device
  find_device id m s = (or_message (get id s.devices) m, s)
