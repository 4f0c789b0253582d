-- ===== src/Krypton/Hello.antt =====
-- The start of `handle_conn` of src/devices/controllers/krypton.rs: the TLS hello of a device, and
-- the identifier that it names there.
use Prim.Native.Char.{code}
use devicectrl_server.Prelude.{
  ℕ, zero, suc, ◌+◌, String, ◌==◌, if◌then◌else◌, Option, none, some, HashMap, Result, ok, err,
  Error, context, or_message, with_context, ◌>>=◌ as ◌>>?◌,
}
use devicectrl_server.Deps.{Deps, Bytes}
use devicectrl_server.Config.{KryptonControllerGlobalConfig}
use devicectrl_server.Tls.{Tls}
use devicectrl_server.Krypton.Tls.{get_tls_config}

-- `str::strip_prefix`
abbrev pub strip_prefix : String → (prefix : String) → Option String
strip_prefix s String.[] = some s
strip_prefix String.[] (String.◌∷◌ c prefix) = none
strip_prefix (String.◌∷◌ b s) (String.◌∷◌ c prefix) =
    let rest = strip_prefix s prefix in if code b == code c then rest else none

-- rustls's `Acceptor` and the socket of a connection
pub record Hello : Type 1 where
  pub Acceptor : Type 0
  pub default : Acceptor
  -- `acceptor.read_tls` of the bytes that were read
  pub read_tls : Acceptor → Bytes → Result Acceptor
  -- `acceptor.accept()`: the name in the client's hello, if there is one, once it is complete
  pub accept : Acceptor → Result (Option (Option String))
  -- `socket.try_read`, which does not wait, for the n-th time: no bytes at the end of the stream
  pub try_read : ℕ → Result Bytes

module _ ⦃g : Hello⦄ where
  -- what the loop does after `accept`: `none` if it goes on
  abbrev pub accepted : Result (Option (Option String)) → Option (Result (Option String))
  accepted (err x) = some (err (context "failed to accept krypton tls connection" x))
  accepted (ok (some name)) = some (ok name)
  accepted (ok none) = none

  abbrev pub unless_accepted :
      Option (Result (Option String))
      → Option (Result (Option String))
      → Option (Result (Option String))
  unless_accepted none rest = rest
  unless_accepted (some r) rest = some r

  -- `?` in the loop
  abbrev pub on_read :
      Result g.Acceptor
      → (g.Acceptor → Option (Result (Option String)))
      → Option (Result (Option String))
  on_read (err x) next = some (err x)
  on_read (ok acceptor) next = next acceptor

  -- The first loop, for at most `fuel` turns, from the n-th on: the client's hello, or an error, or
  -- `none` if it has come to neither.
  unfoldable pub await_hello : (fuel n : ℕ) → g.Acceptor → Option (Result (Option String))
  await_hello zero n acceptor = none
  await_hello (suc fuel) n acceptor =
      on_read (g.try_read n >>? λ bytes. g.read_tls acceptor bytes) λ acceptor'.
        unless_accepted (accepted (g.accept acceptor')) (await_hello fuel (n + 1) acceptor')

module _ ⦃d : Deps⦄ where
  -- the identifier that a hello names
  unfoldable pub device_id_in : Option String → Result ℕ
  device_id_in none = err (Error.message "missing device id in SNI")
  device_id_in (some name) =
      or_message (strip_prefix name "krypton-deviceid=") "missing device id in SNI" >>? λ rest.
      or_message (d.device_id_of rest) "invalid device id"

module _ ⦃d : Deps⦄ ⦃t : Tls⦄ where
  -- from the hello to the identifier and the TLS configuration that the device has to satisfy
  unfoldable pub greet :
      HashMap Bytes → KryptonControllerGlobalConfig → Option String → Result (ℕ × t.ServerConfig)
  unfolding device_id_in
  greet device_certs global_config server_name = device_id_in server_name >>? λ device_id.
      with_context "failed to get tls config for device"
        (get_tls_config device_certs global_config device_id)
      >>? λ config. ok (device_id, config)
