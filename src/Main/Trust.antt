-- ===== src/Main/Trust.antt =====
-- Whom the server lets in as a Krypton device, by its configuration.
use devicectrl_server.Prelude.{
  ℕ, ◌≡◌, refl, ◌∙◌, ap, sym, ◌⊎◌, inl, inr, String, Option, none, some, ok, get,
}
use mathlib.Core.Option
use devicectrl_server.Deps.{Deps, Bytes}
use devicectrl_server.Config.{Config, ControllerConfig, DeviceConfig, KryptonControllerGlobalConfig}
use devicectrl_server.Devices.{Device}
use devicectrl_server.Devices.Registry.{last_entry}
use devicectrl_server.App.{Env, AppState, HooksAreOpen}
use devicectrl_server.Automations.Dependencies.Channel.{Broadcast}
use devicectrl_server.Automations.Sunset.Evening.{Sun}
use devicectrl_server.Clients.Messages.{SocketCodec, HttpCodec}
use devicectrl_server.Krypton.Certs.{device_certs}
use devicectrl_server.Krypton.Codec.{KryptonCodec}
use devicectrl_server.Krypton.Greeting.{IsTrusting, greet-IsTrusting}
use devicectrl_server.Krypton.Hello.{strip_prefix, greet}
use devicectrl_server.Main.{start}
use devicectrl_server.Main.Threads.{SaysWhatHooksSay, IsAhead, start-IsAtWork}
use devicectrl_server.System.Threads.{Pool, Reach}
use devicectrl_server.Tasks.Join.{Scheduler}
use devicectrl_server.Tls.{Tls}

module _ ⦃d : Deps⦄ ⦃e : Env⦄ where
  map_inv :
      (f : DeviceConfig → Device) (entry : Option DeviceConfig) {device : Device}
      → Option.map f entry ≡ some device
      → ((entry : DeviceConfig) → (f entry).controller ≡ entry.controller)
      → (configured : DeviceConfig) × (entry ≡ some configured)
        × (configured.controller ≡ device.controller)
  map_inv f none h same = cc
  map_inv f (some entry) {device} h same =
      let made : f entry ≡ device = cc in
      (entry, refl, sym (same entry) ∙ ap (λ device. device.controller) made)

  entry_of :
      (config : Config) (id : ℕ) (pool : Pool) {device : Device}
      → SaysWhatHooksSay config id pool.state ⊎ IsAhead config id pool
      → get id pool.state.devices ≡ some device
      → (entry : DeviceConfig) × (last_entry id config.devices ≡ some entry)
        × (entry.controller ≡ device.controller)
  entry_of config id pool (inl says) there =
      map_inv _ (last_entry id config.devices) (sym says ∙ there) (λ entry. refl)
  entry_of config id pool (inr ahead) there =
      map_inv _ (last_entry id config.devices) (sym ahead.device ∙ there) (λ entry. refl)

module _ ⦃d : Deps⦄ ⦃e : Env⦄ ⦃c : Scheduler⦄ ⦃p : SocketCodec⦄ ⦃h : HttpCodec⦄ ⦃k : KryptonCodec⦄
    ⦃b : Broadcast⦄ ⦃u : Sun⦄ ⦃t : Tls⦄ where
  -- Whenever the listener of Krypton devices has collected its certificates while the tasks of a
  -- server took their turns, with the hooks open, a peer that it lets in as a device has named it in
  -- its hello, the last configuration entry for the device is one of this controller, and the TLS
  -- configuration that the peer has to satisfy trusts the certificate of that entry and no other.
  pub greet-configured :
      (config : Config) {s : AppState} {pool : Pool} (global_config : KryptonControllerGlobalConfig)
      (server_name : Option String) {id : ℕ} {tls : t.ServerConfig}
      → start config ≡ ok s
      → HooksAreOpen e
      → Reach s pool
      → greet (device_certs pool.state.devices) global_config server_name ≡ ok (id, tls)
      → (name rest : String) × (entry : DeviceConfig) × (bytes : Bytes) × (server_name ≡ some name)
        × (strip_prefix name "krypton-deviceid=" ≡ some rest)
        × (d.device_id_of rest ≡ some id)
        × (last_entry id config.devices ≡ some entry)
        × (entry.controller ≡ ControllerConfig.krypton (record { cert_bytes = bytes }))
        × IsTrusting bytes global_config tls
  greet-configured config {s} {pool} global_config server_name {id} started open_hooks reach
        greeted =
      let work = start-IsAtWork config started open_hooks reach in
      let (name, rest, device, bytes, named, stripped, known, there, krypton, trusting) =
        greet-IsTrusting pool.state.devices global_config server_name work.keyed greeted in
      let (entry, configured, same) = entry_of config id pool (work.devices id) there in
      (name, rest, entry, bytes, named, stripped, known, configured, same ∙ krypton, trusting)
