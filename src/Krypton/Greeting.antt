-- ===== src/Krypton/Greeting.antt =====
-- Whom src/devices/controllers/krypton.rs lets in as which device, and how long it waits for the
-- hello.
use devicectrl_server.Prelude.{
  ℕ, zero, suc, ◌+◌, ◌≤◌, ◌≡◌, refl, ◌∙◌, sym, String, Bool, true, Option, none, some, [], Result,
  ok, err, get, HashMap, arith, with_context_inv, >>=_inv, or_message, ◌>>=◌ as ◌>>?◌,
}
use devicectrl_server.Deps.{Deps, Bytes}
use devicectrl_server.Config.{ControllerConfig, KryptonControllerGlobalConfig}
use devicectrl_server.Devices.{Device, Devices}
use devicectrl_server.Devices.Registry.{IsKeyed}
use devicectrl_server.Krypton.Certs.{cert_of, cert_in, device_certs, device_certs_lem}
use devicectrl_server.Krypton.Hello.{Hello, strip_prefix, await_hello, device_id_in, greet}
use devicectrl_server.Tls.{Tls}
use devicectrl_server.Krypton.Tls.{or_described, get_tls_config}

module _ ⦃g : Hello⦄ where
  -- Where the stream has come to its end while the hello is incomplete, and reading no bytes leaves
  -- an incomplete hello incomplete, the loop for the hello has come to neither a name nor an error
  -- after any number of rounds.
  pub await_hello-IsEndless :
      (is_incomplete : g.Acceptor → Bool) (fuel n : ℕ) (acceptor : g.Acceptor)
      → ((i : ℕ) → n ≤ i → g.try_read i ≡ ok [])
      → ((a : g.Acceptor)
          → is_incomplete a ≡ true
          → (b : g.Acceptor) × (g.read_tls a [] ≡ ok b)
            × (g.accept b ≡ ok none)
            × (is_incomplete b ≡ true))
      → is_incomplete acceptor ≡ true
      → await_hello fuel n acceptor ≡ none
  unfolding await_hello ◌>>?◌
  await_hello-IsEndless is_incomplete zero n acceptor ended waits h = refl
  await_hello-IsEndless is_incomplete (suc fuel) n acceptor ended waits h =
      let (next, read, undecided, h') = waits acceptor h in
      let now : g.try_read n ≡ ok [] = ended n (omega arith) in
      let later : (i : ℕ) → n + 1 ≤ i → g.try_read i ≡ ok [] = λ i after. ended i (omega arith) in
      rw (now, read, undecided)
        (await_hello-IsEndless is_incomplete fuel (n + 1) next later waits h')

module _ {A : Type 0} where
  or_described_inv : (m : String) (r : Result A) {a : A} → or_described m r ≡ ok a → r ≡ ok a
  or_described_inv m (ok a) h = h
  or_described_inv m (err x) h = cc

  or_message_inv : (o : Option A) (m : String) {a : A} → or_message o m ≡ ok a → o ≡ some a
  or_message_inv (some a) m h = cc
  or_message_inv none m h = cc

module _ ⦃d : Deps⦄ where
  device_id_in_inv :
      (server_name : Option String) {id : ℕ}
      → device_id_in server_name ≡ ok id
      → (name rest : String) × (server_name ≡ some name)
        × (strip_prefix name "krypton-deviceid=" ≡ some rest)
        × (d.device_id_of rest ≡ some id)
  unfolding device_id_in
  device_id_in_inv (some name) h =
      let (rest, stripped, known) = >>=_inv _ _ h in
      (name, rest, refl, or_message_inv _ _ stripped, or_message_inv _ _ known)
  device_id_in_inv none h = cc

  cert_of_inv :
      (config : ControllerConfig) {bytes : Bytes}
      → cert_of config ≡ some bytes
      → config ≡ ControllerConfig.krypton (record { cert_bytes = bytes })
  cert_of_inv (ControllerConfig.krypton config) h = ground arith
  cert_of_inv (ControllerConfig.simple config) h = cc
  cert_of_inv (ControllerConfig.tplink config) h = cc
  cert_of_inv (ControllerConfig.govee config) h = cc

  itself :
      (o : Option Bytes) {bytes : Bytes}
      → (elim o [ some cert ↦ some cert | none ↦ none ]) ≡ some bytes
      → o ≡ some bytes
  itself none h = cc
  itself (some cert) h = h

  cert_in_inv :
      (found : Option Device) {bytes : Bytes}
      → cert_in found none ≡ some bytes
      → (device : Device) × (found ≡ some device)
        × (device.controller ≡ ControllerConfig.krypton (record { cert_bytes = bytes }))
  cert_in_inv none h = cc
  cert_in_inv (some device) h =
      (device, refl, cert_of_inv device.controller (itself (cert_of device.controller) h))

module _ ⦃d : Deps⦄ ⦃t : Tls⦄ where
  -- A TLS configuration whose clients have to show the certificate in `bytes`, or one that it has
  -- signed.
  abbrev pub IsTrusting : Bytes → KryptonControllerGlobalConfig → t.ServerConfig → Type 0
  IsTrusting bytes global_config config =
      (root : t.Certificate) × (store : t.RootStore) × (verifier : t.Verifier)
      × (cert : t.Certificate) × (key : t.PrivateKey) × (t.certificate bytes ≡ ok root)
      × (t.add_root root ≡ ok store)
      × (t.verifier store ≡ ok verifier)
      × (t.certificate global_config.cert_bytes ≡ ok cert)
      × (t.private_key global_config.key_bytes ≡ ok key)
      × (t.single_cert verifier cert key ≡ ok config)

  get_tls_config_inv :
      (certs : HashMap Bytes) (global_config : KryptonControllerGlobalConfig) (id : ℕ)
      {config : t.ServerConfig}
      → get_tls_config certs global_config id ≡ ok config
      → (bytes : Bytes) × (get id certs ≡ some bytes) × IsTrusting bytes global_config config
  unfolding get_tls_config
  get_tls_config_inv certs global_config id h =
      let (bytes, found, h1) = >>=_inv _ _ h in
      let (root, parsed, h2) = >>=_inv _ _ h1 in
      let (store, added, h3) = >>=_inv _ _ h2 in
      let (verifier, built, h4) = >>=_inv _ _ h3 in
      let (cert, parsed', h5) = >>=_inv _ _ h4 in
      let (key, parsed_key, h6) = >>=_inv _ _ h5 in
      (
        bytes,
        or_message_inv _ _ found,
        (
          root,
          store,
          verifier,
          cert,
          key,
          or_described_inv _ _ parsed,
          or_described_inv _ _ added,
          or_described_inv _ _ built,
          or_described_inv _ _ parsed',
          or_described_inv _ _ parsed_key,
          or_described_inv _ _ h6,
        ),
      )

  -- A peer that is let in as a device has named it in its hello, the device is a registered one of
  -- this controller, and the TLS configuration that the peer has to satisfy trusts the device's own
  -- configured certificate and no other; the registry from which the certificates were collected is
  -- well formed.
  pub greet-IsTrusting :
      (devices : Devices) (global_config : KryptonControllerGlobalConfig)
      (server_name : Option String) {id : ℕ} {config : t.ServerConfig}
      → IsKeyed devices
      → greet (device_certs devices) global_config server_name ≡ ok (id, config)
      → (name rest : String) × (device : Device) × (bytes : Bytes) × (server_name ≡ some name)
        × (strip_prefix name "krypton-deviceid=" ≡ some rest)
        × (d.device_id_of rest ≡ some id)
        × (get id devices ≡ some device)
        × (device.controller ≡ ControllerConfig.krypton (record { cert_bytes = bytes }))
        × IsTrusting bytes global_config config
  unfolding greet
  greet-IsTrusting devices global_config server_name {id} {config} keyed h =
      let (id', named, h1) = >>=_inv _ _ h in
      let (config', configured, h2) = >>=_inv _ _ h1 in
      let same : id' ≡ id = ground arith in
      let same' : config' ≡ config = ground arith in
      let (name, rest, is_named, stripped, known) = device_id_in_inv server_name named in
      let (bytes, found, trusting) =
        get_tls_config_inv (device_certs devices) global_config id'
          (with_context_inv _ _ configured) in
      let (device, registered, krypton) =
        cert_in_inv (get id' devices) (sym (device_certs_lem id' devices keyed) ∙ found) in
      rw (← same, ← same')
        (name, rest, device, bytes, is_named, stripped, known, registered, krypton, trusting)
