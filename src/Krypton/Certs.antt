-- ===== src/Krypton/Certs.antt =====
-- The certificates that src/devices/controllers/krypton.rs collects when it starts to listen, by
-- which it lets a device in.
use devicectrl_server.Prelude.{
  ℕ, ◌≡◌, refl, ◌==◌, if◌then◌else◌, Option, none, some, List, [], ◌∷◌, HashMap, get, insert,
  values, get-insert, arith, Bool-cases, inl, inr,
}
use devicectrl_server.Deps.{Deps, Bytes}
use devicectrl_server.Config.{ControllerConfig}
use devicectrl_server.Devices.{Device, Devices}
use devicectrl_server.Devices.Registry.{IsKeyed}

module _ ⦃d : Deps⦄ where
  abbrev pub add_cert : Device → ControllerConfig → HashMap Bytes → HashMap Bytes
  add_cert device (ControllerConfig.krypton config) certs = insert device.id config.cert_bytes certs
  add_cert device _ certs = certs

  -- the loop over `devices.read().await.values()`
  unfoldable pub collect_certs : HashMap Bytes → List Device → HashMap Bytes
  collect_certs certs [] = certs
  collect_certs certs (device ∷ devices) =
      collect_certs (add_cert device device.controller certs) devices

  unfoldable pub device_certs : Devices → HashMap Bytes
  unfolding collect_certs
  device_certs devices = collect_certs [] (values devices)

  -- the certificate of a device of this controller
  abbrev pub cert_of : ControllerConfig → Option Bytes
  cert_of (ControllerConfig.krypton config) = some config.cert_bytes
  cert_of _ = none

  abbrev pub cert_in : Option Device → Option Bytes → Option Bytes
  cert_in none before = before
  cert_in (some device) before = elim (cert_of device.controller) [
    | some cert ↦ some cert
    | none ↦ before
  ]

  get-add_cert :
      (id : ℕ) (device : Device) (config : ControllerConfig) (certs : HashMap Bytes)
      → device.controller ≡ config
      → get id (add_cert device config certs)
        ≡ (if device.id == id then cert_in (some device) (get id certs) else get id certs)
  get-add_cert id device (ControllerConfig.krypton config) certs h =
      ground (arith, get-insert device.id id config.cert_bytes certs)
  get-add_cert id device (ControllerConfig.simple config) certs h = ground arith
  get-add_cert id device (ControllerConfig.tplink config) certs h = ground arith
  get-add_cert id device (ControllerConfig.govee config) certs h = ground arith

  get-collect_certs :
      (id : ℕ) (certs : HashMap Bytes) (devices : Devices)
      → IsKeyed devices
      → get id (collect_certs certs (values devices)) ≡ cert_in (get id devices) (get id certs)
  unfolding collect_certs
  get-collect_certs id certs [] keyed = refl
  get-collect_certs id certs ((j, device) ∷ devices) keyed =
      let (own, once, rest) = keyed in
      let next = get-collect_certs id (add_cert device device.controller certs) devices rest in
      let added = get-add_cert id device device.controller certs refl in
      elim (Bool-cases (j == id)) [
        | inl here ↦
            let same : j ≡ id = ground arith in
            let none_left : get id devices ≡ none = rw (← same) once in ground (arith, next, added)
        | inr other ↦ ground (arith, next, added)
      ]

  -- In a well-formed registry, the certificate for an identifier is that of the registered device,
  -- if it is one of this controller; there is none for any other.
  pub device_certs_lem :
      (id : ℕ) (devices : Devices)
      → IsKeyed devices
      → get id (device_certs devices) ≡ cert_in (get id devices) none
  unfolding device_certs
  device_certs_lem id devices keyed = get-collect_certs id [] devices keyed
