-- ===== src/Devices/Registry.antt =====
-- The invariant of the registry: every device is filed under its own identifier, once.
use devicectrl_server.Prelude.{
  ℕ, ◌≡◌, refl, Option, none, some, [], ◌∷◌, ◌==◌, if◌then◌else◌, arith, get, insert, modify,
  get-insert, get-modify, Option-cases, inl, inr, Bool, Bool-cases, find?, values, ==_refl,
}
use devicectrl_server.Deps.{Deps}
use devicectrl_server.Config.{DeviceConfig, DevicesConfig}
use devicectrl_server.Devices.{Device, Devices, new_device, collect, load_devices}

module _ ⦃d : Deps⦄ where
  abbrev pub IsKeyed : Devices → Type 0
  IsKeyed [] = Unit
  IsKeyed ((id, device) ∷ devices) = (device.id ≡ id) × (get id devices ≡ none) × IsKeyed devices

  pub IsKeyed-get :
      (id : ℕ) (device : Device) (devices : Devices)
      → IsKeyed devices
      → get id devices ≡ some device
      → device.id ≡ id
  IsKeyed-get id device [] h e = cc
  IsKeyed-get id device ((j, w) ∷ m) h e = ground (arith, IsKeyed-get id device m h.2)

  pub IsKeyed-insert :
      (id : ℕ) (device : Device) (devices : Devices)
      → device.id ≡ id
      → IsKeyed devices
      → IsKeyed (insert id device devices)
  IsKeyed-insert id device [] own h = (own, refl, tt)
  IsKeyed-insert id device ((j, w) ∷ m) own h =
      ground (arith, IsKeyed-insert id device m own h.2, get-insert id j device m)

  pub IsKeyed-modify :
      (id : ℕ) (f : Device → Device) (devices : Devices)
      → ((device : Device) → (f device).id ≡ device.id)
      → IsKeyed devices
      → IsKeyed (modify id f devices)
  IsKeyed-modify id f [] own h = tt
  IsKeyed-modify id f ((j, w) ∷ m) own h =
      ground (arith, own w, IsKeyed-modify id f m own h.2, get-modify id j f m)

  collect-IsKeyed :
      (devices : Devices) (config : DevicesConfig) {loaded : Devices}
      → IsKeyed devices
      → collect devices config ≡ some loaded
      → IsKeyed loaded
  unfolding collect
  collect-IsKeyed devices [] h e = ground arith
  collect-IsKeyed devices ((config_id, config) ∷ rest) h e =
      elim (Option-cases (d.device_id_of config_id)) [
        | inl too_long ↦ ground arith
        | inr (id, fits) ↦
            collect-IsKeyed (insert id (new_device id config) devices) rest
              (IsKeyed-insert id (new_device id config) devices (unfold new_device in refl) h)
              (ground arith)
      ]

  -- The entry for an identifier that the collection leaves: the last one whose key gives it.
  abbrev pub last_entry : ℕ → DevicesConfig → Option DeviceConfig
  last_entry id [] = none
  last_entry id ((key, config) ∷ rest) = elim (last_entry id rest) [
    | some later ↦ some later
    | none ↦ elim (d.device_id_of key) [
      | none ↦ none
      | some i ↦ if i == id then some config else none
    ]
  ]

  abbrev pub device_of : ℕ → Option DeviceConfig → Option Device → Option Device
  device_of id none before = before
  device_of id (some config) before = some (new_device id config)

  collect-get :
      (id : ℕ) (devices : Devices) (config : DevicesConfig) {loaded : Devices}
      → collect devices config ≡ some loaded
      → get id loaded ≡ device_of id (last_entry id config) (get id devices)
  unfolding collect
  collect-get id devices [] e = ground arith
  collect-get id devices ((key, config) ∷ rest) {loaded} e =
      elim (Option-cases (d.device_id_of key)) [
        | inl too_long ↦ ground arith
        | inr (i, fits) ↦ ground (
          arith,
          collect-get id (insert i (new_device i config) devices) rest {loaded = loaded}
              (ground arith),
          get-insert i id (new_device i config) devices,
        )
      ]

  -- A registry that is loaded files every device under its own identifier, and holds under each
  -- identifier the device of the last configuration entry for it, in the unknown state, and none
  -- where there is no such entry.
  pub load_devices_lem :
      (config : DevicesConfig) {loaded : Devices}
      → load_devices config ≡ some loaded
      → IsKeyed loaded × ((id : ℕ) → get id loaded ≡ device_of id (last_entry id config) none)
  unfolding load_devices
  load_devices_lem config e = (collect-IsKeyed [] config tt e, λ id. collect-get id [] config e)

  -- In a keyed registry the device that a search over the values finds is filed under its own
  -- identifier.
  pub find-get :
      (p : Device → Bool) (devices : Devices) {device : Device}
      → IsKeyed devices
      → find? p (values devices) ≡ some device
      → get device.id devices ≡ some device
  find-get p [] h e = cc
  find-get p ((j, w) ∷ m) {device} h e = elim (Bool-cases (p w)) [
    | inl here ↦ let same : w ≡ device = ground arith in rw (← same, h.0, ==_refl j)
    | inr later ↦
        let found = find-get p m {device = device} h.2 (ground arith) in ground (arith, found)
  ]
