-- ===== src/Clients/Order.antt =====
-- The catalog of src/server_backends/mod.rs lists each device and each scene once and in order,
-- however the maps that it is read from are ordered.
use devicectrl_server.Prelude.{
  ℕ, ◌≡◌, refl, ap, ◌∙◌, sym, Option, none, some, [], ◌∷◌, map, arith, HashMap, get, keys, values,
  entry, AreDistinct, AreAscending, entry-sort_by_key, sort_by_key-AreAscending, equal_entries,
}
use mathlib.Core.Option
use devicectrl_server.Deps.{Deps}
use devicectrl_server.Devices.{DeviceDescriptor, Devices, descriptor}
use devicectrl_server.Devices.Registry.{IsKeyed}
use devicectrl_server.App.{AppState}
use devicectrl_server.Clients.Messages.{Catalog}
use devicectrl_server.Clients.Catalog.{catalog}

module _ {ℓ} {V : Type ℓ} where
  -- A map holds each key once.
  abbrev pub IsMap : HashMap V → Type ℓ
  IsMap [] = Unit
  IsMap ((k, v) ∷ m) = (get k m ≡ none) × IsMap m

  abbrev pub found : ℕ → Option V → Option ℕ
  found k none = none
  found k (some v) = some k

  entry-keys : (k : ℕ) (m : HashMap V) → entry (λ k. k) k (keys m) ≡ found k (get k m)
  entry-keys k [] = refl
  entry-keys k ((j, v) ∷ m) = ground (arith, entry-keys k m)

  keys-AreDistinct : (m : HashMap V) → IsMap m → AreDistinct (λ k. k) (keys m)
  keys-AreDistinct [] h = tt
  keys-AreDistinct ((j, v) ∷ m) h = (entry-keys j m ∙ ap (found j) h.0, keys-AreDistinct m h.1)

module _ ⦃d : Deps⦄ where
  abbrev id_of : DeviceDescriptor → ℕ
  id_of device = device.device_id

  entry-values :
      (id : ℕ) (devices : Devices)
      → IsKeyed devices
      → entry id_of id (map descriptor (values devices)) ≡ Option.map descriptor (get id devices)
  unfolding descriptor
  entry-values id [] h = refl
  entry-values id ((j, device) ∷ devices) h = ground (arith, h.0, entry-values id devices h.2)

  values-AreDistinct :
      (devices : Devices) → IsKeyed devices → AreDistinct id_of (map descriptor (values devices))
  unfolding descriptor
  values-AreDistinct [] h = tt
  values-AreDistinct ((j, device) ∷ devices) h =
      let absent : get device.id devices ≡ none = rw h.0 h.1 in
      (
        entry-values device.id devices h.2 ∙ ap (Option.map descriptor) absent,
        values-AreDistinct devices h.2,
      )

  -- A catalog of a well-formed registry lists the devices and the scenes in ascending order, under
  -- each identifier the descriptor of the device that is registered there, if there is one, and the
  -- identifiers of exactly the scenes that are configured.
  pub catalog_lem :
      (s : AppState)
      → IsKeyed s.devices
      → IsMap s.config.scenes
      → AreAscending (λ device. device.device_id) (catalog s).devices
        × AreAscending (λ scene. scene) (catalog s).scenes
        × ((id : ℕ)
            → entry (λ device. device.device_id) id (catalog s).devices
              ≡ Option.map descriptor (get id s.devices))
        × ((id : ℕ)
            → entry (λ scene. scene) id (catalog s).scenes ≡ found id (get id s.config.scenes))
  unfolding catalog
  catalog_lem s keyed once = (
    sort_by_key-AreAscending id_of _ (values-AreDistinct s.devices keyed),
    sort_by_key-AreAscending (λ k. k) _ (keys-AreDistinct s.config.scenes once),
    λ id.
        entry-sort_by_key id_of id _ (values-AreDistinct s.devices keyed)
        ∙ entry-values id s.devices keyed,
    λ id.
        entry-sort_by_key (λ k. k) id _ (keys-AreDistinct s.config.scenes once)
        ∙ entry-keys id s.config.scenes,
  )

  Catalog_ext : (c c' : Catalog) → c.devices ≡ c'.devices → c.scenes ≡ c'.scenes → c ≡ c'
  Catalog_ext c c' h k = λ i. record { devices = h i; scenes = k i }

  -- Two states that hold the same under each identifier have the same catalog, whatever the order
  -- of their maps.
  pub catalog_unordered :
      (s t : AppState)
      → IsKeyed s.devices
      → IsKeyed t.devices
      → IsMap s.config.scenes
      → IsMap t.config.scenes
      → ((id : ℕ) → get id s.devices ≡ get id t.devices)
      → ((id : ℕ) → get id s.config.scenes ≡ get id t.config.scenes)
      → catalog s ≡ catalog t
  catalog_unordered s t keyed keyed' once once' same same' =
      let (up, up_scenes, at, at_scenes) = catalog_lem s keyed once in
      let (up', up_scenes', at', at_scenes') = catalog_lem t keyed' once' in
      let devices : (catalog s).devices ≡ (catalog t).devices =
        equal_entries id_of _ _ up up'
          (λ id. at id ∙ ap (Option.map descriptor) (same id) ∙ sym (at' id)) in
      let scenes : (catalog s).scenes ≡ (catalog t).scenes =
        equal_entries (λ k. k) _ _ up_scenes up_scenes'
          (λ id. at_scenes id ∙ ap (found id) (same' id) ∙ sym (at_scenes' id)) in
      Catalog_ext (catalog s) (catalog t) devices scenes
