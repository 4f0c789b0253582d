-- ===== src/Tests/Clients.antt =====
-- Catalogs at concrete inputs.
use devicectrl_server.Prelude.{ℕ, ◌≡◌, refl, [], ◌∷◌, get, entry, AreAscending, arith}
use mathlib.Core.Option
use devicectrl_server.Devices.{descriptor}
use devicectrl_server.App.{AppState}
use devicectrl_server.Clients.Catalog.{catalog}
use devicectrl_server.Clients.Order.{found, catalog_lem, catalog_unordered}
use devicectrl_server.Tests.Instance.{plain}
use devicectrl_server.Tests.Registry.{start, lamp, plug}

abbrev forwards : AppState
forwards = record start { config = record start.config { scenes = (4, []) ∷ (7, []) ∷ [] } }

abbrev backwards : AppState
backwards = record start {
  config = record start.config { scenes = (7, []) ∷ (4, []) ∷ [] };
  devices = (2, plug) ∷ (1, lamp) ∷ [];
}

sorts_backwards : (catalog backwards).scenes ≡ 4 ∷ 7 ∷ []
unfolding catalog
sorts_backwards = refl

catalog_lem_example :
    AreAscending (λ device. device.device_id) (catalog backwards).devices
    × AreAscending (λ scene. scene) (catalog backwards).scenes
    × ((id : ℕ)
        → entry (λ device. device.device_id) id (catalog backwards).devices
          ≡ Option.map descriptor (get id backwards.devices))
    × ((id : ℕ)
        → entry (λ scene. scene) id (catalog backwards).scenes
          ≡ found id (get id backwards.config.scenes))
catalog_lem_example = catalog_lem backwards (refl, refl, (refl, refl, tt)) (refl, (refl, tt))

same_devices : (id : ℕ) → get id forwards.devices ≡ get id backwards.devices
same_devices id = ground arith

same_scenes : (id : ℕ) → get id forwards.config.scenes ≡ get id backwards.config.scenes
same_scenes id = ground arith

catalog_unordered_example : catalog forwards ≡ catalog backwards
catalog_unordered_example =
    catalog_unordered forwards backwards (refl, refl, (refl, refl, tt))
      (refl, refl, (refl, refl, tt)) (refl, (refl, tt)) (refl, (refl, tt)) same_devices same_scenes
