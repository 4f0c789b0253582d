-- ===== src/Clients/Catalog.antt =====
-- `catalog` and `catalog_message` of src/server_backends/mod.rs.
use devicectrl_server.Prelude.{ℕ, List, map, keys, values, sort_by_key}
use devicectrl_server.Deps.{Deps}
use devicectrl_server.Devices.{DeviceDescriptor, descriptor}
use devicectrl_server.App.{AppState}
use devicectrl_server.Clients.Messages.{Catalog}

module _ ⦃d : Deps⦄ where
  unfoldable pub catalog_message : List DeviceDescriptor → List ℕ → Catalog
  catalog_message devices scenes = record {
    devices = sort_by_key (λ device. device.device_id) devices;
    scenes = sort_by_key (λ scene. scene) scenes;
  }

  unfoldable pub catalog : AppState → Catalog
  unfolding catalog_message
  catalog s = catalog_message (map descriptor (values s.devices)) (keys s.config.scenes)
