-- ===== src/Krypton/Tls.antt =====
-- `get_tls_config` of src/devices/controllers/krypton.rs.
use devicectrl_server.Prelude.{
  ℕ, String, Result, ok, err, described, HashMap, get, or_message, ◌>>=◌ as ◌>>?◌,
}
use devicectrl_server.Deps.{Bytes}
use devicectrl_server.Tls.{Tls}
use devicectrl_server.Config.{KryptonControllerGlobalConfig}

module _ {A : Type 0} where
  -- `result.map_err(|e| anyhow!("{m}: {e}"))`
  abbrev pub or_described : String → Result A → Result A
  or_described m (ok a) = ok a
  or_described m (err x) = err (described m x)

module _ ⦃t : Tls⦄ where
  unfoldable pub get_tls_config :
      HashMap Bytes → KryptonControllerGlobalConfig → (device_id : ℕ) → Result t.ServerConfig
  get_tls_config device_certs global_config device_id =
      or_message (get device_id device_certs) "Device certificate not found"
      >>? λ device_cert_bytes.
          or_described "Failed to parse device certificate" (t.certificate device_cert_bytes)
          >>? λ device_cert.
              or_described "Failed to add device cert to root store" (t.add_root device_cert)
              >>? λ root_store.
                  or_described "Failed to build client verifier" (t.verifier root_store)
                  >>? λ client_verifier.
                      or_described "Failed to parse server certificate"
                        (t.certificate global_config.cert_bytes)
                      >>? λ server_cert.
                          or_described "Failed to parse server private key"
                            (t.private_key global_config.key_bytes)
                          >>? λ server_key.
                              or_described "Failed to build TLS config"
                                (t.single_cert client_verifier server_cert server_key)
