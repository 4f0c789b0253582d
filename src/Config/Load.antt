-- ===== src/Config/Load.antt =====
-- src/config.rs: the configuration from its file, and the fields of it that are read from files of
-- their own.
use devicectrl_server.Prelude.{◌≡◌, String, Result, ok, ◌>>=◌ as ◌>>?◌, >>=_inv}
use devicectrl_server.Deps.{Deps, Bytes}
use devicectrl_server.Config.{Config}

-- `fs::read`, what serde_json makes of a file, and p256's readers of keys. The derived reader of a
-- configuration calls the functions below for its fields, by the `deserialize_with` of each.
pub record Files ⦃d : Deps⦄ : Type 1 where
  pub read : (path : String) → Result Bytes
  pub config_from_slice : Bytes → Result Config
  pub from_pkcs8_der : Bytes → Result d.SigningKey
  pub from_public_key_der : Bytes → Result d.VerifyingKey

module _ ⦃d : Deps⦄ ⦃f : Files⦄ where
  unfoldable pub load_config : (path : String) → Result Config
  load_config path = f.read path >>? λ bytes. f.config_from_slice bytes

  -- of the path that `String::deserialize` yields
  unfoldable pub deserialize_signing_key : (path : Result String) → Result d.SigningKey
  deserialize_signing_key path =
      path >>? λ path. f.read path >>? λ der_bytes. f.from_pkcs8_der der_bytes

  unfoldable pub deserialize_verifying_key : (path : Result String) → Result d.VerifyingKey
  deserialize_verifying_key path =
      path >>? λ path. f.read path >>? λ der_bytes. f.from_public_key_der der_bytes

  unfoldable pub deserialize_file_path_bytes : (path : Result String) → Result Bytes
  deserialize_file_path_bytes path = path >>? λ path. f.read path

  -- A field that is read as bytes has all of the file's bytes, and a key is what its file parses to.
  pub deserialize_verifying_key_inv :
      (path : Result String) {key : d.VerifyingKey}
      → deserialize_verifying_key path ≡ ok key
      → (name : String) × (der_bytes : Bytes) × (path ≡ ok name)
        × (f.read name ≡ ok der_bytes)
        × (f.from_public_key_der der_bytes ≡ ok key)
  unfolding deserialize_verifying_key
  deserialize_verifying_key_inv path h =
      let (name, named, h1) = >>=_inv _ _ h in
      let (der_bytes, found, parsed) = >>=_inv _ _ h1 in (name, der_bytes, named, found, parsed)
