-- ===== src/Tls.antt =====
-- What src/devices/controllers/krypton.rs and the servers of src/server_backends/ use of rustls to
-- build the configuration of a server whose clients have to show a certificate.
use devicectrl_server.Prelude.{Result}
use devicectrl_server.Deps.{Bytes}

pub record Tls : Type 1 where
  pub Certificate : Type 0
  pub PrivateKey : Type 0
  pub RootStore : Type 0
  pub Verifier : Type 0
  pub ServerConfig : Type 0
  -- `CertificateDer::from_pem_slice` and `PrivateKeyDer::from_pem_slice`
  pub certificate : Bytes → Result Certificate
  pub private_key : Bytes → Result PrivateKey
  -- `add` to an empty store, `WebPkiClientVerifier::builder(store).build()`, and
  -- `with_single_cert(vec![cert], key)` of a builder that has the verifier
  pub add_root : Certificate → Result RootStore
  pub verifier : RootStore → Result Verifier
  pub single_cert : Verifier → Certificate → PrivateKey → Result ServerConfig
