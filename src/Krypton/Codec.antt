-- ===== src/Krypton/Codec.antt =====
-- What src/devices/controllers/krypton.rs uses of serde_json, and of the framed stream of a
-- connection.
use devicectrl_server.Prelude.{ℕ, Result, Error}
use devicectrl_server.Deps.{Deps, Bytes}
use devicectrl_server.Common.{ServerBoundKryptonMessage, DeviceBoundKryptonMessage}

module _ ⦃d : Deps⦄ where
  pub record KryptonCodec : Type 0 where
    -- `serde_json::from_slice`, `serde_json::to_vec` and `err.into()`
    pub decode : Bytes → Result ServerBoundKryptonMessage
    pub encode : DeviceBoundKryptonMessage → Result Bytes
    pub failure_of : Error → DeviceBoundKryptonMessage

-- `stream.send(data)`, at the n-th turn of the connection's loop
pub record Framed : Type 0 where
  pub send : ℕ → Bytes → Result (Unit {0})
