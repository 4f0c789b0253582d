-- ===== src/Simple/Codec.antt =====
-- What src/devices/controllers/simple.rs uses of others: the codecs of its messages, and the
-- reading half of a connection, over which `read_signed_message` is generic.
use devicectrl_server.Prelude.{ℕ, ◌/◌, ◌%◌, ◌^◌, ◌<◌, ◌≡◌, [], ◌∷◌, ◌++◌, Result, ok, Error, length}
use devicectrl_server.Deps.{Deps, Bytes}
use devicectrl_server.Common.{ServerBoundSimpleMessage, DeviceBoundSimpleMessage}

module _ ⦃d : Deps⦄ where
  pub record SimpleCodec : Type 0 where
    -- `serde_json::from_slice`, `serde_json::to_vec` and `err.into()`
    pub decode : Bytes → Result ServerBoundSimpleMessage
    pub encode : DeviceBoundSimpleMessage → Result Bytes
    pub failure_of : Error → DeviceBoundSimpleMessage

-- `u32::to_be_bytes`
abbrev pub to_be_bytes : ℕ → Bytes
to_be_bytes n = n / 2 ^ 24 % 256 ∷ n / 2 ^ 16 % 256 ∷ n / 2 ^ 8 % 256 ∷ n % 256 ∷ []

-- `AsyncReadExt`: a big-endian u32, and a buffer filled to its length, or an error.
pub record Reader : Type 1 where
  pub Stream : Type 0
  pub read_u32 : Stream → Result (ℕ × Stream)
  pub read_exact : ℕ → Stream → Result (Bytes × Stream)
  pub length-read_exact :
      (n : ℕ) (s : Stream) {bytes : Bytes} {t : Stream}
      → read_exact n s ≡ ok (bytes, t)
      → length bytes ≡ n

-- What a stream yields whose next bytes are known: `feed bytes s` is `s` behind `bytes`.
pub record Delivers (r : Reader) : Type 0 where
  pub feed : Bytes → r.Stream → r.Stream
  pub read_u32-feed :
      (n : ℕ) (bytes : Bytes) (s : r.Stream)
      → n < 2 ^ 32
      → r.read_u32 (feed (to_be_bytes n ++ bytes) s) ≡ ok (n, feed bytes s)
  pub read_exact-feed :
      (n : ℕ) (front back : Bytes) (s : r.Stream)
      → length front ≡ n
      → r.read_exact n (feed (front ++ back) s) ≡ ok (front, feed back s)
