-- ===== src/Tplink/Cipher.antt =====
-- `encrypt` and `decrypt` of src/devices/controllers/tplink.rs: each byte is joined by exclusive or
-- with the ciphered byte before it. The closures' captured `key` is the accumulator.
pub mod Xor
pub mod Laws
use Prim.Native.Nat.{bit_xor}
use devicectrl_server.Prelude.{ℕ, [], ◌∷◌}
use devicectrl_server.Deps.{Bytes}

abbrev pub encryption_key : ℕ
encryption_key = 0xab

pub encrypt_from : ℕ → Bytes → Bytes
encrypt_from key [] = []
encrypt_from key (b ∷ message) = let key' = bit_xor key b in key' ∷ encrypt_from key' message

pub decrypt_from : ℕ → Bytes → Bytes
decrypt_from key [] = []
decrypt_from key (b ∷ cipher) = bit_xor b key ∷ decrypt_from b cipher

unfoldable pub encrypt : Bytes → Bytes
unfolding encrypt_from
encrypt message = encrypt_from encryption_key message

unfoldable pub decrypt : Bytes → Bytes
unfolding decrypt_from
decrypt cipher = decrypt_from encryption_key cipher
