-- ===== src/Tplink/Cipher/Laws.antt =====
-- The cipher loses nothing, in both directions, and keeps lengths and byte range.
use Prim.Native.Nat.{bit_xor}
use devicectrl_server.Prelude.{ℕ, suc, ◌<◌, ◌≡◌, refl, [], ◌∷◌, ◌++◌, ap, length, arith}
use devicectrl_server.Deps.{Bytes}
use devicectrl_server.Tplink.Cipher.{encryption_key, encrypt_from, decrypt_from, encrypt, decrypt}
use devicectrl_server.Tplink.Cipher.Xor.{bit_xor_comm, bit_xor_cancel, bit_xor-lt}

abbrev IsBytes : Bytes → Type 0
IsBytes [] = Unit
IsBytes (b ∷ bs) = (b < 256) × IsBytes bs

decrypt_from-encrypt_from :
    (key : ℕ) (message : Bytes) → decrypt_from key (encrypt_from key message) ≡ message
unfolding encrypt_from decrypt_from
decrypt_from-encrypt_from key [] = refl
decrypt_from-encrypt_from key (b ∷ message) =
    rw (bit_xor_comm key b, bit_xor_cancel b key)
      (ap (◌∷◌ b) (decrypt_from-encrypt_from (bit_xor b key) message))

encrypt_from-decrypt_from :
    (key : ℕ) (cipher : Bytes) → encrypt_from key (decrypt_from key cipher) ≡ cipher
unfolding encrypt_from decrypt_from
encrypt_from-decrypt_from key [] = refl
encrypt_from-decrypt_from key (b ∷ cipher) =
    rw (bit_xor_comm key (bit_xor b key), bit_xor_cancel b key)
      (ap (◌∷◌ b) (encrypt_from-decrypt_from b cipher))

-- `decrypt` recovers every message from what `encrypt` made of it, and `encrypt` every cipher text
-- from what `decrypt` made of it: the two are inverse on all byte strings.
pub decrypt-encrypt :
    (bytes : Bytes) → (decrypt (encrypt bytes) ≡ bytes) × (encrypt (decrypt bytes) ≡ bytes)
unfolding encrypt decrypt
decrypt-encrypt bytes =
    (decrypt_from-encrypt_from encryption_key bytes, encrypt_from-decrypt_from encryption_key bytes)

encrypt_from-IsBytes :
    (key : ℕ) (message : Bytes)
    → key < 256
    → IsBytes message
    → IsBytes (encrypt_from key message) × (length (encrypt_from key message) ≡ length message)
unfolding encrypt_from
encrypt_from-IsBytes key [] k h = (tt, refl)
encrypt_from-IsBytes key (b ∷ message) k h =
    let small = bit_xor-lt 8 key b k h.0 in
    let (bytes, same) = encrypt_from-IsBytes (bit_xor key b) message small h.1 in
    ((small, bytes), ap suc same)

-- Enciphering a string of bytes yields a string of bytes of the same length, so a datagram of at
-- most 1500 bytes stays one.
encrypt-IsBytes :
    (message : Bytes)
    → IsBytes message
    → IsBytes (encrypt message) × (length (encrypt message) ≡ length message)
unfolding encrypt
encrypt-IsBytes message h = encrypt_from-IsBytes encryption_key message (omega arith) h

-- the exclusive or of the bytes and a first one
abbrev pub xor_all : ℕ → Bytes → ℕ
xor_all first [] = first
xor_all first (b ∷ bytes) = xor_all (bit_xor first b) bytes

abbrev pub last_of : ℕ → Bytes → ℕ
last_of first [] = first
last_of first (b ∷ bytes) = last_of b bytes

encrypt_from_split :
    (key : ℕ) (before : Bytes) (b : ℕ) (after : Bytes)
    → encrypt_from key (before ++ (b ∷ after))
      ≡ encrypt_from key before
        ++ (xor_all key (before ++ (b ∷ []))
            ∷ encrypt_from (xor_all key (before ++ (b ∷ []))) after)
unfolding encrypt_from
encrypt_from_split key [] b after = refl
encrypt_from_split key (x ∷ before) b after =
    ap (λ bytes. bit_xor key x ∷ bytes) (encrypt_from_split (bit_xor key x) before b after)

decrypt_from_split :
    (key : ℕ) (before : Bytes) (b : ℕ) (after : Bytes)
    → decrypt_from key (before ++ (b ∷ after))
      ≡ decrypt_from key before ++ (bit_xor b (last_of key before) ∷ decrypt_from b after)
unfolding decrypt_from
decrypt_from_split key [] b after = refl
decrypt_from_split key (x ∷ before) b after =
    ap (λ bytes. bit_xor x key ∷ bytes) (decrypt_from_split x before b after)

encrypt_from-length : (key : ℕ) (bytes : Bytes) → length (encrypt_from key bytes) ≡ length bytes
unfolding encrypt_from
encrypt_from-length key [] = refl
encrypt_from-length key (b ∷ bytes) = ap suc (encrypt_from-length (bit_xor key b) bytes)

decrypt_from-length : (key : ℕ) (bytes : Bytes) → length (decrypt_from key bytes) ≡ length bytes
unfolding decrypt_from
decrypt_from-length key [] = refl
decrypt_from-length key (b ∷ bytes) = ap suc (decrypt_from-length b bytes)

-- at that place of the first string stands the byte
abbrev pub IsAt : (place : ℕ) → Bytes → ℕ → Type 0
IsAt place bytes b =
    (before after : Bytes) × (bytes ≡ before ++ (b ∷ after)) × (length before ≡ place)

-- Where the byte `b` stands in a string, its cipher text has the exclusive or of 0xab and of all
-- bytes of the string up to `b`, and its plain text the exclusive or of `b` and of the byte before
-- it, or 0xab where `b` is the first.
pub cipher_bytes :
    (before : Bytes) (b : ℕ) (after : Bytes)
    → IsAt (length before) (encrypt (before ++ (b ∷ after))) (xor_all 0xab (before ++ (b ∷ [])))
      × IsAt (length before) (decrypt (before ++ (b ∷ after))) (bit_xor b (last_of 0xab before))
unfolding encrypt decrypt
cipher_bytes before b after = (
  (
    encrypt_from 0xab before,
    encrypt_from (xor_all 0xab (before ++ (b ∷ []))) after,
    encrypt_from_split 0xab before b after,
    encrypt_from-length 0xab before,
  ),
  (
    decrypt_from 0xab before,
    decrypt_from b after,
    decrypt_from_split 0xab before b after,
    decrypt_from-length 0xab before,
  ),
)
