-- ===== src/Simple/Frame.antt =====
-- `read_signed_message` and `create_signed_message` of src/devices/controllers/simple.rs, and the
-- loop of the task that reads: a frame is a nonce, a length, that many bytes of message, and a
-- signature over all three. Lengths and sizes are below 2 ^ 33, so `usize` does not wrap.
use devicectrl_server.Prelude.{
  ℕ, zero, suc, ◌+◌, ◌%◌, ◌^◌, List, [], ◌∷◌, ◌++◌, ◌==◌, if◌then◌else◌, Result, ok, err,
  nonce_mismatch, with_context, ◌>>=◌, length, take, drop,
}
use devicectrl_server.Deps.{Deps, Bytes}
use devicectrl_server.Common.{ServerBoundSimpleMessage, DeviceBoundSimpleMessage}
use devicectrl_server.Simple.Codec.{SimpleCodec, Reader, to_be_bytes}

-- `wrapping_add(1)` on a u32
abbrev pub next_nonce : ℕ → ℕ
next_nonce n = (n + 1) % 2 ^ 32

-- what is signed: the nonce, the length and the message
abbrev pub signed_part : ℕ → ℕ → Bytes → Bytes
signed_part nonce data_len bytes = to_be_bytes nonce ++ (to_be_bytes data_len ++ bytes)

module _ ⦃d : Deps⦄ ⦃c : SimpleCodec⦄ where
  open d use {VerifyingKey, SigningKey, signature_len, verify, sign}

  -- the checks on a frame once it is read, with `body` the message and the signature
  unfoldable pub open_frame :
      VerifyingKey → (nonce data_len : ℕ) → Bytes → Result ServerBoundSimpleMessage
  open_frame key nonce data_len body = do
    let buf = signed_part nonce data_len body
    let data_end = 4 + 4 + data_len
    _ ← verify key (take data_end buf) (drop data_end buf)
    c.decode (drop (4 + 4) (take data_end buf))

  module _ ⦃r : Reader⦄ where
    open r use {Stream, read_u32, read_exact}

    unfoldable pub read_body :
        VerifyingKey → (nonce : ℕ) → Stream → Result (ServerBoundSimpleMessage × Stream)
    read_body key nonce s = do
      (data_len, s1) ← with_context "Data length is not 4 bytes" (read_u32 s)
      (body, s2) ← with_context "Failed to read message" (read_exact (data_len + signature_len) s1)
      message ← open_frame key nonce data_len body
      ok (message, s2)

    unfoldable pub read_frame :
        VerifyingKey → (expected : ℕ) → Stream → Result (ServerBoundSimpleMessage × Stream)
    read_frame key expected s = do
      (nonce, s1) ← with_context "Client nonce is not 4 bytes" (read_u32 s)
      if expected == nonce then read_body key nonce s1 else err (nonce_mismatch expected nonce)

    -- with the nonce that is expected next, which moves on whether the message is good or not
    unfoldable pub read_signed_message :
        VerifyingKey → (expected : ℕ) → Stream → Result (ServerBoundSimpleMessage × Stream) × ℕ
    read_signed_message key expected s =
        (read_frame key (next_nonce expected) s, next_nonce expected)

    -- The reading task for at most `fuel` messages: it hands them on until one is bad.
    unfoldable pub read_loop :
        (fuel : ℕ) → VerifyingKey → (expected : ℕ) → Stream → List ServerBoundSimpleMessage
    read_loop zero key expected s = []
    read_loop (suc fuel) key expected s = elim (read_signed_message key expected s).0 [
      | ok (message, s') ↦ message ∷ read_loop fuel key (read_signed_message key expected s).1 s'
      | err x ↦ []
    ]

  unfoldable pub seal : Bytes → SigningKey → Result Bytes
  seal bytes key = do signature ← sign key bytes; ok (bytes ++ signature)

  unfoldable pub create_with : Result Bytes → (send_nonce : ℕ) → SigningKey → Result Bytes × ℕ
  unfolding seal
  create_with (err x) send_nonce key = (err x, send_nonce)
  create_with (ok message_data) send_nonce key =
      let nonce = next_nonce send_nonce in
      (seal (signed_part nonce (length message_data % 2 ^ 32) message_data) key, nonce)

  -- with the nonce that was used last, which moves on once the message is encoded
  unfoldable pub create_signed_message :
      DeviceBoundSimpleMessage → (send_nonce : ℕ) → SigningKey → Result Bytes × ℕ
  unfolding create_with
  create_signed_message message send_nonce key = create_with (c.encode message) send_nonce key
