-- ===== src/Simple/RoundTrip.antt =====
-- A frame as `create_signed_message` builds it is read back by `read_signed_message`.
use devicectrl_server.Prelude.{
  ℕ, ◌+◌, ◌%◌, ◌^◌, ◌<◌, ◌≡◌, refl, ap, ◌++◌, Result, ok, >>=_inv, ◌>>=◌, length, length-append,
  take-length_append, drop-length_append, ==_refl, arith,
}
use devicectrl_server.Deps.{Deps, Bytes}
use devicectrl_server.Common.{ServerBoundSimpleMessage, DeviceBoundSimpleMessage}
use devicectrl_server.Simple.Codec.{SimpleCodec, Reader, Delivers, to_be_bytes}
use devicectrl_server.Simple.Frame.{
  next_nonce, signed_part, seal, create_signed_message, open_frame, read_body, read_frame,
  read_signed_message,
}
use devicectrl_server.Simple.Authentic.{take-signed_part, drop-signed_part}

module _ ⦃d : Deps⦄ ⦃c : SimpleCodec⦄ where
  open d use {VerifyingKey, SigningKey, signature_len, verify, sign}

  -- the keys belong together: what one signs, the other verifies, in a signature of fixed length
  pub record KeyPair (public : VerifyingKey) (private : SigningKey) : Type 0 where
    pub verifies :
        (bytes signature : Bytes)
        → sign private bytes ≡ ok signature
        → verify public bytes signature ≡ ok tt
    pub length_signature :
        (bytes signature : Bytes)
        → sign private bytes ≡ ok signature
        → length signature ≡ signature_len

  create_inv :
      (message : DeviceBoundSimpleMessage) (nonce : ℕ) (key : SigningKey) {payload frame : Bytes}
      → c.encode message ≡ ok payload
      → (create_signed_message message nonce key).0 ≡ ok frame
      → (signature : Bytes) × (sign key
            (signed_part (next_nonce nonce) (length payload % 2 ^ 32) payload)
          ≡ ok signature)
        × (frame ≡ signed_part (next_nonce nonce) (length payload % 2 ^ 32) payload ++ signature)
  unfolding create_signed_message
  create_inv message nonce key {payload} {frame} e h =
      let sealed : seal (signed_part (next_nonce nonce) (length payload % 2 ^ 32) payload) key
          ≡ ok frame =
        ground arith in
      let (signature, h1, h2) = >>=_inv _ _ sealed in (signature, h1, ground arith)

  open_frame_sealed :
      (key : VerifyingKey) (nonce data_len : ℕ) (payload signature : Bytes)
      {message : ServerBoundSimpleMessage}
      → length payload ≡ data_len
      → verify key (signed_part nonce data_len payload) signature ≡ ok tt
      → c.decode payload ≡ ok message
      → open_frame key nonce data_len (payload ++ signature) ≡ ok message
  unfolding open_frame ◌>>=◌
  open_frame_sealed key nonce data_len payload signature size verified decoded =
      rw
        (
          take-signed_part data_len nonce data_len (payload ++ signature),
          drop-signed_part data_len nonce data_len (payload ++ signature),
          take-length_append data_len payload signature size,
          drop-length_append data_len payload signature size,
          verified,
        )
        decoded

  module _ ⦃r : Reader⦄ (line : Delivers r) where
    open r use {Stream, read_u32, read_exact}
    open line use {feed, read_u32-feed, read_exact-feed}

    read_body_sealed :
        (key : VerifyingKey) (nonce data_len : ℕ) (payload signature more : Bytes) (s : Stream)
        {message : ServerBoundSimpleMessage}
        → data_len < 2 ^ 32
        → length payload ≡ data_len
        → length signature ≡ signature_len
        → open_frame key nonce data_len (payload ++ signature) ≡ ok message
        → read_body key nonce (feed (to_be_bytes data_len ++ ((payload ++ signature) ++ more)) s)
          ≡ ok (message, feed more s)
    unfolding read_body ◌>>=◌
    read_body_sealed key nonce data_len payload signature more s small size size' opened = rw (
      read_u32-feed data_len ((payload ++ signature) ++ more) s small,
      read_exact-feed (data_len + signature_len) (payload ++ signature) more s
          (omega (arith, length-append payload signature)),
      opened,
    )

    read_frame_sealed :
        (key : VerifyingKey) (nonce data_len : ℕ) (payload signature more : Bytes) (s : Stream)
        {message : ServerBoundSimpleMessage}
        → nonce < 2 ^ 32
        → read_body key nonce (feed (to_be_bytes data_len ++ ((payload ++ signature) ++ more)) s)
          ≡ ok (message, feed more s)
        → read_frame key nonce (
            feed
              (to_be_bytes nonce ++ (to_be_bytes data_len ++ ((payload ++ signature) ++ more)))
              s)
          ≡ ok (message, feed more s)
    unfolding read_frame ◌>>=◌
    read_frame_sealed key nonce data_len payload signature more s small rest =
        rw
          (
            read_u32-feed nonce (to_be_bytes data_len ++ ((payload ++ signature) ++ more)) s small,
            ==_refl nonce,
          )
          rest

    -- What one side signs the other reads: a frame that `create_signed_message` made, with its nonce
    -- in step, arrives as the message that its payload decodes to; the reader is left at the bytes
    -- behind the frame, and both sides at the same nonce. The payload is shorter than 2 ^ 32 bytes.
    pub read-create :
        (message : DeviceBoundSimpleMessage) (nonce : ℕ) (public : VerifyingKey)
        (private : SigningKey) (more : Bytes) (s : Stream) {payload frame : Bytes}
        {received : ServerBoundSimpleMessage}
        → KeyPair public private
        → c.encode message ≡ ok payload
        → length payload < 2 ^ 32
        → c.decode payload ≡ ok received
        → (create_signed_message message nonce private).0 ≡ ok frame
        → read_signed_message public nonce (feed (frame ++ more) s)
          ≡ (ok (received, feed more s), (create_signed_message message nonce private).1)
    unfolding read_signed_message create_signed_message
    read-create message nonce public private more s {payload} {frame} pair encoded short decoded
          created =
        let (signature, signed, layout) = create_inv message nonce private encoded created in
        let exact : length payload % 2 ^ 32 ≡ length payload = omega arith in
        let signed' = rw exact at signed in
        let size' = pair.length_signature _ signature signed' in
        rw (layout, encoded, exact)
          (ap (λ (x : Result (ServerBoundSimpleMessage × Stream)). (x, next_nonce nonce))
            (read_frame_sealed public (next_nonce nonce) (length payload) payload signature more s
              (omega arith)
              (read_body_sealed public (next_nonce nonce) (length payload) payload signature more s
                short refl size'
                (open_frame_sealed public (next_nonce nonce) (length payload) payload signature refl
                  (pair.verifies _ signature signed') decoded))))
