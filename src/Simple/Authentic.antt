-- ===== src/Simple/Authentic.antt =====
-- Every message that the reading task of src/devices/controllers/simple.rs hands on was signed by
-- the device's key, under the nonce that follows the one before.
use devicectrl_server.Prelude.{
  ℕ, zero, suc, ◌+◌, ◌^◌, ◌<◌, ◌≡◌, ◌≢◌, refl, List, [], ◌∷◌, Error, ok, err, nonce_mismatch,
  with_context_inv, >>=_inv, ◌>>=◌, length, take, drop, arith, inl, inr, length-take, Result-cases,
  length-drop,
}
use devicectrl_server.Deps.{Deps, Bytes}
use devicectrl_server.Common.{ServerBoundSimpleMessage}
use devicectrl_server.Simple.Codec.{SimpleCodec, Reader}
use devicectrl_server.Simple.Frame.{
  next_nonce, signed_part, open_frame, read_body, read_frame, read_signed_message, read_loop,
}

eight : (n : ℕ) → 4 + 4 + n ≡ suc (suc (suc (suc (suc (suc (suc (suc n)))))))
eight n = omega arith

pub take-signed_part :
    (n nonce data_len : ℕ) (body : Bytes)
    → take (4 + 4 + n) (signed_part nonce data_len body) ≡ signed_part nonce data_len (take n body)
take-signed_part n nonce data_len body = rw (eight n)

pub drop-signed_part :
    (n nonce data_len : ℕ) (body : Bytes)
    → drop (4 + 4 + n) (signed_part nonce data_len body) ≡ drop n body
drop-signed_part n nonce data_len body = rw (eight n)

module _ ⦃d : Deps⦄ ⦃c : SimpleCodec⦄ where
  open d use {VerifyingKey, signature_len, verify}

  -- `message` came under `nonce`, in bytes that `key` verifies
  pub record IsSigned (key : VerifyingKey) (nonce : ℕ) (message : ServerBoundSimpleMessage)
      : Type 0 where
    pub payload : Bytes
    pub signature : Bytes
    pub length_signature : length signature ≡ signature_len
    pub verified : verify key (signed_part nonce (length payload) payload) signature ≡ ok tt
    pub decoded : c.decode payload ≡ ok message

  -- messages signed in their order, the first under the nonce after `nonce`
  abbrev pub IsAuthentic : VerifyingKey → ℕ → List ServerBoundSimpleMessage → Type 0
  IsAuthentic key nonce [] = Unit
  IsAuthentic key nonce (message ∷ messages) =
      IsSigned key (next_nonce nonce) message × IsAuthentic key (next_nonce nonce) messages

  open_frame-IsSigned :
      (key : VerifyingKey) (nonce data_len : ℕ) (body : Bytes) {message : ServerBoundSimpleMessage}
      → length body ≡ data_len + signature_len
      → open_frame key nonce data_len body ≡ ok message
      → IsSigned key nonce message
  unfolding open_frame
  open_frame-IsSigned key nonce data_len body e h =
      let (_, h1, h2) = >>=_inv _ _ h in
      let size : length (take data_len body) ≡ data_len =
        omega (arith, length-take data_len body) in
      record {
        payload = take data_len body;
        signature = drop data_len body;
        length_signature = omega (arith, length-drop data_len body);
        verified =
            rw
              (
                size,
                ← take-signed_part data_len nonce data_len body,
                ← drop-signed_part data_len nonce data_len body,
              )
              h1;
        decoded = rw take-signed_part at h2;
      }

  -- An accepted frame carries the expected nonce and a message signed under it.
  module _ ⦃r : Reader⦄ where
    open r use {Stream, read_u32, read_exact, length-read_exact}

    read_body-IsSigned :
        (key : VerifyingKey) (nonce : ℕ) (s : Stream) {message : ServerBoundSimpleMessage}
        {t : Stream}
        → read_body key nonce s ≡ ok (message, t)
        → IsSigned key nonce message
    unfolding read_body
    read_body-IsSigned key nonce s {message} h =
        let ((data_len, s1), h1, k1) = >>=_inv _ _ h in
        let ((body, s2), h2, k2) = >>=_inv _ _ k1 in
        let (message', h3, k3) = >>=_inv _ _ k2 in
        let same : message' ≡ message = ground arith in
        let size =
          length-read_exact _ s1
            (with_context_inv _ (read_exact (data_len + signature_len) s1) h2) in
        open_frame-IsSigned key nonce data_len body size (rw same at h3)

    read_frame-IsSigned :
        (key : VerifyingKey) (expected : ℕ) (s : Stream) {message : ServerBoundSimpleMessage}
        {t : Stream}
        → read_frame key expected s ≡ ok (message, t)
        → IsSigned key expected message
    unfolding read_frame
    read_frame-IsSigned key expected s {message} {t} h =
        let ((nonce, s1), h1, k1) = >>=_inv _ _ h in
        let same : expected ≡ nonce = ground arith in
        let k2 : read_body key expected s1 ≡ ok (message, t) = ground arith in
        read_body-IsSigned key expected s1 k2

    -- A message that is accepted carries the nonce after the expected one and a signature of the
    -- device over nonce, length and message; and whatever arrives, the nonce moves on by one.
    pub read_signed_message-IsSigned :
        (key : VerifyingKey) (expected : ℕ) (s : Stream)
        → ((message : ServerBoundSimpleMessage) (t : Stream)
            → (read_signed_message key expected s).0 ≡ ok (message, t)
            → IsSigned key (next_nonce expected) message)
          × ((read_signed_message key expected s).1 ≡ next_nonce expected)
    unfolding read_signed_message
    read_signed_message-IsSigned key expected s =
        (λ message t h. read_frame-IsSigned key (next_nonce expected) s h, refl)

    read_loop_good :
        (fuel : ℕ) (key : VerifyingKey) (expected : ℕ) (s : Stream)
        {message : ServerBoundSimpleMessage} {t : Stream}
        → (read_signed_message key expected s).0 ≡ ok (message, t)
        → read_loop (suc fuel) key expected s
          ≡ message ∷ read_loop fuel key (read_signed_message key expected s).1 t
    unfolding read_loop
    read_loop_good fuel key expected s h = ground arith

    read_loop_bad :
        (fuel : ℕ) (key : VerifyingKey) (expected : ℕ) (s : Stream) {x : Error}
        → (read_signed_message key expected s).0 ≡ err x
        → read_loop (suc fuel) key expected s ≡ []
    unfolding read_loop
    read_loop_bad fuel key expected s h = ground arith

    -- However many frames arrive and whatever is in them, the messages that the reading task hands
    -- on are signed by the device's key under consecutive nonces, in their order.
    pub read_loop-IsAuthentic :
        (fuel : ℕ) (key : VerifyingKey) (expected : ℕ) (s : Stream)
        → IsAuthentic key expected (read_loop fuel key expected s)
    unfolding read_loop
    read_loop-IsAuthentic zero key expected s = tt
    read_loop-IsAuthentic (suc fuel) key expected s =
        elim (Result-cases (read_signed_message key expected s).0) [
          | inl ((message, t), good) ↦ rw (read_loop_good fuel key expected s good) (
            (read_signed_message-IsSigned key expected s).0 message t good,
            rw (read_signed_message-IsSigned key expected s).1
                (read_loop-IsAuthentic fuel key (next_nonce expected) t),
          )
          | inr (x, bad) ↦ rw (read_loop_bad fuel key expected s bad) tt
        ]

    -- A replay is refused: a frame that was accepted while `n` was expected is an error while any
    -- other nonce `m` is.
    pub replay_refused :
        (key : VerifyingKey) (n m : ℕ) (s t : Stream) {message : ServerBoundSimpleMessage}
        → n < 2 ^ 32
        → m < 2 ^ 32
        → n ≢ m
        → (read_signed_message key n s).0 ≡ ok (message, t)
        → (read_signed_message key m s).0 ≡ err (nonce_mismatch (next_nonce m) (next_nonce n))
    unfolding read_signed_message read_frame ◌>>=◌
    replay_refused key n m s t hn hm ne h = ground arith
