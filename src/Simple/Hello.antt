-- ===== src/Simple/Hello.antt =====
-- The start of `handle_conn` of src/devices/controllers/simple.rs: the exchange of the nonces, and the
-- message by which a device identifies itself.
use devicectrl_server.Prelude.{
  ℕ, ◌^◌, ◌<◌, ◌≡◌, refl, ◌++◌, Result, ok, with_context, length, ◌>>=◌,
}
use devicectrl_server.Deps.{Deps, Bytes}
use devicectrl_server.Devices.{Devices}
use devicectrl_server.Simple.Codec.{SimpleCodec, Reader, Delivers, to_be_bytes}
use devicectrl_server.Simple.Messages.{identify}

module _ ⦃d : Deps⦄ ⦃r : Reader⦄ where
  -- what the rest of `handle_conn` goes on with
  pub record Greeting : Type 0 where
    pub device_id : ℕ
    pub public_key : d.VerifyingKey
    pub expected_recv_nonce : ℕ
    pub send_nonce : ℕ
    pub rest : r.Stream

module _ ⦃d : Deps⦄ ⦃c : SimpleCodec⦄ ⦃r : Reader⦄ where
  -- `written` is what `write_u32` of the random nonce yields
  unfoldable pub greet :
      (expected_recv_nonce : ℕ)
      → (written : Result (Unit {0})) → r.Stream
      → Devices
      → Result Greeting
  greet expected_recv_nonce written s devices = do
    _ ← written
    (send_nonce, s1) ← with_context "Client nonce is not 4 bytes" (r.read_u32 s)
    (identify_message_len, s2) ←
        with_context "Identify message length is not 4 bytes" (r.read_u32 s1)
    (identify_buf, s3) ←
        with_context "Failed to read identify message" (r.read_exact identify_message_len s2)
    (device_id, public_key) ← identify identify_buf devices
    ok (record {
      device_id = device_id;
      public_key = public_key;
      expected_recv_nonce = expected_recv_nonce;
      send_nonce = send_nonce;
      rest = s3;
    })

  -- A device that sends a u32 nonce, the length of its message and a message that identifies it is
  -- greeted as that device, at its nonce, and the stream is left behind the message.
  pub greet-identify :
      (line : Delivers r) (nonce send_nonce : ℕ) (buf bytes : Bytes) (s : r.Stream)
      (devices : Devices) {id : ℕ} {key : d.VerifyingKey}
      → send_nonce < 2 ^ 32
      → length buf < 2 ^ 32
      → identify buf devices ≡ ok (id, key)
      → greet nonce
          (ok tt)
          (line.feed (to_be_bytes send_nonce ++ (to_be_bytes (length buf) ++ (buf ++ bytes))) s)
          devices
        ≡ ok (record {
          device_id = id;
          public_key = key;
          expected_recv_nonce = nonce;
          send_nonce = send_nonce;
          rest = line.feed bytes s;
        })
  unfolding greet ◌>>=◌
  greet-identify line nonce send_nonce buf bytes s devices small short identified =
      rw
        (
          line.read_u32-feed send_nonce (to_be_bytes (length buf) ++ (buf ++ bytes)) s small,
          line.read_u32-feed (length buf) (buf ++ bytes) s short,
          line.read_exact-feed (length buf) buf bytes s refl,
          identified,
        )
        refl
