-- ===== src/Simple/Connection.antt =====
-- The loop of `handle_conn` of src/devices/controllers/simple.rs: what a connection does at each
-- turn of `select`, for a device that has identified itself.
use devicectrl_server.Prelude.{
  ℕ, Bool, false, Option, none, some, List, [], ◌∷◌, ◌==◌, if◌then◌else◌, Result, ok, err, Error,
  context,
}
use devicectrl_server.Deps.{Deps, Bytes}
use devicectrl_server.Common.{ServerBoundSimpleMessage, DeviceBoundSimpleMessage}
use devicectrl_server.App.{Env, AppState}
use devicectrl_server.Simple.Codec.{SimpleCodec}
use devicectrl_server.Simple.Frame.{create_signed_message}
use devicectrl_server.Simple.Messages.{handle_message}

module _ ⦃d : Deps⦄ where
  -- What `select` yields: from the reading task a message, or that it is gone; from the
  -- controller's broadcast channel a request, or an error such as that of a receiver that lags.
  pub data Turn : Type 0 where
    received : ServerBoundSimpleMessage → Turn
    reader_gone : Turn
    requested : DeviceBoundSimpleMessage → Turn
    channel_error : Error → Turn

  -- `write_all` on the socket, at the n-th write of the connection
  pub record Wire : Type 0 where
    pub write_all : ℕ → Bytes → Result (Unit {0})

  -- `Some(device_id) != match &request { .. }`, negated
  unfoldable pub is_for : ℕ → DeviceBoundSimpleMessage → Bool
  is_for device_id (DeviceBoundSimpleMessage.update_command command) =
      command.device_id == device_id
  is_for device_id (DeviceBoundSimpleMessage.state_query id) = id == device_id
  is_for device_id (DeviceBoundSimpleMessage.other _) = false

  -- how a turn ends the loop, if it does, with the frame that it wrote, beside its message
  pub record Outcome : Type 0 where
    pub ended : Option (Result (Unit {0}))
    pub frame : Option (DeviceBoundSimpleMessage × Bytes)
    pub nonce : ℕ
    pub state : AppState

  unfoldable pub write_frame :
      DeviceBoundSimpleMessage → Result Bytes → Result (Unit {0}) → ℕ → AppState → Outcome
  write_frame message (err x) written nonce s = record {
    ended = some (err x);
    frame = none;
    nonce = nonce;
    state = s;
  }
  write_frame message (ok frame) (err x) nonce s = record {
    ended = some (err x);
    frame = none;
    nonce = nonce;
    state = s;
  }
  write_frame message (ok frame) (ok _) nonce s = record {
    ended = none;
    frame = some (message, frame);
    nonce = nonce;
    state = s;
  }

  unfoldable pub wire_result : ⦃w : Wire⦄ → ℕ → Result Bytes → Result (Unit {0})
  wire_result ⦃w⦄ nonce (ok frame) = w.write_all nonce frame
  wire_result ⦃w⦄ nonce (err x) = err x

  -- the whole loop: how it ended (`none`: still open), the frames in their order, and the state
  pub record Served : Type 0 where
    pub ended : Option (Result (Unit {0}))
    pub frames : List (DeviceBoundSimpleMessage × Bytes)
    pub state : AppState

  abbrev pub with_frame : Option (DeviceBoundSimpleMessage × Bytes) → Served → Served
  with_frame none rest = rest
  with_frame (some f) rest = record rest { frames = f ∷ rest.frames }

module _ ⦃d : Deps⦄ ⦃e : Env⦄ ⦃c : SimpleCodec⦄ ⦃w : Wire⦄ (key : d.SigningKey)
    (device_id : ℕ) where
  -- `write.write_all(&create_signed_message(..)?).await?`
  unfoldable pub write_message : DeviceBoundSimpleMessage → ℕ → AppState → Outcome
  unfolding write_frame wire_result
  write_message message nonce s =
      let (frame, nonce') = create_signed_message message nonce key in
      write_frame message frame (wire_result nonce' frame) nonce' s

  unfoldable pub after_message : Result (Unit {0}) → ℕ → AppState → Outcome
  after_message (ok _) nonce s = record { ended = none; frame = none; nonce = nonce; state = s }
  after_message (err x) nonce s =
      write_message (c.failure_of (context "failed to handle simple message" x)) nonce s

  unfoldable pub take_turn : Turn → ℕ → AppState → Outcome
  unfolding after_message
  take_turn (received message) nonce s =
      let (r, t) = handle_message message device_id s in after_message r nonce t
  take_turn reader_gone nonce s = record {
    ended = some (ok tt);
    frame = none;
    nonce = nonce;
    state = s;
  }
  take_turn (requested request) nonce s =
      if is_for device_id request
      then write_message request nonce s
      else record { ended = none; frame = none; nonce = nonce; state = s }
  take_turn (channel_error x) nonce s = record {
    ended = some (err (context "failed to recv simple message" x));
    frame = none;
    nonce = nonce;
    state = s;
  }

  unfoldable pub serve : List Turn → ℕ → AppState → Served
  serve [] nonce s = record { ended = none; frames = []; state = s }
  serve (turn ∷ turns) nonce s =
      let o = take_turn turn nonce s in
      elim o.ended [
        | some r ↦ record { ended = some r; frames = []; state = o.state }
        | none ↦ with_frame o.frame (serve turns o.nonce o.state)
      ]
