-- ===== src/Krypton/Connection.antt =====
-- The loop of `handle_conn` of src/devices/controllers/krypton.rs: what a connection does at each
-- turn of `select`, for a device whose certificate was accepted.
use devicectrl_server.Prelude.{
  ℕ, ◌+◌, Bool, false, Option, none, some, List, [], ◌∷◌, ◌++◌, ◌==◌, if◌then◌else◌, Result, ok,
  err, Error, context, ◌>>=◌ as ◌>>?◌,
}
use devicectrl_server.Deps.{Deps, Bytes}
use devicectrl_server.Common.{DeviceBoundKryptonMessage}
use devicectrl_server.App.{Env, AppState}
use devicectrl_server.Krypton.Codec.{KryptonCodec, Framed}
use devicectrl_server.Krypton.Messages.{handle_message}

module _ ⦃d : Deps⦄ where
  -- What `select` yields: from the stream a frame, an error or its end; from the controller's
  -- broadcast channel a request, or an error such as that of a receiver that lags.
  pub data Turn : Type 0 where
    received : Bytes → Turn
    stream_error : Error → Turn
    closed : Turn
    requested : DeviceBoundKryptonMessage → Turn
    channel_error : Error → Turn

  -- `Some(device_id) != match &request { .. }`, negated
  unfoldable pub is_for : ℕ → DeviceBoundKryptonMessage → Bool
  is_for device_id (DeviceBoundKryptonMessage.update_command command) =
      command.device_id == device_id
  is_for device_id (DeviceBoundKryptonMessage.state_query id) = id == device_id
  is_for device_id (DeviceBoundKryptonMessage.other _) = false

  -- what was written: a report of an error, or a request that is passed on
  pub data Written : Type 0 where
    report : Error → Bytes → Written
    relay : DeviceBoundKryptonMessage → Bytes → Written

  -- how a turn ends the loop, if it does, and what it wrote
  pub record Outcome : Type 0 where
    pub ended : Option (Result (Unit {0}))
    pub written : List Written
    pub state : AppState

  -- nothing was written
  abbrev pub quiet : Option (Result (Unit {0})) → AppState → Outcome
  quiet ended s = record { ended = ended; written = []; state = s }

  abbrev pub written_by : (Bytes → Written) → Result Bytes → AppState → Outcome
  written_by w (ok data') s = record { ended = none; written = w data' ∷ []; state = s }
  written_by w (err x) s = quiet (some (err x)) s

  -- the turns after one, if it did not end the loop
  abbrev pub then_rest : Option (Result (Unit {0})) → (o rest : Outcome) → Outcome
  then_rest (some r) o rest = o
  then_rest none o rest = record rest { written = o.written ++ rest.written }

module _ ⦃d : Deps⦄ ⦃e : Env⦄ ⦃c : KryptonCodec⦄ ⦃f : Framed⦄ (device_id : ℕ) where
  -- `stream.send(serde_json::to_vec(&message)?.into()).await?`
  abbrev pub send : ℕ → DeviceBoundKryptonMessage → Result Bytes
  send n message = c.encode message >>? λ data'. f.send n data' >>? λ _. ok data'

  unfoldable pub after_message : ℕ → Result (Unit {0}) → AppState → Outcome
  after_message n (ok _) s = quiet none s
  after_message n (err x) s =
      let x' = context "failed to handle krypton message" x in
      written_by (report x') (send n (c.failure_of x')) s

  unfoldable pub take_turn : ℕ → Turn → AppState → Outcome
  unfolding after_message
  take_turn n (received buf) s = let (r, t) = handle_message buf device_id s in after_message n r t
  take_turn n (stream_error x) s = quiet (some (err x)) s
  take_turn n closed s = quiet (some (ok tt)) s
  take_turn n (requested request) s =
      if is_for device_id request
      then written_by (relay request) (send n request) s
      else quiet none s
  take_turn n (channel_error x) s =
      quiet (some (err (context "failed to recv krypton message" x))) s

  -- The loop from its n-th turn on: how it ended (`none`: still open), what it wrote, the state.
  unfoldable pub serve : ℕ → List Turn → AppState → Outcome
  serve n [] s = quiet none s
  serve n (turn ∷ turns) s =
      let o = take_turn n turn s in
      let rest = serve (n + 1) turns o.state in then_rest o.ended o rest
