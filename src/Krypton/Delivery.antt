-- ===== src/Krypton/Delivery.antt =====
-- What a connection of src/devices/controllers/krypton.rs writes to its device, and what it changes.
use devicectrl_server.Prelude.{
  ℕ, ◌+◌, ◌≡◌, refl, ◌∙◌, true, Option, none, some, List, [], ◌∷◌, ◌++◌, Result, ok, err, arith,
  inl, inr, Bool-cases, >>=_inv,
}
use devicectrl_server.Deps.{Deps, Bytes}
use devicectrl_server.Common.{DeviceBoundKryptonMessage}
use devicectrl_server.App.{Env, AppState}
use devicectrl_server.App.Scope.{OnlyDevice, OnlyDevice-refl, OnlyDevice-trans}
use devicectrl_server.Krypton.Codec.{KryptonCodec, Framed}
use devicectrl_server.Krypton.Messages.{handle_message}
use devicectrl_server.Krypton.Isolation.{handle_message-OnlyDevice}
use devicectrl_server.Krypton.Connection.{
  Turn, received, stream_error, closed, requested, channel_error, Outcome, Written, report, relay,
  is_for, send, written_by, then_rest, after_message, take_turn, serve,
}

module _ ⦃d : Deps⦄ where
  -- the one device that a message is meant for
  abbrev pub addressee : DeviceBoundKryptonMessage → Option ℕ
  addressee (DeviceBoundKryptonMessage.update_command command) = some command.device_id
  addressee (DeviceBoundKryptonMessage.state_query id) = some id
  addressee (DeviceBoundKryptonMessage.other _) = none

  is_for-addressee :
      (device_id : ℕ) (message : DeviceBoundKryptonMessage)
      → is_for device_id message ≡ true
      → addressee message ≡ some device_id
  unfolding is_for
  is_for-addressee device_id (DeviceBoundKryptonMessage.update_command command) h = ground arith
  is_for-addressee device_id (DeviceBoundKryptonMessage.state_query id) h = ground arith
  is_for-addressee device_id (DeviceBoundKryptonMessage.other _) h = cc

module _ ⦃d : Deps⦄ ⦃c : KryptonCodec⦄ (device_id : ℕ) where
  -- why a frame may be written: it encodes a request for this device, or the report of an error
  abbrev pub IsDue : Written → Type 0
  IsDue (report x frame) = c.encode (c.failure_of x) ≡ ok frame
  IsDue (relay request frame) = (addressee request ≡ some device_id) × (c.encode request ≡ ok frame)

  abbrev pub AreDue : List Written → Type 0
  AreDue [] = Unit
  AreDue (w ∷ ws) = IsDue w × AreDue ws

  AreDue-append : (xs ys : List Written) → AreDue xs → AreDue ys → AreDue (xs ++ ys)
  AreDue-append [] ys h k = k
  AreDue-append (x ∷ xs) ys h k = (h.0, AreDue-append xs ys h.1 k)

module _ ⦃d : Deps⦄ ⦃e : Env⦄ ⦃c : KryptonCodec⦄ ⦃f : Framed⦄ (device_id : ℕ) where
  send_inv :
      (n : ℕ) (message : DeviceBoundKryptonMessage) {frame : Bytes}
      → send device_id n message ≡ ok frame
      → c.encode message ≡ ok frame
  send_inv n message h =
      let (data', encoded, k) = >>=_inv _ _ h in let (done, sent, l) = >>=_inv _ _ k in encoded ∙ l

  written_by-AreDue :
      (w : Bytes → Written) (r : Result Bytes) (s : AppState)
      → ((frame : Bytes) → r ≡ ok frame → IsDue device_id (w frame))
      → AreDue device_id (written_by w r s).written
  written_by-AreDue w (ok frame) s h = (h frame refl, tt)
  written_by-AreDue w (err x) s h = tt

  written_by-state :
      (w : Bytes → Written) (r : Result Bytes) (s : AppState) → (written_by w r s).state ≡ s
  written_by-state w (ok frame) s = refl
  written_by-state w (err x) s = refl

  -- due writes, and no change but to this device
  abbrev pub IsService : AppState → Outcome → Type 0
  IsService s o = AreDue device_id o.written × OnlyDevice device_id s o.state

  after_message-IsService :
      (n : ℕ) (r : Result (Unit {0})) (s t : AppState)
      → OnlyDevice device_id s t
      → IsService s (after_message device_id n r t)
  unfolding after_message
  after_message-IsService n (ok _) s t h = (tt, h)
  after_message-IsService n (err x) s t h =
      (written_by-AreDue _ _ t (λ frame sent. send_inv n _ sent), rw (written_by-state _ _ t) h)

  take_turn-IsService :
      (n : ℕ) (turn : Turn) (s : AppState) → IsService s (take_turn device_id n turn s)
  unfolding take_turn
  take_turn-IsService n (received buf) s =
      after_message-IsService n (handle_message buf device_id s).0 s
        (handle_message buf device_id s).1 (handle_message-OnlyDevice buf device_id s)
  take_turn-IsService n (requested request) s = elim (Bool-cases (is_for device_id request)) [
    | inl own ↦ rw own (
      written_by-AreDue (relay request) _ s
          (λ frame sent. (is_for-addressee device_id request own, send_inv n request sent)),
      rw (written_by-state (relay request) (send device_id n request) s)
          (OnlyDevice-refl device_id s),
    )
    | inr foreign ↦ rw foreign (tt, OnlyDevice-refl device_id s)
  ]
  take_turn-IsService n (stream_error x) s = (tt, OnlyDevice-refl device_id s)
  take_turn-IsService n closed s = (tt, OnlyDevice-refl device_id s)
  take_turn-IsService n (channel_error x) s = (tt, OnlyDevice-refl device_id s)

  then_rest-IsService :
      (ended : Option (Result (Unit {0}))) (o rest : Outcome) (s : AppState)
      → IsService s o
      → IsService o.state rest
      → IsService s (then_rest ended o rest)
  then_rest-IsService (some r) o rest s h k = h
  then_rest-IsService none o rest s h k =
      (AreDue-append device_id o.written rest.written h.0 k.0, OnlyDevice-trans h.1 k.1)

  -- For every sequence of turns of a connection, the frames that it writes encode requests for its
  -- own device and reports of errors; and every other device's entry in the registry stays as it was.
  pub serve-IsService :
      (n : ℕ) (turns : List Turn) (s : AppState) → IsService s (serve device_id n turns s)
  unfolding serve
  serve-IsService n [] s = (tt, OnlyDevice-refl device_id s)
  serve-IsService n (turn ∷ turns) s =
      then_rest-IsService (take_turn device_id n turn s).ended (take_turn device_id n turn s) _ s
        (take_turn-IsService n turn s)
        (serve-IsService (n + 1) turns (take_turn device_id n turn s).state)
