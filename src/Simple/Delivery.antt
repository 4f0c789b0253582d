-- ===== src/Simple/Delivery.antt =====
-- What a connection of src/devices/controllers/simple.rs writes to its device, and what it changes.
use devicectrl_server.Prelude.{
  ℕ, ◌≡◌, refl, true, Option, none, some, List, [], ◌∷◌, Result, ok, err, Error, arith, ◌⊎◌, inl,
  inr, Bool-cases, Option-cases, Result-cases,
}
use devicectrl_server.Deps.{Deps, Bytes}
use devicectrl_server.Common.{DeviceBoundSimpleMessage}
use devicectrl_server.App.{Env, AppState}
use devicectrl_server.Simple.Codec.{SimpleCodec}
use devicectrl_server.Simple.Frame.{next_nonce, create_signed_message}
use devicectrl_server.Simple.Messages.{handle_message}
use devicectrl_server.App.Scope.{OnlyDevice, OnlyDevice-refl, OnlyDevice-trans}
use devicectrl_server.Simple.Isolation.{handle_message-OnlyDevice}
use devicectrl_server.Simple.Connection.{
  Turn, received, reader_gone, requested, channel_error, Wire, Outcome, Served, is_for,
  write_message, after_message, take_turn, with_frame, serve,
}

module _ ⦃d : Deps⦄ where
  -- the one device that a message is meant for
  abbrev pub addressee : DeviceBoundSimpleMessage → Option ℕ
  addressee (DeviceBoundSimpleMessage.update_command command) = some command.device_id
  addressee (DeviceBoundSimpleMessage.state_query id) = some id
  addressee (DeviceBoundSimpleMessage.other _) = none

  is_for-addressee :
      (device_id : ℕ) (message : DeviceBoundSimpleMessage)
      → is_for device_id message ≡ true
      → addressee message ≡ some device_id
  unfolding is_for
  is_for-addressee device_id (DeviceBoundSimpleMessage.update_command command) h = ground arith
  is_for-addressee device_id (DeviceBoundSimpleMessage.state_query id) h = ground arith
  is_for-addressee device_id (DeviceBoundSimpleMessage.other _) h = cc

module _ ⦃d : Deps⦄ ⦃c : SimpleCodec⦄ (key : d.SigningKey) (device_id : ℕ) where
  -- why a message may be written: it is a request for this device, or reports an error
  abbrev pub IsDue : DeviceBoundSimpleMessage → Type 0
  IsDue message = (addressee message ≡ some device_id) ⊎ ((x : Error) × (message ≡ c.failure_of x))

  -- frames of due messages, each signed under the nonce that follows the one before
  abbrev pub IsDelivery : ℕ → List (DeviceBoundSimpleMessage × Bytes) → Type 0
  IsDelivery nonce [] = Unit
  IsDelivery nonce ((message, frame) ∷ frames) =
      IsDue message
      × (create_signed_message message nonce key ≡ (ok frame, next_nonce nonce))
      × IsDelivery (next_nonce nonce) frames

  -- what a turn that does not end the loop has done
  abbrev Continues : ℕ → Outcome → Type 0
  Continues nonce o =
      ((o.frame ≡ none) × (o.nonce ≡ nonce))
      ⊎ ((message : DeviceBoundSimpleMessage) × (frame : Bytes) × (o.frame ≡ some (message, frame))
          × IsDue message
          × (create_signed_message message nonce key ≡ (ok frame, o.nonce))
          × (o.nonce ≡ next_nonce nonce))

  create_moves_nonce :
      (message : DeviceBoundSimpleMessage) (nonce : ℕ) {frame : Bytes}
      → (create_signed_message message nonce key).0 ≡ ok frame
      → (create_signed_message message nonce key).1 ≡ next_nonce nonce
  unfolding create_signed_message
  create_moves_nonce message nonce h = ground arith

module _ ⦃d : Deps⦄ ⦃e : Env⦄ ⦃c : SimpleCodec⦄ ⦃w : Wire⦄ (key : d.SigningKey)
    (device_id : ℕ) where
  write_message-Continues :
      (message : DeviceBoundSimpleMessage) (nonce : ℕ) (s : AppState)
      → IsDue key device_id message
      → (write_message key device_id message nonce s).ended ≡ none
      → Continues key device_id nonce (write_message key device_id message nonce s)
  unfolding write_message
  write_message-Continues message nonce s due h =
      elim (Result-cases (create_signed_message message nonce key).0) [
        | inl (frame, made) ↦
            elim (Result-cases (w.write_all (create_signed_message message nonce key).1 frame)) [
              | inl (_, sent) ↦ inr (
                message,
                frame,
                ground arith,
                due,
                ground arith,
                ground (arith, create_moves_nonce key device_id message nonce made),
              )
              | inr (x, failed) ↦ absurd (ground arith)
            ]
        | inr (x, bad) ↦ absurd (ground arith)
      ]

  after_message-Continues :
      (r : Result (Unit {0})) (nonce : ℕ) (s : AppState)
      → (after_message key device_id r nonce s).ended ≡ none
      → Continues key device_id nonce (after_message key device_id r nonce s)
  unfolding after_message
  after_message-Continues (ok _) nonce s h = inl (refl, refl)
  after_message-Continues (err x) nonce s h = write_message-Continues _ nonce s (inr (_, refl)) h

  take_turn-Continues :
      (turn : Turn) (nonce : ℕ) (s : AppState)
      → (take_turn key device_id turn nonce s).ended ≡ none
      → Continues key device_id nonce (take_turn key device_id turn nonce s)
  unfolding take_turn
  take_turn-Continues (received message) nonce s h =
      let (r, t) = handle_message message device_id s in after_message-Continues r nonce t h
  take_turn-Continues reader_gone nonce s h = cc
  take_turn-Continues (requested request) nonce s h = elim (Bool-cases (is_for device_id request)) [
    | inl due ↦ rw due (
        write_message-Continues request nonce s (inl (is_for-addressee device_id request due))
          (rw due at h))
    | inr other ↦ rw other (inl (refl, refl))
  ]
  take_turn-Continues (channel_error x) nonce s h = cc

  write_message-state :
      (message : DeviceBoundSimpleMessage) (nonce : ℕ) (s : AppState)
      → (write_message key device_id message nonce s).state ≡ s
  unfolding write_message
  write_message-state message nonce s = ground arith

  after_message-state :
      (r : Result (Unit {0})) (nonce : ℕ) (s : AppState)
      → (after_message key device_id r nonce s).state ≡ s
  unfolding after_message
  after_message-state (ok _) nonce s = refl
  after_message-state (err x) nonce s = write_message-state _ nonce s

  take_turn-OnlyDevice :
      (turn : Turn) (nonce : ℕ) (s : AppState)
      → OnlyDevice device_id s (take_turn key device_id turn nonce s).state
  unfolding take_turn
  take_turn-OnlyDevice (received message) nonce s =
      rw
        (after_message-state (handle_message message device_id s).0 nonce
          (handle_message message device_id s).1)
        (handle_message-OnlyDevice message device_id s)
  take_turn-OnlyDevice reader_gone nonce s = OnlyDevice-refl device_id s
  take_turn-OnlyDevice (requested request) nonce s = elim (Bool-cases (is_for device_id request)) [
    | inl due ↦ rw (due, write_message-state request nonce s) (OnlyDevice-refl device_id s)
    | inr other ↦ rw other (OnlyDevice-refl device_id s)
  ]
  take_turn-OnlyDevice (channel_error x) nonce s = OnlyDevice-refl device_id s

  -- the loop after its first turn
  serve_after : Outcome → List Turn → Served
  serve_after o turns = elim o.ended [
    | some r ↦ record { ended = some r; frames = []; state = o.state }
    | none ↦ with_frame o.frame (serve key device_id turns o.nonce o.state)
  ]

  serve_after-IsDelivery :
      (o : Outcome) (turns : List Turn) (nonce : ℕ) (s : AppState)
      → (o.ended ≡ none → Continues key device_id nonce o)
      → OnlyDevice device_id s o.state
      → IsDelivery key device_id o.nonce (serve key device_id turns o.nonce o.state).frames
      → OnlyDevice device_id o.state (serve key device_id turns o.nonce o.state).state
      → IsDelivery key device_id nonce (serve_after o turns).frames
        × OnlyDevice device_id s (serve_after o turns).state
  unfolding serve_after
  serve_after-IsDelivery o turns nonce s goes_on first delivered rest =
      elim (Option-cases o.ended) [
        | inl open_still ↦ elim (goes_on open_still) [
          | inl (silent, same) ↦
              rw (open_still, silent) (rw (← same) delivered, OnlyDevice-trans first rest)
          | inr (message, frame, written, due, created, moved) ↦
              rw (open_still, written)
                ((due, rw (← moved) created, rw (← moved) delivered), OnlyDevice-trans first rest)
        ]
        | inr (r, over) ↦ rw over (tt, first)
      ]

  -- Whatever the turns of a connection are, the frames that it writes are its device's own requests
  -- and reports of errors, each signed under the nonce that follows the one before; and it leaves
  -- every other device's entry in the registry as it was.
  pub serve-IsDelivery :
      (turns : List Turn) (nonce : ℕ) (s : AppState)
      → IsDelivery key device_id nonce (serve key device_id turns nonce s).frames
        × OnlyDevice device_id s (serve key device_id turns nonce s).state
  unfolding serve serve_after
  serve-IsDelivery [] nonce s = (tt, OnlyDevice-refl device_id s)
  serve-IsDelivery (turn ∷ turns) nonce s =
      let o = take_turn key device_id turn nonce s in
      let (delivered, rest) = serve-IsDelivery turns o.nonce o.state in
      serve_after-IsDelivery o turns nonce s (take_turn-Continues turn nonce s)
        (take_turn-OnlyDevice turn nonce s) delivered rest
