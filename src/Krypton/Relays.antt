-- ===== src/Krypton/Relays.antt =====
-- Which requests a connection of src/devices/controllers/krypton.rs passes on.
use devicectrl_server.Prelude.{
  ℕ, ◌+◌, ◌≡◌, refl, ◌∙◌, ap, sym, Option, none, List, [], ◌∷◌, ◌++◌, Result, ok, err, context, inl,
  inr, Bool-cases, ◌>>=◌ as ◌>>?◌, filter,
}
use devicectrl_server.Deps.{Deps, Bytes}
use devicectrl_server.Common.{DeviceBoundKryptonMessage}
use devicectrl_server.App.{Env, AppState}
use devicectrl_server.Krypton.Codec.{KryptonCodec, Framed}
use devicectrl_server.Krypton.Messages.{handle_message}
use devicectrl_server.Krypton.Connection.{
  Turn, received, stream_error, closed, requested, channel_error, Outcome, Written, report, relay,
  is_for, send, then_rest, after_message, take_turn, serve,
}

module _ ⦃d : Deps⦄ where
  -- the requests among the turns, and among what was written
  abbrev pub requests : List Turn → List DeviceBoundKryptonMessage
  requests [] = []
  requests (requested request ∷ turns) = request ∷ requests turns
  requests (_ ∷ turns) = requests turns

  abbrev pub relayed : List Written → List DeviceBoundKryptonMessage
  relayed [] = []
  relayed (relay request frame ∷ written) = request ∷ relayed written
  relayed (report x frame ∷ written) = relayed written

  -- Frames and requests arrive, and the stream and the channel do not fail or end.
  abbrev pub GoesOn : List Turn → Type 0
  GoesOn [] = Unit
  GoesOn (received buf ∷ turns) = GoesOn turns
  GoesOn (requested request ∷ turns) = GoesOn turns
  GoesOn (_ ∷ turns) = ⊥

  relayed-append : (xs ys : List Written) → relayed (xs ++ ys) ≡ relayed xs ++ relayed ys
  relayed-append [] ys = refl
  relayed-append (relay request frame ∷ xs) ys = ap (◌∷◌ request) (relayed-append xs ys)
  relayed-append (report x frame ∷ xs) ys = relayed-append xs ys

module _ ⦃d : Deps⦄ ⦃c : KryptonCodec⦄ ⦃f : Framed⦄ where
  -- Every message can be encoded, and every frame written.
  abbrev pub AllSent : Type 0
  AllSent =
      ((message : DeviceBoundKryptonMessage) → (frame : Bytes) × (c.encode message ≡ ok frame))
      × ((n : ℕ) (frame : Bytes) → f.send n frame ≡ ok tt)

module _ ⦃d : Deps⦄ ⦃e : Env⦄ ⦃c : KryptonCodec⦄ ⦃f : Framed⦄ (device_id : ℕ) where
  send-AllSent :
      (n : ℕ) (message : DeviceBoundKryptonMessage)
      → AllSent
      → (frame : Bytes) × (send device_id n message ≡ ok frame)
  unfolding ◌>>?◌
  send-AllSent n message (encodes, sends) =
      let (frame, encoded) = encodes message in (frame, rw (encoded, sends n frame) refl)

  -- a turn that writes at most a report, or passes a request on
  after_message-relays :
      (n : ℕ) (r : Result (Unit {0})) (s : AppState)
      → AllSent
      → ((after_message device_id n r s).ended ≡ none)
        × (relayed (after_message device_id n r s).written ≡ [])
  unfolding after_message
  after_message-relays n (ok _) s sent = (refl, refl)
  after_message-relays n (err x) s sent =
      let (frame, done) =
        send-AllSent n (c.failure_of (context "failed to handle krypton message" x)) sent in
      rw done (refl, refl)

  take_turn-relays :
      (n : ℕ) (turn : Turn) (s : AppState)
      → AllSent
      → GoesOn (turn ∷ [])
      → ((take_turn device_id n turn s).ended ≡ none)
        × (relayed (take_turn device_id n turn s).written
            ≡ filter (is_for device_id) (requests (turn ∷ [])))
  unfolding take_turn
  take_turn-relays n (received buf) s sent goes =
      after_message-relays n (handle_message buf device_id s).0 (handle_message buf device_id s).1
        sent
  take_turn-relays n (requested request) s sent goes =
      let (frame, done) = send-AllSent n request sent in
      elim (Bool-cases (is_for device_id request)) [
        | inl own ↦ rw (own, done) (refl, refl)
        | inr foreign ↦ rw foreign (refl, refl)
      ]
  take_turn-relays n (stream_error x) s sent goes = absurd goes
  take_turn-relays n closed s sent goes = absurd goes
  take_turn-relays n (channel_error x) s sent goes = absurd goes

  GoesOn-cons :
      (turn : Turn) (turns : List Turn) → GoesOn (turn ∷ turns) → GoesOn (turn ∷ []) × GoesOn turns
  GoesOn-cons (received buf) turns h = (tt, h)
  GoesOn-cons (requested request) turns h = (tt, h)
  GoesOn-cons (stream_error x) turns h = absurd h
  GoesOn-cons closed turns h = absurd h
  GoesOn-cons (channel_error x) turns h = absurd h

  filter-requests :
      (turn : Turn) (turns : List Turn)
      → filter (is_for device_id) (requests (turn ∷ turns))
        ≡ filter (is_for device_id) (requests (turn ∷ []))
          ++ filter (is_for device_id) (requests turns)
  filter-requests (requested request) turns = elim (Bool-cases (is_for device_id request)) [
    | inl own ↦ rw own refl
    | inr foreign ↦ rw foreign refl
  ]
  filter-requests (received buf) turns = refl
  filter-requests (stream_error x) turns = refl
  filter-requests closed turns = refl
  filter-requests (channel_error x) turns = refl

  then_rest-relays :
      (o rest : Outcome) {ended : Option (Result (Unit {0}))}
      → ended ≡ none
      → ((then_rest ended o rest).ended ≡ rest.ended)
        × (relayed (then_rest ended o rest).written ≡ relayed o.written ++ relayed rest.written)
  then_rest-relays o rest h = rw h (refl, relayed-append o.written rest.written)

  pub serve-relays :
      (n : ℕ) (turns : List Turn) (s : AppState)
      → AllSent
      → GoesOn turns
      → ((serve device_id n turns s).ended ≡ none)
        × (relayed (serve device_id n turns s).written ≡ filter (is_for device_id) (requests turns))
  unfolding serve
  serve-relays n [] s sent goes = (refl, refl)
  serve-relays n (turn ∷ turns) s sent goes =
      let (now, later) = GoesOn-cons turn turns goes in
      let o = take_turn device_id n turn s in
      let (goes_on, passed) = take_turn-relays n turn s sent now in
      let (open_, rest) = serve-relays (n + 1) turns o.state sent later in
      let (same, both) = then_rest-relays o (serve device_id (n + 1) turns o.state) goes_on in
      (same ∙ open_, both ∙ rw (passed, rest) (sym (filter-requests turn turns)))
