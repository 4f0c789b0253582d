-- ===== src/Clients/Protocol/Answers.antt =====
-- Which messages a client gets for a line that it sent.
use devicectrl_server.Prelude.{
  ℕ, ◌≡◌, refl, ◌∙◌, ap, String, List, [], ◌∷◌, ◌++◌, Result, ok, err, context, Result-cases, inl,
  inr,
}
use devicectrl_server.Deps.{Deps, Bytes}
use devicectrl_server.App.{
  Env, AppState, Effect, Action, send_client, send_hook, device_state_update,
  device_update_dispatch, scene_activate, send_pong, perform, lift, within, or_else, pure, ◌>>=◌,
  ◌>>◌,
}
use devicectrl_server.App.Emits.{
  is_internal, is_command-Implies, AllAre, SameState, Emits, Emits-wider,
}
use devicectrl_server.App.Emits.Rules.{Emits-bind, Emits-find_device}
use devicectrl_server.Clients.Catalog.{catalog}
use devicectrl_server.Clients.Connection.{go_on}
use devicectrl_server.Clients.Messages.{
  Transport, ServerBoundSocketMessage, ClientBoundSocketMessage, SocketCodec,
}
use devicectrl_server.Clients.Protocol.{received, send, obey, handle_line, take_turn}
use devicectrl_server.Controllers.Emits.{Emits-dispatch_query_state}
use devicectrl_server.Dispatch.Request.{process_update_request}
use devicectrl_server.Dispatch.Laws.{Emits-process_update_request}
use devicectrl_server.Scenes.{process_scene_activate}
use devicectrl_server.Scenes.Activation.{Emits-process_scene_activate}
use devicectrl_server.Tasks.Join.{Scheduler}

module _ ⦃d : Deps⦄ where
  -- the messages that were sent to clients, the latest first
  abbrev pub told : List Effect → List ClientBoundSocketMessage
  told [] = []
  told (send_client transport message' frame ∷ trace) = message' ∷ told trace
  told (_ ∷ trace) = told trace

  told-internal :
      (fresh trace : List Effect) → AllAre is_internal fresh → told (fresh ++ trace) ≡ told trace
  told-internal [] trace h = refl
  told-internal (send_hook (device_state_update n) ∷ fresh) trace h = cc
  told-internal (send_hook (device_update_dispatch r) ∷ fresh) trace h =
      told-internal fresh trace h.1
  told-internal (send_hook (scene_activate id) ∷ fresh) trace h = told-internal fresh trace h.1
  told-internal (send_client transport message' frame ∷ fresh) trace h = cc
  told-internal (_ ∷ fresh) trace h = told-internal fresh trace h.1

  pub told-SameState : {s t : AppState} → SameState is_internal s t → told t.trace ≡ told s.trace
  told-SameState {s} h = ap told h.trace ∙ told-internal h.fresh s.trace h.fresh_kind

  pub told-Emits :
      {A : Type 0} (m : Action A) (s : AppState)
      → Emits is_internal m
      → told (m s).1.trace ≡ told s.trace
  told-Emits m s h = told-SameState (h.at s)

module _ ⦃d : Deps⦄ ⦃e : Env⦄ ⦃k : SocketCodec⦄ where
  -- Every message can be encoded, and every frame written.
  pub record AllSent : Type 0 where
    pub encodes :
        (message' : ClientBoundSocketMessage) → (frame : Bytes) × (k.encode message' ≡ ok frame)
    pub sends :
        (t : ℕ) (transport : Transport) (message' : ClientBoundSocketMessage) (frame : Bytes)
        → e.attempt t (send_client transport message' frame) ≡ ok tt
    pub pongs : (t : ℕ) → e.attempt t send_pong ≡ ok tt

module _ ⦃d : Deps⦄ where
  -- What a client is told for a message, the latest first: that an update is under way, before it
  -- is, and that a scene has been activated, if it was.
  abbrev pub answers :
      ServerBoundSocketMessage → Result (Unit {0}) → AppState → List ClientBoundSocketMessage
  answers (ServerBoundSocketMessage.update_request request) r s =
      ClientBoundSocketMessage.request_received ∷ []
  answers (ServerBoundSocketMessage.state_query id) r s = []
  answers (ServerBoundSocketMessage.activate_scene id) (ok _) s =
      ClientBoundSocketMessage.request_received ∷ []
  answers (ServerBoundSocketMessage.activate_scene id) (err x) s = []
  answers ServerBoundSocketMessage.query_catalog r s =
      ClientBoundSocketMessage.catalog (catalog s) ∷ []
  answers (ServerBoundSocketMessage.other _) r s = ClientBoundSocketMessage.unimplemented ∷ []

  abbrev pub reply :
      Result ServerBoundSocketMessage → Result (Unit {0}) → AppState → List ClientBoundSocketMessage
  reply (ok message') r s = answers message' r s
  reply (err x) r s = []

module _ ⦃d : Deps⦄ ⦃k : SocketCodec⦄ where
  -- the report of a line that failed
  abbrev pub report : String → Result (Unit {0}) → List ClientBoundSocketMessage
  report m (ok _) = []
  report m (err x) = k.failure_of (context m x) ∷ []

module _ ⦃d : Deps⦄ ⦃e : Env⦄ ⦃c : Scheduler⦄ ⦃k : SocketCodec⦄ (transport : Transport) where
  pub told-send :
      (message' : ClientBoundSocketMessage) (s : AppState)
      → AllSent
      → ((send transport message' s).0 ≡ ok tt)
        × (told (send transport message' s).1.trace ≡ message' ∷ told s.trace)
  unfolding send lift perform ◌>>=◌
  told-send message' s sent =
      let (frame, encoded) = sent.encodes message' in
      rw (encoded, sent.sends s.clock transport message' frame) (refl, refl)

  Emits-query :
      (id : ℕ) → Emits is_internal (obey transport (ServerBoundSocketMessage.state_query id))
  unfolding obey
  Emits-query id =
      Emits-bind _ _ (Emits-find_device id _)
        λ device. Emits-wider _ is_command-Implies (Emits-dispatch_query_state device)

  told-bound :
      (m : Action (Unit {0})) (f : Action (Unit {0})) (s : AppState)
      → (m s).0 ≡ ok tt
      → ((t : AppState) → told (f t).1.trace ≡ told t.trace)
      → told ((m >> f) s).1.trace ≡ told (m s).1.trace
  unfolding ◌>>=◌
  told-bound m f s h k = rw h (k (m s).1)

  told-scene :
      (id : ℕ) (s : AppState)
      → AllSent
      → told (obey transport (ServerBoundSocketMessage.activate_scene id) s).1.trace
        ≡ answers
            (ServerBoundSocketMessage.activate_scene id)
            (obey transport (ServerBoundSocketMessage.activate_scene id) s).0
            s
          ++ told s.trace
  unfolding obey ◌>>=◌
  told-scene id s sent =
      let silent = told-Emits (process_scene_activate id) s (Emits-process_scene_activate id) in
      let m = ClientBoundSocketMessage.request_received in
      elim (Result-cases (process_scene_activate id s).0) [
        | inl (_, good) ↦
            let (done, sends) = told-send m (process_scene_activate id s).1 sent in
            rw (good, done) (sends ∙ ap (◌∷◌ m) silent)
        | inr (x, bad) ↦ rw bad silent
      ]

  -- Where frames are sent, a client is told exactly the answers to its message, whatever becomes of
  -- the request itself.
  pub told-obey :
      (message' : ServerBoundSocketMessage) (s : AppState)
      → AllSent
      → told (obey transport message' s).1.trace
        ≡ answers message' (obey transport message' s).0 s ++ told s.trace
  unfolding obey
  told-obey (ServerBoundSocketMessage.update_request request) s sent =
      let (done, sends) = told-send ClientBoundSocketMessage.request_received s sent in
      told-bound (send transport ClientBoundSocketMessage.request_received)
        (process_update_request request) s done
        (λ t. told-Emits _ t (Emits-process_update_request request))
      ∙ sends
  told-obey (ServerBoundSocketMessage.state_query id) s sent = told-Emits _ s (Emits-query id)
  told-obey (ServerBoundSocketMessage.activate_scene id) s sent = told-scene id s sent
  told-obey ServerBoundSocketMessage.query_catalog s sent =
      (told-send (ClientBoundSocketMessage.catalog (catalog s)) s sent).1
  told-obey (ServerBoundSocketMessage.other _) s sent =
      (told-send ClientBoundSocketMessage.unimplemented s sent).1

  pub told-handle_line :
      (line : Bytes) (s : AppState)
      → AllSent
      → told (handle_line transport line s).1.trace
        ≡ reply (k.decode line) (handle_line transport line s).0 s ++ told s.trace
  unfolding handle_line lift ◌>>=◌
  told-handle_line line s sent = elim (Result-cases (k.decode line)) [
    | inl (message', decoded) ↦ rw decoded (told-obey message' s sent)
    | inr (x, garbled) ↦ rw garbled refl
  ]

  -- A line never ends the connection: the client is told the answers to it, and then of its
  -- failure, if it failed.
  pub told-received :
      (m : String) (line : Bytes) (s : AppState)
      → AllSent
      → ((take_turn transport m (received line) s).0 ≡ ok go_on)
        × (told (take_turn transport m (received line) s).1.trace
            ≡ report m (handle_line transport line s).0
              ++ (reply (k.decode line) (handle_line transport line s).0 s ++ told s.trace))
  unfolding take_turn or_else within pure ◌>>=◌
  told-received m line s sent =
      let before = told-handle_line line s sent in
      elim (Result-cases (handle_line transport line s).0) [
        | inl (_, good) ↦ rw good (refl, rw good at before)
        | inr (x, bad) ↦
            let (done, sends) =
              told-send (k.failure_of (context m x)) (handle_line transport line s).1 sent in
            rw (bad, done) (refl, sends ∙ ap (◌∷◌ (k.failure_of (context m x))) (rw bad at before))
      ]
