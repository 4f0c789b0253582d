-- ===== src/Clients/Protocol/Quiet.antt =====
-- What no connection ever changes.
use devicectrl_server.Prelude.{refl, String, List, [], ◌∷◌}
use devicectrl_server.Deps.{Deps, Bytes}
use devicectrl_server.App.{Env, device_state_update, device_update_dispatch, scene_activate, Action}
use devicectrl_server.App.Emits.{
  is_unreported, Emits, Emits-wider, is_internal-Implies, is_command-Implies,
}
use devicectrl_server.App.Emits.Rules.{
  Emits-bind, Emits-lift, Emits-perform, Emits-within, Emits-or_else, Emits-pure, Emits-find_device,
}
use devicectrl_server.Clients.Catalog.{catalog}
use devicectrl_server.Clients.Connection.{Flow, go_on, leave, carry_on}
use devicectrl_server.Clients.Messages.{
  Transport, ServerBoundSocketMessage, ClientBoundSocketMessage, SocketCodec,
}
use devicectrl_server.Clients.Protocol.{
  Turn, received, pinged, ignored, closed, hooked, broken, send, obey, handle_line, take_turn,
  serve,
}
use devicectrl_server.Controllers.Emits.{Emits-dispatch_query_state}
use devicectrl_server.Dispatch.Laws.{Emits-process_update_request}
use devicectrl_server.Scenes.Activation.{Emits-process_scene_activate}
use devicectrl_server.Tasks.Join.{Scheduler}

module _ ⦃d : Deps⦄ ⦃e : Env⦄ ⦃c : Scheduler⦄ ⦃k : SocketCodec⦄ (transport : Transport)
    (m : String) where
  pub Emits-send :
      (message' : ClientBoundSocketMessage) → Emits is_unreported (send transport message')
  unfolding send
  Emits-send message' = Emits-bind _ _ (Emits-lift _) λ json. Emits-perform _ refl

  Emits-obey : (message' : ServerBoundSocketMessage) → Emits is_unreported (obey transport message')
  unfolding obey
  Emits-obey (ServerBoundSocketMessage.update_request request) =
      Emits-bind _ _ (Emits-send _)
        λ _. Emits-wider _ is_internal-Implies (Emits-process_update_request request)
  Emits-obey (ServerBoundSocketMessage.state_query id) =
      Emits-bind _ _ (Emits-find_device id _) λ device.
        Emits-wider _ (λ effect k. is_internal-Implies effect (is_command-Implies effect k))
          (Emits-dispatch_query_state device)
  Emits-obey (ServerBoundSocketMessage.activate_scene id) =
      Emits-bind _ _ (Emits-wider _ is_internal-Implies (Emits-process_scene_activate id))
        λ _. Emits-send _
  Emits-obey ServerBoundSocketMessage.query_catalog = record {
    at = λ s. (Emits-send (ClientBoundSocketMessage.catalog (catalog s))).at s;
  }
  Emits-obey (ServerBoundSocketMessage.other _) = Emits-send _

  Emits-handle_line : (line : Bytes) → Emits is_unreported (handle_line transport line)
  unfolding handle_line
  Emits-handle_line line = Emits-bind _ _ (Emits-lift _) Emits-obey

  pub Emits-take_turn : (turn : Turn) → Emits is_unreported (take_turn transport m turn)
  unfolding take_turn
  Emits-take_turn (received line) =
      Emits-bind _ _
        (Emits-or_else _ _ (Emits-within _ _ (Emits-handle_line line)) (λ x. Emits-send _))
        λ _. Emits-pure go_on
  Emits-take_turn pinged = Emits-bind _ _ (Emits-perform _ refl) λ _. Emits-pure go_on
  Emits-take_turn ignored = Emits-pure go_on
  Emits-take_turn closed = Emits-pure leave
  Emits-take_turn (hooked (device_state_update n)) =
      Emits-bind _ _ (Emits-send _) λ _. Emits-pure go_on
  Emits-take_turn (hooked (device_update_dispatch r)) = Emits-pure go_on
  Emits-take_turn (hooked (scene_activate id)) = Emits-pure go_on
  Emits-take_turn (broken x) = Emits-lift _

  Emits-carry_on :
      (flow : Flow) (rest : Action Flow)
      → Emits is_unreported rest
      → Emits is_unreported (carry_on flow rest)
  Emits-carry_on go_on rest h = h
  Emits-carry_on leave rest h = Emits-pure leave

  pub Emits-serve : (turns : List Turn) → Emits is_unreported (serve transport m turns)
  unfolding serve
  Emits-serve [] = Emits-pure go_on
  Emits-serve (turn ∷ turns) =
      Emits-bind _ _ (Emits-take_turn turn) λ flow. Emits-carry_on flow _ (Emits-serve turns)
