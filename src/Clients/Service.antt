-- ===== src/Clients/Service.antt =====
-- What the servers of src/server_backends/ do for their clients.
use devicectrl_server.Prelude.{String, ◌≡◌, List, ◌++◌, map, Result, ok}
use devicectrl_server.Deps.{Deps, Bytes}
use devicectrl_server.App.{Env, AppState}
use devicectrl_server.Clients.Connection.{Flow, go_on}
use devicectrl_server.Clients.Messages.{tcp, websocket, SocketCodec}
use devicectrl_server.Clients.Protocol.Answers.{AllSent, told, reply, report, told-received}
use devicectrl_server.Clients.Protocol.Relays.{
  notified, updates, GoesOn, FailuresStandOut, serve-relays,
}
use devicectrl_server.Clients.Same.{
  of_tcp, of_websocket, tcp_line, tcp_turn, tcp_serve, websocket_line, websocket_turn,
  websocket_serve,
}
use devicectrl_server.Clients.Tcp as Tcp
use devicectrl_server.Clients.Websocket as Websocket
use devicectrl_server.Tasks.Join.{Scheduler}

module _ ⦃d : Deps⦄ ⦃k : SocketCodec⦄ where
  -- A turn that received a line leaves the connection open; the client was told the answers to what
  -- the line decodes to, and then of the failure, if its handling failed.
  abbrev pub IsAnswered :
      String → Bytes → AppState → (handled : Result (Unit {0})) → Result Flow × AppState → Type 0
  IsAnswered m line s handled (flow, t) =
      (flow ≡ ok go_on)
      × (told t.trace ≡ report m handled ++ (reply (k.decode line) handled s ++ told s.trace))

module _ ⦃d : Deps⦄ ⦃e : Env⦄ ⦃c : Scheduler⦄ ⦃k : SocketCodec⦄ where
  -- Where every frame can be encoded and sent, whatever line a client sends over TCP or in a
  -- websocket message, its connection stays open, and it is told exactly the answers to what the line
  -- decodes to, and then of the failure, if its handling failed.
  pub line-answers :
      (line : Bytes) (s : AppState)
      → AllSent
      → IsAnswered "failed to handle tcp line" line s
          (Tcp.handle_line line s).0
          (Tcp.take_turn (Tcp.received line) s)
        × IsAnswered "failed to handle websocket message" line s
            (Websocket.handle_line line s).0
            (Websocket.take_turn (Websocket.received (Websocket.text line)) s)
  line-answers line s sent = (
    rw (tcp_turn (Tcp.received line), tcp_line line) (told-received tcp _ line s sent),
    rw (websocket_turn (Websocket.received (Websocket.text line)), websocket_line line)
        (told-received websocket _ line s sent),
  )

  -- A connection over TCP on which nothing fails stays open, and its client is told each state
  -- update that the server hears of, in their order, whatever lines it sends in between.
  pub tcp_serve-relays :
      (turns : List Tcp.Turn) (s : AppState)
      → AllSent
      → FailuresStandOut
      → GoesOn (map of_tcp turns)
      → ((Tcp.serve turns s).0 ≡ ok go_on)
        × (notified (told (Tcp.serve turns s).1.trace)
            ≡ updates (map of_tcp turns) (notified (told s.trace)))
  tcp_serve-relays turns s sent apart h =
      rw (tcp_serve turns) (serve-relays tcp _ (map of_tcp turns) s sent apart h)

  -- A websocket on which nothing fails stays open, and its client is told each state update that
  -- the server hears of, in their order, whatever messages it sends in between.
  pub websocket_serve-relays :
      (turns : List Websocket.Turn) (s : AppState)
      → AllSent
      → FailuresStandOut
      → GoesOn (map of_websocket turns)
      → ((Websocket.serve turns s).0 ≡ ok go_on)
        × (notified (told (Websocket.serve turns s).1.trace)
            ≡ updates (map of_websocket turns) (notified (told s.trace)))
  websocket_serve-relays turns s sent apart h =
      rw (websocket_serve turns) (serve-relays websocket _ (map of_websocket turns) s sent apart h)
