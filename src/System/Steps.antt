-- ===== src/System/Steps.antt =====
-- Each step of the system either reports no device's state, and changes no device, or is one
-- notification.
use devicectrl_server.Prelude.{◌≡◌, ◌⊎◌, inl, inr}
use devicectrl_server.Deps.{Deps}
use devicectrl_server.Common.{UpdateNotification}
use devicectrl_server.App.{Env, AppState}
use devicectrl_server.App.Emits.{is_unreported, SameState, SameState-refl, Emits}
use devicectrl_server.Clients.Isolation.{Emits-handle_request}
use devicectrl_server.Clients.Messages.{tcp, websocket, SocketCodec, HttpCodec}
use devicectrl_server.Clients.Protocol.Quiet.{Emits-take_turn}
use devicectrl_server.Clients.Same.{of_tcp, of_websocket, tcp_turn, websocket_turn}
use devicectrl_server.Clients.Tcp as Tcp
use devicectrl_server.Clients.Websocket as Websocket
use devicectrl_server.Controllers.Reports.Answers.{IsReport, handle-IsReport}
use devicectrl_server.Dispatch.Notification.{process_update_notification}
use devicectrl_server.Dispatch.Queries.{query_all_device_states_lem}
use devicectrl_server.Krypton.Codec.{KryptonCodec}
use devicectrl_server.System.{Step}
use devicectrl_server.System.Quiet.{command_unreported, on_event_unreported, ramp_step_unreported}
use devicectrl_server.Tasks.Join.{Scheduler}

module _ ⦃d : Deps⦄ ⦃e : Env⦄ where
  -- a step that reports nothing, or one notification
  abbrev pub IsEither : AppState → AppState → Type 0
  IsEither s t =
      SameState is_unreported s t
      ⊎ ((n : UpdateNotification) × (t ≡ (process_update_notification n s).1))

  either : {s t : AppState} → IsReport s t → IsEither s t
  either {s} (inl same) = inl (rw same (SameState-refl is_unreported s))
  either (inr report) = inr report

module _ ⦃d : Deps⦄ ⦃e : Env⦄ ⦃c : Scheduler⦄ ⦃p : SocketCodec⦄ ⦃h : HttpCodec⦄
    ⦃k : KryptonCodec⦄ where
  Emits-tcp_turn : (turn : Tcp.Turn) → Emits is_unreported (Tcp.take_turn turn)
  Emits-tcp_turn turn = rw (tcp_turn turn) (Emits-take_turn tcp _ (of_tcp turn))

  Emits-websocket_turn : (turn : Websocket.Turn) → Emits is_unreported (Websocket.take_turn turn)
  Emits-websocket_turn turn =
      rw (websocket_turn turn) (Emits-take_turn websocket _ (of_websocket turn))

  pub Step-cases : {s t : AppState} → Step s t → IsEither s t
  Step-cases {s} (Step.tcp_turn turn) = inl ((Emits-tcp_turn turn).at s)
  Step-cases {s} (Step.websocket_turn turn) = inl ((Emits-websocket_turn turn).at s)
  Step-cases {s} (Step.http_request body) = inl ((Emits-handle_request body).at s)
  Step-cases {s} (Step.device_event event) = either (handle-IsReport event s)
  Step-cases {s} (Step.dependency_hook config hook) = inl ((on_event_unreported config hook).at s)
  Step-cases {s} (Step.ramp config color_temp) = inl ((ramp_step_unreported config color_temp).at s)
  Step-cases {s} Step.queries = inl (command_unreported (query_all_device_states_lem s).1)
