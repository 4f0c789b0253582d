-- ===== src/Clients/Protocol/Tasks.antt =====
-- The loops of src/server_backends/tcp.rs and src/server_backends/websocket.rs turn by turn: what
-- happens between two awaits is one turn, and the turns of other tasks may come in between.
use devicectrl_server.Prelude.{
  ◌≡◌, refl, ◌∙◌, String, List, [], ◌∷◌, Result, ok, err, Error, Result-cases, inl, inr,
}
use devicectrl_server.Deps.{Deps, Bytes}
use devicectrl_server.App.{
  Env, AppState, device_state_update, device_update_dispatch, scene_activate, Action, send_pong,
  perform, pure, lift, within, or_else, find_device, ◌>>=◌, ◌>>◌,
}
use devicectrl_server.Clients.Catalog.{catalog}
use devicectrl_server.Clients.Connection.{Flow, go_on, carry_on}
use devicectrl_server.Clients.Messages.{
  Transport, ServerBoundSocketMessage, ClientBoundSocketMessage, SocketCodec,
}
use devicectrl_server.Clients.Protocol.{
  Turn, received, pinged, ignored, closed, hooked, broken, send, obey, handle_line, take_turn,
  serve,
}
use devicectrl_server.Controllers.Dispatch.{query_by, dispatch_query_state}
use devicectrl_server.Dispatch.Tasks.{request_task, query_task}
use devicectrl_server.Dispatch.Tasks.Alone.{request_task_alone}
use devicectrl_server.Scenes.Tasks.{scene_task, scene_task_alone}
use devicectrl_server.Tasks.{
  Task, done, await, finally, and_then, run_alone, run_alone-await, run_alone-finally,
  run_alone-and_then,
}
use devicectrl_server.Tasks.Join.{Scheduler}
use devicectrl_server.Tasks.Nested.{task_within, task_or_else, run_alone-within, run_alone-or_else}

module _ ⦃d : Deps⦄ ⦃e : Env⦄ ⦃c : Scheduler⦄ ⦃k : SocketCodec⦄ (transport : Transport) where
  unfoldable pub obey_task : ServerBoundSocketMessage → Task
  obey_task (ServerBoundSocketMessage.update_request request) =
      await (send transport ClientBoundSocketMessage.request_received) λ _. request_task request
  obey_task (ServerBoundSocketMessage.state_query device_id) =
      await (find_device device_id "failed to find device") λ device. query_task device
  obey_task (ServerBoundSocketMessage.activate_scene scene_id) =
      and_then (scene_task scene_id)
        (finally (send transport ClientBoundSocketMessage.request_received))
  obey_task ServerBoundSocketMessage.query_catalog =
      finally (λ s. send transport (ClientBoundSocketMessage.catalog (catalog s)) s)
  obey_task (ServerBoundSocketMessage.other _) =
      finally (send transport ClientBoundSocketMessage.unimplemented)

  unfoldable pub line_task : Bytes → Task
  unfolding obey_task
  line_task line = await (lift (k.decode line)) λ message'. obey_task message'

  -- the line, under the context `m`, and the answer to its error
  unfoldable pub answer_task : (m : String) → Bytes → Task
  unfolding line_task
  answer_task m line =
      task_or_else (λ x. finally (send transport (k.failure_of x))) (task_within m (line_task line))

  unfoldable pub serve_task : (m : String) → List Turn → Task
  unfolding answer_task
  serve_task m [] = done (ok tt)
  serve_task m (received line ∷ turns) = and_then (answer_task m line) (serve_task m turns)
  serve_task m (pinged ∷ turns) = await (perform send_pong) λ _. serve_task m turns
  serve_task m (ignored ∷ turns) = serve_task m turns
  serve_task m (closed ∷ turns) = done (ok tt)
  serve_task m (hooked (device_state_update notification) ∷ turns) =
      await (send transport (ClientBoundSocketMessage.update_notification notification))
        λ _. serve_task m turns
  serve_task m (hooked _ ∷ turns) = serve_task m turns
  serve_task m (broken x ∷ turns) = done (err x)

module _ ⦃d : Deps⦄ where
  abbrev pub forget {ℓ} : {A : Type ℓ} → Result A × AppState → Result (Unit {0}) × AppState
  forget (ok a, s) = (ok tt, s)
  forget (err x, s) = (err x, s)

module _ ⦃d : Deps⦄ ⦃e : Env⦄ ⦃c : Scheduler⦄ ⦃k : SocketCodec⦄ (transport : Transport) where
  obey_task_alone :
      (message' : ServerBoundSocketMessage) (s : AppState)
      → run_alone (obey_task transport message') s ≡ obey transport message' s
  unfolding obey_task obey query_task dispatch_query_state ◌>>=◌
  obey_task_alone (ServerBoundSocketMessage.update_request request) s =
      run_alone-await _ _ _ s λ _ t. request_task_alone request t
  obey_task_alone (ServerBoundSocketMessage.state_query device_id) s =
      run_alone-await _ _ _ s λ device t. run_alone-finally (query_by device.controller device) t
  obey_task_alone (ServerBoundSocketMessage.activate_scene scene_id) s =
      run_alone-and_then (scene_task scene_id) _ s ∙ λ i.
      ((λ t. scene_task_alone scene_id t i) >> (λ t.
          run_alone-finally (send transport ClientBoundSocketMessage.request_received) t i))
        s
  obey_task_alone ServerBoundSocketMessage.query_catalog s = run_alone-finally _ s
  obey_task_alone (ServerBoundSocketMessage.other _) s = run_alone-finally _ s

  line_task_alone :
      (line : Bytes) (s : AppState)
      → run_alone (line_task transport line) s ≡ handle_line transport line s
  unfolding line_task handle_line
  line_task_alone line s = run_alone-await _ _ _ s λ message' t. obey_task_alone message' t

  answer_task_alone :
      (m : String) (line : Bytes) (s : AppState)
      → run_alone (answer_task transport m line) s
        ≡ or_else (λ x. send transport (k.failure_of x)) (within m (handle_line transport line)) s
  unfolding answer_task or_else
  answer_task_alone m line s =
      let report = λ (x : Error). finally (send transport (k.failure_of x)) in
      run_alone-or_else report (task_within m (line_task transport line)) s ∙ λ i.
      or_else (λ x t. run_alone-finally (send transport (k.failure_of x)) t i)
        (λ t.
          (run_alone-within m (line_task transport line) t ∙ λ j.
          within m (λ u. line_task_alone line u j) t)
            i)
        s

  going_on :
      (m next : Action (Unit {0})) (rest : Action Flow) (s : AppState)
      → ((t : AppState) → next t ≡ forget (rest t))
      → (m >> next) s ≡ forget (((m >> pure go_on) >>= λ flow. carry_on flow rest) s)
  unfolding pure ◌>>=◌
  going_on m next rest s h = elim (Result-cases (m s).0) [
    | inl (_, good) ↦ rw good (h (m s).1)
    | inr (x, bad) ↦ rw bad refl
  ]

  -- A connection that runs by itself, turn by turn, does what its loop does.
  pub serve_task_alone :
      (m : String) (turns : List Turn) (s : AppState)
      → run_alone (serve_task transport m turns) s ≡ forget (serve transport m turns s)
  unfolding serve_task serve take_turn run_alone pure lift ◌>>=◌
  serve_task_alone m [] s = refl
  serve_task_alone m (received line ∷ turns) s =
      run_alone-and_then (answer_task transport m line) _ s
      ∙ (λ i. ((λ t. answer_task_alone m line t i) >> run_alone (serve_task transport m turns)) s)
      ∙ going_on
          (or_else (λ x. send transport (k.failure_of x)) (within m (handle_line transport line)))
          (run_alone (serve_task transport m turns)) (serve transport m turns) s
          (serve_task_alone m turns)
  serve_task_alone m (pinged ∷ turns) s =
      run_alone-await (perform send_pong) _ _ s (λ _ t. refl)
      ∙ going_on (perform send_pong) (run_alone (serve_task transport m turns))
          (serve transport m turns) s (serve_task_alone m turns)
  serve_task_alone m (ignored ∷ turns) s = serve_task_alone m turns s
  serve_task_alone m (closed ∷ turns) s = refl
  serve_task_alone m (hooked (device_state_update notification) ∷ turns) s =
      run_alone-await (send transport _) _ _ s (λ _ t. refl)
      ∙ going_on (send transport (ClientBoundSocketMessage.update_notification notification))
          (run_alone (serve_task transport m turns)) (serve transport m turns) s
          (serve_task_alone m turns)
  serve_task_alone m (hooked (device_update_dispatch r) ∷ turns) s = serve_task_alone m turns s
  serve_task_alone m (hooked (scene_activate id) ∷ turns) s = serve_task_alone m turns s
  serve_task_alone m (broken x ∷ turns) s = refl
