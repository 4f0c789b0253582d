-- ===== src/Clients/Http/Tasks.antt =====
-- `handle_request` of src/server_backends/http.rs turn by turn.
use devicectrl_server.Prelude.{ok, ℕ, ◌≡◌, refl, ◌∙◌, Result, Result-cases, inl, inr}
use devicectrl_server.Deps.{Deps, Bytes}
use devicectrl_server.App.{Env, AppState, Action, pure, lift, ◌>>=◌, ◌>>◌}
use devicectrl_server.App.Emits.{is_unreported}
use devicectrl_server.App.Emits.Rules.{Emits-lift}
use devicectrl_server.Clients.Http.{Response, answer, handle_request}
use devicectrl_server.Clients.Messages.{ServerBoundHttpMessage, ClientBoundHttpMessage, HttpCodec}
use devicectrl_server.Dispatch.Request.{process_update_request}
use devicectrl_server.Dispatch.Tasks.{request_task}
use devicectrl_server.Dispatch.Tasks.Alone.{request_task_alone}
use devicectrl_server.Dispatch.Tasks.Turns.{request_task-TurnsEmit}
use devicectrl_server.Scenes.{process_scene_activate}
use devicectrl_server.Scenes.Tasks.{scene_task, scene_task_alone, scene_task-TurnsEmit}
use devicectrl_server.Tasks.{
  Task, done, call, await, and_then, run_alone, run_alone-await, run_alone-call, run_alone-and_then,
}
use devicectrl_server.Tasks.Join.{Scheduler}
use devicectrl_server.Tasks.Keeps.{TurnsEmit-call, TurnsEmit-await, TurnsEmit-and_then}
use devicectrl_server.Tasks.Quiet.{IsQuiet, internal-IsQuiet}

module _ ⦃d : Deps⦄ ⦃e : Env⦄ ⦃c : Scheduler⦄ ⦃k : HttpCodec⦄ where
  -- the response once the message has been encoded, and what is done with it
  abbrev respond : ℕ → ClientBoundHttpMessage → (Response → Task) → Task
  respond status message' next =
      call (lift (k.encode message')) λ text. next (record { status = status; body = text })

  unfoldable pub answer_task : ServerBoundHttpMessage → (Response → Task) → Task
  answer_task (ServerBoundHttpMessage.update_request request) next =
      and_then (request_task request) (respond 200 ClientBoundHttpMessage.request_received next)
  answer_task (ServerBoundHttpMessage.activate_scene scene_id) next =
      and_then (scene_task scene_id) (respond 200 ClientBoundHttpMessage.request_received next)
  answer_task (ServerBoundHttpMessage.other _) next =
      respond 501 ClientBoundHttpMessage.unimplemented next

  -- the response is handed over, and that is all
  abbrev pub hand_over : Response → Task
  hand_over response = done (ok tt)

  -- `next` is what the connection does with the response
  unfoldable pub http_task : (body : Result Bytes) → (next : Response → Task) → Task
  unfolding answer_task
  http_task body next =
      await (lift body) λ bytes. call (lift (k.decode bytes)) λ message'. answer_task message' next

module _ ⦃d : Deps⦄ where
  bind_assoc :
      {A B C : Type 0} (m : Action A) (f : A → Action B) (g : B → Action C) (s : AppState)
      → (m >>= λ a. f a >>= g) s ≡ ((m >>= f) >>= g) s
  unfolding ◌>>=◌
  bind_assoc m f g s = elim (Result-cases (m s).0) [
    | inl (a, good) ↦ rw good refl
    | inr (x, bad) ↦ rw bad refl
  ]

  -- a future, and what is done after it
  followed :
      (task next : Task) (m : Action (Unit {0})) (f : Action Response)
      (g : Response → Action (Unit {0})) (s : AppState)
      → ((t : AppState) → run_alone task t ≡ m t)
      → ((t : AppState) → run_alone next t ≡ (f >>= g) t)
      → run_alone (and_then task next) s ≡ ((m >> f) >>= g) s
  followed task next m f g s h k =
      run_alone-and_then task next s
      ∙ (λ i. ((λ t. h t i) >> (λ t. k t i)) s)
      ∙ bind_assoc m (λ _. f) g s

module _ ⦃d : Deps⦄ ⦃e : Env⦄ ⦃c : Scheduler⦄ ⦃k : HttpCodec⦄ (next : Response → Task) where
  respond_alone :
      (status : ℕ) (message' : ClientBoundHttpMessage) (s : AppState)
      → run_alone (respond status message' next) s
        ≡ ((lift (k.encode message') >>= λ text. pure (record { status = status; body = text }))
              >>= λ response. run_alone (next response))
            s
  unfolding pure ◌>>=◌
  respond_alone status message' s =
      run_alone-call _ _ (λ text. run_alone (next (record { status = status; body = text }))) s
        (λ text t. refl)
      ∙ bind_assoc (lift (k.encode message'))
          (λ text. pure (record { status = status; body = text }))
          (λ response. run_alone (next response)) s

  answer_task_alone :
      (message' : ServerBoundHttpMessage) (s : AppState)
      → run_alone (answer_task message' next) s
        ≡ (answer message' >>= λ response. run_alone (next response)) s
  unfolding answer_task answer
  answer_task_alone (ServerBoundHttpMessage.update_request request) s =
      followed (request_task request) _ (process_update_request request) _ _ s
        (request_task_alone request) (respond_alone 200 ClientBoundHttpMessage.request_received)
  answer_task_alone (ServerBoundHttpMessage.activate_scene id) s =
      followed (scene_task id) _ (process_scene_activate id) _ _ s (scene_task_alone id)
        (respond_alone 200 ClientBoundHttpMessage.request_received)
  answer_task_alone (ServerBoundHttpMessage.other _) s =
      respond_alone 501 ClientBoundHttpMessage.unimplemented s

  -- A request that runs by itself, turn by turn, does what `handle_request` does, and passes on the
  -- same response.
  pub http_task_alone :
      (body : Result Bytes) (s : AppState)
      → run_alone (http_task body next) s
        ≡ (handle_request body >>= λ response. run_alone (next response)) s
  unfolding http_task handle_request
  http_task_alone body s =
      run_alone-await (lift body) _
        (λ bytes. (lift (k.decode bytes) >>= answer) >>= λ response. run_alone (next response)) s
        (λ bytes t.
          run_alone-call (lift (k.decode bytes)) _
            (λ message'. answer message' >>= λ response. run_alone (next response)) t
            answer_task_alone
          ∙ bind_assoc (lift (k.decode bytes)) answer _ t)
      ∙ bind_assoc (lift body) (λ bytes. lift (k.decode bytes) >>= answer) _ s

  respond-IsQuiet :
      (status : ℕ) (message' : ClientBoundHttpMessage)
      → ((response : Response) → IsQuiet (next response))
      → IsQuiet (respond status message' next)
  respond-IsQuiet status message' h = TurnsEmit-call is_unreported _ _ (Emits-lift _) λ text. h _

  answer_task-IsQuiet :
      (message' : ServerBoundHttpMessage)
      → ((response : Response) → IsQuiet (next response))
      → IsQuiet (answer_task message' next)
  unfolding answer_task
  answer_task-IsQuiet (ServerBoundHttpMessage.update_request request) h =
      TurnsEmit-and_then is_unreported (request_task request) _
        (internal-IsQuiet _ (request_task-TurnsEmit request)) (respond-IsQuiet 200 _ h)
  answer_task-IsQuiet (ServerBoundHttpMessage.activate_scene id) h =
      TurnsEmit-and_then is_unreported (scene_task id) _
        (internal-IsQuiet _ (scene_task-TurnsEmit id)) (respond-IsQuiet 200 _ h)
  answer_task-IsQuiet (ServerBoundHttpMessage.other _) h = respond-IsQuiet 501 _ h

  pub http_task-IsQuiet :
      (body : Result Bytes)
      → ((response : Response) → IsQuiet (next response))
      → IsQuiet (http_task body next)
  unfolding http_task
  http_task-IsQuiet body h = TurnsEmit-await is_unreported _ _ (Emits-lift _) λ bytes.
      TurnsEmit-call is_unreported _ _ (Emits-lift _) λ message'. answer_task-IsQuiet message' h
