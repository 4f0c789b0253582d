-- ===== src/Clients/Responses.antt =====
-- Which requests src/server_backends/http.rs answers, and how.
use devicectrl_server.Prelude.{ℕ, ◌≡◌, ◌∙◌, ap, sym, ◌↔◌, Result, ok, err}
use devicectrl_server.Deps.{Deps, Bytes}
use devicectrl_server.App.{Env, AppState, Action, lift, pure, ◌>>=◌}
use devicectrl_server.App.Inversion.{bind_inv, lift_inv}
use devicectrl_server.Clients.Messages.{ServerBoundHttpMessage, ClientBoundHttpMessage, HttpCodec}
use devicectrl_server.Clients.Http.{Response, answer, handle_request}
use devicectrl_server.Dispatch.Request.{process_update_request}
use devicectrl_server.Scenes.{process_scene_activate}
use devicectrl_server.Tasks.Join.{Scheduler}

module _ ⦃d : Deps⦄ ⦃e : Env⦄ ⦃c : Scheduler⦄ ⦃k : HttpCodec⦄ where
  -- a response, where a message takes the server from one state to another
  abbrev pub IsAnswerTo : ServerBoundHttpMessage → AppState → Response → AppState → Type 0
  IsAnswerTo (ServerBoundHttpMessage.update_request request) s response t =
      (process_update_request request s ≡ (ok tt, t))
      × (response.status ≡ 200)
      × (k.encode ClientBoundHttpMessage.request_received ≡ ok response.body)
  IsAnswerTo (ServerBoundHttpMessage.activate_scene id) s response t =
      (process_scene_activate id s ≡ (ok tt, t))
      × (response.status ≡ 200)
      × (k.encode ClientBoundHttpMessage.request_received ≡ ok response.body)
  IsAnswerTo (ServerBoundHttpMessage.other _) s response t =
      (t ≡ s)
      × (response.status ≡ 501)
      × (k.encode ClientBoundHttpMessage.unimplemented ≡ ok response.body)

  respond_inv :
      (status : ℕ) (r : Result Bytes) (s t : AppState) (response : Response)
      → (lift r >>= λ text. pure (record { status = status; body = text })) s ≡ (ok response, t)
      → (t ≡ s) × (response.status ≡ status) × (r ≡ ok response.body)
  unfolding lift pure ◌>>=◌
  respond_inv status (ok text) s t response h =
      let got : record { status = status; body = text } ≡ response = cc in
      (sym (ap (λ p. p.1) h), sym (ap (λ r. r.status) got), ap (λ r. ok r.body) got)
  respond_inv status (err x) s t response h = cc

  answer_inv :
      (message' : ServerBoundHttpMessage) (s t : AppState) (response : Response)
      → answer message' s ≡ (ok response, t)
      → IsAnswerTo message' s response t
  unfolding answer
  answer_inv (ServerBoundHttpMessage.update_request request) s t response h =
      let (_, u, done, h1) = bind_inv _ _ s t h in
      let (same, status, body) = respond_inv 200 _ u t response h1 in (rw same done, status, body)
  answer_inv (ServerBoundHttpMessage.activate_scene id) s t response h =
      let (_, u, done, h1) = bind_inv _ _ s t h in
      let (same, status, body) = respond_inv 200 _ u t response h1 in (rw same done, status, body)
  answer_inv (ServerBoundHttpMessage.other _) s t response h = respond_inv 501 _ s t response h

  respond-answer :
      (status : ℕ) (r : Result Bytes) (s : AppState) (response : Response)
      → response.status ≡ status
      → r ≡ ok response.body
      → (lift r >>= λ text. pure (record { status = status; body = text })) s ≡ (ok response, s)
  unfolding lift pure ◌>>=◌
  respond-answer status r s response h k =
      rw k (λ i. (ok (record { status = sym h i; body = response.body }), s))

  answer_by :
      (m : Action (Unit {0})) (status : ℕ) (r : Result Bytes) (s t : AppState) (response : Response)
      → m s ≡ (ok tt, t)
      → response.status ≡ status
      → r ≡ ok response.body
      → (m >>= λ _. lift r >>= λ text. pure (record { status = status; body = text })) s
        ≡ (ok response, t)
  unfolding ◌>>=◌
  answer_by m status r s t response done h k = rw done (respond-answer status r t response h k)

  answer_lem :
      (message' : ServerBoundHttpMessage) (s t : AppState) (response : Response)
      → IsAnswerTo message' s response t
      → answer message' s ≡ (ok response, t)
  unfolding answer
  answer_lem (ServerBoundHttpMessage.update_request request) s t response (done, h, k) =
      answer_by _ 200 _ s t response done h k
  answer_lem (ServerBoundHttpMessage.activate_scene id) s t response (done, h, k) =
      answer_by _ 200 _ s t response done h k
  answer_lem (ServerBoundHttpMessage.other _) s t response (same, h, k) =
      respond-answer 501 _ s response h k ∙ ap (λ u. (ok response, u)) (sym same)

  -- the body arrives and decodes to a message, and the response is the answer to it
  abbrev pub IsServed : Result Bytes → AppState → Response → AppState → Type 0
  IsServed body s response t =
      (bytes : Bytes) × (message' : ServerBoundHttpMessage) × (body ≡ ok bytes)
      × (k.decode bytes ≡ ok message')
      × IsAnswerTo message' s response t

  handle_request_inv :
      (body : Result Bytes) (s t : AppState) (response : Response)
      → handle_request body s ≡ (ok response, t)
      → IsServed body s response t
  unfolding handle_request
  handle_request_inv body s t response h =
      let (bytes, u, arrived, h1) = bind_inv _ _ s t h in
      let (whole, same) = lift_inv body s u arrived in
      let (message', v, decoding, h2) = bind_inv _ _ u t h1 in
      let (decoded, same') = lift_inv (k.decode bytes) u v decoding in
      (bytes, message', whole, decoded, answer_inv message' s t response (rw (same' ∙ same) at h2))

  handle_request_lem :
      (body : Result Bytes) (s t : AppState) (response : Response)
      → IsServed body s response t
      → handle_request body s ≡ (ok response, t)
  unfolding handle_request lift ◌>>=◌
  handle_request_lem body s t response (bytes, message', whole, decoded, h) =
      rw (whole, decoded) (answer_lem message' s t response h)

  -- A request over HTTP is answered exactly when its body arrives and decodes to a message, and the
  -- answer is the encoded reply to it: with the status 200 once the update or the scene has been
  -- carried out, and with 501 and no other effect for a message of another kind. Where the update
  -- or the scene fails there is no answer.
  pub handle_request_iff :
      (body : Result Bytes) (s t : AppState) (response : Response)
      → (handle_request body s ≡ (ok response, t)) ↔ IsServed body s response t
  handle_request_iff body s t response =
      (handle_request_inv body s t response, handle_request_lem body s t response)
