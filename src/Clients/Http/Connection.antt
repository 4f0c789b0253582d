-- ===== src/Clients/Http/Connection.antt =====
-- `handle_conn` of src/server_backends/http.rs: which protocol a connection is served by, and what
-- its requests do, one after the other.
use devicectrl_server.Prelude.{
  ℕ, zero, suc, Option, none, some, List, [], ◌∷◌, Result, ok, Bool, true, false, ◌==◌,
  if◌then◌else◌,
}
use devicectrl_server.Deps.{Deps, Bytes}
use devicectrl_server.App.{Env, Action, pure, lift, within, ◌>>=◌, ◌>>◌}
use devicectrl_server.App.Emits.{is_unreported, Emits}
use devicectrl_server.App.Emits.Rules.{Emits-bind, Emits-lift, Emits-pure, Emits-within}
use devicectrl_server.Clients.Http.{Response, handle_request}
use devicectrl_server.Clients.Isolation.{Emits-handle_request}
use devicectrl_server.Clients.Messages.{HttpCodec}
use devicectrl_server.Tasks.Join.{Scheduler}

-- what hyper has next on a connection: the body of a request, or its end
pub data Next : Type 0 where
  request : (body : Result Bytes) → Next
  ended : Result (Unit {0}) → Next

-- `serve_connection` of either protocol, by what it has next after the answers so far
pub record Hyper : Type 0 where
  pub http1 : List (Result Response) → Next
  pub http2 : List (Result Response) → Next

-- `Some(b"h2")`
abbrev is_h2 : Bytes → Bool
is_h2 (a ∷ b ∷ []) = if a == 104 then b == 50 else false
is_h2 _ = false

abbrev pub by_protocol {ℓ} : {A : Type ℓ} → Option Bytes → (http2 http1 : A) → A
by_protocol none http2 http1 = http1
by_protocol (some protocol) http2 http1 = if is_h2 protocol then http2 else http1

module _ ⦃d : Deps⦄ ⦃e : Env⦄ ⦃c : Scheduler⦄ ⦃k : HttpCodec⦄ where
  -- the service, whose error is hyper's to deal with
  abbrev pub answer_request : Result Bytes → Action (Result Response)
  answer_request body s = let (r, t) = handle_request body s in (ok r, t)

  abbrev pub on_next : Next → (Result Response → Action (Unit {0})) → Action (Unit {0})
  on_next (request body) rest = answer_request body >>= rest
  on_next (ended r) rest = lift r

  -- A connection of at most so many requests; one that has had them is still open.
  unfoldable pub serve_connection :
      (requests : ℕ) → (List (Result Response) → Next) → List (Result Response) → Action (Unit {0})
  serve_connection zero next answers = pure tt
  serve_connection (suc requests) next answers =
      on_next (next answers) λ answer. serve_connection requests next (answer ∷ answers)

  -- for what the TLS acceptor yields, and the protocol that was agreed on
  unfoldable pub handle_conn :
      ⦃y : Hyper⦄
      → (accepted : Result (Unit {0})) → (alpn_protocol : Option Bytes) → (requests : ℕ)
      → Action (Unit {0})
  unfolding serve_connection
  handle_conn ⦃y⦄ accepted alpn_protocol requests = do
    lift accepted
    by_protocol alpn_protocol
        (within "failed to serve http/2 connection" (serve_connection requests y.http2 []))
        (within "failed to serve http/1 connection" (serve_connection requests y.http1 []))

  Emits-answer_request : (body : Result Bytes) → Emits is_unreported (answer_request body)
  Emits-answer_request body = record { at = (Emits-handle_request body).at }

  Emits-on_next :
      (n : Next) (rest : Result Response → Action (Unit {0}))
      → ((answer : Result Response) → Emits is_unreported (rest answer))
      → Emits is_unreported (on_next n rest)
  Emits-on_next (request body) rest h = Emits-bind _ _ (Emits-answer_request body) h
  Emits-on_next (ended r) rest h = Emits-lift r

  Emits-serve_connection :
      (requests : ℕ) (next : List (Result Response) → Next) (answers : List (Result Response))
      → Emits is_unreported (serve_connection requests next answers)
  unfolding serve_connection
  Emits-serve_connection zero next answers = Emits-pure tt
  Emits-serve_connection (suc requests) next answers =
      Emits-on_next (next answers) _
        λ answer. Emits-serve_connection requests next (answer ∷ answers)

  Emits-by_protocol :
      (protocol : Option Bytes) (http2 http1 : Action (Unit {0}))
      → Emits is_unreported http2
      → Emits is_unreported http1
      → Emits is_unreported (by_protocol protocol http2 http1)
  Emits-by_protocol none http2 http1 h k = k
  Emits-by_protocol (some protocol) http2 http1 h k = if_h2 (is_h2 protocol)
    where
      if_h2 : (b : Bool) → Emits is_unreported (if b then http2 else http1)
      if_h2 true = h
      if_h2 false = k

  -- A connection over HTTP, by either protocol and whatever its requests are, leaves the registry,
  -- the configuration and the controllers alone, and reports no device's state.
  pub Emits-handle_conn :
      ⦃y : Hyper⦄ (accepted : Result (Unit {0})) (alpn_protocol : Option Bytes) (requests : ℕ)
      → Emits is_unreported (handle_conn accepted alpn_protocol requests)
  unfolding handle_conn
  Emits-handle_conn ⦃y⦄ accepted alpn_protocol requests = Emits-bind _ _ (Emits-lift accepted) λ _.
      Emits-by_protocol alpn_protocol _ _
        (Emits-within _ _ (Emits-serve_connection requests y.http2 []))
        (Emits-within _ _ (Emits-serve_connection requests y.http1 []))
