-- ===== src/Clients/Listener.antt =====
-- What the functions `start_server` of src/server_backends/ have in common: the TLS configuration of
-- a server, whose clients have to show a certificate, and the loop that accepts them.
use devicectrl_server.Prelude.{ℕ, ◌+◌, List, [], ◌∷◌, Result, ok, err, ◌>>=◌ as ◌>>?◌}
use devicectrl_server.Deps.{Bytes}
use devicectrl_server.Tls.{Tls}

module _ ⦃t : Tls⦄ where
  unfoldable pub server_tls : (client_ca_bytes cert_bytes key_bytes : Bytes) → Result t.ServerConfig
  server_tls client_ca_bytes cert_bytes key_bytes = t.certificate client_ca_bytes >>? λ client_ca.
      t.add_root client_ca >>? λ root_store. t.verifier root_store >>? λ client_verifier.
      t.certificate cert_bytes >>? λ cert.
      t.private_key key_bytes >>? λ key. t.single_cert client_verifier cert key

-- The loop: each socket that is accepted is served by a task of its own, and an error of `accept`
-- ends the server. The number of tasks that it has spawned, while it goes on.
unfoldable pub accept_all : (spawned : ℕ) → List (Result (Unit {0})) → Result ℕ
accept_all spawned [] = ok spawned
accept_all spawned (ok _ ∷ sockets) = accept_all (spawned + 1) sockets
accept_all spawned (err x ∷ sockets) = err x
