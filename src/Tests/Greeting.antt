-- ===== src/Tests/Greeting.antt =====
-- The hello of devices that connect over TLS, at concrete inputs.
use devicectrl_server.Prelude.{
  ℕ, zero, suc, ◌≤◌, ◌≡◌, refl, ap, arith, Bool, ltb, if◌then◌else◌, some, none, [], ◌∷◌, ◌++◌,
  length, ok, ◌>>=◌,
}
use devicectrl_server.Deps.{Bytes}
use devicectrl_server.Config.{KryptonControllerGlobalConfig}
use devicectrl_server.Krypton.Hello.{Hello, await_hello}
use devicectrl_server.Krypton.Greeting.{await_hello-IsEndless}
use devicectrl_server.Tls.{Tls}
use devicectrl_server.Tests.Instance.{plain}

-- a hello of four bytes; by how many have come
abbrev is_short : Bytes → Bool
is_short bytes = ltb (length bytes) 4

abbrev two_bytes : ℕ → Bytes
two_bytes zero = 1 ∷ 2 ∷ []
two_bytes (suc n) = []

-- the peer closes its end after two bytes
instance abbrev closed_early : Hello
closed_early = record {
  Acceptor = Bytes;
  default = [];
  read_tls = λ a bytes. ok (bytes ++ a);
  accept = λ a. if is_short a then ok none else ok (some (some "krypton-deviceid=plug"));
  try_read = λ n. ok (two_bytes n);
}

no_bytes : (i : ℕ) → 1 ≤ i → two_bytes i ≡ []
no_bytes zero after = absurd (omega arith)
no_bytes (suc i) after = refl

-- two more bytes would have done
completes : await_hello 1 0 (3 ∷ 4 ∷ []) ≡ some (ok (some "krypton-deviceid=plug"))
unfolding await_hello ◌>>=◌
completes = refl

await_hello-IsEndless_example : await_hello 1000 1 (1 ∷ 2 ∷ []) ≡ none
await_hello-IsEndless_example =
    await_hello-IsEndless is_short 1000 1 (1 ∷ 2 ∷ []) (λ i after. ap ok (no_bytes i after))
      (λ a h. (a, refl, rw h refl, h)) refl

instance abbrev pub trusting : Tls
trusting = record {
  Certificate = Bytes;
  PrivateKey = Bytes;
  RootStore = Bytes;
  Verifier = Bytes;
  ServerConfig = Bytes;
  certificate = λ bytes. ok bytes;
  private_key = λ bytes. ok bytes;
  add_root = λ cert. ok cert;
  verifier = λ store. ok store;
  single_cert = λ verifier cert key. ok verifier;
}

abbrev pub global : KryptonControllerGlobalConfig
global = record { listen_on = 8; cert_bytes = []; key_bytes = [] }
