-- ===== src/App/Inversion.antt =====
-- What is known of the steps of an action that has succeeded.
use devicectrl_server.Prelude.{ℕ, ◌+◌, ◌≡◌, refl, ◌∷◌, Result, ok, err, arith, ap, sym}
use devicectrl_server.Deps.{Deps, Bytes}
use devicectrl_server.App.{
  Env, AppState, Action, Effect, UdpSocket, receive_udp, lift, perform, receive_within, ◌>>=◌,
  continue,
}

module _ ⦃d : Deps⦄ where
  pub bind_inv :
      {A B : Type 0} (m : Action A) (f : A → Action B) (s t : AppState) {b : B}
      → (m >>= f) s ≡ (ok b, t)
      → (a : A) × (u : AppState) × (m s ≡ (ok a, u)) × (f a u ≡ (ok b, t))
  unfolding ◌>>=◌
  bind_inv {A} m f s t {b} h = step (m s).0 (m s).1 refl h
    where
      step :
          (r : Result A) (u : AppState)
          → m s ≡ (r, u)
          → continue r f u ≡ (ok b, t)
          → (a : A) × (v : AppState) × (m s ≡ (ok a, v)) × (f a v ≡ (ok b, t))
      step (ok a) u e k = (a, u, e, k)
      step (err x) u e k = cc

  pub lift_inv :
      {A : Type 0} (r : Result A) (s t : AppState) {a : A}
      → lift r s ≡ (ok a, t)
      → (r ≡ ok a) × (t ≡ s)
  unfolding lift
  lift_inv r s t h = (ap (λ p. p.0) h, sym (ap (λ p. p.1) h))

module _ ⦃d : Deps⦄ ⦃e : Env⦄ where
  pub perform_inv :
      (effect : Effect) (s t : AppState)
      → perform effect s ≡ (ok tt, t)
      → t ≡ record s { clock = s.clock + 1; trace = effect ∷ s.trace }
  unfolding perform
  perform_inv effect s t h = ground arith

  pub receive_within_inv :
      (limit : ℕ) (socket : UdpSocket) (s t : AppState) {bytes : Bytes}
      → receive_within limit socket s ≡ (ok bytes, t)
      → t ≡ record s { clock = s.clock + 1; trace = receive_udp socket bytes ∷ s.trace }
  unfolding receive_within
  receive_within_inv limit socket s t h = ground arith
