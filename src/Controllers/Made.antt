-- ===== src/Controllers/Made.antt =====
-- Which controllers src/devices/controllers/mod.rs makes, and that nothing else is done meanwhile.
use devicectrl_server.Prelude.{◌≡◌, refl, ◌∙◌, ap, sym, Option, none, some, ok}
use mathlib.Core.Option
use devicectrl_server.Deps.{Deps}
use devicectrl_server.Config.{ControllersConfig}
use devicectrl_server.App.{Env, AppState, Action, Controllers, pure, ◌>>=◌}
use devicectrl_server.App.Emits.{is_command, Emits}
use devicectrl_server.App.Emits.Rules.{Emits-bind, Emits-perform, Emits-pure}
use devicectrl_server.App.Inversion.{bind_inv}
use devicectrl_server.Controllers.New.{
  new_simple, new_krypton, new_tplink, new_govee, new_if, new_controllers,
}

module _ ⦃d : Deps⦄ ⦃e : Env⦄ where
  Emits-new_if :
      {C K : Type 0} (new : C → Action K) (config : Option C)
      → ((c : C) → Emits is_command (new c))
      → Emits is_command (new_if new config)
  unfolding new_if
  Emits-new_if new none h = Emits-pure none
  Emits-new_if new (some config) h = Emits-bind _ _ (h config) λ controller. Emits-pure _

  pub Emits-new_controllers :
      (config : ControllersConfig) → Emits is_command (new_controllers config)
  unfolding new_controllers new_simple new_krypton new_tplink new_govee
  Emits-new_controllers config =
      Emits-bind _ _
        (Emits-new_if new_simple config.simple
          λ c. Emits-bind _ _ (Emits-perform _ refl) λ _. Emits-pure _)
        λ _.
          Emits-bind _ _
            (Emits-new_if new_krypton config.krypton
              λ c. Emits-bind _ _ (Emits-perform _ refl) λ _. Emits-pure _)
            λ _.
              Emits-bind _ _
                (Emits-new_if new_tplink config.tplink
                  λ c. Emits-bind _ _ (Emits-perform _ refl) λ _. Emits-pure _)
                λ _.
                  Emits-bind _ _
                    (Emits-new_if new_govee config.govee
                      λ c. Emits-bind _ _ (Emits-perform _ refl) λ _. Emits-pure _)
                    λ _. Emits-pure _

  -- the controllers that a configuration enables
  abbrev pub configured : ControllersConfig → Controllers
  configured config = record {
    simple = Option.map (λ c. record { global_config = c }) config.simple;
    krypton = Option.map (λ c. record { global_config = c }) config.krypton;
    tplink = Option.map (λ c. record { global_config = c }) config.tplink;
    govee = Option.map (λ c. record { global_config = c }) config.govee;
  }

  pure_inv : {A : Type 0} (a b : A) (s t : AppState) → pure a s ≡ (ok b, t) → a ≡ b
  unfolding pure
  pure_inv a b s t h = cc

  -- one field, where what `new` makes is known
  new_if_inv :
      {C K : Type 0} (new : C → Action K) (wrap : C → K) (config : Option C) (s t : AppState)
      {k : Option K}
      → ((c : C) (s t : AppState) (made : K) → new c s ≡ (ok made, t) → made ≡ wrap c)
      → new_if new config s ≡ (ok k, t)
      → k ≡ Option.map wrap config
  unfolding new_if pure
  new_if_inv new wrap none s t h e = cc
  new_if_inv new wrap (some config) s t {k = k} h e =
      let (made, u, making, rest) = bind_inv _ _ s t e in
      let wrapped = h config s u made making in
      let result : some made ≡ k = pure_inv _ _ u t rest in sym result ∙ ap some wrapped

  made_inv :
      {K : Type 0} (m : Action (Unit {0})) (made : K) (s t : AppState) {k : K}
      → (m >>= λ _. pure made) s ≡ (ok k, t)
      → k ≡ made
  unfolding pure
  made_inv m made s t h = let (_, u, first, rest) = bind_inv _ _ s t h in cc

  pub new_controllers_inv :
      (config : ControllersConfig) (s t : AppState) {controllers : Controllers}
      → new_controllers config s ≡ (ok controllers, t)
      → controllers ≡ configured config
  unfolding new_controllers new_simple new_krypton new_tplink new_govee pure
  new_controllers_inv config s t {controllers} h =
      let (simple, s1, making1, h1) = bind_inv _ _ s t h in
      let (krypton, s2, making2, h2) = bind_inv _ _ s1 t h1 in
      let (tplink, s3, making3, h3) = bind_inv _ _ s2 t h2 in
      let (govee, s4, making4, h4) = bind_inv _ _ s3 t h3 in
      let e1 =
        new_if_inv new_simple (λ c. record { global_config = c }) config.simple s s1
          (λ c s t made. made_inv _ _ s t) making1 in
      let e2 =
        new_if_inv new_krypton (λ c. record { global_config = c }) config.krypton s1 s2
          (λ c s t made. made_inv _ _ s t) making2 in
      let e3 =
        new_if_inv new_tplink (λ c. record { global_config = c }) config.tplink s2 s3
          (λ c s t made. made_inv _ _ s t) making3 in
      let e4 =
        new_if_inv new_govee (λ c. record { global_config = c }) config.govee s3 s4
          (λ c s t made. made_inv _ _ s t) making4 in
      let same : record { simple = simple; krypton = krypton; tplink = tplink; govee = govee }
          ≡ controllers =
        pure_inv _ _ s4 t h4 in
      sym same ∙ (λ i. record { simple = e1 i; krypton = e2 i; tplink = e3 i; govee = e4 i })
