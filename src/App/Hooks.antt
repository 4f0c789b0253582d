-- ===== src/App/Hooks.antt =====
-- The hooks among the effects.
use devicectrl_server.Prelude.{◌≡◌, refl, ap, List, [], ◌∷◌, ◌++◌}
use devicectrl_server.Deps.{Deps}
use devicectrl_server.App.{Effect, Hook, send_hook}
use devicectrl_server.App.Emits.{is_command, AllAre}

module _ ⦃d : Deps⦄ where
  -- the hooks that were ever sent, the latest first
  abbrev pub hooks_sent : List Effect → List Hook
  hooks_sent [] = []
  hooks_sent (send_hook h ∷ trace) = h ∷ hooks_sent trace
  hooks_sent (_ ∷ trace) = hooks_sent trace

  pub hooks_sent-command :
      (fresh trace : List Effect)
      → AllAre is_command fresh
      → hooks_sent (fresh ++ trace) ≡ hooks_sent trace
  hooks_sent-command [] trace h = refl
  hooks_sent-command (send_hook x ∷ fresh) trace h = cc
  hooks_sent-command (_ ∷ fresh) trace h = hooks_sent-command fresh trace h.1

  pub hooks_sent-append :
      (xs ys : List Effect) → hooks_sent (xs ++ ys) ≡ hooks_sent xs ++ hooks_sent ys
  hooks_sent-append [] ys = refl
  hooks_sent-append (send_hook h ∷ xs) ys = ap (λ hooks. h ∷ hooks) (hooks_sent-append xs ys)
  hooks_sent-append (_ ∷ xs) ys = hooks_sent-append xs ys
