-- ===== src/Tasks/Owes.antt =====
-- Futures that each send given hooks before they succeed.
use devicectrl_server.Prelude.{
  ◌≡◌, refl, ap, ◌∙◌, ◌⊎◌, inl, inr, List, [], ◌∷◌, ◌++◌, map, Result, ok, err, Error,
}
use devicectrl_server.Deps.{Deps}
use devicectrl_server.App.{AppState, Action, Hook}
use devicectrl_server.App.Emits.{is_command}
use devicectrl_server.App.Hooks.{hooks_sent, hooks_sent-command}
use devicectrl_server.Tasks.Keeps.{TurnsEmit}
use devicectrl_server.Tasks.{Task, done, turn, resume, first_turn, after_first, call, and_then}

module _ ⦃d : Deps⦄ where
  -- The future sends the hooks that it owes, in their order, and no other, or fails.
  abbrev pub Owes : Task → List Hook → Type 0
  Owes (done (err x)) o = Unit
  Owes (done (ok _)) o = o ≡ []
  Owes (turn f k) o =
      (s : AppState)
      → ((hooks_sent (f s).trace ≡ hooks_sent s.trace) × Owes (k s) o)
        ⊎ ((h : Hook) × (later : List Hook) × (o ≡ h ∷ later)
            × (hooks_sent (f s).trace ≡ h ∷ hooks_sent s.trace)
            × Owes (k s) later)

  -- what the futures owe together
  abbrev pub TotalOwes : List Task → List Hook → Type 0
  TotalOwes [] hooks = hooks ≡ []
  TotalOwes (task ∷ tasks) hooks =
      (o rest : List Hook) × (hooks ≡ o ++ rest) × Owes task o × TotalOwes tasks rest

  pub TotalOwes-map {ℓ} :
      {A : Type ℓ} (f : A → Task) (hook_of : A → Hook) (xs : List A)
      → ((x : A) → Owes (f x) (hook_of x ∷ []))
      → TotalOwes (map f xs) (map hook_of xs)
  TotalOwes-map f hook_of [] h = refl
  TotalOwes-map f hook_of (x ∷ xs) h =
      (hook_of x ∷ [], map hook_of xs, refl, h x, TotalOwes-map f hook_of xs h)

  abbrev pub concat_map {ℓ} : {A : Type ℓ} → (A → List Hook) → List A → List Hook
  concat_map f [] = []
  concat_map f (x ∷ xs) = f x ++ concat_map f xs

  pub TotalOwes-concat_map {ℓ} :
      {A : Type ℓ} (f : A → Task) (hooks_of : A → List Hook) (xs : List A)
      → ((x : A) → Owes (f x) (hooks_of x))
      → TotalOwes (map f xs) (concat_map hooks_of xs)
  TotalOwes-concat_map f hooks_of [] h = refl
  TotalOwes-concat_map f hooks_of (x ∷ xs) h =
      (hooks_of x, concat_map hooks_of xs, refl, h x, TotalOwes-concat_map f hooks_of xs h)

  Owes-resume :
      {A : Type 0} (r : Result A) (k : A → Task) (o : List Hook)
      → ((a : A) → Owes (k a) o)
      → Owes (resume r k) o
  Owes-resume (ok a) k o h = h a
  Owes-resume (err x) k o h = tt

  pub Owes-and_then :
      (task next : Task) (o later : List Hook)
      → Owes task o
      → Owes next later
      → Owes (and_then task next) (o ++ later)
  unfolding and_then
  Owes-and_then (done (ok _)) next o later h w = rw h w
  Owes-and_then (done (err x)) next o later h w = tt
  Owes-and_then (turn f k) next o later h w = λ s. elim (h s) [
    | inl (same, owes) ↦ inl (same, Owes-and_then (k s) next o later owes w)
    | inr (hook, rest, is_hook, sent, owes) ↦
        inr (hook, rest ++ later, rw is_hook refl, sent, Owes-and_then (k s) next rest later owes w)
  ]

  pub Owes-of_command : (task : Task) → TurnsEmit is_command task → Owes task []
  Owes-of_command (done (ok _)) h = refl
  Owes-of_command (done (err x)) h = tt
  Owes-of_command (turn f k) h = λ s.
      let (same, later) = h s in
      inl (
        ap hooks_sent same.trace ∙ hooks_sent-command same.fresh s.trace same.fresh_kind,
        Owes-of_command (k s) later,
      )

  first-command :
      (task : Task) (s : AppState)
      → TurnsEmit is_command task
      → (hooks_sent (first_turn task s).trace ≡ hooks_sent s.trace) × Owes (after_first task s) []
  first-command (done (ok _)) s h = (refl, refl)
  first-command (done (err x)) s h = (refl, tt)
  first-command (turn f k) s h =
      let (same, later) = h s in
      (
        ap hooks_sent same.trace ∙ hooks_sent-command same.fresh s.trace same.fresh_kind,
        Owes-of_command (k s) later,
      )

  resume-command :
      {A : Type 0} (r : Result A) (k : A → Task)
      → ((a : A) → TurnsEmit is_command (k a))
      → TurnsEmit is_command (resume r k)
  resume-command (ok a) k h = h a
  resume-command (err x) k h = tt

  -- an action that sends the hook or fails, before a future that sends none
  pub Owes-call :
      {A : Type 0} (m : Action A) (k : A → Task) (h : Hook)
      → ((s : AppState)
          → ((x : Error) × ((m s).0 ≡ err x) × (hooks_sent (m s).1.trace ≡ hooks_sent s.trace))
            ⊎ (hooks_sent (m s).1.trace ≡ h ∷ hooks_sent s.trace))
      → ((a : A) → TurnsEmit is_command (k a))
      → Owes (call m k) (h ∷ [])
  unfolding call
  Owes-call m k h sends quiet = λ s. elim (sends s) [
    | inl (x, bad, same) ↦ inl (rw bad same, rw bad tt)
    | inr sent ↦
        let (unsent, owes) =
          first-command (resume (m s).0 k) (m s).1 (resume-command (m s).0 k quiet) in
        inr (h, [], refl, unsent ∙ sent, owes)
  ]
