-- ===== src/Tasks/Keeps.antt =====
-- What every turn of every future keeps, a join of them keeps.
use devicectrl_server.Prelude.{
  ℕ, zero, suc, ◌+◌, ◌%◌, List, [], ◌∷◌, map, Result, ok, err, length, Option-cases, inl, inr,
}
use devicectrl_server.Deps.{Deps}
use devicectrl_server.App.{AppState, Action}
use devicectrl_server.App.Emits.{
  SameState, SameState-refl, SameState-trans, SameState-wider, Emits, Implies,
}
use devicectrl_server.App.{Effect}
use devicectrl_server.Prelude.{Bool}
use devicectrl_server.Tasks.{
  Task, done, turn, resume, first_turn, after_first, call, await, finally, logged, and_then,
}
use devicectrl_server.Tasks.Join.{keep, sweep, poll, ended, left, Scheduler, join}

module _ ⦃d : Deps⦄ (kind : Effect → Bool) where
  -- Each turn only adds effects of that kind.
  abbrev pub TurnsEmit : Task → Type 0
  TurnsEmit (done r) = Unit
  TurnsEmit (turn f k) = (s : AppState) → SameState kind s (f s) × TurnsEmit (k s)

  abbrev pub AllTurnsEmit : List Task → Type 0
  AllTurnsEmit [] = Unit
  AllTurnsEmit (task ∷ tasks) = TurnsEmit task × AllTurnsEmit tasks

  pub AllTurnsEmit-map {ℓ} :
      {A : Type ℓ} (f : A → Task) (xs : List A)
      → ((x : A) → TurnsEmit (f x))
      → AllTurnsEmit (map f xs)
  AllTurnsEmit-map f [] h = tt
  AllTurnsEmit-map f (x ∷ xs) h = (h x, AllTurnsEmit-map f xs h)

  resume-TurnsEmit :
      {A : Type 0} (r : Result A) (k : A → Task)
      → ((a : A) → TurnsEmit (k a))
      → TurnsEmit (resume r k)
  resume-TurnsEmit (ok a) k h = h a
  resume-TurnsEmit (err x) k h = tt

  pub TurnsEmit-await :
      {A : Type 0} (m : Action A) (k : A → Task)
      → Emits kind m
      → ((a : A) → TurnsEmit (k a))
      → TurnsEmit (await m k)
  unfolding await
  TurnsEmit-await m k hm hk s = (hm.at s, resume-TurnsEmit (m s).0 k hk)

  TurnsEmit-first :
      (task : Task) (s t : AppState)
      → SameState kind s t
      → TurnsEmit task
      → SameState kind s (first_turn task t) × TurnsEmit (after_first task t)
  TurnsEmit-first (done r) s t same h = (same, h)
  TurnsEmit-first (turn f k) s t same h = (SameState-trans same (h t).0, (h t).1)

  pub TurnsEmit-call :
      {A : Type 0} (m : Action A) (k : A → Task)
      → Emits kind m
      → ((a : A) → TurnsEmit (k a))
      → TurnsEmit (call m k)
  unfolding call
  TurnsEmit-call m k hm hk s =
      TurnsEmit-first (resume (m s).0 k) s (m s).1 (hm.at s) (resume-TurnsEmit (m s).0 k hk)

  pub TurnsEmit-finally : (m : Action (Unit {0})) → Emits kind m → TurnsEmit (finally m)
  unfolding finally await
  TurnsEmit-finally m h s = (h.at s, resume-TurnsEmit (m s).0 (λ _. done (ok tt)) (λ _. tt))

  pub TurnsEmit-logged : (task : Task) → TurnsEmit task → TurnsEmit (logged task)
  unfolding logged
  TurnsEmit-logged (done r) h = tt
  TurnsEmit-logged (turn f k) h = λ s. ((h s).0, TurnsEmit-logged (k s) (h s).1)

  pub TurnsEmit-and_then :
      (task next : Task) → TurnsEmit task → TurnsEmit next → TurnsEmit (and_then task next)
  unfolding and_then
  TurnsEmit-and_then (done (ok _)) next h w = w
  TurnsEmit-and_then (done (err x)) next h w = tt
  TurnsEmit-and_then (turn f k) next h w = λ s. ((h s).0, TurnsEmit-and_then (k s) next (h s).1 w)

  keep-AllTurnsEmit :
      (task : Task) (r : Result (List Task))
      → TurnsEmit task
      → AllTurnsEmit (left r)
      → AllTurnsEmit (left (keep task r))
  keep-AllTurnsEmit task (ok tasks) h k = (h, k)
  keep-AllTurnsEmit task (err x) h k = tt

  pub sweep-AllTurnsEmit :
      (tasks : List Task) → AllTurnsEmit tasks → AllTurnsEmit (left (sweep tasks))
  sweep-AllTurnsEmit [] h = tt
  sweep-AllTurnsEmit (done (err x) ∷ tasks) h = tt
  sweep-AllTurnsEmit (done (ok _) ∷ tasks) h = sweep-AllTurnsEmit tasks h.1
  sweep-AllTurnsEmit (turn f k ∷ tasks) h =
      keep-AllTurnsEmit (turn f k) (sweep tasks) h.0 (sweep-AllTurnsEmit tasks h.1)

  pub poll-AllTurnsEmit :
      (i : ℕ) (tasks : List Task) (s : AppState)
      → AllTurnsEmit tasks
      → SameState kind s (poll i tasks s).1 × AllTurnsEmit (poll i tasks s).0
  poll-AllTurnsEmit i [] s h = (SameState-refl kind s, tt)
  poll-AllTurnsEmit zero (done r ∷ tasks) s h = (SameState-refl kind s, h)
  poll-AllTurnsEmit zero (turn f k ∷ tasks) s h = ((h.0 s).0, ((h.0 s).1, h.1))
  poll-AllTurnsEmit (suc i) (task ∷ tasks) s h =
      let (same, rest) = poll-AllTurnsEmit i tasks s h.1 in (same, (h.0, rest))

module _ ⦃d : Deps⦄ where
  pub TurnsEmit-wider :
      (kind wider : Effect → Bool) (task : Task)
      → Implies kind wider
      → TurnsEmit kind task
      → TurnsEmit wider task
  TurnsEmit-wider kind wider (done r) i h = tt
  TurnsEmit-wider kind wider (turn f k) i h =
      λ s. (SameState-wider i (h s).0, TurnsEmit-wider kind wider (k s) i (h s).1)

module _ ⦃d : Deps⦄ ⦃c : Scheduler⦄ (kind : Effect → Bool) where
  -- A join of futures whose turns only add effects of a kind only adds effects of that kind.
  pub join-SameState :
      (fuel start round : ℕ) (tasks : List Task) (s : AppState)
      → AllTurnsEmit kind tasks
      → SameState kind s (join fuel start round tasks s).1
  unfolding join
  join-SameState zero start round tasks s h = SameState-refl kind s
  join-SameState (suc fuel) start round tasks s h = elim (Option-cases (ended (sweep tasks))) [
    | inr (r, over) ↦ rw over (SameState-refl kind s)
    | inl more ↦
        let pending = left (sweep tasks) in
        let (same, rest) =
          poll-AllTurnsEmit kind (c.choose start round % length pending) pending s
            (sweep-AllTurnsEmit kind tasks h) in
        rw more (SameState-trans same (join-SameState fuel start (round + 1) _ _ rest))
  ]
