-- ===== src/Tasks/Succeed.antt =====
-- Futures that cannot fail: a join of them cannot fail.
use devicectrl_server.Prelude.{
  ℕ, zero, suc, ◌+◌, ◌%◌, ◌≡◌, ◌∙◌, some, List, [], ◌∷◌, map, Result, ok, err, length, Option-cases,
  inl, inr,
}
use devicectrl_server.Deps.{Deps}
use devicectrl_server.App.{AppState}
use devicectrl_server.Tasks.{Task, done, turn, logged}
use devicectrl_server.Tasks.Join.{keep, sweep, poll, ended, left, Scheduler, join}

module _ ⦃d : Deps⦄ where
  abbrev pub Succeeds : Task → Type 0
  Succeeds (done (ok _)) = Unit
  Succeeds (done (err x)) = ⊥
  Succeeds (turn f k) = (s : AppState) → Succeeds (k s)

  abbrev pub AllSucceed : List Task → Type 0
  AllSucceed [] = Unit
  AllSucceed (task ∷ tasks) = Succeeds task × AllSucceed tasks

  pub AllSucceed-map {ℓ} :
      {A : Type ℓ} (f : A → Task) (xs : List A) → ((x : A) → Succeeds (f x)) → AllSucceed (map f xs)
  AllSucceed-map f [] h = tt
  AllSucceed-map f (x ∷ xs) h = (h x, AllSucceed-map f xs h)

  pub Succeeds-logged : (task : Task) → Succeeds (logged task)
  unfolding logged
  Succeeds-logged (done r) = tt
  Succeeds-logged (turn f k) = λ s. Succeeds-logged (k s)

  abbrev LeftSucceed : Result (List Task) → Type 0
  LeftSucceed (ok tasks) = AllSucceed tasks
  LeftSucceed (err x) = ⊥

  LeftSucceed-keep :
      (task : Task) (r : Result (List Task))
      → Succeeds task
      → LeftSucceed r
      → LeftSucceed (keep task r)
  LeftSucceed-keep task (ok tasks) h k = (h, k)
  LeftSucceed-keep task (err x) h k = absurd k

  sweep-LeftSucceed : (tasks : List Task) → AllSucceed tasks → LeftSucceed (sweep tasks)
  sweep-LeftSucceed [] h = tt
  sweep-LeftSucceed (done (ok _) ∷ tasks) h = sweep-LeftSucceed tasks h.1
  sweep-LeftSucceed (done (err x) ∷ tasks) h = absurd h.0
  sweep-LeftSucceed (turn f k ∷ tasks) h =
      LeftSucceed-keep (turn f k) (sweep tasks) h.0 (sweep-LeftSucceed tasks h.1)

  left-AllSucceed : (r : Result (List Task)) → LeftSucceed r → AllSucceed (left r)
  left-AllSucceed (ok tasks) h = h
  left-AllSucceed (err x) h = absurd h

  ended-ok :
      (r : Result (List Task)) {a : Result (Unit {0})}
      → LeftSucceed r
      → ended r ≡ some a
      → a ≡ ok tt
  ended-ok (ok []) h e = cc
  ended-ok (ok (task ∷ tasks)) h e = cc
  ended-ok (err x) h e = absurd h

  poll-AllSucceed :
      (i : ℕ) (tasks : List Task) (s : AppState) → AllSucceed tasks → AllSucceed (poll i tasks s).0
  poll-AllSucceed i [] s h = tt
  poll-AllSucceed zero (done r ∷ tasks) s h = h
  poll-AllSucceed zero (turn f k ∷ tasks) s h = (h.0 s, h.1)
  poll-AllSucceed (suc i) (task ∷ tasks) s h = (h.0, poll-AllSucceed i tasks s h.1)

module _ ⦃d : Deps⦄ ⦃c : Scheduler⦄ where
  -- If such a join comes to a result, it is success.
  pub join_succeeds :
      (fuel start round : ℕ) (tasks : List Task) (s : AppState) {r : Result (Unit {0})}
      → AllSucceed tasks
      → (join fuel start round tasks s).0 ≡ some r
      → r ≡ ok tt
  unfolding join
  join_succeeds zero start round tasks s h e = ended-ok (sweep tasks) (sweep-LeftSucceed tasks h) e
  join_succeeds (suc fuel) start round tasks s h e = elim (Option-cases (ended (sweep tasks))) [
    | inr (a, over) ↦ ended-ok (sweep tasks) (sweep-LeftSucceed tasks h) (over ∙ (rw over at e))
    | inl more ↦
        let pending = left (sweep tasks) in
        let i = c.choose start round % length pending in
        join_succeeds fuel start (round + 1) (poll i pending s).0 (poll i pending s).1
          (poll-AllSucceed i pending s (left-AllSucceed (sweep tasks) (sweep-LeftSucceed tasks h)))
          (rw more at e)
  ]
