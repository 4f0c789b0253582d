-- ===== src/Tasks.antt =====
-- Asynchronous functions as the turns that they take: what happens between two awaits is one turn,
-- and at an await the turns of other futures may come in between.
pub mod Join
pub mod Keeps
pub mod Nested
pub mod Owes
pub mod Paid
pub mod Quiet
pub mod Succeed
pub mod Within
use devicectrl_server.Prelude.{
  ℕ, ◌≡◌, refl, ◌∙◌, ap, sym, Result, ok, err, Error, arith, Result-cases, inl, inr,
}
use devicectrl_server.Deps.{Deps}
use devicectrl_server.App.{AppState, Action, continue, ◌>>=◌}

module _ ⦃d : Deps⦄ where
  -- `turn f k` changes the state by `f`, and goes on as `k` of the state before it.
  pub data Task : Type 0 where
    done : Result (Unit {0}) → Task
    turn : (AppState → AppState) → (AppState → Task) → Task

  abbrev pub resume : {A : Type 0} → Result A → (A → Task) → Task
  resume (ok a) k = k a
  resume (err x) k = done (err x)

  -- `m.await?`, and then `k`
  unfoldable pub await : {A : Type 0} → Action A → (A → Task) → Task
  await m k = turn (λ s. (m s).1) (λ s. resume (m s).0 k)

  abbrev pub first_turn : Task → AppState → AppState
  first_turn (done r) s = s
  first_turn (turn f k) s = f s

  abbrev pub after_first : Task → AppState → Task
  after_first (done r) s = done r
  after_first (turn f k) s = k s

  -- `m?`, and then `k` in the same turn: nothing is awaited in between.
  unfoldable pub call : {A : Type 0} → Action A → (A → Task) → Task
  call m k =
      turn (λ s. first_turn (resume (m s).0 k) (m s).1)
        (λ s. after_first (resume (m s).0 k) (m s).1)

  -- `m.await`, at the end of a function
  unfoldable pub finally : Action (Unit {0}) → Task
  unfolding await
  finally m = await m (λ _. done (ok tt))

  -- `if let Err(err) = future.await { log::error!(..) }`
  unfoldable pub logged : Task → Task
  logged (done r) = done (ok tt)
  logged (turn f k) = turn f (λ s. logged (k s))

  -- one future, and another where it has succeeded
  unfoldable pub and_then : Task → Task → Task
  and_then (done (ok _)) next = next
  and_then (done (err x)) next = done (err x)
  and_then (turn f k) next = turn f (λ s. and_then (k s) next)

  -- the future by itself, with no other in between
  unfoldable pub run_alone : Task → Action (Unit {0})
  run_alone (done r) s = (r, s)
  run_alone (turn f k) s = run_alone (k s) (f s)

  run_alone-resume :
      {A : Type 0} (r : Result A) (k : A → Task) (f : A → Action (Unit {0})) (s : AppState)
      → ((a : A) (t : AppState) → run_alone (k a) t ≡ f a t)
      → run_alone (resume r k) s ≡ continue r f s
  unfolding run_alone
  run_alone-resume (ok a) k f s h = h a s
  run_alone-resume (err x) k f s h = refl

  pub run_alone-await :
      {A : Type 0} (m : Action A) (k : A → Task) (f : A → Action (Unit {0})) (s : AppState)
      → ((a : A) (t : AppState) → run_alone (k a) t ≡ f a t)
      → run_alone (await m k) s ≡ (m >>= f) s
  unfolding run_alone await ◌>>=◌
  run_alone-await m k f s h = run_alone-resume (m s).0 k f (m s).1 h

  run_alone-first :
      (task : Task) (s : AppState)
      → run_alone (after_first task s) (first_turn task s) ≡ run_alone task s
  unfolding run_alone
  run_alone-first (done r) s = refl
  run_alone-first (turn f k) s = refl

  pub run_alone-call :
      {A : Type 0} (m : Action A) (k : A → Task) (f : A → Action (Unit {0})) (s : AppState)
      → ((a : A) (t : AppState) → run_alone (k a) t ≡ f a t)
      → run_alone (call m k) s ≡ (m >>= f) s
  unfolding run_alone call ◌>>=◌
  run_alone-call m k f s h =
      run_alone-first (resume (m s).0 k) (m s).1 ∙ run_alone-resume (m s).0 k f (m s).1 h

  continue-ok : (r : Result (Unit {0})) (s : AppState) → continue r (λ a t. (ok a, t)) s ≡ (r, s)
  continue-ok (ok a) s = refl
  continue-ok (err x) s = refl

  pub run_alone-finally : (m : Action (Unit {0})) (s : AppState) → run_alone (finally m) s ≡ m s
  unfolding run_alone finally await
  run_alone-finally m s =
      run_alone-resume (m s).0 (λ _. done (ok tt)) (λ a t. (ok a, t)) (m s).1 (λ a t. refl)
      ∙ continue-ok (m s).0 (m s).1

  pub run_alone-and_then :
      (task next : Task) (s : AppState)
      → run_alone (and_then task next) s ≡ (run_alone task >>= λ _. run_alone next) s
  unfolding run_alone and_then ◌>>=◌
  run_alone-and_then (done (ok _)) next s = refl
  run_alone-and_then (done (err x)) next s = refl
  run_alone-and_then (turn f k) next s = run_alone-and_then (k s) next (f s)
