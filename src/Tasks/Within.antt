-- ===== src/Tasks/Within.antt =====
-- A join of futures with boundedly many turns ends, in whichever order they take them.
use devicectrl_server.Prelude.{
  ℕ, zero, suc, ◌+◌, ◌-◌, ◌*◌, ◌%◌, ◌≤◌, ◌<◌, ◌≡◌, refl, none, some, List, [], ◌∷◌, Result, ok, err,
  length, map, Option-cases, inl, inr, arith,
}
use devicectrl_server.Deps.{Deps}
use devicectrl_server.App.{AppState, Action}
use devicectrl_server.Tasks.{
  Task, done, turn, resume, after_first, call, await, finally, logged, and_then,
}
use devicectrl_server.Tasks.Join.{keep, sweep, poll, ended, left, Scheduler, join}

module _ ⦃d : Deps⦄ where
  -- The future takes at most `n` turns.
  abbrev pub Within : Task → ℕ → Type 0
  Within (done r) n = Unit
  Within (turn f k) zero = ⊥
  Within (turn f k) (suc n) = (s : AppState) → Within (k s) n

  -- The futures take at most `n` turns together.
  abbrev pub TotalWithin : List Task → ℕ → Type 0
  TotalWithin [] n = Unit
  TotalWithin (task ∷ tasks) n = (a b : ℕ) × (a + b ≤ n) × Within task a × TotalWithin tasks b

  -- None has ended.
  abbrev ArePending : List Task → Type 0
  ArePending [] = Unit
  ArePending (done r ∷ tasks) = ⊥
  ArePending (turn f k ∷ tasks) = ArePending tasks

  Within-resume :
      {A : Type 0} (r : Result A) (k : A → Task) (n : ℕ)
      → ((a : A) → Within (k a) n)
      → Within (resume r k) n
  Within-resume (ok a) k n h = h a
  Within-resume (err x) k n h = tt

  pub Within-await :
      {A : Type 0} (m : Action A) (k : A → Task) (n : ℕ)
      → ((a : A) → Within (k a) n)
      → Within (await m k) (suc n)
  unfolding await
  Within-await m k n h = λ s. Within-resume (m s).0 k n h

  Within-after_first :
      (task : Task) (s : AppState) (n : ℕ) → Within task (suc n) → Within (after_first task s) n
  Within-after_first (done r) s n h = tt
  Within-after_first (turn f k) s n h = h s

  pub Within-call :
      {A : Type 0} (m : Action A) (k : A → Task) (n : ℕ)
      → ((a : A) → Within (k a) (suc n))
      → Within (call m k) (suc n)
  unfolding call
  Within-call m k n h =
      λ s. Within-after_first (resume (m s).0 k) (m s).1 n (Within-resume (m s).0 k (suc n) h)

  pub Within-finally : (m : Action (Unit {0})) (n : ℕ) → Within (finally m) (suc n)
  unfolding finally
  Within-finally m n = Within-await m (λ _. done (ok tt)) n (λ _. tt)

  pub Within-logged : (task : Task) (n : ℕ) → Within task n → Within (logged task) n
  unfolding logged
  Within-logged (done r) n h = tt
  Within-logged (turn f k) zero h = h
  Within-logged (turn f k) (suc n) h = λ s. Within-logged (k s) n (h s)

  pub Within-mono : (task : Task) (m n : ℕ) → m ≤ n → Within task m → Within task n
  Within-mono (done r) m n h w = tt
  Within-mono (turn f k) zero n h w = absurd w
  Within-mono (turn f k) (suc m) zero h w = absurd (omega arith)
  Within-mono (turn f k) (suc m) (suc n) h w = λ s. Within-mono (k s) m n (omega arith) (w s)

  pub Within-and_then :
      (task next : Task) (m n : ℕ)
      → Within task m
      → Within next n
      → Within (and_then task next) (m + n)
  unfolding and_then
  Within-and_then (done (ok _)) next m n h w = Within-mono next n (m + n) (omega arith) w
  Within-and_then (done (err x)) next m n h w = tt
  Within-and_then (turn f k) next zero n h w = absurd h
  Within-and_then (turn f k) next (suc m) n h w =
      let shift : suc m + n ≡ suc (m + n) = omega arith in
      rw shift (λ s. Within-and_then (k s) next m n (h s) w)

  TotalWithin-mono :
      (tasks : List Task) (m n : ℕ) → m ≤ n → TotalWithin tasks m → TotalWithin tasks n
  TotalWithin-mono [] m n h w = tt
  TotalWithin-mono (task ∷ tasks) m n h (a, b, sum, now, later) = (a, b, omega arith, now, later)

  pub TotalWithin-map {ℓ} :
      {A : Type ℓ} (n : ℕ) (f : A → Task) (xs : List A)
      → ((x : A) → Within (f x) n)
      → TotalWithin (map f xs) (n * length xs)
  TotalWithin-map n f [] h = tt
  TotalWithin-map n f (x ∷ xs) h = (n, n * length xs, grind arith, h x, TotalWithin-map n f xs h)

  ArePending-keep :
      (f : AppState → AppState) (k : AppState → Task) (r : Result (List Task))
      → ArePending (left r)
      → ArePending (left (keep (turn f k) r))
  ArePending-keep f k (ok tasks) h = h
  ArePending-keep f k (err x) h = tt

  TotalWithin-keep :
      (task : Task) (r : Result (List Task)) (a b n : ℕ)
      → a + b ≤ n
      → Within task a
      → TotalWithin (left r) b
      → TotalWithin (left (keep task r)) n
  TotalWithin-keep task (ok tasks) a b n sum now later = (a, b, sum, now, later)
  TotalWithin-keep task (err x) a b n sum now later = tt

  sweep-ArePending : (tasks : List Task) → ArePending (left (sweep tasks))
  sweep-ArePending [] = tt
  sweep-ArePending (done (err x) ∷ tasks) = tt
  sweep-ArePending (done (ok _) ∷ tasks) = sweep-ArePending tasks
  sweep-ArePending (turn f k ∷ tasks) = ArePending-keep f k (sweep tasks) (sweep-ArePending tasks)

  sweep-TotalWithin :
      (tasks : List Task) (n : ℕ) → TotalWithin tasks n → TotalWithin (left (sweep tasks)) n
  sweep-TotalWithin [] n w = tt
  sweep-TotalWithin (done (err x) ∷ tasks) n w = tt
  sweep-TotalWithin (done (ok _) ∷ tasks) n (a, b, sum, now, later) =
      sweep-TotalWithin tasks n (TotalWithin-mono tasks b n (omega arith) later)
  sweep-TotalWithin (turn f k ∷ tasks) n (a, b, sum, now, later) =
      TotalWithin-keep (turn f k) (sweep tasks) a b n sum now (sweep-TotalWithin tasks b later)

  poll-TotalWithin :
      (i : ℕ) (tasks : List Task) (s : AppState) (n : ℕ)
      → i < length tasks
      → ArePending tasks
      → TotalWithin tasks n
      → (0 < n) × TotalWithin (poll i tasks s).0 (n - 1)
  poll-TotalWithin i [] s n h p w = absurd (omega arith)
  poll-TotalWithin zero (done r ∷ tasks) s n h p w = absurd p
  poll-TotalWithin zero (turn f k ∷ tasks) s n h p (zero, b, sum, now, later) = absurd now
  poll-TotalWithin zero (turn f k ∷ tasks) s n h p (suc a, b, sum, now, later) =
      (omega arith, (a, b, omega arith, now s, later))
  poll-TotalWithin (suc i) (done r ∷ tasks) s n h p w = absurd p
  poll-TotalWithin (suc i) (turn f k ∷ tasks) s n h p (a, b, sum, now, later) =
      let (some_left, rest) = poll-TotalWithin i tasks s b (omega arith) p later in
      (omega arith, (a, b - 1, omega arith, now, rest))

  -- Futures that may take no turn at all are none, or one of them has failed.
  ended-none_left :
      (r : Result (List Task))
      → ArePending (left r)
      → TotalWithin (left r) 0
      → (a : Result (Unit {0})) × (ended r ≡ some a)
  ended-none_left (err x) p w = (err x, refl)
  ended-none_left (ok []) p w = (ok tt, refl)
  ended-none_left (ok (done r ∷ tasks)) p w = absurd p
  ended-none_left (ok (turn f k ∷ tasks)) p (zero, b, sum, now, later) = absurd now
  ended-none_left (ok (turn f k ∷ tasks)) p (suc a, b, sum, now, later) = absurd (omega arith)

  left-nonempty : (r : Result (List Task)) → ended r ≡ none → 0 < length (left r)
  left-nonempty (err x) h = cc
  left-nonempty (ok []) h = cc
  left-nonempty (ok (task ∷ tasks)) h = omega arith

module _ ⦃d : Deps⦄ ⦃c : Scheduler⦄ where
  -- A join whose futures take at most as many turns together as it is given comes to a result,
  -- in whichever order they take their turns.
  pub join_ends :
      (fuel start round : ℕ) (tasks : List Task) (s : AppState)
      → TotalWithin tasks fuel
      → (r : Result (Unit {0})) × ((join fuel start round tasks s).0 ≡ some r)
  unfolding join
  join_ends zero start round tasks s w =
      ended-none_left (sweep tasks) (sweep-ArePending tasks) (sweep-TotalWithin tasks 0 w)
  join_ends (suc fuel) start round tasks s w = elim (Option-cases (ended (sweep tasks))) [
    | inr (r, over) ↦ (r, rw over refl)
    | inl more ↦
        let pending = left (sweep tasks) in
        let some_left : 0 < length pending = left-nonempty (sweep tasks) more in
        let i = c.choose start round % length pending in
        let next =
          poll-TotalWithin i pending s (suc fuel) (grind arith) (sweep-ArePending tasks)
            (sweep-TotalWithin tasks (suc fuel) w) in
        rw more (
          join_ends fuel start (round + 1) (poll i pending s).0 (poll i pending s).1
            (TotalWithin-mono (poll i pending s).0 (suc fuel - 1) fuel (omega arith) next.1))
  ]
