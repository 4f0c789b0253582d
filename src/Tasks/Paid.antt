-- ===== src/Tasks/Paid.antt =====
-- A join that succeeds has sent all the hooks that its futures owe.
use mathlib.Core.List.{Perm, perm_middle}
use mathlib.Core.List.Perm
use devicectrl_server.Prelude.{
  ℕ, zero, suc, ◌+◌, ◌%◌, ◌≡◌, refl, ap, ◌∙◌, inl, inr, Option, none, some, List, [], ◌∷◌, ◌++◌,
  Result, ok, err, length, Option-cases,
}
use devicectrl_server.Deps.{Deps}
use devicectrl_server.App.{AppState, Hook}
use devicectrl_server.App.Hooks.{hooks_sent}
use devicectrl_server.Tasks.{Task, done, turn}
use devicectrl_server.Tasks.Join.{
  keep, sweep, poll, ended, left, or_stuck, Scheduler, join, try_join_all,
}
use devicectrl_server.Tasks.Owes.{Owes, TotalOwes}

module _ ⦃d : Deps⦄ where
  -- the same of what a sweep leaves
  abbrev LeftOwes : Result (List Task) → List Hook → Type 0
  LeftOwes (ok tasks) hooks = TotalOwes tasks hooks
  LeftOwes (err x) hooks = Unit

  LeftOwes-keep :
      (task : Task) (r : Result (List Task)) (o rest : List Hook)
      → Owes task o
      → LeftOwes r rest
      → LeftOwes (keep task r) (o ++ rest)
  LeftOwes-keep task (ok tasks) o rest now later = (o, rest, refl, now, later)
  LeftOwes-keep task (err x) o rest now later = tt

  sweep-LeftOwes :
      (tasks : List Task) (hooks : List Hook) → TotalOwes tasks hooks → LeftOwes (sweep tasks) hooks
  sweep-LeftOwes [] hooks h = h
  sweep-LeftOwes (done (err x) ∷ tasks) hooks h = tt
  sweep-LeftOwes (done (ok _) ∷ tasks) hooks (o, rest, split, nothing, later) =
      rw (split, nothing) (sweep-LeftOwes tasks rest later)
  sweep-LeftOwes (turn f k ∷ tasks) hooks (o, rest, split, now, later) =
      rw split (LeftOwes-keep (turn f k) (sweep tasks) o rest now (sweep-LeftOwes tasks rest later))

  abbrev PaidBy : List Hook → List Task × AppState → AppState → Type 0
  PaidBy hooks (tasks, t) s =
      (rest : List Hook) × TotalOwes tasks rest
      × Perm (rest ++ hooks_sent t.trace) (hooks ++ hooks_sent s.trace)

  turn-PaidBy :
      (f : AppState → AppState) (k : AppState → Task) (tasks : List Task) (s : AppState)
      (o rest : List Hook)
      → Owes (turn f k) o
      → TotalOwes tasks rest
      → PaidBy (o ++ rest) (k s ∷ tasks, f s) s
  turn-PaidBy f k tasks s o rest owes later = elim (owes s) [
    | inl (same, now) ↦ (o ++ rest, (o, rest, refl, now, later), rw same (Perm.refl _))
    | inr (h, o', is_h, sent, now) ↦ (
      o' ++ rest,
      (o', rest, refl, now, later),
      rw (sent, is_h) (perm_middle (o' ++ rest) (hooks_sent s.trace)),
    )
  ]

  Perm-front :
      (o xs ys zs ws : List Hook)
      → Perm (xs ++ ys) (zs ++ ws)
      → Perm ((o ++ xs) ++ ys) ((o ++ zs) ++ ws)
  Perm-front [] xs ys zs ws h = h
  Perm-front (x ∷ o) xs ys zs ws h = Perm.cons x (Perm-front o xs ys zs ws h)

  PaidBy-cons :
      (o : List Hook) (task : Task) (hooks : List Hook) (tasks : List Task) (s t : AppState)
      → Owes task o
      → PaidBy hooks (tasks, t) s
      → PaidBy (o ++ hooks) (task ∷ tasks, t) s
  PaidBy-cons o task hooks tasks s t owes (rest, left_owed, same) =
      (o ++ rest, (o, rest, refl, owes, left_owed), Perm-front o rest _ hooks _ same)

  poll-PaidBy :
      (i : ℕ) (tasks : List Task) (s : AppState) (hooks : List Hook)
      → TotalOwes tasks hooks
      → PaidBy hooks (poll i tasks s) s
  poll-PaidBy i [] s hooks h = (hooks, h, Perm.refl _)
  poll-PaidBy zero (done r ∷ tasks) s hooks h = (hooks, h, Perm.refl _)
  poll-PaidBy zero (turn f k ∷ tasks) s hooks (o, rest, split, now, later) =
      rw split (turn-PaidBy f k tasks s o rest now later)
  poll-PaidBy (suc i) (task ∷ tasks) s hooks (o, rest, split, now, later) = rw split (
      PaidBy-cons o task rest (poll i tasks s).0 s (poll i tasks s).1 now
        (poll-PaidBy i tasks s rest later))

  -- no error, and nothing left: nothing is owed
  ended-LeftOwes :
      (r : Result (List Task)) (hooks : List Hook)
      → ended r ≡ some (ok tt)
      → LeftOwes r hooks
      → hooks ≡ []
  ended-LeftOwes (ok []) hooks e h = h
  ended-LeftOwes (ok (task ∷ tasks)) hooks e h = cc
  ended-LeftOwes (err x) hooks e h = cc

  more-LeftOwes :
      (r : Result (List Task)) (hooks : List Hook)
      → ended r ≡ none
      → LeftOwes r hooks
      → TotalOwes (left r) hooks
  more-LeftOwes (ok tasks) hooks e h = h
  more-LeftOwes (err x) hooks e h = cc

  settled :
      (tasks : List Task) (s : AppState) (hooks : List Hook)
      → TotalOwes tasks hooks
      → ended (sweep tasks) ≡ some (ok tt)
      → Perm (hooks_sent s.trace) (hooks ++ hooks_sent s.trace)
  settled tasks s hooks owes over =
      rw (ended-LeftOwes (sweep tasks) hooks over (sweep-LeftOwes tasks hooks owes)) (Perm.refl _)

module _ ⦃d : Deps⦄ ⦃c : Scheduler⦄ where
  -- A join that succeeds has sent exactly the hooks that its futures owed, in whichever order they
  -- took their turns.
  pub join-Owes :
      (fuel start round : ℕ) (tasks : List Task) (s : AppState) (hooks : List Hook)
      → TotalOwes tasks hooks
      → (join fuel start round tasks s).0 ≡ some (ok tt)
      → Perm (hooks_sent (join fuel start round tasks s).1.trace) (hooks ++ hooks_sent s.trace)
  unfolding join
  join-Owes zero start round tasks s hooks owes over = settled tasks s hooks owes over
  join-Owes (suc fuel) start round tasks s hooks owes over =
      elim (Option-cases (ended (sweep tasks))) [
        | inr (r, stops) ↦ rw stops (settled tasks s hooks owes (stops ∙ (rw stops at over)))
        | inl more ↦
            let pending = left (sweep tasks) in
            let i = c.choose start round % length pending in
            let owed = more-LeftOwes (sweep tasks) hooks more (sweep-LeftOwes tasks hooks owes) in
            let (rest, owes', same) = poll-PaidBy i pending s hooks owed in
            rw more
              (Perm.trans (join-Owes fuel start (round + 1) _ _ rest owes' (rw more at over)) same)
      ]

  or_stuck_ok : (o : Option (Result (Unit {0}))) → or_stuck o ≡ ok tt → o ≡ some (ok tt)
  or_stuck_ok (some r) h = ap some h
  or_stuck_ok none h = cc

  -- The same of a join that is given enough turns.
  pub try_join_all-Owes :
      (fuel : ℕ) (tasks : List Task) (s t : AppState) (hooks : List Hook)
      → TotalOwes tasks hooks
      → try_join_all fuel tasks s ≡ (ok tt, t)
      → Perm (hooks_sent t.trace) (hooks ++ hooks_sent s.trace)
  unfolding try_join_all
  try_join_all-Owes fuel tasks s t hooks owes h =
      let over = or_stuck_ok _ (ap (λ p. p.0) h) in
      let last : (join fuel s.clock 0 tasks s).1 ≡ t = ap (λ p. p.1) h in
      rw (← last) (join-Owes fuel s.clock 0 tasks s hooks owes over)
