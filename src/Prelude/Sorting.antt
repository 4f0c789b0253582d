-- ===== src/Prelude/Sorting.antt =====
-- `slice::sort_unstable_by_key` on lists, and what is found in a list by key.
use Prim.Native.Nat.{ℕ, ◌<◌}
use mathlib.Core.Path.{◌≡◌, refl, sym, ◌∙◌, ap}
use mathlib.Core.Logic.{inl, inr}
use mathlib.Core.Option.{Option, none, some}
use mathlib.Core.List.{List, [], ◌∷◌}
use native.Mathlib.Omega.{arith}
use devicectrl_server.Prelude.Tests.{◌==◌, leb, if◌then◌else◌, Bool-cases}
use devicectrl_server.Prelude.Lists.{find?}

module _ {ℓ} {A : Type ℓ} (key : A → ℕ) where
  abbrev pub place : A → List A → List A
  place x [] = x ∷ []
  place x (y ∷ ys) = if leb (key x) (key y) then x ∷ (y ∷ ys) else y ∷ place x ys

  abbrev pub sort_by_key : List A → List A
  sort_by_key [] = []
  sort_by_key (x ∷ xs) = place x (sort_by_key xs)

  -- the element with a key
  abbrev pub entry : ℕ → List A → Option A
  entry id xs = find? (λ x. key x == id) xs

  abbrev pub AreDistinct : List A → Type ℓ
  AreDistinct [] = Unit
  AreDistinct (x ∷ xs) = (entry (key x) xs ≡ none) × AreDistinct xs

  abbrev pub AreAbove : ℕ → List A → Type 0
  AreAbove n [] = Unit
  AreAbove n (x ∷ xs) = (n < key x) × AreAbove n xs

  abbrev pub AreAscending : List A → Type 0
  AreAscending [] = Unit
  AreAscending (x ∷ xs) = AreAbove (key x) xs × AreAscending xs

  AreAbove-trans : (m n : ℕ) (xs : List A) → m < n → AreAbove n xs → AreAbove m xs
  AreAbove-trans m n [] h k = tt
  AreAbove-trans m n (x ∷ xs) h k = (omega arith, AreAbove-trans m n xs h k.1)

  AreAbove-entry : (n : ℕ) (xs : List A) → AreAbove n xs → entry n xs ≡ none
  AreAbove-entry n [] h = refl
  AreAbove-entry n (x ∷ xs) h = ground (arith, h.0, AreAbove-entry n xs h.1)

  AreAbove-inv : (n id : ℕ) (xs : List A) {x : A} → AreAbove n xs → entry id xs ≡ some x → n < id
  AreAbove-inv n id [] h e = cc
  AreAbove-inv n id (y ∷ ys) h e = elim (Bool-cases (key y == id)) [
    | inl here ↦ let same : key y ≡ id = ground arith in rw (← same) h.0
    | inr later ↦ AreAbove-inv n id ys h.1 (rw later at e)
  ]

  entry-place :
      (id : ℕ) (x : A) (xs : List A)
      → entry (key x) xs ≡ none
      → entry id (place x xs) ≡ (if key x == id then some x else entry id xs)
  entry-place id x [] h = refl
  entry-place id x (y ∷ ys) h = ground (arith, entry-place id x ys)

  AreAbove-place :
      (n : ℕ) (x : A) (xs : List A) → n < key x → AreAbove n xs → AreAbove n (place x xs)
  AreAbove-place n x [] h k = (h, tt)
  AreAbove-place n x (y ∷ ys) h k = elim (Bool-cases (leb (key x) (key y))) [
    | inl here ↦ rw here (h, k)
    | inr later ↦ rw later (k.0, AreAbove-place n x ys h k.1)
  ]

  AreAscending-place :
      (x : A) (xs : List A) → entry (key x) xs ≡ none → AreAscending xs → AreAscending (place x xs)
  AreAscending-place x [] h k = (tt, tt)
  AreAscending-place x (y ∷ ys) h k = elim (Bool-cases (leb (key x) (key y))) [
    | inl here ↦
        let below : key x < key y = ground arith in
        rw here ((below, AreAbove-trans (key x) (key y) ys below k.0), k)
    | inr later ↦
        let above : key y < key x = ground arith in
        rw later (AreAbove-place (key y) x ys above k.0, AreAscending-place x ys (ground arith) k.1)
  ]

  pub entry-sort_by_key :
      (id : ℕ) (xs : List A) → AreDistinct xs → entry id (sort_by_key xs) ≡ entry id xs
  entry-sort_by_key id [] h = refl
  entry-sort_by_key id (x ∷ xs) h =
      entry-place id x (sort_by_key xs) (entry-sort_by_key (key x) xs h.1 ∙ h.0)
      ∙ rw (entry-sort_by_key id xs h.1) refl

  pub sort_by_key-AreAscending : (xs : List A) → AreDistinct xs → AreAscending (sort_by_key xs)
  sort_by_key-AreAscending [] h = tt
  sort_by_key-AreAscending (x ∷ xs) h =
      AreAscending-place x (sort_by_key xs) (entry-sort_by_key (key x) xs h.1 ∙ h.0)
        (sort_by_key-AreAscending xs h.1)

  same_heads :
      (x y : A) (xs ys : List A)
      → AreAbove (key x) xs
      → AreAbove (key y) ys
      → ((id : ℕ) → entry id (x ∷ xs) ≡ entry id (y ∷ ys))
      → x ≡ y
  same_heads x y xs ys h k same = elim (Bool-cases (key x == key y)) [
    | inl equal ↦ ground (arith, same (key x))
    | inr other ↦
        let x_later : entry (key x) ys ≡ some x = ground (arith, same (key x)) in
        let y_later : entry (key y) xs ≡ some y = ground (arith, same (key y)) in
        let above = AreAbove-inv (key x) (key y) xs h y_later in
        let below = AreAbove-inv (key y) (key x) ys k x_later in absurd (omega arith)
  ]

  same_tails :
      (x : A) (xs ys : List A)
      → AreAbove (key x) xs
      → AreAbove (key x) ys
      → ((id : ℕ) → entry id (x ∷ xs) ≡ entry id (x ∷ ys))
      → (id : ℕ) → entry id xs ≡ entry id ys
  same_tails x xs ys h k same id = elim (Bool-cases (key x == id)) [
    | inl here ↦
        let own : key x ≡ id = ground arith in
        rw (← own) (AreAbove-entry (key x) xs h ∙ sym (AreAbove-entry (key x) ys k))
    | inr later ↦ ground (arith, same id)
  ]

  -- Ascending lists with the same entries are the same.
  pub equal_entries :
      (xs ys : List A)
      → AreAscending xs
      → AreAscending ys
      → ((id : ℕ) → entry id xs ≡ entry id ys)
      → xs ≡ ys
  equal_entries [] [] h k same = refl
  equal_entries [] (y ∷ ys) h k same = absurd (ground (arith, same (key y)))
  equal_entries (x ∷ xs) [] h k same = absurd (ground (arith, same (key x)))
  equal_entries (x ∷ xs) (y ∷ ys) h k same =
      let head = same_heads x y xs ys h.0 k.0 same in
      let above : AreAbove (key x) ys = rw head k.0 in
      let same' : (id : ℕ) → entry id (x ∷ xs) ≡ entry id (x ∷ ys) =
        λ id. same id ∙ ap (λ z. entry id (z ∷ ys)) (sym head) in
      let tail = equal_entries xs ys h.1 k.1 (same_tails x xs ys h.0 above same') in
      rw (head, tail) refl
