-- ===== src/Prelude/Tables.antt =====
-- `std::collections::HashMap` over identifiers: an association list in the map's order of
-- iteration, which the program never relies on.
use Prim.Native.Nat.{ℕ}
use mathlib.Core.Path.{◌≡◌, refl}
use mathlib.Core.Option.{Option, none, some}
use mathlib.Core.Option
use mathlib.Core.List.{List, [], ◌∷◌}
use native.Mathlib.Omega.{arith}
use devicectrl_server.Prelude.Tests.{◌==◌, if◌then◌else◌}

abbrev pub HashMap {ℓ} : Type ℓ → Type ℓ
HashMap V = List (ℕ × V)

module _ {ℓ} {V : Type ℓ} where
  abbrev pub get : ℕ → HashMap V → Option V
  get k [] = none
  get k ((j, v) ∷ m) = if j == k then some v else get k m

  abbrev pub insert : ℕ → V → HashMap V → HashMap V
  insert k v [] = (k, v) ∷ []
  insert k v ((j, w) ∷ m) = if j == k then (j, v) ∷ m else (j, w) ∷ insert k v m

  -- a write through `get_mut`
  abbrev pub modify : ℕ → (V → V) → HashMap V → HashMap V
  modify k f [] = []
  modify k f ((j, w) ∷ m) = if j == k then (j, f w) ∷ m else (j, w) ∷ modify k f m

  abbrev pub keys : HashMap V → List ℕ
  keys [] = []
  keys ((j, w) ∷ m) = j ∷ keys m

  abbrev pub values : HashMap V → List V
  values [] = []
  values ((j, w) ∷ m) = w ∷ values m

  pub get-insert :
      (k i : ℕ) (v : V) (m : HashMap V)
      → get i (insert k v m) ≡ (if k == i then some v else get i m)
  get-insert k i v [] = refl
  get-insert k i v ((j, w) ∷ m) = ground (arith, get-insert k i v m)

  pub get-modify :
      (k i : ℕ) (f : V → V) (m : HashMap V)
      → get i (modify k f m) ≡ (if k == i then Option.map f (get i m) else get i m)
  get-modify k i f [] = ground arith
  get-modify k i f ((j, w) ∷ m) = ground (arith, get-modify k i f m)

  pub keys-modify : (k : ℕ) (f : V → V) (m : HashMap V) → keys (modify k f m) ≡ keys m
  keys-modify k f [] = refl
  keys-modify k f ((j, w) ∷ m) = ground (arith, keys-modify k f m)
