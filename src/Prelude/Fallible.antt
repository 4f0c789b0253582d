-- ===== src/Prelude/Fallible.antt =====
-- `anyhow::Result`: an error is its message under the contexts that were added to it.
use Prim.Native.Nat.{ℕ}
use Prim.Native.String.{String}
use mathlib.Core.Path.{◌≡◌, refl}
use mathlib.Core.Logic.{◌⊎◌, inl, inr}
use mathlib.Core.Option.{Option, none, some}

-- `library` is an error that a dependency returned, by its text.
pub data Error : Type 0 where
  message : String → Error
  library : String → Error
  nonce_mismatch : ℕ → ℕ → Error
  context : String → Error → Error
  -- `anyhow!("{m}: {e}")`
  described : String → Error → Error

pub data Result {ℓ} (A : Type ℓ) : Type ℓ where
  err : Error → Result A
  ok : A → Result A

module _ {ℓ κ} {A : Type ℓ} {B : Type κ} where
  -- `?` on a result, in a function that changes no state
  infixl 5 ◌>>=◌
  unfoldable pub ◌>>=◌ : Result A → (A → Result B) → Result B
  err x >>= next = err x
  ok a >>= next = next a

  pub >>=_inv :
      (first : Result A) (next : A → Result B) {b : B}
      → (first >>= next) ≡ ok b
      → (a : A) × (first ≡ ok a) × (next a ≡ ok b)
  unfolding ◌>>=◌
  >>=_inv (err x) next h = cc
  >>=_inv (ok a) next h = (a, refl, h)

module _ {ℓ} {A : Type ℓ} where
  -- `Option::context`
  abbrev pub or_message : Option A → String → Result A
  or_message none m = err (message m)
  or_message (some a) m = ok a

  -- `Result::context`
  abbrev pub with_context : String → Result A → Result A
  with_context m (ok a) = ok a
  with_context m (err e) = err (context m e)

  pub with_context_inv : (m : String) (r : Result A) {a : A} → with_context m r ≡ ok a → r ≡ ok a
  with_context_inv m (ok a) h = h
  with_context_inv m (err x) h = cc

pub Result-cases {ℓ} :
    {A : Type ℓ} (r : Result A) → ((a : A) × (r ≡ ok a)) ⊎ ((x : Error) × (r ≡ err x))
Result-cases (ok a) = inl (a, refl)
Result-cases (err x) = inr (x, refl)
