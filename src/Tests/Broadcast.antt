-- ===== src/Tests/Broadcast.antt =====
-- A broadcast channel that keeps the last 16 values.
use devicectrl_server.Prelude.{
  ℕ, zero, suc, ◌+◌, ◌-◌, ◌<◌, ◌≡◌, ◌⊎◌, refl, Option, none, some, List, [], ◌∷◌, leb, ltb,
  if◌then◌else◌, length, arith, inl, inr, Bool-cases,
}
use devicectrl_server.App.{Hook}
use devicectrl_server.Automations.Dependencies.Channel.{
  Broadcast, Received, waiting, lagged, got, get_elem?,
}
use devicectrl_server.Tests.Instance.{plain}

abbrev hook_at : ℕ → List Hook → Option Hook
hook_at n hooks = if ltb n (length hooks) then get_elem? hooks (length hooks - (n + 1)) else none

get_elem-length {ℓ} :
    {A : Type ℓ} (xs : List A) (i : ℕ) → i < length xs → (x : A) × (get_elem? xs i ≡ some x)
get_elem-length [] i h = ground arith
get_elem-length (x ∷ xs) zero h = (x, refl)
get_elem-length (x ∷ xs) (suc i) h = get_elem-length xs i (omega arith)

abbrev or_waiting : Option Hook → Received
or_waiting none = waiting
or_waiting (some h) = got h

abbrev recv : ℕ → List Hook → Received
recv n hooks = if leb (length hooks) (n + 16) then or_waiting (hook_at n hooks) else lagged

pub recv-read : (n : ℕ) (hooks : List Hook) → length hooks ≡ n → recv n hooks ≡ waiting
recv-read n hooks h = ground arith

pub recv-unread :
    (n : ℕ) (hooks : List Hook)
    → n < length hooks
    → (h : Hook) × (get_elem? hooks (length hooks - (n + 1)) ≡ some h)
      × ((recv n hooks ≡ lagged) ⊎ (recv n hooks ≡ got h))
recv-unread n hooks h =
    let (hook, found) = get_elem-length hooks (length hooks - (n + 1)) (omega arith) in
    (
      hook,
      found,
      elim (Bool-cases (leb (length hooks) (n + 16))) [
        | inl near ↦ inr (ground arith)
        | inr far ↦ inl (ground arith)
      ],
    )

instance abbrev pub keeps_16 : Broadcast
keeps_16 = record { recv = recv; recv-read = recv-read; recv-unread = recv-unread }
