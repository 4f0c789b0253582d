-- ===== src/Tplink/Cipher/Xor.antt =====
-- Exclusive or of numbers of any width, from its law for the lowest digit.
use Prim.Native.Nat.{digits, bit_xor, bit_xor-bitwise, differ}
use native.Mathlib.Nat.{pow-suc}
use devicectrl_server.Prelude.{
  ℕ, zero, suc, ◌+◌, ◌-◌, ◌*◌, ◌/◌, ◌%◌, ◌^◌, ◌≤◌, ◌<◌, ◌≡◌, refl, arith,
}

abbrev xor_digits : ℕ → ℕ → ℕ → ℕ
xor_digits n a b = digits (λ y. y) differ n a b

xor_digits-zero : (fuel y : ℕ) → xor_digits fuel 0 y ≡ y
xor_digits-zero zero y = refl
xor_digits-zero (suc fuel) y = refl

-- fuel that bounds the first number is as good as any other
xor_digits_same : (x y k l : ℕ) → x ≤ k → x ≤ l → xor_digits k x y ≡ xor_digits l x y
xor_digits_same zero y k l below_k below_l = rw (xor_digits-zero k y, xor_digits-zero l y)
xor_digits_same (suc x) y (suc k) (suc l) below_k below_l =
    let half : suc x / 2 ≤ k = omega arith in
    let half' : suc x / 2 ≤ l = omega arith in
    omega (arith, xor_digits_same (suc x / 2) (y / 2) k l half half')
xor_digits_same (suc x) y zero l below_k below_l = absurd (omega arith)
xor_digits_same (suc x) y (suc k) zero below_k below_l = absurd (omega arith)

differ_lem : (a b : ℕ) → differ a b ≡ a - b + (b - a)
differ_lem zero b = omega arith
differ_lem (suc a) zero = omega arith
differ_lem (suc a) (suc b) = omega (arith, differ_lem a b)

bit_xor-suc :
    (a b : ℕ) → bit_xor (suc a) b ≡ bit_xor (suc a / 2) (b / 2) * 2 + differ (suc a % 2) (b % 2)
bit_xor-suc a b =
    let half : suc a / 2 ≤ a = omega arith in
    let more = xor_digits_same (suc a / 2) (b / 2) a (suc a / 2) half (omega arith) in
    omega (arith, more, bit_xor-bitwise (suc a / 2) (b / 2), bit_xor-bitwise (suc a) b)

-- the lowest digit, and the rest
pub bit_xor_step : (a b : ℕ) → bit_xor a b ≡ bit_xor (a / 2) (b / 2) * 2 + (a + b) % 2
bit_xor_step (suc a) b = omega (arith, bit_xor-suc a b, differ_lem (suc a % 2) (b % 2))
bit_xor_step zero b =
    let whole = bit_xor-bitwise 0 b in
    let half = bit_xor-bitwise 0 (b / 2) in omega (arith, whole, half)

zeros : (a : ℕ) → a ≤ 0 → a ≡ 0
zeros a h = omega arith

bit_xor_comm_fuel : (n a b : ℕ) → a ≤ n → b ≤ n → bit_xor a b ≡ bit_xor b a
bit_xor_comm_fuel zero a b p q = rw (zeros a p, zeros b q)
bit_xor_comm_fuel (suc n) a b p q = omega (
  arith,
  bit_xor_step a b,
  bit_xor_step b a,
  bit_xor_comm_fuel n (a / 2) (b / 2) (omega arith) (omega arith),
)

pub bit_xor_comm : (a b : ℕ) → bit_xor a b ≡ bit_xor b a
bit_xor_comm a b = bit_xor_comm_fuel (a + b) a b (omega arith) (omega arith)

halves : (a b : ℕ) → bit_xor a b / 2 ≡ bit_xor (a / 2) (b / 2)
halves a b = omega (arith, bit_xor_step a b)

cancel_fuel : (n a b : ℕ) → a ≤ n → b ≤ n → bit_xor (bit_xor a b) b ≡ a
cancel_fuel zero a b p q = rw (zeros a p, zeros b q)
cancel_fuel (suc n) a b p q = rw bit_xor_step (
    rw halves
      (omega (arith, bit_xor_step a b, cancel_fuel n (a / 2) (b / 2) (omega arith) (omega arith))))

-- Joining with the same number twice changes nothing.
pub bit_xor_cancel : (a b : ℕ) → bit_xor (bit_xor a b) b ≡ a
bit_xor_cancel a b = cancel_fuel (a + b) a b (omega arith) (omega arith)

pub bit_xor-lt : (k a b : ℕ) → a < 2 ^ k → b < 2 ^ k → bit_xor a b < 2 ^ k
bit_xor-lt zero a b p q = rw (zeros a (omega arith), zeros b (omega arith)) (omega arith)
bit_xor-lt (suc k) a b p q =
    omega (arith, pow-suc 2 k, bit_xor_step a b, bit_xor-lt k (a / 2) (b / 2))
