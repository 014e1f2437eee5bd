-- ===== src/Prelude/Masks.antt =====
-- Masks of high bits: `(2 ^ h - 1) * 2 ^ k` has h ones above k zeros.
use Prim.Native.Nat.{
  ℕ, zero, suc, differ, bit_and, bit_and-bitwise, bit_xor, min, ◌+◌, ◌-◌, ◌*◌, ◌/◌, ◌%◌, ◌^◌, ◌≤◌,
  ◌<◌,
}
use mathlib.Core.Path.{◌≡◌, refl, sym, ap, ◌∙◌}
use native.Mathlib.Nat.{pow-suc}
use native.Mathlib.Omega.{arith}
use networking_labs.Prelude.Bits.{digits-le, bit_xor_step, shift_half}

-- `&` keeps the lowest digit that both have, and goes on above it.
bit_and_digit :
    (n a b : ℕ) → a ≡ n → bit_and a b ≡ bit_and (a / 2) (b / 2) * 2 + min (a % 2) (b % 2)
bit_and_digit zero a b e = rw e (omega (arith, none b, none (b / 2)))
  where
    none : (x : ℕ) → bit_and 0 x ≡ 0
    none x = bit_and-bitwise 0 x
bit_and_digit (suc n) a b e = rw e (
    bit_and-bitwise (suc n) b
    ∙ ap (λ (x : ℕ). x * 2 + min (suc n % 2) (b % 2))
        (digits-le (λ x. zero) min (suc n / 2) (b / 2) n (suc n / 2) (omega arith) (omega arith)
          ∙ sym (bit_and-bitwise (suc n / 2) (b / 2))))

bit_and_step : (a b : ℕ) → bit_and a b ≡ bit_and (a / 2) (b / 2) * 2 + min (a % 2) (b % 2)
bit_and_step a b = bit_and_digit a a b refl

-- A mask of h ones leaves a number of h bits as it is.
bit_and_ones : (h a : ℕ) → a < 2 ^ h → bit_and a (2 ^ h - 1) ≡ a
bit_and_ones zero a lt = let e : a ≡ 0 = omega arith in rw e refl
bit_and_ones (suc h) a lt =
    let half : (2 ^ suc h - 1) / 2 ≡ 2 ^ h - 1 = omega (arith, pow-suc 2 h) in
    let rest = bit_and_ones h (a / 2) (omega (arith, pow-suc 2 h)) in
    rw (bit_and_step, half, rest) (omega (arith, pow-suc 2 h))

-- Of a number of h bits above k bits, the mask keeps the h bits.
pub bit_and-mask :
    (k h q b : ℕ)
    → q < 2 ^ h
    → b < 2 ^ k
    → bit_and (q * 2 ^ k + b) ((2 ^ h - 1) * 2 ^ k) ≡ q * 2 ^ k
bit_and-mask zero h q b hq hb =
    let none : b ≡ 0 = omega arith in
    let one : q * 1 + 0 ≡ q = omega arith in
    let all : (2 ^ h - 1) * 1 ≡ 2 ^ h - 1 = omega arith in
    rw (none, one, all, bit_and_ones h q hq) (omega arith)
bit_and-mask (suc k) h q b hq hb =
    let twice = λ (x : ℕ). shift_half k x in
    let num : (q * 2 ^ suc k + b) / 2 ≡ q * 2 ^ k + b / 2 = omega (arith, twice q) in
    let mask : (2 ^ h - 1) * 2 ^ suc k / 2 ≡ (2 ^ h - 1) * 2 ^ k =
      omega (arith, twice (2 ^ h - 1)) in
    let rest = bit_and-mask k h q (b / 2) hq (omega (arith, pow-suc 2 k)) in
    rw (bit_and_step, num, mask, rest) (omega (arith, twice q, twice (2 ^ h - 1)))

differ_same : (x : ℕ) → x < 2 → differ x x ≡ 0
differ_same zero h = refl
differ_same (suc zero) h = refl
differ_same (suc (suc x)) h = absurd (omega arith)

differ-zero : (x : ℕ) → x < 2 → differ x 0 ≡ x
differ-zero zero h = refl
differ-zero (suc zero) h = refl
differ-zero (suc (suc x)) h = absurd (omega arith)

bit_xor_self : (n a : ℕ) → a ≤ n → bit_xor a a ≡ 0
bit_xor_self zero a le = let e : a ≡ 0 = omega arith in rw e refl
bit_xor_self (suc n) zero le = refl
bit_xor_self (suc n) (suc a) le = omega (
  arith,
  bit_xor_step (suc a) (suc a),
  bit_xor_self n (suc a / 2) (omega arith),
  differ_same (suc a % 2) (omega arith),
)

-- The bits that `^` with the high bits takes away.
pub bit_xor-high : (k q b : ℕ) → b < 2 ^ k → bit_xor (q * 2 ^ k + b) (q * 2 ^ k) ≡ b
bit_xor-high zero q b hb =
    let none : b ≡ 0 = omega arith in
    let one : q * 1 + 0 ≡ q * 1 = omega arith in
    rw (none, one) (bit_xor_self (q * 1) (q * 1) (omega arith))
bit_xor-high (suc k) q b hb =
    let num : (q * 2 ^ suc k + b) / 2 ≡ q * 2 ^ k + b / 2 = omega (arith, shift_half k q) in
    let high : q * 2 ^ suc k / 2 ≡ q * 2 ^ k = omega (arith, shift_half k q) in
    let rest = bit_xor-high k q (b / 2) (omega (arith, pow-suc 2 k)) in
    let last : (q * 2 ^ suc k + b) % 2 ≡ b % 2 = omega (arith, shift_half k q) in
    let zero_last : q * 2 ^ suc k % 2 ≡ 0 = omega (arith, shift_half k q) in
    rw (bit_xor_step, num, high, rest, last, zero_last, differ-zero (b % 2) (omega arith))
      (omega arith)
