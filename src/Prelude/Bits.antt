-- ===== src/Prelude/Bits.antt =====
-- Bit operations at variables: each is computed digit by digit from the lowest digit up.
use Prim.Native.Nat.{
  ℕ, zero, suc, differ, bit_xor, bit_xor-bitwise, ◌+◌, ◌*◌, ◌/◌, ◌%◌, ◌^◌, ◌≤◌, ◌<◌, max, bit_or,
  digits, bit_or-bitwise,
}
use mathlib.Core.Path.{◌≡◌, refl, ap}
use native.Mathlib.Nat.{pow-suc}
use native.Mathlib.Omega.{arith}

-- The digits beyond those of `a` make no difference.
pub digits-le :
    (end : ℕ → ℕ) (op : ℕ → ℕ → ℕ) (a b n m : ℕ)
    → a ≤ n
    → a ≤ m
    → digits end op n a b ≡ digits end op m a b
digits-le end op zero b zero zero p q = refl
digits-le end op zero b zero (suc m) p q = refl
digits-le end op zero b (suc n) zero p q = refl
digits-le end op zero b (suc n) (suc m) p q = refl
digits-le end op (suc a) b zero m p q = absurd (omega arith)
digits-le end op (suc a) b (suc n) zero p q = absurd (omega arith)
digits-le end op (suc a) b (suc n) (suc m) p q =
    rw (digits-le end op (suc a / 2) (b / 2) n m (omega arith) (omega arith)) refl

pub zero-bit_or : (b : ℕ) → bit_or 0 b ≡ b
zero-bit_or b = bit_or-bitwise 0 b

pub bit_or_step : (a b : ℕ) → bit_or a b ≡ bit_or (a / 2) (b / 2) * 2 + max (a % 2) (b % 2)
bit_or_step zero b = omega (arith, zero-bit_or b, zero-bit_or (b / 2))
bit_or_step (suc a) b = omega (
  arith,
  bit_or-bitwise (suc a) b,
  bit_or-bitwise (suc a / 2) (b / 2),
  digits-le (λ b. b) max (suc a / 2) (b / 2) a (suc a / 2) (omega arith) (omega arith),
)

bit_or-zero : (n a : ℕ) → a ≤ n → bit_or a 0 ≡ a
bit_or-zero zero a h = omega (arith, zero-bit_or 0, bit_or_zero_at a (omega arith))
  where
    bit_or_zero_at : (a : ℕ) → a ≡ 0 → bit_or a 0 ≡ a
    bit_or_zero_at a e = rw (e, zero-bit_or)
bit_or-zero (suc n) zero h = zero-bit_or 0
bit_or-zero (suc n) (suc a) h =
    omega (arith, bit_or_step (suc a) 0, bit_or-zero n (suc a / 2) (omega arith))

pub shift_half : (k a : ℕ) → a * 2 ^ suc k ≡ a * 2 ^ k * 2
shift_half k a = omega (arith, ap (λ (t : ℕ). a * t) (pow-suc 2 k))

-- `x << k | b` adds, where `b` fits in the k places that the shift has freed.
pub bit_or-shift : (k a b : ℕ) → b < 2 ^ k → bit_or (a * 2 ^ k) b ≡ a * 2 ^ k + b
bit_or-shift zero a b h =
    let e : b ≡ 0 = omega arith in rw e (omega (arith, bit_or-zero (a * 1) (a * 1) (omega arith)))
bit_or-shift (suc k) a b h =
    let half : a * 2 ^ suc k / 2 ≡ a * 2 ^ k = omega (arith, shift_half k a) in
    let low : b / 2 < 2 ^ k = omega (arith, pow-suc 2 k) in
    rw (bit_or_step, half, bit_or-shift k a (b / 2) low) (omega (arith, shift_half k a))

pub zero-bit_xor : (b : ℕ) → bit_xor 0 b ≡ b
zero-bit_xor b = bit_xor-bitwise 0 b

differ_bits : (x y : ℕ) → x < 2 → y < 2 → differ x y ≤ 1
differ_bits zero y hx hy = omega arith
differ_bits (suc zero) zero hx hy = omega arith
differ_bits (suc zero) (suc y) hx hy = omega arith
differ_bits (suc (suc x)) y hx hy = absurd (omega arith)

differ-le : (a b : ℕ) → differ (a % 2) (b % 2) ≤ 1
differ-le a b = differ_bits (a % 2) (b % 2) (omega arith) (omega arith)

pub bit_xor_step : (a b : ℕ) → bit_xor a b ≡ bit_xor (a / 2) (b / 2) * 2 + differ (a % 2) (b % 2)
bit_xor_step zero b = omega (arith, zero-bit_xor b, zero-bit_xor (b / 2))
bit_xor_step (suc a) b = rw (
  bit_xor-bitwise (suc a) b,
  bit_xor-bitwise (suc a / 2) (b / 2),
  digits-le (λ b. b) differ (suc a / 2) (b / 2) a (suc a / 2) (omega arith) (omega arith),
)

-- The result of `^` needs no more bits than the operands.
pub bit_xor-lt : (k a b : ℕ) → a < 2 ^ k → b < 2 ^ k → bit_xor a b < 2 ^ k
bit_xor-lt zero a b ha hb = let e : a ≡ 0 = omega arith in rw e (rw zero-bit_xor hb)
bit_xor-lt (suc k) a b ha hb = omega (
  arith,
  pow-suc 2 k,
  bit_xor_step a b,
  differ-le a b,
  bit_xor-lt k (a / 2) (b / 2) (omega (arith, pow-suc 2 k)) (omega (arith, pow-suc 2 k)),
)
