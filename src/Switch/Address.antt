-- ===== src/Switch/Address.antt =====
-- types.h: `macAddr2Long` gives different addresses different keys, and 48 bits are enough.
use networking_labs.Prelude.{
  ℕ, ◌+◌, ◌*◌, ◌^◌, ◌<◌, ◌≡◌, refl, ap, sym, ◌∙◌, [], ◌∷◌, arith, length, take, All,
}
use networking_labs.Prelude.Bits.{bit_or-shift}
use networking_labs.Switch.{MacAddr, eth_alen, mac_addr_to_long, mac_loop}
use native.Mathlib.Nat.{pow-suc}
use Prim.Native.Nat.{bit_or}

abbrev pub IsByte : ℕ → Type 0
IsByte b = b < 256

abbrev pub IsMac : MacAddr → Type 0
IsMac addr = (length addr ≡ eth_alen) × All IsByte addr

or_byte : (ans b : ℕ) → b < 256 → bit_or (ans * 256) b ≡ ans * 256 + b
or_byte ans b h = bit_or-shift 8 ans b h

mac_loop_injective :
    (xs ys : MacAddr) (m n : ℕ)
    → All IsByte xs
    → All IsByte ys
    → length xs ≡ length ys
    → mac_loop m xs ≡ mac_loop n ys
    → (m ≡ n) × (xs ≡ ys)
unfolding mac_loop
mac_loop_injective [] [] m n hx hy l e = (e, refl)
mac_loop_injective [] (y ∷ ys) m n hx hy l e = absurd (omega arith)
mac_loop_injective (x ∷ xs) [] m n hx hy l e = absurd (omega arith)
mac_loop_injective (x ∷ xs) (y ∷ ys) m n hx hy l e = ground (
  arith,
  or_byte m x,
  or_byte n y,
  mac_loop_injective xs ys (bit_or (m * 256) x) (bit_or (n * 256) y) hx.1 hy.1,
)

mac_loop_bound :
    (xs : MacAddr) (m k : ℕ) → All IsByte xs → m < k → mac_loop m xs < k * 256 ^ length xs
unfolding mac_loop
mac_loop_bound [] m k hx h = omega arith
mac_loop_bound (x ∷ xs) m k hx h = omega (
  arith,
  or_byte m x hx.0,
  mac_loop_bound xs (bit_or (m * 256) x) (k * 256) hx.1 (omega (arith, or_byte m x hx.0)),
  ap (λ (t : ℕ). k * t) (pow-suc 256 (length xs)),
)

take_all : (addr : MacAddr) → length addr ≡ eth_alen → take eth_alen addr ≡ addr
take_all (a ∷ b ∷ c ∷ d ∷ e ∷ f ∷ []) h = refl
take_all _ h = absurd (omega arith)

-- Two addresses of six bytes with the same number are the same.
pub mac_addr_to_long_injective :
    (xs ys : MacAddr) → IsMac xs → IsMac ys → mac_addr_to_long xs ≡ mac_addr_to_long ys → xs ≡ ys
unfolding mac_addr_to_long
mac_addr_to_long_injective xs ys hx hy e =
    (mac_loop_injective xs ys 0 0 hx.1 hy.1 (hx.0 ∙ sym hy.0)
      (rw (take_all xs hx.0, take_all ys hy.0) at e)).1

-- The number of an address of six bytes is below 2^48.
pub mac_addr_to_long-lt : (addr : MacAddr) → IsMac addr → mac_addr_to_long addr < 2 ^ 48
unfolding mac_addr_to_long
mac_addr_to_long-lt addr h =
    rw (take_all addr h.0)
      (omega (arith, mac_loop_bound addr 0 1 h.1 (omega arith), ap (λ (n : ℕ). 256 ^ n) h.0))
