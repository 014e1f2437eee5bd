-- ===== src/Router/Address/Range.antt =====
-- router.cpp: the range that `CIDR2IP` makes of a network, and the matcher that `router_init`
-- registers for it.
use Prim.Native.Nat.{bit_and, bit_xor}
use native.Mathlib.Nat.{mod-lt, div-add-mod', div-lt_iff_lt-mul, le-div_iff_mul-le, mul-div_cancel}
use networking_labs.Prelude.{
  ℕ, suc, ◌+◌, ◌-◌, ◌*◌, ◌/◌, ◌%◌, ◌^◌, ◌≤◌, ◌<◌, ◌≡◌, ◌↔◌, refl, sym, ap, ◌∙◌, List, ◌∷◌, ◌++◌,
  some, Bool, true, false, ◌==◌, ==_iff, arith,
}
use networking_labs.Prelude.Bits.{bit_or-shift}
use networking_labs.Prelude.Masks.{bit_and-mask, bit_xor-high}
use networking_labs.Router.Address.{IpAddr, in_range, matches}
use networking_labs.Router.Address.Text.{cidr_to_ip}
use networking_labs.Router.Address.Cidr.{
  IsOctet, IsDigits, number, dotted, address, address-lt, dotted_no_slash, before-append,
  after_or-append, atoi-digits, dot_dec_to_ip-dotted, musk_lem, high_ones, mask_sum, pow_pos,
  pow_sum,
}

-- The ends of the block of 2 ^ k addresses that holds `ip`.
abbrev pub block_min : ℕ → IpAddr → IpAddr
block_min k ip = ip / 2 ^ k * 2 ^ k

abbrev pub block_max : ℕ → IpAddr → IpAddr
block_max k ip = block_min k ip + (2 ^ k - 1)

quotient-lt : (n k ip : ℕ) → n + k ≡ 32 → ip < 2 ^ 32 → ip / 2 ^ k < 2 ^ n
quotient-lt n k ip all small =
    (div-lt_iff_lt-mul (pow_pos k)).1 (omega (arith, pow_sum n k, ap (λ (x : ℕ). 2 ^ x) all, small))

-- The mask of n ones above k zeros keeps the start of the block.
mask-block :
    (n k ip : ℕ) → n + k ≡ 32 → ip < 2 ^ 32 → bit_and ip ((2 ^ n - 1) * 2 ^ k) ≡ block_min k ip
mask-block n k ip all small =
    ap (λ (x : ℕ). bit_and x ((2 ^ n - 1) * 2 ^ k)) (sym (div-add-mod' ip (2 ^ k)))
    ∙ bit_and-mask k n (ip / 2 ^ k) (ip % 2 ^ k) (quotient-lt n k ip all small)
        (mod-lt ip (pow_pos k))

block_iff :
    (k net ip : ℕ)
    → (in_range (block_min k net) (block_max k net) ip ≡ true) ↔ (ip / 2 ^ k ≡ net / 2 ^ k)
block_iff k net ip =
    let q = net / 2 ^ k in
    let from = le-div_iff_mul-le {k = 2 ^ k} {x = q} {y = ip} (pow_pos k) in
    let below = div-lt_iff_lt-mul {k = 2 ^ k} {x = ip} {y = suc q} (pow_pos k) in
    (
      λ h.
          let least : q * 2 ^ k ≤ ip = ground (arith, h) in
          let most : ip < suc q * 2 ^ k = ground (arith, h, pow_pos k) in
          omega (arith, from.1 least, below.1 most),
      λ e.
          let least : q * 2 ^ k ≤ ip = from.0 (omega (arith, e)) in
          let most : ip < suc q * 2 ^ k = below.0 (omega (arith, e)) in
          ground (arith, least, most, pow_pos k),
    )

same_block : (k ip net : ℕ) → block_min k ip ≡ block_min k net → ip / 2 ^ k ≡ net / 2 ^ k
same_block k ip net e =
    sym (mul-div_cancel (ip / 2 ^ k) (pow_pos k))
    ∙ ap (λ (x : ℕ). x / 2 ^ k) e
    ∙ mul-div_cancel (net / 2 ^ k) (pow_pos k)

-- The zeros of the mask.
zeros : (n k : ℕ) → n + k ≡ 32 → 2 ^ 32 - 1 - (2 ^ n - 1) * 2 ^ k ≡ 2 ^ k - 1
zeros n k all = omega (arith, mask_sum n k all, pow_pos k)

Bool_ext : (a b : Bool) → (a ≡ true) ↔ (b ≡ true) → a ≡ b
Bool_ext true b h = sym (h.0 refl)
Bool_ext false true h = h.1 refl
Bool_ext false false h = refl

cidr_to_ip-block :
    (a b c d len : List ℕ)
    → IsOctet a
    → IsOctet b
    → IsOctet c
    → IsOctet d
    → IsDigits len
    → 1 ≤ number len
    → number len ≤ 32
    → cidr_to_ip (dotted a b c d ++ b'/' ∷ len)
      ≡ some (
        block_min (32 - number len) (address a b c d),
        block_max (32 - number len) (address a b c d),
      )
unfolding cidr_to_ip
cidr_to_ip-block a b c d len ha hb hc hd hlen low high =
    let n = number len in
    let k = 32 - n in
    let net = address a b c d in
    let all : n + (32 - n) ≡ 32 = omega (arith, high) in
    let no_slash = dotted_no_slash a b c d ha hb hc hd in
    let length_part =
      after_or-append (dotted a b c d ++ b'/' ∷ len) b'/' (dotted a b c d) len no_slash in
    let net_part = before-append b'/' (dotted a b c d) len no_slash in
    rw
      (
        length_part,
        cidr_to_ip,
        atoi-digits len hlen,
        musk_lem n low high,
        net_part,
        dot_dec_to_ip-dotted a b c d ha hb hc hd,
        mask-block n k net all (address-lt a b c d ha hb hc hd),
        zeros n k all,
        bit_or-shift k (net / 2 ^ k) (2 ^ k - 1) (omega (arith, pow_pos k)),
      )
      refl

matches-in_range :
    (id k net ip : ℕ)
    → k < 32
    → net < 2 ^ 32
    → ip < 2 ^ 32
    → matches
        (record {
          id = id;
          subnet_ip = block_min k net;
          musk = 2 ^ 32 - 1 - bit_xor (block_max k net) (block_min k net);
        })
        ip
      ≡ in_range (block_min k net) (block_max k net) ip
unfolding matches
matches-in_range id k net ip hk hnet hip =
    let n = 32 - k in
    let all : 32 - k + k ≡ 32 = omega (arith, hk) in
    let low = bit_xor-high k (net / 2 ^ k) (2 ^ k - 1) (omega (arith, pow_pos k)) in
    rw (low, high_ones n k all, mask-block n k ip all hip)
      (Bool_ext (block_min k ip == block_min k net)
        (in_range (block_min k net) (block_max k net) ip)
        (
          λ h. (block_iff k net ip).1 (same_block k ip net ((==_iff _ _).0 h)),
          λ h. (==_iff _ _).1 (ap (λ (q : ℕ). q * 2 ^ k) ((block_iff k net ip).0 h)),
        ))

-- CIDR2IP of four decimal numbers below 256 with dots, a slash and a length from 1 to 32 gives a
-- range that holds an address just when it agrees with the written one in the leading bits of that
-- length, and the matcher that router_init registers for the range matches the same addresses.
pub cidr_to_ip-in_range :
    (a b c d len : List ℕ)
    → IsOctet a
    → IsOctet b
    → IsOctet c
    → IsOctet d
    → IsDigits len
    → 1 ≤ number len
    → number len ≤ 32
    → (lo : IpAddr) × (hi : IpAddr) × (cidr_to_ip (dotted a b c d ++ b'/' ∷ len) ≡ some (lo, hi))
      × ((ip : IpAddr)
          → (in_range lo hi ip ≡ true)
            ↔ (ip / 2 ^ (32 - number len) ≡ address a b c d / 2 ^ (32 - number len)))
      × ((id ip : ℕ)
          → ip < 2 ^ 32
          → matches (record { id = id; subnet_ip = lo; musk = 2 ^ 32 - 1 - bit_xor hi lo }) ip
            ≡ in_range lo hi ip)
cidr_to_ip-in_range a b c d len ha hb hc hd hlen low high =
    let k = 32 - number len in
    let net = address a b c d in
    (
      block_min k net,
      block_max k net,
      cidr_to_ip-block a b c d len ha hb hc hd hlen low high,
      λ ip. block_iff k net ip,
      λ id ip small.
          matches-in_range id k net ip (omega (arith, low)) (address-lt a b c d ha hb hc hd) small,
    )
