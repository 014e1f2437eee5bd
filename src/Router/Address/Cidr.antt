-- ===== src/Router/Address/Cidr.antt =====
-- router.cpp: what `dotDec2IP` and `CIDR2IP` make of addresses as they are written.
use mathlib.Core.List.{append_assoc}
use networking_labs.Prelude.{
  ℕ, zero, suc, ◌+◌, ◌-◌, ◌*◌, ◌%◌, ◌^◌, ◌≤◌, ◌<◌, ◌≡◌, ◌≢◌, refl, ap, ◌∙◌, List, [], ◌∷◌, ◌++◌,
  some, true, false, ◌&&◌, leb, ◌==◌, All, All-append, All-map, arith,
}
use networking_labs.Prelude.Bits.{bit_or-shift, shift_half}
use native.Mathlib.Nat.{pow-suc}
use networking_labs.Prelude.Bytes.{is_space, skip_spaces}
use networking_labs.Prelude.Int.{pos, to_u32}
use networking_labs.Router.Address.{IpAddr}
use networking_labs.Router.Address.Text.{
  is_digit, digits_value, atoi, before, after_or, dot_loop, dot_dec_to_ip, ip_musk,
}

-- Decimal digits.
abbrev pub IsDigits : List ℕ → Type 0
IsDigits = All (λ b. is_digit b ≡ true)

-- The number that a text of digits writes.
abbrev pub number : List ℕ → ℕ
number t = digits_value 0 t

-- A part of an address: digits of a number below 256.
abbrev pub IsOctet : List ℕ → Type 0
IsOctet t = IsDigits t × (number t < 256)

digit_lem : (b : ℕ) → is_digit b ≡ true → (b'0' ≤ b) × (b ≤ b'9')
unfolding is_digit
digit_lem b h = ground arith

pub atoi-digits : (t : List ℕ) → IsDigits t → atoi t ≡ pos (number t)
unfolding atoi skip_spaces is_space digits_value
atoi-digits [] h = refl
atoi-digits (b ∷ bs) h =
    let (low, high) = digit_lem b h.0 in
    let solid : is_space b ≡ false = ground arith in
    let unsigned : (b == b'-') ≡ false = ground arith in
    let plain : (b == b'+') ≡ false = ground arith in
    rw (solid, atoi, skip_spaces, unsigned, plain) refl

pub before-append : (c : ℕ) (xs ys : List ℕ) → All (λ b. b ≢ c) xs → before c (xs ++ c ∷ ys) ≡ xs
unfolding before
before-append c [] ys h = ground arith
before-append c (x ∷ xs) ys h = ground (arith, before-append c xs ys h.1, h.0)

pub after_or-append :
    (s : List ℕ) (c : ℕ) (xs ys : List ℕ) → All (λ b. b ≢ c) xs → after_or s c (xs ++ c ∷ ys) ≡ ys
unfolding after_or
after_or-append s c [] ys h = ground arith
after_or-append s c (x ∷ xs) ys h = ground (arith, after_or-append s c xs ys h.1, h.0)

digits_no : (c : ℕ) (t : List ℕ) → is_digit c ≡ false → IsDigits t → All (λ b. b ≢ c) t
digits_no c t other h =
    All-map (λ b. is_digit b ≡ true) (λ b. b ≢ c) t
      (λ b d e. ground (arith, d, other, ap is_digit e)) h

-- A part after the numbers before it.
dot_loop-octet :
    (n : ℕ) (ans : IpAddr) (t rest : List ℕ)
    → ans < 2 ^ 24
    → IsOctet t
    → dot_loop (suc n) ans (t ++ b'.' ∷ rest) ≡ dot_loop n (ans * 256 + number t) rest
unfolding dot_loop to_u32 is_digit
dot_loop-octet n ans t rest small h =
    let no_dot = digits_no b'.' t refl h.0 in
    let piece = before-append b'.' t rest no_dot in
    let left = after_or-append (t ++ b'.' ∷ rest) b'.' t rest no_dot in
    let fits : number t % 2 ^ 32 ≡ number t = omega (arith, h.1) in
    let room : ans * 2 ^ 8 % 2 ^ 32 ≡ ans * 2 ^ 8 = omega (arith, small) in
    rw (piece, left, atoi-digits t h.0, fits, room, bit_or-shift 8 ans (number t) h.1) refl

-- An address as it is written.
abbrev pub dotted : List ℕ → List ℕ → List ℕ → List ℕ → List ℕ
dotted a b c d = a ++ b'.' ∷ (b ++ b'.' ∷ (c ++ b'.' ∷ d))

dotted-append : (a b c d end : List ℕ) → dotted a b c d ++ end ≡ dotted a b c (d ++ end)
dotted-append a b c d end =
    append_assoc a _ end
    ∙ ap (λ l. a ++ b'.' ∷ l)
        (append_assoc b _ end ∙ ap (λ l. b ++ b'.' ∷ l) (append_assoc c _ end))

abbrev pub address : List ℕ → List ℕ → List ℕ → List ℕ → IpAddr
address a b c d = ((number a * 256 + number b) * 256 + number c) * 256 + number d

abbrev dotted_rest : List ℕ → List ℕ → List ℕ → List ℕ
dotted_rest b c d = b ++ b'.' ∷ (c ++ b'.' ∷ (d ++ b'.' ∷ []))

first : (n : ℕ) → 0 * 256 + n ≡ n
first n = omega arith

-- Dotted.
pub dot_dec_to_ip-dotted :
    (a b c d : List ℕ)
    → IsOctet a
    → IsOctet b
    → IsOctet c
    → IsOctet d
    → dot_dec_to_ip (dotted a b c d) ≡ address a b c d
unfolding dot_dec_to_ip dot_loop
dot_dec_to_ip-dotted a b c d ha hb hc hd =
    let n1 = number a in
    let n2 = n1 * 256 + number b in
    let n3 = n2 * 256 + number c in
    ap (dot_loop 4 0) (dotted-append a b c d (b'.' ∷ []))
    ∙ dot_loop-octet 3 0 a _ (omega arith) ha
    ∙ ap (λ (n : ℕ). dot_loop 3 n (dotted_rest b c d)) (first (number a))
    ∙ dot_loop-octet 2 n1 b _ (omega (arith, ha.1)) hb
    ∙ dot_loop-octet 1 n2 c _ (omega (arith, ha.1, hb.1)) hc
    ∙ dot_loop-octet 0 n3 d [] (omega (arith, ha.1, hb.1, hc.1)) hd

pub address-lt :
    (a b c d : List ℕ) → IsOctet a → IsOctet b → IsOctet c → IsOctet d → address a b c d < 2 ^ 32
address-lt a b c d ha hb hc hd = omega (arith, ha.1, hb.1, hc.1, hd.1)

pub dotted_no_slash :
    (a b c d : List ℕ)
    → IsOctet a
    → IsOctet b
    → IsOctet c
    → IsOctet d
    → All (λ b. b ≢ b'/') (dotted a b c d)
unfolding is_digit
dotted_no_slash a b c d ha hb hc hd =
    let no = λ (t : List ℕ) (h : IsOctet t). digits_no b'/' t refl h.0 in
    let dot : b'.' ≢ b'/' = ground arith in
    All-append _ a _ (no a ha)
      (dot, All-append _ b _ (no b hb) (dot, All-append _ c _ (no c hc) (dot, no d hd)))

pub pow_sum : (n k : ℕ) → 2 ^ n * 2 ^ k ≡ 2 ^ (n + k)
pow_sum n zero = let same : n + 0 ≡ n = omega arith in omega (arith, ap (λ (x : ℕ). 2 ^ x) same)
pow_sum n (suc k) =
    let next : n + suc k ≡ suc (n + k) = omega arith in
    omega (arith, shift_half k (2 ^ n), pow_sum n k, pow-suc 2 (n + k), ap (λ (x : ℕ). 2 ^ x) next)

pub pow_pos : (n : ℕ) → 1 ≤ 2 ^ n
pow_pos zero = omega arith
pow_pos (suc n) = omega (arith, pow_pos n, pow-suc 2 n)

-- The mask of `n` ones above `k` zeros.
pub mask_sum : (n k : ℕ) → n + k ≡ 32 → (2 ^ n - 1) * 2 ^ k + 2 ^ k ≡ 2 ^ 32
mask_sum n k all =
    let one_more : 2 ^ n ≡ 2 ^ n - 1 + 1 = omega (arith, pow_pos n) in
    omega (arith, pow_sum n k, ap (λ (x : ℕ). 2 ^ x) all, ap (λ (x : ℕ). x * 2 ^ k) one_more)

pub high_ones : (n k : ℕ) → n + k ≡ 32 → 2 ^ 32 - 1 - (2 ^ k - 1) ≡ (2 ^ n - 1) * 2 ^ k
high_ones n k all = omega (arith, pow_pos k, mask_sum n k all)

pub musk_lem : (n : ℕ) → 1 ≤ n → n ≤ 32 → ip_musk (pos n) ≡ some ((2 ^ n - 1) * 2 ^ (32 - n))
unfolding ip_musk
musk_lem n low high =
    let here : (leb 1 n && leb n 32) ≡ true = ground arith in
    rw here (ap some (high_ones n (32 - n) (omega arith)))
