-- ===== src/Router/Address/Text.antt =====
-- router.cpp: `dotDec2IP` and `CIDR2IP`, on the bytes of a C string.
use Prim.Native.Nat.{bit_and, bit_or}
use networking_labs.Prelude.{
  ℕ, zero, suc, ◌+◌, ◌-◌, ◌*◌, ◌%◌, ◌^◌, List, [], ◌∷◌, ◌++◌, Option, none, some, Bool, ◌&&◌, leb,
  ◌==◌, if◌then◌else◌,
}
use networking_labs.Prelude.Bytes.{skip_spaces}
use networking_labs.Prelude.Int.{ℤ, pos, negsuc, sub_ℕ, to_u32}
use networking_labs.Router.Address.{IpAddr}

-- `isdigit`
unfoldable pub is_digit : ℕ → Bool
is_digit b = leb b'0' b && leb b b'9'

-- The number that the digits at the start of a text give, after `n`.
unfoldable pub digits_value : ℕ → List ℕ → ℕ
digits_value n [] = n
digits_value n (b ∷ bs) =
    let more = digits_value (n * 10 + (b - b'0')) bs in if is_digit b then more else n

-- `atoi`, for a number that an `int` holds; beyond, the library says nothing.
unfoldable pub atoi : List ℕ → ℤ
atoi s = elim (skip_spaces s) [
  | [] ↦ pos 0
  | b ∷ bs ↦
      if b == b'-'
      then sub_ℕ 0 (digits_value 0 bs)
      else if b == b'+'
      then pos (digits_value 0 bs)
      else pos (digits_value 0 (b ∷ bs))
]

-- `s.substr(0, s.find(c))`: all of `s` where there is no `c`.
unfoldable pub before : ℕ → List ℕ → List ℕ
before c [] = []
before c (b ∷ bs) = if b == c then [] else b ∷ before c bs

-- `s.erase(0, s.find(c) + 1)`: `find` gives -1 where there is no `c`, and then all of `s` stays.
unfoldable pub after_or : List ℕ → ℕ → List ℕ → List ℕ
after_or s c [] = s
after_or s c (b ∷ bs) = if b == c then bs else after_or s c bs

abbrev pub after : ℕ → List ℕ → List ℕ
after c s = after_or s c s

-- The loop over the four parts.
unfoldable pub dot_loop : ℕ → IpAddr → List ℕ → IpAddr
dot_loop zero ans ss = ans
dot_loop (suc n) ans ss =
    dot_loop n (bit_or (ans * 2 ^ 8 % 2 ^ 32) (to_u32 (atoi (before b'.' ss)))) (after b'.' ss)

-- `dotDec2IP`
unfoldable pub dot_dec_to_ip : List ℕ → IpAddr
dot_dec_to_ip s = dot_loop 4 0 (s ++ b'.' ∷ [])

-- `~( (1u<<(32-ipMuskLen)) - 1 )`: a shift by 32 or more, or by less than 0, is undefined.
unfoldable pub ip_musk : ℤ → Option ℕ
ip_musk (negsuc n) = none
ip_musk (pos n) = if leb 1 n && leb n 32 then some (2 ^ 32 - 1 - (2 ^ (32 - n) - 1)) else none

-- `CIDR2IP`: the two ends of the range, where the mask is defined.
unfoldable pub cidr_to_ip : List ℕ → Option (IpAddr × IpAddr)
cidr_to_ip ipaddr = elim (ip_musk (atoi (after b'/' ipaddr))) [
  | none ↦ none
  | some musk ↦
      let ip_min = bit_and (dot_dec_to_ip (before b'/' ipaddr)) musk in
      some (ip_min, bit_or ip_min (2 ^ 32 - 1 - musk))
]
