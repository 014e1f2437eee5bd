-- ===== src/Router/Text/RoundTrip.antt =====
-- What one router writes another reads back, whatever bytes follow in the packet.
use native.Mathlib.Nat.{pow-suc}
use networking_labs.Prelude.{
  ℕ, zero, suc, ◌+◌, ◌-◌, ◌*◌, ◌/◌, ◌%◌, ◌^◌, ◌≤◌, ◌<◌, ◌≡◌, refl, sym, ap, ◌∙◌, List, [], ◌∷◌,
  ◌++◌, map, length, some, true, false, ltb, leb, ◌==◌, ◌&&◌, All, arith, Bool-cases, inl, inr,
  subst, get_or,
}
use networking_labs.Prelude.Bytes.{is_space, skip_spaces}
use networking_labs.Prelude.Int.{pos}
use networking_labs.Router.Address.Text.{is_digit}
use networking_labs.Router.Text.{
  put_digits, put_nat, put_row, to_string, take_digits, digits_first, get_int, get_row, get_dv,
  natural, naturals, temdv, get_dv_info, row_from, dv_text,
}
use networking_labs.Router.Distance.{Fun}
use networking_labs.Router.{Router, dv_info}

-- A number that an `int` holds.
abbrev pub IsShort : ℕ → Type 0
IsShort n = n < 2 ^ 31

take_digits-digit :
    (n d : ℕ) (text : List ℕ)
    → d < 10
    → take_digits n ((b'0' + d) ∷ text) ≡ take_digits (n * 10 + d) text
unfolding take_digits is_digit
take_digits-digit n d text h =
    let digit : (leb b'0' (b'0' + d) && leb (b'0' + d) b'9') ≡ true = ground (arith, h) in
    let value : b'0' + d - b'0' ≡ d = omega arith in rw (digit, value) refl

-- Reading goes through the digits of a number as if it had come to it at once.
take_digits-put_digits :
    (more n : ℕ) (text : List ℕ)
    → n < 10 ^ suc more
    → take_digits 0 (put_digits more n text) ≡ take_digits n text
unfolding put_digits
take_digits-put_digits zero n text h =
    let same : 0 * 10 + n % 10 ≡ n = omega (arith, h) in
    take_digits-digit 0 (n % 10) text (omega arith) ∙ ap (λ (x : ℕ). take_digits x text) same
take_digits-put_digits (suc more) n text h =
    let longer =
      take_digits-put_digits more (n / 10) ((b'0' + n % 10) ∷ text)
        (omega (arith, pow-suc 10 (suc more), h)) in
    elim (Bool-cases (ltb n 10)) [
      | inl small ↦
          let same : 0 * 10 + n ≡ n = omega arith in
          rw small (
            take_digits-digit 0 n text (ground (arith, small))
            ∙ ap (λ (x : ℕ). take_digits x text) same)
      | inr large ↦
          let same : n / 10 * 10 + n % 10 ≡ n = omega arith in
          rw large (
            longer
            ∙ take_digits-digit (n / 10) (n % 10) text (omega arith)
            ∙ ap (λ (x : ℕ). take_digits x text) same)
    ]

put_digits_head :
    (more n : ℕ) (text : List ℕ)
    → (d : ℕ) × (rest : List ℕ) × (put_digits more n text ≡ (b'0' + d) ∷ rest) × (d < 10)
unfolding put_digits
put_digits_head zero n text = (n % 10, text, refl, (omega arith))
put_digits_head (suc more) n text =
    let (d, rest, e, low) = put_digits_head more (n / 10) ((b'0' + n % 10) ∷ text) in
    elim (Bool-cases (ltb n 10)) [
      | inl small ↦ (n, text, (rw small refl), ground (arith, small))
      | inr large ↦ (d, rest, (rw large e), low)
    ]

put_digits-append :
    (more n : ℕ) (text after : List ℕ)
    → put_digits more n text ++ after ≡ put_digits more n (text ++ after)
unfolding put_digits
put_digits-append zero n text after = refl
put_digits-append (suc more) n text after =
    let rest = put_digits-append more (n / 10) ((b'0' + n % 10) ∷ text) after in
    elim (Bool-cases (ltb n 10)) [ inl small ↦ rw small refl | inr large ↦ rw large rest ]

get_int_digit :
    (d : ℕ) (rest : List ℕ)
    → d < 10
    → get_int ((b'0' + d) ∷ rest)
      ≡ some (pos (take_digits 0 ((b'0' + d) ∷ rest)).0, (take_digits 0 ((b'0' + d) ∷ rest)).1)
unfolding get_int skip_spaces is_space digits_first is_digit
get_int_digit d rest h =
    let solid : is_space (b'0' + d) ≡ false = ground (arith, h) in
    let unsigned : (b'0' + d == b'-') ≡ false = ground (arith, h) in
    let plain : (b'0' + d == b'+') ≡ false = ground (arith, h) in
    let digit : (leb b'0' (b'0' + d) && leb (b'0' + d) b'9') ≡ true = ground (arith, h) in
    rw (solid, get_int, skip_spaces, unsigned, plain, digits_first, digit) refl

-- A number with a space after it.
get_int-put_nat :
    (n : ℕ) (text : List ℕ)
    → IsShort n
    → get_int (put_nat n (b' ' ∷ text)) ≡ some (pos n, b' ' ∷ text)
unfolding put_nat take_digits is_digit
get_int-put_nat n text h =
    let (d, rest, e, low) = put_digits_head 9 n (b' ' ∷ text) in
    let read = take_digits-put_digits 9 n (b' ' ∷ text) (omega (arith, h)) in
    ap get_int e
    ∙ get_int_digit d rest low
    ∙ ap (λ (x : ℕ × List ℕ). some (pos x.0, x.1)) (ap (take_digits 0) (sym e) ∙ read)

put_nat-append : (n : ℕ) (text after : List ℕ) → put_nat n text ++ after ≡ put_nat n (text ++ after)
unfolding put_nat
put_nat-append n text after = put_digits-append 9 n text after

get_int-space : (text : List ℕ) → get_int (b' ' ∷ text) ≡ get_int text
unfolding get_int skip_spaces is_space
get_int-space text = refl

get_row-put_row :
    (row after : List ℕ)
    → All IsShort row
    → get_row (length row) (b' ' ∷ (put_row row ++ after)) ≡ some (map pos row)
unfolding get_row put_row
get_row-put_row [] after h = refl
get_row-put_row (d ∷ row) after h =
    let here : get_int (b' ' ∷ (put_nat d (b' ' ∷ put_row row) ++ after))
        ≡ some (pos d, b' ' ∷ (put_row row ++ after)) =
      get_int-space _
      ∙ ap get_int (put_nat-append d _ after)
      ∙ get_int-put_nat d (put_row row ++ after) h.0 in
    rw (here, get_row, get_row-put_row row after h.1) refl

get_dv-to_string :
    (router_id version : ℕ) (row after : List ℕ)
    → IsShort router_id
    → IsShort version
    → All IsShort row
    → get_dv (length row) (to_string router_id version row ++ after)
      ≡ some (pos router_id, pos version, map pos row)
unfolding get_dv to_string
get_dv-to_string router_id version row after hr hv h =
    let first : get_int (put_nat router_id (b' ' ∷ put_nat version (b' ' ∷ put_row row)) ++ after)
        ≡ some (pos router_id, b' ' ∷ (put_nat version (b' ' ∷ put_row row) ++ after)) =
      ap get_int (put_nat-append router_id _ after) ∙ get_int-put_nat router_id _ hr in
    let second : get_int (b' ' ∷ (put_nat version (b' ' ∷ put_row row) ++ after))
        ≡ some (pos version, b' ' ∷ (put_row row ++ after)) =
      get_int-space _
      ∙ ap get_int (put_nat-append version _ after)
      ∙ get_int-put_nat version (put_row row ++ after) hv in
    rw (first, get_dv, second, get_row-put_row row after h) refl

naturals-pos : (row : List ℕ) → naturals (map pos row) ≡ some row
unfolding naturals natural
naturals-pos [] = refl
naturals-pos (d ∷ row) = rw (naturals-pos row, naturals) refl

pub length-row_from : (i n : ℕ) (f : Fun ℕ) → length (row_from i n f) ≡ n
unfolding row_from
length-row_from i zero f = refl
length-row_from i (suc n) f = omega (arith, length-row_from (i + 1) n f)

row_from-IsShort : (i n : ℕ) (f : Fun ℕ) → ((j : ℕ) → IsShort (f j)) → All IsShort (row_from i n f)
unfolding row_from
row_from-IsShort i zero f h = tt
row_from-IsShort i (suc n) f h = (h i, row_from-IsShort (i + 1) n f h)

get_or-row_from : (i n k : ℕ) (f : Fun ℕ) → k < n → get_or (row_from i n f) k 0 ≡ f (i + k)
unfolding row_from
get_or-row_from i zero k f h = absurd (omega arith)
get_or-row_from i (suc n) zero f h = let same : i ≡ i + 0 = omega arith in ap f same
get_or-row_from i (suc n) (suc k) f h =
    let same : i + 1 + k ≡ i + suc k = omega arith in
    get_or-row_from (i + 1) n k f (omega arith) ∙ ap f same

-- What a router writes of its own row another router reads back, whatever bytes follow in the
-- packet: the same router, the same version and, from 1 to the number of routers, the same
-- distances; for a number of the router, a version and distances that an int holds.
pub get_dv_info-dv_text :
    (tot_router_num : ℕ) (r : Router) (after : List ℕ)
    → IsShort r.router_id
    → IsShort r.dv.version
    → ((i : ℕ) → IsShort (r.dv.d r.router_id i))
    → (row : Fun ℕ) × (get_dv_info tot_router_num (dv_text tot_router_num r ++ after)
        ≡ some (dv_info r.router_id r.dv.version row))
      × ((i : ℕ) → 1 ≤ i → i ≤ tot_router_num → row i ≡ r.dv.d r.router_id i)
unfolding get_dv_info dv_text natural temdv
get_dv_info-dv_text tot_router_num r after hr hv h =
    let row = row_from 1 tot_router_num (r.dv.d r.router_id) in
    let read : get_dv tot_router_num (to_string r.router_id r.dv.version row ++ after)
        ≡ some (pos r.router_id, pos r.dv.version, map pos row) =
      subst
        (λ n.
          get_dv n (to_string r.router_id r.dv.version row ++ after)
          ≡ some (pos r.router_id, pos r.dv.version, map pos row))
        (length-row_from 1 tot_router_num (r.dv.d r.router_id))
        (get_dv-to_string r.router_id r.dv.version row after hr hv
          (row_from-IsShort 1 tot_router_num (r.dv.d r.router_id) h)) in
    (
      temdv row,
      rw (read, get_dv_info, naturals-pos row) refl,
      λ i low high.
          let same : 1 + (i - 1) ≡ i = omega arith in
          get_or-row_from 1 tot_router_num (i - 1) (r.dv.d r.router_id) (omega arith)
          ∙ ap (r.dv.d r.router_id) same,
    )
