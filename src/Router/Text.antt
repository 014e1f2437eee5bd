-- ===== src/Router/Text.antt =====
-- router.h and router.cpp: what routers write into the text of a packet and read out of it. Numbers
-- are those that an `int` holds.
pub mod RoundTrip
use networking_labs.Prelude.{
  ℕ, zero, suc, ◌+◌, ◌-◌, ◌*◌, ◌/◌, ◌%◌, List, [], ◌∷◌, ◌++◌, Option, none, some, ◌>>=◌, Bool, true,
  false, ◌&&◌, ltb, leb, ◌==◌, if◌then◌else◌, get_or,
}
use networking_labs.Prelude.Bytes.{is_space, skip_spaces, take_word}
use networking_labs.Prelude.Int.{ℤ, pos, negsuc, sub_ℕ, ◌==ℤ◌}
use networking_labs.Router.Address.{IpAddr}
use networking_labs.Router.Distance.{Fun}
use networking_labs.Router.{
  Router, Message, dv_info, trigger_dv, release_item, port_value, add_host,
}
use networking_labs.Router.Address.Text.{is_digit, dot_dec_to_ip}

-- `<< n`: the decimal digits, before what follows. Ten digits are enough for an `int`.
unfoldable pub put_digits : ℕ → ℕ → List ℕ → List ℕ
put_digits zero n text = (b'0' + n % 10) ∷ text
put_digits (suc more) n text =
    let longer = put_digits more (n / 10) ((b'0' + n % 10) ∷ text) in
    if ltb n 10 then (b'0' + n) ∷ text else longer

unfoldable pub put_nat : ℕ → List ℕ → List ℕ
put_nat n text = put_digits 9 n text

-- `toString`: the router, the version and the own row, each with a space after it.
unfoldable pub put_row : List ℕ → List ℕ
put_row [] = []
put_row (d ∷ row) = put_nat d (b' ' ∷ put_row row)

unfoldable pub to_string : ℕ → ℕ → List ℕ → List ℕ
to_string router_id version row = put_nat router_id (b' ' ∷ put_nat version (b' ' ∷ put_row row))

-- The digits at the start of a text: the number after `n`, and the rest.
unfoldable pub take_digits : ℕ → List ℕ → ℕ × List ℕ
take_digits n [] = (n, [])
take_digits n (b ∷ bs) =
    let more = take_digits (n * 10 + (b - b'0')) bs in if is_digit b then more else (n, b ∷ bs)

-- `>>` into an `int`, where a digit follows the spaces and the sign; `none` where the stream fails.
unfoldable pub digits_first : List ℕ → Option (ℕ × List ℕ)
digits_first [] = none
digits_first (b ∷ bs) = if is_digit b then some (take_digits 0 (b ∷ bs)) else none

unfoldable pub get_int : List ℕ → Option (ℤ × List ℕ)
get_int text = elim (skip_spaces text) [
  | [] ↦ none
  | b ∷ bs ↦
      if b == b'-'
      then (digits_first bs >>= λ read. some (sub_ℕ 0 read.0, read.1))
      else if b == b'+'
      then (digits_first bs >>= λ read. some (pos read.0, read.1))
      else (digits_first (b ∷ bs) >>= λ read. some (pos read.0, read.1))
]

-- `for (int i=1; i<=totRouterNum; i++) cmdss >> temdv[i];`
unfoldable pub get_row : ℕ → List ℕ → Option (List ℤ)
get_row zero text = some []
get_row (suc n) text = do (d, rest) ← get_int text; row ← get_row n rest; some (d ∷ row)

-- `cmdss >> RID >> version` and the row.
unfoldable pub get_dv : ℕ → List ℕ → Option (ℤ × ℤ × List ℤ)
get_dv tot_router_num text = do
  (router_id, rest) ← get_int text
  (version, rest') ← get_int rest
  row ← get_row tot_router_num rest'
  some (router_id, version, row)

-- `>>` into `ipString`, and `dotDec2IP` of the word.
unfoldable pub get_ip : List ℕ → Option IpAddr
get_ip text = elim (skip_spaces text) [
  | [] ↦ none
  | b ∷ bs ↦ some (dot_dec_to_ip (take_word (b ∷ bs)).0)
]

-- A number that has to be 0 or more; the handler's arrays and maps have no others.
unfoldable pub natural : ℤ → Option ℕ
natural (pos n) = some n
natural (negsuc n) = none

-- A cost: -1 closes the link.
unfoldable pub cost : ℤ → Option (Option ℕ)
cost (pos n) = some (some n)
cost (negsuc zero) = some none
cost (negsuc (suc n)) = none

-- What the text after `cmdType` says.
unfoldable pub get_command : ℤ → List ℕ → Option Message
get_command type text =
    if type ==ℤ pos 0
    then some trigger_dv
    else if type ==ℤ pos 1
    then (get_ip text >>= λ ip. some (release_item ip))
    else if type ==ℤ pos 2
    then (do
      (port, rest) ← get_int text
      (value, rest') ← get_int rest
      n ← natural port
      c ← cost value
      some (port_value n c))
    else (do (port, rest) ← get_int text; n ← natural port; ip ← get_ip rest; some (add_host n ip))

-- A packet of TYPE_CONTROL.
unfoldable pub get_control : List ℕ → Option Message
get_control text = do (type, rest) ← get_int text; get_command type rest

unfoldable pub naturals : List ℤ → Option (List ℕ)
naturals [] = some []
naturals (x ∷ xs) = do n ← natural x; ns ← naturals xs; some (n ∷ ns)

-- The array `temdv`, which is filled from 1 on.
unfoldable pub temdv : List ℕ → Fun ℕ
temdv row i = get_or row (i - 1) 0

-- A packet of TYPE_DV.
unfoldable pub get_dv_info : ℕ → List ℕ → Option Message
get_dv_info tot_router_num text = do
  (router_id, version, row) ← get_dv tot_router_num text
  id ← natural router_id
  v ← natural version
  costs ← naturals row
  some (dv_info id v (temdv costs))

-- `d[m_routerID][i]` for n values of i.
unfoldable pub row_from : ℕ → ℕ → Fun ℕ → List ℕ
row_from i zero f = []
row_from i (suc n) f = f i ∷ row_from (i + 1) n f

-- `dvInfo`
unfoldable pub dv_text : ℕ → Router → List ℕ
dv_text tot_router_num r =
    to_string r.router_id r.dv.version (row_from 1 tot_router_num (r.dv.d r.router_id))
