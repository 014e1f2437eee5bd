-- ===== src/Router/Packet/Layout.antt =====
-- router.h: the bytes of a header, and of the packet that carries a row.
use networking_labs.Prelude.{
  ℕ, zero, suc, ◌+◌, ◌-◌, ◌*◌, ◌/◌, ◌%◌, ◌^◌, ◌≤◌, ◌<◌, ◌≡◌, refl, sym, ap, ◌∙◌, List, [], ◌∷◌,
  ◌++◌, ltb, take, drop, length, take_of_length_le, arith, Bool-cases, inl, inr,
}
use networking_labs.Router.{Router}
use networking_labs.Router.Text.{
  put_digits, put_nat, put_row, to_string, row_from, dv_text, get_dv_info,
}
use networking_labs.Router.Text.RoundTrip.{length-row_from}
use networking_labs.Router.Packet.{
  PacketHeader, header_size, header_bytes, read_header, cmd, read_message, dv_header, dv_packet,
  copy_dv,
}

length-put_digits :
    (more n : ℕ) (text : List ℕ) → length (put_digits more n text) ≤ suc more + length text
unfolding put_digits
length-put_digits zero n text = omega arith
length-put_digits (suc more) n text =
    let longer = length-put_digits more (n / 10) ((b'0' + n % 10) ∷ text) in
    elim (Bool-cases (ltb n 10)) [
      | inl small ↦ rw (small, put_digits) (omega arith)
      | inr large ↦ rw (large, put_digits) (omega (arith, longer))
    ]

length-put_nat : (n : ℕ) (text : List ℕ) → length (put_nat n text) ≤ 10 + length text
unfolding put_nat
length-put_nat n text = omega (arith, length-put_digits 9 n text)

length-put_row : (row : List ℕ) → length (put_row row) ≤ 11 * length row
unfolding put_row
length-put_row [] = omega arith
length-put_row (d ∷ row) = omega (arith, length-put_nat d (b' ' ∷ put_row row), length-put_row row)

-- Of fewer than 100 routers a row fits the payload.
length-dv_text : (n : ℕ) (r : Router) → n < 100 → length (dv_text n r) < 1200
unfolding dv_text to_string
length-dv_text n r h =
    let row = row_from 1 n (r.dv.d r.router_id) in
    let version = put_nat r.dv.version (b' ' ∷ put_row row) in
    omega (
      arith,
      length-put_nat r.router_id (b' ' ∷ version),
      length-put_nat r.dv.version (b' ' ∷ put_row row),
      length-put_row row,
      length-row_from 1 n (r.dv.d r.router_id),
    )

take-append :
    {A : Type 0} (n : ℕ) (xs ys : List A)
    → length xs ≤ n
    → take n (xs ++ ys) ≡ xs ++ take (n - length xs) ys
take-append n [] ys h = let same : n - 0 ≡ n = omega arith in ap (λ (k : ℕ). take k ys) (sym same)
take-append zero (x ∷ xs) ys h = absurd (omega arith)
take-append (suc n) (x ∷ xs) ys h =
    let same : suc n - suc (length xs) ≡ n - length xs = omega arith in
    ap (◌∷◌ x) (take-append n xs ys (omega arith) ∙ ap (λ (k : ℕ). xs ++ take k ys) (sym same))

pub read_header-header_bytes :
    (pad : ℕ) (hd : PacketHeader) (rest : List ℕ)
    → hd.src < 2 ^ 32
    → hd.dst < 2 ^ 32
    → hd.length < 2 ^ 16
    → read_header (header_bytes pad hd ++ rest) ≡ hd
unfolding read_header header_bytes
read_header-header_bytes pad hd rest hs hd' hl = ground arith

-- The packet that is broadcast: the header, the text, and what the packet held behind them.
copy_dv_lem :
    (pad n : ℕ) (r : Router) (packet : List ℕ)
    → n < 100
    → copy_dv pad n r packet
      ≡ header_bytes pad (dv_header (dv_text n r))
        ++ (dv_text n r ++ drop (header_size + length (dv_text n r)) packet)
unfolding copy_dv dv_packet dv_header header_bytes
copy_dv_lem pad n r packet h =
    let text = dv_text n r in
    let fits : (header_size + length text) % 2 ^ 16 ≡ header_size + length text =
      omega (arith, length-dv_text n r h) in
    let rest : header_size + length text - header_size ≡ length text = omega arith in
    rw (fits, rest, take_of_length_le (length text) text (omega arith))
      (ap (λ l. l ++ drop (header_size + length text) packet)
        (take_of_length_le (header_size + length text) _ (omega arith)))

cmd-header_bytes :
    (pad : ℕ) (hd : PacketHeader) (rest : List ℕ)
    → hd.src < 2 ^ 32
    → hd.dst < 2 ^ 32
    → hd.length < 2 ^ 16
    → cmd (header_bytes pad hd ++ rest) ≡ take hd.length rest
unfolding cmd header_bytes
cmd-header_bytes pad hd rest hs hd' hl =
    ap (λ x. take x.length (drop header_size (header_bytes pad hd ++ rest)))
      (read_header-header_bytes pad hd rest hs hd' hl)

-- What another router reads out of it is the text, and the twelve bytes behind the packet.
pub cmd-copy_dv :
    (pad n : ℕ) (r : Router) (packet : List ℕ)
    → n < 100
    → (after : List ℕ) × (cmd (copy_dv pad n r packet) ≡ dv_text n r ++ after)
unfolding dv_header
cmd-copy_dv pad n r packet h =
    let text = dv_text n r in
    let behind = drop (header_size + length text) packet in
    let short = length-dv_text n r h in
    (
      _,
      ap cmd (copy_dv_lem pad n r packet h)
          ∙ cmd-header_bytes pad (dv_header text) (text ++ behind) (omega arith) (omega arith)
              (omega arith)
          ∙ take-append ((dv_header text).length) text behind (omega arith),
    )

pub read_message-copy_dv :
    (pad n : ℕ) (r : Router) (packet : List ℕ)
    → n < 100
    → read_message n (copy_dv pad n r packet) ≡ get_dv_info n (cmd (copy_dv pad n r packet))
unfolding read_message dv_header
read_message-copy_dv pad n r packet h =
    let of_dv : (read_header (copy_dv pad n r packet)).type ≡ 0 =
      ap (λ p. (read_header p).type) (copy_dv_lem pad n r packet h)
      ∙ ap (λ x. x.type)
          (read_header-header_bytes pad (dv_header (dv_text n r)) _ (omega arith) (omega arith)
            (omega arith)) in
    rw of_dv refl
