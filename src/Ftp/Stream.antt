-- ===== src/Ftp/Stream.antt =====
-- datatrans.cpp: a datagram that is written to a connection is read from it.
use Prim.Native.Nat.{min}
use networking_labs.Prelude.{
  ℕ, zero, suc, ◌+◌, ◌-◌, ◌^◌, ◌≤◌, ◌<◌, ◌≡◌, refl, ap, ◌∙◌, List, [], ◌∷◌, ◌++◌, some, false,
  arith, All, ◌==◌, take, drop, length, length-drop, length-append, take-append_length,
  take_of_length_le, length-take_of_le,
}
use networking_labs.Ftp.{
  Header, Datagram, endian_rev, header_size, header_bytes, dg_length, payload_length, dgram2bytes,
  write_dgram, read_buf, bytes2dgram, read_dgram, text_datagram, bytes_datagram,
}

-- A datagram as its constructors make it, and small enough for the buffer.
pub record IsDatagram (dg : Datagram) : Type 0 where
  pub type_fits : dg.hd.m_type < 256
  pub status_fits : dg.hd.m_status < 256
  pub sized : dg.hd.m_length ≡ endian_rev (header_size + length dg.payload)
  pub small : header_size + length dg.payload ≤ 2 ^ 22

-- Enough calls of `read`, each of which gives a byte at least.
abbrev pub Enough : ℕ → List ℕ → Type 0
Enough n ks = All (λ k. 0 < k) ks × (n ≤ length ks)

pub endian_rev_involutive : (a : ℕ) → a < 2 ^ 32 → endian_rev (endian_rev a) ≡ a
unfolding endian_rev
endian_rev_involutive a h = omega arith

nothing_left : (n : ℕ) → drop {A = ℕ} n [] ≡ []
nothing_left zero = refl
nothing_left (suc n) = refl

drop-take :
    (b n : ℕ) (xs : List ℕ)
    → b ≤ n
    → (take b xs ++ take (n - b) (drop b xs) ≡ take n xs) × (drop (n - b) (drop b xs) ≡ drop n xs)
drop-take zero n xs h =
    let e : n - 0 ≡ n = omega arith in (ap (λ (m : ℕ). take m xs) e, ap (λ (m : ℕ). drop m xs) e)
drop-take (suc b) zero xs h = absurd (omega arith)
drop-take (suc b) (suc n) [] h =
    (take_of_length_le (suc n - suc b) [] (omega arith), nothing_left (suc n - suc b))
drop-take (suc b) (suc n) (x ∷ xs) h =
    let (t, d) = drop-take b n xs (omega arith) in
    let e : suc n - suc b ≡ n - b = omega arith in
    (
      ap (λ (m : ℕ). x ∷ (take b xs ++ take m (drop b xs))) e ∙ ap (◌∷◌ x) t,
      ap (λ (m : ℕ). drop m (drop b xs)) e ∙ d,
    )

-- However the bytes come, the loop ends with those that were asked for.
pub read_buf_lem :
    (ks : List ℕ) (len more : ℕ) (stream : List ℕ)
    → Enough (len + more) ks
    → len ≤ length stream
    → (left : List ℕ) × (read_buf ks len stream ≡ some (take len stream, drop len stream, left))
      × Enough more left
unfolding read_buf
read_buf_lem [] zero more stream enough there = ([], refl, (tt, omega arith))
read_buf_lem [] (suc len) more stream enough there = absurd (omega arith)
read_buf_lem (k ∷ ks) zero more stream enough there = (k ∷ ks, refl, (enough.0, omega arith))
read_buf_lem (k ∷ ks) (suc len) more stream enough there =
    let b = min k (min (suc len) (length stream)) in
    let not_done : (suc len == 0) ≡ false = ground arith in
    let some_read : 0 < b = omega arith in
    let in_bounds : b ≤ suc len = omega arith in
    let (left, got, more_left) =
      read_buf_lem ks (suc len - b) more (drop b stream) (enough.0.1, omega arith)
        (omega (arith, length-drop b stream)) in
    let (bytes, after) = drop-take b (suc len) stream in_bounds in
    (left, rw (not_done, got, bytes, after) refl, more_left)

header_read :
    (h : Header) (rest : List ℕ)
    → h.m_type < 256
    → h.m_status < 256
    → h.m_length < 2 ^ 32
    → bytes2dgram (take header_size (header_bytes h ++ rest)) ≡ h
unfolding bytes2dgram
header_read h rest ht hs hl = ground arith

endian_rev-lt : (a : ℕ) → endian_rev a < 2 ^ 32
unfolding endian_rev
endian_rev-lt a = omega arith

dg_length_lem : (dg : Datagram) → IsDatagram dg → dg_length dg.hd ≡ header_size + length dg.payload
unfolding dg_length
dg_length_lem dg v =
    ap endian_rev v.sized
    ∙ endian_rev_involutive (header_size + length dg.payload) (omega (arith, v.small))

pub payload_length_lem : (dg : Datagram) → IsDatagram dg → payload_length dg.hd ≡ length dg.payload
unfolding payload_length dg_length
payload_length_lem dg v = omega (arith, dg_length_lem dg v, v.small)

drop-append_length : (xs ys : List ℕ) → drop (length xs) (xs ++ ys) ≡ ys
drop-append_length [] ys = refl
drop-append_length (x ∷ xs) ys = drop-append_length xs ys

pub write_dgram_lem :
    (bbuff : List ℕ) (dg : Datagram)
    → IsDatagram dg
    → write_dgram bbuff dg ≡ header_bytes dg.hd ++ dg.payload
unfolding write_dgram dgram2bytes
write_dgram_lem bbuff dg v =
    rw
      (
        dg_length_lem dg v,
        payload_length_lem dg v,
        take_of_length_le (length dg.payload) dg.payload (omega arith),
      )
      (take-append_length (header_size + length dg.payload) (header_bytes dg.hd ++ dg.payload) _
        (omega arith))

-- What writeDgram writes of a datagram, whatever its buffer held, readDgram reads back and leaves
-- what follows, however the bytes come, if each call of read gives a byte at least and there are
-- as many calls as bytes; for a datagram with the length that its constructors give it and not
-- above the buffer of 2^22 bytes.
pub read_dgram-write_dgram :
    (ks bbuff rest : List ℕ) (dg : Datagram)
    → IsDatagram dg
    → Enough (header_size + length dg.payload) ks
    → (left : List ℕ) × (read_dgram ks (write_dgram bbuff dg ++ rest) ≡ some (dg, rest, left))
unfolding read_dgram
read_dgram-write_dgram ks bbuff rest dg v enough =
    let stream = header_bytes dg.hd ++ (dg.payload ++ rest) in
    let (left, head, enough') =
      read_buf_lem ks header_size (length dg.payload) stream enough (omega arith) in
    let (left', body, enough'') =
      read_buf_lem left (length dg.payload) 0 (dg.payload ++ rest)
        (enough'.0, omega (arith, enough'.1)) (omega (arith, length-append dg.payload rest)) in
    let length_fits : dg.hd.m_length < 2 ^ 32 =
      omega (arith, v.sized, endian_rev-lt (header_size + length dg.payload)) in
    (
      left',
      rw
          (
            write_dgram_lem bbuff dg v,
            head,
            header_read dg.hd (dg.payload ++ rest) v.type_fits v.status_fits length_fits,
            payload_length_lem dg v,
            body,
            take-append_length (length dg.payload) dg.payload rest refl,
            drop-append_length dg.payload rest,
          )
          refl,
    )

-- What the constructors make, of a type and a status of one byte and a payload that fits the buffer.
pub text_datagram-IsDatagram :
    (type status : ℕ) (pl : List ℕ)
    → type < 256
    → status < 256
    → length pl < 2 ^ 22 - header_size
    → IsDatagram (text_datagram type status pl)
unfolding text_datagram
text_datagram-IsDatagram type status pl ht hs h = record {
  type_fits = ht;
  status_fits = hs;
  sized = ap endian_rev (omega (arith, length-append pl (0 ∷ [])));
  small = omega (arith, length-append pl (0 ∷ []));
}

pub bytes_datagram-IsDatagram :
    (type status len : ℕ) (pl : List ℕ)
    → type < 256
    → status < 256
    → len ≤ length pl
    → len ≤ 2 ^ 22 - header_size
    → IsDatagram (bytes_datagram type status len pl)
unfolding bytes_datagram
bytes_datagram-IsDatagram type status len pl ht hs enough h = record {
  type_fits = ht;
  status_fits = hs;
  sized = ap endian_rev (omega (arith, length-take_of_le len pl enough));
  small = omega (arith, length-take_of_le len pl enough);
}
