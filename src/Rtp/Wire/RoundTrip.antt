-- ===== src/Rtp/Wire/RoundTrip.antt =====
-- datatrans.cpp: what `revRTP` makes of the bytes of a packet, and of others.
use networking_labs.Prelude.{
  ℕ, suc, ◌+◌, ◌-◌, ◌*◌, ◌≤◌, ◌<◌, ◌≡◌, ap, List, ◌∷◌, ◌++◌, some, false, arith, ltb, drop, length,
  replicate, take_of_length_le, length-take_of_le, take-append_length, lt→ltb,
}
use networking_labs.Rtp.Packet.{
  RtpPacket, IsPacket, header_size, payload_size, wire, content, damaged,
}
use networking_labs.Rtp.Wire.{
  overrun, got, recvfrom, parse_header, load_payload, load, rev_rtp, buff_size,
}

-- The packet as the receiver holds it: the same header and text, the rest of the array 0.
unfoldable pub received : RtpPacket → RtpPacket
received p = record {
  rtp = p.rtp;
  payload = content p ++ (0 ∷ replicate (payload_size - suc p.rtp.length) 0);
}

length-wire : (p : RtpPacket) → IsPacket p → length (wire p) ≡ header_size + p.rtp.length
unfolding wire
length-wire p v = omega (arith, length-take_of_le p.rtp.length p.payload v.text_fits)

recvfrom-wire :
    (rcvbuf : List ℕ) (p : RtpPacket)
    → IsPacket p
    → recvfrom rcvbuf (wire p) ≡ wire p ++ drop (length (wire p)) rcvbuf
unfolding recvfrom
recvfrom-wire rcvbuf p v =
    ap (λ l. l ++ drop (length (wire p)) rcvbuf)
      (take_of_length_le buff_size (wire p) (omega (arith, length-wire p v, v.length_fits)))

parse_header-wire :
    (p : RtpPacket) (rest : List ℕ) → IsPacket p → parse_header (wire p ++ rest) ≡ p.rtp
unfolding parse_header wire
parse_header-wire p rest v = ground (arith, v.type_fits, v.length_fits, v.seq_fits, v.checksum_fits)

load_payload-wire :
    (p : RtpPacket) (rest : List ℕ)
    → IsPacket p
    → load_payload (wire p ++ rest) p.rtp.length ≡ (received p).payload
unfolding load_payload wire received
load_payload-wire p rest v =
    ap (λ l. l ++ (0 ∷ replicate (payload_size - suc p.rtp.length) 0))
      (take-append_length p.rtp.length (content p) rest
        (length-take_of_le p.rtp.length p.payload v.text_fits))

damaged-received : (p : RtpPacket) → IsPacket p → damaged (received p) ≡ false
unfolding damaged received wire
damaged-received p v =
    rw
      (take-append_length p.rtp.length (content p)
        (0 ∷ replicate (payload_size - suc p.rtp.length) 0)
        (length-take_of_le p.rtp.length p.payload v.text_fits))
      v.intact

load-wire :
    (p : RtpPacket) (rest : List ℕ) → IsPacket p → load (wire p ++ rest) p.rtp ≡ got (received p)
unfolding load damaged received
load-wire p rest v = rw (lt→ltb _ _ v.length_fits, load_payload-wire p rest v, damaged-received p v)

-- RevRTP gives back the header and the text of a packet whose fields fit and whose checksum is
-- right when its datagram arrives whole, whatever the receive buffer held.
pub rev_rtp-wire :
    (rcvbuf : List ℕ) (p : RtpPacket)
    → IsPacket p
    → (rev_rtp rcvbuf (some (wire p))).1 ≡ got (received p)
unfolding rev_rtp
rev_rtp-wire rcvbuf p v =
    rw (not_short, recvfrom-wire rcvbuf p v, parse_header-wire p (drop (length (wire p)) rcvbuf) v)
      (load-wire p (drop (length (wire p)) rcvbuf) v)
  where
    not_short : ltb (length (wire p)) header_size ≡ false
    not_short = ground (arith, length-wire p v)

-- Whatever datagram arrives, a packet that revRTP hands on has a right checksum and a text shorter
-- than its array.
pub rev_rtp-got :
    (rcvbuf datagram : List ℕ) (p : RtpPacket)
    → (rev_rtp rcvbuf (some datagram)).1 ≡ got p
    → (damaged p ≡ false) × (p.rtp.length < payload_size)
unfolding rev_rtp load
rev_rtp-got rcvbuf datagram p e = ground arith

-- Any datagram of eleven bytes or more whose length field is above 1460 makes revRTP write past
-- the end of the packet.
pub rev_rtp_overrun :
    (rcvbuf rest : List ℕ) (type lo hi : ℕ)
    → 8 ≤ length rest
    → payload_size ≤ lo + hi * 256
    → (rev_rtp rcvbuf (some (type ∷ lo ∷ hi ∷ rest))).1 ≡ overrun
unfolding rev_rtp load parse_header recvfrom
rev_rtp_overrun rcvbuf rest type lo hi h l = ground arith
