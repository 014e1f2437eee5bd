-- ===== src/Rtp/Packet/Build.antt =====
-- rtp.cpp: what the constructors build is intact and carries the text.
use networking_labs.Prelude.{
  ℕ, suc, ◌^◌, ◌≤◌, ◌<◌, ◌≡◌, refl, List, [], ◌∷◌, none, some, false, arith, take, drop, length,
  take-append_length, length-take_of_le, length-append,
}
use networking_labs.Rtp.Crc.{checksum-lt}
use networking_labs.Rtp.Packet.{
  RtpPacket, IsPacket, payload_size, no_checksum, unsigned, sign, fill_payload, rtp_packet,
  rtp_packet_text, damaged, content,
}

sign-intact : (p : RtpPacket) → damaged (sign (no_checksum p)) ≡ false
unfolding sign damaged
sign-intact p = ground arith

length-fill_payload_le :
    (mem pl : List ℕ) (n : ℕ) → n ≤ length pl → n ≤ length (fill_payload mem n (some pl))
unfolding fill_payload
length-fill_payload_le mem pl n h =
    omega (arith, length-append (take n pl) (0 ∷ drop (suc n) mem), length-take_of_le n pl h)

-- The constructor with a length makes a packet whose fields fit, whose checksum is right and whose
-- text is the first bytes of its argument; for a length below the array's and not above the
-- argument's.
pub rtp_packet-IsPacket :
    (mem : List ℕ) (type n seq : ℕ) (pl : List ℕ)
    → type < 2 ^ 8
    → n < payload_size
    → seq < 2 ^ 32
    → n ≤ length pl
    → IsPacket (rtp_packet mem type n seq (some pl))
      × (content (rtp_packet mem type n seq (some pl)) ≡ take n pl)
unfolding rtp_packet
rtp_packet-IsPacket mem type n seq pl ht hn hs hl = (
  record {
    type_fits = ht;
    length_fits = hn;
    seq_fits = hs;
    checksum_fits = checksum-lt _;
    text_fits = length-fill_payload_le mem pl n hl;
    intact = sign-intact (unsigned type n seq (fill_payload mem n (some pl)));
  },
  take-append_length n (take n pl) (0 ∷ drop (suc n) mem) (length-take_of_le n pl hl),
)

-- The constructor without a length makes such a packet with no text where it is given none.
pub rtp_packet_text-IsPacket :
    (mem : List ℕ) (type seq : ℕ)
    → type < 2 ^ 8
    → seq < 2 ^ 32
    → IsPacket (rtp_packet_text mem type seq none)
      × (content (rtp_packet_text mem type seq none) ≡ [])
unfolding rtp_packet_text
rtp_packet_text-IsPacket mem type seq ht hs = (
  record {
    type_fits = ht;
    length_fits = omega arith;
    seq_fits = hs;
    checksum_fits = checksum-lt _;
    text_fits = omega arith;
    intact = sign-intact (unsigned type 0 seq (fill_payload mem 0 none));
  },
  refl,
)
