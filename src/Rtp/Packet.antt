-- ===== src/Rtp/Packet.antt =====
-- lab2-rtp-Heccc257/Lab2-RTP-Test/src/rtp.h and rtp.cpp: the packet, its constructors and its check.
pub mod Build
use networking_labs.Prelude.Bytes.{le16, le32}
use networking_labs.Prelude.{
  ℕ, suc, ◌+◌, ◌/◌, ◌%◌, ◌^◌, ◌≤◌, ◌<◌, ◌≡◌, refl, sym, ap, ◌∙◌, List, [], ◌∷◌, ◌++◌, Option, none,
  some, Bool, true, false, not, arith, ◌==◌, ==_iff, if◌then◌else◌, take, drop, length,
  take-append_length, take-append_of_le, take_of_length_le, length-take_of_le, length-append,
  length-drop, replicate,
}
use networking_labs.Rtp.Crc.{checksum, checksum-lt}

abbrev pub rtp_start : ℕ
rtp_start = 0

abbrev pub rtp_end : ℕ
rtp_end = 1

abbrev pub rtp_data : ℕ
rtp_data = 2

abbrev pub rtp_ack : ℕ
rtp_ack = 3

abbrev pub payload_size : ℕ
payload_size = 1461

abbrev pub header_size : ℕ
header_size = 11

-- What a new packet's array holds before its constructor runs. The source leaves it as it is; the
-- theorems on the constructors hold for every such array.
abbrev pub fresh_memory : List ℕ
fresh_memory = replicate payload_size 0

-- `RTP_header`: a byte, 16 bits, 32 bits and 32 bits.
pub record RtpHeader : Type 0 where
  pub type : ℕ
  pub length : ℕ
  pub seq_num : ℕ
  pub checksum : ℕ

-- `RTP_packet`; `payload` is the whole array.
pub record RtpPacket : Type 0 where
  pub rtp : RtpHeader
  pub payload : List ℕ

-- Little-endian fields, as the packed struct lies in memory.
abbrev pub header_bytes : RtpHeader → List ℕ
header_bytes h = h.type % 256 ∷ (le16 h.length ++ (le32 h.seq_num ++ le32 h.checksum))

-- The first `rtp.length + HeaderSize` bytes of the object.
unfoldable pub wire : RtpPacket → List ℕ
wire p = header_bytes p.rtp ++ take p.rtp.length p.payload

abbrev pub no_checksum : RtpPacket → RtpPacket
no_checksum p = record p { rtp = record p.rtp { checksum = 0 } }

-- `rtp.checksum = compute_checksum(this, rtp.length + HeaderSize)`
unfoldable pub sign : RtpPacket → RtpPacket
sign p = record p { rtp = record p.rtp { checksum = checksum (wire p) } }

-- `memcpy(payload, _pl, n); payload[n] = 0`, or `payload[0] = 0` where there is no text. `mem` is
-- what the array held before.
fill_payload : List ℕ → ℕ → Option (List ℕ) → List ℕ
fill_payload mem n none = 0 ∷ drop 1 mem
fill_payload mem n (some pl) = take n pl ++ (0 ∷ drop (suc n) mem)

abbrev pub unsigned : ℕ → ℕ → ℕ → List ℕ → RtpPacket
unsigned type length seq payload = record {
  rtp = record { type = type; length = length; seq_num = seq; checksum = 0 };
  payload = payload;
}

-- The constructor with a length.
unfoldable pub rtp_packet : List ℕ → ℕ → ℕ → ℕ → Option (List ℕ) → RtpPacket
unfolding sign fill_payload
rtp_packet mem type length seq pl = sign (unsigned type length seq (fill_payload mem length pl))

-- `strlen`, 0 where there is no text.
text_length : Option (List ℕ) → ℕ
text_length none = 0
text_length (some pl) = length pl

-- The constructor that measures its text by `strlen`: `pl` is the text up to its final 0.
unfoldable pub rtp_packet_text : List ℕ → ℕ → ℕ → Option (List ℕ) → RtpPacket
unfolding sign fill_payload text_length
rtp_packet_text mem type seq pl =
    sign (unsigned type (text_length pl % 2 ^ 16) seq (fill_payload mem (text_length pl) pl))

-- The constructor from a header, which signs over the checksum that the header brings.
unfoldable pub rtp_packet_header : List ℕ → RtpHeader → Option (List ℕ) → RtpPacket
unfolding sign fill_payload text_length
rtp_packet_header mem rtp pl =
    sign (record { rtp = rtp; payload = fill_payload mem (text_length pl) pl })

-- `Damaged`: the checksum is set aside, computed again over a 0, compared, and put back.
unfoldable pub damaged : RtpPacket → Bool
damaged p = not (p.rtp.checksum == checksum (wire (no_checksum p)))

-- A packet as the sender builds it: its fields fit, and its checksum is right.
pub record IsPacket (p : RtpPacket) : Type 0 where
  pub type_fits : p.rtp.type < 2 ^ 8
  pub length_fits : p.rtp.length < payload_size
  pub seq_fits : p.rtp.seq_num < 2 ^ 32
  pub checksum_fits : p.rtp.checksum < 2 ^ 32
  pub text_fits : p.rtp.length ≤ length p.payload
  pub intact : damaged p ≡ false

-- The text that a packet carries: the first `rtp.length` bytes of its array.
abbrev pub content : RtpPacket → List ℕ
content p = take p.rtp.length p.payload
