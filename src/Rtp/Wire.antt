-- ===== src/Rtp/Wire.antt =====
-- lab2-rtp-Heccc257/Lab2-RTP-Test/src/datatrans.cpp: one packet to one datagram and back.
-- The sockets are not under src/: what `sendto` returns and what `recvfrom` delivers are arguments.
pub mod RoundTrip
use networking_labs.Prelude.{
  ℕ, suc, ◌+◌, ◌-◌, ◌*◌, ◌≤◌, ◌<◌, ◌≡◌, refl, List, [], ◌∷◌, ◌++◌, Option, none, some, Bool, true,
  false, not, ltb, if◌then◌else◌, take, drop, length, get_or, replicate,
}
use networking_labs.Prelude.Int.{ℤ, pos, ltb_ℤ}
use networking_labs.Rtp.Packet.{RtpHeader, RtpPacket, header_size, payload_size, wire, damaged}

abbrev pub buff_size : ℕ
buff_size = 2048

-- `sendRTP`: the datagram that goes out, and whether `sendto` took at least a header; `ret` is what
-- `sendto` returned.
unfoldable pub send_rtp : ℤ → RtpPacket → List ℕ × Bool
send_rtp ret pack = (wire pack, not (ltb_ℤ ret (pos header_size)))

-- What `revRTP` gives back: `nullptr`, a packet, or nothing at all, where it wrote past the end of
-- the packet's array.
pub data Received : Type 0 where
  null : Received
  overrun : Received
  got : RtpPacket → Received

-- `recvfrom` writes the datagram over the head of the buffer, at most 2048 bytes of it.
recvfrom : List ℕ → List ℕ → List ℕ
recvfrom rcvbuf datagram = take buff_size datagram ++ drop (length datagram) rcvbuf

-- `memcpy((char*)&rev->rtp, rcvbuf, HeaderSize)`
parse_header : List ℕ → RtpHeader
parse_header buf =
    let byte = λ (i : ℕ). get_or buf i 0 in
    record {
      type = byte 0;
      length = byte 1 + byte 2 * 256;
      seq_num = byte 3 + byte 4 * 256 + byte 5 * 65536 + byte 6 * 16777216;
      checksum = byte 7 + byte 8 * 256 + byte 9 * 65536 + byte 10 * 16777216;
    }

-- The copy of `rtp.length` bytes and the final 0; the rest of a new packet is 0.
load_payload : List ℕ → ℕ → List ℕ
load_payload buf n = take n (drop header_size buf) ++ (0 ∷ replicate (payload_size - suc n) 0)

load : List ℕ → RtpHeader → Received
load buf rtp =
    if ltb rtp.length payload_size
    then (let rev : RtpPacket = record { rtp = rtp; payload = load_payload buf rtp.length } in
        if damaged rev then null else got rev)
    else overrun

-- `revRTP`: the receive buffer afterwards, and the packet. A time-out or an error is `none`.
pub rev_rtp : List ℕ → Option (List ℕ) → List ℕ × Received
rev_rtp rcvbuf none = (rcvbuf, null)
rev_rtp rcvbuf (some datagram) =
    let buf = recvfrom rcvbuf datagram in
    if ltb (length datagram) header_size then (buf, null) else (buf, load buf (parse_header buf))
