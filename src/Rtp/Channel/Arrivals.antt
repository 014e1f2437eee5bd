-- ===== src/Rtp/Channel/Arrivals.antt =====
-- What a datagram of a sent packet becomes at the other end.
use mathlib.Core.Option.{some-injective}
use networking_labs.Prelude.{
  ℕ, ◌≡◌, sym, ap, ◌∙◌, List, Option, some, get_elem?, take-append_length, length-take_of_le, arith,
}
use networking_labs.Rtp.Packet.{RtpPacket, IsPacket, content}
use networking_labs.Rtp.Wire.{got}
use networking_labs.Rtp.Wire.RoundTrip.{received, rev_rtp-wire}
use networking_labs.Rtp.Channel.{Arrives, nothing, comes}

pub content-received : (p : RtpPacket) → IsPacket p → content (received p) ≡ content p
unfolding received
content-received p v =
    take-append_length p.rtp.length (content p) _
      (length-take_of_le p.rtp.length p.payload v.text_fits)

got-injective : {p q : RtpPacket} → got p ≡ got q → p ≡ q
got-injective e = grind arith

-- A packet that arrives has the header and the text of one that was sent.
pub Arrives-log :
    {log : List RtpPacket} {x : Option RtpPacket} (q : RtpPacket)
    → ((i : ℕ) (p : RtpPacket) → get_elem? log i ≡ some p → IsPacket p)
    → Arrives log x
    → x ≡ some q
    → (i : ℕ) × (p : RtpPacket) × (get_elem? log i ≡ some p)
      × (q.rtp ≡ p.rtp)
      × (content q ≡ content p)
unfolding received
Arrives-log q whole nothing e = absurd (ground arith)
Arrives-log q whole (comes i {p} rcvbuf sent came) e =
    let v = whole i p sent in
    let same : received p ≡ q =
      got-injective (sym (rev_rtp-wire rcvbuf p v) ∙ came) ∙ some-injective _ _ e in
    (i, p, sent, sym (ap (λ x. x.rtp) same), sym (ap content same) ∙ content-received p v)
