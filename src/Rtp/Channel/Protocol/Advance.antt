-- ===== src/Rtp/Channel/Protocol/Advance.antt =====
-- A round of either end in which nothing is lost, and what it moves on.
use networking_labs.Prelude.{
  ℕ, ◌≤◌, ◌<◌, ◌≡◌, refl, sym, ap, ◌∙◌, ◌⊎◌, inl, inr, List, Option, [], some, true, false, arith,
  get_elem?, get_elem?-take, get_elem?-map, length,
}
use networking_labs.Rtp.Packet.{RtpPacket, IsPacket, content, rtp_ack}
use networking_labs.Rtp.Wire.RoundTrip.{received, rev_rtp-wire}
use networking_labs.Rtp.Receiver.{Receiver, Arrival, round}
use networking_labs.Rtp.Receiver.Window.{accept_progress}
use networking_labs.Rtp.Receiver.Rounds.{timed-Window}
use networking_labs.Rtp.Receiver.Answers.{round_needed}
use networking_labs.Rtp.Sender.{Sender, Event, Turn}
use networking_labs.Rtp.Sender.Invariant.{texts, sent_texts}
use networking_labs.Rtp.Sender.Turns.{IsTurn, ends, goes_on}
use networking_labs.Rtp.Channel.{Arrives, comes, System, Step, sends, finishes, receives}
use networking_labs.Rtp.Channel.Arrivals.{content-received}
use networking_labs.Rtp.Channel.Protocol.{Protocol}
use networking_labs.Rtp.Channel.Protocol.Coherence.{Coherent, heard}
use networking_labs.Rtp.Channel.Protocol.Answered.{Progress}

-- A round of the sender in which the clock stands still.
abbrev hears : Sender → Option RtpPacket → Event
hears s reply = record {
  sent_at = s.timer;
  reply = reply;
  replied_at = s.timer;
  now = s.timer;
  resent_at = s.timer;
}

-- A packet that has been sent arrives.
pub delivered :
    (log : List RtpPacket) (k : ℕ) (p : RtpPacket)
    → get_elem? log k ≡ some p
    → IsPacket p
    → Arrives log (some (received p))
delivered log k p sent v = comes k [] sent (rev_rtp-wire [] p v)

pub same_header : (p : RtpPacket) → (received p).rtp ≡ p.rtp
unfolding received
same_header p = refl

module _ {message : List ℕ} {w : ℕ} {send : Sender → Event → Option Turn}
    {ack_seq : Receiver → RtpPacket → ℕ} {proto : Protocol message w send ack_seq}
    (go : Progress proto) where
  -- What is left after a round of the sender that has not left its loop.
  pub record IsOngoing (s : System) (reply : Option RtpPacket) (t : System) : Type 0 where
    pub busy : t.done ≡ false
    pub same_closed : t.closed ≡ s.closed
    pub same_receiver : t.receiver ≡ s.receiver
    pub all_sent : t.sender.nextseqnum ≡ length t.sender.packs
    pub unacked : s.sender.base < length t.sender.packs
    pub no_less : s.sender.base ≤ t.sender.base
    pub moves_on :
        (ack : RtpPacket)
        → reply ≡ some ack
        → ack.rtp.type ≡ rtp_ack
        → go.Confirms ack.rtp.seq_num s.sender.base
        → s.sender.base < t.sender.base

  abbrev pub IsDone : System → System → Type 0
  IsDone s t = (t.done ≡ true) × (t.closed ≡ s.closed)

  pub sender_round :
      (s : System) (reply : Option RtpPacket)
      → Coherent proto s
      → s.done ≡ false
      → Arrives s.acks reply
      → (t : System) × Step send (round ack_seq) s t × (IsDone s t ⊎ IsOngoing s reply t)
  sender_round s reply c busy arrives =
      let (x, made, turned) =
        go.moves s.receiver s.sender (hears s.sender reply) c.sending c.receiving c.agrees
          (heard proto s (hears s.sender reply) c arrives) in
      shown x made turned
    where
      shown :
          (x : Turn)
          → send s.sender (hears s.sender reply) ≡ some x
          → IsTurn message w s.sender
              (λ u. Unit)
              (λ u.
                (s.sender.base ≤ u.base)
                × ((ack : RtpPacket)
                    → reply ≡ some ack
                    → ack.rtp.type ≡ rtp_ack
                    → go.Confirms ack.rtp.seq_num s.sender.base
                    → s.sender.base < u.base))
              x
          → (t : System) × Step send (round ack_seq) s t × (IsDone s t ⊎ IsOngoing s reply t)
      shown _ made (ends {t} v grows p all_acked at_end) = (
        record s { sender = t; done = true },
        finishes (hears s.sender reply) busy arrives made,
        inl (refl, refl),
      )
      shown _ made (goes_on {t} v grows (le, on) all_sent unacked) = (
        record s { sender = t },
        sends (hears s.sender reply) busy arrives made,
        inr (record {
          busy = busy;
          same_closed = refl;
          same_receiver = refl;
          all_sent = all_sent;
          unacked = unacked;
          no_less = le;
          moves_on = on;
        }),
      )

  -- The packet that the receiver needs, where it has been sent, moves the receiver on.
  pub receiver_round :
      (s : System)
      → Coherent proto s
      → s.closed ≡ false
      → s.receiver.firstneedrecv < s.sender.nextseqnum
      → (t : System) × Step send (round ack_seq) s t
        × (t.done ≡ s.done)
        × (t.closed ≡ false)
        × (t.sender ≡ s.sender)
        × (s.receiver.firstneedrecv < t.receiver.firstneedrecv)
  receiver_round s c same_closed due =
      let n = s.receiver.firstneedrecv in
      let (k, p, sent, there) = c.sending.in_log n due in
      let whole = c.sending.numbered n p there in
      let q = received p in
      let a : Arrival = record {
        newpack = some q;
        at = s.receiver.timer;
        now = s.receiver.timer;
      } in
      let v = timed-Window s.receiver.timer c.receiving in
      let number : q.rtp.seq_num ≡ n = ap (λ x. x.seq_num) (same_header p) ∙ whole.number in
      let text : get_elem? (sent_texts s.sender) q.rtp.seq_num ≡ some (content q) =
        ap (get_elem? (sent_texts s.sender)) number
        ∙ get_elem?-take (texts s.sender) s.sender.nextseqnum n due
        ∙ get_elem?-map content s.sender.packs n there
        ∙ ap some (sym (content-received p whole.packet)) in
      (
        _,
        receives a same_closed (delivered s.sender.sent k p sent whole.packet) (
            round_needed ack_seq s.receiver a q c.receiving refl
              (ap (λ x. x.type) (same_header p) ∙ whole.of_data) number (omega arith)),
        refl,
        same_closed,
        refl,
        accept_progress v q text number,
      )
