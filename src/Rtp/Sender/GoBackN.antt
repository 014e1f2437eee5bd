-- ===== src/Rtp/Sender/GoBackN.antt =====
-- sender_def.cpp: a round of `sendMessage`, with cumulative acknowledgements.
use networking_labs.Prelude.{
  ℕ, ◌≤◌, ◌≡◌, refl, ap, ◌∙◌, List, Option, none, some, true, false, ◌&&◌, ltb, leb, ◌==◌,
  if◌then◌else◌, arith, length, inl, inr, Bool-cases, Option-cases,
}
use networking_labs.Rtp.Packet.{RtpPacket, rtp_ack}
use networking_labs.Rtp.Sender.{Sender, Event, Turn, receive_ack, send_message}
use networking_labs.Rtp.Sender.Clock.{TimeVal}
use networking_labs.Rtp.Sender.Invariant.{Sending}
use networking_labs.Rtp.Sender.Turns.{IsTurn, turn-IsTurn}

-- The first packet without an acknowledgement once `reply` has been read.
abbrev pub acked_to : ℕ → Option RtpPacket → ℕ
acked_to base none = base
acked_to base (some ack) =
    if ack.rtp.type == rtp_ack && ltb base ack.rtp.seq_num then ack.rtp.seq_num else base

module _ {message : List ℕ} {w : ℕ} where
  pub moved-Sending :
      {s : Sender} (base : ℕ) (now : TimeVal)
      → Sending message w s
      → s.base ≤ base
      → base ≤ s.nextseqnum
      → Sending message w (record s { base = base; timer = now })
  moved-Sending base now v lo hi = record {
    window = v.window;
    positive = v.positive;
    small = v.small;
    cut = v.cut;
    numbered = v.numbered;
    total = v.total;
    counted = v.counted;
    room = v.room;
    first_sent = hi;
    sent_read = v.sent_read;
    read_window = omega (arith, v.read_window);
    logged = v.logged;
    in_log = v.in_log;
  }

  -- An ACK of packets that have been sent moves the window, and deletes only packets that exist.
  pub receive_ack-Sending :
      (e : Event) (s : Sender)
      → Sending message w s
      → acked_to s.base e.reply ≤ s.nextseqnum
      → (t : Sender) × (receive_ack e s ≡ some t)
        × Sending message w t
        × (t.base ≡ acked_to s.base e.reply)
        × (t.nextseqnum ≡ s.nextseqnum)
        × (t.packs ≡ s.packs)
  unfolding receive_ack
  receive_ack-Sending e s v h = elim (Option-cases e.reply) [
    | inl quiet ↦ (s, rw (quiet, receive_ack), v, rw quiet, refl, refl)
    | inr (ack, came) ↦ elim (Bool-cases (ack.rtp.type == rtp_ack && ltb s.base ack.rtp.seq_num)) [
      | inl moves ↦
          let bound : ack.rtp.seq_num ≤ s.nextseqnum = ground arith in
          let in_range : leb ack.rtp.seq_num (length s.packs) ≡ true =
            ground (arith, v.sent_read) in
          let from : s.base ≤ ack.rtp.seq_num = ground arith in
          (
            record s { base = ack.rtp.seq_num; timer = e.replied_at },
            rw (came, receive_ack, moves, in_range),
            moved-Sending ack.rtp.seq_num e.replied_at v from bound,
            rw (came, moves),
            refl,
            refl,
          )
      | inr stays ↦ (s, rw (came, receive_ack, stays), v, rw (came, stays), refl, refl)
    ]
  ]

-- A round of sendMessage from a state of the invariant, whose ACK is not beyond the packets sent,
-- does not fault and keeps the invariant; it forgets no packet that was sent; it either ends with
-- the file read and acknowledged to its end or goes on with all that was read sent and the window
-- at the ACK.
pub send_message-IsTurn :
    (message : List ℕ) (w : ℕ) (s : Sender) (e : Event)
    → Sending message w s
    → acked_to s.base e.reply ≤ s.nextseqnum
    → (t : Turn) × (send_message s e ≡ some t)
      × IsTurn message w s (λ t. t.base ≡ s.base) (λ t. t.base ≡ acked_to s.base e.reply) t
unfolding send_message
send_message-IsTurn message w s e v h =
    turn-IsTurn message w (λ s. s.acked) receive_ack (λ s i. false) (λ t. t.base ≡ s.base)
      (λ t. t.base ≡ acked_to s.base e.reply) s e v (λ t ext. ext.same_base) (λ t p v k b. b)
      (λ t v' b further unacked.
        let (u, done, v'', base, next, packs) =
          receive_ack-Sending e t v' (rw b (omega (arith, further))) in
        (u, done, v'', base ∙ ap (λ b. acked_to b e.reply) b, next, packs))
      (λ t u r b. r.same_base ∙ b)
