-- ===== src/Rtp/Channel/Protocol/Coherence.antt =====
-- The invariant of the two ends, and what it comes to when the sender has left its loop.
use networking_labs.Prelude.{
  ℕ, ◌≤◌, ◌≡◌, refl, sym, ap, subst, ◌∙◌, List, [], ◌∷◌, Option, none, some, Bool, true, All,
  All-get, All-append, All-map, arith, get_elem?, get_elem?-take, get_elem?-map, length, length-map,
  length-take_of_le, take-take, take,
}
use networking_labs.Rtp.Packet.{RtpPacket, IsPacket, content, rtp_ack}
use networking_labs.Rtp.Receiver.{Receiver, Arrival, Round, round}
use networking_labs.Rtp.Receiver.Deliver.{Has}
use networking_labs.Rtp.Receiver.Window.{Window}
use networking_labs.Rtp.Receiver.Rounds.{
  IsRound, IsGenuine, after, answer, round-IsRound, timed-Window, timed-Has,
}
use networking_labs.Rtp.Receiver.Growth.{Window-grow}
use networking_labs.Rtp.Sender.{Sender, Event, Turn}
use networking_labs.Rtp.Sender.Invariant.{Sending, texts, sent_texts}
use networking_labs.Rtp.Sender.Turns.{Grows, IsTurn}
use networking_labs.Rtp.Channel.{Arrives, System, log_ack}
use networking_labs.Rtp.Channel.Arrivals.{Arrives-log}
use networking_labs.Rtp.Channel.Protocol.{Protocol}

module _ {message : List ℕ} {w : ℕ} {send : Sender → Event → Option Turn}
    {ack_seq : Receiver → RtpPacket → ℕ} (proto : Protocol message w send ack_seq) where
  -- An ACK that has been sent.
  abbrev IsAck : Receiver → RtpPacket → Type 0
  IsAck r q = IsPacket q × (q.rtp.type ≡ rtp_ack) × proto.Means r q.rtp.seq_num

  pub record Coherent (s : System) : Type 0 where
    pub sending : Sending message w s.sender
    pub receiving : Window (sent_texts s.sender) w s.receiver
    pub acks : All (IsAck s.receiver) s.acks
    pub agrees : proto.Agrees s.receiver s.sender
    pub ended : s.done ≡ true → (s.sender.base ≡ length s.sender.packs) × (s.sender.rest ≡ [])

  -- An ACK that arrives means what it meant when it was sent.
  pub heard :
      (s : System) (e : Event)
      → Coherent s
      → Arrives s.acks e.reply
      → (ack : RtpPacket) → e.reply ≡ some ack
      → ack.rtp.type ≡ rtp_ack
      → proto.Means s.receiver ack.rtp.seq_num
  heard s e c arrives ack came of_ack =
      let (i, p, sent, same, text) =
        Arrives-log ack (λ i p h. (All-get (IsAck s.receiver) s.acks i c.acks h).0) arrives came in
      subst (λ (n : ℕ). proto.Means s.receiver n) (ap (λ x. x.seq_num) (sym same))
        (All-get (IsAck s.receiver) s.acks i c.acks sent).2

  -- So the sender's round does not fault.
  pub sender_turn :
      (s : System) (e : Event)
      → Coherent s
      → Arrives s.acks e.reply
      → (t : Turn) × (send s.sender e ≡ some t)
        × IsTurn message w s.sender (proto.Agrees s.receiver) (proto.Agrees s.receiver) t
  sender_turn s e c arrives =
      proto.turns s.receiver s.sender e c.sending c.receiving c.agrees (heard s e c arrives)

  pub length-sent_texts : {s : Sender} → Sending message w s → length (sent_texts s) ≡ s.nextseqnum
  length-sent_texts {s} v =
      length-take_of_le s.nextseqnum (texts s)
        (omega (arith, length-map s.packs content, v.sent_read))

  -- A turn's sender agrees with the receiver as before.
  pub sender-Coherent :
      (s : System) (t : Sender) (done : Bool)
      → Coherent s
      → Sending message w t
      → Grows s.sender t
      → proto.Agrees s.receiver t
      → (done ≡ true → (t.base ≡ length t.packs) × (t.rest ≡ []))
      → Coherent (record s { sender = t; done = done })
  sender-Coherent s t done c v grows agrees ended =
      let before = length-sent_texts c.sending in
      let after = length-sent_texts v in
      let same : take (length (sent_texts s.sender)) (sent_texts t) ≡ sent_texts s.sender =
        ap (λ (n : ℕ). take n (sent_texts t)) before
        ∙ take-take s.sender.nextseqnum t.nextseqnum (texts t) grows.further
        ∙ grows.same_before in
      record {
        sending = v;
        receiving =
            Window-grow (sent_texts s.sender) (sent_texts t)
              (omega (arith, before, after, grows.further)) same
              (omega (arith, after, v.sent_read, v.room, v.small)) c.receiving;
        acks = c.acks;
        agrees = agrees;
        ended = ended;
      }

  -- Every data packet that arrives is one that the sender has cut from the file.
  pub genuine :
      (s : System) (a : Arrival)
      → Coherent s
      → Arrives s.sender.sent a.newpack
      → IsGenuine (sent_texts s.sender) a
  genuine s a c arrives q came =
      let v = c.sending in
      let whole = λ (i : ℕ) (p : RtpPacket) (h : get_elem? s.sender.sent i ≡ some p).
        (v.numbered _ p (All-get _ s.sender.sent i v.logged h).1).packet in
      let (i, p, sent, same, text) = Arrives-log q whole arrives came in
      let (lo, there) = All-get _ s.sender.sent i v.logged sent in
      let seq : q.rtp.seq_num ≡ p.rtp.seq_num = ap (λ x. x.seq_num) same in
      (
        ap (λ x. x.type) same ∙ (v.numbered _ p there).of_data,
        ap (get_elem? (sent_texts s.sender)) seq
            ∙ get_elem?-take (texts s.sender) s.sender.nextseqnum p.rtp.seq_num lo
            ∙ get_elem?-map content s.sender.packs p.rtp.seq_num there
            ∙ ap some (sym text),
      )

  -- A round of the receiver leaves what the sender believes true, and its ACK says what it means.
  receiver-Coherent :
      (s : System) (r : Receiver) (acks : List RtpPacket) (closed : Bool)
      → Coherent s
      → Window (sent_texts s.sender) w r
      → s.receiver.firstneedrecv ≤ r.firstneedrecv
      → ((i : ℕ) → Has s.receiver i → Has r i)
      → All (IsAck r) acks
      → Coherent (record s { receiver = r; acks = acks; closed = closed })
  receiver-Coherent s r acks closed c v further keeps meant = record {
    sending = c.sending;
    receiving = v;
    acks = meant;
    agrees = proto.agrees_later s.receiver r further keeps s.sender c.agrees;
    ended = c.ended;
  }

  acks_later :
      (s : System) (r : Receiver)
      → Coherent s
      → s.receiver.firstneedrecv ≤ r.firstneedrecv
      → ((i : ℕ) → Has s.receiver i → Has r i)
      → All (IsAck r) s.acks
  acks_later s r c further keeps =
      All-map (IsAck s.receiver) (IsAck r) s.acks
        (λ q h. (h.0, h.1, proto.means_later s.receiver r further keeps q.rtp.seq_num h.2)) c.acks

  -- Where only the clock is noted, nothing changes.
  pub timed-Coherent :
      (s : System) (now : ℕ) (closed : Bool)
      → Coherent s
      → Coherent (record s { receiver = record s.receiver { timer = now }; closed = closed })
  timed-Coherent s now closed c =
      let r : Receiver = record s.receiver { timer = now } in
      receiver-Coherent s r s.acks closed c (timed-Window now c.receiving) (omega arith)
        (timed-Has now) (acks_later s r c (omega arith) (timed-Has now))

  log_ack-IsAck :
      (r : Receiver) (acks : List RtpPacket) (out : Option RtpPacket)
      → All (IsAck r) acks
      → ((q : RtpPacket) → out ≡ some q → IsAck r q)
      → All (IsAck r) (log_ack acks out)
  log_ack-IsAck r acks none old new = old
  log_ack-IsAck r acks (some q) old new = All-append (IsAck r) acks (q ∷ []) old (new q refl, tt)

  pub round-Coherent :
      (s : System) (a : Arrival) (x : Round) (closed : Bool)
      → Coherent s
      → Arrives s.sender.sent a.newpack
      → round ack_seq s.receiver a ≡ x
      → Coherent
          (record s { receiver = after x; acks = log_ack s.acks (answer x); closed = closed })
  round-Coherent s a x closed c arrives e =
      let texts = sent_texts s.sender in
      let y : IsRound texts w ack_seq s.receiver x = subst (IsRound texts w ack_seq s.receiver) e (
        round-IsRound ack_seq s.receiver a (λ t p. proto.ack_fits texts t p) c.receiving
          (genuine s a c arrives)) in
      let meant = acks_later s (after x) c y.further y.keeps in
      receiver-Coherent s (after x) _ closed c y.window y.further y.keeps (
        log_ack-IsAck (after x) s.acks (answer x) meant λ q out.
          let (whole, of_ack, p, number, has) = y.answers q out in
          (
            whole,
            of_ack,
            subst (λ (n : ℕ). proto.Means (after x) n) (sym number)
                (proto.ack_means texts (after x) p y.window has),
          ))
