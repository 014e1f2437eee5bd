-- ===== src/Rtp/Channel/Protocol/Answered.antt =====
-- The ACKs of the two ends: none of those that the sender needs is missing among those sent.
use networking_labs.Prelude.{
  ℕ, ◌+◌, ◌^◌, ◌≤◌, ◌<◌, ◌≡◌, sym, ap, subst, ◌∙◌, ◌⊎◌, inl, inr, List, [], ◌∷◌, ◌++◌, Option, some,
  arith, get_elem?, get_elem?_lt, get_elem?-append, get_elem?-append_last, length,
}
use networking_labs.Rtp.Packet.{RtpPacket, content, rtp_ack, rtp_packet_text}
use networking_labs.Rtp.Receiver.{Receiver, Arrival, Round, next, stop, ack, accept, round}
use networking_labs.Rtp.Receiver.Window.{Window, accept-Window}
use networking_labs.Rtp.Receiver.Rounds.{after, answer, end_round, timed-Window}
use networking_labs.Rtp.Receiver.Answers.{Takes, idle, takes, round-Takes}
use networking_labs.Rtp.Sender.{Sender, Event, Turn}
use networking_labs.Rtp.Sender.Invariant.{Sending, sent_texts}
use networking_labs.Rtp.Sender.Turns.{IsTurn}
use networking_labs.Rtp.Channel.{
  Arrives, System, Step, sends, finishes, receives, leaves, closes, Reach, here, later, log_ack,
}
use networking_labs.Rtp.Channel.Protocol.{Protocol}
use networking_labs.Rtp.Channel.Protocol.Coherence.{Coherent, genuine}
use networking_labs.Rtp.Channel.Protocol.Runs.{ending, run-Coherent}

-- What makes a pair of loops go on: `Known r i` where the receiver has answered packet i,
-- `Confirms n i` where an ACK with number n makes a sender whose window begins at i move on.
pub record Progress {message : List ℕ} {w : ℕ} {send : Sender → Event → Option Turn}
    {ack_seq : Receiver → RtpPacket → ℕ} (proto : Protocol message w send ack_seq) : Type 1 where
  pub Known : Receiver → ℕ → Type 0
  pub Confirms : ℕ → ℕ → Type 0
  pub known_passed : (r : Receiver) (i : ℕ) → i < r.firstneedrecv → Known r i
  pub known_timed : (r : Receiver) (now i : ℕ) → Known (record r { timer = now }) i → Known r i
  pub known_accept :
      (texts : List (List ℕ)) (r : Receiver) (p : RtpPacket)
      → Window texts w r
      → get_elem? texts p.rtp.seq_num ≡ some (content p)
      → r.firstneedrecv ≤ p.rtp.seq_num
      → p.rtp.seq_num < r.firstneedrecv + w
      → (i : ℕ) → Known (accept r p) i
      → Known r i ⊎ Confirms (ack_seq (accept r p) p) i
  pub moves :
      (r : Receiver) (s : Sender) (e : Event)
      → Sending message w s
      → Window (sent_texts s) w r
      → proto.Agrees r s
      → ((ack : RtpPacket)
          → e.reply ≡ some ack
          → ack.rtp.type ≡ rtp_ack
          → proto.Means r ack.rtp.seq_num)
      → (t : Turn) × (send s e ≡ some t)
        × IsTurn message w s
            (λ u. Unit)
            (λ u.
              (s.base ≤ u.base)
              × ((ack : RtpPacket)
                  → e.reply ≡ some ack
                  → ack.rtp.type ≡ rtp_ack
                  → Confirms ack.rtp.seq_num s.base
                  → s.base < u.base))
            t

module _ {message : List ℕ} {w : ℕ} {send : Sender → Event → Option Turn}
    {ack_seq : Receiver → RtpPacket → ℕ} {proto : Protocol message w send ack_seq}
    (go : Progress proto) where
  -- An ACK that confirms packet i has been sent.
  abbrev Confirmed : List RtpPacket → ℕ → Type 0
  Confirmed acks i =
      (k : ℕ) × (q : RtpPacket) × (get_elem? acks k ≡ some q) × go.Confirms q.rtp.seq_num i

  -- Every packet that the receiver has answered has its ACK among those sent.
  abbrev pub IsAnswered : System → Type 0
  IsAnswered s = (i : ℕ) → go.Known s.receiver i → Confirmed s.acks i

  old_ack :
      (acks : List RtpPacket) (q : RtpPacket) (i : ℕ)
      → Confirmed acks i
      → Confirmed (acks ++ q ∷ []) i
  old_ack acks q i (k, a, there, means) = (k, a, get_elem?-append acks (q ∷ []) k there, means)

  new_ack :
      (acks : List RtpPacket) (n i : ℕ)
      → n < 2 ^ 32
      → go.Confirms n i
      → Confirmed (acks ++ ack n ∷ []) i
  unfolding rtp_packet_text
  new_ack acks n i small means = (
    length acks,
    ack n,
    get_elem?-append_last acks (ack n),
    subst (λ (m : ℕ). go.Confirms m i) (omega arith) means,
  )

  -- The ACK for a packet that is taken in confirms whatever has not been confirmed before.
  accept-Confirmed :
      (texts : List (List ℕ)) (acks : List RtpPacket) (t : Receiver) (p : RtpPacket)
      → Window texts w t
      → get_elem? texts p.rtp.seq_num ≡ some (content p)
      → t.firstneedrecv ≤ p.rtp.seq_num
      → p.rtp.seq_num < t.firstneedrecv + w
      → (i : ℕ) → (go.Known t i → Confirmed acks i)
      → go.Known (accept t p) i
      → Confirmed (acks ++ ack (ack_seq (accept t p) p) ∷ []) i
  accept-Confirmed texts acks t p v text lo hi i old known =
      elim (go.known_accept texts t p v text lo hi i known) [
        | inl before ↦ old_ack acks _ i (old before)
        | inr means ↦
            let v' = (accept-Window v p text lo hi).0 in
            new_ack acks _ i
              (proto.ack_fits texts (accept t p) p v' (get_elem?_lt texts p.rtp.seq_num text)) means
      ]

  round-IsAnswered :
      (s : System) (a : Arrival) (x : Round)
      → Coherent proto s
      → IsAnswered s
      → Arrives s.sender.sent a.newpack
      → round ack_seq s.receiver a ≡ x
      → (i : ℕ) → go.Known (after x) i
      → Confirmed (log_ack s.acks (answer x)) i
  round-IsAnswered s a x c answered arrives e = shown (
      subst (Takes (sent_texts s.sender) ack_seq s.receiver) e
        (round-Takes ack_seq s.receiver a c.receiving (genuine proto s a c arrives)))
    where
      shown :
          Takes (sent_texts s.sender) ack_seq s.receiver x
          → (i : ℕ) → go.Known (after x) i
          → Confirmed (log_ack s.acks (answer x)) i
      shown (idle now same silent) i known =
          rw silent
            (answered i (go.known_timed s.receiver now i (subst (λ r. go.Known r i) same known)))
      shown (takes p now t timed text lo hi same out) i known =
          let v : Window (sent_texts s.sender) w t =
            subst (Window (sent_texts s.sender) w) (sym timed) (timed-Window now c.receiving) in
          rw out (
            accept-Confirmed (sent_texts s.sender) s.acks t p v text lo
              (omega (arith, v.moving.window)) i
              (λ k.
                answered i (go.known_timed s.receiver now i (subst (λ r. go.Known r i) timed k)))
              (subst (λ r. go.Known r i) same known))

  pub Step-IsAnswered :
      (s t : System)
      → Coherent proto s
      → IsAnswered s
      → Step send (round ack_seq) s t
      → IsAnswered t
  Step-IsAnswered s t c answered (sends e busy arrives came) = answered
  Step-IsAnswered s t c answered (finishes e busy arrives came) = answered
  Step-IsAnswered s t c answered (receives a {r} {out} on arrives came) =
      round-IsAnswered s a (next r out) c answered arrives came
  Step-IsAnswered s t c answered (leaves a {r} {out} on arrives came) =
      round-IsAnswered s a (stop r out) c answered arrives came
  Step-IsAnswered s t c answered (closes a {r} {out} done on arrives came) = λ i known.
      let (now, noted) = end_round ack_seq s.receiver a (ending s.sender a arrives) in
      let same : r ≡ record s.receiver { timer = now } = sym (ap after came) ∙ noted in
      answered i (go.known_timed s.receiver now i (subst (λ r. go.Known r i) same known))

  -- In every run all ACKs that the sender may need have been sent.
  pub run-IsAnswered :
      (s t : System)
      → Coherent proto s
      → IsAnswered s
      → Reach send (round ack_seq) s t
      → IsAnswered t
  run-IsAnswered s t c answered here = answered
  run-IsAnswered s t c answered (later {t = u} run step) =
      Step-IsAnswered u t (run-Coherent proto s u c run) (run-IsAnswered s u c answered run) step
