-- ===== src/Rtp/Channel/Protocol/Runs.antt =====
-- Every run of the two ends keeps their invariant; what it says of the file that is written.
use mathlib.Core.Option.{some-injective}
use mathlib.Core.List.{append_assoc, append-nil}
use networking_labs.Prelude.{
  ℕ, ◌%◌, ◌^◌, ◌≤◌, ◌≡◌, sym, ap, subst, ◌∙◌, List, [], ◌∷◌, ◌++◌, Option, none, some, true, false,
  arith, get_elem?, get_elem?_lt, length, length-map, take-take, take_of_length_le, take, drop,
  concat,
}
use networking_labs.Rtp.Packet.{
  RtpPacket, IsPacket, content, rtp_end, rtp_packet_text, fresh_memory,
}
use networking_labs.Rtp.Packet.Build.{rtp_packet_text-IsPacket}
use networking_labs.Rtp.Receiver.{Receiver, Arrival, next, stop, round}
use networking_labs.Rtp.Receiver.Rounds.{after, answer, end_round, silent_round}
use networking_labs.Rtp.Receiver.Growth.{concat-take-drop}
use networking_labs.Rtp.Sender.{Sender, Event, Turn, finished, again, con_end}
use networking_labs.Rtp.Sender.Invariant.{texts}
use networking_labs.Rtp.Sender.Turns.{IsTurn, ends, goes_on}
use networking_labs.Rtp.Channel.{
  Arrives, System, Step, sends, finishes, receives, leaves, closes, Reach, here, later,
}
use networking_labs.Rtp.Channel.Arrivals.{Arrives-log}
use networking_labs.Rtp.Channel.Protocol.{Protocol}
use networking_labs.Rtp.Channel.Protocol.Coherence.{
  Coherent, sender_turn, sender-Coherent, timed-Coherent, round-Coherent, length-sent_texts,
  genuine,
}

-- Only the end of the connection, or nothing, arrives after the sender has left its loop.
pub ending :
    (s : Sender) (a : Arrival)
    → Arrives (con_end s ∷ []) a.newpack
    → (q : RtpPacket) → a.newpack ≡ some q
    → q.rtp.type ≡ rtp_end
unfolding con_end rtp_packet_text
ending s a arrives q came =
    let whole : (i : ℕ) (p : RtpPacket) → get_elem? (con_end s ∷ []) i ≡ some p → IsPacket p =
      λ i p h.
        subst IsPacket (only i p h)
          (rtp_packet_text-IsPacket fresh_memory rtp_end (length s.packs % 2 ^ 32) (omega arith)
            (omega arith)).0 in
    let (i, p, sent, same, text) = Arrives-log q whole arrives came in
    ap (λ x. x.type) same ∙ ap (λ x. x.rtp.type) (sym (only i p sent))
  where
    only : (i : ℕ) (p : RtpPacket) → get_elem? (con_end s ∷ []) i ≡ some p → con_end s ≡ p
    only i p h = ground arith

module _ {message : List ℕ} {w : ℕ} {send : Sender → Event → Option Turn}
    {ack_seq : Receiver → RtpPacket → ℕ} (proto : Protocol message w send ack_seq) where
  turn-Coherent :
      (s : System) (e : Event) (x : Turn)
      → Coherent proto s
      → Arrives s.acks e.reply
      → send s.sender e ≡ some x
      → IsTurn message w s.sender (proto.Agrees s.receiver) (proto.Agrees s.receiver) x
  turn-Coherent s e x c arrives came =
      let (t, made, turned) = sender_turn proto s e c arrives in
      subst (IsTurn message w s.sender (proto.Agrees s.receiver) (proto.Agrees s.receiver))
        (some-injective _ _ (sym made ∙ came)) turned

  finished-Coherent :
      (s : System) (t : Sender)
      → Coherent proto s
      → IsTurn message w s.sender (proto.Agrees s.receiver) (proto.Agrees s.receiver) (finished t)
      → Coherent proto (record s { sender = t; done = true })
  finished-Coherent s t c (ends v grows agrees all_acked at_end) =
      sender-Coherent proto s t true c v grows agrees λ d. (all_acked, at_end)

  again-Coherent :
      (s : System) (t : Sender)
      → Coherent proto s
      → s.done ≡ false
      → IsTurn message w s.sender (proto.Agrees s.receiver) (proto.Agrees s.receiver) (again t)
      → Coherent proto (record s { sender = t })
  again-Coherent s t c busy (goes_on v grows agrees all_sent unacked) =
      sender-Coherent proto s t s.done c v grows agrees λ d. absurd (ground arith)

  Step-Coherent :
      (s t : System) → Coherent proto s → Step send (round ack_seq) s t → Coherent proto t
  Step-Coherent s t c (sends e {t = u} busy arrives came) =
      again-Coherent s u c busy (turn-Coherent s e (again u) c arrives came)
  Step-Coherent s t c (finishes e {t = u} busy arrives came) =
      finished-Coherent s u c (turn-Coherent s e (finished u) c arrives came)
  Step-Coherent s t c (receives a {r} {out} on arrives came) =
      round-Coherent proto s a (next r out) s.closed c arrives came
  Step-Coherent s t c (leaves a {r} {out} on arrives came) =
      round-Coherent proto s a (stop r out) true c arrives came
  Step-Coherent s t c (closes a {r} {out} done on arrives came) =
      let (now, noted) = end_round ack_seq s.receiver a (ending s.sender a arrives) in
      let same : record s.receiver { timer = now } ≡ r = sym noted ∙ ap after came in
      subst (λ x. Coherent proto (record s { receiver = x; closed = true })) same
        (timed-Coherent proto s now true c)

  pub run-Coherent :
      (s t : System) → Coherent proto s → Reach send (round ack_seq) s t → Coherent proto t
  run-Coherent s t c here = c
  run-Coherent s t c (later {t = u} run step) = Step-Coherent u t (run-Coherent s u c run) step

  -- What has been written is the file as far as it goes.
  pub Coherent-written :
      (s : System) → Coherent proto s → (tail : List ℕ) × (s.receiver.file ++ tail ≡ message)
  Coherent-written s c =
      let n = s.receiver.firstneedrecv in
      let all = texts s.sender in
      let short : n ≤ s.sender.nextseqnum =
        omega (arith, c.receiving.moving.within, length-sent_texts proto c.sending) in
      (
        concat (drop n all) ++ s.sender.rest,
        ap (λ l. l ++ (concat (drop n all) ++ s.sender.rest))
              (c.receiving.moving.written ∙ ap concat (take-take n s.sender.nextseqnum all short))
            ∙ sym (append_assoc (concat (take n all)) (concat (drop n all)) s.sender.rest)
            ∙ ap (λ l. l ++ s.sender.rest) (concat-take-drop n all)
            ∙ c.sending.cut,
      )

  -- Once the sender has left its loop, it is the whole file.
  pub Coherent-done : (s : System) → Coherent proto s → s.done ≡ true → s.receiver.file ≡ message
  Coherent-done s c done =
      let n = s.receiver.firstneedrecv in
      let all = texts s.sender in
      let (acked, at_end) = c.ended done in
      let behind = proto.behind _ s.receiver s.sender c.receiving c.agrees in
      let short : n ≤ s.sender.nextseqnum =
        omega (arith, c.receiving.moving.within, length-sent_texts proto c.sending) in
      c.receiving.moving.written
      ∙ ap concat (take-take n s.sender.nextseqnum all short)
      ∙ ap concat (
          take_of_length_le n all (omega (arith, length-map s.sender.packs content, acked, behind)))
      ∙ sym (append-nil (concat all))
      ∙ ap (λ l. concat all ++ l) (sym at_end)
      ∙ c.sending.cut

  -- Once the receiver has everything, nothing that the sender has sent makes it send an ACK.
  pub Coherent-silent :
      (s : System) (a : Arrival)
      → Coherent proto s
      → s.receiver.firstneedrecv ≡ length s.sender.packs
      → Arrives s.sender.sent a.newpack
      → answer (round ack_seq s.receiver a) ≡ none
  Coherent-silent s a c full arrives = silent_round ack_seq s.receiver a λ p came.
      let (of_data, text) = genuine proto s a c arrives p came in
      (
        of_data,
        omega (
          arith,
          get_elem?_lt _ p.rtp.seq_num text,
          full,
          c.sending.sent_read,
          length-sent_texts proto c.sending,
        ),
      )
