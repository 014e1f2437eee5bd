-- ===== src/Rtp/Channel/GoBackN.antt =====
-- `sendMessage` and `recvMessage` over the channel.
use mathlib.Core.Option.{some-injective}
use networking_labs.Prelude.{
  ℕ, ◌+◌, ◌^◌, ◌≤◌, ◌<◌, ◌≡◌, refl, ap, List, ◌++◌, Option, none, some, Bool, true, false, arith,
  length, length-map, length-take_of_le, ◌&&◌, ltb, ◌==◌, inl, inr, Bool-cases,
}
use networking_labs.Rtp.Packet.{RtpPacket, content, rtp_ack}
use networking_labs.Rtp.Receiver.{Receiver, Arrival, init_message, recv_message}
use networking_labs.Rtp.Receiver.Rounds.{answer}
use networking_labs.Rtp.Receiver.Window.{Window, init_message-Window}
use networking_labs.Rtp.Sender.{Sender, Event, Turn, start_message, send_message}
use networking_labs.Rtp.Sender.Clock.{TimeVal}
use networking_labs.Rtp.Sender.Invariant.{Sending, texts, sent_texts, start_message-Sending}
use networking_labs.Rtp.Sender.Turns.{IsTurn, IsTurn-map}
use networking_labs.Rtp.Sender.GoBackN.{acked_to, send_message-IsTurn}
use networking_labs.Rtp.Channel.{Arrives, System, Reach, start}
use networking_labs.Rtp.Channel.Protocol.{Protocol}
use networking_labs.Rtp.Channel.Protocol.Answered.{Progress, IsAnswered}
use networking_labs.Rtp.Channel.Protocol.Ending.{run_to_end}
use networking_labs.Rtp.Channel.Protocol.Coherence.{Coherent, sender_turn}
use networking_labs.Rtp.Channel.Protocol.Runs.{
  run-Coherent, Coherent-written, Coherent-done, Coherent-silent,
}

-- The cumulative ACK that has been heard is not beyond the receiver, so what it acknowledges has
-- been sent.
acked_to_sent :
    (r : Receiver) (s : Sender) (reply : Option RtpPacket)
    → s.base ≤ r.firstneedrecv
    → ((ack : RtpPacket)
        → reply ≡ some ack
        → ack.rtp.type ≡ rtp_ack
        → ack.rtp.seq_num ≤ r.firstneedrecv)
    → acked_to s.base reply ≤ r.firstneedrecv
acked_to_sent r s none behind meant = behind
acked_to_sent r s (some ack) behind meant =
    elim (Bool-cases (ack.rtp.type == rtp_ack && ltb s.base ack.rtp.seq_num)) [
      | inl moves ↦
          let of_ack : ack.rtp.type ≡ rtp_ack = ground arith in rw moves (meant ack refl of_ack)
      | inr stays ↦ rw stays behind
    ]

-- A round of the sender that hears such an ACK.
hearing_turn :
    {message : List ℕ} {w : ℕ} (r : Receiver) (s : Sender) (e : Event)
    → Sending message w s
    → Window (sent_texts s) w r
    → s.base ≤ r.firstneedrecv
    → ((ack : RtpPacket)
        → e.reply ≡ some ack
        → ack.rtp.type ≡ rtp_ack
        → ack.rtp.seq_num ≤ r.firstneedrecv)
    → (acked_to s.base e.reply ≤ r.firstneedrecv)
      × (t : Turn) × (send_message s e ≡ some t)
      × IsTurn message w s (λ t. t.base ≡ s.base) (λ t. t.base ≡ acked_to s.base e.reply) t
hearing_turn {message} {w} r s e v u agrees meant =
    let bound = acked_to_sent r s e.reply agrees meant in
    let sent =
      length-take_of_le s.nextseqnum (texts s)
        (omega (arith, length-map s.packs content, v.sent_read)) in
    let (t, made, turned) =
      send_message-IsTurn message w s e v (omega (arith, bound, u.moving.within, sent)) in
    (bound, t, made, turned)

pub protocol : (message : List ℕ) (w : ℕ) → Protocol message w send_message (λ r p. r.firstneedrecv)
protocol message w = record {
  Means = λ r n. n ≤ r.firstneedrecv;
  Agrees = λ r s. s.base ≤ r.firstneedrecv;
  means_later = λ r t further keeps n h. omega arith;
  agrees_later = λ r t further keeps s h. omega arith;
  ack_means = λ texts r p v has. omega arith;
  ack_fits = λ texts r p v h. omega (arith, v.moving.within, v.moving.small);
  turns = λ r s e v u agrees meant.
      let (bound, t, made, turned) = hearing_turn r s e v u agrees meant in
      (
        t,
        made,
        IsTurn-map (λ t. t.base ≡ s.base) (λ t. t.base ≤ r.firstneedrecv)
            (λ t. t.base ≡ acked_to s.base e.reply) (λ t. t.base ≤ r.firstneedrecv) t
            (λ u h. omega arith) (λ u h. omega (arith, bound)) turned,
      );
  behind = λ texts r s v h. h;
}

-- An ACK does not move the window back, and one beyond the window's first packet moves it on.
acked_to_further :
    (base : ℕ) (reply : Option RtpPacket)
    → (base ≤ acked_to base reply)
      × ((ack : RtpPacket)
          → reply ≡ some ack
          → ack.rtp.type ≡ rtp_ack
          → base < ack.rtp.seq_num
          → base < acked_to base reply)
acked_to_further base none = (omega arith, λ ack came. cc)
acked_to_further base (some q) = (
  ground arith,
  λ ack came of_ack on.
      let same : q ≡ ack = some-injective _ _ came in
      let number : q.rtp.seq_num ≡ ack.rtp.seq_num = ap (λ x. x.rtp.seq_num) same in
      let type : q.rtp.type ≡ ack.rtp.type = ap (λ x. x.rtp.type) same in ground arith,
)

progress : (message : List ℕ) (w : ℕ) → Progress (protocol message w)
unfolding protocol
progress message w = record {
  Known = λ r i. i < r.firstneedrecv;
  Confirms = λ n i. i < n;
  known_passed = λ r i h. h;
  known_timed = λ r now i h. h;
  known_accept = λ texts r p v text lo hi i h. inr h;
  moves = λ r s e v u agrees meant.
      let (bound, t, made, turned) = hearing_turn r s e v u agrees meant in
      (
        t,
        made,
        IsTurn-map _ _ _ _ t (λ u h. tt)
            (λ u h. (
              omega (arith, (acked_to_further s.base e.reply).0),
              λ ack came of_ack on.
                  omega (arith, (acked_to_further s.base e.reply).1 ack came of_ack on),
            ))
            turned,
      );
}

module _ (message : List ℕ) (w : ℕ) (acked : List Bool) (sent_from : TimeVal) (now : ℕ)
    (positive : 0 < w) (narrow : w < 2 ^ 31) (small : length message + w < 2 ^ 32) where
  start-Coherent : Coherent (protocol message w) (start w message acked sent_from now)
  unfolding start_message protocol
  start-Coherent = record {
    sending = start_message-Sending w message acked sent_from positive small;
    receiving = init_message-Window _ w now positive narrow (omega arith);
    acks = tt;
    agrees = omega arith;
    ended = λ d. absurd (ground arith);
  }

  pub reach-Coherent :
      (s : System)
      → Reach send_message recv_message (start w message acked sent_from now) s
      → Coherent (protocol message w) s
  unfolding recv_message
  reach-Coherent s run = run-Coherent (protocol message w) _ s start-Coherent run

  -- Over a channel that may lose, delay, repeat and reorder datagrams, in every run of sendMessage
  -- and recvMessage, at any time, what the receiver has written is a beginning of the file; for a
  -- window of 1 to 2^31 - 1 packets and a file whose bytes and the window together stay below
  -- 2^32.
  pub send_message_written :
      (s : System)
      → Reach send_message recv_message (start w message acked sent_from now) s
      → (tail : List ℕ) × (s.receiver.file ++ tail ≡ message)
  send_message_written s run = Coherent-written (protocol message w) s (reach-Coherent s run)

  -- Over a channel that may lose, delay, repeat and reorder datagrams, in every run of sendMessage
  -- and recvMessage in which the sender has left its loop, the receiver has written exactly the
  -- file; for a window of 1 to 2^31 - 1 packets and a file whose bytes and the window together
  -- stay below 2^32.
  pub send_message_delivered :
      (s : System)
      → Reach send_message recv_message (start w message acked sent_from now) s
      → s.done ≡ true
      → s.receiver.file ≡ message
  send_message_delivered s run = Coherent-done (protocol message w) s (reach-Coherent s run)

  -- In every run of sendMessage and recvMessage, whatever sent ACK arrives, the sender's next
  -- round is done without reaching outside packs; for a window of 1 to 2^31 - 1 packets and a file
  -- whose bytes and the window together stay below 2^32.
  pub send_message_no_fault :
      (s : System) (e : Event)
      → Reach send_message recv_message (start w message acked sent_from now) s
      → Arrives s.acks e.reply
      → (t : Turn) × (send_message s.sender e ≡ some t)
  send_message_no_fault s e run arrives =
      let (t, made, turned) = sender_turn (protocol message w) s e (reach-Coherent s run) arrives in
      (t, made)

  -- In every run of sendMessage and recvMessage, once the receiver has every packet that has been
  -- read, no data packet that arrives makes it send an ACK; for a window of 1 to 2^31 - 1 packets
  -- and a file whose bytes and the window together stay below 2^32.
  pub recv_message_silent :
      (s : System) (a : Arrival)
      → Reach send_message recv_message (start w message acked sent_from now) s
      → s.receiver.firstneedrecv ≡ length s.sender.packs
      → Arrives s.sender.sent a.newpack
      → answer (recv_message s.receiver a) ≡ none
  unfolding recv_message
  recv_message_silent s a run full arrives =
      Coherent-silent (protocol message w) s a (reach-Coherent s run) full arrives

  start-IsAnswered : IsAnswered (progress message w) (start w message acked sent_from now)
  unfolding progress init_message
  start-IsAnswered i known = absurd (omega arith)

  -- Where a datagram may be late but is not lost for good, both ends can come to their end.
  pub send_message_ends :
      (s : System)
      → Reach send_message recv_message (start w message acked sent_from now) s
      → s.closed ≡ false
      → (t : System) × Reach send_message recv_message s t
        × (t.done ≡ true)
        × (t.closed ≡ true)
        × (t.receiver.file ≡ message)
  unfolding recv_message
  send_message_ends s run not_closed =
      run_to_end (progress message w) _ s start-Coherent start-IsAnswered run not_closed
