-- ===== src/Rtp/Channel/Selective.antt =====
-- `sendMessageOpt` and `recvMessageOpt` over the channel.
use native.Mathlib.Decide.{dec_lt}
use networking_labs.Prelude.{
  ℕ, ◌+◌, ◌^◌, ◌<◌, ◌≡◌, refl, List, ◌++◌, none, some, Bool, true, false, arith, length, ◌*◌,
}
use networking_labs.Rtp.Receiver.{Arrival, recv_message_opt}
use networking_labs.Rtp.Receiver.Rounds.{answer, timed-Has}
use networking_labs.Rtp.Receiver.Origins.{Has-accept, init_message_empty}
use networking_labs.Rtp.Receiver.Deliver.{Has, passed}
use networking_labs.Rtp.Receiver.Window.{init_message-Window, Has-first}
use networking_labs.Rtp.Sender.{Sender, Event, Turn, start_message, send_message_opt}
use networking_labs.Rtp.Sender.Clock.{TimeVal}
use networking_labs.Rtp.Sender.Invariant.{start_message-Sending}
use networking_labs.Rtp.Sender.Marks.{Marks}
use networking_labs.Rtp.Sender.Selective.{send_message_opt-IsTurn}
use networking_labs.Rtp.Sender.Selective.Moves.{send_message_opt-Moves}
use networking_labs.Rtp.Channel.{Arrives, System, Reach, start}
use networking_labs.Rtp.Channel.Protocol.{Protocol}
use networking_labs.Rtp.Channel.Protocol.Answered.{Progress, IsAnswered}
use networking_labs.Rtp.Channel.Protocol.Ending.{run_to_end}
use networking_labs.Rtp.Channel.Protocol.Coherence.{Coherent, sender_turn}
use networking_labs.Rtp.Channel.Protocol.Runs.{
  run-Coherent, Coherent-written, Coherent-done, Coherent-silent,
}

later-Marks :
    {Got More : ℕ → Type 0} {w : ℕ} {s : Sender}
    → ((i : ℕ) → Got i → More i)
    → Marks Got w s
    → Marks More w s
later-Marks keeps m = record {
  narrow = m.narrow;
  window = m.window;
  ring = m.ring;
  below = λ i h. keeps i (m.below i h);
  marked = λ i lo hi e. keeps i (m.marked i lo hi e);
}

pub protocol :
    (message : List ℕ) (w : ℕ) → Protocol message w send_message_opt (λ r p. p.rtp.seq_num)
protocol message w = record {
  Means = Has;
  Agrees = λ r s. Marks (Has r) w s;
  means_later = λ r t further keeps n h. keeps n h;
  agrees_later = λ r t further keeps s m. later-Marks keeps m;
  ack_means = λ texts r p v has. has;
  ack_fits = λ texts r p v h. omega (arith, v.moving.small);
  turns = λ r s e v u m meant. send_message_opt-IsTurn message w (Has r) s e v m meant;
  behind = λ texts r s v m. elim (dec_lt r.firstneedrecv s.base) [
    | yes lt ↦ absurd (Has-first v (m.below r.firstneedrecv lt))
    | no ge ↦ omega arith
  ];
}

-- What the sender believes of a receiver is its marks.
pub agreed :
    (message : List ℕ) (w : ℕ) (s : System)
    → Coherent (protocol message w) s
    → Marks (Has s.receiver) w s.sender
unfolding protocol
agreed message w s c = c.agrees

-- An ACK names one packet, so a packet that is there has been answered by its own.
progress : (message : List ℕ) (w : ℕ) → Progress (protocol message w)
unfolding protocol
progress message w = record {
  Known = Has;
  Confirms = λ n i. n ≡ i;
  known_passed = λ r i h. passed h;
  known_timed = λ r now i h. timed-Has r.timer i h;
  known_accept = λ texts r p v text lo hi i h. Has-accept v p text lo hi i h;
  moves = λ r s e v u m meant. send_message_opt-Moves message w (Has r) s e v m meant;
}

module _ (message : List ℕ) (w : ℕ) (acked : List Bool) (sent_from : TimeVal) (now : ℕ)
    (positive : 0 < w) (narrow : w < 2 ^ 31) (small : length message + w < 2 ^ 32)
    (ring : length acked ≡ 2 * w) where
  start-Coherent : Coherent (protocol message w) (start w message acked sent_from now)
  unfolding start_message protocol
  start-Coherent = record {
    sending = start_message-Sending w message acked sent_from positive small;
    receiving = init_message-Window _ w now positive narrow (omega arith);
    acks = tt;
    agrees = record {
      narrow = narrow;
      window = refl;
      ring = ring;
      below = λ i h. absurd (omega arith);
      marked = λ i lo hi e. absurd (omega arith);
    };
    ended = λ d. absurd (ground arith);
  }

  pub reach-Coherent :
      (s : System)
      → Reach send_message_opt recv_message_opt (start w message acked sent_from now) s
      → Coherent (protocol message w) s
  unfolding recv_message_opt
  reach-Coherent s run = run-Coherent (protocol message w) _ s start-Coherent run

  -- Over a channel that may lose, delay, repeat and reorder datagrams, in every run of
  -- sendMessageOpt and recvMessageOpt, at any time, what the receiver has written is a beginning
  -- of the file; for a window of 1 to 2^31 - 1 packets and a file whose bytes and the window
  -- together stay below 2^32, with acked of twice the window's length.
  pub send_message_opt_written :
      (s : System)
      → Reach send_message_opt recv_message_opt (start w message acked sent_from now) s
      → (tail : List ℕ) × (s.receiver.file ++ tail ≡ message)
  send_message_opt_written s run = Coherent-written (protocol message w) s (reach-Coherent s run)

  -- Over a channel that may lose, delay, repeat and reorder datagrams, in every run of
  -- sendMessageOpt and recvMessageOpt in which the sender has left its loop, the receiver has
  -- written exactly the file; for a window of 1 to 2^31 - 1 packets and a file whose bytes and the
  -- window together stay below 2^32, with acked of twice the window's length.
  pub send_message_opt_delivered :
      (s : System)
      → Reach send_message_opt recv_message_opt (start w message acked sent_from now) s
      → s.done ≡ true
      → s.receiver.file ≡ message
  send_message_opt_delivered s run = Coherent-done (protocol message w) s (reach-Coherent s run)

  -- In every run of sendMessageOpt and recvMessageOpt, whatever sent ACK arrives, the sender's
  -- next round is done without reaching outside packs; for a window of 1 to 2^31 - 1 packets and a
  -- file whose bytes and the window together stay below 2^32, with acked of twice the window's
  -- length.
  pub send_message_opt_no_fault :
      (s : System) (e : Event)
      → Reach send_message_opt recv_message_opt (start w message acked sent_from now) s
      → Arrives s.acks e.reply
      → (t : Turn) × (send_message_opt s.sender e ≡ some t)
  send_message_opt_no_fault s e run arrives =
      let (t, made, turned) = sender_turn (protocol message w) s e (reach-Coherent s run) arrives in
      (t, made)

  -- In every run of sendMessageOpt and recvMessageOpt, once the receiver has every packet that has
  -- been read, no data packet that arrives makes it send an ACK; for a window of 1 to 2^31 - 1
  -- packets and a file whose bytes and the window together stay below 2^32, with acked of twice
  -- the window's length.
  pub recv_message_opt_silent :
      (s : System) (a : Arrival)
      → Reach send_message_opt recv_message_opt (start w message acked sent_from now) s
      → s.receiver.firstneedrecv ≡ length s.sender.packs
      → Arrives s.sender.sent a.newpack
      → answer (recv_message_opt s.receiver a) ≡ none
  unfolding recv_message_opt
  recv_message_opt_silent s a run full arrives =
      Coherent-silent (protocol message w) s a (reach-Coherent s run) full arrives

  start-IsAnswered : IsAnswered (progress message w) (start w message acked sent_from now)
  unfolding progress
  start-IsAnswered i has = absurd (init_message_empty w now i has)

  -- Where a datagram may be late but is not lost for good, both ends can come to their end.
  send_message_opt_ends :
      (s : System)
      → Reach send_message_opt recv_message_opt (start w message acked sent_from now) s
      → s.closed ≡ false
      → (t : System) × Reach send_message_opt recv_message_opt s t
        × (t.done ≡ true)
        × (t.closed ≡ true)
        × (t.receiver.file ≡ message)
  unfolding recv_message_opt
  send_message_opt_ends s run not_closed =
      run_to_end (progress message w) _ s start-Coherent start-IsAnswered run not_closed
