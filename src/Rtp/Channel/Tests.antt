-- ===== src/Rtp/Channel/Tests.antt =====
-- A file of two bytes over the channel, and the theorems on runs at it.
use networking_labs.Prelude.{
  ℕ, ◌%◌, ◌^◌, ◌<◌, ◌≡◌, refl, List, [], ◌∷◌, ◌++◌, Option, none, some, true, false, arith,
}
use networking_labs.Prelude.Int.{pos, ◌-ℤ◌, ◌+ℤ◌}
use networking_labs.Rtp.Packet.{
  RtpPacket, rtp_packet, rtp_packet_text, rtp_data, fresh_memory, IsPacket, wire,
}
use networking_labs.Rtp.Packet.Build.{rtp_packet-IsPacket, rtp_packet_text-IsPacket}
use networking_labs.Rtp.Wire.RoundTrip.{received, rev_rtp-wire}
use networking_labs.Rtp.Receiver.{
  Receiver, Arrival, next, ack, init_message, deliver, store, accept, outside, on_data, round,
  advance, time_out, recv_message, recv_message_opt,
}
use networking_labs.Rtp.Sender.{
  Sender, Event, Turn, finished, again, start_message, send_message, turn, read_file, push_chunk,
  send_new, send_packet, send_one, resend, receive_ack, send_message_opt, clear_acked, mark_acked,
  slide, receive_ack_opt,
}
use networking_labs.Rtp.Sender
use networking_labs.Rtp.Sender.Clock.{TimeVal, elapsed}
use networking_labs.Rtp.Channel.{
  nothing, comes, System, sends, finishes, receives, Reach, here, later, start,
}
use networking_labs.Rtp.Receiver.Rounds.{answer}
use networking_labs.Rtp.Channel.GoBackN.{
  send_message_written, send_message_delivered, send_message_no_fault, recv_message_silent,
}
use networking_labs.Rtp.Connect
use networking_labs.Rtp.Connect.{Endpoint, returns, init_receiver, init_sender, start_seq}
use networking_labs.Rtp.Channel.Connection.{IsDelivered, connection_delivers}
use networking_labs.Rtp.Channel.Selective.{
  send_message_opt_written, send_message_opt_delivered, recv_message_opt_silent,
}

abbrev message : List ℕ
message = 7 ∷ 8 ∷ []

abbrev noon : TimeVal
noon = record { tv_sec = 100; tv_usec = 0 }

abbrev event : Option RtpPacket → Event
event reply = record {
  sent_at = noon;
  reply = reply;
  replied_at = noon;
  now = noon;
  resent_at = noon;
}

abbrev arrival : Option RtpPacket → Arrival
arrival p = record { newpack = p; at = 100; now = 100 }

abbrev first : RtpPacket
first = rtp_packet fresh_memory rtp_data 2 0 (some message)

abbrev sender_after : Option Turn → Sender → Sender
sender_after none s = s
sender_after (some (finished t)) s = t
sender_after (some (again t)) s = t

abbrev s₀ : System
s₀ = start 1 message (false ∷ false ∷ []) noon 100

abbrev first_sent : Sender
first_sent = record s₀.sender {
  rest = [];
  packs = first ∷ [];
  nextseqnum = 1;
  totseq = 1;
  seq_num = 1;
  sent = first ∷ [];
}

send_first : send_message s₀.sender (event none) ≡ some (again first_sent)
unfolding send_message turn read_file push_chunk send_new send_one send_packet resend
    Sender.time_out receive_ack elapsed start_message ◌-ℤ◌ ◌+ℤ◌
send_first = refl

abbrev heard : RtpPacket
heard = received first

abbrev all_written : Receiver
all_written = record s₀.receiver { firstneedrecv = 1; file = message }

receive_first : recv_message s₀.receiver (arrival (some heard)) ≡ next all_written (some (ack 1))
unfolding recv_message round on_data outside accept store deliver advance time_out init_message
    received rtp_packet
receive_first = refl

all_acked :
    send_message first_sent (event (some (received (ack 1))))
    ≡ some (again (record first_sent { base = 1 }))
unfolding send_message turn read_file push_chunk send_new send_one send_packet resend
    Sender.time_out receive_ack elapsed start_message ◌-ℤ◌ ◌+ℤ◌ received rtp_packet_text
all_acked = refl

no_more :
    send_message (record first_sent { base = 1 }) (event none)
    ≡ some (finished (record first_sent { base = 1 }))
unfolding send_message turn read_file push_chunk send_new send_one send_packet resend
    Sender.time_out receive_ack elapsed start_message ◌-ℤ◌ ◌+ℤ◌
no_more = refl

first_whole : IsPacket first
first_whole =
    (rtp_packet-IsPacket fresh_memory rtp_data 2 0 message (omega arith) (omega arith) (omega arith)
      (omega arith)).0

ack_whole : (n : ℕ) → n < 2 ^ 32 → IsPacket (ack n)
ack_whole n h = (rtp_packet_text-IsPacket fresh_memory 3 (n % 2 ^ 32) (omega arith) (omega arith)).0

abbrev at_end : System
at_end = record s₀ {
  sender = record first_sent { base = 1 };
  receiver = all_written;
  acks = ack 1 ∷ [];
  done = true;
}

-- The file is sent, received and acknowledged, and the sender is done.
run_to_end : Reach send_message recv_message s₀ at_end
run_to_end =
    later
      (later
        (later (later here (sends (event none) refl nothing send_first)) (
          receives (arrival (some heard)) refl (comes 0 [] refl (rev_rtp-wire [] first first_whole))
            receive_first))
        (sends (event (some (received (ack 1)))) refl
          (comes 0 [] refl (rev_rtp-wire [] (ack 1) (ack_whole 1 (omega arith)))) all_acked))
      (finishes (event none) refl nothing no_more)

send_message_delivered_example : at_end.receiver.file ≡ message
send_message_delivered_example =
    send_message_delivered message 1 (false ∷ false ∷ []) noon 100 (omega arith) (omega arith)
      (omega arith) at_end run_to_end refl

-- Before the ACK: all is written, and the sender does not know.
abbrev waiting : System
waiting = record s₀ { sender = first_sent; receiver = all_written; acks = ack 1 ∷ [] }

run_to_waiting : Reach send_message recv_message s₀ waiting
run_to_waiting = later (later here (sends (event none) refl nothing send_first)) (
    receives (arrival (some heard)) refl (comes 0 [] refl (rev_rtp-wire [] first first_whole))
      receive_first)

send_message_written_example : (tail : List ℕ) × (all_written.file ++ tail ≡ message)
send_message_written_example =
    send_message_written message 1 (false ∷ false ∷ []) noon 100 (omega arith) (omega arith)
      (omega arith) waiting run_to_waiting

send_message_no_fault_example :
    (t : Turn) × (send_message first_sent (event (some (received (ack 1)))) ≡ some t)
send_message_no_fault_example =
    send_message_no_fault message 1 (false ∷ false ∷ []) noon 100 (omega arith) (omega arith)
      (omega arith) waiting (event (some (received (ack 1)))) run_to_waiting
      (comes 0 [] refl (rev_rtp-wire [] (ack 1) (ack_whole 1 (omega arith))))

recv_message_silent_example : answer (recv_message all_written (arrival (some heard))) ≡ none
recv_message_silent_example =
    recv_message_silent message 1 (false ∷ false ∷ []) noon 100 (omega arith) (omega arith)
      (omega arith) waiting (arrival (some heard)) run_to_waiting refl
      (comes 0 [] refl (rev_rtp-wire [] first first_whole))

-- The same with `sendMessageOpt` and `recvMessageOpt`.
send_first_opt : send_message_opt s₀.sender (event none) ≡ some (again first_sent)
unfolding send_message_opt turn read_file push_chunk send_new send_one send_packet resend
    Sender.time_out clear_acked mark_acked slide receive_ack_opt elapsed start_message ◌-ℤ◌ ◌+ℤ◌
send_first_opt = refl

receive_first_opt :
    recv_message_opt s₀.receiver (arrival (some heard)) ≡ next all_written (some (ack 0))
unfolding recv_message_opt round on_data outside accept store deliver advance time_out init_message
    received rtp_packet
receive_first_opt = refl

abbrev marked : Sender
marked = record first_sent { base = 1; acked = true ∷ false ∷ [] }

all_acked_opt : send_message_opt first_sent (event (some (received (ack 0)))) ≡ some (again marked)
unfolding send_message_opt turn read_file push_chunk send_new send_one send_packet resend
    Sender.time_out clear_acked mark_acked slide receive_ack_opt elapsed start_message ◌-ℤ◌ ◌+ℤ◌
    received rtp_packet_text
all_acked_opt = refl

no_more_opt : send_message_opt marked (event none) ≡ some (finished marked)
unfolding send_message_opt turn read_file push_chunk send_new send_one send_packet resend
    Sender.time_out clear_acked mark_acked slide receive_ack_opt elapsed start_message ◌-ℤ◌ ◌+ℤ◌
no_more_opt = refl

abbrev waiting_opt : System
waiting_opt = record s₀ { sender = first_sent; receiver = all_written; acks = ack 0 ∷ [] }

run_to_waiting_opt : Reach send_message_opt recv_message_opt s₀ waiting_opt
run_to_waiting_opt = later (later here (sends (event none) refl nothing send_first_opt)) (
    receives (arrival (some heard)) refl (comes 0 [] refl (rev_rtp-wire [] first first_whole))
      receive_first_opt)

abbrev at_end_opt : System
at_end_opt = record waiting_opt { sender = marked; done = true }

run_to_end_opt : Reach send_message_opt recv_message_opt s₀ at_end_opt
run_to_end_opt =
    later
      (later run_to_waiting_opt (
        sends (event (some (received (ack 0)))) refl
          (comes 0 [] refl (rev_rtp-wire [] (ack 0) (ack_whole 0 (omega arith)))) all_acked_opt))
      (finishes (event none) refl nothing no_more_opt)

send_message_opt_delivered_example : at_end_opt.receiver.file ≡ message
send_message_opt_delivered_example =
    send_message_opt_delivered message 1 (false ∷ false ∷ []) noon 100 (omega arith) (omega arith)
      (omega arith) refl at_end_opt run_to_end_opt refl

send_message_opt_written_example : (tail : List ℕ) × (all_written.file ++ tail ≡ message)
send_message_opt_written_example =
    send_message_opt_written message 1 (false ∷ false ∷ []) noon 100 (omega arith) (omega arith)
      (omega arith) refl waiting_opt run_to_waiting_opt

recv_message_opt_silent_example :
    answer (recv_message_opt all_written (arrival (some heard))) ≡ none
recv_message_opt_silent_example =
    recv_message_opt_silent message 1 (false ∷ false ∷ []) noon 100 (omega arith) (omega arith)
      (omega arith) refl waiting_opt (arrival (some heard)) run_to_waiting_opt refl
      (comes 0 [] refl (rev_rtp-wire [] first first_whole))

-- Closed sockets.
abbrev endpoint : Endpoint
endpoint = record { window_size = 0; is_open = false; rcvbuf = []; sent = [] }

connection_delivers_example :
    (a : Endpoint) × (b : Endpoint) × (init_receiver true true 1 endpoint
        (some (wire (networking_labs.Rtp.Connect.start (start_seq 3 5))))
      ≡ returns (pos 0) a)
    × (init_sender true 1 3 5 (pos 11) endpoint (some (wire (ack (start_seq 3 5)))) none
        ≡ returns (pos 0) b)
    × (a.sent ≡ endpoint.sent ++ wire (ack (start_seq 3 5)) ∷ [])
    × (b.sent ≡ endpoint.sent ++ wire (networking_labs.Rtp.Connect.start (start_seq 3 5)) ∷ [])
    × IsDelivered message (false ∷ false ∷ []) noon 100 a b
connection_delivers_example =
    connection_delivers message 1 (false ∷ false ∷ []) noon 100 3 5 (pos 11) endpoint endpoint none
      (omega arith) (omega arith) (omega arith) refl

-- The packet has been sent and lost, and a second is over.
abbrev launched : System
launched = record s₀ { sender = first_sent }

abbrev late_event : Event
late_event = record (event none) { now = record { tv_sec = 101; tv_usec = 0 } }
