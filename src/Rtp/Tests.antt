-- ===== src/Rtp/Tests.antt =====
-- The theorems on packets, the receiver and the sender at concrete inputs.
use networking_labs.Prelude.{
  ℕ, ◌+◌, ◌*◌, ◌<◌, ◌≤◌, length, ◌≡◌, refl, List, [], ◌∷◌, none, some, true, false, arith,
}
use networking_labs.Rtp.Packet.{RtpPacket, IsPacket, content, wire, rtp_packet, fresh_memory}
use networking_labs.Rtp.Packet.Build.{rtp_packet-IsPacket}
use networking_labs.Rtp.Wire.{rev_rtp, got}
use networking_labs.Rtp.Wire.RoundTrip.{received, rev_rtp-wire}
use networking_labs.Prelude.Int.{pos}
use networking_labs.Rtp.Receiver.{ack, Receiver, init_message, round}
use networking_labs.Rtp.Receiver.Window.{Window, init_message-Window}
use networking_labs.Rtp.Receiver.Rounds.{IsRound, round-IsRound}
use networking_labs.Rtp.Sender.{
  Sender, Event, Turn, again, start_message, read_file, read_ahead, send_message, send_message_opt,
}
use networking_labs.Rtp.Sender.Clock.{TimeVal, elapsed, elapsed_bounds}
use networking_labs.Rtp.Sender.Invariant.{
  Sending, Extends, IsRead, start_message-Sending, read_file-Sending,
}
use networking_labs.Rtp.Connect.{Endpoint, start_seq, init_receiver, init_sender}
use networking_labs.Rtp.Connect.Handshake.{IsConcluded, init-IsConcluded, ack-IsPacket}
use networking_labs.Rtp.Connect.Late.{late_start_ack}
use networking_labs.Rtp.Sender.Turns.{IsTurn}
use networking_labs.Rtp.Sender.GoBackN.{acked_to, send_message-IsTurn}
use networking_labs.Rtp.Sender.Marks.{Marks}
use networking_labs.Rtp.Sender.Selective.{send_message_opt-IsTurn}

abbrev message : List ℕ
message = 7 ∷ 8 ∷ []

abbrev packet : RtpPacket
packet = rtp_packet fresh_memory 2 2 0 (some message)

data_whole : IsPacket packet × (content packet ≡ message)
data_whole =
    rtp_packet-IsPacket fresh_memory 2 2 0 message (omega arith) (omega arith) (omega arith)
      (omega arith)

abbrev noon : TimeVal
noon = record { tv_sec = 100; tv_usec = 900000 }

abbrev later : TimeVal
later = record { tv_sec = 101; tv_usec = 50000 }

abbrev s₀ : Sender
s₀ = start_message 1 message (false ∷ false ∷ []) noon

abbrev quiet : Event
quiet = record { sent_at = noon; reply = none; replied_at = noon; now = later; resent_at = later }

s₀-Sending : Sending message 1 s₀
s₀-Sending = start_message-Sending 1 message (false ∷ false ∷ []) noon (omega arith) (omega arith)

abbrev r₀ : Receiver
r₀ = init_message 1 100

r₀-Window : Window (message ∷ []) 1 r₀
r₀-Window = init_message-Window (message ∷ []) 1 100 (omega arith) (omega arith) (omega arith)

rev_rtp-wire_example : (rev_rtp (1 ∷ 2 ∷ []) (some (wire packet))).1 ≡ got (received packet)
rev_rtp-wire_example = rev_rtp-wire (1 ∷ 2 ∷ []) packet data_whole.0

round-IsRound_example :
    IsRound
      (message ∷ [])
      1
      (λ r p. r.firstneedrecv)
      r₀
      (round (λ r p. r.firstneedrecv) r₀ (record { newpack = some packet; at = 101; now = 101 }))
unfolding rtp_packet
round-IsRound_example =
    round-IsRound (λ r p. r.firstneedrecv) r₀
      (record { newpack = some packet; at = 101; now = 101 })
      (λ t p v h. omega (arith, v.moving.within, v.moving.small)) r₀-Window
      λ p came. (ground arith, ground arith)

read_file-Sending_example :
    Sending message 1 (read_file 3 s₀) × Extends s₀ (read_file 3 s₀) × IsRead 1 (read_file 3 s₀)
unfolding start_message
read_file-Sending_example = read_file-Sending 3 s₀ s₀-Sending (omega arith)

elapsed_bounds_example :
    (elapsed noon later * 1000 < 150000 + 1000) × (150000 < elapsed noon later * 1000 + 1000)
elapsed_bounds_example =
    elapsed_bounds noon later (omega arith) (omega arith) (omega arith) (omega arith)

send_message-IsTurn_example :
    (t : Turn) × (send_message s₀ quiet ≡ some t)
    × IsTurn message 1 s₀ (λ t. t.base ≡ s₀.base) (λ t. t.base ≡ acked_to s₀.base none) t
unfolding start_message
send_message-IsTurn_example = send_message-IsTurn message 1 s₀ quiet s₀-Sending (omega arith)

none_acked : Marks (λ n. ⊥) 1 s₀
unfolding start_message
none_acked = record {
  narrow = omega arith;
  window = refl;
  ring = refl;
  below = λ i h. absurd (omega arith);
  marked = λ i lo hi e. absurd (omega arith);
}

send_message_opt-IsTurn_example :
    (t : Turn) × (send_message_opt s₀ quiet ≡ some t)
    × IsTurn message 1 s₀ (Marks (λ n. ⊥) 1) (Marks (λ n. ⊥) 1) t
send_message_opt-IsTurn_example =
    send_message_opt-IsTurn message 1 (λ n. ⊥) s₀ quiet s₀-Sending none_acked
      λ ack came. absurd (ground arith)

abbrev endpoint : Endpoint
endpoint = record { window_size = 0; is_open = false; rcvbuf = []; sent = [] }

-- Nothing arrives.
init-IsConcluded_example :
    IsConcluded (init_receiver true true 4 endpoint none)
    × IsConcluded (init_sender true 4 3 5 (pos 11) endpoint none none)
init-IsConcluded_example = init-IsConcluded true true 4 3 5 (pos 11) endpoint none none

-- The ACK of START, number 15, once more.
abbrev once_more : Event
once_more = record quiet { reply = some (received (ack (start_seq 3 5))) }

late_start_ack_example :
    (start_seq 3 5 ≤ length (read_ahead s₀).packs
      → (t : Sender) × (send_message s₀ once_more ≡ some (again t)) × (t.base ≡ start_seq 3 5))
    × (length (read_ahead s₀).packs < start_seq 3 5 → send_message s₀ once_more ≡ none)
late_start_ack_example =
    late_start_ack message 1 3 5 (false ∷ false ∷ []) noon once_more []
      (received (ack (start_seq 3 5))) (omega arith) (omega arith) (omega arith)
      (rev_rtp-wire [] (ack (start_seq 3 5)) (ack-IsPacket _)) refl
