-- ===== src/Rtp/Connect.antt =====
-- lab2-rtp-Heccc257/Lab2-RTP-Test/src: `initReceiver` and `terminateReceiver` of receiver_def.cpp,
-- `initSender` and `terminateSender` of sender_def.cpp. What the calls of the sockets return, the
-- two numbers that `rand` gives and the datagrams that arrive are arguments.
pub mod Handshake
pub mod Late
use networking_labs.Prelude.{
  ℕ, ◌*◌, ◌%◌, ◌^◌, List, [], ◌∷◌, ◌++◌, Option, none, Bool, true, false, not, ◌&&◌, ◌==◌,
  if◌then◌else◌,
}
use networking_labs.Prelude.Int.{ℤ, pos, negsuc}
use networking_labs.Rtp.Packet.{
  RtpPacket, rtp_packet_text, fresh_memory, rtp_start, rtp_end, rtp_ack,
}
use networking_labs.Rtp.Wire.{Received, null, overrun, got, send_rtp, rev_rtp}
use networking_labs.Rtp.Receiver.{ack}

-- `recvVar` or `senderVar`, with whether the socket is open and the datagrams that went out.
pub record Endpoint : Type 0 where
  pub window_size : ℕ
  pub is_open : Bool
  pub rcvbuf : List ℕ
  pub sent : List (List ℕ)

-- What a call returns and leaves, unless `revRTP` has written past the end of its packet.
pub data Returned : Type 0 where
  returns : ℤ → Endpoint → Returned
  overran : Returned

abbrev pub close : Endpoint → Endpoint
close s = record s { is_open = false }

abbrev pub send : RtpPacket → Endpoint → Endpoint
send pack s = record s { sent = s.sent ++ (send_rtp (pos 0) pack).0 ∷ [] }

-- `revRTP` into the buffer, and what is done with the packet.
unfoldable pub receive : Endpoint → Option (List ℕ) → (Endpoint → Received → Returned) → Returned
receive s arrival use_it =
    let (buf, rev) = rev_rtp s.rcvbuf arrival in use_it (record s { rcvbuf = buf }) rev

-- The test on START, and the ACK.
unfoldable pub on_start : Endpoint → Received → Returned
on_start s null = returns (negsuc 0) (close s)
on_start s overrun = overran
on_start s (got start) =
    if not (start.rtp.type == rtp_start)
    then returns (negsuc 0) (close s)
    else returns (pos 0) (send (ack start.rtp.seq_num) s)

-- `initReceiver`
unfoldable pub init_receiver : Bool → Bool → ℕ → Endpoint → Option (List ℕ) → Returned
init_receiver socket_ok bind_ok window_size s arrival =
    let s' : Endpoint = record s { window_size = window_size; is_open = socket_ok } in
    if not socket_ok
    then returns (negsuc 0) s'
    else if not bind_ok
    then returns (negsuc 0) (close s')
    else receive s' arrival on_start

-- `terminateReceiver`
unfoldable pub terminate_receiver : Endpoint → Endpoint
terminate_receiver s = close s

-- `((uint32_t)rand() * rand()) & ((1u<<31)-1)`
unfoldable pub start_seq : ℕ → ℕ → ℕ
start_seq r1 r2 = r1 % 2 ^ 32 * r2 % 2 ^ 32 % 2 ^ 31

-- `new rtp_packet_t(RTP_START, seq, nullptr)`
abbrev pub start : ℕ → RtpPacket
start seq = rtp_packet_text fresh_memory rtp_start seq none

-- `terminateSender`: END goes out, one answer is read and dropped. `code` is what the caller then
-- returns.
unfoldable pub terminate_sender : ℤ → RtpPacket → Endpoint → Option (List ℕ) → Returned
terminate_sender code con_end s arrival = receive (send con_end s) arrival (λ s' rev. elim rev [
  | null ↦ returns code (close s')
  | got pack ↦ returns code (close s')
  | overrun ↦ overran
])

-- The test on the ACK; `arrival` is what comes after END where the ACK is wrong.
unfoldable pub on_start_ack : ℕ → Option (List ℕ) → Endpoint → Received → Returned
on_start_ack seq arrival s null =
    terminate_sender (negsuc 0) (rtp_packet_text fresh_memory rtp_end seq none) s arrival
on_start_ack seq arrival s overrun = overran
on_start_ack seq arrival s (got pack) =
    if pack.rtp.type == rtp_ack && pack.rtp.seq_num == seq
    then returns (pos 0) s
    else terminate_sender (negsuc 0) (rtp_packet_text fresh_memory rtp_end seq none) s arrival

-- `initSender`; `ret` is what `sendto` returns.
unfoldable pub init_sender :
    Bool → ℕ → ℕ → ℕ → ℤ → Endpoint → Option (List ℕ) → Option (List ℕ) → Returned
init_sender socket_ok window_size r1 r2 ret s arrival later =
    let s' : Endpoint = record s { window_size = window_size; is_open = socket_ok } in
    let seq = start_seq r1 r2 in
    if not socket_ok
    then returns (negsuc 0) s'
    else if not (send_rtp ret (start seq)).1
    then returns (negsuc 0) (close (send (start seq) s'))
    else receive (send (start seq) s') arrival (on_start_ack seq later)
