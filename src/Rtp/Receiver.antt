-- ===== src/Rtp/Receiver.antt =====
-- lab2-rtp-Heccc257/Lab2-RTP-Test/src/receiver_def.cpp: the receiver's window and its two loops.
-- Sockets, the clock and the file system are not under src/: a packet that arrives and the readings
-- of the clock are arguments, and `fwrite` is taken to write all that it is given.
pub mod Deliver
pub mod Window
pub mod Rounds
pub mod Answers
pub mod Origins
pub mod Growth
use networking_labs.Prelude.{
  ℕ, zero, suc, ◌+◌, ◌-◌, ◌*◌, ◌%◌, ◌^◌, ◌<◌, ◌≡◌, List, [], ◌∷◌, ◌++◌, Option, none, some, Bool,
  true, false, not, ◌||◌, ltb, ◌==◌, if◌then◌else◌, get_or, set, replicate, length,
}
use networking_labs.Rtp.Packet.{
  RtpPacket, rtp_packet_text, fresh_memory, rtp_ack, rtp_end, rtp_data, content,
}

-- The variables of `recvMessage`: `file` is what has been written, `timer` is in seconds.
pub record Receiver : Type 0 where
  pub window_size : ℕ
  pub pack_buf : List (Option RtpPacket)
  pub firstneedrecv : ℕ
  pub file : List ℕ
  pub timer : ℕ

-- `BUFFSIZE = 2*window_size`, in 32 bits.
abbrev pub ring_size : ℕ → ℕ
ring_size window_size = 2 * window_size % 2 ^ 32

-- The start of `recvMessage`: an empty ring and an empty file.
unfoldable pub init_message : ℕ → ℕ → Receiver
init_message window_size now = record {
  window_size = window_size;
  pack_buf = replicate (ring_size window_size) none;
  firstneedrecv = 0;
  file = [];
  timer = now;
}

abbrev pub slot : Receiver → ℕ → ℕ
slot r seq = seq % ring_size r.window_size

-- `Download`: the text goes to the file, and the slot is free.
download : Receiver → ℕ → RtpPacket → Receiver
download r idx pack = record r { pack_buf = set r.pack_buf idx none; file = r.file ++ content pack }

-- A round of the loop below: `Download`, then `firstneedrecv ++`.
unfoldable pub advance : Receiver → RtpPacket → Receiver
unfolding download
advance r pack = record (download r (slot r r.firstneedrecv) pack) {
  firstneedrecv = (r.firstneedrecv + 1) % 2 ^ 64;
}

-- `while(pack_buf[firstneedrecv%BUFFSIZE] != nullptr)`
unfoldable pub deliver : ℕ → Receiver → Receiver
deliver zero r = r
deliver (suc fuel) r = elim (get_or r.pack_buf (slot r r.firstneedrecv) none) [
  | none ↦ r
  | some pack ↦ deliver fuel (advance r pack)
]

-- `if(pack_buf[buffidx] == nullptr) pack_buf[buffidx] = newpack;`
unfoldable pub store : Receiver → RtpPacket → Receiver
store r pack = elim (get_or r.pack_buf (slot r pack.rtp.seq_num) none) [
  | none ↦ record r { pack_buf = set r.pack_buf (slot r pack.rtp.seq_num) (some pack) }
  | some old ↦ r
]

-- One more round than there are slots.
unfoldable pub accept : Receiver → RtpPacket → Receiver
accept r pack = deliver (suc (length r.pack_buf)) (store r pack)

unfoldable pub outside : Receiver → ℕ → Bool
outside r seq =
    ltb seq r.firstneedrecv || not (ltb seq ((r.firstneedrecv + r.window_size) % 2 ^ 64))

-- What one round of `while(1)` does: go on, or leave the loop; with the packet that it sends.
pub data Round : Type 0 where
  next : Receiver → Option RtpPacket → Round
  stop : Receiver → Option RtpPacket → Round

-- What arrives in a round: `revRTP`'s packet, with the second in which it came, and the second at
-- the end of the round.
pub record Arrival : Type 0 where
  pub newpack : Option RtpPacket
  pub at : ℕ
  pub now : ℕ

-- `new rtp_packet_t(RTP_ACK, seq, nullptr)`
abbrev pub ack : ℕ → RtpPacket
ack seq = rtp_packet_text fresh_memory rtp_ack (seq % 2 ^ 32) none

-- `if(now.tv_sec - timer.tv_sec > 10) break;`
unfoldable pub time_out : Receiver → ℕ → Option RtpPacket → Round
time_out r now sent = if ltb (r.timer + 10) now then stop r sent else next r sent

-- A data packet: one outside the window is passed over, without an ACK and without a look at the
-- clock (`continue`).
unfoldable pub on_data : (Receiver → RtpPacket → ℕ) → Receiver → RtpPacket → ℕ → Round
on_data ack_seq r pack now =
    if outside r pack.rtp.seq_num
    then next r none
    else time_out (accept r pack) now (some (ack (ack_seq (accept r pack) pack)))

-- A round of either loop; `ack_seq` is the number that an ACK carries, and is all that differs.
unfoldable pub round : (Receiver → RtpPacket → ℕ) → Receiver → Arrival → Round
round ack_seq r a = elim a.newpack [
  | none ↦ time_out r a.now none
  | some pack ↦
      let r' : Receiver = record r { timer = a.at } in
      if pack.rtp.type == rtp_end
      then stop r' (some (ack pack.rtp.seq_num))
      else (if pack.rtp.type == rtp_data
          then on_data ack_seq r' pack a.now
          else time_out r' a.now none)
]

-- `recvMessage`: an ACK names the first packet that is still needed.
unfoldable pub recv_message : Receiver → Arrival → Round
recv_message = round (λ r pack. r.firstneedrecv)

-- `recvMessageOpt`: an ACK names the packet that came.
unfoldable pub recv_message_opt : Receiver → Arrival → Round
recv_message_opt = round (λ r pack. pack.rtp.seq_num)
