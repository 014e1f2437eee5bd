-- ===== src/Rtp/Sender.antt =====
-- lab2-rtp-Heccc257/Lab2-RTP-Test/src/sender_def.cpp: the sender's window and its two loops.
-- The socket, the clock and the file system are not under src/: the readings of the clock and the
-- packet that `revRTP` gives are arguments, and `fread` gives as much of the file as is left.
pub mod Clock
pub mod Invariant
pub mod Sends
pub mod Turns
pub mod Again
pub mod GoBackN
pub mod Marks
pub mod Selective
use Prim.Native.Nat.{min}
use networking_labs.Prelude.{
  ℕ, zero, suc, ◌+◌, ◌-◌, ◌*◌, ◌%◌, ◌^◌, ◌≤◌, ◌<◌, ◌≡◌, List, [], ◌∷◌, ◌++◌, Option, none, some,
  Bool, true, false, not, ◌&&◌, ltb, leb, ◌==◌, if◌then◌else◌, ◌>>=◌, get_elem?, get_or, set, take,
  drop, length, replicate,
}
use networking_labs.Rtp.Packet.{
  RtpPacket, rtp_packet, rtp_packet_text, fresh_memory, payload_size, rtp_ack, rtp_data, rtp_end,
}
use Clock.{TimeVal, elapsed}

-- The variables of `sendMessage` and `sendMessageOpt`. `rest` is the part of the file that has not
-- been read and `sent` every packet given to `sendRTP`, oldest first. The packets below `base`
-- have been deleted. `acked` is of `sendMessageOpt` only.
pub record Sender : Type 0 where
  pub window_size : ℕ
  pub rest : List ℕ
  pub packs : List RtpPacket
  pub base : ℕ
  pub nextseqnum : ℕ
  pub totseq : ℕ
  pub seq_num : ℕ
  pub acked : List Bool
  pub timer : TimeVal
  pub sent : List RtpPacket

-- The variables at the head of the loop. `acked` is a new array that nothing has been written to.
unfoldable pub start_message : ℕ → List ℕ → List Bool → TimeVal → Sender
start_message window_size message acked now = record {
  window_size = window_size;
  rest = message;
  packs = [];
  base = 0;
  nextseqnum = 0;
  totseq = 0;
  seq_num = 0;
  acked = acked;
  timer = now;
  sent = [];
}

-- `base + window_size`, in 32 bits.
abbrev pub upper : Sender → ℕ
upper s = (s.base + s.window_size) % 2 ^ 32

abbrev pub ack_slot : Sender → ℕ → ℕ
ack_slot s seq = seq % (s.window_size * 2 % 2 ^ 32)

-- `fread(messbuf, 1, PAYLOAD_SIZE-1, fp)`
abbrev pub chunk : Sender → List ℕ
chunk s = take (payload_size - 1) s.rest

-- `packs.push_back(new RTP_packet(RTP_DATA, len, seq_num++, messbuf)); totseq ++`
unfoldable pub push_chunk : Sender → Sender
push_chunk s = record s {
  rest = drop (payload_size - 1) s.rest;
  packs =
      s.packs
      ++ rtp_packet fresh_memory rtp_data (length (chunk s)) s.seq_num (some (chunk s)) ∷ [];
  seq_num = (s.seq_num + 1) % 2 ^ 32;
  totseq = (s.totseq + 1) % 2 ^ 32;
}

-- `while(totseq < base + window_size)`; a round reads a byte at least or ends the loop.
unfoldable pub read_file : ℕ → Sender → Sender
read_file zero s = s
read_file (suc fuel) s = elim (ltb s.totseq (upper s) && not (length (chunk s) == 0)) [
  | true ↦ read_file fuel (push_chunk s)
  | false ↦ s
]

-- No more rounds than there are bytes left.
abbrev pub read_ahead : Sender → Sender
read_ahead s = read_file (suc (length s.rest)) s

-- `sendRTP(sock, packs[i], server)`
unfoldable pub send_packet : Sender → ℕ → Option Sender
send_packet s i = get_elem? s.packs i >>= λ p. some (record s { sent = s.sent ++ p ∷ [] })

-- The rest of a round of `while(nextseqnum < totseq && nextseqnum < base + window_size)`, where
-- `clear` is what the round makes of `acked`.
unfoldable pub send_one : (Sender → List Bool) → TimeVal → Sender → Option Sender
unfolding send_packet
send_one clear now s = send_packet s s.nextseqnum >>= λ s'.
    some (record s' { acked = clear s; nextseqnum = (s.nextseqnum + 1) % 2 ^ 32; timer = now })

unfoldable pub send_new : (Sender → List Bool) → TimeVal → ℕ → Sender → Option Sender
send_new clear now zero s = some s
send_new clear now (suc fuel) s = elim (ltb s.nextseqnum s.totseq && ltb s.nextseqnum (upper s)) [
  | true ↦ send_one clear now s >>= send_new clear now fuel
  | false ↦ some s
]

-- `for(uint32_t i = base; i<nextseqnum; i++)`, n rounds from i on; `skip` tells which are left out.
unfoldable pub resend : (Sender → ℕ → Bool) → ℕ → ℕ → Sender → Option Sender
resend skip zero i s = some s
resend skip (suc n) i s = (if skip s i then some s else send_packet s i) >>= resend skip n (i + 1)

-- What the outside gives to one round: the readings of the clock, and `revRTP`'s packet.
pub record Event : Type 0 where
  pub sent_at : TimeVal
  pub reply : Option RtpPacket
  pub replied_at : TimeVal
  pub now : TimeVal
  pub resent_at : TimeVal

pub data Turn : Type 0 where
  finished : Sender → Turn
  again : Sender → Turn

-- A time-out: more than 100 ms since `timer`.
unfoldable pub time_out : (Sender → ℕ → Bool) → Event → Sender → Option Sender
time_out skip e s =
    if ltb 100 (elapsed s.timer e.now)
    then (resend skip (s.nextseqnum - s.base) s.base s >>= λ s'.
        some (record s' { timer = e.resent_at }))
    else some s

-- The body of `while(1)`: the two variants differ in `clear`, `receive` and `skip`.
unfoldable pub turn :
    (Sender → List Bool)
    → (Event → Sender → Option Sender)
    → (Sender → ℕ → Bool)
    → Sender
    → Event
    → Option Turn
turn clear receive skip s e =
    let s₁ = read_ahead s in
    if s₁.base == s₁.totseq
    then some (finished s₁)
    else (send_new clear e.sent_at (s₁.totseq - s₁.nextseqnum) s₁ >>= λ s₂.
        receive e s₂ >>= λ s₃. time_out skip e s₃ >>= λ s₄. some (again s₄))

-- The ACK of `sendMessage`: every packet below it is deleted, so one beyond `packs` is a fault.
unfoldable pub receive_ack : Event → Sender → Option Sender
receive_ack e s = elim e.reply [
  | none ↦ some s
  | some ack ↦
      if ack.rtp.type == rtp_ack && ltb s.base ack.rtp.seq_num
      then (if leb ack.rtp.seq_num (length s.packs)
          then some (record s { base = ack.rtp.seq_num; timer = e.replied_at })
          else none)
      else some s
]

-- A round of `sendMessage`.
unfoldable pub send_message : Sender → Event → Option Turn
send_message = turn (λ s. s.acked) receive_ack (λ s i. false)

unfoldable pub clear_acked : Sender → List Bool
clear_acked s = set s.acked (ack_slot s s.nextseqnum) false

-- The ACK of `sendMessageOpt` marks one packet of the window.
unfoldable pub mark_acked : Event → Sender → Sender
mark_acked e s = elim e.reply [
  | none ↦ s
  | some ack ↦
      if ack.rtp.type == rtp_ack
      then (if leb s.base ack.rtp.seq_num && ltb ack.rtp.seq_num (upper s)
          then record s {
            acked = set s.acked (ack_slot s ack.rtp.seq_num) true;
            timer = e.replied_at;
          }
          else record s { timer = e.replied_at })
      else s
]

-- `while(base < nextseqnum && acked[base%ACKBUFFSIZE] == 1)`
unfoldable pub slide : ℕ → Sender → Sender
slide zero s = s
slide (suc fuel) s = elim (ltb s.base s.nextseqnum && get_or s.acked (ack_slot s s.base) false) [
  | true ↦ slide fuel (record s { base = (s.base + 1) % 2 ^ 32 })
  | false ↦ s
]

unfoldable pub receive_ack_opt : Event → Sender → Option Sender
receive_ack_opt e s =
    some (slide ((mark_acked e s).nextseqnum - (mark_acked e s).base) (mark_acked e s))

-- A round of `sendMessageOpt`.
unfoldable pub send_message_opt : Sender → Event → Option Turn
send_message_opt = turn clear_acked receive_ack_opt (λ s i. get_or s.acked (ack_slot s i) false)

-- The packet that ends the connection: `new rtp_packet_t(RTP_END, packs.size(), nullptr)`.
unfoldable pub con_end : Sender → RtpPacket
con_end s = rtp_packet_text fresh_memory rtp_end (length s.packs % 2 ^ 32) none
