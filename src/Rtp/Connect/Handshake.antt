-- ===== src/Rtp/Connect/Handshake.antt =====
-- `initReceiver` and `initSender` against each other, and against any datagrams.
use networking_labs.Prelude.{
  ℕ, ◌%◌, ◌^◌, ◌<◌, ◌≡◌, refl, ap, ◌∙◌, List, [], ◌∷◌, ◌++◌, Option, some, Bool, true, false, ◌&&◌,
  ◌==◌, arith, inl, inr, Bool-cases, ◌⊎◌,
}
use networking_labs.Prelude.Int.{ℤ, pos, negsuc, ltb_ℤ}
use networking_labs.Rtp.Packet.{
  RtpPacket, rtp_packet_text, sign, wire, header_size, rtp_start, rtp_ack, IsPacket,
}
use networking_labs.Rtp.Packet.Build.{rtp_packet_text-IsPacket}
use networking_labs.Rtp.Wire.{Received, null, overrun, got, send_rtp, rev_rtp}
use networking_labs.Rtp.Wire.RoundTrip.{received, rev_rtp-wire}
use networking_labs.Rtp.Receiver.{ack}
use networking_labs.Rtp.Connect.{
  Endpoint, Returned, returns, overran, close, send, receive, on_start, init_receiver, start_seq,
  start, terminate_sender, on_start_ack, init_sender,
}

pub receive-wire :
    (s : Endpoint) (p : RtpPacket) (use_it : Endpoint → Received → Returned)
    → IsPacket p
    → receive s (some (wire p)) use_it
      ≡ use_it (record s { rcvbuf = (rev_rtp s.rcvbuf (some (wire p))).0 }) (got (received p))
unfolding receive
receive-wire s p use_it v =
    ap (use_it (record s { rcvbuf = (rev_rtp s.rcvbuf (some (wire p))).0 }))
      (rev_rtp-wire s.rcvbuf p v)

pub start_seq-lt : (r1 r2 : ℕ) → start_seq r1 r2 < 2 ^ 31
unfolding start_seq
start_seq-lt r1 r2 = omega arith

start-IsPacket : (seq : ℕ) → seq < 2 ^ 31 → IsPacket (start seq)
start-IsPacket seq h = (rtp_packet_text-IsPacket _ _ seq (omega arith) (omega (arith, h))).0

pub ack-IsPacket : (seq : ℕ) → IsPacket (ack seq)
ack-IsPacket seq = (rtp_packet_text-IsPacket _ _ (seq % 2 ^ 32) (omega arith) (omega arith)).0

on_start-start :
    (s : Endpoint) (seq : ℕ)
    → on_start s (got (received (start seq))) ≡ returns (pos 0) (send (ack seq) s)
unfolding on_start received rtp_packet_text sign
on_start-start s seq = refl

on_start_ack-ack :
    (s : Endpoint) (seq : ℕ) (later : Option (List ℕ))
    → seq < 2 ^ 31
    → on_start_ack seq later s (got (received (ack seq))) ≡ returns (pos 0) s
unfolding on_start_ack received rtp_packet_text sign
on_start_ack-ack s seq later h =
    let same : (seq % 2 ^ 32 == seq) ≡ true = ground (arith, h) in rw same refl

-- The endpoint with the datagram in its buffer.
abbrev pub took : Endpoint → List ℕ → Endpoint
took s datagram = record s { rcvbuf = (rev_rtp s.rcvbuf (some datagram)).0 }

abbrev pub opened : ℕ → Endpoint → Endpoint
opened window_size s = record s { window_size = window_size; is_open = true }

pub init_receiver-start :
    (s : Endpoint) (window_size seq : ℕ)
    → seq < 2 ^ 31
    → init_receiver true true window_size s (some (wire (start seq)))
      ≡ returns (pos 0) (send (ack seq) (took (opened window_size s) (wire (start seq))))
unfolding init_receiver
init_receiver-start s window_size seq h =
    receive-wire (opened window_size s) (start seq) on_start (start-IsPacket seq h)
    ∙ on_start-start (took (opened window_size s) (wire (start seq))) seq

pub init_sender-ack :
    (s : Endpoint) (window_size r1 r2 : ℕ) (ret : ℤ) (later : Option (List ℕ))
    → ltb_ℤ ret (pos header_size) ≡ false
    → init_sender true window_size r1 r2 ret s (some (wire (ack (start_seq r1 r2)))) later
      ≡ returns (pos 0) (
          took
            (send (start (start_seq r1 r2)) (opened window_size s))
            (wire (ack (start_seq r1 r2))))
unfolding init_sender send_rtp
init_sender-ack s window_size r1 r2 ret later taken =
    let seq = start_seq r1 r2 in
    let s' = send (start seq) (opened window_size s) in
    rw taken (
      receive-wire s' (ack seq) (on_start_ack seq later) (ack-IsPacket seq)
      ∙ on_start_ack-ack (took s' (wire (ack seq))) seq later (start_seq-lt r1 r2))

-- InitReceiver on the START that initSender sends and initSender on the ACK that initReceiver
-- sends, where both arrive whole and the sockets work, return 0 with both sockets open, the same
-- window, and exactly that ACK and that START sent.
handshake :
    (a b : Endpoint) (window_size r1 r2 : ℕ) (ret : ℤ) (later : Option (List ℕ))
    → ltb_ℤ ret (pos header_size) ≡ false
    → (a' : Endpoint) × (b' : Endpoint) × (init_receiver true true window_size a
          (some (wire (start (start_seq r1 r2))))
        ≡ returns (pos 0) a')
      × (init_sender true window_size r1 r2 ret b (some (wire (ack (start_seq r1 r2)))) later
          ≡ returns (pos 0) b')
      × (a'.is_open ≡ true)
      × (b'.is_open ≡ true)
      × (a'.window_size ≡ b'.window_size)
      × (a'.sent ≡ a.sent ++ wire (ack (start_seq r1 r2)) ∷ [])
      × (b'.sent ≡ b.sent ++ wire (start (start_seq r1 r2)) ∷ [])
unfolding send_rtp
handshake a b window_size r1 r2 ret later taken = (
  _,
  _,
  init_receiver-start a window_size (start_seq r1 r2) (start_seq-lt r1 r2),
  init_sender-ack b window_size r1 r2 ret later taken,
  refl,
  refl,
  refl,
  refl,
  refl,
)

-- A call that returns 0 leaves the socket open, and one that returns -1 leaves it closed.
unfoldable pub IsConcluded : Returned → Type 0
IsConcluded overran = Unit {0}
IsConcluded (returns code s) =
    ((code ≡ pos 0) × (s.is_open ≡ true)) ⊎ ((code ≡ negsuc 0) × (s.is_open ≡ false))

receive-IsConcluded :
    (s : Endpoint) (arrival : Option (List ℕ)) (use_it : Endpoint → Received → Returned)
    → ((buf : List ℕ) (rev : Received) → IsConcluded (use_it (record s { rcvbuf = buf }) rev))
    → IsConcluded (receive s arrival use_it)
unfolding receive
receive-IsConcluded s arrival use_it h = h _ _

on_start-IsConcluded :
    (s : Endpoint) (rev : Received) → s.is_open ≡ true → IsConcluded (on_start s rev)
unfolding on_start IsConcluded
on_start-IsConcluded s null h = inr (refl, refl)
on_start-IsConcluded s overrun h = tt
on_start-IsConcluded s (got p) h = elim (Bool-cases (p.rtp.type == rtp_start)) [
  | inl same ↦ rw same (inl (refl, h))
  | inr other ↦ rw other (inr (refl, refl))
]

terminate_sender-IsConcluded :
    (con_end : RtpPacket) (s : Endpoint) (arrival : Option (List ℕ))
    → IsConcluded (terminate_sender (negsuc 0) con_end s arrival)
unfolding terminate_sender IsConcluded
terminate_sender-IsConcluded con_end s arrival =
    receive-IsConcluded (send con_end s) arrival _ (λ buf rev. dropped buf rev)
  where
    dropped :
        (buf : List ℕ) (rev : Received)
        → IsConcluded (elim rev [
          | null ↦ returns (negsuc 0) (close (record (send con_end s) { rcvbuf = buf }))
          | got pack ↦ returns (negsuc 0) (close (record (send con_end s) { rcvbuf = buf }))
          | overrun ↦ overran
        ])
    dropped buf null = inr (refl, refl)
    dropped buf overrun = tt
    dropped buf (got p) = inr (refl, refl)

on_start_ack-IsConcluded :
    (seq : ℕ) (later : Option (List ℕ)) (s : Endpoint) (rev : Received)
    → s.is_open ≡ true
    → IsConcluded (on_start_ack seq later s rev)
unfolding on_start_ack IsConcluded
on_start_ack-IsConcluded seq later s null h = terminate_sender-IsConcluded _ s later
on_start_ack-IsConcluded seq later s overrun h = tt
on_start_ack-IsConcluded seq later s (got p) h =
    elim (Bool-cases (p.rtp.type == rtp_ack && p.rtp.seq_num == seq)) [
      | inl same ↦ rw same (inl (refl, h))
      | inr other ↦ rw other (terminate_sender-IsConcluded _ s later)
    ]

-- For any results of the sockets and any datagrams, initReceiver and initSender, which open the
-- socket where it can be had, unless revRTP overruns its packet, return 0 with the socket open or
-- -1 with the socket closed.
pub init-IsConcluded :
    (socket_ok bind_ok : Bool) (window_size r1 r2 : ℕ) (ret : ℤ) (s : Endpoint)
    (arrival later : Option (List ℕ))
    → IsConcluded (init_receiver socket_ok bind_ok window_size s arrival)
      × IsConcluded (init_sender socket_ok window_size r1 r2 ret s arrival later)
unfolding init_receiver init_sender IsConcluded
init-IsConcluded socket_ok bind_ok window_size r1 r2 ret s arrival later =
    (receiver socket_ok bind_ok, sender socket_ok)
  where
    receiver :
        (socket_ok bind_ok : Bool)
        → IsConcluded (init_receiver socket_ok bind_ok window_size s arrival)
    receiver false bind_ok = inr (refl, refl)
    receiver true false = inr (refl, refl)
    receiver true true =
        receive-IsConcluded _ arrival on_start (λ buf rev. on_start-IsConcluded _ rev refl)

    sender :
        (socket_ok : Bool)
        → IsConcluded (init_sender socket_ok window_size r1 r2 ret s arrival later)
    sender false = inr (refl, refl)
    sender true = elim (Bool-cases (send_rtp ret (start (start_seq r1 r2))).1) [
      | inl same ↦
          rw same (
            receive-IsConcluded _ arrival _
              (λ buf rev. on_start_ack-IsConcluded _ later _ rev refl))
      | inr other ↦ rw other (inr (refl, refl))
    ]
