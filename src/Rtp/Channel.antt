-- ===== src/Rtp/Channel.antt =====
-- The sender and the receiver of lab2-rtp-Heccc257/Lab2-RTP-Test/src over a channel that may lose,
-- delay, repeat and reorder datagrams: at any time any datagram that was ever sent may arrive, or
-- none. A damaged datagram is dropped by `revRTP` where its checksum is wrong; that a damaged one
-- has a right checksum is left out.
pub mod Arrivals
pub mod Protocol
pub mod GoBackN
pub mod Selective
pub mod Connection
pub mod Recovery
mod Tests
use networking_labs.Prelude.{
  ℕ, ◌≡◌, List, [], ◌∷◌, ◌++◌, Option, none, some, Bool, true, false, get_elem?,
}
use networking_labs.Rtp.Packet.{RtpPacket, wire}
use networking_labs.Rtp.Wire.{rev_rtp, got}
use networking_labs.Rtp.Receiver.{Receiver, Arrival, Round, next, stop, init_message}
use networking_labs.Rtp.Sender.{Sender, Event, Turn, finished, again, start_message, con_end}
use networking_labs.Rtp.Sender.Clock.{TimeVal}

-- What `revRTP` can hand on where the datagrams of `log` have been sent.
pub data Arrives (log : List RtpPacket) : Option RtpPacket → Type 0 where
  nothing : Arrives log none
  comes :
      (i : ℕ) {p q : RtpPacket} (rcvbuf : List ℕ)
      → get_elem? log i ≡ some p
      → (rev_rtp rcvbuf (some (wire p))).1 ≡ got q
      → Arrives log (some q)

-- Both ends, and the ACKs sent so far. `done` is set when the sender has left its loop, `closed`
-- when the receiver has.
pub record System : Type 0 where
  pub sender : Sender
  pub receiver : Receiver
  pub acks : List RtpPacket
  pub done : Bool
  pub closed : Bool

abbrev pub log_ack : List RtpPacket → Option RtpPacket → List RtpPacket
log_ack acks none = acks
log_ack acks (some a) = acks ++ a ∷ []

-- Both ends before the first round.
abbrev pub start : ℕ → List ℕ → List Bool → TimeVal → ℕ → System
start w message acked sent_from now = record {
  sender = start_message w message acked sent_from;
  receiver = init_message w now;
  acks = [];
  done = false;
  closed = false;
}

-- One round of one end. After its loop the sender sends `conEnd`, which may reach the receiver.
pub data Step (send : Sender → Event → Option Turn) (recv : Receiver → Arrival → Round) (s : System)
    : System → Type 0 where
  sends :
      (e : Event) {t : Sender}
      → s.done ≡ false
      → Arrives s.acks e.reply
      → send s.sender e ≡ some (again t)
      → Step send recv s (record s { sender = t })
  finishes :
      (e : Event) {t : Sender}
      → s.done ≡ false
      → Arrives s.acks e.reply
      → send s.sender e ≡ some (finished t)
      → Step send recv s (record s { sender = t; done = true })
  receives :
      (a : Arrival) {r : Receiver} {out : Option RtpPacket}
      → s.closed ≡ false
      → Arrives s.sender.sent a.newpack
      → recv s.receiver a ≡ next r out
      → Step send recv s (record s { receiver = r; acks = log_ack s.acks out })
  leaves :
      (a : Arrival) {r : Receiver} {out : Option RtpPacket}
      → s.closed ≡ false
      → Arrives s.sender.sent a.newpack
      → recv s.receiver a ≡ stop r out
      → Step send recv s (record s { receiver = r; acks = log_ack s.acks out; closed = true })
  closes :
      (a : Arrival) {r : Receiver} {out : Option RtpPacket}
      → s.done ≡ true
      → s.closed ≡ false
      → Arrives (con_end s.sender ∷ []) a.newpack
      → recv s.receiver a ≡ stop r out
      → Step send recv s (record s { receiver = r; closed = true })

pub data Reach (send : Sender → Event → Option Turn) (recv : Receiver → Arrival → Round)
    (s : System) : System → Type 0 where
  here : Reach send recv s s
  later : {t u : System} → Reach send recv s t → Step send recv t u → Reach send recv s u
