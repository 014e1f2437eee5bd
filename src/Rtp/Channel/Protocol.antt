-- ===== src/Rtp/Channel/Protocol.antt =====
-- The two ends together: what either pair of loops has to keep, and what follows for every run.
pub mod Coherence
pub mod Runs
pub mod Answered
pub mod Advance
pub mod Ending
use networking_labs.Prelude.{ℕ, ◌^◌, ◌≤◌, ◌<◌, ◌≡◌, List, length, Option, some}
use networking_labs.Rtp.Packet.{RtpPacket, rtp_ack}
use networking_labs.Rtp.Receiver.{Receiver}
use networking_labs.Rtp.Receiver.Deliver.{Has}
use networking_labs.Rtp.Receiver.Window.{Window}
use networking_labs.Rtp.Sender.{Sender, Event, Turn}
use networking_labs.Rtp.Sender.Invariant.{Sending, sent_texts}
use networking_labs.Rtp.Sender.Turns.{IsTurn}

-- What a pair of loops agrees on: `Means r n` is what an ACK with number n says of the receiver,
-- `Agrees r s` what the sender believes of it.
pub record Protocol (message : List ℕ) (w : ℕ) (send : Sender → Event → Option Turn)
    (ack_seq : Receiver → RtpPacket → ℕ) : Type 1 where
  pub Means : Receiver → ℕ → Type 0
  pub Agrees : Receiver → Sender → Type 0
  -- What the receiver has it keeps, so neither becomes false.
  pub means_later :
      (r t : Receiver)
      → r.firstneedrecv ≤ t.firstneedrecv
      → ((i : ℕ) → Has r i → Has t i)
      → (n : ℕ) → Means r n
      → Means t n
  pub agrees_later :
      (r t : Receiver)
      → r.firstneedrecv ≤ t.firstneedrecv
      → ((i : ℕ) → Has r i → Has t i)
      → (s : Sender) → Agrees r s
      → Agrees t s
  -- The receiver's ACKs say what they mean, and their numbers fit.
  pub ack_means :
      (texts : List (List ℕ)) (r : Receiver) (p : RtpPacket)
      → Window texts w r
      → Has r p.rtp.seq_num
      → Means r (ack_seq r p)
  pub ack_fits :
      (texts : List (List ℕ)) (r : Receiver) (p : RtpPacket)
      → Window texts w r
      → p.rtp.seq_num < length texts
      → ack_seq r p < 2 ^ 32
  -- A sender that hears only such ACKs does not fault.
  pub turns :
      (r : Receiver) (s : Sender) (e : Event)
      → Sending message w s
      → Window (sent_texts s) w r
      → Agrees r s
      → ((ack : RtpPacket) → e.reply ≡ some ack → ack.rtp.type ≡ rtp_ack → Means r ack.rtp.seq_num)
      → (t : Turn) × (send s e ≡ some t) × IsTurn message w s (Agrees r) (Agrees r) t
  -- The window does not move past what the receiver has.
  pub behind :
      (texts : List (List ℕ)) (r : Receiver) (s : Sender)
      → Window texts w r
      → Agrees r s
      → s.base ≤ r.firstneedrecv
