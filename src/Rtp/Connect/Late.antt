-- ===== src/Rtp/Connect/Late.antt =====
-- The ACK of `initReceiver` and `sendMessage`: what comes of a second copy, which the network may
-- deliver once `initSender` has returned.
use mathlib.Core.List.{append-nil}
use networking_labs.Prelude.{
  ℕ, suc, ◌>>=◌, ◌+◌, ◌-◌, ◌^◌, ◌≤◌, ◌<◌, ◌≡◌, refl, sym, ap, ◌∙◌, inl, inr, List, [], ◌∷◌, ◌++◌,
  map, concat, none, some, Bool, true, false, ◌&&◌, ltb, leb, ◌==◌, arith, length,
}
use networking_labs.Rtp.Packet.{RtpPacket, rtp_packet_text, sign, rtp_ack, wire, content}
use networking_labs.Rtp.Wire.{rev_rtp, got}
use networking_labs.Rtp.Wire.RoundTrip.{received, rev_rtp-wire}
use networking_labs.Rtp.Receiver.{ack}
use networking_labs.Rtp.Sender
use networking_labs.Rtp.Sender.{
  Sender, Event, Turn, again, start_message, read_ahead, turn, receive_ack, send_message,
}
use networking_labs.Rtp.Sender.Clock.{TimeVal}
use networking_labs.Rtp.Sender.Invariant.{
  Sending, Extends, texts, start_message-Sending, read_file-Sending,
}
use networking_labs.Rtp.Sender.Sends.{send_new-Sending, time_out-Sending}
use networking_labs.Rtp.Sender.GoBackN.{acked_to, receive_ack-Sending}
use networking_labs.Rtp.Connect.{start_seq}
use networking_labs.Rtp.Connect.Handshake.{start_seq-lt, ack-IsPacket}

module _ {message : List ℕ} {w : ℕ} (s : Sender) (e : Event) (v : Sending message w s)
    (more : ((read_ahead s).base == (read_ahead s).totseq) ≡ false) where
  abbrev s₁ : Sender
  s₁ = read_ahead s

  v₁ : Sending message w s₁
  v₁ = (read_file-Sending (suc (length s.rest)) s v (omega arith)).0

  ext : Extends s s₁
  ext = (read_file-Sending (suc (length s.rest)) s v (omega arith)).1

  -- Everything that has been read is sent before the ACK is looked at.
  all_sent :
      (s₂ : Sender) × (send_message s e
        ≡ receive_ack e s₂ >>= λ s₃.
            networking_labs.Rtp.Sender.time_out (λ s i. false) e s₃ >>= λ s₄. some (again s₄))
      × Sending message w s₂
      × (s₂.nextseqnum ≡ length s₁.packs)
      × (s₂.packs ≡ s₁.packs)
      × (s₂.base ≡ s.base)
  unfolding send_message turn
  all_sent =
      let (s₂, sent, v₂, p₂, next₂, packs₂, base₂, rest₂) =
        send_new-Sending (λ t. Unit {0}) (λ s. s.acked) e.sent_at (λ s p v h u. tt)
          (s₁.totseq - s₁.nextseqnum) s₁ v₁ tt (omega (arith, v₁.total, v₁.sent_read)) in
      (s₂, rw (more, sent) refl, v₂, next₂, packs₂, base₂ ∙ ext.same_base)

  -- An ACK of packets that have been read moves the window to its number, and any later one is a
  -- fault.
  acked_at :
      (k : ℕ) (p : RtpPacket)
      → e.reply ≡ some p
      → p.rtp.type ≡ rtp_ack
      → p.rtp.seq_num ≡ k
      → s.base ≤ k
      → (k ≤ length s₁.packs → (t : Sender) × (send_message s e ≡ some (again t)) × (t.base ≡ k))
        × (length s₁.packs < k → send_message s e ≡ none)
  unfolding receive_ack
  acked_at k p came of_ack number from =
      let (s₂, turned, v₂, next₂, packs₂, base₂) = all_sent in
      (
        λ few.
            let at_k : acked_to s₂.base e.reply ≡ k =
              rw came (ground (arith, of_ack, number, base₂)) in
            let (s₃, heard, v₃, base₃, next₃, packs₃) =
              receive_ack-Sending e s₂ v₂ (omega (arith, at_k, next₂, few)) in
            let (s₄, done, v₄, r) = time_out-Sending (λ s i. false) e s₃ v₃ in
            (s₄, turned ∙ rw (heard, done) refl, r.same_base ∙ base₃ ∙ at_k),
        λ beyond.
            let moves : (p.rtp.type == rtp_ack && ltb s₂.base p.rtp.seq_num) ≡ true =
              ground (arith, of_ack, number, base₂, v₂.first_sent, next₂, beyond) in
            let out : leb p.rtp.seq_num (length s₂.packs) ≡ false =
              ground (arith, number, ap length packs₂, beyond) in
            turned ∙ rw (came, receive_ack, moves, out) refl,
      )

nonempty-packs :
    (packs : List RtpPacket) → 0 < length (concat (map content packs)) → 0 < length packs
nonempty-packs [] h = absurd (omega arith)
nonempty-packs (p ∷ packs) h = omega arith

start_more :
    (message : List ℕ) (w : ℕ) (acked : List Bool) (now : TimeVal)
    → 0 < w
    → length message + w < 2 ^ 32
    → 0 < length message
    → let s = read_ahead (start_message w message acked now) in (s.base == s.totseq) ≡ false
unfolding start_message
start_more message w acked now positive small nonempty =
    let s = start_message w message acked now in
    let (v, ext, read) =
      read_file-Sending (suc (length message)) s
        (start_message-Sending w message acked now positive small) (omega arith) in
    elim read [
      | inl full ↦ ground (arith, full, v.total, ext.same_base)
      | inr empty ↦
          let whole : concat (texts (read_ahead s)) ≡ message =
            sym (append-nil _) ∙ ap (◌++◌ (concat (texts (read_ahead s)))) (sym empty) ∙ v.cut in
          let packs = nonempty-packs (read_ahead s).packs (omega (arith, ap length whole)) in
          ground (arith, packs, v.total, ext.same_base)
    ]

received-ack :
    (k : ℕ)
    → k < 2 ^ 31
    → ((received (ack k)).rtp.type ≡ rtp_ack) × ((received (ack k)).rtp.seq_num ≡ k)
unfolding received rtp_packet_text sign
received-ack k h = (refl, omega (arith, h))

start_base :
    (message : List ℕ) (w : ℕ) (acked : List Bool) (now : TimeVal) (k : ℕ)
    → (start_message w message acked now).base ≤ k
unfolding start_message
start_base message w acked now k = omega arith

-- In the first round of sendMessage for a file that is not empty, a second copy of the ACK with
-- which initReceiver answered START counts as one of data: where the number of START is at most
-- that of the packets read, the window moves to it, and otherwise the round reaches outside packs;
-- for a window of at least 1 and a file whose bytes and the window together stay below 2^32.
pub late_start_ack :
    (message : List ℕ) (w r1 r2 : ℕ) (acked : List Bool) (now : TimeVal) (e : Event)
    (rcvbuf : List ℕ) (p : RtpPacket)
    → 0 < w
    → length message + w < 2 ^ 32
    → 0 < length message
    → (rev_rtp rcvbuf (some (wire (ack (start_seq r1 r2))))).1 ≡ got p
    → e.reply ≡ some p
    → (start_seq r1 r2 ≤ length (read_ahead (start_message w message acked now)).packs
        → (t : Sender) × (send_message (start_message w message acked now) e ≡ some (again t))
          × (t.base ≡ start_seq r1 r2))
      × (length (read_ahead (start_message w message acked now)).packs < start_seq r1 r2
          → send_message (start_message w message acked now) e ≡ none)
late_start_ack message w r1 r2 acked now e rcvbuf p positive small nonempty arrived came =
    let k = start_seq r1 r2 in
    let same : received (ack k) ≡ p =
      grind (arith, sym (rev_rtp-wire rcvbuf (ack k) (ack-IsPacket k)) ∙ arrived) in
    let (of_ack, number) = received-ack k (start_seq-lt r1 r2) in
    acked_at (start_message w message acked now) e
      (start_message-Sending w message acked now positive small)
      (start_more message w acked now positive small nonempty) k p came
      (ap (λ x. x.rtp.type) (sym same) ∙ of_ack) (ap (λ x. x.rtp.seq_num) (sym same) ∙ number)
      (start_base message w acked now k)
