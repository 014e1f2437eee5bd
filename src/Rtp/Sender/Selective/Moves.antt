-- ===== src/Rtp/Sender/Selective/Moves.antt =====
-- sender_def.cpp: the window of `sendMessageOpt` does not move back, and the ACK of its first packet
-- moves it on.
use networking_labs.Prelude.{
  ℕ, zero, suc, ◌-◌, ◌≤◌, ◌<◌, ◌≡◌, refl, sym, ◌∙◌, List, some, true, false, ◌&&◌, ltb, leb, ◌==◌,
  arith, get_or, get_or-set,
}
use networking_labs.Rtp.Packet.{RtpPacket, rtp_ack}
use networking_labs.Rtp.Sender.{
  Sender, Event, Turn, upper, ack_slot, clear_acked, mark_acked, slide, receive_ack_opt,
  send_message_opt,
}
use networking_labs.Rtp.Sender.Invariant.{Sending, upper_lem}
use networking_labs.Rtp.Sender.Turns.{IsTurn, IsTurn-map, turn-IsTurn}
use networking_labs.Rtp.Sender.Marks.{Marks, start-Marks, noted-Sending}
use networking_labs.Rtp.Sender.Selective.{
  sent_one-Marks, mark_acked-Marks, mark_acked_cases, mark_acked_keeps, slide-Sending, slide_step,
  slot-lt,
}

-- What a round makes of the window.
abbrev pub Moves : Sender → Event → Sender → Type 0
Moves s e u =
    (s.base ≤ u.base)
    × ((ack : RtpPacket)
        → e.reply ≡ some ack
        → ack.rtp.type ≡ rtp_ack
        → ack.rtp.seq_num ≡ s.base
        → s.base < u.base)

Moves-from : (s t u : Sender) (e : Event) → t.base ≡ s.base → Moves t e u → Moves s e u
Moves-from s t u e same h = (
  omega (arith, h.0),
  λ ack came of_ack first. omega (arith, h.1 ack came of_ack (first ∙ sym same)),
)

Moves-to : (s t u : Sender) (e : Event) → u.base ≡ t.base → Moves s e t → Moves s e u
Moves-to s t u e same h =
    (omega (arith, h.0), λ ack came of_ack first. omega (arith, h.1 ack came of_ack first))

module _ {message : List ℕ} {w : ℕ} {Got : ℕ → Type 0} where
  mark_acked_first :
      (e : Event) (s : Sender) (ack : RtpPacket)
      → Sending message w s
      → Marks Got w s
      → e.reply ≡ some ack
      → ack.rtp.type ≡ rtp_ack
      → ack.rtp.seq_num ≡ s.base
      → get_or (mark_acked e s).acked (ack_slot (mark_acked e s) (mark_acked e s).base) false ≡ true
  unfolding mark_acked
  mark_acked_first e s ack v m came of_ack first =
      let is_ack : (ack.rtp.type == rtp_ack) ≡ true = ground arith in
      let within : (leb s.base ack.rtp.seq_num && ltb ack.rtp.seq_num (upper s)) ≡ true =
        ground (arith, upper_lem v, v.positive) in
      rw (came, mark_acked, is_ack, within)
        (ground (
          arith,
          first,
          get_or-set s.acked (ack_slot s ack.rtp.seq_num) (ack_slot s s.base) true false
              (slot-lt v m ack.rtp.seq_num),
        ))

  -- A first packet that is marked leaves the window.
  slide_first :
      (fuel : ℕ) (s : Sender)
      → Sending message w s
      → Marks Got w s
      → 0 < fuel
      → s.base < s.nextseqnum
      → get_or s.acked (ack_slot s s.base) false ≡ true
      → s.base < (slide fuel s).base
  unfolding slide
  slide_first zero s v m some_fuel unacked marked = absurd (omega arith)
  slide_first (suc fuel) s v m some_fuel unacked marked =
      let moves : (ltb s.base s.nextseqnum && get_or s.acked (ack_slot s s.base) false) ≡ true =
        ground arith in
      let (v', m', step) = slide_step s v m moves in
      let (v'', m'', next, packs, further) = slide-Sending fuel _ v' m' in
      rw (moves, slide) (omega (arith, further, step))

  receive_ack_opt-Moves :
      (e : Event) (s : Sender)
      → Sending message w (mark_acked e s)
      → Marks Got w (mark_acked e s)
      → Sending message w s
      → Marks Got w s
      → s.base < s.nextseqnum
      → Moves s e (slide ((mark_acked e s).nextseqnum - (mark_acked e s).base) (mark_acked e s))
  receive_ack_opt-Moves e s v' m' v m unacked =
      let (next, packs, base, window) = mark_acked_keeps e s in
      let fuel : ℕ = (mark_acked e s).nextseqnum - (mark_acked e s).base in
      let (v'', m'', next', packs', further) = slide-Sending fuel (mark_acked e s) v' m' in
      (
        omega (arith, further, base),
        λ ack came of_ack first.
            let on =
              slide_first fuel (mark_acked e s) v' m' (omega (arith, next, base))
                (omega (arith, next, base)) (mark_acked_first e s ack v m came of_ack first) in
            omega (arith, base, on),
      )

-- A round of sendMessageOpt that goes on does not move the window back, and moves it on where the
-- ACK of its first packet is heard.
pub send_message_opt-Moves :
    (message : List ℕ) (w : ℕ) (Got : ℕ → Type 0) (s : Sender) (e : Event)
    → Sending message w s
    → Marks Got w s
    → ((ack : RtpPacket) → e.reply ≡ some ack → ack.rtp.type ≡ rtp_ack → Got ack.rtp.seq_num)
    → (t : Turn) × (send_message_opt s e ≡ some t) × IsTurn message w s (λ u. Unit) (Moves s e) t
unfolding send_message_opt receive_ack_opt
send_message_opt-Moves message w Got s e v m true_acks =
    let (t, made, turned) =
      turn-IsTurn message w clear_acked receive_ack_opt (λ s i. get_or s.acked (ack_slot s i) false)
        (λ t. Marks Got w t × (t.base ≡ s.base)) (Moves s e) s e v
        (λ t ext. (start-Marks m t ext, ext.same_base))
        (λ t p v' h k. (sent_one-Marks e.sent_at t p v' h k.0, k.1))
        (λ t v' k further unacked.
          let marked = mark_acked e t in
          let v₁ =
            mark_acked_cases (Sending message w) e t v' v' (noted-Sending t.acked e.replied_at v')
              λ ack came of_ack lo hi. noted-Sending _ e.replied_at v' in
          let m₁ = mark_acked-Marks e t v' true_acks k.0 in
          let (v₂, m₂, next, packs, le) =
            slide-Sending (marked.nextseqnum - marked.base) marked v₁ m₁ in
          let moved = receive_ack_opt-Moves e t v₁ m₁ v' k.0 unacked in
          (
            _,
            refl,
            v₂,
            Moves-from s t (slide (marked.nextseqnum - marked.base) marked) e k.1 moved,
            next ∙ (mark_acked_keeps e t).0,
            packs ∙ (mark_acked_keeps e t).1,
          ))
        (λ t u r h. Moves-to s t u e r.same_base h) in
    (t, made, IsTurn-map _ (λ u. Unit) (Moves s e) (Moves s e) t (λ u h. tt) (λ u h. h) turned)
