-- ===== src/Rtp/Sender/Selective.antt =====
-- sender_def.cpp: a round of `sendMessageOpt`, with an acknowledgement for each packet.
pub mod Moves
pub mod Again
use native.Mathlib.Decide.{ℕ_discrete, dec_lt}
use networking_labs.Prelude.{
  ℕ, zero, suc, ◌+◌, ◌-◌, ◌*◌, ◌%◌, ◌^◌, ◌≤◌, ◌<◌, ◌≡◌, ◌≢◌, refl, sym, ap, subst, ◌∙◌, List, some,
  Bool, true, false, ◌&&◌, ltb, leb, ◌==◌, if◌then◌else◌, arith, length, set, get_or, get_or-set,
  length-set, mod_window, inl, inr, Bool-cases, Option-cases,
}
use networking_labs.Rtp.Packet.{RtpPacket, rtp_ack}
use networking_labs.Rtp.Sender.{
  Sender, Event, Turn, upper, ack_slot, clear_acked, mark_acked, slide, receive_ack_opt,
  send_message_opt,
}
use networking_labs.Rtp.Sender.Clock.{TimeVal}
use networking_labs.Rtp.Sender.Invariant.{Sending, Extends, upper_lem}
use networking_labs.Rtp.Sender.GoBackN.{moved-Sending}
use networking_labs.Rtp.Sender.Sends.{Repeats, sent_one}
use networking_labs.Rtp.Sender.Marks.{
  Marks, same_place, slot-ring, start-Marks, Repeats-Marks, mod-lt_double, noted-Marks,
  noted-Sending,
}
use networking_labs.Rtp.Sender.Turns.{IsTurn, turn-IsTurn}

pub mark_acked_keeps :
    (e : Event) (s : Sender)
    → ((mark_acked e s).nextseqnum ≡ s.nextseqnum)
      × ((mark_acked e s).packs ≡ s.packs)
      × ((mark_acked e s).base ≡ s.base)
      × ((mark_acked e s).window_size ≡ s.window_size)
unfolding mark_acked
mark_acked_keeps e s = (ground arith, ground arith, ground arith, ground arith)

module _ {message : List ℕ} {w : ℕ} where
  pub mark_acked_cases {ℓ} :
      (P : Sender → Type ℓ) (e : Event) (s : Sender) (v : Sending message w s)
      → P s
      → P (record s { timer = e.replied_at })
      → ((ack : RtpPacket)
          → e.reply ≡ some ack
          → ack.rtp.type ≡ rtp_ack
          → s.base ≤ ack.rtp.seq_num
          → ack.rtp.seq_num < s.base + w
          → P (record s {
            acked = set s.acked (ack_slot s ack.rtp.seq_num) true;
            timer = e.replied_at;
          }))
      → P (mark_acked e s)
  unfolding mark_acked
  mark_acked_cases P e s v same noted marked = elim (Option-cases e.reply) [
    | inl quiet ↦ rw (quiet, mark_acked) same
    | inr (ack, came) ↦ elim (Bool-cases (ack.rtp.type == rtp_ack)) [
      | inr other ↦ rw (came, mark_acked, other) same
      | inl of_ack ↦
          elim (Bool-cases (leb s.base ack.rtp.seq_num && ltb ack.rtp.seq_num (upper s))) [
            | inr outside ↦ rw (came, mark_acked, of_ack, outside) noted
            | inl within ↦
                rw (came, mark_acked, of_ack, within)
                  (marked ack came (ground arith) (ground arith) (ground (arith, upper_lem v)))
          ]
    ]
  ]

moves_below :
    (s : Sender)
    → (ltb s.base s.nextseqnum && get_or s.acked (ack_slot s s.base) false) ≡ true
    → s.base < s.nextseqnum
moves_below s h = ground arith

moves_marked :
    (s : Sender)
    → (ltb s.base s.nextseqnum && get_or s.acked (ack_slot s s.base) false) ≡ true
    → get_or s.acked (ack_slot s s.base) false ≡ true
moves_marked s h = ground arith

module _ {message : List ℕ} {w : ℕ} {Got : ℕ → Type 0} where
  pub slot-lt :
      {s : Sender} → Sending message w s → Marks Got w s → (i : ℕ) → ack_slot s i < length s.acked
  slot-lt v m i = omega (arith, slot-ring m i, m.ring, mod-lt_double i w v.positive)

  -- A packet that goes out for the first time is not marked.
  pub sent_one-Marks :
      (now : TimeVal) (s : Sender) (p : RtpPacket)
      → Sending message w s
      → s.nextseqnum < length s.packs
      → Marks Got w s
      → Marks Got w (sent_one clear_acked now s p)
  unfolding clear_acked
  sent_one-Marks now s p v h m = record {
    narrow = m.narrow;
    window = m.window;
    ring = length-set s.acked (ack_slot s s.nextseqnum) false ∙ m.ring;
    below = m.below;
    marked = λ i lo hi e. elim (ℕ_discrete (ack_slot s s.nextseqnum) (ack_slot s i)) [
      | yes hit ↦ absurd (ground (arith, cleared i))
      | no miss ↦
          let old : s.nextseqnum ≢ i = λ same. miss (ap (ack_slot s) same) in
          m.marked i lo (omega (arith, v.room, v.small, old)) (ground (arith, cleared i))
    ];
  }
    where
      cleared :
          (i : ℕ)
          → get_or (set s.acked (ack_slot s s.nextseqnum) false) (ack_slot s i) false ≡ (
              if ack_slot s s.nextseqnum == ack_slot s i
              then false
              else get_or s.acked (ack_slot s i) false)
      cleared i =
          get_or-set s.acked (ack_slot s s.nextseqnum) (ack_slot s i) false false
            (slot-lt v m s.nextseqnum)

  -- An ACK of a packet that has been received marks that packet alone.
  pub mark_acked-Marks :
      (e : Event) (s : Sender)
      → Sending message w s
      → ((ack : RtpPacket) → e.reply ≡ some ack → ack.rtp.type ≡ rtp_ack → Got ack.rtp.seq_num)
      → Marks Got w s
      → Marks Got w (mark_acked e s)
  mark_acked-Marks e s v true_acks m =
      mark_acked_cases (Marks Got w) e s v m (noted-Marks m) λ ack came of_ack lo hi. record {
        narrow = m.narrow;
        window = m.window;
        ring = length-set s.acked (ack_slot s ack.rtp.seq_num) true ∙ m.ring;
        below = m.below;
        marked = λ i from to h. elim (ℕ_discrete (ack_slot s ack.rtp.seq_num) (ack_slot s i)) [
          | yes hit ↦
              let same : ack.rtp.seq_num ≡ i =
                same_place w ack.rtp.seq_num i s.base v.positive lo hi from
                  (omega (arith, to, v.sent_read, v.read_window))
                  (sym (slot-ring m ack.rtp.seq_num) ∙ hit ∙ slot-ring m i) in
              subst Got same (true_acks ack came of_ack)
          | no miss ↦ m.marked i from to (
              ground (
                arith,
                get_or-set s.acked (ack_slot s ack.rtp.seq_num) (ack_slot s i) true false
                    (slot-lt v m ack.rtp.seq_num),
              ))
        ];
      }

  pub slide_step :
      (s : Sender)
      → Sending message w s
      → Marks Got w s
      → (ltb s.base s.nextseqnum && get_or s.acked (ack_slot s s.base) false) ≡ true
      → Sending message w (record s { base = (s.base + 1) % 2 ^ 32 })
        × Marks Got w (record s { base = (s.base + 1) % 2 ^ 32 })
        × ((s.base + 1) % 2 ^ 32 ≡ s.base + 1)
  slide_step s v m moves =
      let step : (s.base + 1) % 2 ^ 32 ≡ s.base + 1 =
        omega (arith, v.room, v.small, v.sent_read, moves_below s moves) in
      (
        moved-Sending ((s.base + 1) % 2 ^ 32) s.timer v (omega (arith, step))
            (omega (arith, step, moves_below s moves)),
        record {
          narrow = m.narrow;
          window = m.window;
          ring = m.ring;
          below = λ i h. elim (ℕ_discrete i s.base) [
            | yes first ↦
                m.marked i (omega arith) (omega (arith, moves_below s moves))
                  (ground (arith, moves_marked s moves))
            | no before ↦ m.below i (omega (arith, step))
          ];
          marked = λ i lo hi h. m.marked i (omega (arith, step)) hi h;
        },
        step,
      )

  pub slide-Sending :
      (fuel : ℕ) (s : Sender)
      → Sending message w s
      → Marks Got w s
      → Sending message w (slide fuel s)
        × Marks Got w (slide fuel s)
        × ((slide fuel s).nextseqnum ≡ s.nextseqnum)
        × ((slide fuel s).packs ≡ s.packs)
        × (s.base ≤ (slide fuel s).base)
  unfolding slide
  slide-Sending zero s v m = (v, m, refl, refl, omega arith)
  slide-Sending (suc fuel) s v m =
      elim (Bool-cases (ltb s.base s.nextseqnum && get_or s.acked (ack_slot s s.base) false)) [
        | inr still ↦ rw (still, slide) (v, m, refl, refl, omega arith)
        | inl moves ↦
            let (v₁, m₁, step) = slide_step s v m moves in
            let (v', m', next, packs, further) = slide-Sending fuel _ v₁ m₁ in
            rw (moves, slide) (v', m', next, packs, omega (arith, further, step))
      ]

-- A round of sendMessageOpt from a state of the invariant, whose ACK is of a packet that has been
-- received, does not fault and keeps the invariant and the truth of acked; it ends only with the
-- file read and received to its end.
pub send_message_opt-IsTurn :
    (message : List ℕ) (w : ℕ) (Got : ℕ → Type 0) (s : Sender) (e : Event)
    → Sending message w s
    → Marks Got w s
    → ((ack : RtpPacket) → e.reply ≡ some ack → ack.rtp.type ≡ rtp_ack → Got ack.rtp.seq_num)
    → (t : Turn) × (send_message_opt s e ≡ some t)
      × IsTurn message w s (Marks Got w) (Marks Got w) t
unfolding send_message_opt receive_ack_opt
send_message_opt-IsTurn message w Got s e v m true_acks =
    turn-IsTurn message w clear_acked receive_ack_opt (λ s i. get_or s.acked (ack_slot s i) false)
      (Marks Got w) (Marks Got w) s e v (start-Marks m) (sent_one-Marks e.sent_at)
      (λ t v' m' further unacked.
        let marked = mark_acked e t in
        let (v'', m'', next, packs, further') =
          slide-Sending (marked.nextseqnum - marked.base) marked
            (mark_acked_cases (Sending message w) e t v' v' (noted-Sending t.acked e.replied_at v')
              λ ack came of_ack lo hi. noted-Sending _ e.replied_at v')
            (mark_acked-Marks e t v' true_acks m') in
        (_, refl, v'', m'', next ∙ (mark_acked_keeps e t).0, packs ∙ (mark_acked_keeps e t).1))
      Repeats-Marks
