-- ===== src/Rtp/Receiver/Answers.antt =====
-- receiver_def.cpp: which rounds are answered, and how.
use networking_labs.Prelude.{
  ℕ, zero, suc, ◌+◌, ◌≤◌, ◌<◌, ◌≡◌, refl, ◌∙◌, List, none, some, true, false, ltb, ◌==◌, arith,
  get_elem?, get_or, length, inl, inr, Bool-cases, Option-cases,
}
use networking_labs.Rtp.Packet.{RtpPacket, content, rtp_data, rtp_end}
use networking_labs.Rtp.Receiver.{
  Receiver, Arrival, Round, next, stop, ack, slot, time_out, outside, advance, deliver, store,
  accept, on_data, round,
}
use networking_labs.Rtp.Receiver.Window.{Window}
use networking_labs.Rtp.Receiver.Rounds.{
  after, answer, IsGenuine, inside, timed-Window, time_out_cases,
}

-- A round that notes the clock and no more, or one that takes a packet of the window and answers.
pub data Takes (texts : List (List ℕ)) (ack_seq : Receiver → RtpPacket → ℕ) (r : Receiver)
    (x : Round) : Type 0 where
  idle : (now : ℕ) → after x ≡ record r { timer = now } → answer x ≡ none → Takes texts ack_seq r x
  takes :
      (p : RtpPacket) (now : ℕ) (t : Receiver)
      → t ≡ record r { timer = now }
      → get_elem? texts p.rtp.seq_num ≡ some (content p)
      → t.firstneedrecv ≤ p.rtp.seq_num
      → p.rtp.seq_num < t.firstneedrecv + t.window_size
      → after x ≡ accept t p
      → answer x ≡ some (ack (ack_seq (accept t p) p))
      → Takes texts ack_seq r x

module _ {texts : List (List ℕ)} {w : ℕ} where
  pub round-Takes :
      (ack_seq : Receiver → RtpPacket → ℕ) (r : Receiver) (a : Arrival)
      → Window texts w r
      → IsGenuine texts a
      → Takes texts ack_seq r (round ack_seq r a)
  unfolding round on_data
  round-Takes ack_seq r a v genuine = elim (Option-cases a.newpack) [
    | inl quiet ↦
        rw (quiet, round)
          (time_out_cases (Takes texts ack_seq r) r a.now none (idle r.timer refl refl)
            (idle r.timer refl refl))
    | inr (p, came) ↦
        let (of_data, text) = genuine p came in
        let not_end : (p.rtp.type == rtp_end) ≡ false = ground arith in
        let is_data : (p.rtp.type == rtp_data) ≡ true = ground arith in
        let t : Receiver = record r { timer = a.at } in
        elim (Bool-cases (outside t p.rtp.seq_num)) [
          | inl out ↦ rw (came, round, not_end, is_data, out) (idle a.at refl refl)
          | inr within ↦
              let (lo, hi) = inside t p.rtp.seq_num (timed-Window a.at v) within in
              rw (came, round, not_end, is_data, within)
                (time_out_cases (Takes texts ack_seq r) (accept t p) a.now _
                  (takes p a.at t refl text lo (omega (arith, v.moving.window)) refl refl)
                  (takes p a.at t refl text lo (omega (arith, v.moving.window)) refl refl))
        ]
  ]

deliver_timer : (fuel : ℕ) (r : Receiver) → (deliver fuel r).timer ≡ r.timer
unfolding deliver advance
deliver_timer zero r = refl
deliver_timer (suc fuel) r = elim (Option-cases (get_or r.pack_buf (slot r r.firstneedrecv) none)) [
  | inl free ↦ rw (free, deliver) refl
  | inr (p, e) ↦ rw (e, deliver) (deliver_timer fuel (advance r p))
]

store_timer : (r : Receiver) (p : RtpPacket) → (store r p).timer ≡ r.timer
unfolding store
store_timer r p = ground arith

accept_timer : (r : Receiver) (p : RtpPacket) → (accept r p).timer ≡ r.timer
unfolding accept
accept_timer r p = deliver_timer (suc (length r.pack_buf)) (store r p) ∙ store_timer r p

-- The packet that is needed is taken in and answered, and the loop goes on, where the clock shows no
-- more than ten seconds since it came.
pub round_needed :
    {texts : List (List ℕ)} {w : ℕ} (ack_seq : Receiver → RtpPacket → ℕ) (r : Receiver)
    (a : Arrival) (p : RtpPacket)
    → Window texts w r
    → a.newpack ≡ some p
    → p.rtp.type ≡ rtp_data
    → p.rtp.seq_num ≡ r.firstneedrecv
    → a.now ≤ a.at + 10
    → round ack_seq r a
      ≡ next
          (accept (record r { timer = a.at }) p)
          (some (ack (ack_seq (accept (record r { timer = a.at }) p) p)))
unfolding round on_data outside time_out
round_needed ack_seq r a p v came of_data needed soon =
    let t : Receiver = record r { timer = a.at } in
    let not_end : (p.rtp.type == rtp_end) ≡ false = ground arith in
    let is_data : (p.rtp.type == rtp_data) ≡ true = ground arith in
    let within : outside t p.rtp.seq_num ≡ false =
      ground (arith, v.moving.window, v.moving.within, v.moving.small, v.moving.positive) in
    let early : ltb ((accept t p).timer + 10) a.now ≡ false = ground (arith, accept_timer t p) in
    rw (came, round, not_end, is_data, within, early) refl

-- The end of the connection is answered, and the loop is left.
pub round_end :
    (ack_seq : Receiver → RtpPacket → ℕ) (r : Receiver) (a : Arrival) (p : RtpPacket)
    → a.newpack ≡ some p
    → p.rtp.type ≡ rtp_end
    → round ack_seq r a ≡ stop (record r { timer = a.at }) (some (ack p.rtp.seq_num))
unfolding round
round_end ack_seq r a p came of_end =
    let is_end : (p.rtp.type == rtp_end) ≡ true = ground arith in rw (came, round, is_end) refl
