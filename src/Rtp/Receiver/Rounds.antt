-- ===== src/Rtp/Receiver/Rounds.antt =====
-- receiver_def.cpp: a round of `recvMessage` and of `recvMessageOpt`.
use mathlib.Core.Option.{some-injective}
use networking_labs.Prelude.{
  ℕ, ◌+◌, ◌%◌, ◌^◌, ◌≤◌, ◌<◌, ◌≡◌, refl, subst, List, Option, none, some, true, false, ltb, ◌==◌,
  arith, get_elem?, length, get_elem?_lt, inl, inr, Bool-cases, Option-cases,
}
use networking_labs.Rtp.Packet.{
  RtpPacket, IsPacket, content, rtp_data, rtp_end, rtp_ack, rtp_packet_text, fresh_memory,
}
use networking_labs.Rtp.Packet.Build.{rtp_packet_text-IsPacket}
use networking_labs.Rtp.Receiver.{
  Receiver, Arrival, Round, next, stop, ack, time_out, outside, accept, on_data, round,
}
use networking_labs.Rtp.Receiver.Deliver.{Has, passed, kept}
use networking_labs.Rtp.Receiver.Window.{Window, accept-Window}

abbrev pub after : Round → Receiver
after (next r out) = r
after (stop r out) = r

abbrev pub answer : Round → Option RtpPacket
answer (next r out) = out
answer (stop r out) = out

-- The round leaves the window in order, does not move it back and forgets no packet; an answer is
-- an intact ACK, with the number of a packet `p` that is there or what `ack_seq` makes of it.
pub record IsRound (texts : List (List ℕ)) (w : ℕ) (ack_seq : Receiver → RtpPacket → ℕ)
    (r : Receiver) (x : Round) : Type 0 where
  pub window : Window texts w (after x)
  pub further : r.firstneedrecv ≤ (after x).firstneedrecv
  pub keeps : (s : ℕ) → Has r s → Has (after x) s
  pub answers :
      (q : RtpPacket)
      → answer x ≡ some q
      → IsPacket q
        × (q.rtp.type ≡ rtp_ack)
        × (p : RtpPacket) × (q.rtp.seq_num ≡ ack_seq (after x) p)
        × Has (after x) p.rtp.seq_num

-- A packet that arrives while the message is sent is one of its data packets.
abbrev pub IsGenuine : List (List ℕ) → Arrival → Type 0
IsGenuine texts a =
    (p : RtpPacket)
    → a.newpack ≡ some p
    → (p.rtp.type ≡ rtp_data) × (get_elem? texts p.rtp.seq_num ≡ some (content p))

pub timed-Has : {r : Receiver} (now s : ℕ) → Has r s → Has (record r { timer = now }) s
timed-Has now s (passed h) = passed h
timed-Has now s (kept p e k) = kept p e k

pub time_out_cases {ℓ} :
    (P : Round → Type ℓ) (r : Receiver) (now : ℕ) (sent : Option RtpPacket)
    → P (next r sent)
    → P (stop r sent)
    → P (time_out r now sent)
unfolding time_out
time_out_cases P r now sent goes ends = elim (Bool-cases (ltb (r.timer + 10) now)) [
  | inl late ↦ rw late ends
  | inr early ↦ rw early goes
]

-- The number of an ACK survives the conversion to 32 bits.
ack_answers :
    (ack_seq : Receiver → RtpPacket → ℕ) (r : Receiver) (p q : RtpPacket)
    → ack_seq r p < 2 ^ 32
    → Has r p.rtp.seq_num
    → some (ack (ack_seq r p)) ≡ some q
    → IsPacket q
      × (q.rtp.type ≡ rtp_ack)
      × (p : RtpPacket) × (q.rtp.seq_num ≡ ack_seq r p)
      × Has r p.rtp.seq_num
unfolding rtp_packet_text
ack_answers ack_seq r p q bound has came =
    subst
      (λ x.
        IsPacket x
        × (x.rtp.type ≡ rtp_ack)
        × (p : RtpPacket) × (x.rtp.seq_num ≡ ack_seq r p)
        × Has r p.rtp.seq_num)
      (some-injective _ _ came)
      (
        (rtp_packet_text-IsPacket fresh_memory rtp_ack (ack_seq r p % 2 ^ 32) (omega arith)
            (omega arith)).0,
        refl,
        p,
        omega arith,
        has,
      )

pub inside :
    {texts : List (List ℕ)} {w : ℕ} (r : Receiver) (s : ℕ)
    → Window texts w r
    → outside r s ≡ false
    → (r.firstneedrecv ≤ s) × (s < r.firstneedrecv + w)
unfolding outside
inside r s v h = ground (arith, v.moving.window, v.moving.within, v.moving.small)

module _ {texts : List (List ℕ)} {w : ℕ} where
  pub timed-Window :
      {r : Receiver} (now : ℕ) → Window texts w r → Window texts w (record r { timer = now })
  timed-Window now v = record {
    moving = record {
      window = v.moving.window;
      positive = v.moving.positive;
      narrow = v.moving.narrow;
      small = v.moving.small;
      ring = v.moving.ring;
      within = v.moving.within;
      top = v.moving.top;
      written = v.moving.written;
      slots = v.moving.slots;
    };
    waiting = v.waiting;
  }

  silent-IsRound :
      (ack_seq : Receiver → RtpPacket → ℕ) (r : Receiver) (x : Round) (now : ℕ)
      → Window texts w r
      → after x ≡ record r { timer = now }
      → answer x ≡ none
      → IsRound texts w ack_seq r x
  silent-IsRound ack_seq r x now v e silent = record {
    window = rw e (timed-Window now v);
    further = rw e (omega arith);
    keeps = λ s h. rw e (timed-Has now s h);
    answers = λ q came. cc;
  }

  -- A packet of the window is taken in and answered, another one is passed over.
  on_data-IsRound :
      (ack_seq : Receiver → RtpPacket → ℕ) (r : Receiver) (p : RtpPacket) (now : ℕ)
      → ((t : Receiver) → Window texts w t → ack_seq t p < 2 ^ 32)
      → Window texts w r
      → get_elem? texts p.rtp.seq_num ≡ some (content p)
      → IsRound texts w ack_seq r (on_data ack_seq r p now)
  unfolding on_data
  on_data-IsRound ack_seq r p now fits v text = elim (Bool-cases (outside r p.rtp.seq_num)) [
    | inl out ↦ rw out (silent-IsRound ack_seq r (next r none) r.timer v refl refl)
    | inr within ↦
        let (lo, hi) = inside r p.rtp.seq_num v within in
        let (v', further, keeps, has) = accept-Window v p text lo hi in
        let bound = fits (accept r p) v' in
        let x = ack (ack_seq (accept r p) p) in
        let done : IsRound texts w ack_seq r (next (accept r p) (some x)) = record {
          window = v';
          further = further;
          keeps = keeps;
          answers = λ q came. ack_answers ack_seq (accept r p) p q bound has came;
        } in
        let left : IsRound texts w ack_seq r (stop (accept r p) (some x)) = record {
          window = v';
          further = further;
          keeps = keeps;
          answers = λ q came. ack_answers ack_seq (accept r p) p q bound has came;
        } in
        rw within (time_out_cases (IsRound texts w ack_seq r) (accept r p) now (some x) done left)
  ]

  -- A round of recvMessage or recvMessageOpt in which nothing or a packet of the file arrives
  -- keeps the receiver's invariant, does not move the window back and forgets no packet; what it
  -- answers is an intact ACK with the number of a packet that is there, or what the variant makes
  -- of it.
  pub round-IsRound :
      (ack_seq : Receiver → RtpPacket → ℕ) (r : Receiver) (a : Arrival)
      → ((t : Receiver) (p : RtpPacket)
          → Window texts w t
          → p.rtp.seq_num < length texts
          → ack_seq t p < 2 ^ 32)
      → Window texts w r
      → IsGenuine texts a
      → IsRound texts w ack_seq r (round ack_seq r a)
  unfolding round
  round-IsRound ack_seq r a fits v genuine = elim (Option-cases a.newpack) [
    | inl quiet ↦
        rw (quiet, round)
          (time_out_cases (IsRound texts w ack_seq r) r a.now none
            (silent-IsRound ack_seq r (next r none) r.timer v refl refl)
            (silent-IsRound ack_seq r (stop r none) r.timer v refl refl))
    | inr (p, came) ↦
        let (of_data, text) = genuine p came in
        let x =
          on_data-IsRound ack_seq (record r { timer = a.at }) p a.now
            (λ t u. fits t p u (get_elem?_lt texts p.rtp.seq_num text)) (timed-Window a.at v)
            text in
        let not_end : (p.rtp.type == rtp_end) ≡ false = ground arith in
        let is_data : (p.rtp.type == rtp_data) ≡ true = ground arith in
        rw (came, round, not_end, is_data)
          (record {
            window = x.window;
            further = x.further;
            keeps = λ s h. x.keeps s (timed-Has a.at s h);
            answers = x.answers;
          })
  ]

-- Where nothing or the end of the connection arrives, only the clock is noted.
pub end_round :
    (ack_seq : Receiver → RtpPacket → ℕ) (r : Receiver) (a : Arrival)
    → ((p : RtpPacket) → a.newpack ≡ some p → p.rtp.type ≡ rtp_end)
    → (now : ℕ) × (after (round ack_seq r a) ≡ record r { timer = now })
unfolding round time_out
end_round ack_seq r a ending = elim (Option-cases a.newpack) [
  | inl quiet ↦
      (r.timer, rw (quiet, round) (time_out_cases (λ x. after x ≡ r) r a.now none refl refl))
  | inr (p, came) ↦
      let is_end : (p.rtp.type == rtp_end) ≡ true = ground (arith, ending p came) in
      (a.at, rw (came, round, is_end))
]

-- Where only packets below the window arrive, nothing is sent.
pub silent_round :
    (ack_seq : Receiver → RtpPacket → ℕ) (r : Receiver) (a : Arrival)
    → ((p : RtpPacket)
        → a.newpack ≡ some p
        → (p.rtp.type ≡ rtp_data) × (p.rtp.seq_num < r.firstneedrecv))
    → answer (round ack_seq r a) ≡ none
unfolding round on_data outside
silent_round ack_seq r a below = elim (Option-cases a.newpack) [
  | inl quiet ↦ rw (quiet, round) (time_out_cases (λ x. answer x ≡ none) r a.now none refl refl)
  | inr (p, came) ↦
      let (of_data, old) = below p came in
      let not_end : (p.rtp.type == rtp_end) ≡ false = ground arith in
      let is_data : (p.rtp.type == rtp_data) ≡ true = ground arith in
      let passed_over : ltb p.rtp.seq_num r.firstneedrecv ≡ true = ground arith in
      rw (came, round, not_end, is_data, passed_over) refl
]
