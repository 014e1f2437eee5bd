-- ===== src/Rtp/Receiver/Deliver.antt =====
-- receiver_def.cpp: what the ring holds, and what the download loop writes. `texts` are the texts of
-- the sender's packets, by sequence number.
use networking_labs.Prelude.{
  ℕ, zero, suc, ◌+◌, ◌*◌, ◌%◌, ◌^◌, ◌≤◌, ◌<◌, ◌≡◌, ◌≢◌, sym, ap, ◌∙◌, inl, inr, List, ◌++◌, none,
  some, arith, get_elem?, get_or, set, length, take, concat, concat-take-suc, get_or-set,
  length-set, get_elem?_lt, mod_window, Option-cases,
}
use native.Mathlib.Decide.{ℕ_discrete}
use networking_labs.Rtp.Packet.{RtpPacket, content}
use networking_labs.Rtp.Receiver.{Receiver, slot, advance, deliver}

-- A packet with sequence number `s` may lie in slot `j`: its text is the sender's.
pub record Fits (texts : List (List ℕ)) (lo hi size j : ℕ) (p : RtpPacket) : Type 0 where
  pub text : get_elem? texts p.rtp.seq_num ≡ some (content p)
  pub from : lo ≤ p.rtp.seq_num
  pub below : p.rtp.seq_num < hi
  pub place : j ≡ p.rtp.seq_num % size

-- The window while it is being moved: its upper end `hi` stays.
pub record Moving (texts : List (List ℕ)) (w hi : ℕ) (r : Receiver) : Type 0 where
  pub window : r.window_size ≡ w
  pub positive : 0 < w
  pub narrow : w < 2 ^ 31
  pub small : length texts + w < 2 ^ 32
  pub ring : length r.pack_buf ≡ 2 * w
  pub within : r.firstneedrecv ≤ length texts
  pub top : hi ≤ r.firstneedrecv + w
  pub written : r.file ≡ concat (take r.firstneedrecv texts)
  pub slots :
      (j : ℕ) (p : RtpPacket)
      → get_or r.pack_buf j none ≡ some p
      → Fits texts r.firstneedrecv hi (2 * w) j p

pub slot-ring :
    {texts : List (List ℕ)} {w hi : ℕ} {r : Receiver}
    → Moving texts w hi r
    → (s : ℕ) → slot r s ≡ s % (2 * w)
slot-ring m s = ap (λ (k : ℕ). s % k) (omega (arith, m.window, m.narrow))

pub slot-lt : (s w : ℕ) → 0 < w → s % (2 * w) < 2 * w
slot-lt s w h = grind arith

module _ {texts : List (List ℕ)} {w hi : ℕ} {r : Receiver} (m : Moving texts w hi r) (p : RtpPacket)
    (e : get_or r.pack_buf (slot r r.firstneedrecv) none ≡ some p) where
  fits : Fits texts r.firstneedrecv hi (2 * w) (slot r r.firstneedrecv) p
  fits = m.slots (slot r r.firstneedrecv) p e

  -- What lies in the slot of the first packet that is needed is that packet.
  pub first_seq : r.firstneedrecv ≡ p.rtp.seq_num
  first_seq =
      mod_window r.firstneedrecv p.rtp.seq_num (2 * w) fits.from (omega (arith, fits.below, m.top))
        (sym (slot-ring m r.firstneedrecv) ∙ fits.place)

  first_text : get_elem? texts r.firstneedrecv ≡ some (content p)
  first_text = ap (get_elem? texts) first_seq ∙ fits.text

  slot_in_ring : slot r r.firstneedrecv < length r.pack_buf
  slot_in_ring =
      omega (arith, m.ring, slot-ring m r.firstneedrecv, slot-lt r.firstneedrecv w m.positive)

  first_small : suc r.firstneedrecv ≤ length texts
  first_small = get_elem?_lt texts r.firstneedrecv first_text

  pub advance_step : (advance r p).firstneedrecv ≡ suc r.firstneedrecv
  unfolding advance
  advance_step = omega (arith, first_small, m.small)

  advance_slots :
      (j : ℕ) (q : RtpPacket)
      → get_or (set r.pack_buf (slot r r.firstneedrecv) none) j none ≡ some q
      → Fits texts (suc r.firstneedrecv) hi (2 * w) j q
  advance_slots j q h = elim (ℕ_discrete (slot r r.firstneedrecv) j) [
    | yes hit ↦ absurd (none_left hit)
    | no miss ↦ record {
      text = (old miss).text;
      from = omega (arith, (old miss).from, not_first miss);
      below = (old miss).below;
      place = (old miss).place;
    }
  ]
    where
      none_left : slot r r.firstneedrecv ≡ j → ⊥
      none_left hit =
          ground (arith, get_or-set r.pack_buf (slot r r.firstneedrecv) j none none slot_in_ring)

      old : slot r r.firstneedrecv ≢ j → Fits texts r.firstneedrecv hi (2 * w) j q
      old miss =
          m.slots j q (
            ground (arith, get_or-set r.pack_buf (slot r r.firstneedrecv) j none none slot_in_ring))

      not_first : slot r r.firstneedrecv ≢ j → r.firstneedrecv ≢ q.rtp.seq_num
      not_first miss same =
          miss
            (slot-ring m r.firstneedrecv ∙ ap (λ (s : ℕ). s % (2 * w)) same ∙ sym (old miss).place)

  pub advance-Moving : Moving texts w hi (advance r p)
  unfolding advance
  advance-Moving = record {
    window = m.window;
    positive = m.positive;
    narrow = m.narrow;
    small = m.small;
    ring = length-set r.pack_buf (slot r r.firstneedrecv) none ∙ m.ring;
    within = omega (arith, first_small, m.small);
    top = omega (arith, first_small, m.small, m.top);
    written = rw advance_step (
        ap (λ l. l ++ content p) m.written
        ∙ sym (concat-take-suc r.firstneedrecv texts first_text));
    slots = rw advance_step advance_slots;
  }

  -- A packet other than the first stays in the ring.
  stays :
      (s : ℕ) (q : RtpPacket)
      → get_or r.pack_buf (slot r s) none ≡ some q
      → r.firstneedrecv ≢ q.rtp.seq_num
      → get_or (advance r p).pack_buf (slot r s) none ≡ some q
  unfolding advance
  stays s q h other = elim (ℕ_discrete (slot r r.firstneedrecv) (slot r s)) [
    | yes hit ↦ absurd (other (first_seq ∙ ap (λ x. x.rtp.seq_num) (same_packet hit)))
    | no miss ↦
        ground
          (arith, get_or-set r.pack_buf (slot r r.firstneedrecv) (slot r s) none none slot_in_ring)
  ]
    where
      same_packet : slot r r.firstneedrecv ≡ slot r s → p ≡ q
      same_packet hit = cc (ap (λ i. get_or r.pack_buf i none) hit)

-- The slot of the first packet that is needed is free.
abbrev pub IsWaiting : Receiver → Type 0
IsWaiting r = get_or r.pack_buf (slot r r.firstneedrecv) none ≡ none

-- The packet with number `s` has been written, or lies in the ring.
pub data Has (r : Receiver) (s : ℕ) : Type 0 where
  passed : s < r.firstneedrecv → Has r s
  kept : (p : RtpPacket) → get_or r.pack_buf (slot r s) none ≡ some p → p.rtp.seq_num ≡ s → Has r s

module _ {texts : List (List ℕ)} {w hi : ℕ} where
  advance-Has :
      {r : Receiver} (m : Moving texts w hi r) (p : RtpPacket)
      → get_or r.pack_buf (slot r r.firstneedrecv) none ≡ some p
      → (s : ℕ) → Has r s
      → Has (advance r p) s
  unfolding advance
  advance-Has {r} m p e s (passed h) = passed (omega (arith, advance_step m p e))
  advance-Has {r} m p e s (kept q h k) = elim (ℕ_discrete r.firstneedrecv s) [
    | yes same ↦ passed (omega (arith, advance_step m p e))
    | no other ↦ kept q (stays m p e s q h (λ x. other (x ∙ k))) k
  ]

  nothing_above :
      {r : Receiver} (m : Moving texts w hi r)
      → hi ≤ r.firstneedrecv
      → get_or r.pack_buf (slot r r.firstneedrecv) none ≡ none
  nothing_above {r} m h = elim (Option-cases (get_or r.pack_buf (slot r r.firstneedrecv) none)) [
    | inl free ↦ free
    | inr (p, e) ↦ absurd (omega (arith, (fits m p e).from, (fits m p e).below))
  ]

  -- The download loop of recvMessage ends by its own test within as many rounds as the window
  -- holds, with the first slot free, and writes the packets in order without losing one.
  pub deliver-Moving :
      (fuel : ℕ) (r : Receiver)
      → Moving texts w hi r
      → hi < r.firstneedrecv + fuel
      → Moving texts w hi (deliver fuel r)
        × IsWaiting (deliver fuel r)
        × (r.firstneedrecv ≤ (deliver fuel r).firstneedrecv)
        × ((s : ℕ) → Has r s → Has (deliver fuel r) s)
  unfolding deliver
  deliver-Moving zero r m h = (m, nothing_above m (omega arith), omega arith, λ s x. x)
  deliver-Moving (suc fuel) r m h =
      elim (Option-cases (get_or r.pack_buf (slot r r.firstneedrecv) none)) [
        | inl free ↦ rw (free, deliver) (m, free, omega arith, λ s x. x)
        | inr (p, e) ↦
            let step = advance_step m p e in
            let (m', free, up, kept') =
              deliver-Moving fuel (advance r p) (advance-Moving m p e) (omega (arith, step)) in
            rw (e, deliver)
              (m', free, omega (arith, up, step), λ s x. kept' s (advance-Has m p e s x))
      ]
