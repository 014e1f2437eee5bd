-- ===== src/Rtp/Receiver/Window.antt =====
-- receiver_def.cpp: the invariant of the receiver's loops.
use native.Mathlib.Decide.{ℕ_discrete, dec_lt}
use networking_labs.Prelude.{
  ℕ, suc, ◌+◌, ◌*◌, ◌^◌, ◌≤◌, ◌<◌, ◌≡◌, ◌≢◌, refl, sym, subst, inl, inr, ◌∙◌, List, Option, none,
  some, arith, get_elem?, get_or, set, length, get_or-set, get_or-replicate, length-set,
  length-replicate, mod_window, Option-cases,
}
use networking_labs.Rtp.Packet.{RtpPacket, content}
use networking_labs.Rtp.Receiver.{Receiver, slot, ring_size, init_message, store, accept}
use networking_labs.Rtp.Receiver.Deliver.{
  Fits, Moving, Has, passed, kept, IsWaiting, slot-ring, slot-lt, deliver-Moving,
}

-- Between two rounds: the window begins at the first packet that is needed, which has not come.
pub record Window (texts : List (List ℕ)) (w : ℕ) (r : Receiver) : Type 0 where
  pub moving : Moving texts w (r.firstneedrecv + w) r
  pub waiting : IsWaiting r

-- A receiver starts with an empty window.
pub init_message-Window :
    (texts : List (List ℕ)) (w now : ℕ)
    → 0 < w
    → w < 2 ^ 31
    → length texts + w < 2 ^ 32
    → Window texts w (init_message w now)
unfolding init_message
init_message-Window texts w now positive narrow small = record {
  moving = record {
    window = refl;
    positive = positive;
    narrow = narrow;
    small = small;
    ring = length-replicate (ring_size w) none ∙ omega arith;
    within = omega arith;
    top = omega arith;
    written = refl;
    slots = λ j p e. cc (get_or-replicate {A = Option RtpPacket} (ring_size w) j none);
  };
  waiting = get_or-replicate (ring_size w) (slot (init_message w now) 0) none;
}

module _ {texts : List (List ℕ)} {w hi : ℕ} {r : Receiver} (m : Moving texts w hi r) (p : RtpPacket)
    (text : get_elem? texts p.rtp.seq_num ≡ some (content p))
    (from : r.firstneedrecv ≤ p.rtp.seq_num) (below : p.rtp.seq_num < hi) where
  slot_in_ring : slot r p.rtp.seq_num < length r.pack_buf
  slot_in_ring =
      omega (arith, m.ring, slot-ring m p.rtp.seq_num, slot-lt p.rtp.seq_num w m.positive)

  new-Fits : Fits texts r.firstneedrecv hi (2 * w) (slot r p.rtp.seq_num) p
  new-Fits = record { text = text; from = from; below = below; place = slot-ring m p.rtp.seq_num }

  store_slots :
      (j : ℕ) (q : RtpPacket)
      → get_or (set r.pack_buf (slot r p.rtp.seq_num) (some p)) j none ≡ some q
      → Fits texts r.firstneedrecv hi (2 * w) j q
  store_slots j q h = elim (ℕ_discrete (slot r p.rtp.seq_num) j) [
    | yes hit ↦
        let same : p ≡ q =
          ground
            (arith, get_or-set r.pack_buf (slot r p.rtp.seq_num) j (some p) none slot_in_ring) in
        subst (λ x. Fits texts r.firstneedrecv hi (2 * w) j x) same
          (subst (λ i. Fits texts r.firstneedrecv hi (2 * w) i p) hit new-Fits)
    | no miss ↦
        m.slots j q (
          ground (arith, get_or-set r.pack_buf (slot r p.rtp.seq_num) j (some p) none slot_in_ring))
  ]

  pub store-Moving : Moving texts w hi (store r p)
  unfolding store
  store-Moving = elim (Option-cases (get_or r.pack_buf (slot r p.rtp.seq_num) none)) [
    | inl free ↦
        rw (free, store)
          (record {
            window = m.window;
            positive = m.positive;
            narrow = m.narrow;
            small = m.small;
            ring = length-set r.pack_buf (slot r p.rtp.seq_num) (some p) ∙ m.ring;
            within = m.within;
            top = m.top;
            written = m.written;
            slots = store_slots;
          })
    | inr (old, e) ↦ rw (e, store) m
  ]

  -- Two packets of the window in one slot have one number.
  same_slot :
      (q : RtpPacket)
      → get_or r.pack_buf (slot r p.rtp.seq_num) none ≡ some q
      → q.rtp.seq_num ≡ p.rtp.seq_num
  same_slot q e = elim (dec_lt p.rtp.seq_num q.rtp.seq_num) [
    | yes lt ↦ sym (
        mod_window p.rtp.seq_num q.rtp.seq_num (2 * w) (omega arith)
          (omega (arith, m.top, fits.below)) (sym (slot-ring m p.rtp.seq_num) ∙ fits.place))
    | no ge ↦
        mod_window q.rtp.seq_num p.rtp.seq_num (2 * w) (omega arith)
          (omega (arith, m.top, fits.from)) (sym fits.place ∙ slot-ring m p.rtp.seq_num)
  ]
    where
      fits : Fits texts r.firstneedrecv hi (2 * w) (slot r p.rtp.seq_num) q
      fits = m.slots (slot r p.rtp.seq_num) q e

  store_first : (store r p).firstneedrecv ≡ r.firstneedrecv
  unfolding store
  store_first = ground arith

  store-Has_new : Has (store r p) p.rtp.seq_num
  unfolding store
  store-Has_new = elim (Option-cases (get_or r.pack_buf (slot r p.rtp.seq_num) none)) [
    | inl free ↦
        rw (free, store)
          (kept p
            (ground (
              arith,
              get_or-set r.pack_buf (slot r p.rtp.seq_num) (slot r p.rtp.seq_num) (some p) none
                  slot_in_ring,
            ))
            refl)
    | inr (old, e) ↦ rw (e, store) (kept old e (same_slot old e))
  ]

  store-Has : (s : ℕ) → Has r s → Has (store r p) s
  unfolding store
  store-Has s (passed h) = passed (omega (arith, store_first))
  store-Has s (kept q e k) = elim (Option-cases (get_or r.pack_buf (slot r p.rtp.seq_num) none)) [
    | inl free ↦
        rw (free, store)
          (kept q
            (ground (
              arith,
              get_or-set r.pack_buf (slot r p.rtp.seq_num) (slot r s) (some p) none slot_in_ring,
            ))
            k)
    | inr (old, o) ↦ rw (o, store) (kept q e k)
  ]

Moving-raise :
    {texts : List (List ℕ)} {w hi top : ℕ} {r : Receiver}
    → hi ≤ top
    → top ≤ r.firstneedrecv + w
    → Moving texts w hi r
    → Moving texts w top r
Moving-raise h t m = record {
  window = m.window;
  positive = m.positive;
  narrow = m.narrow;
  small = m.small;
  ring = m.ring;
  within = m.within;
  top = t;
  written = m.written;
  slots = λ j p e.
      let f = m.slots j p e in
      record { text = f.text; from = f.from; below = omega (arith, f.below); place = f.place };
}

-- Taking in a packet of the window keeps the invariant: the file is the beginning of the texts,
-- the ring holds packets of the window in their slots, the slot of the first packet that is needed
-- is free, the window has not moved back, and the new packet and all old ones are there.
pub accept-Window :
    {texts : List (List ℕ)} {w : ℕ} {r : Receiver} (v : Window texts w r) (p : RtpPacket)
    → get_elem? texts p.rtp.seq_num ≡ some (content p)
    → r.firstneedrecv ≤ p.rtp.seq_num
    → p.rtp.seq_num < r.firstneedrecv + w
    → Window texts w (accept r p)
      × (r.firstneedrecv ≤ (accept r p).firstneedrecv)
      × ((s : ℕ) → Has r s → Has (accept r p) s)
      × Has (accept r p) p.rtp.seq_num
unfolding accept
accept-Window {texts} {w} {r} v p text from below =
    let m = store-Moving v.moving p text from below in
    let first = store_first v.moving p text from below in
    let (m', free, up, keep) =
      deliver-Moving (suc (length r.pack_buf)) (store r p) m
        (omega (arith, first, v.moving.ring, v.moving.positive)) in
    (
      record { moving = Moving-raise (omega (arith, up, first)) (omega arith) m'; waiting = free },
      omega (arith, up, first),
      λ s x. keep s (store-Has v.moving p text from below s x),
      keep p.rtp.seq_num (store-Has_new v.moving p text from below),
    )

-- The packet that is needed is not there.
pub Has-first :
    {texts : List (List ℕ)} {w : ℕ} {r : Receiver} → Window texts w r → ¬ Has r r.firstneedrecv
Has-first v (passed h) = omega arith
Has-first v (kept q e k) = cc (v.waiting)

-- The packet that the receiver waits for moves its window on.
pub accept_progress :
    {texts : List (List ℕ)} {w : ℕ} {r : Receiver} (v : Window texts w r) (p : RtpPacket)
    → get_elem? texts p.rtp.seq_num ≡ some (content p)
    → p.rtp.seq_num ≡ r.firstneedrecv
    → r.firstneedrecv < (accept r p).firstneedrecv
accept_progress {texts} {w} {r} v p text e =
    let (v', up, keep, has) =
      accept-Window v p text (omega arith) (omega (arith, v.moving.positive)) in
    let missing : r.firstneedrecv ≢ (accept r p).firstneedrecv =
      λ same. Has-first v' (subst (Has (accept r p)) (e ∙ same) has) in
    omega (arith, up, missing)
