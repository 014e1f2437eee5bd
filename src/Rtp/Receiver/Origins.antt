-- ===== src/Rtp/Receiver/Origins.antt =====
-- receiver_def.cpp: no packet is there that has not come.
use native.Mathlib.Decide.{ℕ_discrete}
use networking_labs.Prelude.{
  ℕ, zero, suc, ◌+◌, ◌<◌, ◌≤◌, ◌≡◌, refl, sym, ap, ◌∙◌, ◌⊎◌, inl, inr, List, [], ◌∷◌, Option, none,
  some, arith, get_elem?, get_or, set, length, Option-cases, get_or-replicate,
}
use networking_labs.Rtp.Packet.{RtpPacket, content}
use networking_labs.Rtp.Receiver.{
  Receiver, slot, ring_size, init_message, advance, deliver, store, accept,
}
use networking_labs.Rtp.Receiver.Deliver.{
  Moving, Has, passed, kept, first_seq, advance_step, advance-Moving,
}
use networking_labs.Rtp.Receiver.Window.{Window, store-Moving}

-- What a slot holds after a write is what was written or what it held.
get_or-set_cases {ℓ} :
    {A : Type ℓ} (xs : List A) (i j : ℕ) (v d : A)
    → (get_or (set xs i v) j d ≡ v) ⊎ (get_or (set xs i v) j d ≡ get_or xs j d)
get_or-set_cases [] i j v d = inr refl
get_or-set_cases (x ∷ xs) zero zero v d = inl refl
get_or-set_cases (x ∷ xs) zero (suc j) v d = inr refl
get_or-set_cases (x ∷ xs) (suc i) zero v d = inr refl
get_or-set_cases (x ∷ xs) (suc i) (suc j) v d = get_or-set_cases xs i j v d

module _ {texts : List (List ℕ)} {w hi : ℕ} where
  Has-advance :
      {r : Receiver} (m : Moving texts w hi r) (p : RtpPacket)
      → get_or r.pack_buf (slot r r.firstneedrecv) none ≡ some p
      → (s : ℕ) → Has (advance r p) s
      → Has r s
  unfolding advance
  Has-advance {r} m p e s (passed h) = elim (ℕ_discrete s r.firstneedrecv) [
    | yes first ↦
        kept p (ap (λ (i : ℕ). get_or r.pack_buf (slot r i) none) first ∙ e)
          (sym (first_seq m p e) ∙ sym first)
    | no before ↦ passed (omega (arith, advance_step m p e))
  ]
  Has-advance {r} m p e s (kept q h k) =
      elim (get_or-set_cases r.pack_buf (slot r r.firstneedrecv) (slot r s) none none) [
        | inl free ↦ cc
        | inr same ↦ kept q (sym same ∙ h) k
      ]

  Has-deliver :
      (fuel : ℕ) (r : Receiver) → Moving texts w hi r → (s : ℕ) → Has (deliver fuel r) s → Has r s
  unfolding deliver
  Has-deliver zero r m s = λ h. h
  Has-deliver (suc fuel) r m s =
      elim (Option-cases (get_or r.pack_buf (slot r r.firstneedrecv) none)) [
        | inl free ↦ rw (free, deliver) (λ h. h)
        | inr (p, e) ↦
            rw (e, deliver)
              (λ h. Has-advance m p e s (Has-deliver fuel (advance r p) (advance-Moving m p e) s h))
      ]

Has-store :
    (r : Receiver) (p : RtpPacket) (s : ℕ) → Has (store r p) s → Has r s ⊎ (p.rtp.seq_num ≡ s)
unfolding store
Has-store r p s = elim (Option-cases (get_or r.pack_buf (slot r p.rtp.seq_num) none)) [
  | inl free ↦
      rw (free, store)
        λ h. elim h [
          | passed below ↦ inl (passed below)
          | kept q there number ↦
              elim (get_or-set_cases r.pack_buf (slot r p.rtp.seq_num) (slot r s) (some p) none) [
                | inl new ↦ inr cc
                | inr same ↦ inl (kept q (sym same ∙ there) number)
              ]
        ]
  | inr (old, e) ↦ rw (e, store) (λ h. inl h)
]

-- After a packet is taken in, what is there was there before, or is that packet.
pub Has-accept :
    {texts : List (List ℕ)} {w : ℕ} {r : Receiver} (v : Window texts w r) (p : RtpPacket)
    → get_elem? texts p.rtp.seq_num ≡ some (content p)
    → r.firstneedrecv ≤ p.rtp.seq_num
    → p.rtp.seq_num < r.firstneedrecv + w
    → (s : ℕ) → Has (accept r p) s
    → Has r s ⊎ (p.rtp.seq_num ≡ s)
unfolding accept
Has-accept {r} v p text from below s h = Has-store r p s (
    Has-deliver (suc (length r.pack_buf)) (store r p) (store-Moving v.moving p text from below) s h)

-- At the start no packet is there.
pub init_message_empty : (w now s : ℕ) → ¬ Has (init_message w now) s
unfolding init_message
init_message_empty w now s (passed h) = absurd (omega arith)
init_message_empty w now s (kept q e k) =
    cc (get_or-replicate {A = Option RtpPacket} (ring_size w) (slot (init_message w now) s) none)
