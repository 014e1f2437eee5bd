-- ===== src/Rtp/Sender/Turns.antt =====
-- sender_def.cpp: what a round of either loop comes to.
use networking_labs.Prelude.{
  ℕ, suc, ◌-◌, ◌≤◌, ◌<◌, ◌≡◌, refl, sym, ap, ◌∙◌, inl, inr, List, [], map, Option, some, Bool,
  false, ◌==◌, arith, take, length, Bool-cases,
}
use networking_labs.Rtp.Packet.{RtpPacket, content}
use networking_labs.Rtp.Sender.{Sender, Event, Turn, finished, again, turn, read_ahead}
use networking_labs.Rtp.Sender.Invariant.{
  Sending, Extends, IsRead, texts, sent_texts, read_file-Sending,
}
use networking_labs.Rtp.Sender.Sends.{Repeats, sent_one, send_new-Sending, time_out-Sending}

-- The packets that had been sent are still there, and perhaps more.
pub record Grows (s t : Sender) : Type 0 where
  pub further : s.nextseqnum ≤ t.nextseqnum
  pub same_before : take s.nextseqnum (texts t) ≡ sent_texts s

-- What a round of the sender `s` may end in: the whole file read and acknowledged, or everything
-- that was read sent, with something still to be acknowledged.
pub data IsTurn (message : List ℕ) (w : ℕ) (s : Sender) (P Q : Sender → Type 0)
    : Turn → Type 0 where
  ends :
      {t : Sender}
      → Sending message w t
      → Grows s t
      → P t
      → t.base ≡ length t.packs
      → t.rest ≡ []
      → IsTurn message w s P Q (finished t)
  goes_on :
      {t : Sender}
      → Sending message w t
      → Grows s t
      → Q t
      → t.nextseqnum ≡ length t.packs
      → s.base < length t.packs
      → IsTurn message w s P Q (again t)

module _ (message : List ℕ) (w : ℕ) (clear : Sender → List Bool)
    (receive : Event → Sender → Option Sender) (skip : Sender → ℕ → Bool) (P Q : Sender → Type 0)
    (s : Sender) (e : Event) where
  -- What the reading of the ACK has to keep.
  abbrev pub Receives : Type 0
  Receives =
      (t : Sender)
      → Sending message w t
      → P t
      → s.nextseqnum ≤ t.nextseqnum
      → t.base < t.nextseqnum
      → (u : Sender) × (receive e t ≡ some u)
        × Sending message w u
        × Q u
        × (u.nextseqnum ≡ t.nextseqnum)
        × (u.packs ≡ t.packs)

  pub turn-IsTurn :
      Sending message w s
      → ((t : Sender) → Extends s t → P t)
      → ((t : Sender) (p : RtpPacket)
          → Sending message w t
          → t.nextseqnum < length t.packs
          → P t
          → P (sent_one clear e.sent_at t p))
      → Receives
      → ((t u : Sender) → Repeats t u → Q t → Q u)
      → (t : Turn) × (turn clear receive skip s e ≡ some t) × IsTurn message w s P Q t
  unfolding turn
  turn-IsTurn v start keep receives repeats = elim (Bool-cases (s₁.base == s₁.totseq)) [
    | inl full ↦
        let all_acked : s₁.base ≡ length s₁.packs = ground (arith, v₁.total) in
        (finished s₁, rw full, ends v₁ grows₁ (start s₁ ext) all_acked (at_end all_acked read))
    | inr more ↦
        let (s₂, sent, v₂, p₂, next₂, packs₂, base₂, rest₂) =
          send_new-Sending P clear e.sent_at keep (s₁.totseq - s₁.nextseqnum) s₁ v₁ (start s₁ ext)
            (omega (arith, v₁.total, v₁.sent_read)) in
        let (s₃, got, v₃, q₃, next₃, packs₃) =
          receives s₂ v₂ p₂ (omega (arith, next₂, ext.same_next, v₁.sent_read))
            (open_window next₂ base₂ more) in
        let (s₄, done, v₄, r) = time_out-Sending skip e s₃ v₃ in
        (
          again s₄,
          rw (more, sent, got, done),
          went_on s₂ s₃ s₄ more next₂ packs₂ next₃ packs₃ r v₄ (repeats s₃ s₄ r q₃),
        )
  ]
    where
      s₁ : Sender
      s₁ = read_ahead s

      v₁ : Sending message w s₁
      v₁ = (read_file-Sending (suc (length s.rest)) s v (omega arith)).0

      ext : Extends s s₁
      ext = (read_file-Sending (suc (length s.rest)) s v (omega arith)).1

      read : IsRead w s₁
      read = (read_file-Sending (suc (length s.rest)) s v (omega arith)).2

      at_end : s₁.base ≡ length s₁.packs → IsRead w s₁ → s₁.rest ≡ []
      at_end h (inl full_window) = absurd (omega (arith, v₁.positive))
      at_end h (inr empty) = empty

      not_acked : {n : ℕ} → n ≡ length s₁.packs → (s₁.base == s₁.totseq) ≡ false → s.base < n
      not_acked e more = ground (arith, v₁.total, v₁.first_sent, v₁.sent_read, ext.same_base)

      open_window :
          {b n : ℕ} → n ≡ length s₁.packs → b ≡ s₁.base → (s₁.base == s₁.totseq) ≡ false → b < n
      open_window same_next same_base more =
          omega (arith, not_acked refl more, same_next, same_base, ext.same_base)

      grows₁ : Grows s s₁
      grows₁ = record {
        further = omega (arith, ext.same_next);
        same_before = ap (λ (n : ℕ). take n (texts s₁)) (sym ext.same_next) ∙ ext.same_texts;
      }

      went_on :
          (s₂ s₃ s₄ : Sender)
          → (s₁.base == s₁.totseq) ≡ false
          → s₂.nextseqnum ≡ length s₁.packs
          → s₂.packs ≡ s₁.packs
          → s₃.nextseqnum ≡ s₂.nextseqnum
          → s₃.packs ≡ s₂.packs
          → Repeats s₃ s₄
          → Sending message w s₄
          → Q s₄
          → IsTurn message w s P Q (again s₄)
      went_on s₂ s₃ s₄ more next₂ packs₂ next₃ packs₃ r v₄ q =
          let packs₄ = r.same_packs ∙ packs₃ ∙ packs₂ in
          let next₄ = r.same_next ∙ next₃ ∙ next₂ in
          goes_on v₄
            (record {
              further = omega (arith, next₄, ext.same_next, v₁.sent_read);
              same_before = ap (λ l. take s.nextseqnum (map content l)) packs₄ ∙ grows₁.same_before;
            })
            q (next₄ ∙ sym (ap length packs₄)) (not_acked (ap length packs₄) more)

-- What holds of the sender may be said in another way.
pub IsTurn-map :
    {message : List ℕ} {w : ℕ} {s : Sender} (P P' Q Q' : Sender → Type 0) (t : Turn)
    → ((u : Sender) → P u → P' u)
    → ((u : Sender) → Q u → Q' u)
    → IsTurn message w s P Q t
    → IsTurn message w s P' Q' t
IsTurn-map P P' Q Q' _ f g (ends {t} v grows p all_acked at_end) =
    ends v grows (f t p) all_acked at_end
IsTurn-map P P' Q Q' _ f g (goes_on {t} v grows q all_sent unacked) =
    goes_on v grows (g t q) all_sent unacked
