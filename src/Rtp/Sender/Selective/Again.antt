-- ===== src/Rtp/Sender/Selective/Again.antt =====
-- sender_def.cpp: a time-out of `sendMessageOpt` sends a packet of the window once more that has not
-- been received.
use networking_labs.Prelude.{
  ℕ, zero, suc, ◌-◌, ◌≤◌, ◌<◌, ◌≡◌, refl, sym, ap, ◌∙◌, inl, inr, List, [], ◌∷◌, ◌++◌, none, some,
  Bool, true, false, ltb, ◌==◌, ◌&&◌, arith, length, get_or, Bool-cases, ◌>>=◌,
}
use mathlib.Core.List.{append_assoc, append-nil}
use native.Mathlib.Decide.{dec_lt}
use networking_labs.Rtp.Sender
use networking_labs.Rtp.Sender.{
  Sender, Event, again, ack_slot, clear_acked, mark_acked, slide, receive_ack_opt, resend, time_out,
  turn, read_ahead, send_message_opt,
}
use networking_labs.Rtp.Sender.Clock.{elapsed}
use networking_labs.Rtp.Sender.Invariant.{Sending, read_file-Sending}
use networking_labs.Rtp.Sender.Sends.{send_new-Sending, resend-Sending}
use networking_labs.Rtp.Sender.Marks.{Marks, start-Marks}
use networking_labs.Rtp.Sender.Selective.{sent_one-Marks, slide-Sending}
use networking_labs.Rtp.Sender.Again.{
  IsSince, IsSending, read_file_quiet, resend-IsSince, one_result, joined,
}

abbrev skip : Sender → ℕ → Bool
skip s i = get_or s.acked (ack_slot s i) false

slide_quiet :
    (fuel : ℕ) (s : Sender) → ((slide fuel s).timer ≡ s.timer) × ((slide fuel s).sent ≡ s.sent)
unfolding slide
slide_quiet zero s = (refl, refl)
slide_quiet (suc fuel) s =
    elim (Bool-cases (ltb s.base s.nextseqnum && get_or s.acked (ack_slot s s.base) false)) [
      | inr still ↦ rw (still, slide) (refl, refl)
      | inl moves ↦ rw (moves, slide) (slide_quiet fuel _)
    ]

abbrev slid : Sender → Sender
slid s = slide (s.nextseqnum - s.base) s

heard_nothing :
    (e : Event) (s u : Sender)
    → e.reply ≡ none
    → ltb 100 (elapsed (slid s).timer e.now) ≡ true
    → resend skip ((slid s).nextseqnum - (slid s).base) (slid s).base (slid s) ≡ some u
    → (receive_ack_opt e s >>= λ s₃.
        networking_labs.Rtp.Sender.time_out skip e s₃ >>= λ s₄. some (again s₄))
      ≡ some (again (record u { timer = e.resent_at }))
unfolding receive_ack_opt mark_acked time_out
heard_nothing e s u silent over done = rw (silent, over, done) refl

-- A packet that has not been received is not marked, and the window is not past it.
not_marked :
    {Got : ℕ → Type 0} {w : ℕ} (s : Sender) (k : ℕ)
    → Marks Got w s
    → (Got k → ⊥)
    → k < s.nextseqnum
    → (s.base ≤ k) × (skip s k ≡ false)
not_marked s k m missing hi = (
  first,
  elim (Bool-cases (skip s k)) [
    | inl marked ↦ absurd (missing (m.marked k first hi marked))
    | inr clear ↦ clear
  ],
)
  where
    first : s.base ≤ k
    first = elim (dec_lt k s.base) [
      | yes lt ↦ absurd (missing (m.below k lt))
      | no ge ↦ omega arith
    ]

-- A round in which nothing arrives and 100 ms are over sends such a packet of the window again.
pub send_message_opt-IsSince :
    (e : Event) (k : ℕ) (Got : ℕ → Type 0) (message : List ℕ) (w : ℕ) (s : Sender)
    → Sending message w s
    → Marks Got w s
    → (Got k → ⊥)
    → e.reply ≡ none
    → ltb 100 (elapsed s.timer e.now) ≡ true
    → ltb 100 (elapsed e.sent_at e.now) ≡ true
    → k < s.nextseqnum
    → (t : Sender) × (send_message_opt s e ≡ some (again t))
      × IsSince s.sent t t k
      × (s.nextseqnum ≤ t.nextseqnum)
unfolding send_message_opt turn
send_message_opt-IsSince e k Got message w s v m missing silent late late' hi =
    let s₁ = read_ahead s in
    let (v₁, ext, read) = read_file-Sending (suc (length s.rest)) s v (omega arith) in
    let (same_timer, same_sent) = read_file_quiet (suc (length s.rest)) s in
    let lo = (not_marked s k m missing hi).0 in
    let more : (s₁.base == s₁.totseq) ≡ false =
      ground (arith, v₁.total, v₁.sent_read, ext.same_base, ext.same_next) in
    let start : IsSending e s s₁ = record {
      timed = inl same_timer;
      fresh = [];
      log = same_sent ∙ sym (append-nil s.sent);
    } in
    let (s₂, sent, v₂, p₂, next₂, packs₂, base₂, rest₂) =
      send_new-Sending (λ t. Marks Got w t × IsSending e s t) clear_acked e.sent_at
        (λ u p v h q. (
          sent_one-Marks e.sent_at u p v h q.0,
          record {
            timed = inr refl;
            fresh = q.1.fresh ++ p ∷ [];
            log = ap (λ l. l ++ p ∷ []) q.1.log ∙ append_assoc s.sent q.1.fresh (p ∷ []);
          },
        ))
        (s₁.totseq - s₁.nextseqnum) s₁ v₁ (start-Marks m s₁ ext, start)
        (omega (arith, v₁.total, v₁.sent_read)) in
    let (v₃, m₃, next₃, packs₃, further) = slide-Sending (s₂.nextseqnum - s₂.base) s₂ v₂ p₂.0 in
    let (timer₃, sent₃) = slide_quiet (s₂.nextseqnum - s₂.base) s₂ in
    let s₃ = slid s₂ in
    let quiet : IsSending e s s₃ = slid_sending s₂ p₂.1 timer₃ sent₃ in
    let over : ltb 100 (elapsed s₃.timer e.now) ≡ true = elim quiet.timed [
      | inl old ↦ ap (λ x. ltb 100 (elapsed x e.now)) old ∙ late
      | inr new ↦ ap (λ x. ltb 100 (elapsed x e.now)) new ∙ late'
    ] in
    let due =
      not_marked s₃ k m₃ missing (omega (arith, next₃, next₂, ext.same_next, v₁.sent_read)) in
    let (t, done, since) =
      resend-IsSince skip (λ s p k. refl) (s₃.nextseqnum - s₃.base) s₃.base k s₃
        (omega (arith, v₃.first_sent, v₃.sent_read)) due.0
        (omega (arith, due.0, next₃, next₂, ext.same_next, v₁.sent_read)) due.1 in
    let (u, done', v', r) =
      resend-Sending skip (s₃.nextseqnum - s₃.base) s₃.base s₃ v₃ (omega (arith, v₃.first_sent)) in
    (
      record u { timer = e.resent_at },
      rw (more, sent) (heard_nothing e s₂ u silent over done'),
      joined e k s s₃ t u quiet since (one_result t u done done') r,
      omega (arith, r.same_next, next₃, next₂, ext.same_next, v₁.sent_read),
    )
  where
    slid_sending :
        (s₂ : Sender)
        → IsSending e s s₂
        → (slid s₂).timer ≡ s₂.timer
        → (slid s₂).sent ≡ s₂.sent
        → IsSending e s (slid s₂)
    slid_sending s₂ p same_timer same_sent = record {
      timed = elim p.timed [ inl old ↦ inl (same_timer ∙ old) | inr new ↦ inr (same_timer ∙ new) ];
      fresh = p.fresh;
      log = same_sent ∙ p.log;
    }
