-- ===== src/Rtp/Sender/Again.antt =====
-- sender_def.cpp: a time-out sends every packet of the window once more that is not skipped.
use networking_labs.Prelude.{
  ℕ, zero, suc, ◌+◌, ◌-◌, ◌≤◌, ◌<◌, ◌≡◌, refl, sym, ap, ◌∙◌, ◌⊎◌, inl, inr, List, [], ◌∷◌, ◌++◌,
  Option, none, some, Bool, true, false, ltb, ◌==◌, arith, length, get_elem?, get_elem?_of_lt,
  Bool-cases, ◌>>=◌, not, ◌&&◌,
}
use mathlib.Core.List.{append_assoc, append-nil}
use mathlib.Core.Option.{some-injective}
use networking_labs.Rtp.Packet.{RtpPacket}
use networking_labs.Rtp.Sender
use networking_labs.Rtp.Sender.{
  Sender, Event, Turn, again, chunk, upper, push_chunk, read_file, read_ahead, send_packet, resend,
  time_out, turn, receive_ack, send_message,
}
use networking_labs.Rtp.Sender.Clock.{elapsed}
use networking_labs.Rtp.Sender.Invariant.{Sending, read_file-Sending}
use networking_labs.Rtp.Sender.Sends.{Repeats, send_new-Sending, resend-Sending}

-- Reading sends nothing and does not touch the timer.
pub read_file_quiet :
    (fuel : ℕ) (s : Sender)
    → ((read_file fuel s).timer ≡ s.timer) × ((read_file fuel s).sent ≡ s.sent)
unfolding read_file push_chunk
read_file_quiet zero s = (refl, refl)
read_file_quiet (suc fuel) s =
    elim (Bool-cases (ltb s.totseq (upper s) && not (length (chunk s) == 0))) [
      | inl more ↦ rw (more, read_file) (read_file_quiet fuel (push_chunk s))
      | inr end ↦ rw (end, read_file) (refl, refl)
    ]

-- What has been sent since `before`, and packet k in it.
pub record IsSince (before : List RtpPacket) (s t : Sender) (k : ℕ) : Type 0 where
  pub fresh : List RtpPacket
  pub log : t.sent ≡ before ++ fresh
  pub at : ℕ
  pub there : get_elem? fresh at ≡ get_elem? s.packs k

module _ (skip : Sender → ℕ → Bool)
    (keeps : (s : Sender) (p : RtpPacket) (k : ℕ)
      → skip (record s { sent = s.sent ++ p ∷ [] }) k ≡ skip s k) where
  -- Without packet k, the log only grows.
  resend_grows :
      (n i : ℕ) (s : Sender)
      → i + n ≤ length s.packs
      → (t : Sender) × (resend skip n i s ≡ some t)
        × (fresh : List RtpPacket) × (t.sent ≡ s.sent ++ fresh)
  unfolding resend send_packet
  resend_grows zero i s h = (s, refl, [], sym (append-nil s.sent))
  resend_grows (suc n) i s h = elim (Bool-cases (skip s i)) [
    | inl skipped ↦
        let (t, done, fresh, log) = resend_grows n (i + 1) s (omega arith) in
        (t, rw skipped done, fresh, log)
    | inr due ↦
        let (p, found) = get_elem?_of_lt s.packs i (omega arith) in
        let (t, done, fresh, log) =
          resend_grows n (i + 1) (record s { sent = s.sent ++ p ∷ [] }) (omega arith) in
        (t, rw (due, found) done, p ∷ fresh, log ∙ append_assoc s.sent (p ∷ []) fresh)
  ]

  pub resend-IsSince :
      (n i k : ℕ) (s : Sender)
      → i + n ≤ length s.packs
      → i ≤ k
      → k < i + n
      → skip s k ≡ false
      → (t : Sender) × (resend skip n i s ≡ some t) × IsSince s.sent s t k
  unfolding resend send_packet
  resend-IsSince zero i k s h lo hi due = absurd (omega arith)
  resend-IsSince (suc n) i k s h lo hi due = elim (Bool-cases (i == k)) [
    | inl now ↦
        let here : i ≡ k = ground arith in
        let (p, found) = get_elem?_of_lt s.packs i (omega arith) in
        let (t, done, fresh, log) =
          resend_grows n (i + 1) (record s { sent = s.sent ++ p ∷ [] }) (omega arith) in
        let not_skipped : skip s i ≡ false = ap (skip s) here ∙ due in
        (
          t,
          rw (not_skipped, found) done,
          record {
            fresh = p ∷ fresh;
            log = log ∙ append_assoc s.sent (p ∷ []) fresh;
            at = 0;
            there = sym found ∙ ap (get_elem? s.packs) here;
          },
        )
    | inr later ↦ elim (Bool-cases (skip s i)) [
      | inl skipped ↦
          let (t, done, since) =
            resend-IsSince n (i + 1) k s (omega arith) (ground arith) (omega arith) due in
          (t, rw skipped done, since)
      | inr to_send ↦
          let (p, found) = get_elem?_of_lt s.packs i (omega arith) in
          let (t, done, since) =
            resend-IsSince n (i + 1) k (record s { sent = s.sent ++ p ∷ [] }) (omega arith)
              (ground arith) (omega arith) (keeps s p k ∙ due) in
          (
            t,
            rw (to_send, found) done,
            record {
              fresh = p ∷ since.fresh;
              log = since.log ∙ append_assoc s.sent (p ∷ []) since.fresh;
              at = suc since.at;
              there = since.there;
            },
          )
    ]
  ]

pub one_result : {x : Option Sender} (t u : Sender) → x ≡ some t → x ≡ some u → t ≡ u
one_result t u e e' = some-injective t u (sym e ∙ e')

get_elem?-after :
    (xs ys : List RtpPacket) (i : ℕ) → get_elem? (xs ++ ys) (length xs + i) ≡ get_elem? ys i
get_elem?-after [] ys i = let same : 0 + i ≡ i = omega arith in ap (get_elem? ys) same
get_elem?-after (x ∷ xs) ys i =
    let same : suc (length xs) + i ≡ suc (length xs + i) = omega arith in
    ap (get_elem? (x ∷ (xs ++ ys))) same ∙ get_elem?-after xs ys i

-- No more than what a round sends before it looks for an ACK.
pub record IsSending (e : Event) (s t : Sender) : Type 0 where
  pub timed : (t.timer ≡ s.timer) ⊎ (t.timer ≡ e.sent_at)
  pub fresh : List RtpPacket
  pub log : t.sent ≡ s.sent ++ fresh

heard_nothing :
    (e : Event) (s u : Sender)
    → e.reply ≡ none
    → ltb 100 (elapsed s.timer e.now) ≡ true
    → resend (λ s i. false) (s.nextseqnum - s.base) s.base s ≡ some u
    → (receive_ack e s >>= λ s₃.
        networking_labs.Rtp.Sender.time_out (λ s i. false) e s₃ >>= λ s₄. some (again s₄))
      ≡ some (again (record u { timer = e.resent_at }))
unfolding receive_ack time_out
heard_nothing e s u silent over done = rw (silent, over, done) refl

module _ (e : Event) (k : ℕ) where
  pub joined :
      (s s₂ t u : Sender)
      → IsSending e s s₂
      → IsSince s₂.sent s₂ t k
      → t ≡ u
      → Repeats s₂ u
      → IsSince s.sent (record u { timer = e.resent_at }) (record u { timer = e.resent_at }) k
  joined s s₂ t u sending since same r = record {
    fresh = sending.fresh ++ since.fresh;
    log =
        ap (λ x. x.sent) (sym same)
        ∙ since.log
        ∙ ap (λ l. l ++ since.fresh) sending.log
        ∙ append_assoc s.sent sending.fresh since.fresh;
    at = length sending.fresh + since.at;
    there =
        get_elem?-after sending.fresh since.fresh since.at
        ∙ since.there
        ∙ ap (λ l. get_elem? l k) (sym r.same_packs);
  }

  -- A round in which nothing arrives and 100 ms are over sends every packet of the window again.
  pub send_message-IsSince :
      (message : List ℕ) (w : ℕ) (s : Sender)
      → Sending message w s
      → e.reply ≡ none
      → ltb 100 (elapsed s.timer e.now) ≡ true
      → ltb 100 (elapsed e.sent_at e.now) ≡ true
      → s.base ≤ k
      → k < s.nextseqnum
      → (t : Sender) × (send_message s e ≡ some (again t))
        × IsSince s.sent t t k
        × (s.nextseqnum ≤ t.nextseqnum)
  unfolding send_message turn receive_ack time_out
  send_message-IsSince message w s v silent late late' lo hi =
      let s₁ = read_ahead s in
      let (v₁, ext, read) = read_file-Sending (suc (length s.rest)) s v (omega arith) in
      let (same_timer, same_sent) = read_file_quiet (suc (length s.rest)) s in
      let more : (s₁.base == s₁.totseq) ≡ false =
        ground (arith, v₁.total, v₁.sent_read, ext.same_base, ext.same_next) in
      let start : IsSending e s s₁ = record {
        timed = inl same_timer;
        fresh = [];
        log = same_sent ∙ sym (append-nil s.sent);
      } in
      let (s₂, sent, v₂, p₂, next₂, packs₂, base₂, rest₂) =
        send_new-Sending (IsSending e s) (λ s. s.acked) e.sent_at
          (λ u p v h q. record {
            timed = inr refl;
            fresh = q.fresh ++ p ∷ [];
            log = ap (λ l. l ++ p ∷ []) q.log ∙ append_assoc s.sent q.fresh (p ∷ []);
          })
          (s₁.totseq - s₁.nextseqnum) s₁ v₁ start (omega (arith, v₁.total, v₁.sent_read)) in
      let over : ltb 100 (elapsed s₂.timer e.now) ≡ true = elim p₂.timed [
        | inl old ↦ ap (λ x. ltb 100 (elapsed x e.now)) old ∙ late
        | inr new ↦ ap (λ x. ltb 100 (elapsed x e.now)) new ∙ late'
      ] in
      let (t, done, since) =
        resend-IsSince (λ s i. false) (λ s p k. refl) (s₂.nextseqnum - s₂.base) s₂.base k s₂
          (omega (arith, v₂.first_sent, v₂.sent_read)) (omega (arith, base₂, ext.same_base))
          (omega (arith, base₂, ext.same_base, next₂, ext.same_next, v₁.sent_read)) refl in
      let (u, done', v', r) =
        resend-Sending (λ s i. false) (s₂.nextseqnum - s₂.base) s₂.base s₂ v₂
          (omega (arith, v₂.first_sent)) in
      let same : t ≡ u = one_result t u done done' in
      (
        record u { timer = e.resent_at },
        rw (more, sent) (heard_nothing e s₂ u silent over done'),
        joined s s₂ t u p₂ since same r,
        omega (arith, r.same_next, next₂, ext.same_next, v₁.sent_read),
      )
