-- ===== src/Rtp/Sender/Sends.antt =====
-- sender_def.cpp: the loops that send, and that none of them reaches outside `packs`.
use native.Mathlib.Decide.{ℕ_discrete}
use networking_labs.Prelude.{
  ℕ, zero, suc, ◌+◌, ◌-◌, ◌%◌, ◌^◌, ◌≤◌, ◌<◌, ◌≡◌, refl, ap, ◌∙◌, inl, inr, List, [], ◌∷◌, ◌++◌,
  some, Bool, true, ◌&&◌, ltb, arith, get_elem?, length, All, All-append, All-map, get_elem?_lt,
  get_elem?_of_lt, get_elem?-append, get_elem?-append_last, Bool-cases,
}
use networking_labs.Rtp.Packet.{RtpPacket}
use networking_labs.Rtp.Sender.{
  Sender, Event, upper, send_packet, send_one, send_new, resend, time_out,
}
use networking_labs.Rtp.Sender.Invariant.{Sending, IsSent, IsLogged, upper_lem}
use networking_labs.Rtp.Sender.Clock.{TimeVal, elapsed}

-- The sender after one new packet.
abbrev pub sent_one : (Sender → List Bool) → TimeVal → Sender → RtpPacket → Sender
sent_one clear now s p = record s {
  sent = s.sent ++ p ∷ [];
  acked = clear s;
  nextseqnum = (s.nextseqnum + 1) % 2 ^ 32;
  timer = now;
}

later_in_log :
    (s : Sender) (p : RtpPacket) (i : ℕ)
    → IsLogged s i
    → IsLogged (record s { sent = s.sent ++ p ∷ [] }) i
later_in_log s p i (k, q, sent, there) = (k, q, get_elem?-append s.sent (p ∷ []) k sent, there)

module _ {message : List ℕ} {w : ℕ} where
  logged-snoc :
      {s : Sender} (v : Sending message w s) (i : ℕ) (p : RtpPacket)
      → i < s.nextseqnum
      → get_elem? s.packs i ≡ some p
      → All (IsSent s) (s.sent ++ p ∷ [])
  logged-snoc {s} v i p h e =
      let n = (v.numbered i p e).number in
      All-append (IsSent s) s.sent (p ∷ []) v.logged
        ((omega (arith, n), ap (get_elem? s.packs) n ∙ e), tt)

  next_step :
      {s : Sender}
      → Sending message w s
      → s.nextseqnum < length s.packs
      → (s.nextseqnum + 1) % 2 ^ 32 ≡ s.nextseqnum + 1
  next_step v h = omega (arith, v.room, v.small, v.positive)

  sent_one-Sending :
      {s : Sender} (v : Sending message w s) (clear : Sender → List Bool) (now : TimeVal)
      (p : RtpPacket)
      → get_elem? s.packs s.nextseqnum ≡ some p
      → Sending message w (sent_one clear now s p)
  sent_one-Sending {s} v clear now p e =
      let h = get_elem?_lt s.packs s.nextseqnum e in
      let step = next_step v h in
      let n = (v.numbered s.nextseqnum p e).number in
      record {
        window = v.window;
        positive = v.positive;
        small = v.small;
        cut = v.cut;
        numbered = v.numbered;
        total = v.total;
        counted = v.counted;
        room = v.room;
        first_sent = omega (arith, v.first_sent, step);
        sent_read = omega (arith, h, step);
        read_window = v.read_window;
        logged =
            All-append (IsSent (sent_one clear now s p)) s.sent (p ∷ [])
              (All-map (IsSent s) (IsSent (sent_one clear now s p)) s.sent
                (λ q k. (omega (arith, k.0, step), k.1)) v.logged)
              ((omega (arith, n, step), ap (get_elem? s.packs) n ∙ e), tt);
        in_log = λ j k. elim (ℕ_discrete j s.nextseqnum) [
          | yes last ↦
              (length s.sent, p, get_elem?-append_last s.sent p, ap (get_elem? s.packs) last ∙ e)
          | no before ↦ later_in_log s p j (v.in_log j (omega (arith, k, step, before)))
        ];
      }

  must_send :
      {s : Sender}
      → Sending message w s
      → s.nextseqnum < length s.packs
      → (ltb s.nextseqnum s.totseq && ltb s.nextseqnum (upper s)) ≡ true
  must_send {s} v h = ground (arith, v.total, upper_lem v, v.read_window)

  send_new_step :
      {s : Sender} (v : Sending message w s) (clear : Sender → List Bool) (now : TimeVal) (n : ℕ)
      (p : RtpPacket)
      → get_elem? s.packs s.nextseqnum ≡ some p
      → send_new clear now (suc n) s ≡ send_new clear now n (sent_one clear now s p)
  unfolding send_new send_one send_packet
  send_new_step {s} v clear now n p e =
      rw (must_send v (get_elem?_lt s.packs s.nextseqnum e), e, send_new)

-- `n` new packets go out, one after the other, and whatever one of them keeps all keep.
pub send_new-Sending {κ} :
    {message : List ℕ} {w : ℕ} (P : Sender → Type κ) (clear : Sender → List Bool) (now : TimeVal)
    → ((s : Sender) (p : RtpPacket)
        → Sending message w s
        → s.nextseqnum < length s.packs
        → P s
        → P (sent_one clear now s p))
    → (n : ℕ) (s : Sender) → Sending message w s
    → P s
    → s.nextseqnum + n ≡ length s.packs
    → (t : Sender) × (send_new clear now n s ≡ some t)
      × Sending message w t
      × P t
      × (t.nextseqnum ≡ length s.packs)
      × (t.packs ≡ s.packs)
      × (t.base ≡ s.base)
      × (t.rest ≡ s.rest)
unfolding send_new
send_new-Sending P clear now keep zero s v h e = (s, refl, v, h, omega arith, refl, refl, refl)
send_new-Sending P clear now keep (suc n) s v h e =
    let (p, found) = get_elem?_of_lt s.packs s.nextseqnum (omega arith) in
    let (t, done, v', h', next, packs, base, rest) =
      send_new-Sending P clear now keep n (sent_one clear now s p)
        (sent_one-Sending v clear now p found) (keep s p v (omega arith) h)
        (omega (arith, next_step v (omega (arith, e)))) in
    (t, send_new_step v clear now n p found ∙ done, v', h', next, packs, base, rest)

-- What a repeated sending leaves alone: everything but the log and the timer.
pub record Repeats (s t : Sender) : Type 0 where
  pub same_base : t.base ≡ s.base
  pub same_next : t.nextseqnum ≡ s.nextseqnum
  pub same_packs : t.packs ≡ s.packs
  pub same_rest : t.rest ≡ s.rest
  pub same_acked : t.acked ≡ s.acked
  pub same_window : t.window_size ≡ s.window_size

Repeats-refl : (s : Sender) → Repeats s s
Repeats-refl s = record {
  same_base = refl;
  same_next = refl;
  same_packs = refl;
  same_rest = refl;
  same_acked = refl;
  same_window = refl;
}

abbrev again_one : Sender → RtpPacket → Sender
again_one s p = record s { sent = s.sent ++ p ∷ [] }

module _ {message : List ℕ} {w : ℕ} where
  again_one-Sending :
      {s : Sender} (v : Sending message w s) (i : ℕ) (p : RtpPacket)
      → i < s.nextseqnum
      → get_elem? s.packs i ≡ some p
      → Sending message w (again_one s p)
  again_one-Sending {s} v i p h e = record {
    window = v.window;
    positive = v.positive;
    small = v.small;
    cut = v.cut;
    numbered = v.numbered;
    total = v.total;
    counted = v.counted;
    room = v.room;
    first_sent = v.first_sent;
    sent_read = v.sent_read;
    read_window = v.read_window;
    logged = logged-snoc v i p h e;
    in_log = λ j k. later_in_log s p j (v.in_log j k);
  }

  -- Packets below `nextseqnum` can be sent again: the loop finds each of them.
  pub resend-Sending :
      (skip : Sender → ℕ → Bool) (n i : ℕ) (s : Sender)
      → Sending message w s
      → i + n ≤ s.nextseqnum
      → (t : Sender) × (resend skip n i s ≡ some t) × Sending message w t × Repeats s t
  unfolding resend send_packet
  resend-Sending skip zero i s v h = (s, refl, v, Repeats-refl s)
  resend-Sending skip (suc n) i s v h = elim (Bool-cases (skip s i)) [
    | inl skipped ↦
        let (t, done, v', r) = resend-Sending skip n (i + 1) s v (omega arith) in
        (t, rw skipped done, v', r)
    | inr due ↦
        let (p, found) = get_elem?_of_lt s.packs i (omega (arith, v.sent_read)) in
        let (t, done, v', r) =
          resend-Sending skip n (i + 1) (again_one s p)
            (again_one-Sending v i p (omega arith) found) (omega arith) in
        (
          t,
          rw (due, found) done,
          v',
          record {
            same_base = r.same_base;
            same_next = r.same_next;
            same_packs = r.same_packs;
            same_rest = r.same_rest;
            same_acked = r.same_acked;
            same_window = r.same_window;
          },
        )
  ]

  restarted-Sending :
      {s : Sender} (now : TimeVal)
      → Sending message w s
      → Sending message w (record s { timer = now })
  restarted-Sending now v = record {
    window = v.window;
    positive = v.positive;
    small = v.small;
    cut = v.cut;
    numbered = v.numbered;
    total = v.total;
    counted = v.counted;
    room = v.room;
    first_sent = v.first_sent;
    sent_read = v.sent_read;
    read_window = v.read_window;
    logged = v.logged;
    in_log = v.in_log;
  }

  -- A time-out never faults, and changes nothing but the log and the timer.
  pub time_out-Sending :
      (skip : Sender → ℕ → Bool) (e : Event) (s : Sender)
      → Sending message w s
      → (t : Sender) × (time_out skip e s ≡ some t) × Sending message w t × Repeats s t
  unfolding time_out
  time_out-Sending skip e s v = elim (Bool-cases (ltb 100 (elapsed s.timer e.now))) [
    | inr early ↦ (s, rw early, v, Repeats-refl s)
    | inl late ↦
        let (t, done, v', r) =
          resend-Sending skip (s.nextseqnum - s.base) s.base s v (omega (arith, v.first_sent)) in
        (
          record t { timer = e.resent_at },
          rw (late, done),
          restarted-Sending e.resent_at v',
          record {
            same_base = r.same_base;
            same_next = r.same_next;
            same_packs = r.same_packs;
            same_rest = r.same_rest;
            same_acked = r.same_acked;
            same_window = r.same_window;
          },
        )
  ]
