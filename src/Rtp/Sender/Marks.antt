-- ===== src/Rtp/Sender/Marks.antt =====
-- sender_def.cpp: what `acked` of `sendMessageOpt` says, and what leaves it true.
use native.Mathlib.Decide.{dec_lt}
use networking_labs.Prelude.{
  ℕ, ◌+◌, ◌*◌, ◌%◌, ◌^◌, ◌≤◌, ◌<◌, ◌≡◌, sym, ap, ◌∙◌, List, Bool, true, false, arith, length,
  get_or, mod_window,
}
use networking_labs.Rtp.Sender.{Sender, ack_slot}
use networking_labs.Rtp.Sender.Clock.{TimeVal}
use networking_labs.Rtp.Sender.Invariant.{Sending, Extends}
use networking_labs.Rtp.Sender.Sends.{Repeats}

-- `acked` tells the truth: what lies below the window or is marked in it has been received.
pub record Marks (Got : ℕ → Type 0) (w : ℕ) (s : Sender) : Type 0 where
  pub narrow : w < 2 ^ 31
  pub window : s.window_size ≡ w
  pub ring : length s.acked ≡ 2 * w
  pub below : (i : ℕ) → i < s.base → Got i
  pub marked :
      (i : ℕ) → s.base ≤ i → i < s.nextseqnum → get_or s.acked (ack_slot s i) false ≡ true → Got i

-- Two numbers of a window in one place are one.
pub same_place :
    (w a b lo : ℕ)
    → 0 < w
    → lo ≤ a
    → a < lo + w
    → lo ≤ b
    → b < lo + w
    → a % (2 * w) ≡ b % (2 * w)
    → a ≡ b
same_place w a b lo pos la ha lb hb e = elim (dec_lt b a) [
  | yes lt ↦ sym (mod_window b a (2 * w) (omega arith) (omega arith) (sym e))
  | no ge ↦ mod_window a b (2 * w) (omega arith) (omega arith) e
]

module _ {w : ℕ} {Got : ℕ → Type 0} where
  pub slot-ring : {s : Sender} → Marks Got w s → (i : ℕ) → ack_slot s i ≡ i % (2 * w)
  slot-ring m i = ap (λ (k : ℕ). i % k) (omega (arith, m.window, m.narrow))

  pub start-Marks : {s : Sender} → Marks Got w s → (t : Sender) → Extends s t → Marks Got w t
  start-Marks {s} m t x = record {
    narrow = m.narrow;
    window = x.same_window ∙ m.window;
    ring = ap length x.same_acked ∙ m.ring;
    below = λ i h. m.below i (omega (arith, x.same_base));
    marked = λ i lo hi e.
        m.marked i (omega (arith, x.same_base)) (omega (arith, x.same_next))
          (rw (x.same_acked, x.same_window) at e);
  }

  pub Repeats-Marks : (s t : Sender) → Repeats s t → Marks Got w s → Marks Got w t
  Repeats-Marks s t x m = record {
    narrow = m.narrow;
    window = x.same_window ∙ m.window;
    ring = ap length x.same_acked ∙ m.ring;
    below = λ i h. m.below i (omega (arith, x.same_base));
    marked = λ i lo hi e.
        m.marked i (omega (arith, x.same_base)) (omega (arith, x.same_next))
          (rw (x.same_acked, x.same_window) at e);
  }

pub mod-lt_double : (i w : ℕ) → 0 < w → i % (2 * w) < 2 * w
mod-lt_double i w h = grind arith

pub noted-Marks :
    {Got : ℕ → Type 0} {w : ℕ} {s : Sender} {now : TimeVal}
    → Marks Got w s
    → Marks Got w (record s { timer = now })
noted-Marks m = record {
  narrow = m.narrow;
  window = m.window;
  ring = m.ring;
  below = m.below;
  marked = m.marked;
}

pub noted-Sending :
    {message : List ℕ} {w : ℕ} {s : Sender} (acked : List Bool) (now : TimeVal)
    → Sending message w s
    → Sending message w (record s { acked = acked; timer = now })
noted-Sending acked now v = record {
  window = v.window;
  positive = v.positive;
  small = v.small;
  cut = v.cut;
  numbered = v.numbered;
  total = v.total;
  counted = v.counted;
  room = v.room;
  first_sent = v.first_sent;
  sent_read = v.sent_read;
  read_window = v.read_window;
  logged = v.logged;
  in_log = v.in_log;
}
