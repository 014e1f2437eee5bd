-- ===== src/Rtp/Receiver/Growth.antt =====
-- receiver_def.cpp: the receiver's invariant while the sender adds packets to what it sends.
use networking_labs.Prelude.{
  ℕ, ◌+◌, ◌^◌, ◌≤◌, ◌<◌, ◌≡◌, sym, ap, ◌∙◌, List, ◌++◌, some, arith, get_elem?, length, take, drop,
  concat, concat-append, take-append-drop, take-take, get_elem?-take, get_elem?_lt,
}
use networking_labs.Rtp.Receiver.{Receiver}
use networking_labs.Rtp.Receiver.Window.{Window}

module _ (texts more : List (List ℕ)) (longer : length texts ≤ length more)
    (same : take (length texts) more ≡ texts) where
  still_there : (i : ℕ) (t : List ℕ) → get_elem? texts i ≡ some t → get_elem? more i ≡ some t
  still_there i t e =
      sym (get_elem?-take more (length texts) i (get_elem?_lt texts i e))
      ∙ ap (λ l. get_elem? l i) same
      ∙ e

  take_same : (n : ℕ) → n ≤ length texts → take n texts ≡ take n more
  take_same n h = ap (take n) (sym same) ∙ take-take n (length texts) more h

  -- More packets do not disturb the window.
  pub Window-grow :
      {w : ℕ} {r : Receiver} → length more + w < 2 ^ 32 → Window texts w r → Window more w r
  Window-grow {r} bound v = record {
    moving = record {
      window = v.moving.window;
      positive = v.moving.positive;
      narrow = v.moving.narrow;
      small = bound;
      ring = v.moving.ring;
      within = omega (arith, v.moving.within);
      top = v.moving.top;
      written = v.moving.written ∙ ap concat (take_same r.firstneedrecv v.moving.within);
      slots = λ j p e.
          let f = v.moving.slots j p e in
          record { text = still_there _ _ f.text; from = f.from; below = f.below; place = f.place };
    };
    waiting = v.waiting;
  }

-- A part of the texts and the rest make up all of them.
pub concat-take-drop :
    (n : ℕ) (texts : List (List ℕ)) → concat (take n texts) ++ concat (drop n texts) ≡ concat texts
concat-take-drop n texts =
    sym (concat-append (take n texts) (drop n texts)) ∙ ap concat (take-append-drop n texts)
