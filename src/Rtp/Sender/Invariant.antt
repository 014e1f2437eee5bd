-- ===== src/Rtp/Sender/Invariant.antt =====
-- sender_def.cpp: what holds of the sender's variables, and how the file is cut into packets.
use mathlib.Core.List.{map-append, append_assoc, append-nil}
use native.Mathlib.Decide.{dec_lt}
use networking_labs.Prelude.{
  ℕ, zero, suc, ◌+◌, ◌^◌, ◌≤◌, ◌<◌, ◌≡◌, refl, sym, ap, subst, ◌∙◌, ◌⊎◌, inl, inr, List, [], ◌∷◌,
  ◌++◌, map, some, Bool, false, not, ◌&&◌, ltb, ◌==◌, arith, get_elem?, take, drop, length, concat,
  concat-append, All, All-map, get_elem?-append, get_elem?-append_cases, take-append_of_le,
  take-append-drop, length-append, length-take, take_of_length_le, length-drop, length-map,
  Bool-cases,
}
use networking_labs.Rtp.Packet.{RtpPacket, IsPacket, content, rtp_packet, fresh_memory, rtp_data}
use networking_labs.Rtp.Packet.Build.{rtp_packet-IsPacket}
use networking_labs.Rtp.Sender.{Sender, start_message, upper, chunk, push_chunk, read_file}
use networking_labs.Rtp.Sender.Clock.{TimeVal}

-- A whole data packet with number `i`.
pub record IsData (i : ℕ) (p : RtpPacket) : Type 0 where
  pub packet : IsPacket p
  pub number : p.rtp.seq_num ≡ i
  pub of_data : p.rtp.type ≡ rtp_data

-- A packet that has been sent: the one that `packs` holds under its number.
abbrev pub IsSent : Sender → RtpPacket → Type 0
IsSent s p = (p.rtp.seq_num < s.nextseqnum) × (get_elem? s.packs p.rtp.seq_num ≡ some p)

-- The packet with number `i` is among those sent.
abbrev pub IsLogged : Sender → ℕ → Type 0
IsLogged s i =
    (k : ℕ) × (p : RtpPacket) × (get_elem? s.sent k ≡ some p) × (get_elem? s.packs i ≡ some p)

abbrev pub texts : Sender → List (List ℕ)
texts s = map content s.packs

-- The texts of the packets that have been sent at least once.
abbrev pub sent_texts : Sender → List (List ℕ)
sent_texts s = take s.nextseqnum (texts s)

pub record Sending (message : List ℕ) (w : ℕ) (s : Sender) : Type 0 where
  pub window : s.window_size ≡ w
  pub positive : 0 < w
  pub small : length message + w < 2 ^ 32
  pub cut : concat (texts s) ++ s.rest ≡ message
  pub numbered : (i : ℕ) (p : RtpPacket) → get_elem? s.packs i ≡ some p → IsData i p
  pub total : s.totseq ≡ length s.packs
  pub counted : s.seq_num ≡ length s.packs
  pub room : length s.packs + length s.rest ≤ length message
  pub first_sent : s.base ≤ s.nextseqnum
  pub sent_read : s.nextseqnum ≤ length s.packs
  pub read_window : length s.packs ≤ s.base + w
  pub logged : All (IsSent s) s.sent
  pub in_log : (i : ℕ) → i < s.nextseqnum → IsLogged s i

pub start_message-Sending :
    (w : ℕ) (message : List ℕ) (acked : List Bool) (now : TimeVal)
    → 0 < w
    → length message + w < 2 ^ 32
    → Sending message w (start_message w message acked now)
unfolding start_message
start_message-Sending w message acked now positive small = record {
  window = refl;
  positive = positive;
  small = small;
  cut = refl;
  numbered = λ i p e. cc;
  total = refl;
  counted = refl;
  room = omega arith;
  first_sent = omega arith;
  sent_read = omega arith;
  read_window = omega arith;
  logged = tt;
  in_log = λ i h. absurd (omega arith);
}

module _ {message : List ℕ} {w : ℕ} {s : Sender} (v : Sending message w s) where
  pub upper_lem : upper s ≡ s.base + w
  upper_lem = omega (arith, v.window, v.small, v.room, v.first_sent, v.sent_read)

  new_packet : RtpPacket
  new_packet = rtp_packet fresh_memory rtp_data (length (chunk s)) s.seq_num (some (chunk s))

  chunk-le : length (chunk s) ≤ 1460
  chunk-le = omega (arith, length-take 1460 s.rest)

  new_built : IsPacket new_packet × (content new_packet ≡ take (length (chunk s)) (chunk s))
  unfolding new_packet
  new_built =
      rtp_packet-IsPacket fresh_memory rtp_data (length (chunk s)) s.seq_num (chunk s) (omega arith)
        (omega (arith, chunk-le)) (omega (arith, v.counted, v.room, v.small)) (omega arith)

  content-new : content new_packet ≡ chunk s
  content-new = new_built.1 ∙ take_of_length_le (length (chunk s)) (chunk s) (omega arith)

  texts-push : map content (s.packs ++ new_packet ∷ []) ≡ texts s ++ chunk s ∷ []
  texts-push =
      map-append content s.packs (new_packet ∷ []) ∙ ap (λ t. texts s ++ t ∷ []) content-new

  cut-push : concat (map content (s.packs ++ new_packet ∷ [])) ++ drop 1460 s.rest ≡ message
  cut-push =
      rw
        (
          texts-push,
          concat-append (texts s) (chunk s ∷ []),
          append-nil,
          append_assoc (concat (texts s)) (chunk s) (drop 1460 s.rest),
          take-append-drop 1460 s.rest,
        )
        v.cut

  numbered-push :
      (i : ℕ) (p : RtpPacket) → get_elem? (s.packs ++ new_packet ∷ []) i ≡ some p → IsData i p
  unfolding new_packet rtp_packet
  numbered-push i p e = elim (get_elem?-append_cases s.packs new_packet i e) [
    | inl old ↦ v.numbered i p old
    | inr (last, same) ↦
        subst (IsData i) same
          (record { packet = new_built.0; number = v.counted ∙ sym last; of_data = refl })
  ]

  push_chunk-Sending :
      length s.packs < s.base + w → 0 < length (chunk s) → Sending message w (push_chunk s)
  unfolding push_chunk new_packet
  push_chunk-Sending more some_left =
      let grown = length-append s.packs (new_packet ∷ []) in
      let left = length-drop 1460 s.rest in
      let taken = length-take 1460 s.rest in
      record {
        window = v.window;
        positive = v.positive;
        small = v.small;
        cut = cut-push;
        numbered = numbered-push;
        total = omega (arith, v.total, grown, v.room, v.small);
        counted = omega (arith, v.counted, grown, v.room, v.small);
        room = omega (arith, grown, left, taken, v.room);
        first_sent = v.first_sent;
        sent_read = omega (arith, grown, v.sent_read);
        read_window = omega (arith, grown);
        logged =
            All-map (IsSent s) (IsSent (push_chunk s)) s.sent
              (λ p h. (h.0, get_elem?-append s.packs (new_packet ∷ []) p.rtp.seq_num h.1)) v.logged;
        in_log = λ i h.
            let (k, p, sent, there) = v.in_log i h in
            (k, p, sent, get_elem?-append s.packs (new_packet ∷ []) i there);
      }

-- What the reading loop leaves alone.
pub record Extends (s t : Sender) : Type 0 where
  pub same_base : t.base ≡ s.base
  pub same_next : t.nextseqnum ≡ s.nextseqnum
  pub same_acked : t.acked ≡ s.acked
  pub same_window : t.window_size ≡ s.window_size
  pub same_texts : sent_texts t ≡ sent_texts s

push_chunk-Extends :
    {message : List ℕ} {w : ℕ} {s : Sender} → Sending message w s → Extends s (push_chunk s)
unfolding push_chunk new_packet
push_chunk-Extends {s} v = record {
  same_base = refl;
  same_next = refl;
  same_acked = refl;
  same_window = refl;
  same_texts =
      ap (take s.nextseqnum) (texts-push v)
      ∙ take-append_of_le s.nextseqnum (texts s) (chunk s ∷ [])
          (omega (arith, v.sent_read, length-map s.packs content));
}

Extends-refl : (s : Sender) → Extends s s
Extends-refl s = record {
  same_base = refl;
  same_next = refl;
  same_acked = refl;
  same_window = refl;
  same_texts = refl;
}

Extends-trans : {s t u : Sender} → Extends s t → Extends t u → Extends s u
Extends-trans f g = record {
  same_base = g.same_base ∙ f.same_base;
  same_next = g.same_next ∙ f.same_next;
  same_acked = g.same_acked ∙ f.same_acked;
  same_window = g.same_window ∙ f.same_window;
  same_texts = g.same_texts ∙ f.same_texts;
}

nothing_left : (rest : List ℕ) → length (take 1460 rest) ≡ 0 → rest ≡ []
nothing_left [] e = refl
nothing_left (x ∷ rest) e = absurd (omega arith)

-- The window is full, or the file has been read to its end.
abbrev pub IsRead : ℕ → Sender → Type 0
IsRead w s = (length s.packs ≡ s.base + w) ⊎ (s.rest ≡ [])

IsRead-end :
    {message : List ℕ} {w : ℕ} {s : Sender}
    → Sending message w s
    → (ltb s.totseq (upper s) && not (length (chunk s) == 0)) ≡ false
    → IsRead w s
IsRead-end {w} {s} v end = elim (dec_lt (length s.packs) (s.base + w)) [
  | yes lt ↦ inr (nothing_left s.rest (ground (arith, v.total, upper_lem v)))
  | no ge ↦ inl (omega (arith, v.read_window))
]

push_chunk_shorter :
    (s : Sender) → 0 < length (chunk s) → length (push_chunk s).rest < length s.rest
unfolding push_chunk
push_chunk_shorter s nonempty = omega (arith, length-drop 1460 s.rest, length-take 1460 s.rest)

-- The reading loop ends within as many rounds as there are bytes left and one more, keeps the
-- sender's invariant, leaves what was sent alone, and ends with the window full or the file read
-- to its end.
pub read_file-Sending :
    {message : List ℕ} {w : ℕ} (fuel : ℕ) (s : Sender)
    → Sending message w s
    → length s.rest < fuel
    → Sending message w (read_file fuel s)
      × Extends s (read_file fuel s)
      × IsRead w (read_file fuel s)
unfolding read_file
read_file-Sending zero s v h = absurd (omega arith)
read_file-Sending {message} {w} (suc fuel) s v h =
    elim (Bool-cases (ltb s.totseq (upper s) && not (length (chunk s) == 0))) [
      | inl more ↦
          let open_window : length s.packs < s.base + w = ground (arith, v.total, upper_lem v) in
          let nonempty : 0 < length (chunk s) = ground arith in
          let v' = push_chunk-Sending v open_window nonempty in
          let (v'', ext, read) =
            read_file-Sending fuel (push_chunk s) v'
              (omega (arith, push_chunk_shorter s nonempty)) in
          rw (more, read_file) (v'', Extends-trans (push_chunk-Extends v) ext, read)
      | inr end ↦ rw (end, read_file) (v, Extends-refl s, IsRead-end v end)
    ]
