-- ===== src/Ftp/Session/Bytes.antt =====
-- A command of ftp_client.cpp and the loop of ftp_server.cpp over the two byte streams of their
-- connection: each datagram is written by `writeDgram` and read by `readDgram`.
use Prim.Native.Nat.{min}
use mathlib.Core.List.{append_assoc, append-nil}
use networking_labs.Prelude.{
  ℕ, ◌+◌, ◌-◌, ◌^◌, ◌≤◌, ◌<◌, ◌≡◌, refl, sym, ap, ◌∙◌, List, [], ◌∷◌, ◌++◌, none, some, Bool, true,
  false, ◌==◌, length, All, All-append, arith,
}
use networking_labs.Ftp.{Datagram, header_size, header_bytes, write_dgram, read_buf, read_dgram}
use networking_labs.Ftp.Stream.{IsDatagram, Enough, write_dgram_lem, read_dgram-write_dgram}
use networking_labs.Ftp.Server.{Server, Reaction, reacts, overread, hangs, serve}
use networking_labs.Ftp.Client.{Client, Talk, goes_on, leaves, writes, reads}
use networking_labs.Ftp.Session.{Meeting, met, stuck, converse}
use networking_labs.Ftp.Session.Wire.{IsWritten, serve-IsWritten}
use networking_labs.Ftp.Session.Requests.{IsSendable}

-- What the outside gives to the n-th step: how many bytes each call of `read` finds, and what the
-- buffer of `writeDgram` held before.
pub record Line : Type 0 where
  pub found : ℕ → List ℕ
  pub held : ℕ → List ℕ

-- How a round ends: both ends, the bytes that neither has read, and whether the client goes on.
pub data ByteMeeting : Type 0 where
  ended : Client → Server → List ℕ → List ℕ → Bool → ByteMeeting
  jammed : ByteMeeting

-- The server writes one datagram after the other.
abbrev pub write_all : List ℕ → List Datagram → List ℕ
write_all bbuff [] = []
write_all bbuff (d ∷ ds) = write_dgram bbuff d ++ write_all bbuff ds

-- `up` is what the server has not read, `down` what the client has not read.
unfoldable pub converse_bytes : List ℕ → Line → ℕ → Talk → Server → List ℕ → List ℕ → ByteMeeting
converse_bytes listing line n (goes_on c) s up down = ended c s up down true
converse_bytes listing line n (leaves c) s up down = ended c s up down false
converse_bytes listing line n (writes d talk) s up down =
    elim (read_dgram (line.found n) (up ++ write_dgram (line.held n) d)) [
      | none ↦ jammed
      | some (rev, up', left) ↦ elim (serve listing s rev) [
        | reacts s' out ↦
            converse_bytes listing line (n + 1) talk s' up' (down ++ write_all (line.held n) out)
        | overread ↦ jammed
        | hangs ↦ jammed
      ]
    ]
converse_bytes listing line n (reads talk) s up down = elim (read_dgram (line.found n) down) [
  | none ↦ jammed
  | some (d, down', left) ↦ converse_bytes listing line (n + 1) (talk d) s up down'
]
converse_bytes listing line n Talk.overread s up down = jammed
converse_bytes listing line n Talk.hangs s up down = jammed

-- Datagrams as they lie in a stream.
abbrev pub bytes_of : List Datagram → List ℕ
bytes_of [] = []
bytes_of (d ∷ ds) = (header_bytes d.hd ++ d.payload) ++ bytes_of ds

abbrev pub as_bytes : Meeting → ByteMeeting
as_bytes (met c s inbox on) = ended c s [] (bytes_of inbox) on
as_bytes stuck = jammed

bytes_of-append : (ds es : List Datagram) → bytes_of (ds ++ es) ≡ bytes_of ds ++ bytes_of es
bytes_of-append [] es = refl
bytes_of-append (d ∷ ds) es =
    ap (◌++◌ (header_bytes d.hd ++ d.payload)) (bytes_of-append ds es)
    ∙ sym (append_assoc (header_bytes d.hd ++ d.payload) (bytes_of ds) (bytes_of es))

write_all-bytes_of :
    (bbuff : List ℕ) (ds : List Datagram) → All IsDatagram ds → write_all bbuff ds ≡ bytes_of ds
write_all-bytes_of bbuff [] h = refl
write_all-bytes_of bbuff (d ∷ ds) h =
    rw (write_dgram_lem bbuff d h.0, write_all-bytes_of bbuff ds h.1)

-- From an empty stream nothing comes.
read_buf_empty : (ks : List ℕ) (len : ℕ) → 0 < len → read_buf ks len [] ≡ none
unfolding read_buf
read_buf_empty [] len h = ground arith
read_buf_empty (k ∷ ks) len h =
    let more : (len == 0) ≡ false = ground arith in
    let no_bytes : min k (min len 0) ≡ 0 = omega arith in
    let none_come = read_buf_empty ks (len - 0) (omega arith) in rw (more, no_bytes, none_come) refl

read_dgram_empty : (ks : List ℕ) → read_dgram ks [] ≡ none
unfolding read_dgram
read_dgram_empty ks = rw (read_buf_empty ks header_size (omega arith)) refl

-- Each reading has as many calls as a datagram can have bytes, and each call finds a byte at least.
abbrev pub IsOpen : Line → Type 0
IsOpen line = (n : ℕ) → Enough (2 ^ 22) (line.found n)

module _ (line : Line) (is_open : IsOpen line) where
  read_first :
      (n : ℕ) (d : Datagram) (ds : List Datagram)
      → IsDatagram d
      → (left : List ℕ) × (read_dgram (line.found n) (bytes_of (d ∷ ds))
          ≡ some (d, bytes_of ds, left))
  read_first n d ds v =
      let (left, got) =
        read_dgram-write_dgram (line.found n) [] (bytes_of ds) d v
          ((is_open n).0, omega (arith, (is_open n).1, v.small)) in
      (
        left,
        ap (λ l. read_dgram (line.found n) (l ++ bytes_of ds)) (sym (write_dgram_lem [] d v)) ∙ got,
      )

  read_alone :
      (n : ℕ) (d : Datagram)
      → IsDatagram d
      → (left : List ℕ) × (read_dgram (line.found n) ([] ++ write_dgram (line.held n) d)
          ≡ some (d, [], left))
  read_alone n d v =
      let (left, got) =
        read_dgram-write_dgram (line.found n) (line.held n) [] d v
          ((is_open n).0, omega (arith, (is_open n).1, v.small)) in
      (left, ap (read_dgram (line.found n)) (sym (append-nil (write_dgram (line.held n) d))) ∙ got)

  -- The bytes of the connection carry the conversation.
  pub converse_bytes_lem :
      (listing : List ℕ) (n : ℕ) (talk : Talk) (s : Server) (inbox : List Datagram)
      → IsSendable talk
      → length s.buff ≤ 4096
      → All IsDatagram inbox
      → converse_bytes listing line n talk s [] (bytes_of inbox)
        ≡ as_bytes (converse listing talk s inbox)
  unfolding converse_bytes converse IsSendable IsWritten
  converse_bytes_lem listing n (goes_on c) s inbox h room sound = refl
  converse_bytes_lem listing n (leaves c) s inbox h room sound = refl
  converse_bytes_lem listing n (writes d talk) s inbox h room sound =
      let (left, got) = read_alone n d h.0 in
      rw (got, converse_bytes, converse)
        (reaction (serve listing s d) (serve-IsWritten listing s d room) (λ s' inbox' room' sound'.
          converse_bytes_lem listing (n + 1) talk s' inbox' h.1 room' sound'))
    where
      reaction :
          (r : Reaction)
          → IsWritten listing s d r
          → ((s' : Server) (inbox' : List Datagram)
              → length s'.buff ≤ 4096
              → All IsDatagram inbox'
              → converse_bytes listing line (n + 1) talk s' [] (bytes_of inbox')
                ≡ as_bytes (converse listing talk s' inbox'))
          → elim r [
            | reacts s' out ↦
                converse_bytes listing line
                  (n + 1)
                  talk
                  s'
                  []
                  (bytes_of inbox ++ write_all (line.held n) out)
            | overread ↦ jammed
            | hangs ↦ jammed
          ]
            ≡ as_bytes (elim r [
              | reacts s' out ↦ converse listing talk s' (inbox ++ out)
              | overread ↦ stuck
              | hangs ↦ stuck
            ])
      reaction overread w onward = refl
      reaction hangs w onward = refl
      reaction (reacts s' out) w onward =
          rw (write_all-bytes_of (line.held n) out w.0, sym (bytes_of-append inbox out))
            (onward s' (inbox ++ out) w.1 (All-append IsDatagram inbox out sound w.0))
  converse_bytes_lem listing n (reads talk) s [] h room sound =
      rw (read_dgram_empty (line.found n), converse_bytes) refl
  converse_bytes_lem listing n (reads talk) s (d ∷ inbox) h room sound =
      let (left, got) = read_first n d inbox sound.0 in
      rw (got, converse_bytes, converse)
        (converse_bytes_lem listing (n + 1) (talk d) s inbox (h d) room sound.1)
  converse_bytes_lem listing n Talk.overread s inbox h room sound = refl
  converse_bytes_lem listing n Talk.hangs s inbox h room sound = refl
