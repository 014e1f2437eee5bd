-- ===== src/Ftp/Session/Whole.antt =====
-- The loop of `main` of ftp_client.cpp, line after line, against the loop of ftp_server.cpp: over
-- whole datagrams, and over the byte streams of the connection.
use networking_labs.Prelude.{
  ℕ, ◌+◌, ◌^◌, ◌≤◌, ◌≡◌, refl, ap, ◌∙◌, List, [], ◌∷◌, ◌++◌, Bool, true, false, length,
  length-append, All, All-append, arith, inl, inr, Bool-cases,
}
use networking_labs.Prelude.Bytes.{is_space}
use networking_labs.Ftp.{Datagram}
use networking_labs.Ftp.Stream.{IsDatagram}
use networking_labs.Ftp.Text.{flush, words_loop, parser_cmd}
use networking_labs.Ftp.Server.{Server, Reaction, reacts, overread, hangs, serve}
use networking_labs.Ftp.Client.{Client, Talk, goes_on, leaves, writes, reads, client_round}
use networking_labs.Ftp.Session.{Meeting, met, stuck, converse}
use networking_labs.Ftp.Session.Wire.{IsWritten, serve-IsWritten}
use networking_labs.Ftp.Session.Requests.{IsTyped, client_round-IsSendable}
use networking_labs.Ftp.Session.Bytes.{
  Line, ByteMeeting, ended, jammed, converse_bytes, bytes_of, as_bytes, IsOpen, converse_bytes_lem,
}

-- A line that is typed, whether `ConnectServer` would find the server then, and what the
-- connection does in that round.
pub record Input : Type 0 where
  pub text : List ℕ
  pub connected : Bool
  pub line : Line

-- The next rounds follow where the client goes on.
abbrev pub resume : (Client → Server → List Datagram → Meeting) → Meeting → Meeting
resume next (met c s inbox true) = next c s inbox
resume next (met c s inbox false) = met c s inbox false
resume next stuck = stuck

unfoldable pub session : List ℕ → List Input → Client → Server → List Datagram → Meeting
session listing [] c s inbox = met c s inbox true
session listing (i ∷ is) c s inbox =
    resume (session listing is)
      (converse listing (client_round i.connected c (parser_cmd i.text)) s inbox)

abbrev pub resume_bytes :
    (Client → Server → List ℕ → List ℕ → ByteMeeting) → ByteMeeting → ByteMeeting
resume_bytes next (ended c s up down true) = next c s up down
resume_bytes next (ended c s up down false) = ended c s up down false
resume_bytes next jammed = jammed

unfoldable pub session_bytes : List ℕ → List Input → Client → Server → List ℕ → List ℕ → ByteMeeting
session_bytes listing [] c s up down = ended c s up down true
session_bytes listing (i ∷ is) c s up down =
    resume_bytes (session_bytes listing is)
      (converse_bytes listing i.line 0 (client_round i.connected c (parser_cmd i.text)) s up down)

flush-All :
    (n : ℕ) (word : List ℕ) (words : List (List ℕ))
    → length word ≤ n
    → All (λ (w : List ℕ). length w ≤ n) words
    → All (λ (w : List ℕ). length w ≤ n) (flush word words)
flush-All n [] words le h = h
flush-All n (x ∷ xs) words le h = (le, h)

words_loop-All :
    (n : ℕ) (word bytes : List ℕ)
    → length word + length bytes ≤ n
    → All (λ (w : List ℕ). length w ≤ n) (words_loop word bytes)
unfolding words_loop
words_loop-All n [] [] h = tt
words_loop-All n (b ∷ word) [] h = (omega arith, tt)
words_loop-All n word (b ∷ bytes) h = elim (Bool-cases (is_space b)) [
  | inl space ↦
      rw (space, words_loop)
        (flush-All n word _ (omega arith) (words_loop-All n [] bytes (omega arith)))
  | inr letter ↦
      rw (letter, words_loop)
        (words_loop-All n (word ++ b ∷ []) bytes (omega (arith, length-append word (b ∷ []))))
]

-- The words of a line are no longer than the line.
parser_cmd-IsTyped : (text : List ℕ) → length text ≤ 2 ^ 20 → IsTyped (parser_cmd text)
unfolding parser_cmd
parser_cmd-IsTyped text h = words_loop-All (2 ^ 20) [] text (omega arith)

-- What is still to be read is sound, and the array of the listing has kept its bounds.
abbrev pub IsCarried : Meeting → Type 0
IsCarried (met c s inbox on) = (length s.buff ≤ 4096) × All IsDatagram inbox
IsCarried stuck = Unit {0}

converse-IsCarried :
    (listing : List ℕ) (talk : Talk) (s : Server) (inbox : List Datagram)
    → length s.buff ≤ 4096
    → All IsDatagram inbox
    → IsCarried (converse listing talk s inbox)
unfolding converse IsWritten
converse-IsCarried listing (goes_on c) s inbox room sound = (room, sound)
converse-IsCarried listing (leaves c) s inbox room sound = (room, sound)
converse-IsCarried listing (writes d talk) s inbox room sound =
    reaction (serve listing s d) (serve-IsWritten listing s d room)
      (λ s' inbox' room' sound'. converse-IsCarried listing talk s' inbox' room' sound')
  where
    reaction :
        (r : Reaction)
        → IsWritten listing s d r
        → ((s' : Server) (inbox' : List Datagram)
            → length s'.buff ≤ 4096
            → All IsDatagram inbox'
            → IsCarried (converse listing talk s' inbox'))
        → IsCarried (elim r [
          | reacts s' out ↦ converse listing talk s' (inbox ++ out)
          | overread ↦ stuck
          | hangs ↦ stuck
        ])
    reaction overread w onward = tt
    reaction hangs w onward = tt
    reaction (reacts s' out) w onward =
        onward s' (inbox ++ out) w.1 (All-append IsDatagram inbox out sound w.0)
converse-IsCarried listing (reads talk) s [] room sound = tt
converse-IsCarried listing (reads talk) s (d ∷ inbox) room sound =
    converse-IsCarried listing (talk d) s inbox room sound.1
converse-IsCarried listing Talk.overread s inbox room sound = tt
converse-IsCarried listing Talk.hangs s inbox room sound = tt

-- A line of at most 2^20 bytes, and a connection that goes on.
abbrev pub IsInput : Input → Type 0
IsInput i = (length i.text ≤ 2 ^ 20) × IsOpen i.line

resumed :
    (listing : List ℕ) (is : List Input) (m : Meeting)
    → IsCarried m
    → ((c : Client) (s : Server) (inbox : List Datagram)
        → length s.buff ≤ 4096
        → All IsDatagram inbox
        → session_bytes listing is c s [] (bytes_of inbox)
          ≡ as_bytes (session listing is c s inbox))
    → resume_bytes (session_bytes listing is) (as_bytes m)
      ≡ as_bytes (resume (session listing is) m)
resumed listing is (met c s inbox true) carried next = next c s inbox carried.0 carried.1
resumed listing is (met c s inbox false) carried next = refl
resumed listing is stuck carried next = refl

session_bytes_from :
    (listing : List ℕ) (is : List Input) (c : Client) (s : Server) (inbox : List Datagram)
    → All IsInput is
    → length s.buff ≤ 4096
    → All IsDatagram inbox
    → session_bytes listing is c s [] (bytes_of inbox) ≡ as_bytes (session listing is c s inbox)
unfolding session_bytes session
session_bytes_from listing [] c s inbox h room sound = refl
session_bytes_from listing (i ∷ is) c s inbox h room sound =
    let talk = client_round i.connected c (parser_cmd i.text) in
    ap (resume_bytes (session_bytes listing is)) (
      converse_bytes_lem i.line h.0.1 listing 0 talk s inbox
        (client_round-IsSendable i.connected c (parser_cmd i.text)
          (parser_cmd-IsTyped i.text h.0.0))
        room sound)
    ∙ resumed listing is (converse listing talk s inbox)
        (converse-IsCarried listing talk s inbox room sound)
        (λ c' s' inbox' room' sound'. session_bytes_from listing is c' s' inbox' h.1 room' sound')

-- A whole session of the client against the server over the two byte streams of the connection,
-- each datagram written by writeDgram and read by readDgram in as many pieces as the connection
-- likes, whatever the buffers held, ends as it does where whole datagrams are exchanged, in the
-- same two states, with nothing unread by the server and the bytes of the unread replies left for
-- the client, or stuck where that is stuck; for lines of at most 2^20 bytes, a listing array of at
-- most 4096, and a connection in which every call of read gives a byte at least.
pub session_bytes_lem :
    (listing : List ℕ) (is : List Input) (c : Client) (s : Server)
    → All IsInput is
    → length s.buff ≤ 4096
    → session_bytes listing is c s [] [] ≡ as_bytes (session listing is c s [])
session_bytes_lem listing is c s h room = session_bytes_from listing is c s [] h room tt
