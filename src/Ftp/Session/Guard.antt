-- ===== src/Ftp/Session/Guard.antt =====
-- ftp_client.cpp: what a client asks for before it is logged in. A session is run against the
-- replies that come, whoever writes them.
use networking_labs.Prelude.{
  ℕ, ◌≡◌, ◌==◌, refl, List, [], ◌∷◌, ◌++◌, Option, none, some, Bool, true, false, ◌&&◌, ◌||◌,
  get_elem?, if◌then◌else◌, All, All-append, arith, Bool-cases, inl, inr,
}
use networking_labs.Ftp.{Datagram, empty_datagram, text_datagram}
use networking_labs.Ftp.Kinds.{
  auth_reply_type, open_conn_request_type, auth_request_type, quit_request_type, open_conn_request,
}
use networking_labs.Ftp.Client.{
  Client, CmdType, cmd_unknown, cmd_open, cmd_auth, cmd_ls, cmd_get, cmd_put, cmd_quit, Talk,
  goes_on, leaves, writes, reads, client_round, run_cmd, check_cmd, check_auth, conn_sucess,
  on_open, on_auth, on_ls, on_quit, on_get, on_put, with_word,
}

-- A line that is typed, whether the server is found, and the datagrams that then come.
pub record Turn : Type 0 where
  pub connected : Bool
  pub cmd : List (List ℕ)
  pub replies : List Datagram

-- What a round writes, and the client after it where the round ends and the loop goes on.
pub record Played : Type 0 where
  pub written : List Datagram
  pub next : Option Client

unfoldable pub play : Talk → List Datagram → Played
play (goes_on c) replies = record { written = []; next = some c }
play (leaves c) replies = record { written = []; next = none }
play (writes d talk) replies =
    let rest = play talk replies in record rest { written = d ∷ rest.written }
play (reads talk) [] = record { written = []; next = none }
play (reads talk) (d ∷ replies) = play (talk d) replies
play Talk.overread replies = record { written = []; next = none }
play Talk.hangs replies = record { written = []; next = none }

-- What the loop of `main` writes.
unfoldable pub play_turns : Client → List Turn → List Datagram
play_turns c [] = []
play_turns c (t ∷ ts) =
    let round = play (client_round t.connected c t.cmd) t.replies in
    elim (round.next) [ none ↦ round.written | some c' ↦ round.written ++ play_turns c' ts ]

-- AUTH_REPLY with status 1.
unfoldable pub grants : Datagram → Bool
grants d = d.hd.m_type == auth_reply_type && d.hd.m_status == 1

-- OPEN_CONN_REQUEST, AUTH_REQUEST or QUIT_REQUEST.
unfoldable pub asks_no_files : Datagram → Bool
asks_no_files d =
    let type = d.hd.m_type in
    type == open_conn_request_type || type == auth_request_type || type == quit_request_type

-- The rest of a round asks for no files, and leaves the client logged out.
unfoldable IsQuiet : Talk → Type 0
IsQuiet (goes_on c) = c.clnt_auth ≡ false
IsQuiet (leaves c) = Unit {0}
IsQuiet (writes d talk) = (asks_no_files d ≡ true) × IsQuiet talk
IsQuiet (reads talk) = (d : Datagram) → grants d ≡ false → IsQuiet (talk d)
IsQuiet Talk.overread = Unit {0}
IsQuiet Talk.hangs = Unit {0}

-- A logged-out client, or none.
abbrev pub IsOut : Option Client → Type 0
IsOut none = Unit {0}
IsOut (some c) = c.clnt_auth ≡ false

play-IsQuiet :
    (talk : Talk) (replies : List Datagram)
    → IsQuiet talk
    → All (λ d. grants d ≡ false) replies
    → All (λ d. asks_no_files d ≡ true) (play talk replies).written × IsOut (play talk replies).next
unfolding play IsQuiet
play-IsQuiet (goes_on c) replies h g = (tt, h)
play-IsQuiet (leaves c) replies h g = (tt, tt)
play-IsQuiet (writes d talk) replies h g =
    let (w, n) = play-IsQuiet talk replies h.1 g in ((h.0, w), n)
play-IsQuiet (reads talk) [] h g = (tt, tt)
play-IsQuiet (reads talk) (d ∷ replies) h g = play-IsQuiet (talk d) replies (h d g.0) g.1
play-IsQuiet Talk.overread replies h g = (tt, tt)
play-IsQuiet Talk.hangs replies h g = (tt, tt)

with_word-IsQuiet :
    (cmd : List (List ℕ)) (i : ℕ) (use_it : List ℕ → Talk)
    → ((word : List ℕ) → IsQuiet (use_it word))
    → IsQuiet (with_word cmd i use_it)
unfolding with_word IsQuiet
with_word-IsQuiet cmd i use_it h = given (get_elem? cmd i)
  where
    given :
        (o : Option (List ℕ)) → IsQuiet (elim o [ none ↦ Talk.overread | some word ↦ use_it word ])
    given none = tt
    given (some word) = h word

greet-IsQuiet :
    (c : Client) → IsQuiet (writes open_conn_request (reads (λ reply. goes_on (conn_sucess c))))
unfolding IsQuiet asks_no_files empty_datagram conn_sucess
greet-IsQuiet c = (refl, λ d g. refl)

on_open-IsQuiet :
    (connected : Bool) (c : Client) (cmd : List (List ℕ))
    → c.clnt_auth ≡ false
    → IsQuiet (on_open connected c cmd)
unfolding on_open IsQuiet
on_open-IsQuiet connected c cmd out = either c.serv_socket
  where
    found :
        (b : Bool)
        → IsQuiet (
            if b
            then writes open_conn_request
                (reads (λ reply. goes_on (conn_sucess (record c { serv_socket = true }))))
            else goes_on c)
    found true = greet-IsQuiet (record c { serv_socket = true })
    found false = out

    either :
        (b : Bool)
        → IsQuiet (
            if b
            then writes open_conn_request (reads (λ reply. goes_on (conn_sucess c)))
            else with_word cmd 1 (λ ip. with_word cmd 2 (λ port.
              if connected
              then writes open_conn_request
                  (reads (λ reply. goes_on (conn_sucess (record c { serv_socket = true }))))
              else goes_on c)))
    either true = greet-IsQuiet c
    either false =
        with_word-IsQuiet cmd 1 _ (λ ip. with_word-IsQuiet cmd 2 _ (λ port. found connected))

on_auth-IsQuiet : (c : Client) (cmd : List (List ℕ)) → c.clnt_auth ≡ false → IsQuiet (on_auth c cmd)
unfolding on_auth IsQuiet grants asks_no_files text_datagram
on_auth-IsQuiet c cmd out = elim (Bool-cases c.clnt_conn) [
  | inl conn ↦
      rw (conn, out)
        (with_word-IsQuiet cmd 1 _
          (λ user. with_word-IsQuiet cmd 2 _ (λ word. (refl, λ d g. rw g tt))))
  | inr absent ↦ rw absent out
]

check_auth_out : (c : Client) → c.clnt_auth ≡ false → check_auth c ≡ false
unfolding check_auth
check_auth_out c out = ground (arith, out)

run_cmd-IsQuiet :
    (type : CmdType) (connected : Bool) (c : Client) (cmd : List (List ℕ))
    → c.clnt_auth ≡ false
    → IsQuiet (run_cmd type connected c cmd)
unfolding run_cmd on_ls on_get on_put on_quit IsQuiet asks_no_files empty_datagram
run_cmd-IsQuiet cmd_unknown connected c cmd out = out
run_cmd-IsQuiet cmd_open connected c cmd out = on_open-IsQuiet connected c cmd out
run_cmd-IsQuiet cmd_auth connected c cmd out = on_auth-IsQuiet c cmd out
run_cmd-IsQuiet cmd_ls connected c cmd out = rw (check_auth_out c out) out
run_cmd-IsQuiet cmd_get connected c cmd out = rw (check_auth_out c out) out
run_cmd-IsQuiet cmd_put connected c cmd out = rw (check_auth_out c out) out
run_cmd-IsQuiet cmd_quit connected c cmd out = (refl, λ d g. tt)

client_round-IsQuiet :
    (connected : Bool) (c : Client) (cmd : List (List ℕ))
    → c.clnt_auth ≡ false
    → IsQuiet (client_round connected c cmd)
unfolding client_round
client_round-IsQuiet connected c cmd out = run_cmd-IsQuiet (check_cmd cmd) connected c cmd out

-- A client that is not logged in, whatever is typed and whatever replies come, writes nothing but
-- OPEN, AUTH and QUIT requests as long as no AUTH reply with status 1 has come.
pub play_turns-asks_no_files :
    (c : Client) (turns : List Turn)
    → c.clnt_auth ≡ false
    → All (λ t. All (λ d. grants d ≡ false) t.replies) turns
    → All (λ d. asks_no_files d ≡ true) (play_turns c turns)
unfolding play_turns
play_turns-asks_no_files c [] out g = tt
play_turns-asks_no_files c (t ∷ ts) out g =
    let round = client_round t.connected c t.cmd in
    let (quiet, still) =
      play-IsQuiet round t.replies (client_round-IsQuiet t.connected c t.cmd out) g.0 in
    let later =
      λ (c' : Client) (still' : c'.clnt_auth ≡ false). play_turns-asks_no_files c' ts still' g.1 in
    after later (play round t.replies).next still quiet
  where
    after :
        ((c' : Client)
          → c'.clnt_auth ≡ false
          → All (λ d. asks_no_files d ≡ true) (play_turns c' ts))
        → (next : Option Client) → IsOut next
        → All
            (λ d. asks_no_files d ≡ true)
            (play (client_round t.connected c t.cmd) t.replies).written
        → All
            (λ d. asks_no_files d ≡ true)
            (elim next [
              | none ↦ (play (client_round t.connected c t.cmd) t.replies).written
              | some c' ↦
                  (play (client_round t.connected c t.cmd) t.replies).written ++ play_turns c' ts
            ])
    after later none still quiet = quiet
    after later (some c') still quiet = All-append _ _ _ quiet (later c' still)
