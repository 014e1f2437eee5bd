-- ===== src/Ftp/Tests.antt =====
-- A datagram over a connection, and the client against the server.
use networking_labs.Prelude.{
  ℕ, zero, suc, ◌^◌, ◌≡◌, ◌≤◌, ◌↔◌, refl, List, [], ◌∷◌, ◌++◌, ◌-◌, none, some, Bool, true, false,
  if◌then◌else◌, length, All, arith, replicate,
}
use networking_labs.Ftp.{Datagram, text_datagram, write_dgram, read_dgram}
use networking_labs.Prelude.Bytes.{is_space}
use networking_labs.Ftp.Text.{eq_bytes}
use networking_labs.Ftp.Files.{FileSystem, file_buf_size}
use networking_labs.Ftp.Kinds.{
  auth_request, auth_reply, open_conn_request, open_conn_reply, list_reply,
}
use networking_labs.Ftp.Server.{Server, start_server, serve, reacts, uid, pass}
use networking_labs.Ftp.Client.{
  Client, start_client, conn_sucess, auth_sucess, auth_fail, client_round, word_open, word_get,
  word_put, word_auth, word_ls,
}
use networking_labs.Ftp.Session.{IsIdle, IsLoggedIn, converse, met, stuck}
use networking_labs.Ftp.Session.Transfer.{IsCopy, get_delivers, get_fails, put_delivers}
use networking_labs.Ftp.Session.Login.{auth_grants, stale_auth}
use networking_labs.Ftp.Session.Guard.{
  Turn, play_turns, asks_no_files, grants, play_turns-asks_no_files,
}
use networking_labs.Ftp.Session.Wire.{IsWritten, serve-IsWritten}
use networking_labs.Ftp.Session.Bytes.{Line, as_bytes}
use networking_labs.Ftp.Session.Whole.{Input, session, session_bytes, session_bytes_lem}
use networking_labs.Ftp.Stream.{
  Enough, IsDatagram, text_datagram-IsDatagram, read_dgram-write_dgram,
}

-- A request for the file `a`.
abbrev a_request : Datagram
a_request = text_datagram 0xa7 0 (97 ∷ [])

a_request-IsDatagram : IsDatagram a_request
a_request-IsDatagram =
    text_datagram-IsDatagram 0xa7 0 (97 ∷ []) (omega arith) (omega arith) (omega arith)

-- Five bytes come with each call of `read`.
read_dgram-write_dgram_example :
    (left : List ℕ) × (read_dgram (replicate 14 5) (write_dgram [] a_request ++ 1 ∷ 2 ∷ [])
      ≡ some (a_request, 1 ∷ 2 ∷ [], left))
unfolding text_datagram
read_dgram-write_dgram_example =
    read_dgram-write_dgram (replicate 14 5) [] (1 ∷ 2 ∷ []) a_request a_request-IsDatagram
      (omega arith)

-- One file, `a`, on either end, with different content.
abbrev disk : List ℕ → FileSystem
disk content name = if eq_bytes name (97 ∷ []) then some content else none

abbrev server : Server
server = start_server [] [] (disk (1 ∷ 2 ∷ []))

abbrev fresh_client : Client
fresh_client = start_client [] (disk (3 ∷ []))

abbrev client : Client
client = auth_sucess fresh_client

server-IsIdle : IsIdle 2 server
unfolding start_server
server-IsIdle = record { nothing_stored = refl; still_there = refl; rounds_left = omega arith }

client-IsLoggedIn : IsLoggedIn client
unfolding auth_sucess
client-IsLoggedIn = record { connected = refl; authenticated = refl }

get_delivers_example :
    (c' : Client) × (s' : Server) × (converse []
        (client_round true client (word_get ∷ (97 ∷ []) ∷ []))
        server
        []
      ≡ met c' s' [] true)
    × IsCopy (97 ∷ []) (1 ∷ 2 ∷ []) client.files c'.files
    × (s'.files ≡ server.files)
    × IsLoggedIn c'
    × IsIdle 1 s'
unfolding start_server eq_bytes
get_delivers_example =
    get_delivers [] (97 ∷ []) (1 ∷ 2 ∷ []) [] true client server 1 client-IsLoggedIn server-IsIdle
      ((omega arith), tt) refl (omega arith)

put_delivers_example :
    (c' : Client) × (s' : Server) × (converse []
        (client_round true client (word_put ∷ (97 ∷ []) ∷ []))
        server
        []
      ≡ met c' s' [] true)
    × IsCopy (97 ∷ []) (3 ∷ []) server.files s'.files
    × (c'.files ≡ client.files)
    × IsLoggedIn c'
    × IsIdle 1 s'
unfolding start_client auth_sucess eq_bytes
put_delivers_example =
    put_delivers [] (97 ∷ []) (3 ∷ []) [] true client server 1 client-IsLoggedIn server-IsIdle
      ((omega arith), tt) refl (omega arith)

get_fails_example :
    (server.files (98 ∷ []) ≡ none
      → (s' : Server) × (converse []
            (client_round true client (word_get ∷ (98 ∷ []) ∷ []))
            server
            []
          ≡ met client s' [] true)
        × (s' ≡ record server { wait_times_lim = server.wait_times_lim - 1 })
        × IsIdle 1 s')
    × (server.files (98 ∷ []) ≡ some []
        → file_buf_size ≤ length {A = ℕ} []
        → converse [] (client_round true client (word_get ∷ (98 ∷ []) ∷ [])) server [] ≡ stuck)
get_fails_example =
    get_fails [] (98 ∷ []) [] [] true client server 1 client-IsLoggedIn server-IsIdle
      ((omega arith), tt)

-- A wrong password.
auth_grants_example :
    (ok : Bool) × (s' : Server) × (converse []
        (client_round true (conn_sucess fresh_client) (word_auth ∷ uid ∷ (49 ∷ []) ∷ []))
        server
        []
      ≡ met
          (if ok
            then auth_sucess (conn_sucess fresh_client)
            else auth_fail (conn_sucess fresh_client))
          s'
          []
          ok)
    × (s'.auth_pass ≡ ok)
    × (s'.files ≡ server.files)
    × IsIdle 1 s'
    × ((ok ≡ true) ↔ ((uid ≡ uid) × ((49 ∷ []) ≡ pass)))
unfolding start_client conn_sucess is_space
auth_grants_example =
    auth_grants [] uid (49 ∷ []) [] true (conn_sucess fresh_client) server 1 refl refl server-IsIdle
      (ground arith, ground arith) (ground arith, ground arith)

stale_auth_example :
    (s1 : Server) × (s2 : Server) × (s3 : Server) × (serve [] server
        (auth_request (uid ++ 32 ∷ pass))
      ≡ reacts s1 (auth_reply true ∷ []))
    × (serve [] s1 open_conn_request ≡ reacts s2 (open_conn_reply 1 ∷ []))
    × (s2.auth_pass ≡ false)
    × (serve [] s2 (auth_request (32 ∷ [])) ≡ reacts s3 (auth_reply true ∷ []))
unfolding is_space
stale_auth_example = stale_auth [] (32 ∷ []) server server-IsIdle ((omega arith), tt) (refl, tt)

-- A listing that comes unasked does not let the client in.
abbrev turns : List Turn
turns =
    record { connected = true; cmd = word_auth ∷ uid ∷ pass ∷ []; replies = list_reply [] ∷ [] }
    ∷ record { connected = true; cmd = word_ls ∷ []; replies = [] }
    ∷ []

play_turns-asks_no_files_example :
    All (λ d. asks_no_files d ≡ true) (play_turns (conn_sucess fresh_client) turns)
unfolding conn_sucess grants text_datagram
play_turns-asks_no_files_example =
    play_turns-asks_no_files (conn_sucess fresh_client) turns refl ((refl, tt), (tt, tt))

serve-IsWritten_example : IsWritten [] server a_request (serve [] server a_request)
unfolding start_server
serve-IsWritten_example = serve-IsWritten [] server a_request (omega arith)

-- `open h 1`, `auth user 123123` and `ls`, with five bytes in each call of `read`.
abbrev slow_line : Line
slow_line = record { found = λ n. replicate (2 ^ 22) 5; held = λ n. [] }

replicate-Enough : (n : ℕ) → Enough n (replicate n 5)
replicate-Enough zero = (tt, omega arith)
replicate-Enough (suc n) = let h = replicate-Enough n in ((omega arith, h.0), omega (arith, h.1))

abbrev typed : List ℕ → Input
typed text = record { text = text; connected = true; line = slow_line }

abbrev inputs : List Input
inputs =
    typed (word_open ++ 32 ∷ 104 ∷ 32 ∷ 49 ∷ [])
    ∷ typed (word_auth ++ 32 ∷ uid ++ 32 ∷ pass)
    ∷ typed word_ls
    ∷ []

session_bytes_lem_example :
    session_bytes (102 ∷ 0 ∷ []) inputs fresh_client server [] []
    ≡ as_bytes (session (102 ∷ 0 ∷ []) inputs fresh_client server [])
unfolding start_server
session_bytes_lem_example =
    session_bytes_lem (102 ∷ 0 ∷ []) inputs fresh_client server
      (
        (omega arith, λ n. replicate-Enough (2 ^ 22)),
        (
          (omega arith, λ n. replicate-Enough (2 ^ 22)),
          ((omega arith, λ n. replicate-Enough (2 ^ 22)), tt),
        ),
      )
      (omega arith)
