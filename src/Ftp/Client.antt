-- ===== src/Ftp/Client.antt =====
-- lab1-myftp-Heccc257/ftp_client.cpp: what the client does with each command. A round of the loop
-- of `main` is a conversation: what it writes, and what it does with each datagram that it reads.
use networking_labs.Prelude.{
  ℕ, List, [], ◌∷◌, ◌++◌, none, some, Bool, true, false, not, ◌&&◌, ◌||◌, if◌then◌else◌, ◌==◌,
  get_elem?,
}
use networking_labs.Ftp.{Datagram, payload_length}
use networking_labs.Ftp.Text.{c_str, c_string, eq_bytes}
use networking_labs.Ftp.Files.{FileSystem, no_file, loaded, endless, upload, download}
use networking_labs.Ftp.Kinds.{
  open_conn_request, auth_request, list_request, quit_request, get_request, put_request, file_data,
  auth_reply_type,
}

pub data CmdType : Type 0 where
  cmd_unknown cmd_open cmd_auth cmd_ls cmd_get cmd_put cmd_quit : CmdType

abbrev pub word_open : List ℕ
word_open = b'o' ∷ b'p' ∷ b'e' ∷ b'n' ∷ []

abbrev pub word_auth : List ℕ
word_auth = b'a' ∷ b'u' ∷ b't' ∷ b'h' ∷ []

abbrev pub word_ls : List ℕ
word_ls = b'l' ∷ b's' ∷ []

abbrev pub word_get : List ℕ
word_get = b'g' ∷ b'e' ∷ b't' ∷ []

abbrev pub word_put : List ℕ
word_put = b'p' ∷ b'u' ∷ b't' ∷ []

abbrev pub word_quit : List ℕ
word_quit = b'q' ∷ b'u' ∷ b'i' ∷ b't' ∷ []

-- `CheckCmd`
unfoldable pub check_cmd : List (List ℕ) → CmdType
check_cmd [] = cmd_unknown
check_cmd (word ∷ args) =
    if eq_bytes word word_open
    then cmd_open
    else if eq_bytes word word_auth
    then cmd_auth
    else if eq_bytes word word_ls
    then cmd_ls
    else if eq_bytes word word_get
    then cmd_get
    else if eq_bytes word word_put
    then cmd_put
    else if eq_bytes word word_quit
    then cmd_quit
    else cmd_unknown

-- `serv_socket` is whether there is a socket; `printed` is what goes to the screen as the listing.
pub record Client : Type 0 where
  pub serv_socket : Bool
  pub clnt_conn : Bool
  pub clnt_auth : Bool
  pub files : FileSystem
  pub file_buf : List ℕ
  pub printed : List ℕ

unfoldable pub start_client : List ℕ → FileSystem → Client
start_client file_buf files = record {
  serv_socket = false;
  clnt_conn = false;
  clnt_auth = false;
  files = files;
  file_buf = file_buf;
  printed = [];
}

-- `connSucess`, `authSucess` and `authFail`
unfoldable pub conn_sucess : Client → Client
conn_sucess c = record c { clnt_conn = true; clnt_auth = false }

unfoldable pub auth_sucess : Client → Client
auth_sucess c = record c { clnt_conn = true; clnt_auth = true }

unfoldable pub auth_fail : Client → Client
auth_fail c = record c { clnt_conn = false; clnt_auth = false }

-- `Check_auth`
unfoldable pub check_auth : Client → Bool
check_auth c = not (not c.clnt_conn || not c.clnt_auth)

-- The rest of a round: go on with the loop, leave it, write a datagram, read one; or a read past
-- the end of a vector or an array, or an `upload` that does not end.
pub data Talk : Type 0 where
  goes_on : Client → Talk
  leaves : Client → Talk
  writes : Datagram → Talk → Talk
  reads : (Datagram → Talk) → Talk
  overread : Talk
  hangs : Talk

-- `cmd[i]`
unfoldable pub with_word : List (List ℕ) → ℕ → (List ℕ → Talk) → Talk
with_word cmd i use_it = elim (get_elem? cmd i) [ none ↦ overread | some word ↦ use_it word ]

-- `connected` is whether `ConnectServer` finds the server. The client counts as connected whatever
-- the reply says.
unfoldable pub on_open : Bool → Client → List (List ℕ) → Talk
on_open connected c cmd =
    let greet =
      λ (c' : Client). writes open_conn_request (reads (λ reply. goes_on (conn_sucess c'))) in
    if c.serv_socket
    then greet c
    else with_word cmd 1 (λ ip.
      with_word cmd 2
        (λ port. if connected then greet (record c { serv_socket = true }) else goes_on c))

unfoldable pub on_auth : Client → List (List ℕ) → Talk
on_auth c cmd =
    if not c.clnt_conn
    then goes_on c
    else if c.clnt_auth
    then goes_on c
    else with_word cmd 1 (λ user. with_word cmd 2 (λ word.
      writes (auth_request (c_str (user ++ 32 ∷ word))) (
        reads (λ reply.
          if reply.hd.m_type == auth_reply_type && reply.hd.m_status == 1
          then goes_on (auth_sucess c)
          else leaves (auth_fail c)))))

unfoldable pub on_ls : Client → Talk
on_ls c =
    if check_auth c
    then writes list_request (
        reads (λ reply. elim (c_string reply.payload) [
          | none ↦ overread
          | some filenames ↦ goes_on (record c { printed = filenames })
        ]))
    else goes_on c

unfoldable pub on_quit : Client → Talk
on_quit c = writes quit_request (reads (λ reply. leaves c))

unfoldable pub on_get : Client → List (List ℕ) → Talk
on_get c cmd =
    if check_auth c
    then with_word cmd 1 (λ name. writes (get_request (c_str name)) (
        reads (λ reply.
          if reply.hd.m_status == 0
          then goes_on c
          else reads (λ file. goes_on (record c {
            files = download (c_str name) file.payload (payload_length file.hd) c.files;
          })))))
    else goes_on c

unfoldable pub on_put : Client → List (List ℕ) → Talk
on_put c cmd =
    if check_auth c
    then with_word cmd 1 (λ name. elim (upload c.files (c_str name) c.file_buf) [
      | no_file ↦ goes_on c
      | endless ↦ hangs
      | loaded buf len ↦
          writes (put_request (c_str name))
            (reads (λ reply. writes (file_data len buf) (goes_on (record c { file_buf = buf }))))
    ])
    else goes_on c

-- A round of the loop of `main` after `Parser_cmd`.
unfoldable pub run_cmd : CmdType → Bool → Client → List (List ℕ) → Talk
run_cmd cmd_unknown connected c cmd = goes_on c
run_cmd cmd_open connected c cmd = on_open connected c cmd
run_cmd cmd_auth connected c cmd = on_auth c cmd
run_cmd cmd_ls connected c cmd = on_ls c
run_cmd cmd_get connected c cmd = on_get c cmd
run_cmd cmd_put connected c cmd = on_put c cmd
run_cmd cmd_quit connected c cmd = on_quit c

unfoldable pub client_round : Bool → Client → List (List ℕ) → Talk
client_round connected c cmd = run_cmd (check_cmd cmd) connected c cmd
