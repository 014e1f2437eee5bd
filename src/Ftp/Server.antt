-- ===== src/Ftp/Server.antt =====
-- lab1-myftp-Heccc257/ftp_server.cpp: the credentials, and what the loop of `main` does with each
-- datagram. The sockets, and what `ls` prints, are arguments.
use networking_labs.Prelude.{
  ℕ, ◌-◌, List, [], ◌∷◌, ◌++◌, Option, none, some, Bool, true, false, ◌&&◌, if◌then◌else◌, ◌==◌,
  length, take, drop,
}
use networking_labs.Ftp.{Datagram, payload_length}
use networking_labs.Ftp.Text.{c_string, eq_bytes, extract}
use networking_labs.Ftp.Files.{FileSystem, no_file, loaded, endless, upload, download}
use networking_labs.Ftp.Kinds.{
  open_conn_request_type, auth_request_type, list_request_type, quit_request_type, get_request_type,
  put_request_type, open_conn_reply, auth_reply, list_reply, quit_reply, get_reply, put_reply,
  file_data,
}

abbrev pub uid : List ℕ
uid = b'u' ∷ b's' ∷ b'e' ∷ b'r' ∷ []

abbrev pub pass : List ℕ
pass = b'1' ∷ b'2' ∷ b'3' ∷ b'1' ∷ b'2' ∷ b'3' ∷ []

-- The variables of the server. `storing` is set between the reply to a PUT and the file: the name
-- that the file will have. `left` is set when the loop has been left.
pub record Server : Type 0 where
  pub auth_pass : Bool
  pub iuid : List ℕ
  pub ipass : List ℕ
  pub buff : List ℕ
  pub file_buf : List ℕ
  pub files : FileSystem
  pub wait_times_lim : ℕ
  pub storing : Option (List ℕ)
  pub left : Bool

-- The start of `main`. The two buffers are new arrays that nothing has been written to.
unfoldable pub start_server : List ℕ → List ℕ → FileSystem → Server
start_server buff file_buf files = record {
  auth_pass = false;
  iuid = [];
  ipass = [];
  buff = buff;
  file_buf = file_buf;
  files = files;
  wait_times_lim = 100000;
  storing = none;
  left = false;
}

-- `AUTHENCIATION::check`
unfoldable pub check : List ℕ → Server → Server
check auth s =
    let (iuid, stream) = extract s.iuid auth in
    let (ipass, stream') = extract s.ipass stream in
    record s { iuid = iuid; ipass = ipass; auth_pass = eq_bytes uid iuid && eq_bytes pass ipass }

-- `getFileList`: up to 2048 bytes of what `ls` prints, over what `buff` held.
unfoldable pub get_file_list : List ℕ → Server → Server
get_file_list listing s =
    let got = take 2048 listing in record s { buff = got ++ drop (length got) s.buff }

-- What the server does with a datagram: its state and what it writes; a read past the end of an
-- array; or an `upload` that does not end.
pub data Reaction : Type 0 where
  reacts : Server → List Datagram → Reaction
  overread : Reaction
  hangs : Reaction

-- A string at the start of an array.
unfoldable pub with_string : List ℕ → (List ℕ → Reaction) → Reaction
with_string array use_it = elim (c_string array) [ none ↦ overread | some text ↦ use_it text ]

unfoldable pub on_get : Server → List ℕ → Reaction
on_get s filename = elim (upload s.files filename s.file_buf) [
  | no_file ↦ reacts s (get_reply false ∷ [])
  | loaded buf len ↦ reacts (record s { file_buf = buf }) (get_reply true ∷ file_data len buf ∷ [])
  | endless ↦ hangs
]

-- The tests on the type of a request.
unfoldable pub on_request : List ℕ → Server → Datagram → Reaction
on_request listing s rev =
    let type = rev.hd.m_type in
    if type == open_conn_request_type
    then reacts (record s { auth_pass = false }) (open_conn_reply 1 ∷ [])
    else if type == auth_request_type
    then with_string rev.payload
        (λ auth. reacts (check auth s) (auth_reply (check auth s).auth_pass ∷ []))
    else if type == list_request_type
    then with_string (get_file_list listing s).buff
        (λ list. reacts (get_file_list listing s) (list_reply list ∷ []))
    else if type == quit_request_type
    then reacts (record s { left = true }) (quit_reply ∷ [])
    else if type == get_request_type
    then with_string rev.payload (on_get s)
    else if type == put_request_type
    then with_string rev.payload
        (λ filename. reacts (record s { storing = some filename }) (put_reply ∷ []))
    else reacts s []

-- A datagram that arrives where the loop is: left, waiting for a file, or waiting for a request.
-- A round counts down `waitTimesLim` to `lim` before it reads, and at 0 the loop is left.
unfoldable pub serve_at : Bool → Option (List ℕ) → ℕ → List ℕ → Server → Datagram → Reaction
serve_at true storing lim listing s rev = reacts s []
serve_at false (some filename) lim listing s rev =
    reacts
      (record s {
        storing = none;
        files = download filename rev.payload (payload_length rev.hd) s.files;
      })
      []
serve_at false none lim listing s rev =
    if lim == 0
    then reacts (record s { wait_times_lim = 0; left = true }) []
    else on_request listing (record s { wait_times_lim = lim }) rev

unfoldable pub serve : List ℕ → Server → Datagram → Reaction
serve listing s rev = serve_at s.left s.storing (s.wait_times_lim - 1) listing s rev
