-- ===== src/Ftp/Session/Transfer.antt =====
-- `get` and `put` of ftp_client.cpp against ftp_server.cpp: which file ends up where.
use networking_labs.Prelude.{
  ℕ, suc, ◌-◌, ◌≤◌, ◌<◌, ◌≡◌, ◌≢◌, ◌==◌, refl, sym, ap, ◌∙◌, List, [], ◌∷◌, none, some, Bool, true,
  if◌then◌else◌, length, arith, take_of_length_le, Bool-cases, inl, inr,
}
use networking_labs.Ftp.{payload_length, empty_datagram}
use networking_labs.Ftp.Text.{IsText, c_str-text, eq_bytes, eq_bytes_iff}
use networking_labs.Ftp.Files.{
  FileSystem, file_buf_size, upload-file, download, download-name, download_other,
}
use networking_labs.Ftp.Kinds.{get_request, put_request, file_data}
use networking_labs.Ftp.Server.{Server}
use networking_labs.Ftp.Client.{
  Client, Talk, goes_on, writes, reads, client_round, run_cmd, check_cmd, check_auth, with_word,
  on_get, on_put, word_get, word_put,
}
use networking_labs.Ftp.Session.{met, stuck, converse, IsIdle, IsLoggedIn}
use networking_labs.Ftp.Session.Serving.{
  IsIdle-next, buffered, file_data-payload, serve-get_request, serve_missing, serve_endless,
  serve-put_request, serve-file_data,
}

-- A copy of `content` under `name` has been made, and nothing else has changed.
pub record IsCopy (name content : List ℕ) (before after : FileSystem) : Type 0 where
  pub there : after name ≡ some content
  pub untouched : (other : List ℕ) → other ≢ name → after other ≡ before other

download-IsCopy :
    (name content : List ℕ) (files : FileSystem)
    → IsCopy name content files (download name content (length content) files)
download-IsCopy name content files = record {
  there =
      download-name name content name (length content) files
      ∙ ap some (take_of_length_le (length content) content (omega arith));
  untouched = λ other differs. download_other name content other (length content) files differs;
}

check_auth_lem : (c : Client) → IsLoggedIn c → check_auth c ≡ true
unfolding check_auth
check_auth_lem c v = rw (v.connected, v.authenticated) refl

module _ (listing name content : List ℕ) (args : List (List ℕ)) (connected : Bool) (c : Client)
    (s : Server) (n : ℕ) (v : IsLoggedIn c) (idle : IsIdle (suc n) s) (text : IsText name) where
  get_talk : Talk
  get_talk = writes (get_request name) (
      reads λ reply.
        if reply.hd.m_status == 0
        then goes_on c
        else reads λ file.
          goes_on
            (record c { files = download name file.payload (payload_length file.hd) c.files }))

  client_round-get : client_round connected c (word_get ∷ name ∷ args) ≡ get_talk
  unfolding client_round run_cmd check_cmd on_get with_word eq_bytes get_talk
  client_round-get = rw (check_auth_lem c v, c_str-text name text) refl

  -- `get` of a file that the server has leaves a copy of it with the client under that name,
  -- changes no other file of the client and none of the server, and both ends go on; for a client
  -- that is logged in, a server that waits for requests, a name without a 0 and a file of less
  -- than 2^21 bytes.
  pub get_delivers :
      s.files name ≡ some content
      → length content < file_buf_size
      → (c' : Client) × (s' : Server) × (converse listing
            (client_round connected c (word_get ∷ name ∷ args))
            s
            []
          ≡ met c' s' [] true)
        × IsCopy name content c.files c'.files
        × (s'.files ≡ s.files)
        × IsLoggedIn c'
        × IsIdle n s'
  unfolding converse get_talk empty_datagram
  get_delivers there short =
      let file = file_data (length content) (buffered content s.file_buf) in
      let (payload, len) = file_data-payload content s.file_buf short in
      let served = serve-get_request listing s (suc n) idle name content text there short in
      (
        record c { files = download name content (length content) c.files },
        record s { wait_times_lim = s.wait_times_lim - 1; file_buf = buffered content s.file_buf },
        rw (client_round-get, converse, served, payload, len) refl,
        download-IsCopy name content c.files,
        refl,
        record { connected = v.connected; authenticated = v.authenticated },
        IsIdle-next n s idle idle.nothing_stored idle.still_there refl,
      )

  -- `get` of a file that the server does not have leaves both ends exactly as they were, but for
  -- the countdown, and they go on; `get` of a file of 2^21 bytes or more never ends; for a client
  -- that is logged in, a server that waits for requests and a name without a 0.
  pub get_fails :
      (s.files name ≡ none
        → (s' : Server) × (converse listing (client_round connected c (word_get ∷ name ∷ args)) s []
            ≡ met c s' [] true)
          × (s' ≡ record s { wait_times_lim = s.wait_times_lim - 1 })
          × IsIdle n s')
      × (s.files name ≡ some content
          → file_buf_size ≤ length content
          → converse listing (client_round connected c (word_get ∷ name ∷ args)) s [] ≡ stuck)
  unfolding converse get_talk empty_datagram
  get_fails = (
    λ missing. (
      record s { wait_times_lim = s.wait_times_lim - 1 },
      rw (client_round-get, converse, serve_missing listing s (suc n) idle name text missing) refl,
      refl,
      IsIdle-next n s idle idle.nothing_stored idle.still_there refl,
    ),
    λ there long.
        rw
          (
            client_round-get,
            converse,
            serve_endless listing s (suc n) idle name content text there long,
          )
          refl,
  )

  -- The client after it has put a file.
  put_client : Client
  put_client = record c { file_buf = buffered content c.file_buf }

  put_talk : Talk
  put_talk = writes (put_request name) (
      reads (λ reply.
        writes (file_data (length content) (buffered content c.file_buf)) (goes_on put_client)))

  client_round-put :
      c.files name ≡ some content
      → length content < file_buf_size
      → client_round connected c (word_put ∷ name ∷ args) ≡ put_talk
  unfolding client_round run_cmd check_cmd on_put with_word eq_bytes put_talk put_client
  client_round-put there short =
      rw
        (
          check_auth_lem c v,
          with_word,
          c_str-text name text,
          upload-file c.files name content c.file_buf there short,
          c_str-text name text,
        )
        refl

  -- The server while it waits for the file.
  waiting_server : Server
  waiting_server = record s { wait_times_lim = s.wait_times_lim - 1; storing = some name }

  -- `put` of a file that the client has leaves a copy of it with the server under that name,
  -- changes no other file of the server and none of the client, and both ends go on; for a client
  -- that is logged in, a server that waits for requests, a name without a 0 and a file of less
  -- than 2^21 bytes.
  pub put_delivers :
      c.files name ≡ some content
      → length content < file_buf_size
      → (c' : Client) × (s' : Server) × (converse listing
            (client_round connected c (word_put ∷ name ∷ args))
            s
            []
          ≡ met c' s' [] true)
        × IsCopy name content s.files s'.files
        × (c'.files ≡ c.files)
        × IsLoggedIn c'
        × IsIdle n s'
  unfolding converse put_talk put_client waiting_server
  put_delivers there short =
      let asked = serve-put_request listing s (suc n) idle name text in
      let stored =
        serve-file_data listing waiting_server name content c.file_buf idle.still_there refl
          short in
      (
        put_client,
        record waiting_server {
          storing = none;
          files = download name content (length content) s.files;
        },
        rw (client_round-put there short, converse, asked, stored) refl,
        download-IsCopy name content s.files,
        refl,
        record { connected = v.connected; authenticated = v.authenticated },
        IsIdle-next n s idle refl idle.still_there refl,
      )

-- A client that is logged in puts a file on a server that waits for requests and gets it back:
-- both commands end, and every file of the client is what it was; for a name without a 0 and a
-- file of less than 2^21 bytes.
put_then_get :
    (listing name content : List ℕ) (c : Client) (s : Server)
    → IsLoggedIn c
    → IsIdle 2 s
    → IsText name
    → c.files name ≡ some content
    → length content < file_buf_size
    → (c1 : Client) × (s1 : Server) × (c2 : Client) × (s2 : Server) × (converse listing
          (client_round true c (word_put ∷ name ∷ []))
          s
          []
        ≡ met c1 s1 [] true)
      × (converse listing (client_round true c1 (word_get ∷ name ∷ [])) s1 [] ≡ met c2 s2 [] true)
      × ((other : List ℕ) → c2.files other ≡ c.files other)
put_then_get listing name content c s v idle text there short =
    let (c1, s1, put, copied, kept, v1, idle1) =
      put_delivers listing name content [] true c s 1 v idle text there short in
    let (c2, s2, got, back, kept', v2, idle2) =
      get_delivers listing name content [] true c1 s1 0 v1 idle1 text copied.there short in
    let same = λ (other : List ℕ) (h : other ≡ name).
      ap c2.files h ∙ back.there ∙ sym there ∙ ap c.files (sym h) in
    (
      c1,
      s1,
      c2,
      s2,
      put,
      got,
      λ other. elim (Bool-cases (eq_bytes other name)) [
        | inl h ↦ same other ((eq_bytes_iff other name).0 h)
        | inr h ↦
            back.untouched other (λ e. ground (arith, h, (eq_bytes_iff other name).1 e))
            ∙ ap (λ files. files other) kept
      ],
    )
