-- ===== src/Ftp/Session/Serving.antt =====
-- ftp_server.cpp: the server's answers to the requests that the client makes.
use networking_labs.Prelude.{
  ℕ, suc, ◌-◌, ◌≤◌, ◌<◌, ◌≡◌, refl, ap, ◌∙◌, List, [], ◌∷◌, ◌++◌, none, some, true, false, ◌==◌,
  length, drop, arith, take-append_length, length-append,
}
use networking_labs.Ftp.{Datagram, payload_length, text_datagram, bytes_datagram, empty_datagram}
use networking_labs.Ftp.Stream.{payload_length_lem, bytes_datagram-IsDatagram}
use networking_labs.Ftp.Text.{IsText, c_string-text}
use networking_labs.Ftp.Files.{
  Upload, no_file, loaded, endless, upload, download, file_buf_size, upload-file, upload-missing,
  upload_endless,
}
use networking_labs.Ftp.Kinds.{
  get_request, get_reply, put_request, put_reply, file_data, auth_request, auth_reply,
  open_conn_request, open_conn_reply,
}
use networking_labs.Ftp.Server.{
  Server, Reaction, reacts, hangs, serve, serve_at, on_request, with_string, on_get, check,
}
use networking_labs.Ftp.Session.{IsIdle}

-- A server that has taken one more request is still idle.
pub IsIdle-next :
    (n : ℕ) (s : Server) {t : Server}
    → IsIdle (suc n) s
    → t.storing ≡ none
    → t.left ≡ false
    → t.wait_times_lim ≡ s.wait_times_lim - 1
    → IsIdle n t
IsIdle-next n s idle nothing here lim = record {
  nothing_stored = nothing;
  still_there = here;
  rounds_left = omega (arith, lim, idle.rounds_left);
}

-- The buffer after a file has been loaded into it.
abbrev pub buffered : List ℕ → List ℕ → List ℕ
buffered content file_buf = content ++ drop (length content) file_buf

-- A datagram with a file carries the file.
pub file_data-payload :
    (content file_buf : List ℕ)
    → length content < file_buf_size
    → ((file_data (length content) (buffered content file_buf)).payload ≡ content)
      × (payload_length (file_data (length content) (buffered content file_buf)).hd
          ≡ length content)
unfolding bytes_datagram
file_data-payload content file_buf short =
    let len = length content in
    let same = take-append_length len content (drop len file_buf) refl in
    let whole =
      bytes_datagram-IsDatagram 0xff 0 len (buffered content file_buf) (omega arith) (omega arith)
        (omega (arith, length-append content (drop len file_buf))) (omega arith) in
    (same, payload_length_lem (file_data len (buffered content file_buf)) whole ∙ ap length same)

with_string-text :
    (t : List ℕ) (use_it : List ℕ → Reaction)
    → IsText t
    → with_string (t ++ 0 ∷ []) use_it ≡ use_it t
unfolding with_string
with_string-text t use_it text = rw (c_string-text t text, with_string) refl

module _ (listing : List ℕ) (s : Server) (n : ℕ) (idle : IsIdle n s) where
  lim_left : (s.wait_times_lim - 1 == 0) ≡ false
  lim_left = ground (arith, idle.rounds_left)

  counted : Server
  counted = record s { wait_times_lim = s.wait_times_lim - 1 }

  -- A request comes to the tests on its type.
  serve-request : (d : Datagram) → serve listing s d ≡ on_request listing counted d
  unfolding serve serve_at counted
  serve-request d =
      ap (λ b. serve_at b s.storing (s.wait_times_lim - 1) listing s d) idle.still_there
      ∙ ap (λ o. serve_at false o (s.wait_times_lim - 1) listing s d) idle.nothing_stored
      ∙ rw lim_left refl

  -- What `upload` says decides.
  serve-upload :
      (name : List ℕ) (outcome : Upload)
      → IsText name
      → upload s.files name s.file_buf ≡ outcome
      → serve listing s (get_request name) ≡ elim outcome [
        | no_file ↦ reacts counted (get_reply false ∷ [])
        | loaded buf len ↦
            reacts (record counted { file_buf = buf }) (get_reply true ∷ file_data len buf ∷ [])
        | endless ↦ hangs
      ]
  unfolding on_request on_get text_datagram counted
  serve-upload name outcome text h =
      serve-request (get_request name)
      ∙ with_string-text name (on_get counted) text
      ∙ rw (h, on_get) refl

  -- A file that is there and fits the buffer is announced and sent.
  pub serve-get_request :
      (name content : List ℕ)
      → IsText name
      → s.files name ≡ some content
      → length content < file_buf_size
      → serve listing s (get_request name)
        ≡ reacts
            (record s {
              wait_times_lim = s.wait_times_lim - 1;
              file_buf = buffered content s.file_buf;
            })
            (get_reply true ∷ file_data (length content) (buffered content s.file_buf) ∷ [])
  unfolding counted
  serve-get_request name content text there short =
      serve-upload name _ text (upload-file s.files name content s.file_buf there short)

  pub serve_missing :
      (name : List ℕ)
      → IsText name
      → s.files name ≡ none
      → serve listing s (get_request name)
        ≡ reacts (record s { wait_times_lim = s.wait_times_lim - 1 }) (get_reply false ∷ [])
  unfolding counted
  serve_missing name text missing =
      serve-upload name no_file text (upload-missing s.files name s.file_buf missing)

  pub serve_endless :
      (name content : List ℕ)
      → IsText name
      → s.files name ≡ some content
      → file_buf_size ≤ length content
      → serve listing s (get_request name) ≡ hangs
  serve_endless name content text there long =
      serve-upload name endless text (upload_endless s.files name content s.file_buf there long)

  -- The name of a file to come is kept.
  pub serve-put_request :
      (name : List ℕ)
      → IsText name
      → serve listing s (put_request name)
        ≡ reacts
            (record s { wait_times_lim = s.wait_times_lim - 1; storing = some name })
            (put_reply ∷ [])
  unfolding on_request text_datagram counted
  serve-put_request name text = serve-request (put_request name) ∙ with_string-text name _ text

  pub serve-auth_request :
      (auth : List ℕ)
      → IsText auth
      → serve listing s (auth_request auth)
        ≡ reacts (check auth (record s { wait_times_lim = s.wait_times_lim - 1 })) (
            auth_reply (check auth (record s { wait_times_lim = s.wait_times_lim - 1 })).auth_pass
            ∷ [])
  unfolding on_request text_datagram counted
  serve-auth_request auth text = serve-request (auth_request auth) ∙ with_string-text auth _ text

  pub serve-open_conn_request :
      serve listing s open_conn_request
      ≡ reacts
          (record s { wait_times_lim = s.wait_times_lim - 1; auth_pass = false })
          (open_conn_reply 1 ∷ [])
  unfolding on_request empty_datagram counted
  serve-open_conn_request = serve-request open_conn_request

-- The file that comes next is stored under the name.
pub serve-file_data :
    (listing : List ℕ) (s : Server) (name content file_buf : List ℕ)
    → s.left ≡ false
    → s.storing ≡ some name
    → length content < file_buf_size
    → serve listing s (file_data (length content) (buffered content file_buf))
      ≡ reacts
          (record s { storing = none; files = download name content (length content) s.files })
          []
unfolding serve serve_at
serve-file_data listing s name content file_buf here waiting short =
    let d = file_data (length content) (buffered content file_buf) in
    let (payload, len) = file_data-payload content file_buf short in
    ap (λ b. serve_at b s.storing (s.wait_times_lim - 1) listing s d) here
    ∙ ap (λ o. serve_at false o (s.wait_times_lim - 1) listing s d) waiting
    ∙ ap
        (λ x.
          reacts
            (record s { storing = none; files = download name x (payload_length d.hd) s.files }) [])
        payload
    ∙ ap
        (λ (x : ℕ).
          reacts (record s { storing = none; files = download name content x s.files }) [])
        len
