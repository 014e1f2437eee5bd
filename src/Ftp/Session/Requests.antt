-- ===== src/Ftp/Session/Requests.antt =====
-- ftp_client.cpp: what the client writes is what `readDgram` can read.
use networking_labs.Prelude.{
  ℕ, ◌+◌, ◌^◌, ◌≤◌, ◌<◌, ◌≡◌, refl, List, [], ◌∷◌, ◌++◌, Option, none, some, Bool, true, false, not,
  ◌==◌, ◌&&◌, if◌then◌else◌, length, length-append, get_elem?, All, All-get, arith,
}
use networking_labs.Ftp.{Datagram, text_datagram, payload_length}
use networking_labs.Ftp.Stream.{IsDatagram, text_datagram-IsDatagram, bytes_datagram-IsDatagram}
use networking_labs.Ftp.Text.{c_str, c_string}
use networking_labs.Ftp.Files.{Upload, no_file, loaded, endless, upload, download}
use networking_labs.Ftp.Kinds.{open_conn_request, put_request, file_data, auth_reply_type}
use networking_labs.Ftp.Client.{
  Client, Talk, goes_on, leaves, writes, reads, CmdType, cmd_unknown, cmd_open, cmd_auth, cmd_ls,
  cmd_get, cmd_put, cmd_quit, check_cmd, client_round, run_cmd, check_auth, with_word, on_open,
  on_auth, on_ls, on_get, on_put, on_quit, auth_sucess, auth_fail,
}
use networking_labs.Ftp.Session.Wire.{IsLoaded, upload-IsLoaded, empty-IsDatagram}

-- Every datagram written is sound, whatever is read.
unfoldable pub IsSendable : Talk → Type 0
IsSendable (goes_on c) = Unit {0}
IsSendable (leaves c) = Unit {0}
IsSendable (writes d talk) = IsDatagram d × IsSendable talk
IsSendable (reads talk) = (d : Datagram) → IsSendable (talk d)
IsSendable Talk.overread = Unit {0}
IsSendable Talk.hangs = Unit {0}

-- No word that is typed is longer than 2^20 bytes.
abbrev pub IsTyped : List (List ℕ) → Type 0
IsTyped cmd = All (λ (word : List ℕ). length word ≤ 2 ^ 20) cmd

length-c_str : (text : List ℕ) → length (c_str text) ≤ length text
unfolding c_str
length-c_str [] = omega arith
length-c_str (b ∷ bs) = ground (arith, length-c_str bs)

test : (b : Bool) (x y : Talk) → IsSendable x → IsSendable y → IsSendable (if b then x else y)
test true x y hx hy = hx
test false x y hx hy = hy

with_word-IsSendable :
    (cmd : List (List ℕ)) (i : ℕ) (use_it : List ℕ → Talk)
    → IsTyped cmd
    → ((word : List ℕ) → length word ≤ 2 ^ 20 → IsSendable (use_it word))
    → IsSendable (with_word cmd i use_it)
unfolding with_word IsSendable
with_word-IsSendable cmd i use_it typed h = given (get_elem? cmd i) refl
  where
    given :
        (o : Option (List ℕ))
        → get_elem? cmd i ≡ o
        → IsSendable (elim o [ none ↦ Talk.overread | some word ↦ use_it word ])
    given none e = tt
    given (some word) e = h word (All-get (λ (w : List ℕ). length w ≤ 2 ^ 20) cmd i typed e)

-- A request with a word in it.
request-IsDatagram :
    (type : ℕ) (text : List ℕ)
    → type < 256
    → length text ≤ 2 ^ 21 + 1
    → IsDatagram (text_datagram type 0 (c_str text))
request-IsDatagram type text t h =
    text_datagram-IsDatagram type 0 (c_str text) t (omega arith) (omega (arith, length-c_str text))

on_open-IsSendable :
    (connected : Bool) (c : Client) (cmd : List (List ℕ))
    → IsTyped cmd
    → IsSendable (on_open connected c cmd)
unfolding on_open IsSendable
on_open-IsSendable connected c cmd typed =
    test c.serv_socket _ _ (sound, λ d. tt)
      (with_word-IsSendable cmd 1 _ typed (λ ip h.
        with_word-IsSendable cmd 2 _ typed (λ port k. test connected _ _ (sound, λ d. tt) tt)))
  where
    sound : IsDatagram open_conn_request
    sound = empty-IsDatagram 0xa1 0 (omega arith) (omega arith)

on_auth-IsSendable : (c : Client) (cmd : List (List ℕ)) → IsTyped cmd → IsSendable (on_auth c cmd)
unfolding on_auth IsSendable
on_auth-IsSendable c cmd typed = test (not c.clnt_conn) _ _ tt (
    test c.clnt_auth _ _ tt (
      with_word-IsSendable cmd 1 _ typed (λ user h. with_word-IsSendable cmd 2 _ typed (λ word k. (
        request-IsDatagram 0xa3 (user ++ 32 ∷ word) (omega arith)
            (omega (arith, length-append user (32 ∷ word))),
        λ d.
            test (d.hd.m_type == auth_reply_type && d.hd.m_status == 1) (goes_on (auth_sucess c))
              (leaves (auth_fail c)) tt tt,
      )))))

on_ls-IsSendable : (c : Client) → IsSendable (on_ls c)
unfolding on_ls IsSendable
on_ls-IsSendable c =
    test (check_auth c) _ _
      (empty-IsDatagram 0xa5 0 (omega arith) (omega arith), λ d. shown d (c_string d.payload)) tt
  where
    shown :
        (d : Datagram) (o : Option (List ℕ))
        → IsSendable (elim o [
          | none ↦ Talk.overread
          | some filenames ↦ goes_on (record c { printed = filenames })
        ])
    shown d none = tt
    shown d (some filenames) = tt

-- The file that comes after the reply to a GET.
abbrev stores : Client → List ℕ → Datagram → Talk
stores c name file =
    goes_on
      (record c { files = download (c_str name) file.payload (payload_length file.hd) c.files })

on_get-IsSendable : (c : Client) (cmd : List (List ℕ)) → IsTyped cmd → IsSendable (on_get c cmd)
unfolding on_get IsSendable
on_get-IsSendable c cmd typed =
    test (check_auth c) _ _
      (with_word-IsSendable cmd 1 _ typed (λ name h. (
        request-IsDatagram 0xa7 name (omega arith) (omega arith),
        λ d. test (d.hd.m_status == 0) (goes_on c) (reads (stores c name)) tt (λ file. tt),
      )))
      tt

on_put-IsSendable : (c : Client) (cmd : List (List ℕ)) → IsTyped cmd → IsSendable (on_put c cmd)
unfolding on_put IsSendable IsLoaded
on_put-IsSendable c cmd typed =
    test (check_auth c) _ _
      (with_word-IsSendable cmd 1 _ typed (λ name h.
        by_cases name h (upload c.files (c_str name) c.file_buf)
          (upload-IsLoaded c.files (c_str name) c.file_buf (c.files (c_str name)) refl)))
      tt
  where
    by_cases :
        (name : List ℕ)
        → length name ≤ 2 ^ 20
        → (u : Upload) → IsLoaded (c.files (c_str name)) u
        → IsSendable (elim u [
          | no_file ↦ goes_on c
          | endless ↦ Talk.hangs
          | loaded buf len ↦
              writes (put_request (c_str name)) (
                reads (λ reply. writes (file_data len buf) (goes_on (record c { file_buf = buf }))))
        ])
    by_cases name h no_file v = tt
    by_cases name h endless v = tt
    by_cases name h (loaded buf len) v = (
      request-IsDatagram 0xa9 name (omega arith) (omega arith),
      λ reply. (
        bytes_datagram-IsDatagram 0xff 0 len buf (omega arith) (omega arith) v.1
            (omega (arith, v.0)),
        tt,
      ),
    )

run_cmd-IsSendable :
    (type : CmdType) (connected : Bool) (c : Client) (cmd : List (List ℕ))
    → IsTyped cmd
    → IsSendable (run_cmd type connected c cmd)
unfolding run_cmd on_quit IsSendable
run_cmd-IsSendable cmd_unknown connected c cmd typed = tt
run_cmd-IsSendable cmd_open connected c cmd typed = on_open-IsSendable connected c cmd typed
run_cmd-IsSendable cmd_auth connected c cmd typed = on_auth-IsSendable c cmd typed
run_cmd-IsSendable cmd_ls connected c cmd typed = on_ls-IsSendable c
run_cmd-IsSendable cmd_get connected c cmd typed = on_get-IsSendable c cmd typed
run_cmd-IsSendable cmd_put connected c cmd typed = on_put-IsSendable c cmd typed
run_cmd-IsSendable cmd_quit connected c cmd typed =
    (empty-IsDatagram 0xab 0 (omega arith) (omega arith), λ d. tt)

-- Whatever is typed, every datagram that a round of the client writes is sound, if no word is
-- longer than 2^20 bytes.
pub client_round-IsSendable :
    (connected : Bool) (c : Client) (cmd : List (List ℕ))
    → IsTyped cmd
    → IsSendable (client_round connected c cmd)
unfolding client_round
client_round-IsSendable connected c cmd typed =
    run_cmd-IsSendable (check_cmd cmd) connected c cmd typed
