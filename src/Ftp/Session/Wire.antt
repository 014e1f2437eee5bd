-- ===== src/Ftp/Session/Wire.antt =====
-- ftp_server.cpp: what the server writes is what `readDgram` can read.
use networking_labs.Prelude.{
  ℕ, suc, ◌-◌, ◌≤◌, ◌<◌, ◌≡◌, refl, List, [], ◌∷◌, Option, none, some, ◌>>=◌, Bool, true, false,
  ltb, if◌then◌else◌, ◌==◌, length, take, drop, All, arith, Bool-cases, ◌⊎◌, inl, inr,
  length-append, length-take, length-drop,
}
use networking_labs.Ftp.{Datagram, empty_datagram}
use networking_labs.Ftp.Stream.{IsDatagram, text_datagram-IsDatagram, bytes_datagram-IsDatagram}
use networking_labs.Ftp.Text.{c_string}
use networking_labs.Ftp.Files.{
  FileSystem, Upload, no_file, loaded, endless, file_buf_size, upload, upload-file, upload-missing,
  upload_endless,
}
use networking_labs.Ftp.Kinds.{
  open_conn_request_type, auth_request_type, list_request_type, quit_request_type, get_request_type,
  put_request_type, get_reply, file_data, status_byte,
}
use networking_labs.Ftp.Server.{
  Server, Reaction, reacts, overread, hangs, check, get_file_list, with_string, on_get, on_request,
  serve_at, serve,
}

-- What is loaded fits the buffer of a datagram; only a longer file is loaded without an end.
unfoldable pub IsLoaded : Option (List ℕ) → Upload → Type 0
IsLoaded file no_file = Unit {0}
IsLoaded file (loaded buf len) = (len < file_buf_size) × (len ≤ length buf)
IsLoaded file endless =
    (content : List ℕ) × (file ≡ some content) × (file_buf_size ≤ length content)

pub upload-IsLoaded :
    (files : FileSystem) (filepath file_buf : List ℕ) (o : Option (List ℕ))
    → files filepath ≡ o
    → IsLoaded o (upload files filepath file_buf)
unfolding IsLoaded
upload-IsLoaded files filepath file_buf none e = rw (upload-missing files filepath file_buf e) tt
upload-IsLoaded files filepath file_buf (some content) e =
    elim (Bool-cases (ltb (length content) file_buf_size)) [
      | inl short ↦
          let fits : length content < file_buf_size = ground (arith, short) in
          rw (upload-file files filepath content file_buf e fits)
            (fits, omega (arith, length-append content (drop (length content) file_buf)))
      | inr long ↦
          let beyond : file_buf_size ≤ length content = ground (arith, long) in
          rw (upload_endless files filepath content file_buf e beyond) (content, refl, beyond)
    ]

-- Every datagram written is sound, and the array of the listing has kept its bounds. A string is read
-- beyond its array only where that holds no 0, and only a file of 2^21 bytes or more is loaded without
-- an end.
unfoldable pub IsWritten : List ℕ → Server → Datagram → Reaction → Type 0
IsWritten listing s rev overread =
    (c_string rev.payload ≡ none) ⊎ (c_string (get_file_list listing s).buff ≡ none)
IsWritten listing s rev hangs =
    (name : List ℕ) × (content : List ℕ) × (s.files name ≡ some content)
    × (file_buf_size ≤ length content)
IsWritten listing s rev (reacts t out) = All IsDatagram out × (length t.buff ≤ 4096)

pub empty-IsDatagram :
    (type status : ℕ) → type < 256 → status < 256 → IsDatagram (empty_datagram type status)
unfolding empty_datagram
empty-IsDatagram type status ht hs = record {
  type_fits = ht;
  status_fits = hs;
  sized = refl;
  small = omega arith;
}

status_byte-lt : (b : Bool) → status_byte b < 256
status_byte-lt true = omega arith
status_byte-lt false = omega arith

-- A string of at most n bytes, or none.
unfoldable pub IsWithin : ℕ → Option (List ℕ) → Type 0
IsWithin n none = Unit {0}
IsWithin n (some text) = length text ≤ n

c_string-IsWithin : (bytes : List ℕ) → IsWithin (length bytes) (c_string bytes)
unfolding c_string IsWithin
c_string-IsWithin [] = tt
c_string-IsWithin (b ∷ bs) = longer (b == 0) (c_string bs) (c_string-IsWithin bs)
  where
    longer :
        (ends : Bool) (rest : Option (List ℕ))
        → IsWithin (length bs) rest
        → IsWithin (suc (length bs)) (if ends then some [] else (rest >>= λ s. some (b ∷ s)))
    longer true rest h = omega arith
    longer false none h = tt
    longer false (some text) h = omega (arith, h)

module _ (listing : List ℕ) (s : Server) (rev : Datagram) where
  with_string-IsWritten :
      (array : List ℕ) (use_it : List ℕ → Reaction)
      → (c_string array ≡ none → IsWritten listing s rev overread)
      → ((text : List ℕ) → length text ≤ length array → IsWritten listing s rev (use_it text))
      → IsWritten listing s rev (with_string array use_it)
  unfolding with_string IsWithin
  with_string-IsWritten array use_it no_end h =
      by_cases (c_string array) refl (c_string-IsWithin array)
    where
      by_cases :
          (o : Option (List ℕ))
          → c_string array ≡ o
          → IsWithin (length array) o
          → IsWritten listing s rev (elim o [ none ↦ overread | some text ↦ use_it text ])
      by_cases none missing e = no_end missing
      by_cases (some text) found e = h text e

  branch :
      (test : Bool) (x y : Reaction)
      → IsWritten listing s rev x
      → IsWritten listing s rev y
      → IsWritten listing s rev (if test then x else y)
  branch true x y hx hy = hx
  branch false x y hx hy = hy

on_get-IsWritten :
    (listing : List ℕ) (s : Server) (rev : Datagram) (filename : List ℕ)
    → length s.buff ≤ 4096
    → IsWritten listing s rev (on_get s filename)
unfolding on_get IsWritten IsLoaded
on_get-IsWritten listing s rev filename h =
    by_cases (upload s.files filename s.file_buf)
      (upload-IsLoaded s.files filename s.file_buf (s.files filename) refl)
  where
    by_cases :
        (u : Upload)
        → IsLoaded (s.files filename) u
        → IsWritten listing s rev (elim u [
          | no_file ↦ reacts s (get_reply false ∷ [])
          | loaded buf len ↦
              reacts (record s { file_buf = buf }) (get_reply true ∷ file_data len buf ∷ [])
          | endless ↦ hangs
        ])
    by_cases no_file v = ((empty-IsDatagram _ 0 (omega arith) (omega arith), tt), h)
    by_cases endless (content, there, beyond) = (filename, content, there, beyond)
    by_cases (loaded buf len) v = (
      (
        empty-IsDatagram _ 1 (omega arith) (omega arith),
        (
          bytes_datagram-IsDatagram 0xff 0 len buf (omega arith) (omega arith) v.1
              (omega (arith, v.0)),
          tt,
        ),
      ),
      h,
    )

length-get_file_list :
    (listing : List ℕ) (s : Server)
    → length s.buff ≤ 4096
    → length (get_file_list listing s).buff ≤ 4096
unfolding get_file_list
length-get_file_list listing s h =
    let got = take 2048 listing in
    omega (
      arith,
      length-append got (drop (length got) s.buff),
      length-drop (length got) s.buff,
      length-take 2048 listing,
    )

on_request-IsWritten :
    (listing : List ℕ) (s : Server) (rev : Datagram)
    → length s.buff ≤ 4096
    → IsWritten listing s rev (on_request listing s rev)
unfolding on_request IsWritten check
on_request-IsWritten listing s rev h =
    branch listing s rev (rev.hd.m_type == open_conn_request_type) _ _
      ((empty-IsDatagram _ 1 (omega arith) (omega arith), tt), h)
      (branch listing s rev (rev.hd.m_type == auth_request_type) _ _
        (with_string-IsWritten listing s rev rev.payload _ (λ e. inl e)
          (λ auth le. ((empty-IsDatagram _ _ (omega arith) (status_byte-lt _), tt), h)))
        (branch listing s rev (rev.hd.m_type == list_request_type) _ _
          (with_string-IsWritten listing s rev _ _ (λ e. inr e)
            (λ list le. (
              (
                text_datagram-IsDatagram _ 0 list (omega arith) (omega arith)
                    (omega (arith, le, length-get_file_list listing s h)),
                tt,
              ),
              length-get_file_list listing s h,
            )))
          (branch listing s rev (rev.hd.m_type == quit_request_type) _ _
            ((empty-IsDatagram _ 0 (omega arith) (omega arith), tt), h)
            (branch listing s rev (rev.hd.m_type == get_request_type) _ _
              (with_string-IsWritten listing s rev rev.payload _ (λ e. inl e)
                (λ name le. on_get-IsWritten listing s rev name h))
              (branch listing s rev (rev.hd.m_type == put_request_type) _ _
                (with_string-IsWritten listing s rev rev.payload _ (λ e. inl e)
                  (λ name le. ((empty-IsDatagram _ 0 (omega arith) (omega arith), tt), h)))
                (tt, h))))))

-- Whatever datagram arrives, if the array of the listing has at most 4096 bytes: every datagram
-- that the server writes has a type and a status of one byte, the length of its payload in its
-- header and no more bytes than the buffer of writeDgram, and the array stays within its 4096
-- bytes, unless the server reads beyond an array, which it does only where the payload or the
-- array of the listing holds no 0, or does not come back, which it does only where it has a file
-- of 2^21 bytes or more.
pub serve-IsWritten :
    (listing : List ℕ) (s : Server) (rev : Datagram)
    → length s.buff ≤ 4096
    → IsWritten listing s rev (serve listing s rev)
unfolding serve serve_at IsWritten get_file_list
serve-IsWritten listing s rev h = at s.left s.storing (s.wait_times_lim - 1)
  where
    at :
        (left : Bool) (storing : Option (List ℕ)) (lim : ℕ)
        → IsWritten listing s rev (serve_at left storing lim listing s rev)
    at true storing lim = (tt, h)
    at false (some filename) lim = (tt, h)
    at false none lim =
        branch listing s rev (lim == 0) _ _ (tt, h)
          (on_request-IsWritten listing (record s { wait_times_lim = lim }) rev h)
