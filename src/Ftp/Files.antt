-- ===== src/Ftp/Files.antt =====
-- lab1-myftp-Heccc257/src/util.cpp: `myFILE`. The file system is not under src/: it is a function
-- from names to contents. `fread` gives what is left of a file up to what is asked for, and
-- `fopen` for writing is taken to succeed.
use networking_labs.Prelude.{
  ℕ, zero, suc, ◌+◌, ◌-◌, ◌^◌, ◌≤◌, ◌<◌, ◌≡◌, ◌≢◌, refl, ap, List, ◌++◌, Option, none, some, true,
  false, if◌then◌else◌, ltb, lt→ltb, length, length-take, take, drop, take_of_length_le, arith,
  Bool-cases, inl, inr,
}
use networking_labs.Ftp.Text.{eq_bytes, eq_bytes_iff}

abbrev pub FileSystem : Type 0
FileSystem = List ℕ → Option (List ℕ)

abbrev pub file_buf_size : ℕ
file_buf_size = 2 ^ 21

-- `while(!feof(fp))`: the buffer and the length. Each round reads to the start of the buffer, and
-- the end of the file is noticed where it gives less than was asked for.
unfoldable pub upload_loop : ℕ → List ℕ → List ℕ → ℕ → Option (List ℕ × ℕ)
upload_loop zero rest file_buf file_length = none
upload_loop (suc fuel) rest file_buf file_length =
    let want = file_buf_size - file_length in
    let got = take want rest in
    let file_buf' = got ++ drop (length got) file_buf in
    elim (ltb (length got) want) [
      | true ↦ some (file_buf', file_length + length got)
      | false ↦ upload_loop fuel (drop want rest) file_buf' (file_length + length got)
    ]

-- What `upload` leaves: no such file; the buffer and the length; or a loop that does not end.
pub data Upload : Type 0 where
  no_file : Upload
  loaded : List ℕ → ℕ → Upload
  endless : Upload

-- The second round asks for nothing, and so do all that follow: two rounds tell.
unfoldable pub upload : FileSystem → List ℕ → List ℕ → Upload
upload files filepath file_buf = elim (files filepath) [
  | none ↦ no_file
  | some content ↦ elim (upload_loop 2 content file_buf 0) [
    | none ↦ endless
    | some (buf, len) ↦ loaded buf len
  ]
]

-- `download`
unfoldable pub download : List ℕ → List ℕ → ℕ → FileSystem → FileSystem
download filepath file len files name =
    if eq_bytes name filepath then some (take len file) else files name

-- A file of less than 2^21 bytes is loaded by the first round.
pub upload_loop_short :
    (fuel : ℕ) (content file_buf : List ℕ)
    → length content < file_buf_size
    → upload_loop (suc fuel) content file_buf 0
      ≡ some (content ++ drop (length content) file_buf, length content)
unfolding upload_loop
upload_loop_short fuel content file_buf h =
    let all : take (file_buf_size - 0) content ≡ content =
      take_of_length_le (file_buf_size - 0) content (omega arith) in
    let ends : ltb (length (take (file_buf_size - 0) content)) (file_buf_size - 0) ≡ true =
      lt→ltb _ _ (omega (arith, ap length all)) in
    let sum : 0 + length content ≡ length content = omega arith in
    rw (ends, upload_loop, all, sum) refl

full_round :
    (fuel : ℕ) (rest file_buf : List ℕ) (file_length : ℕ)
    → file_length ≡ file_buf_size
    → upload_loop fuel rest file_buf file_length ≡ none
unfolding upload_loop
full_round zero rest file_buf file_length h = refl
full_round (suc fuel) rest file_buf file_length h =
    let nothing : ltb (length (take (file_buf_size - file_length) rest))
          (file_buf_size - file_length)
        ≡ false =
      ground arith in
    rw (nothing, upload_loop)
      (full_round fuel _ _ _ (omega (arith, length-take (file_buf_size - file_length) rest)))

-- A file of 2^21 bytes or more fills the buffer, and then the loop has no end.
pub upload_loop_endless :
    (fuel : ℕ) (content file_buf : List ℕ)
    → file_buf_size ≤ length content
    → upload_loop fuel content file_buf 0 ≡ none
unfolding upload_loop
upload_loop_endless zero content file_buf h = refl
upload_loop_endless (suc fuel) content file_buf h =
    let full : ltb (length (take (file_buf_size - 0) content)) (file_buf_size - 0) ≡ false =
      ground (arith, length-take (file_buf_size - 0) content) in
    rw (full, upload_loop)
      (full_round fuel _ _ _ (omega (arith, length-take (file_buf_size - 0) content)))

-- What `upload` has put in the buffer is the file.
pub upload-file :
    (files : FileSystem) (filepath content file_buf : List ℕ)
    → files filepath ≡ some content
    → length content < file_buf_size
    → upload files filepath file_buf
      ≡ loaded (content ++ drop (length content) file_buf) (length content)
unfolding upload
upload-file files filepath content file_buf there short =
    rw (there, upload, upload_loop_short 1 content file_buf short)

pub upload-missing :
    (files : FileSystem) (filepath file_buf : List ℕ)
    → files filepath ≡ none
    → upload files filepath file_buf ≡ no_file
unfolding upload
upload-missing files filepath file_buf missing = rw (missing, upload) refl

pub upload_endless :
    (files : FileSystem) (filepath content file_buf : List ℕ)
    → files filepath ≡ some content
    → file_buf_size ≤ length content
    → upload files filepath file_buf ≡ endless
unfolding upload
upload_endless files filepath content file_buf there long =
    rw (there, upload, upload_loop_endless 2 content file_buf long) refl

pub download-name :
    (filepath file name : List ℕ) (len : ℕ) (files : FileSystem)
    → download filepath file len files filepath ≡ some (take len file)
unfolding download
download-name filepath file name len files =
    let same : eq_bytes filepath filepath ≡ true = (eq_bytes_iff filepath filepath).1 refl in
    rw same refl

pub download_other :
    (filepath file name : List ℕ) (len : ℕ) (files : FileSystem)
    → name ≢ filepath
    → download filepath file len files name ≡ files name
unfolding download
download_other filepath file name len files other = elim (Bool-cases (eq_bytes name filepath)) [
  | inl same ↦ absurd (other ((eq_bytes_iff name filepath).0 same))
  | inr differ ↦ rw differ refl
]
