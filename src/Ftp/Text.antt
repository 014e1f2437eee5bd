-- ===== src/Ftp/Text.antt =====
-- What lab 1 uses of C strings and of `istringstream`, on lists of bytes.
pub mod Words
use networking_labs.Prelude.Bytes.{is_space, skip_spaces, take_word}
use networking_labs.Prelude.{
  ℕ, ◌≡◌, ◌≢◌, ◌↔◌, refl, ap, List, [], ◌∷◌, ◌++◌, Option, none, some, ◌>>=◌, Bool, true, false,
  not, ◌&&◌, ◌||◌, leb, ◌==◌, if◌then◌else◌, All, All-map, arith,
}

-- `const char*`: the bytes before the first 0, if there is one.
unfoldable pub c_string : List ℕ → Option (List ℕ)
c_string [] = none
c_string (b ∷ bs) = if b == 0 then some [] else (c_string bs >>= λ s. some (b ∷ s))

-- `s.c_str()`, as its reader sees it: the bytes before the first 0 of the string.
unfoldable pub c_str : List ℕ → List ℕ
c_str [] = []
c_str (b ∷ bs) = if b == 0 then [] else b ∷ c_str bs

-- `!strcmp`
unfoldable pub eq_bytes : List ℕ → List ℕ → Bool
eq_bytes [] [] = true
eq_bytes (x ∷ xs) (y ∷ ys) = x == y && eq_bytes xs ys
eq_bytes [] (y ∷ ys) = false
eq_bytes (x ∷ xs) [] = false

-- `>> s`: a string keeps what it held where the stream has no word left.
unfoldable pub extract : List ℕ → List ℕ → List ℕ × List ℕ
extract old stream = elim (skip_spaces stream) [ [] ↦ (old, []) | b ∷ bs ↦ take_word (b ∷ bs) ]

-- A word with its end, where it is not empty.
abbrev pub flush : List ℕ → List (List ℕ) → List (List ℕ)
flush [] words = words
flush (b ∷ bs) words = (b ∷ bs) ∷ words

-- `while(ss>>tem) p->push_back(tem)`; `word` has been read so far.
unfoldable pub words_loop : List ℕ → List ℕ → List (List ℕ)
words_loop word [] = flush word []
words_loop word (b ∷ bs) =
    let rest = words_loop (if is_space b then [] else word ++ b ∷ []) bs in
    if is_space b then flush word rest else rest

-- `Parser_cmd`
unfoldable pub parser_cmd : List ℕ → List (List ℕ)
parser_cmd cmd = words_loop [] cmd

-- A byte of a word that survives a C string.
abbrev pub IsWordByte : ℕ → Type 0
IsWordByte b = (b ≢ 0) × (is_space b ≡ false)

abbrev pub IsWord : List ℕ → Type 0
IsWord w = All IsWordByte w × (w ≢ [])

-- A byte other than the 0 that ends a C string.
abbrev pub IsText : List ℕ → Type 0
IsText = All (λ b. b ≢ 0)

pub c_string-text : (t : List ℕ) → IsText t → c_string (t ++ 0 ∷ []) ≡ some t
unfolding c_string
c_string-text [] h = refl
c_string-text (b ∷ bs) h = ground (arith, c_string-text bs h.1, h.0)

pub c_str-text : (t : List ℕ) → IsText t → c_str t ≡ t
unfolding c_str
c_str-text [] h = refl
c_str-text (b ∷ bs) h = ground (arith, c_str-text bs h.1, h.0)

pub word-IsText : (w : List ℕ) → All IsWordByte w → IsText w
word-IsText w h = All-map IsWordByte (λ b. b ≢ 0) w (λ b x. x.0) h

pub eq_bytes_iff : (xs ys : List ℕ) → (eq_bytes xs ys ≡ true) ↔ (xs ≡ ys)
unfolding eq_bytes
eq_bytes_iff [] [] = ground arith
eq_bytes_iff (x ∷ xs) (y ∷ ys) = ground (arith, eq_bytes_iff xs ys)
eq_bytes_iff [] (y ∷ ys) = ground arith
eq_bytes_iff (x ∷ xs) [] = ground arith

take_word-space : (w rest : List ℕ) → All IsWordByte w → take_word (w ++ 32 ∷ rest) ≡ (w, 32 ∷ rest)
unfolding take_word is_space
take_word-space [] rest h = refl
take_word-space (b ∷ bs) rest h = rw (h.0.1) (ground (arith, take_word-space bs rest h.1))

take_word_all : (w : List ℕ) → All IsWordByte w → take_word w ≡ (w, [])
unfolding take_word
take_word_all [] h = refl
take_word_all (b ∷ bs) h = rw (h.0.1) (ground (arith, take_word_all bs h.1))

extract-word : (old w rest : List ℕ) → IsWord w → extract old (w ++ 32 ∷ rest) ≡ (w, 32 ∷ rest)
unfolding extract skip_spaces
extract-word old [] rest h = absurd (h.1 refl)
extract-word old (b ∷ bs) rest h =
    rw (h.0.0.1, extract, skip_spaces) (take_word-space (b ∷ bs) rest h.0)

extract-space_word : (old w : List ℕ) → IsWord w → extract old (32 ∷ w) ≡ (w, [])
unfolding extract skip_spaces is_space
extract-space_word old [] h = absurd (h.1 refl)
extract-space_word old (b ∷ bs) h = rw (h.0.0.1, extract, skip_spaces) (take_word_all (b ∷ bs) h.0)

-- Two words with a space between them are read back one after the other.
pub extract_two :
    (old older w v : List ℕ)
    → IsWord w
    → IsWord v
    → (extract old (w ++ 32 ∷ v) ≡ (w, 32 ∷ v)) × (extract older (32 ∷ v) ≡ (v, []))
extract_two old older w v hw hv = (extract-word old w v hw, extract-space_word older v hv)

-- A stream of spaces leaves a string as it was.
pub extract_blank : (old t : List ℕ) → All (λ b. is_space b ≡ true) t → extract old t ≡ (old, [])
unfolding extract skip_spaces
extract_blank old t h = rw (blank t h, extract) refl
  where
    blank : (t : List ℕ) → All (λ b. is_space b ≡ true) t → skip_spaces t ≡ []
    blank [] h = refl
    blank (b ∷ bs) h = rw (h.0) (blank bs h.1)
