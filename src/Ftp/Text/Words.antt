-- ===== src/Ftp/Text/Words.antt =====
-- `Parser_cmd` of lab1-myftp-Heccc257/src/util.cpp: the words of a line.
use mathlib.Core.List.{append_assoc, append-nil}
use networking_labs.Prelude.{
  ℕ, ◌≡◌, ◌≢◌, refl, sym, ap, ◌∙◌, List, [], ◌∷◌, ◌++◌, map, true, false, All,
}
use networking_labs.Prelude.Bytes.{is_space}
use networking_labs.Ftp.Text.{flush, words_loop, parser_cmd}

-- A word and the spaces after it.
pub record Token : Type 0 where
  pub word : List ℕ
  pub sep : List ℕ

pub record IsToken (t : Token) : Type 0 where
  pub no_space : All (λ b. is_space b ≡ false) t.word
  pub has_word : t.word ≢ []
  pub spaces : All (λ b. is_space b ≡ true) t.sep
  pub has_sep : t.sep ≢ []

-- The text of a line that ends in `last`.
unfoldable pub line : List Token → List ℕ → List ℕ
line [] last = last
line (t ∷ ts) last = t.word ++ (t.sep ++ line ts last)

words_loop-word :
    (acc w rest : List ℕ)
    → All (λ b. is_space b ≡ false) w
    → words_loop acc (w ++ rest) ≡ words_loop (acc ++ w) rest
unfolding words_loop
words_loop-word acc [] rest h = ap (λ a. words_loop a rest) (sym (append-nil acc))
words_loop-word acc (b ∷ bs) rest h = rw (h.0) (
    words_loop-word (acc ++ b ∷ []) bs rest h.1
    ∙ ap (λ a. words_loop a rest) (append_assoc acc (b ∷ []) bs))

words_loop-spaces :
    (sep rest : List ℕ)
    → All (λ b. is_space b ≡ true) sep
    → words_loop [] (sep ++ rest) ≡ words_loop [] rest
unfolding words_loop
words_loop-spaces [] rest h = refl
words_loop-spaces (b ∷ bs) rest h = rw (h.0) (words_loop-spaces bs rest h.1)

words_loop-token :
    (w sep rest : List ℕ)
    → w ≢ []
    → sep ≢ []
    → All (λ b. is_space b ≡ true) sep
    → words_loop w (sep ++ rest) ≡ w ∷ words_loop [] rest
unfolding words_loop
words_loop-token [] sep rest hw hs h = absurd (hw refl)
words_loop-token (b ∷ bs) [] rest hw hs h = absurd (hs refl)
words_loop-token (b ∷ bs) (s ∷ ss) rest hw hs h =
    rw (h.0) (ap (λ ws. (b ∷ bs) ∷ ws) (words_loop-spaces ss rest h.1))

words_loop-last :
    (last : List ℕ) → All (λ b. is_space b ≡ false) last → words_loop [] last ≡ flush last []
unfolding words_loop
words_loop-last last h = ap (words_loop []) (sym (append-nil last)) ∙ words_loop-word [] last [] h

tokens :
    (ts : List Token) (last : List ℕ)
    → All IsToken ts
    → All (λ b. is_space b ≡ false) last
    → words_loop [] (line ts last) ≡ map (λ t. t.word) ts ++ flush last []
unfolding line
tokens [] last hs h = words_loop-last last h
tokens (t ∷ ts) last hs h =
    let v = hs.0 in
    words_loop-word [] t.word (t.sep ++ line ts last) v.no_space
    ∙ words_loop-token t.word t.sep (line ts last) v.has_word v.has_sep v.spaces
    ∙ ap (λ ws. t.word ∷ ws) (tokens ts last hs.1 h)

-- Parser_cmd gives the words of a line that spaces separate, with any number of spaces before,
-- between and after them.
pub parser_cmd-line :
    (leading : List ℕ) (ts : List Token) (last : List ℕ)
    → All (λ b. is_space b ≡ true) leading
    → All IsToken ts
    → All (λ b. is_space b ≡ false) last
    → parser_cmd (leading ++ line ts last) ≡ map (λ t. t.word) ts ++ flush last []
unfolding parser_cmd
parser_cmd-line leading ts last hl hs h =
    words_loop-spaces leading (line ts last) hl ∙ tokens ts last hs h
