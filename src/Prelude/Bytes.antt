-- ===== src/Prelude/Bytes.antt =====
-- Bytes of text, as the C and C++ libraries read them, and of numbers.
use Prim.Native.Nat.{ℕ, ◌/◌, ◌%◌}
use mathlib.Core.Bool.{Bool, ◌&&◌, ◌||◌}
use mathlib.Core.List.{List, [], ◌∷◌}
use networking_labs.Prelude.Tests.{leb, ◌==◌, if◌then◌else◌}

-- `isspace`
unfoldable pub is_space : ℕ → Bool
is_space b = b == 32 || leb 9 b && leb b 13

unfoldable pub skip_spaces : List ℕ → List ℕ
skip_spaces [] = []
skip_spaces (b ∷ bs) = if is_space b then skip_spaces bs else b ∷ bs

-- The bytes up to the next space, and the rest.
unfoldable pub take_word : List ℕ → List ℕ × List ℕ
take_word [] = ([], [])
take_word (b ∷ bs) =
    if is_space b then ([], b ∷ bs) else (let (w, rest) = take_word bs in (b ∷ w, rest))

-- A number of 16 or 32 bits as it lies in memory.
abbrev pub le16 : ℕ → List ℕ
le16 n = n % 256 ∷ n / 256 % 256 ∷ []

abbrev pub le32 : ℕ → List ℕ
le32 n = n % 256 ∷ n / 256 % 256 ∷ n / 65536 % 256 ∷ n / 16777216 % 256 ∷ []
