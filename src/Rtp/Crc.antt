-- ===== src/Rtp/Crc.antt =====
-- lab2-rtp-Heccc257/Lab2-RTP-Test/src/util.c: the CRC of a packet, by a table that is filled on
-- first use.
use Prim.Native.Nat.{bit_and, bit_xor}
use networking_labs.Prelude.{
  ℕ, zero, suc, ◌+◌, ◌/◌, ◌%◌, ◌^◌, ◌≤◌, ◌<◌, ◌≡◌, ◌⊎◌, inl, inr, refl, List, [], ◌∷◌, arith, ◌==◌,
  if◌then◌else◌, get_or, replicate,
}
use networking_labs.Prelude.Bits.{bit_xor-lt}

abbrev pub polynomial : ℕ
polynomial = 0xedb88320

-- `r = (r & 1? 0: (uint32_t)0xEDB88320L) ^ r >> 1`, j times.
crc_rounds : ℕ → ℕ → ℕ
crc_rounds zero r = r
crc_rounds (suc j) r = crc_rounds j (bit_xor (if bit_and r 1 == 0 then polynomial else 0) (r / 2))

crc32_for_byte : ℕ → ℕ
unfolding crc_rounds
crc32_for_byte r = bit_xor (crc_rounds 8 r) 0xff000000

-- The entries of n bytes from i on.
table_from : ℕ → ℕ → List ℕ
unfolding crc32_for_byte
table_from zero i = []
table_from (suc n) i = crc32_for_byte i ∷ table_from n (i + 1)

abbrev no_table : List ℕ
no_table = replicate 256 0

-- `if(!*table)` fill it.
fill_table : List ℕ → List ℕ
unfolding table_from
fill_table table = if get_or table 0 0 == 0 then table_from 256 0 else table

crc_loop : List ℕ → List ℕ → ℕ → ℕ
crc_loop table [] crc = crc
crc_loop table (b ∷ bs) crc =
    crc_loop table bs (bit_xor (get_or table (bit_xor (crc % 256) b) 0) (crc / 256))

-- The static table is an argument, and comes back with the result.
crc32 : List ℕ → List ℕ → ℕ → List ℕ × ℕ
unfolding fill_table crc_loop
crc32 table bytes crc = (fill_table table, crc_loop (fill_table table) bytes crc)

pub compute_checksum : List ℕ → List ℕ → List ℕ × ℕ
unfolding crc32
compute_checksum table bytes = crc32 table bytes 0

pub full_table : List ℕ
unfolding table_from
full_table = table_from 256 0

-- The checksum of a packet's bytes, whatever the calls before: see `compute_checksum_cached`.
pub checksum : List ℕ → ℕ
unfolding compute_checksum
checksum bytes = (compute_checksum no_table bytes).1

-- What the static table can hold: nothing yet, or what an earlier call has put there.
abbrev pub IsTable : List ℕ → Type 0
IsTable table = (table ≡ no_table) ⊎ (table ≡ full_table)

-- The checksum does not depend on whether an earlier call has filled the table.
pub compute_checksum_cached :
    (table bytes : List ℕ)
    → IsTable table
    → compute_checksum table bytes ≡ (full_table, checksum bytes)
unfolding compute_checksum checksum full_table
compute_checksum_cached table bytes (inl e) = rw e
compute_checksum_cached table bytes (inr e) = rw e

check_value : checksum (49 ∷ 50 ∷ 51 ∷ 52 ∷ 53 ∷ 54 ∷ 55 ∷ 56 ∷ 57 ∷ []) ≡ 0xcbf43926
unfolding checksum
check_value = refl

crc_rounds-lt : (j r : ℕ) → r < 2 ^ 32 → crc_rounds j r < 2 ^ 32
unfolding crc_rounds
crc_rounds-lt zero r h = h
crc_rounds-lt (suc j) r h = crc_rounds-lt j _ (
    bit_xor-lt 32 (if bit_and r 1 == 0 then polynomial else 0) (r / 2) (ground arith) (omega arith))

crc32_for_byte-lt : (r : ℕ) → r < 2 ^ 32 → crc32_for_byte r < 2 ^ 32
unfolding crc32_for_byte
crc32_for_byte-lt r h =
    bit_xor-lt 32 (crc_rounds 8 r) 0xff000000 (crc_rounds-lt 8 r h) (omega arith)

table_from-lt : (n i j : ℕ) → i + n ≤ 256 → get_or (table_from n i) j 0 < 2 ^ 32
unfolding table_from
table_from-lt zero i j h = omega arith
table_from-lt (suc n) i zero h = crc32_for_byte-lt i (omega arith)
table_from-lt (suc n) i (suc j) h = table_from-lt n (i + 1) j (omega arith)

entries_fit : (i : ℕ) → get_or full_table i 0 < 2 ^ 32
unfolding full_table
entries_fit i = table_from-lt 256 0 i (omega arith)

crc_loop-lt : (bytes : List ℕ) (crc : ℕ) → crc < 2 ^ 32 → crc_loop full_table bytes crc < 2 ^ 32
unfolding crc_loop
crc_loop-lt [] crc h = h
crc_loop-lt (b ∷ bs) crc h =
    crc_loop-lt bs _ (bit_xor-lt 32 _ _ (entries_fit (bit_xor (crc % 256) b)) (omega arith))

-- The checksum fits in 32 bits.
pub checksum-lt : (bytes : List ℕ) → checksum bytes < 2 ^ 32
unfolding checksum full_table
checksum-lt bytes = crc_loop-lt bytes 0 (omega arith)
