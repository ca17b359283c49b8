-- ===== src/Prelude/Words.antt =====
-- 64-bit machine words as native numbers, with the wrap-around written out. A signed word is its bit
-- pattern; the signed order compares the patterns with the sign bit flipped.
use tyrdbs.Prelude.{ℕ, ◌+◌, ◌-◌, ◌%◌, ◌^◌, ◌<◌, ◌≡◌, Bool, arith, leb}

abbrev pub add64 : ℕ → ℕ → ℕ
add64 a b = (a + b) % 2 ^ 64

abbrev pub sub64 : ℕ → ℕ → ℕ
sub64 a b = (a + (2 ^ 64 - b)) % 2 ^ 64

abbrev pub le_s64 : ℕ → ℕ → Bool
le_s64 a b = leb ((a + 2 ^ 63) % 2 ^ 64) ((b + 2 ^ 63) % 2 ^ 64)

-- the pattern of `-n`
abbrev pub neg64 : ℕ → ℕ
neg64 n = 2 ^ 64 - n

-- `static_cast<uint32_t>(-1)`
abbrev pub none32 : ℕ
none32 = 0xffff_ffff

pub add64-sub64 : (a b : ℕ) → a < 2 ^ 64 → b < 2 ^ 64 → add64 b (sub64 a b) ≡ a
add64-sub64 a b ha hb = omega arith

pub sub64-lt : (a b : ℕ) → sub64 a b < 2 ^ 64
sub64-lt a b = omega arith
