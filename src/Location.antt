-- ===== src/Location.antt =====
-- tyrtech/tyrdbs/location.cpp and location.h: a node's place in a slice file, one 64-bit word that
-- packs the byte offset (48 bits), a leaf flag (one bit) and the compressed size (15 bits).
-- The assertions of `location` are hypotheses of the theorems.
pub mod Fields
mod Tests
use Prim.Native.Nat.{bit_and, bit_or}
use tyrdbs.Prelude.{ℕ, ◌*◌, ◌/◌, ◌%◌, ◌^◌, Bool, true, false, not, ◌==◌}

abbrev pub max_offset : ℕ
max_offset = 0x1000000000000

abbrev pub max_size : ℕ
max_size = 0x7fff

abbrev pub invalid_size : ℕ
invalid_size = 0xffff

-- the conversion of a `bool` to an integer
abbrev pub to_uint : Bool → ℕ
to_uint true = 1
to_uint false = 0

unfoldable pub offset_from : ℕ → ℕ
offset_from l = l / 2 ^ 16

-- the result is a `uint16_t`, which the mask already fits
unfoldable pub size_from : ℕ → ℕ
size_from l = bit_and l 0x7fff

unfoldable pub is_leaf_from : ℕ → Bool
is_leaf_from l = not (bit_and l 0x8000 == 0)

unfoldable pub is_valid : ℕ → Bool
is_valid l = not (bit_and l 0xffff == invalid_size)

-- `(is_leaf << 15) | size`, converted to `uint16_t`
unfoldable pub size : ℕ → ℕ → ℕ
size node_size is_leaf = bit_or (is_leaf * 2 ^ 15) node_size % 2 ^ 16

-- the overload that packs a size and a leaf flag
unfoldable pub location : ℕ → ℕ → Bool → ℕ
unfolding size
location offset node_size is_leaf =
    bit_or (offset * 2 ^ 16 % 2 ^ 64) (size node_size (to_uint is_leaf))

-- the overload for a size that holds the leaf flag already
unfoldable pub location_of : ℕ → ℕ → ℕ
location_of offset node_size = bit_or (offset * 2 ^ 16 % 2 ^ 64) node_size
