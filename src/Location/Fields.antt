-- ===== src/Location/Fields.antt =====
-- The fields of a packed location can be read back.
use tyrdbs.Prelude.{ℕ, ◌+◌, ◌*◌, ◌%◌, ◌^◌, ◌<◌, ◌≡◌, refl, Bool, true, false, arith}
use tyrdbs.Prelude.Bits.{bit_and-mask, bit_and-digit, bit_or-disjoint}
use tyrdbs.Location.{
  max_offset, max_size, to_uint, offset_from, size_from, is_leaf_from, is_valid, size, location,
  location_of,
}

pub size-eq : (s : ℕ) (leaf : Bool) → s < 2 ^ 15 → size s (to_uint leaf) ≡ to_uint leaf * 2 ^ 15 + s
unfolding size
size-eq s true h = omega (arith, bit_or-disjoint 15 1 s h)
size-eq s false h = omega (arith, bit_or-disjoint 15 0 s h)

pub location_of-eq :
    (offset s : ℕ) → offset < max_offset → s < 2 ^ 16 → location_of offset s ≡ offset * 2 ^ 16 + s
unfolding location_of
location_of-eq offset s ho hs =
    let e : offset * 2 ^ 16 % 2 ^ 64 ≡ offset * 2 ^ 16 = omega arith in
    rw e (bit_or-disjoint 16 offset s hs)

pub location-eq :
    (offset s : ℕ) (leaf : Bool)
    → offset < max_offset
    → s < max_size
    → location offset s leaf ≡ offset * 2 ^ 16 + (to_uint leaf * 2 ^ 15 + s)
unfolding location location_of
location-eq offset s true ho hs =
    let e = size-eq s true (omega arith) in
    rw e (location_of-eq offset (1 * 2 ^ 15 + s) ho (omega arith))
location-eq offset s false ho hs =
    let e = size-eq s false (omega arith) in
    rw e (location_of-eq offset (0 * 2 ^ 15 + s) ho (omega arith))

-- a location of an offset with 32 bits, whatever the size
pub location-narrow :
    (offset s : ℕ) (leaf : Bool) → offset < 2 ^ 32 → location offset s leaf < 2 ^ 48
unfolding location location_of size
location-narrow offset s leaf h =
    omega (arith, location_of-eq offset (size s (to_uint leaf)) (omega arith) (omega arith))

-- Packing an offset below `max_offset`, a size below `max_size` and a leaf flag, the reader gets
-- back all three, and the word is a valid location.
pub location_fields :
    (offset s : ℕ) (leaf : Bool)
    → offset < max_offset
    → s < max_size
    → (offset_from (location offset s leaf) ≡ offset)
      × (size_from (location offset s leaf) ≡ s)
      × (is_leaf_from (location offset s leaf) ≡ leaf)
      × (is_valid (location offset s leaf) ≡ true)
unfolding offset_from size_from is_leaf_from is_valid
location_fields offset s true ho hs =
    let e = location-eq offset s true ho hs in
    let l : ℕ = location offset s true in
    (
      omega (arith, e),
      omega (arith, e, bit_and-mask 15 l),
      ground (arith, e, bit_and-digit 15 l),
      ground (arith, e, bit_and-mask 16 l),
    )
location_fields offset s false ho hs =
    let e = location-eq offset s false ho hs in
    let l : ℕ = location offset s false in
    (
      omega (arith, e),
      omega (arith, e, bit_and-mask 15 l),
      ground (arith, e, bit_and-digit 15 l),
      ground (arith, e, bit_and-mask 16 l),
    )

-- The link that a node stores behind its data (a size with the leaf flag) gives, with the offset
-- at which the next node starts, the very location under which that node was written.
pub location_of-size :
    (offset s : ℕ) (leaf : Bool)
    → offset < max_offset
    → s < max_size
    → location_of offset (size s (to_uint leaf)) ≡ location offset s leaf
unfolding location location_of
location_of-size offset s leaf ho hs = refl

-- The end mark is no valid location, whatever the offset before it.
pub invalid_link : (offset : ℕ) → offset < max_offset → is_valid (location_of offset 0xffff) ≡ false
unfolding is_valid
invalid_link offset h = ground (
  arith,
  location_of-eq offset 0xffff h (omega arith),
  bit_and-mask 16 (location_of offset 0xffff),
)
