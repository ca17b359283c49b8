-- ===== src/BitStream.antt =====
-- tyrtech/common/bit_writer.h and bit_reader.h: numbers of up to 64 bits, most significant bit
-- first, in a stream of 64-bit words. The writer's sink and the reader's source are template
-- parameters there; here they are the words that were written, and the words still to be read.
-- Each loop runs on fuel: it takes at least one bit a round, so `bits` rounds are enough.
pub mod Digits
pub mod Write
pub mod Read
pub mod RoundTrip
mod Tests
use Prim.Native.Nat.{bit_and, bit_or}
use tyrdbs.Prelude.{
  ℕ, zero, suc, ◌+◌, ◌-◌, ◌*◌, ◌/◌, ◌%◌, ◌^◌, min, Option, none, some, List, [], ◌∷◌, ◌++◌, ◌==◌,
  if◌then◌else◌,
}

pub record BitWriter : Type 0 where
  pub sink : List ℕ
  pub bits : ℕ
  pub offset : ℕ

abbrev pub bit_writer : BitWriter
bit_writer = record { sink = []; bits = 0; offset = 0 }

unfoldable pub flush : BitWriter → BitWriter
flush w =
    if w.offset == 0 then w else record { sink = w.sink ++ (w.bits ∷ []); bits = 0; offset = 0 }

-- `v` after `if (part_bits != 64) v &= (1UL << part_bits) - 1`
unfoldable pub part_of : ℕ → ℕ → ℕ
part_of part_bits v = if part_bits == 64 then v else bit_and v (2 ^ part_bits - 1)

-- one round of `write`, past the flush: the bits that fit into the word at hand
unfoldable pub write_part : ℕ → ℕ → BitWriter → BitWriter
unfolding part_of
write_part value part_bits w = record w {
  bits = bit_or w.bits (part_of part_bits value * 2 ^ (64 - (w.offset + part_bits)) % 2 ^ 64);
  offset = w.offset + part_bits;
}

unfoldable pub write_loop : ℕ → ℕ → ℕ → BitWriter → BitWriter
write_loop zero value bits w = w
write_loop (suc fuel) value bits w =
    let w' : BitWriter = if w.offset == 64 then flush w else w in
    let part_bits : ℕ = min (64 - w'.offset) bits in
    let rest : BitWriter =
      write_loop fuel value (bits - part_bits)
        (write_part (value / 2 ^ (bits - part_bits)) part_bits w') in
    if bits == 0 then w else rest

unfoldable pub write : ℕ → ℕ → BitWriter → BitWriter
unfolding write_loop write_part flush part_of
write value bits w = write_loop bits value bits w

pub record BitReader : Type 0 where
  pub source : List ℕ
  pub bits : ℕ
  pub offset : ℕ

abbrev pub bit_reader : List ℕ → BitReader
bit_reader words = record { source = words; bits = 0; offset = 64 }

-- The source raises an error when it has no more data.
unfoldable pub load : BitReader → Option BitReader
load r = elim r.source [
  | [] ↦ none
  | word ∷ words ↦ some (record { source = words; bits = word; offset = 0 })
]

unfoldable pub load_if_empty : BitReader → Option BitReader
unfolding load
load_if_empty r = if r.offset == 64 then load r else some r

-- the value of the next `part_bits` bits of the word at hand
unfoldable pub read_part : ℕ → BitReader → ℕ
unfolding part_of
read_part part_bits r = part_of part_bits (r.bits / 2 ^ (64 - (r.offset + part_bits)))

unfoldable pub read_loop : ℕ → ℕ → ℕ → BitReader → Option (ℕ × BitReader)
read_loop zero value bits r = if bits == 0 then some (value, r) else none
read_loop (suc fuel) value bits r =
    let rest : Option (ℕ × BitReader) = elim (load_if_empty r) [
      | none ↦ none
      | some r' ↦
          let part_bits : ℕ = min (64 - r'.offset) bits in
          read_loop fuel (bit_or value (read_part part_bits r' * 2 ^ (bits - part_bits) % 2 ^ 64))
            (bits - part_bits) (record r' { offset = r'.offset + part_bits })
    ] in
    if bits == 0 then some (value, r) else rest

unfoldable pub read : ℕ → BitReader → Option (ℕ × BitReader)
unfolding read_loop read_part load_if_empty part_of
read bits r = read_loop bits 0 bits r

-- `read()`: a single bit
unfoldable pub read_bit : BitReader → Option (ℕ × BitReader)
read_bit r = elim (load_if_empty r) [
  | none ↦ none
  | some r' ↦
      some (bit_and (r'.bits / 2 ^ (63 - r'.offset)) 1, record r' { offset = r'.offset + 1 })
]
