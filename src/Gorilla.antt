-- ===== src/Gorilla.antt =====
-- tyrtech/tyrdbs/gorilla_writer.h and gorilla_reader.h: the compression of a series of (timestamp,
-- value) samples. A timestamp is written as the change of its delta in one of five widths, a value
-- as the exclusive or with the value before it, cut to its nibbles between leading and trailing
-- zeros. `int64_t` and `uint64_t` are bit patterns below 2 ^ 64.
pub mod Nibbles
pub mod Codec
pub mod Delta
pub mod Value
pub mod Step
pub mod RoundTrip
mod Tests
use Prim.Native.Nat.{bit_and, bit_or, bit_xor}
use tyrdbs.Prelude.{
  ℕ, zero, suc, ◌+◌, ◌-◌, ◌*◌, ◌/◌, ◌%◌, ◌^◌, Bool, true, false, ◌&&◌, ◌||◌, Option, none, some,
  List, [], ◌∷◌, ◌==◌, leb, if◌then◌else◌, ◌>>=◌,
}
use tyrdbs.Prelude.Words.{add64, sub64, le_s64, neg64, none32}
use tyrdbs.BitStream.{BitWriter, bit_writer, BitReader, bit_reader, write, read, read_bit}
use tyrdbs.BitStream as Bits

pub record GorillaWriter : Type 0 where
  pub samples : ℕ
  pub first_timestamp : ℕ
  pub last_timestamp : ℕ
  pub last_delta : ℕ
  pub delta : ℕ
  pub last_value : ℕ
  pub last_clz : ℕ
  pub last_ctz : ℕ
  pub writer : BitWriter

abbrev pub gorilla_writer : GorillaWriter
gorilla_writer = record {
  samples = 0;
  first_timestamp = 0;
  last_timestamp = 0;
  last_delta = 0;
  delta = 0;
  last_value = 0;
  last_clz = none32;
  last_ctz = none32;
  writer = bit_writer;
}

-- The width of a delta of deltas goes by the signed value.
unfoldable pub write_encoded : ℕ → BitWriter → BitWriter
write_encoded v w =
    if v == 0
    then write 0 1 w
    else if le_s64 (neg64 63) v && le_s64 v 64
    then write (bit_or (bit_and (add64 v 0x3f) 0x7f) (0x02 * 2 ^ 7)) 9 w
    else if le_s64 (neg64 255) v && le_s64 v 256
    then write (bit_or (bit_and (add64 v 0xff) 0x1ff) (0x06 * 2 ^ 9)) 12 w
    else if le_s64 (neg64 2047) v && le_s64 v 2048
    then write (bit_or (bit_and (add64 v 0x7ff) 0xfff) (0x0e * 2 ^ 12)) 16 w
    else write (bit_or (bit_and (add64 v 0x7fff_ffff) 0xffff_ffff) (0x0f * 2 ^ 32)) 36 w

-- Its assertion that the timestamp is not below the last one is a hypothesis of the theorem on series.
unfoldable pub write_timestamp : ℕ → GorillaWriter → GorillaWriter
write_timestamp timestamp g =
    if g.samples == 0
    then record g {
      writer = write timestamp 64 g.writer;
      first_timestamp = timestamp;
      last_timestamp = timestamp;
    }
    else let delta : ℕ = sub64 timestamp g.last_timestamp in
      record g {
        writer =
            write_encoded (if g.samples == 1 then delta else sub64 delta g.last_delta) g.writer;
        delta = delta;
        last_delta = delta;
        last_timestamp = timestamp;
      }

-- `__builtin_ctzl` and `__builtin_clzl` of a 64-bit word that is not zero, a bit a round
unfoldable pub ctz_from : ℕ → ℕ → ℕ
ctz_from zero x = 0
ctz_from (suc n) x = if x % 2 == 1 then 0 else suc (ctz_from n (x / 2))

unfoldable pub bit_length_from : ℕ → ℕ → ℕ
bit_length_from zero x = 0
bit_length_from (suc n) x = if x == 0 then 0 else suc (bit_length_from n (x / 2))

unfoldable pub ctz : ℕ → ℕ
ctz x = ctz_from 64 x

unfoldable pub clz : ℕ → ℕ
clz x = 64 - bit_length_from 64 x

-- the last branch of `write_value`: a control word, then the nibbles, which the writer remembers
unfoldable pub write_nibbles : ℕ → ℕ → ℕ → GorillaWriter → GorillaWriter
write_nibbles xor_value clz ctz g =
    let value_size : ℕ = 16 - (clz + ctz) in
    record g {
      writer =
          write (xor_value / 2 ^ (ctz * 4)) (value_size * 4)
            (write (bit_or (bit_or (0x03 * 2 ^ 9) (clz * 2 ^ 5)) value_size) 11 g.writer);
      last_clz = clz;
      last_ctz = ctz;
    }

-- the branches of `write_value` after the first sample
unfoldable pub write_xor : ℕ → GorillaWriter → GorillaWriter
write_xor xor_value g =
    if xor_value == 0
    then record g { writer = write 0 1 g.writer; last_clz = none32; last_ctz = none32 }
    else if leb g.last_clz (clz xor_value / 4) && leb g.last_ctz (ctz xor_value / 4)
    then record g {
      writer =
          write (xor_value / 2 ^ (g.last_ctz * 4)) ((16 - (g.last_clz + g.last_ctz)) * 4)
            (write 0x02 2 g.writer);
    }
    else write_nibbles xor_value (clz xor_value / 4) (ctz xor_value / 4) g

unfoldable pub write_value : ℕ → GorillaWriter → GorillaWriter
write_value value g =
    let g' : GorillaWriter =
      if g.samples == 0
      then record g { writer = write value 64 g.writer }
      else write_xor (bit_xor value g.last_value) g in
    record g' { last_value = value }

unfoldable pub write_sample : ℕ → ℕ → GorillaWriter → GorillaWriter
write_sample timestamp value g =
    let g' : GorillaWriter = write_value value (write_timestamp timestamp g) in
    record g' { samples = (g'.samples + 1) % 2 ^ 32 }

unfoldable pub flush : GorillaWriter → GorillaWriter
flush g = record g { writer = Bits.flush g.writer }

pub record GorillaReader : Type 0 where
  pub samples : ℕ
  pub ndx : ℕ
  pub timestamp : ℕ
  pub delta : ℕ
  pub value : ℕ
  pub value_size : ℕ
  pub ctz : ℕ
  pub reader : BitReader

abbrev pub gorilla_reader : ℕ → List ℕ → GorillaReader
gorilla_reader samples words = record {
  samples = samples;
  ndx = 0;
  timestamp = 0;
  delta = 0;
  value = 0;
  value_size = none32;
  ctz = none32;
  reader = bit_reader words;
}

-- a field of `bits` bits, less its bias
unfoldable pub read_biased : ℕ → ℕ → BitReader → Option (ℕ × BitReader)
read_biased bits bias r = do (v, r1) ← read bits r; some (sub64 v bias, r1)

-- The value of `v` in `load_next_timestamp`, a branch for each further prefix bit `b`.
unfoldable pub after_fourth : ℕ → BitReader → Option (ℕ × BitReader)
after_fourth b r = if b == 0 then read_biased 12 0x7ff r else read_biased 32 0x7fff_ffff r

unfoldable pub after_third : ℕ → BitReader → Option (ℕ × BitReader)
after_third b r =
    if b == 0 then read_biased 9 0xff r else (do (b', r') ← read_bit r; after_fourth b' r')

unfoldable pub after_second : ℕ → BitReader → Option (ℕ × BitReader)
after_second b r =
    if b == 0 then read_biased 7 0x3f r else (do (b', r') ← read_bit r; after_third b' r')

unfoldable pub after_first : ℕ → BitReader → Option (ℕ × BitReader)
after_first b r = if b == 0 then some (0, r) else (do (b', r') ← read_bit r; after_second b' r')

unfoldable pub read_encoded : BitReader → Option (ℕ × BitReader)
unfolding after_first after_second after_third after_fourth
read_encoded r = do (b, r') ← read_bit r; after_first b r'

unfoldable pub load_next_timestamp : GorillaReader → Option GorillaReader
load_next_timestamp g =
    if g.ndx == 0
    then (do (t, r) ← read 64 g.reader; some (record g { timestamp = t; reader = r }))
    else do
      (v, r) ← read_encoded g.reader
      let delta : ℕ = add64 g.delta v
      some (record g { delta = delta; timestamp = add64 g.timestamp delta; reader = r })

-- The assertions of `load_next_value` where the nibbles stand as before: a fault if they fail.
unfoldable pub reuse_control : GorillaReader → Option GorillaReader
reuse_control g = if (g.value_size == none32) || (g.ctz == none32) then none else some g

-- the control word of `load_next_value`, if there is one: the size and place of the nibbles
unfoldable pub load_control : GorillaReader → Option GorillaReader
load_control g = do
  (b, r) ← read_bit g.reader
  if b == 0 then reuse_control (record g { reader = r }) else do
    (value_ctrl, r') ← read 9 r
    let value_size : ℕ = bit_and value_ctrl 0x1f
    some (record g {
      value_size = value_size;
      ctz = (16 + 2 ^ 32 - (value_ctrl / 2 ^ 5 + value_size)) % 2 ^ 32;
      reader = r';
    })

unfoldable pub load_xor : GorillaReader → Option GorillaReader
load_xor g = do
  (b, r) ← read_bit g.reader
  if b == 0 then some (record g { value_size = none32; ctz = none32; reader = r }) else do
    g' ← load_control (record g { reader = r })
    (x, r') ← read (g'.value_size * 4) g'.reader
    some (record g' { value = bit_xor g'.value (x * 2 ^ (g'.ctz * 4) % 2 ^ 64); reader = r' })

unfoldable pub load_next_value : GorillaReader → Option GorillaReader
load_next_value g =
    if g.ndx == 0
    then (do (v, r) ← read 64 g.reader; some (record g { value = v; reader = r }))
    else load_xor g

unfoldable pub next : GorillaReader → Option (Bool × GorillaReader)
next g = if g.ndx == g.samples then some (false, g) else do
  g1 ← load_next_timestamp g
  g2 ← load_next_value g1
  some (true, record g2 { ndx = (g2.ndx + 1) % 2 ^ 32 })

-- `value()`: the timestamp and the value of the sample at hand
unfoldable pub value_of : GorillaReader → ℕ × ℕ
value_of g = (g.timestamp, g.value)
