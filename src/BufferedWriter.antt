-- ===== src/BufferedWriter.antt =====
-- tyrtech/common/buffered_writer.h: bytes gathered in a buffer, which goes to a sink when it is full.
-- The sink, a template parameter, is one that takes all that it is given, and is the list of those
-- bytes: a sink that throws ends the call there, and is left out. A writer whose SinkType is void has
-- none. `size()` of the buffer is a `size_t`; the room left in it is converted to 32 bits.
pub mod Bytes
pub mod Padding
mod Tests
use Prim.Native.Nat.{bit_and}
use tyrdbs.Prelude.{
  ℕ, zero, suc, ◌+◌, ◌-◌, ◌%◌, ◌^◌, min, Bool, true, false, Option, none, some, List, [], ◌∷◌, ◌++◌,
  ◌==◌, if◌then◌else◌, length, take, drop, replicate,
}
use tyrdbs.Prelude.Memory.{Memory, load, store}

pub record BufferedWriter : Type 0 where
  pub buffer : Memory
  pub buffer_size : ℕ
  pub buffer_offset : ℕ
  pub sink : Option (List ℕ)

unfoldable pub buffered_writer : (buffer_size : ℕ) → (sink : Option (List ℕ)) → BufferedWriter
buffered_writer buffer_size sink = record {
  buffer = λ i. 0;
  buffer_size = buffer_size;
  buffer_offset = 0;
  sink = sink;
}

unfoldable pub flush : BufferedWriter → BufferedWriter
flush w = elim w.sink [
  | none ↦ w
  | some bytes ↦
      if w.buffer_offset == 0
      then w
      else record w { sink = some (bytes ++ load w.buffer 0 w.buffer_offset); buffer_offset = 0 }
]

-- the writer after the call, which may have thrown
pub data WriteResult : Type 0 where
  wrote : BufferedWriter → WriteResult
  cannot_write : BufferedWriter → WriteResult

abbrev pub part_size_of : List ℕ → BufferedWriter → ℕ
part_size_of bytes w = min ((w.buffer_size - w.buffer_offset) % 2 ^ 32) (length bytes)

-- the copy of one part into the buffer
unfoldable pub put_part : List ℕ → BufferedWriter → BufferedWriter
put_part bytes w =
    let part_size : ℕ = part_size_of bytes w in
    record w {
      buffer = store w.buffer w.buffer_offset (take part_size bytes);
      buffer_offset = w.buffer_offset + part_size;
    }

-- The loop, on fuel: each round takes at least one byte, so the number of the bytes is enough.
unfoldable pub write_bytes : (fuel : ℕ) → List ℕ → BufferedWriter → WriteResult
write_bytes zero bytes w = wrote w
write_bytes (suc fuel) [] w = wrote w
write_bytes (suc fuel) (b ∷ bs) w =
    let bytes : List ℕ = b ∷ bs in
    let w' : BufferedWriter = flush w in
    let now = write_bytes fuel (drop (part_size_of bytes w) bytes) (put_part bytes w) in
    let after_flush = write_bytes fuel (drop (part_size_of bytes w') bytes) (put_part bytes w') in
    if w.buffer_offset == w.buffer_size
    then (if w'.buffer_offset == w'.buffer_size then cannot_write w' else after_flush)
    else now

unfoldable pub write : List ℕ → BufferedWriter → WriteResult
unfolding flush put_part write_bytes
write bytes w = write_bytes (length bytes) bytes w

-- That the buffer is not past `size` is asserted, and that `size` is within the buffer is up to the
-- caller; both are hypotheses of the theorems.
unfoldable pub add_padding_to : ℕ → BufferedWriter → BufferedWriter
add_padding_to size w = record w {
  buffer = store w.buffer w.buffer_offset (replicate (size - w.buffer_offset) 0);
  buffer_offset = size;
}

unfoldable pub add_alignment_to : ℕ → BufferedWriter → BufferedWriter
unfolding add_padding_to
add_alignment_to alignment w =
    let mask : ℕ = alignment - 1 in
    let size : ℕ =
      if bit_and w.buffer_offset mask == 0
      then w.buffer_offset
      else (w.buffer_offset + (alignment - bit_and w.buffer_offset mask)) % 2 ^ 32 in
    add_padding_to size w

unfoldable pub is_empty : BufferedWriter → Bool
is_empty w = w.buffer_offset == 0

-- `sink_offset` is what `offset` of the sink gives, which may not begin at 0.
unfoldable pub offset : (sink_offset : ℕ) → BufferedWriter → ℕ
offset sink_offset w = elim w.sink [
  | none ↦ w.buffer_offset
  | some bytes ↦ w.buffer_offset + sink_offset
]
