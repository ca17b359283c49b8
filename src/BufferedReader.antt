-- ===== src/BufferedReader.antt =====
-- tyrtech/common/buffered_reader.h: bytes taken from a buffer, which a source fills again. The source,
-- a template parameter, is the list of the pieces that its reads give, one after the other, and
-- gives nothing when there are no more; a reader whose SourceType is void has none and reads the
-- buffer itself.
pub mod Bytes
mod Tests
use tyrdbs.Prelude.{
  ℕ, zero, suc, ◌+◌, ◌-◌, min, Option, none, some, List, [], ◌∷◌, ◌++◌, ◌==◌, if◌then◌else◌, length,
}
use tyrdbs.Prelude.Memory.{Memory, store}
use tyrdbs.Prelude.Memory

pub record BufferedReader : Type 0 where
  pub buffer : Memory
  pub buffer_size : ℕ
  pub loaded_size : ℕ
  pub reader_offset : ℕ
  pub source : Option (List (List ℕ))

unfoldable pub buffered_reader :
    (buffer : Memory) → (buffer_size : ℕ) → (source : Option (List (List ℕ))) → BufferedReader
buffered_reader buffer buffer_size source = record {
  buffer = buffer;
  buffer_size = buffer_size;
  loaded_size = 0;
  reader_offset = 0;
  source = source;
}

-- At the end of the source its assertion that something was loaded fails; the callers, whose test is
-- the same, give `none` then.
unfoldable pub load : BufferedReader → BufferedReader
load r = elim r.source [
  | none ↦ record r { loaded_size = r.buffer_size }
  | some [] ↦ record r { loaded_size = 0; reader_offset = 0 }
  | some (piece ∷ pieces) ↦ record r {
    buffer = store r.buffer 0 piece;
    loaded_size = length piece;
    reader_offset = 0;
    source = some pieces;
  }
]

-- the size of the part that one round copies
abbrev pub part_of : ℕ → BufferedReader → ℕ
part_of size r = min size (r.loaded_size - r.reader_offset)

-- the bytes of the part, and the reader behind them
unfoldable pub part : ℕ → BufferedReader → List ℕ
part size r = Memory.load r.buffer r.reader_offset (part_of size r)

unfoldable pub advance : ℕ → BufferedReader → BufferedReader
advance size r = record r { reader_offset = r.reader_offset + part_of size r }

-- the bytes of the part stand before those that the next rounds read
abbrev pub before : List ℕ → Option (List ℕ × BufferedReader) → Option (List ℕ × BufferedReader)
before bytes none = none
before bytes (some (others, r)) = some (bytes ++ others, r)

-- The loop, on fuel: each round takes at least one byte, so the size is enough. `none` is the
-- failed assertion of `load`, or of a build without assertions the error that comes behind it.
unfoldable pub read_bytes : (fuel size : ℕ) → BufferedReader → Option (List ℕ × BufferedReader)
read_bytes zero size r = some ([], r)
read_bytes (suc fuel) zero r = some ([], r)
read_bytes (suc fuel) (suc n) r =
    let size : ℕ = suc n in
    let r' : BufferedReader = load r in
    let now = read_bytes fuel (size - part_of size r) (advance size r) in
    let after_load = read_bytes fuel (size - part_of size r') (advance size r') in
    if r.reader_offset == r.loaded_size
    then (if r'.reader_offset == r'.loaded_size then none else before (part size r') after_load)
    else before (part size r) now

unfoldable pub read : ℕ → BufferedReader → Option (List ℕ × BufferedReader)
unfolding load part advance read_bytes
read size r = read_bytes size size r

-- `read` of one character
unfoldable pub read_char : BufferedReader → Option (ℕ × BufferedReader)
unfolding load
read_char r =
    let taken : BufferedReader → Option (ℕ × BufferedReader) =
      λ q. some (q.buffer q.reader_offset, record q { reader_offset = q.reader_offset + 1 }) in
    let r' : BufferedReader = load r in
    if r.reader_offset == r.loaded_size
    then (if r'.reader_offset == r'.loaded_size then none else taken r')
    else taken r
