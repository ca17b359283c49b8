-- ===== src/BufferedWriter/Tests.antt =====
-- Runs of the buffered writer, and the theorems at concrete writers.
use tyrdbs.Prelude.{ℕ, ◌+◌, ◌%◌, ◌^◌, ◌<◌, replicate, ◌≡◌, refl, some, List, [], ◌∷◌, ◌++◌, arith}
use tyrdbs.BufferedWriter.{
  BufferedWriter, WriteResult, wrote, cannot_write, write_bytes, write, flush, put_part,
  add_alignment_to,
}
use tyrdbs.BufferedWriter.Bytes.{sunk, contents, IsSound, write-contents}
use tyrdbs.BufferedWriter.Padding.{alignment-contents}

-- three bytes of a buffer of four are taken
abbrev nearly_full : BufferedWriter
nearly_full = record {
  buffer = λ i. i + 7;
  buffer_size = 4;
  buffer_offset = 3;
  sink = some (1 ∷ 2 ∷ []);
}

abbrev nearly_full-IsSound : IsSound nearly_full
nearly_full-IsSound = record {
  sink_bytes = 1 ∷ 2 ∷ [];
  has_sink = refl;
  room = omega arith;
  narrow = omega arith;
  in_buffer = omega arith;
}

abbrev more : List ℕ
more = 21 ∷ 22 ∷ 23 ∷ []

-- what a result has in the sink
abbrev sink_of : WriteResult → List ℕ
sink_of (wrote w) = sunk w.sink
sink_of (cannot_write w) = sunk w.sink

more_flushes : sink_of (write more nearly_full) ≡ 1 ∷ 2 ∷ 7 ∷ 8 ∷ 9 ∷ 21 ∷ []
unfolding write write_bytes flush put_part sunk
more_flushes = refl

write-contents_example :
    (w' : BufferedWriter) × (write more nearly_full ≡ wrote w')
    × (contents w' ≡ contents nearly_full ++ more)
    × IsSound w'
write-contents_example = write-contents more nearly_full nearly_full-IsSound

-- three bytes of a buffer of ten are taken
abbrev seven_left : BufferedWriter
seven_left = record { buffer = λ i. i + 7; buffer_size = 10; buffer_offset = 3; sink = some [] }

alignment-contents_example :
    (n : ℕ) × (n < 2 ^ 2)
    × (contents (add_alignment_to (2 ^ 2) seven_left) ≡ contents seven_left ++ replicate n 0)
    × ((add_alignment_to (2 ^ 2) seven_left).buffer_offset ≡ seven_left.buffer_offset + n)
    × ((add_alignment_to (2 ^ 2) seven_left).buffer_offset % 2 ^ 2 ≡ 0)
alignment-contents_example = alignment-contents 2 seven_left (omega arith) (omega arith)
