-- ===== src/BitStream/RoundTrip.antt =====
-- Whatever `bit_writer` writes and flushes, `bit_reader` reads back.
use tyrdbs.Prelude.{
  ℕ, ◌^◌, ◌≤◌, ◌<◌, ◌≡◌, refl, sym, ap, ◌∙◌, Option, none, some, List, [], ◌∷◌, ◌++◌, append-nil,
  append_assoc, arith, Every,
}
use tyrdbs.BitStream.{BitWriter, bit_writer, write, flush, BitReader, bit_reader, read}
use tyrdbs.BitStream.Digits.{to_bits}
use tyrdbs.BitStream.Write.{
  IsAligned, content, bit_writer-IsAligned, write-content, flush-content, content-start,
}
use tyrdbs.BitStream.Read.{IsReady, remaining, read-remaining, bit_reader-IsReady, remaining-start}

-- A field of a record of bits: its value and its width.
abbrev pub Field : Type 0
Field = ℕ × ℕ

abbrev pub IsField : Field → Type 0
IsField f = (f.1 ≤ 64) × (f.0 < 2 ^ f.1) × (f.0 < 2 ^ 64)

unfoldable pub write_all : List Field → BitWriter → BitWriter
write_all [] w = w
write_all ((v, b) ∷ fs) w = write_all fs (write v b w)

unfoldable pub read_all : List Field → BitReader → Option (List ℕ)
read_all [] r = some []
read_all ((v, b) ∷ fs) r = elim (read b r) [
  | none ↦ none
  | some (x, r') ↦ elim (read_all fs r') [ none ↦ none | some xs ↦ some (x ∷ xs) ]
]

abbrev pub values : List Field → List ℕ
values [] = []
values ((v, b) ∷ fs) = v ∷ values fs

pub fields_bits : List Field → List ℕ
fields_bits [] = []
fields_bits ((v, b) ∷ fs) = to_bits b v ++ fields_bits fs

write_all-content :
    (fs : List Field) (w : BitWriter)
    → Every IsField fs
    → IsAligned w
    → IsAligned (write_all fs w) × (content (write_all fs w) ≡ content w ++ fields_bits fs)
unfolding write_all fields_bits
write_all-content [] w h a = (a, sym (append-nil (content w)))
write_all-content ((v, b) ∷ fs) w h a =
    let (a', c) = write-content v b w a h.0.2 h.0.0 in
    let (a2, c2) = write_all-content fs (write v b w) h.1 a' in
    (
      a2,
      c2
          ∙ ap (λ t. t ++ fields_bits fs) c
          ∙ append_assoc (content w) (to_bits b v) (fields_bits fs),
    )

read_all-remaining :
    (fs : List Field) (r : BitReader) (rest : List ℕ)
    → Every IsField fs
    → IsReady r
    → remaining r ≡ fields_bits fs ++ rest
    → read_all fs r ≡ some (values fs)
unfolding read_all fields_bits
read_all-remaining [] r rest h a e = refl
read_all-remaining ((v, b) ∷ fs) r rest h a e =
    let (r', got, a', e') =
      read-remaining b v (fields_bits fs ++ rest) r a h.0.0 h.0.1
        (e ∙ append_assoc (to_bits b v) (fields_bits fs) rest) in
    ground (arith, got, read_all-remaining fs r' rest h.1 a' e')

-- Fields of 0 to 64 bits, each value fitting its width, written one after the other and flushed:
-- reading the same widths from the words in the sink gives back exactly the values, wherever the
-- fields cross the ends of words, and the reader never runs out of data.
pub read_all-write_all :
    (fs : List Field)
    → Every IsField fs
    → read_all fs (bit_reader (flush (write_all fs bit_writer)).sink) ≡ some (values fs)
read_all-write_all fs h =
    let w : BitWriter = write_all fs bit_writer in
    let (a, c) = write_all-content fs bit_writer h bit_writer-IsAligned in
    let (pad, bits, small, words) = flush-content w a in
    read_all-remaining fs (bit_reader (flush w).sink) (to_bits pad 0) h
      (bit_reader-IsReady (flush w).sink words)
      (remaining-start (flush w).sink
        ∙ bits
        ∙ ap (λ t. t ++ to_bits pad 0) (c ∙ ap (λ t. t ++ fields_bits fs) content-start))
