-- ===== src/BufferedReader/Tests.antt =====
-- Runs of the buffered reader, and the theorem at a concrete one.
use tyrdbs.Prelude.{ℕ, ◌<◌, ◌≡◌, ◌⊎◌, refl, Option, none, some, List, [], ◌∷◌, ◌++◌, length, arith}
use tyrdbs.BufferedReader.{BufferedReader, buffered_reader, load, part, advance, read_bytes, read}
use tyrdbs.BufferedReader.Bytes.{ahead, IsFed, read-ahead}

abbrev two_pieces : BufferedReader
two_pieces = buffered_reader (λ i. 0) 4 (some ((1 ∷ 2 ∷ []) ∷ (3 ∷ 4 ∷ 5 ∷ []) ∷ []))

abbrev two_pieces-IsFed : IsFed two_pieces
unfolding buffered_reader
two_pieces-IsFed = record {
  pieces = (1 ∷ 2 ∷ []) ∷ (3 ∷ 4 ∷ 5 ∷ []) ∷ [];
  has_source = refl;
  not_empty = omega arith;
  in_loaded = omega arith;
}

-- the bytes that a read gave
abbrev bytes_of : Option (List ℕ × BufferedReader) → List ℕ
bytes_of none = []
bytes_of (some (bytes, r)) = bytes

across_pieces : bytes_of (read 4 two_pieces) ≡ 1 ∷ 2 ∷ 3 ∷ 4 ∷ []
unfolding read buffered_reader load part advance read_bytes
across_pieces = refl

too_many : read 6 two_pieces ≡ none
unfolding read buffered_reader load part advance read_bytes
too_many = refl

read-ahead_example :
    ((length (ahead two_pieces) < 4) × (read 4 two_pieces ≡ none))
    ⊎ ((bytes : List ℕ) × (r' : BufferedReader) × (read 4 two_pieces ≡ some (bytes, r'))
        × (length bytes ≡ 4)
        × (ahead two_pieces ≡ bytes ++ ahead r')
        × IsFed r')
read-ahead_example = read-ahead 4 two_pieces two_pieces-IsFed
