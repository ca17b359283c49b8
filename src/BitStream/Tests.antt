-- ===== src/BitStream/Tests.antt =====
-- Runs of the bit streams, and the theorems at concrete inputs.
use tyrdbs.Prelude.{◌≡◌, refl, some, List, [], ◌∷◌, ◌++◌, arith}
use tyrdbs.BitStream.{bit_writer, flush, write, bit_reader}
use tyrdbs.BitStream.Digits.{to_bits}
use tyrdbs.BitStream.Write.{IsAligned, content, bit_writer-IsAligned, write-content}
use tyrdbs.BitStream.RoundTrip.{Field, write_all, read_all, values, read_all-write_all}

abbrev fields : List Field
fields = (5, 3) ∷ (0, 60) ∷ (0x1f3, 9) ∷ []

crossing :
    (flush (write_all fields bit_writer)).sink ≡ 0xa000_0000_0000_0001 ∷ 0xf300_0000_0000_0000 ∷ []
unfolding write_all write flush
crossing = refl

write-content_example :
    IsAligned (write 5 3 bit_writer)
    × (content (write 5 3 bit_writer) ≡ content bit_writer ++ to_bits 3 5)
write-content_example =
    write-content 5 3 bit_writer bit_writer-IsAligned (omega arith) (omega arith)

read_all-write_all_example :
    read_all fields (bit_reader (flush (write_all fields bit_writer)).sink) ≡ some (values fields)
read_all-write_all_example = read_all-write_all fields (omega arith)
