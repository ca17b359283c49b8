-- ===== src/Gorilla/Tests.antt =====
-- Runs of the sample compression, and the theorems at concrete inputs.
use tyrdbs.Prelude.{ℕ, ◌^◌, ◌≡◌, ◌≢◌, refl, some, [], ◌∷◌, arith}
use tyrdbs.BitStream as Bits
use tyrdbs.BitStream.{BitWriter, bit_writer}
use tyrdbs.Gorilla.{
  gorilla_writer, gorilla_reader, write_encoded, write_timestamp, write_value, write_xor, ctz,
  ctz_from, clz, bit_length_from, write_sample, flush,
}
use tyrdbs.Gorilla.Delta.{Encodes, encoded-Encodes, encoded_too_wide}
use tyrdbs.Gorilla.Value.{Carries, xor-Carries}
use tyrdbs.Gorilla.RoundTrip.{Series, write_series, read_series, read_series-write_series}

abbrev series : Series
series = (1000, 42) ∷ (1060, 42) ∷ (1121, 0x4200) ∷ (1190, 0xffff_ffff_ffff_ffff) ∷ []

counts : (clz 0x00f0 ≡ 56) × (ctz 0x00f0 ≡ 4)
unfolding clz ctz ctz_from bit_length_from
counts = (refl, refl)

-- two words, then the bits `0`-prefixed forms of a constant series
constant : (flush (write_series ((7, 9) ∷ (7, 9) ∷ []) gorilla_writer)).writer.sink ≡ 7 ∷ 9 ∷ 0 ∷ []
unfolding flush write_series write_sample write_value write_timestamp write_xor write_encoded
    Bits.write Bits.flush
constant = refl

encoded-Encodes_example : Encodes 300 300
encoded-Encodes_example = encoded-Encodes 300 (omega arith) (omega arith)

encoded_too_wide_example : (out : ℕ) × Encodes (2 ^ 40) out × (out ≢ 2 ^ 40)
encoded_too_wide_example = encoded_too_wide (2 ^ 40) (omega arith) (omega arith)

xor-Carries_example : Carries 0x4200 gorilla_writer (write_xor 0x4200 gorilla_writer)
xor-Carries_example = xor-Carries 0x4200 gorilla_writer (omega arith)

read_series-write_series_example :
    let g = flush (write_series series gorilla_writer) in
    read_series 5 (gorilla_reader g.samples g.writer.sink) ≡ some series
read_series-write_series_example = read_series-write_series series (omega arith) (omega arith)
