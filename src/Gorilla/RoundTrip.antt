-- ===== src/Gorilla/RoundTrip.antt =====
-- A whole series through `gorilla_writer`, `flush` and `gorilla_reader`.
use tyrdbs.Prelude.{
  ℕ, zero, suc, ◌+◌, ◌≤◌, ◌^◌, ◌<◌, ◌≡◌, inl, refl, sym, ap, ◌∙◌, true, false, Option, none, some,
  List, [], ◌∷◌, ◌++◌, append_assoc, append-nil, arith, ◌==◌, if◌then◌else◌, length,
}
use tyrdbs.Prelude.Words.{sub64}
use tyrdbs.BitStream.{BitWriter, BitReader, bit_writer, bit_reader, write, read}
use tyrdbs.BitStream as Bits
use tyrdbs.BitStream.Digits.{to_bits}
use tyrdbs.BitStream.Write.{content, bit_writer-IsAligned, content-start, flush-content}
use tyrdbs.BitStream.Read.{IsReady, remaining, bit_reader-IsReady, remaining-start}
use tyrdbs.Gorilla.{
  GorillaWriter, gorilla_writer, GorillaReader, gorilla_reader, write_timestamp, write_value,
  write_sample, flush, load_next_timestamp, load_next_value, next, value_of,
}
use tyrdbs.Gorilla.Codec.{Appends, Appends-write, Appends-trans, Takes-read}
use tyrdbs.Gorilla.Delta.{IsEncodable}
use tyrdbs.Gorilla.Step.{
  IsStarted, Agrees, Gets, sample-Sends, sample-IsStarted, next-some, samples-write_sample,
}

abbrev pub Series : Type 0
Series = List (ℕ × ℕ)

-- Words of 64 bits, timestamps that do not descend, and deltas of deltas that the widest form
-- holds; `last` and `delta` are those of the sample before.
abbrev pub IsSeriesFrom : ℕ → ℕ → Series → Type 0
IsSeriesFrom last delta [] = Unit
IsSeriesFrom last delta ((t, v) ∷ ss) =
    (t < 2 ^ 64)
    × (v < 2 ^ 64)
    × (IsEncodable (sub64 (sub64 t last) delta) × (last ≤ t))
    × IsSeriesFrom t (sub64 t last) ss

abbrev pub IsSeries : Series → Type 0
IsSeries [] = Unit
IsSeries ((t, v) ∷ ss) = (t < 2 ^ 64) × (v < 2 ^ 64) × IsSeriesFrom t 0 ss

-- a caller's loop over `write`
unfoldable pub write_series : Series → GorillaWriter → GorillaWriter
write_series [] g = g
write_series ((t, v) ∷ ss) g = write_series ss (write_sample t v g)

-- a caller's loop `while (reader.next()) … reader.value()`, on fuel
unfoldable pub read_series : ℕ → GorillaReader → Option Series
read_series zero h = none
read_series (suc n) h = elim (next h) [
  | none ↦ none
  | some (more, h') ↦
      let rest : Option Series = elim (read_series n h') [
        | none ↦ none
        | some ss ↦ some (value_of h' ∷ ss)
      ] in
      if more then rest else some []
]

-- the reader at the end of the series
next-end : (h : GorillaReader) → h.ndx ≡ h.samples → next h ≡ some (false, h)
unfolding next
next-end h e = let t : (h.ndx == h.samples) ≡ true = ground arith in rw t

first_timestamp :
    (h : GorillaReader) (t : ℕ) (r : BitReader)
    → h.ndx ≡ 0
    → read 64 h.reader ≡ some (t, r)
    → load_next_timestamp h ≡ some (record h { timestamp = t; reader = r })
unfolding load_next_timestamp
first_timestamp h t r z e = ground arith

first_value :
    (h : GorillaReader) (v : ℕ) (r : BitReader)
    → h.ndx ≡ 0
    → read 64 h.reader ≡ some (v, r)
    → load_next_value h ≡ some (record h { value = v; reader = r })
unfolding load_next_value
first_value h v r z e = ground arith

module _ (h : GorillaReader) where
  read_series-end : (n : ℕ) → h.ndx ≡ h.samples → read_series (suc n) h ≡ some []
  unfolding read_series
  read_series-end n e = let stop = next-end h e in ground (arith, stop)

  read_series-more :
      (n : ℕ) (h' : GorillaReader) (s : ℕ × ℕ) (ss : Series)
      → next h ≡ some (true, h')
      → value_of h' ≡ s
      → read_series n h' ≡ some ss
      → read_series (suc n) h ≡ some (s ∷ ss)
  unfolding read_series
  read_series-more n h' s ss e1 e2 e3 = ground arith

-- Where the writer ends, and what the reader makes of it.
record Delivers (ss : Series) (g : GorillaWriter) : Type 0 where
  enc : List ℕ
  appends : Appends g.writer (write_series ss g).writer enc
  count : (write_series ss g).samples ≡ g.samples + length ss
  gets :
      (h : GorillaReader) (rest : List ℕ)
      → Agrees g h
      → h.samples ≡ g.samples + length ss
      → remaining h.reader ≡ enc ++ rest
      → read_series (suc (length ss)) h ≡ some ss

series-Delivers :
    (ss : Series) (g : GorillaWriter)
    → IsStarted g
    → IsSeriesFrom g.last_timestamp g.last_delta ss
    → g.samples + length ss < 2 ^ 32
    → Delivers ss g
unfolding write_series
series-Delivers [] g s f room = record {
  enc = [];
  appends = (s.aligned, sym (append-nil (content g.writer)));
  count = omega arith;
  gets = λ h rest a total l. read_series-end h 0 (omega (arith, a.count, total));
}
series-Delivers ((t, v) ∷ ss) g s f room =
    let one = sample-Sends t v g s f.0 f.1 f.2.0 in
    let g' : GorillaWriter = write_sample t v g in
    let (n, time, delta) = samples-write_sample t v g s in
    let s' = sample-IsStarted t v g s f.0 f.1 (omega (arith, room)) one.appends.0 in
    let count' : g'.samples ≡ g.samples + 1 = omega (arith, n, room) in
    let f' : IsSeriesFrom g'.last_timestamp g'.last_delta ss = rw (time, delta) f.3 in
    let more = series-Delivers ss g' s' f' (omega (arith, count', room)) in
    record {
      enc = one.enc ++ more.enc;
      appends = Appends-trans g.writer g'.writer _ one.enc more.enc one.appends more.appends;
      count = omega (arith, more.count, count');
      gets = λ h rest a total l.
          let o =
            one.gets h (more.enc ++ rest) a (λ e. omega (arith, a.count, total, e))
              (l ∙ append_assoc one.enc more.enc rest) in
          let ih = more.gets o.after rest o.agrees (omega (arith, o.total, total, count')) o.left in
          read_series-more h (suc (length ss)) o.after (t, v) ss o.returned o.sample ih;
    }

-- The first sample goes in two words.
abbrev first : ℕ → ℕ → GorillaWriter
first t v = write_sample t v gorilla_writer

abbrev first_bits : ℕ → ℕ → List ℕ
first_bits t v = to_bits 64 t ++ to_bits 64 v

module _ (t v : ℕ) (ht : t < 2 ^ 64) (hv : v < 2 ^ 64) where
  first-IsStarted :
      IsStarted (first t v)
      × Appends bit_writer (first t v).writer (first_bits t v)
      × ((first t v).samples ≡ 1)
      × ((first t v).last_timestamp ≡ t)
      × ((first t v).last_delta ≡ 0)
  unfolding write_sample write_value write_timestamp
  first-IsStarted =
      let p = Appends-write t 64 bit_writer bit_writer-IsAligned ht (omega arith) in
      let w1 : BitWriter = write t 64 bit_writer in
      let q = Appends-write v 64 w1 p.0 hv (omega arith) in
      let both = Appends-trans bit_writer w1 (write v 64 w1) (to_bits 64 t) (to_bits 64 v) p q in
      (
        record {
          started = omega arith;
          count_in = omega arith;
          first_delta = λ e. refl;
          time_in = ht;
          delta_in = omega arith;
          value_in = hv;
          aligned = both.0;
        },
        both,
        refl,
        refl,
        refl,
      )

  first-Gets :
      (total : ℕ) (words rest : List ℕ)
      → 0 < total
      → IsReady (bit_reader words)
      → remaining (bit_reader words) ≡ (first_bits t v) ++ rest
      → Gets t v (first t v) rest (gorilla_reader total words)
  unfolding write_sample write_value write_timestamp value_of
  first-Gets total words rest p a l =
      let h : GorillaReader = gorilla_reader total words in
      let (r1, got1, a1, l1) =
        Takes-read 64 t (omega arith) ht (bit_reader words) (to_bits 64 v ++ rest) a
          (l ∙ append_assoc (to_bits 64 t) (to_bits 64 v) rest) in
      let (r2, got2, a2, l2) = Takes-read 64 v (omega arith) hv r1 rest a1 l1 in
      let h1 : GorillaReader = record h { timestamp = t; reader = r1 } in
      let h2 : GorillaReader = record h1 { value = v; reader = r2 } in
      record {
        after = record h2 { ndx = 1 };
        returned =
            next-some h h1 h2 (omega arith) (first_timestamp h t r1 refl got1)
              (first_value h1 v r2 refl got2);
        sample = refl;
        agrees = record {
          count = refl;
          time = refl;
          delta = refl;
          value = refl;
          window = inl (refl, refl);
          ready = a2;
        };
        left = l2;
        total = refl;
      }

-- Any series of fewer than 2 ^ 32 samples, 64-bit timestamps that do not descend and 64-bit values,
-- whose deltas of deltas the widest form holds, comes back sample for sample from the words that
-- the flushed writer left, in a loop that ends with the last sample: the reader meets no error and
-- reads no sample too many.
pub read_series-write_series :
    (ss : Series)
    → IsSeries ss
    → length ss < 2 ^ 32
    → let g = flush (write_series ss gorilla_writer) in
      read_series (suc (length ss)) (gorilla_reader g.samples g.writer.sink) ≡ some ss
unfolding write_series flush
read_series-write_series [] h room = read_series-end (gorilla_reader 0 _) 0 refl
read_series-write_series ((t, v) ∷ ss) h room =
    let (s, sent, one, time, delta) = first-IsStarted t v h.0 h.1 in
    let g1 : GorillaWriter = first t v in
    let f : IsSeriesFrom g1.last_timestamp g1.last_delta ss = rw (time, delta) h.2 in
    let more = series-Delivers ss g1 s f (omega (arith, one, room)) in
    let g : GorillaWriter = write_series ss g1 in
    let all =
      Appends-trans bit_writer g1.writer g.writer (first_bits t v) more.enc sent more.appends in
    let (pad, bits, small, words) = flush-content g.writer all.0 in
    let sink : List ℕ = (Bits.flush g.writer).sink in
    let start : remaining (bit_reader sink) ≡ first_bits t v ++ (more.enc ++ to_bits pad 0) =
      remaining-start sink
      ∙ bits
      ∙ ap (λ x. x ++ to_bits pad 0)
          (all.1 ∙ ap (λ x. x ++ (first_bits t v ++ more.enc)) content-start)
      ∙ append_assoc (first_bits t v) more.enc (to_bits pad 0) in
    let o =
      first-Gets t v h.0 h.1 g.samples sink (more.enc ++ to_bits pad 0)
        (omega (arith, more.count, one)) (bit_reader-IsReady sink words) start in
    read_series-more (gorilla_reader g.samples sink) (suc (length ss)) o.after (t, v) ss o.returned
      o.sample (more.gets o.after (to_bits pad 0) o.agrees (o.total ∙ more.count) o.left)
