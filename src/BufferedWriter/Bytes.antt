-- ===== src/BufferedWriter/Bytes.antt =====
-- The bytes behind a writer, those of the sink and then those in the buffer.
use tyrdbs.Prelude.{
  ℕ, zero, suc, ◌+◌, ◌^◌, ◌≤◌, ◌<◌, ◌≡◌, ◌≢◌, refl, sym, ap, ◌∙◌, inl, inr, Bool-cases, Option,
  none, some, false, List, [], ◌∷◌, ◌++◌, append-nil, append_assoc, arith, ◌==◌, ==_iff, length,
  take, drop, length-take, length-drop, take-append-drop,
}
use tyrdbs.Prelude.Memory.{load, store, load-store_behind}
use tyrdbs.BufferedWriter.{
  BufferedWriter, flush, WriteResult, wrote, part_size_of, put_part, write_bytes, write,
}

unfoldable pub sunk : Option (List ℕ) → List ℕ
sunk none = []
sunk (some bytes) = bytes

unfoldable pub contents : BufferedWriter → List ℕ
contents w = sunk w.sink ++ load w.buffer 0 w.buffer_offset

put_part-contents :
    (bytes : List ℕ) (w : BufferedWriter)
    → contents (put_part bytes w) ≡ contents w ++ take (part_size_of bytes w) bytes
unfolding contents put_part
put_part-contents bytes w =
    let p : List ℕ = take (part_size_of bytes w) bytes in
    let l : length p ≡ part_size_of bytes w =
      length-take (part_size_of bytes w) bytes ∙ omega arith in
    ap (λ n. sunk w.sink ++ load (store w.buffer w.buffer_offset p) 0 (w.buffer_offset + n)) (sym l)
    ∙ ap (λ t. sunk w.sink ++ t) (load-store_behind w.buffer w.buffer_offset p)
    ∙ sym (append_assoc (sunk w.sink) (load w.buffer 0 w.buffer_offset) p)

-- A writer with a sink, whose buffer has from one byte to less than 2 ^ 32.
pub record IsSound (w : BufferedWriter) : Type 0 where
  pub sink_bytes : List ℕ
  pub has_sink : w.sink ≡ some sink_bytes
  pub room : 0 < w.buffer_size
  pub narrow : w.buffer_size < 2 ^ 32
  pub in_buffer : w.buffer_offset ≤ w.buffer_size

-- `flush` leaves the buffer empty, and changes nothing but where the bytes are.
pub flush-contents :
    (w : BufferedWriter)
    → IsSound w
    → (contents (flush w) ≡ contents w) × IsSound (flush w) × ((flush w).buffer_offset ≡ 0)
unfolding contents flush sunk
flush-contents w v = elim (Bool-cases (w.buffer_offset == 0)) [
  | inl e ↦
      rw (v.has_sink, e)
        (
          refl,
          record {
            sink_bytes = v.sink_bytes;
            has_sink = refl;
            room = v.room;
            narrow = v.narrow;
            in_buffer = v.in_buffer;
          },
          (==_iff w.buffer_offset 0).0 e,
        )
  | inr e ↦
      rw (v.has_sink, e)
        (
          append-nil (v.sink_bytes ++ load w.buffer 0 w.buffer_offset),
          record {
            sink_bytes = v.sink_bytes ++ load w.buffer 0 w.buffer_offset;
            has_sink = refl;
            room = v.room;
            narrow = v.narrow;
            in_buffer = omega arith;
          },
          refl,
        )
]

put_part-IsSound : (bytes : List ℕ) (w : BufferedWriter) → IsSound w → IsSound (put_part bytes w)
unfolding put_part
put_part-IsSound bytes w v = record {
  sink_bytes = v.sink_bytes;
  has_sink = v.has_sink;
  room = v.room;
  narrow = v.narrow;
  in_buffer = omega (arith, v.in_buffer);
}

-- what a whole write gives
abbrev Wrote : List ℕ → BufferedWriter → WriteResult → Type 0
Wrote bytes w r =
    (w' : BufferedWriter) × (r ≡ wrote w') × (contents w' ≡ contents w ++ bytes) × IsSound w'

-- One part first, and the others behind it.
part_first :
    (bytes : List ℕ) (w : BufferedWriter) (r : WriteResult)
    → Wrote (drop (part_size_of bytes w) bytes) (put_part bytes w) r
    → Wrote bytes w r
part_first bytes w r (w', e, c, v) = (
  w',
  e,
  c
      ∙ ap (λ t. t ++ drop (part_size_of bytes w) bytes) (put_part-contents bytes w)
      ∙ append_assoc (contents w) (take (part_size_of bytes w) bytes)
          (drop (part_size_of bytes w) bytes)
      ∙ ap (λ t. contents w ++ t) (take-append-drop (part_size_of bytes w) bytes),
  v,
)

write_bytes-contents :
    (fuel : ℕ) (bytes : List ℕ) (w : BufferedWriter)
    → length bytes ≤ fuel
    → IsSound w
    → Wrote bytes w (write_bytes fuel bytes w)
unfolding write_bytes
write_bytes-contents zero [] w h v = (w, refl, sym (append-nil (contents w)), v)
write_bytes-contents zero (b ∷ bs) w h v = absurd (omega arith)
write_bytes-contents (suc fuel) [] w h v = (w, refl, sym (append-nil (contents w)), v)
write_bytes-contents (suc fuel) (b ∷ bs) w h v =
    let bytes : List ℕ = b ∷ bs in
    elim (Bool-cases (w.buffer_offset == w.buffer_size)) [
      | inr e ↦
          let ne : w.buffer_offset ≢ w.buffer_size = ground (arith, e) in
          rw e (
            part_first bytes w _ (
              write_bytes-contents fuel (drop (part_size_of bytes w) bytes) (put_part bytes w)
                (omega (arith, length-drop (part_size_of bytes w) bytes, v.in_buffer, v.narrow, ne))
                (put_part-IsSound bytes w v)))
      | inl e ↦
          let (same, v', empty) = flush-contents w v in
          let has_room : ((flush w).buffer_offset == (flush w).buffer_size) ≡ false =
            ground (arith, empty, v'.room, v'.narrow) in
          let (w', r, c, v'') = part_first bytes (flush w) _ (
            write_bytes-contents fuel (drop (part_size_of bytes (flush w)) bytes)
              (put_part bytes (flush w))
              (omega (
                arith,
                length-drop (part_size_of bytes (flush w)) bytes,
                empty,
                v'.room,
                v'.narrow,
              ))
              (put_part-IsSound bytes (flush w) v')) in
          rw (e, has_room) (w', r, c ∙ ap (λ t. t ++ bytes) same, v'')
    ]

-- A writer whose buffer has from one byte to less than 2 ^ 32 and whose sink takes all that it is
-- given: `write` ends without an error, the bytes stand behind all those written before, in the order
-- in which they were given, whatever part of them went on to the sink, and the buffer stays within its
-- size.
pub write-contents :
    (bytes : List ℕ) (w : BufferedWriter)
    → IsSound w
    → (w' : BufferedWriter) × (write bytes w ≡ wrote w')
      × (contents w' ≡ contents w ++ bytes)
      × IsSound w'
unfolding write
write-contents bytes w v = write_bytes-contents (length bytes) bytes w (omega arith) v
