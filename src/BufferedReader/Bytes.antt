-- ===== src/BufferedReader/Bytes.antt =====
-- The bytes ahead of a reader, those in the buffer and then those of the pieces to come.
use tyrdbs.Prelude.{
  ℕ, zero, suc, ◌+◌, ◌-◌, ◌≤◌, ◌<◌, ◌≡◌, ◌≢◌, refl, sym, ap, ◌∙◌, ◌⊎◌, inl, inr, Bool-cases, Option,
  none, some, List, [], ◌∷◌, ◌++◌, append_assoc, arith, ◌==◌, ==_iff, length, length-append, Every,
}
use mathlib.Core.Path.{subst}
use tyrdbs.Prelude.Memory.{Memory, store, length-load, load-append, load-store}
use tyrdbs.Prelude.Memory
use tyrdbs.BufferedReader.{BufferedReader, load, part_of, part, advance, before, read_bytes, read}

unfoldable pub joined : Option (List (List ℕ)) → List ℕ
joined none = []
joined (some []) = []
joined (some (piece ∷ pieces)) = let rest = joined (some pieces) in piece ++ rest

unfoldable pub ahead : BufferedReader → List ℕ
ahead r = Memory.load r.buffer r.reader_offset (r.loaded_size - r.reader_offset) ++ joined r.source

-- A reader with a source, none of whose pieces is empty or longer than the buffer.
pub record IsFed (r : BufferedReader) : Type 0 where
  pub pieces : List (List ℕ)
  pub has_source : r.source ≡ some pieces
  pub not_empty : Every (λ piece. (0 < length piece) × (length piece ≤ r.buffer_size)) pieces
  pub in_loaded : r.reader_offset ≤ r.loaded_size

part-ahead : (n : ℕ) (r : BufferedReader) → IsFed r → ahead r ≡ part n r ++ ahead (advance n r)
unfolding ahead part advance
part-ahead n r v =
    let p : ℕ = part_of n r in
    let left : ℕ = r.loaded_size - (r.reader_offset + p) in
    ap (λ k. Memory.load r.buffer r.reader_offset k ++ joined r.source)
      {x = r.loaded_size - r.reader_offset} {y = p + left} (omega (arith, v.in_loaded))
    ∙ ap (λ t. t ++ joined r.source) (load-append r.buffer r.reader_offset p left)
    ∙ append_assoc (Memory.load r.buffer r.reader_offset p)
        (Memory.load r.buffer (r.reader_offset + p) left) (joined r.source)

advance-IsFed : (n : ℕ) (r : BufferedReader) → IsFed r → IsFed (advance n r)
unfolding advance
advance-IsFed n r v = record {
  pieces = v.pieces;
  has_source = v.has_source;
  not_empty = v.not_empty;
  in_loaded = omega (arith, v.in_loaded);
}

length-part : (n : ℕ) (r : BufferedReader) → length (part n r) ≡ part_of n r
unfolding part
length-part n r = length-load r.buffer r.reader_offset (part_of n r)

drained : (r : BufferedReader) → r.reader_offset ≡ r.loaded_size → ahead r ≡ joined r.source
unfolding ahead
drained r e =
    ap (λ k. Memory.load r.buffer r.reader_offset k ++ joined r.source)
      {x = r.loaded_size - r.reader_offset} {y = 0} (omega (arith, e))

load-end :
    (r : BufferedReader)
    → r.source ≡ some []
    → load r ≡ record r { loaded_size = 0; reader_offset = 0 }
unfolding load
load-end r s = rw s refl

-- the reader with the next piece in its buffer
abbrev with_piece : BufferedReader → List ℕ → List (List ℕ) → BufferedReader
with_piece r piece pieces = record r {
  buffer = store r.buffer 0 piece;
  loaded_size = length piece;
  reader_offset = 0;
  source = some pieces;
}

load-next :
    (r : BufferedReader) (piece : List ℕ) (pieces : List (List ℕ))
    → r.source ≡ some (piece ∷ pieces)
    → load r ≡ with_piece r piece pieces
unfolding load
load-next r piece pieces s = rw s refl

ahead-with_piece :
    (r : BufferedReader) (piece : List ℕ) (pieces : List (List ℕ))
    → ahead (with_piece r piece pieces) ≡ joined (some (piece ∷ pieces))
unfolding ahead joined
ahead-with_piece r piece pieces =
    ap (λ k. Memory.load (store r.buffer 0 piece) 0 k ++ joined (some pieces))
      {x = length piece - 0} {y = length piece} (omega arith)
    ∙ ap (λ t. t ++ joined (some pieces)) (load-store r.buffer 0 piece)

-- `load` of a reader with an empty buffer keeps what is ahead, and brings nothing only at the end.
abbrev Loaded : BufferedReader → BufferedReader → Type 0
Loaded r r' = (ahead r' ≡ ahead r) × IsFed r' × (r'.reader_offset ≡ r'.loaded_size → ahead r ≡ [])

load_at :
    (r : BufferedReader) (pieces : List (List ℕ))
    → r.source ≡ some pieces
    → Every (λ piece. (0 < length piece) × (length piece ≤ r.buffer_size)) pieces
    → r.reader_offset ≡ r.loaded_size
    → Loaded r (load r)
unfolding joined
load_at r [] s full e =
    let q : BufferedReader = record r { loaded_size = 0; reader_offset = 0 } in
    rw (load-end r s) (
      drained q refl ∙ sym (drained r e),
      record { pieces = []; has_source = s; not_empty = tt; in_loaded = omega arith },
      λ _. drained r e ∙ ap joined s,
    )
load_at r (piece ∷ pieces) s ((some_byte, fits), full) e = rw (load-next r piece pieces s) (
  ahead-with_piece r piece pieces ∙ sym (drained r e ∙ ap joined s),
  record { pieces = pieces; has_source = refl; not_empty = full; in_loaded = omega arith },
  λ same. absurd (omega (arith, some_byte, same)),
)

-- what a read of `n` bytes gives: those, or the error when there are fewer
abbrev ReadsFrom : ℕ → List ℕ → Option (List ℕ × BufferedReader) → Type 0
ReadsFrom n all o =
    ((length all < n) × (o ≡ none))
    ⊎ ((bytes : List ℕ) × (r' : BufferedReader) × (o ≡ some (bytes, r'))
        × (length bytes ≡ n)
        × (all ≡ bytes ++ ahead r')
        × IsFed r')

abbrev Reads : ℕ → BufferedReader → Option (List ℕ × BufferedReader) → Type 0
Reads n r o = ReadsFrom n (ahead r) o

-- One part, and the others behind it.
part_first :
    (n : ℕ) (r : BufferedReader) (o : Option (List ℕ × BufferedReader))
    → IsFed r
    → Reads (n - part_of n r) (advance n r) o
    → Reads n r (before (part n r) o)
part_first n r o v (inl (few, e)) = inl (
  omega (
    arith,
    few,
    ap length (part-ahead n r v),
    length-append (part n r) (ahead (advance n r)),
    length-part n r,
  ),
  ap (before (part n r)) e,
)
part_first n r o v (inr (bytes, r', e, l, a, v')) = inr (
  part n r ++ bytes,
  r',
  ap (before (part n r)) e,
  omega (arith, length-append (part n r) bytes, length-part n r, l),
  part-ahead n r v ∙ ap (λ t. part n r ++ t) a ∙ sym (append_assoc (part n r) bytes (ahead r')),
  v',
)

read_bytes-Reads :
    (fuel n : ℕ) (r : BufferedReader) → n ≤ fuel → IsFed r → Reads n r (read_bytes fuel n r)
unfolding read_bytes
read_bytes-Reads zero zero r h v = inr ([], r, refl, refl, refl, v)
read_bytes-Reads zero (suc n) r h v = absurd (omega arith)
read_bytes-Reads (suc fuel) zero r h v = inr ([], r, refl, refl, refl, v)
read_bytes-Reads (suc fuel) (suc n) r h v = elim (Bool-cases (r.reader_offset == r.loaded_size)) [
  | inr e ↦
      let ne : r.reader_offset ≢ r.loaded_size = ground (arith, e) in
      rw e (
        part_first (suc n) r _ v (
          read_bytes-Reads fuel (suc n - part_of (suc n) r) (advance (suc n) r)
            (omega (arith, ne, v.in_loaded)) (advance-IsFed (suc n) r v)))
  | inl e ↦
      let (same, v', end) =
        (load_at r v.pieces v.has_source v.not_empty ((==_iff _ r.loaded_size).0 e)) in
      rw e (elim (Bool-cases ((load r).reader_offset == (load r).loaded_size)) [
        | inl e' ↦
            rw e'
              (inl (omega (arith, ap length (end ((==_iff _ (load r).loaded_size).0 e'))), refl))
        | inr e' ↦
            let ne : (load r).reader_offset ≢ (load r).loaded_size = ground (arith, e') in
            rw e' (
              subst
                (λ a. ReadsFrom (suc n) a (
                  before (part (suc n) (load r)) (
                    read_bytes fuel (suc n - part_of (suc n) (load r)) (advance (suc n) (load r)))))
                same
                (part_first (suc n) (load r) _ v' (
                  read_bytes-Reads fuel (suc n - part_of (suc n) (load r))
                    (advance (suc n) (load r)) (omega (arith, ne, v'.in_loaded))
                    (advance-IsFed (suc n) (load r) v'))))
      ])
]

-- `read` of a reader whose source gives pieces that are neither empty nor longer than the buffer
-- returns the next bytes, as many as asked for, whatever pieces they come in, and leaves those behind
-- them ahead; when there are not so many, and only then, it fails, on the assertion of `load` that the
-- source gave something.
pub read-ahead :
    (n : ℕ) (r : BufferedReader)
    → IsFed r
    → ((length (ahead r) < n) × (read n r ≡ none))
      ⊎ ((bytes : List ℕ) × (r' : BufferedReader) × (read n r ≡ some (bytes, r'))
          × (length bytes ≡ n)
          × (ahead r ≡ bytes ++ ahead r')
          × IsFed r')
unfolding read
read-ahead n r v = read_bytes-Reads n n r (omega arith) v
