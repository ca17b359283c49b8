-- ===== src/Slice/Splitting.antt =====
-- The loop of `slice_writer::add`: a value goes into one leaf or is cut over several.
use tyrdbs.Prelude.{
  ℕ, zero, suc, ◌+◌, ◌-◌, ◌/◌, ◌^◌, ◌≤◌, ◌<◌, ◌≡◌, refl, sym, ap, ◌∙◌, inl, inr, Bool, true, false,
  ◌&&◌, Option, none, some, List, [], ◌∷◌, ◌++◌, append_assoc, map, arith, ◌==◌, ==_iff, length,
  length-drop, length-take, length-append, take, drop, take-append-drop, Bool-cases,
}
use mathlib.Core.Path.{subst}
use mathlib.Core.List.{map-append}
use tyrdbs.Prelude.Cuts.{take-all}
use tyrdbs.Prelude.Memory.{to_bytes, of_bytes, length-to_bytes}
use tyrdbs.Node.{page_size}
use tyrdbs.NodeWriter.{NodeWriter, opened, add}
use tyrdbs.NodeWriter.Layout.{Item}
use tyrdbs.NodeWriter.Adding.{needed}
use tyrdbs.NodeWriter.RoundTrip.{IsCodec}
use tyrdbs.Iterator.{Part}
use tyrdbs.SliceWriter.Entries.{SliceWriter, store_leaf, add_loop}
use tyrdbs.Slice.Read.{part_of}
use tyrdbs.Slice.Kept.{Kept-opened, IsFresh, Taken, add-Taken, add-fresh}
use tyrdbs.Slice.Writing.{IsWriting, store_leaf-LeafStored}

-- The parts are a record that was cut: all but the last have some bytes of its value and no end of
-- record, and the last one has what is left, with the flag of the record.
abbrev pub IsCut : Part → List Part → Type 0
IsCut e [] = ⊥
IsCut e (q ∷ []) = q ≡ e
IsCut e (q ∷ q' ∷ qs) =
    (rest : List ℕ) × (0 < length q.value)
    × (e.value ≡ q.value ++ rest)
    × (q ≡ record e { value = q.value; eor = false })
    × IsCut (record e { value = rest }) (q' ∷ qs)

IsCut-cons :
    (e q : Part) (rest : List ℕ) (qs : List Part)
    → 0 < length q.value
    → e.value ≡ q.value ++ rest
    → q ≡ record e { value = q.value; eor = false }
    → IsCut (record e { value = rest }) qs
    → IsCut e (q ∷ qs)
IsCut-cons e q rest [] h v same cut = absurd cut
IsCut-cons e q rest (q' ∷ qs) h v same cut = (rest, h, v, same, cut)

-- the word comes back from its bytes
pub of_bytes-to_bytes8 : (v : ℕ) → v < 2 ^ 64 → of_bytes (to_bytes 8 v) ≡ v
of_bytes-to_bytes8 v h = omega arith

module _ (compress : List ℕ → ℕ → Option (List ℕ)) (decompress : List ℕ → Option (List ℕ))
    (crc32c : List ℕ → ℕ) (codec : IsCodec compress decompress page_size) (key : List ℕ)
    (eor deleted : Bool) (idx : ℕ) (is_new : Bool) (short : length key < 1024)
    (idx_fits : idx < 2 ^ 64) where
  abbrev whole : List ℕ → Part
  whole value = record { key = key; value = value; eor = eor; deleted = deleted; idx = idx }

  -- an eighth of the value fits into a node
  abbrev HasRoom : List ℕ → Type 0
  HasRoom value = 14 + length key + length value / 8 ≤ 8126

  eight : length (to_bytes 8 idx) ≡ 8
  eight = length-to_bytes 8 idx

  room_needed : (value : List ℕ) → HasRoom value → needed key value (to_bytes 8 idx) false ≤ 8126
  room_needed value room = omega (arith, eight, short)

  abbrev answer : List ℕ → NodeWriter → Option ℕ × NodeWriter
  answer value w = add key value eor deleted (to_bytes 8 idx) false w

  abbrev loop : ℕ → List ℕ → SliceWriter → Option SliceWriter
  loop fuel value w = add_loop compress crc32c fuel key value eor deleted idx is_new w

  loop-done :
      (fuel : ℕ) (value : List ℕ) (w : SliceWriter) (p : ℕ) (leaf1 : NodeWriter)
      → answer value w.leaf ≡ (some p, leaf1)
      → (length (drop p value) == 0) ≡ true
      → loop (suc fuel) value w ≡ some (record w { leaf = leaf1 })
  unfolding add_loop
  loop-done fuel value w p leaf1 e done = rw (add_loop, e, e, done) refl

  loop-more :
      (fuel : ℕ) (value : List ℕ) (w w2 : SliceWriter) (p : ℕ) (leaf1 : NodeWriter)
      → answer value w.leaf ≡ (some p, leaf1)
      → (length (drop p value) == 0) ≡ false
      → store_leaf compress crc32c key is_new (record w { leaf = leaf1 }) ≡ some w2
      → loop (suc fuel) value w ≡ loop fuel (drop p value) w2
  unfolding add_loop
  loop-more fuel value w w2 p leaf1 e more stored = rw (add_loop, e, e, more, stored) refl

  pub loop-full :
      (fuel : ℕ) (value : List ℕ) (w w2 : SliceWriter) (leaf1 : NodeWriter)
      → answer value w.leaf ≡ (none, leaf1)
      → store_leaf compress crc32c key is_new (record w { leaf = leaf1 }) ≡ some w2
      → loop (suc fuel) value w ≡ loop fuel value w2
  unfolding add_loop
  loop-full fuel value w w2 leaf1 e stored = rw (add_loop, e, e, stored) refl

  abbrev TakenBy : (value : List ℕ) → HasRoom value → NodeWriter → List Item → Type 0
  TakenBy value room =
      Taken key value eor deleted (to_bytes 8 idx) false short eight (room_needed value room)

  abbrev piece_of : List ℕ → ℕ → Item
  piece_of value p = record {
    key = key;
    value = take p value;
    eor = eor && (length value == p);
    deleted = deleted;
    attributes = to_bytes 8 idx;
  }

  part_of-piece :
      (value : List ℕ) (p : ℕ) (all : Bool)
      → (length value == p) ≡ all
      → part_of (piece_of value p) ≡ record (whole (take p value)) { eor = eor && all }
  part_of-piece value p all e =
      ap (λ b. part_of (record (piece_of value p) { eor = eor && b })) e
      ∙ ap (λ i. record (whole (take p value)) { eor = eor && all; idx = i })
          (of_bytes-to_bytes8 idx idx_fits)

  parts_snoc :
      (stored ps : List Part) (items : List Item) (x : Item)
      → stored ++ map part_of items ≡ ps
      → stored ++ map part_of (items ++ (x ∷ [])) ≡ ps ++ (part_of x ∷ [])
  parts_snoc stored ps items x e =
      ap (λ t. stored ++ t) (map-append part_of items (x ∷ []))
      ∙ sym (append_assoc stored (map part_of items) (part_of x ∷ []))
      ∙ ap (λ t. t ++ (part_of x ∷ [])) e

  -- What the loop has done with a value: the parts that it was cut to stand behind the others.
  pub record Added (w : SliceWriter) (ps : List Part) (value : List ℕ) (result : Option SliceWriter)
      : Type 0 where
    pub added_writer : SliceWriter
    pub added_items : List Item
    pub added_pieces : List Part
    pub added_answer : result ≡ some added_writer
    pub added_writing :
        IsWriting compress decompress crc32c codec added_writer added_items (ps ++ added_pieces)
    pub added_some : 0 < length added_items
    pub added_cut : IsCut (whole value) added_pieces
    pub added_last : added_writer.last ≡ w.last
    pub added_count : added_writer.entry_count ≡ w.entry_count

  abbrev Writing : SliceWriter → List Item → List Part → Type 0
  Writing = IsWriting compress decompress crc32c codec

  and_true : (b : Bool) → (b && true) ≡ b
  and_true true = refl
  and_true false = refl

  and_false : (b : Bool) → (b && false) ≡ false
  and_false true = refl
  and_false false = refl

  taken-Writing :
      (w : SliceWriter) (items : List Item) (ps : List Part) (value : List ℕ) (room : HasRoom value)
      → Writing w items ps
      → (t : TakenBy value room w.leaf items)
      → Writing
          (record w { leaf = t.taken_writer })
          (items ++ (piece_of value t.taken_bytes ∷ []))
          (ps ++ (part_of (piece_of value t.taken_bytes) ∷ []))
  taken-Writing w items ps value room k t = record {
    leaf_kept = t.taken_kept;
    stored_parts = k.stored_parts;
    made = k.made;
    index_kept = k.index_kept;
    some_level = k.some_level;
    short_first = k.short_first;
    short_last = k.short_last;
    all_parts = parts_snoc k.stored_parts ps items (piece_of value t.taken_bytes) k.all_parts;
  }

  -- the value goes on in a fresh leaf
  abbrev GoesOn : ℕ → Type 0
  GoesOn fuel =
      (value : List ℕ)
      → (w : SliceWriter) → (ps : List Part) → HasRoom value
      → length value < fuel
      → Writing w [] ps
      → IsFresh w.leaf
      → Added w ps value (loop fuel value w)

  loop-taken :
      (fuel : ℕ) (value : List ℕ) (w : SliceWriter) (items : List Item) (ps : List Part)
      (room : HasRoom value)
      → GoesOn fuel
      → length value ≤ fuel
      → Writing w items ps
      → TakenBy value room w.leaf items
      → Added w ps value (loop (suc fuel) value w)
  loop-taken fuel value w items ps room goes_on enough k t =
      let p : ℕ = t.taken_bytes in
      let left : length (drop p value) ≡ length value - p = length-drop p value in
      let k1 = taken-Writing w items ps value room k t in
      let some_items : 0 < length (items ++ (piece_of value p ∷ [])) =
        omega (arith, length-append items (piece_of value p ∷ [])) in
      elim (Bool-cases (length (drop p value) == 0)) [
        | inl done ↦
            let e : length value ≡ p =
              omega (arith, left, (==_iff (length (drop p value)) 0).0 done, t.taken_within) in
            let same : part_of (piece_of value p) ≡ whole value =
              part_of-piece value p true ((==_iff (length value) p).1 e)
              ∙ ap (λ b. record (whole (take p value)) { eor = b }) (and_true eor)
              ∙ ap whole (take-all p value (omega (arith, e))) in
            record {
              added_writer = record w { leaf = t.taken_writer };
              added_items = items ++ (piece_of value p ∷ []);
              added_pieces = part_of (piece_of value p) ∷ [];
              added_answer = loop-done fuel value w p t.taken_writer t.taken_answer done;
              added_writing = k1;
              added_some = some_items;
              added_cut = same;
              added_last = refl;
              added_count = refl;
            }
        | inr more ↦
            let some_left : 0 < length (drop p value) = ground (arith, more) in
            let below : p < length value = omega (arith, left, some_left) in
            let large : 16 ≤ p = elim t.taken_enough [
              | inl e ↦ absurd (omega (arith, e, below))
              | inr (_, h) ↦ h
            ] in
            let s =
              store_leaf-LeafStored compress decompress crc32c codec key is_new
                (record w { leaf = t.taken_writer }) (items ++ (piece_of value p ∷ []))
                (ps ++ (part_of (piece_of value p) ∷ [])) short k1 some_items in
            let rest =
              goes_on (drop p value) s.leaf_writer (ps ++ (part_of (piece_of value p) ∷ []))
                (omega (arith, room, left)) (omega (arith, left, large, enough, below))
                s.leaf_writing s.leaf_fresh in
            let not_all : (length value == p) ≡ false = ground (arith, below) in
            let q : Part = part_of (piece_of value p) in
            let same : q ≡ record (whole value) { value = q.value; eor = false } =
              part_of-piece value p false not_all
              ∙ ap (λ b. record (whole (take p value)) { eor = b }) (and_false eor) in
            record {
              added_writer = rest.added_writer;
              added_items = rest.added_items;
              added_pieces = q ∷ rest.added_pieces;
              added_answer =
                  loop-more fuel value w s.leaf_writer p t.taken_writer t.taken_answer more
                    s.leaf_answer
                  ∙ rest.added_answer;
              added_writing =
                  subst (Writing rest.added_writer rest.added_items)
                    (append_assoc ps (q ∷ []) rest.added_pieces) rest.added_writing;
              added_some = rest.added_some;
              added_cut =
                  IsCut-cons (whole value) q (drop p value) rest.added_pieces
                    (omega (arith, length-take p value, large, below))
                    (sym (take-append-drop p value)) same rest.added_cut;
              added_last = rest.added_last ∙ s.leaf_last;
              added_count = rest.added_count ∙ s.leaf_count;
            }
      ]

  loop-fresh : (fuel : ℕ) → GoesOn fuel
  loop-fresh zero value w ps room enough k fresh = absurd (omega arith)
  loop-fresh (suc fuel) value w ps room enough k fresh =
      loop-taken fuel value w [] ps room (loop-fresh fuel) (omega arith) k (
        add-fresh key value eor deleted (to_bytes 8 idx) false short eight (room_needed value room)
          w.leaf fresh)

  -- The loop takes the whole value, with fuel above its length by two: a leaf without room is stored,
  -- and every fresh leaf takes some of the value.
  pub add_loop-Added :
      (fuel : ℕ) (value : List ℕ) (w : SliceWriter) (items : List Item) (ps : List Part)
      → HasRoom value
      → length value + 1 < fuel
      → Writing w items ps
      → Added w ps value (loop fuel value w)
  add_loop-Added zero value w items ps room enough k = absurd (omega arith)
  add_loop-Added (suc fuel) value w items ps room enough k =
      elim (add-Taken key value eor deleted (to_bytes 8 idx) false short eight
        (room_needed value room) w.leaf items k.leaf_kept) [
          | inr t ↦ loop-taken fuel value w items ps room (loop-fresh fuel) (omega arith) k t
          | inl (some_items, refused, full) ↦
              let k1 : Writing (record w { leaf = opened w.leaf }) items ps = record {
                leaf_kept = Kept-opened w.leaf items k.leaf_kept;
                stored_parts = k.stored_parts;
                made = k.made;
                index_kept = k.index_kept;
                some_level = k.some_level;
                short_first = k.short_first;
                short_last = k.short_last;
                all_parts = k.all_parts;
              } in
              let s =
                store_leaf-LeafStored compress decompress crc32c codec key is_new
                  (record w { leaf = opened w.leaf }) items ps short k1 some_items in
              let rest =
                loop-fresh fuel value s.leaf_writer ps room (omega arith) s.leaf_writing
                  s.leaf_fresh in
              record {
                added_writer = rest.added_writer;
                added_items = rest.added_items;
                added_pieces = rest.added_pieces;
                added_answer =
                    loop-full fuel value w s.leaf_writer (opened w.leaf) refused s.leaf_answer
                    ∙ rest.added_answer;
                added_writing = rest.added_writing;
                added_some = rest.added_some;
                added_cut = rest.added_cut;
                added_last = rest.added_last ∙ s.leaf_last;
                added_count = rest.added_count ∙ s.leaf_count;
              }
        ]
