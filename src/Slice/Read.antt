-- ===== src/Slice/Read.antt =====
-- What a slice iterator reads from nodes that lie one after the other.
use tyrdbs.Prelude.{
  ℕ, zero, suc, ◌+◌, ◌≤◌, ◌<◌, ◌≡◌, refl, sym, ap, ◌∙◌, ◌⊎◌, inl, inr, Bool, true, false, Option,
  none, some, List, [], ◌∷◌, ◌++◌, map, arith, ◌==◌, ==_iff, length, get_elem?, Every,
  if◌then◌else◌, Bool-cases, drop, dec_lt, Every-get_elem?,
}
use tyrdbs.Prelude.Cuts.{drop-all, drop-cons}
use tyrdbs.Prelude.Memory.{of_bytes}
use tyrdbs.Node.{Node, get_next, key_count, attributes_at}
use tyrdbs.Location.{is_leaf_from, is_valid}
use tyrdbs.NodeWriter.Layout.{Item, Holds}
use tyrdbs.Iterator.{Part}
use tyrdbs.Slice.{SliceIterator, load_at, load_next, next, part_at, read_parts}
use tyrdbs.Slice.Chain.{Filled, Linked}

-- an item of a leaf as an iterator gives it
abbrev pub part_of : Item → Part
part_of item = record {
  key = item.key;
  value = item.value;
  eor = item.eor;
  deleted = item.deleted;
  idx = of_bytes item.attributes;
}

-- the parts of the leaves, the index nodes left out
abbrev pub leaf_parts : List Filled → List Part
leaf_parts [] = []
leaf_parts (x ∷ xs) =
    if x.filled_leaf then map part_of x.filled_items ++ leaf_parts xs else leaf_parts xs

abbrev pub HasIdx : Item → Type 0
HasIdx item = length item.attributes ≡ 8

-- the items of a node that an iterator may stand on
pub record IsReadable (x : Filled) : Type 0 where
  pub readable_some : 0 < length x.filled_items
  pub readable_idx : Every HasIdx x.filled_items

Holds-part :
    (n : Node) (i : ℕ) (item : Item) (it : SliceIterator)
    → Holds n i item
    → HasIdx item
    → it.at_node ≡ n
    → it.ndx ≡ i
    → part_at it ≡ part_of item
unfolding part_at
Holds-part n i item it h idx en ei =
    let attributes : attributes_at 8 n i ≡ item.attributes =
      ap (λ s. attributes_at s n i) (sym idx) ∙ h.holds_attributes in
    rw (en, ei, h.holds_key, h.holds_value, h.holds_eor, h.holds_deleted, attributes) refl

-- an iterator that a `next` has left at an entry
abbrev pub standing : Node → ℕ → SliceIterator
standing n i = record { ended = false; started = true; at_node = n; ndx = i }

module _ (decompress : List ℕ → Option (List ℕ)) (crc32c : List ℕ → ℕ) (bytes : List ℕ) where
  -- the next leaf that `load_next` finds, and what is behind it
  pub record NextLeaf (xs : List Filled) (n : Node) : Type 0 where
    pub next_leaf : Filled
    pub next_others : List Filled
    pub next_reads :
        (key_count n ≡ length next_leaf.filled_items)
        × ((i : ℕ)
            → (item : Item) → get_elem? next_leaf.filled_items i ≡ some item
            → Holds n i item)
    pub next_linked : Linked decompress crc32c bytes (get_next n) next_others
    pub next_parts : leaf_parts xs ≡ map part_of next_leaf.filled_items ++ leaf_parts next_others
    pub next_shorter : length next_others < length xs
    pub next_readable : IsReadable next_leaf × Every IsReadable next_others

  load_next-step :
      (fuel : ℕ) (n n' : Node) (leaf : Bool)
      → is_valid (get_next n) ≡ true
      → load_at decompress crc32c bytes (get_next n) ≡ some n'
      → is_leaf_from (get_next n) ≡ leaf
      → load_next decompress crc32c (suc fuel) bytes n
        ≡ (if leaf then some (some n') else load_next decompress crc32c fuel bytes n')
  unfolding load_next
  load_next-step fuel n n' leaf v l e = rw (v, load_at, l, e) refl

  load_next-cases :
      (fuel : ℕ) (xs : List Filled) (n : Node)
      → Linked decompress crc32c bytes (get_next n) xs
      → Every IsReadable xs
      → length xs < fuel
      → ((load_next decompress crc32c fuel bytes n ≡ some none) × (leaf_parts xs ≡ []))
        ⊎ ((n' : Node) × (load_next decompress crc32c fuel bytes n ≡ some (some n'))
            × NextLeaf xs n')
  unfolding load_next
  load_next-cases zero xs n l h enough = absurd (omega arith)
  load_next-cases (suc fuel) [] n invalid h enough = inl (rw invalid refl, refl)
  load_next-cases (suc fuel) (x ∷ xs) n (n', r, l) (hx, hxs) enough =
      elim (Bool-cases x.filled_leaf) [
        | inl leaf ↦ inr (
          n',
          load_next-step fuel n n' true r.reads_valid r.reads_node (r.reads_leaf ∙ leaf),
          record {
            next_leaf = x;
            next_others = xs;
            next_reads = (r.reads_count, r.reads_items);
            next_linked = l;
            next_parts = rw leaf refl;
            next_shorter = omega arith;
            next_readable = (hx, hxs);
          },
        )
        | inr index ↦
            let step =
              load_next-step fuel n n' false r.reads_valid r.reads_node (r.reads_leaf ∙ index) in
            elim (load_next-cases fuel xs n' l hxs (omega arith)) [
              | inl (none_there, no_parts) ↦ inl (step ∙ none_there, rw index no_parts)
              | inr (n'', found, y) ↦ inr (
                n'',
                step ∙ found,
                record {
                  next_leaf = y.next_leaf;
                  next_others = y.next_others;
                  next_reads = y.next_reads;
                  next_linked = y.next_linked;
                  next_parts = rw index y.next_parts;
                  next_shorter = omega (arith, y.next_shorter);
                  next_readable = y.next_readable;
                },
              )
            ]
      ]

  -- what `read_parts` does with the answer of `next`
  abbrev on_answer : (fuel : ℕ) → Option (Bool × SliceIterator) → Option (List Part)
  on_answer fuel none = none
  on_answer fuel (some (more, it)) =
      let rest = read_parts decompress crc32c fuel bytes it in
      if more then (elim rest [ none ↦ none | some ps ↦ some (part_at it ∷ ps) ]) else some []

  read_parts-answer :
      (fuel : ℕ) (it : SliceIterator) (answer : Option (Bool × SliceIterator))
      → next decompress crc32c bytes it ≡ answer
      → read_parts decompress crc32c (suc fuel) bytes it ≡ on_answer fuel answer
  unfolding read_parts
  read_parts-answer fuel it none e = rw (read_parts, e) refl
  read_parts-answer fuel it (some (more, it')) e = rw (read_parts, e) refl

  pub read_parts-more :
      (fuel : ℕ) (it it' : SliceIterator) (p : Part) (ps : List Part)
      → next decompress crc32c bytes it ≡ some (true, it')
      → part_at it' ≡ p
      → read_parts decompress crc32c fuel bytes it' ≡ some ps
      → read_parts decompress crc32c (suc fuel) bytes it ≡ some (p ∷ ps)
  read_parts-more fuel it it' p ps more here others =
      read_parts-answer fuel it (some (true, it')) more ∙ rw (others, here) refl

  read_parts-stop :
      (fuel : ℕ) (it it' : SliceIterator)
      → next decompress crc32c bytes it ≡ some (false, it')
      → read_parts decompress crc32c (suc fuel) bytes it ≡ some []
  read_parts-stop fuel it it' stop = read_parts-answer fuel it (some (false, it')) stop

  -- the three ways of a `next` that has started
  next-within :
      (n : Node) (i count : ℕ)
      → key_count n ≡ count
      → i + 1 < count
      → next decompress crc32c bytes (standing n i) ≡ some (true, standing n (i + 1))
  unfolding next
  next-within n i count e h = let ne : (i + 1 == count) ≡ false = ground arith in rw (e, ne) refl

  next-leaf :
      (n n' : Node) (i count : ℕ)
      → key_count n ≡ count
      → i + 1 ≡ count
      → load_next decompress crc32c (length bytes + 1) bytes n ≡ some (some n')
      → next decompress crc32c bytes (standing n i) ≡ some (true, standing n' 0)
  unfolding next
  next-leaf n n' i count e h l =
      let eq : (i + 1 == count) ≡ true = (==_iff (i + 1) count).1 h in rw (e, eq, load_next, l) refl

  next-end :
      (n : Node) (i count : ℕ)
      → key_count n ≡ count
      → i + 1 ≡ count
      → load_next decompress crc32c (length bytes + 1) bytes n ≡ some none
      → next decompress crc32c bytes (standing n i)
        ≡ some (false, record (standing n i) { ended = true })
  unfolding next
  next-end n i count e h l =
      let eq : (i + 1 == count) ≡ true = (==_iff (i + 1) count).1 h in rw (e, eq, load_next, l) refl

  -- the node that an iterator stands in, and the nodes behind it
  pub record Inside (n : Node) (items : List Item) (xs : List Filled) : Type 0 where
    pub inside_count : key_count n ≡ length items
    pub inside_holds : (i : ℕ) → (item : Item) → get_elem? items i ≡ some item → Holds n i item
    pub inside_idx : Every HasIdx items
    pub inside_linked : Linked decompress crc32c bytes (get_next n) xs
    pub inside_readable : Every IsReadable xs
    pub inside_length : length xs ≤ length bytes

  pub Inside-part :
      (n : Node) (items : List Item) (xs : List Filled)
      → Inside n items xs
      → (i : ℕ) → i < length items
      → (item : Item) × (part_at (standing n i) ≡ part_of item)
        × (drop i items ≡ item ∷ drop (suc i) items)
  Inside-part n items xs h i below =
      let (item, e, d) = drop-cons i items below in
      (
        item,
        Holds-part n i item (standing n i) (h.inside_holds i item e)
            (Every-get_elem? HasIdx items i item h.inside_idx e) refl refl,
        d,
      )

  -- What is read behind an entry: the other items of its node, and those of the leaves behind.
  pub read_parts-standing :
      (fuel : ℕ) (n : Node) (items : List Item) (xs : List Filled) (i : ℕ)
      → Inside n items xs
      → i < length items
      → length (map part_of (drop (suc i) items) ++ leaf_parts xs) < fuel
      → read_parts decompress crc32c fuel bytes (standing n i)
        ≡ some (map part_of (drop (suc i) items) ++ leaf_parts xs)
  read_parts-standing zero n items xs i h below enough = absurd (omega arith)
  read_parts-standing (suc fuel) n items xs i h below enough =
      elim (dec_lt (i + 1) (length items)) [
        | yes within ↦
            let (item, here, cut) = Inside-part n items xs h (suc i) (omega (arith, within)) in
            let e : map part_of (drop (suc i) items) ++ leaf_parts xs
                ≡ part_of item ∷ (map part_of (drop (suc (suc i)) items) ++ leaf_parts xs) =
              ap (λ t. map part_of t ++ leaf_parts xs) cut in
            read_parts-more fuel (standing n i) (standing n (suc i)) (part_of item)
              (map part_of (drop (suc (suc i)) items) ++ leaf_parts xs)
              (next-within n i (length items) h.inside_count within
                ∙ ap (λ j. some (true, standing n j)) {x = i + 1} {y = suc i} (omega arith))
              here
              (read_parts-standing fuel n items xs (suc i) h (omega (arith, within))
                (omega (arith, ap length e)))
            ∙ ap some (sym e)
        | no beyond ↦
            let last : i + 1 ≡ length items = omega arith in
            let e : map part_of (drop (suc i) items) ++ leaf_parts xs ≡ leaf_parts xs =
              ap (λ t. map part_of t ++ leaf_parts xs) (drop-all (suc i) items (omega arith)) in
            elim (load_next-cases (length bytes + 1) xs n h.inside_linked h.inside_readable
              (omega (arith, h.inside_length))) [
                | inl (nothing, no_parts) ↦
                    read_parts-stop fuel (standing n i) (record (standing n i) { ended = true })
                      (next-end n i (length items) h.inside_count last nothing)
                    ∙ ap some (sym (e ∙ no_parts))
                | inr (n', found, y) ↦
                    let inside : Inside n' y.next_leaf.filled_items y.next_others = record {
                      inside_count = y.next_reads.0;
                      inside_holds = y.next_reads.1;
                      inside_idx = y.next_readable.0.readable_idx;
                      inside_linked = y.next_linked;
                      inside_readable = y.next_readable.1;
                      inside_length = omega (arith, y.next_shorter, h.inside_length);
                    } in
                    let first : 0 < length y.next_leaf.filled_items =
                      y.next_readable.0.readable_some in
                    let (item, here, cut) =
                      Inside-part n' y.next_leaf.filled_items y.next_others inside 0 first in
                    let all : map part_of (drop (suc i) items) ++ leaf_parts xs
                        ≡ part_of item
                          ∷ (map part_of (drop 1 y.next_leaf.filled_items)
                              ++ leaf_parts y.next_others) =
                      e ∙ y.next_parts ∙ ap (λ t. map part_of t ++ leaf_parts y.next_others) cut in
                    read_parts-more fuel (standing n i) (standing n' 0) (part_of item)
                      (map part_of (drop 1 y.next_leaf.filled_items) ++ leaf_parts y.next_others)
                      (next-leaf n n' i (length items) h.inside_count last found) here
                      (read_parts-standing fuel n' y.next_leaf.filled_items y.next_others 0 inside
                        first (omega (arith, ap length all)))
                    ∙ ap some (sym all)
              ]
      ]
