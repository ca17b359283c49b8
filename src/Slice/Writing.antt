-- ===== src/Slice/Writing.antt =====
-- What a slice writer has in its file, its leaf and its index between two calls.
use tyrdbs.Prelude.{
  ℕ, ◌<◌, ◌≡◌, refl, sym, ap, ◌∙◌, ◌⊎◌, inl, inr, Bool, true, false, Option, some, List, [], ◌∷◌,
  ◌++◌, append_assoc, append-nil, map, arith, ◌==◌, length, Every, Every-imp, Every-append,
  Bool-cases, if◌then◌else◌,
}
use mathlib.Core.Path.{subst}
use tyrdbs.Node.{page_size}
use tyrdbs.NodeWriter.{NodeWriter}
use tyrdbs.NodeWriter.Layout.{Item}
use tyrdbs.NodeWriter.RoundTrip.{IsCodec}
use tyrdbs.Iterator.{Part}
use tyrdbs.SliceWriter.Store.{SliceFile, slice_file, store}
use tyrdbs.SliceWriter.Index.{IndexLevel, index_add}
use tyrdbs.SliceWriter.Entries.{SliceWriter, store_leaf}
use tyrdbs.Slice.Chain.{Filled, IsFilled, store_all, store_all-cons, store_all-append}
use tyrdbs.Slice.Read.{IsReadable, leaf_parts, part_of}
use tyrdbs.Slice.Kept.{Kept, IsFresh, fresh-Kept, store-Stores}
use tyrdbs.Slice.Indexing.{LevelKept, IsIndexNode, index_add-Indexed}

leaf_parts-append : (xs ys : List Filled) → leaf_parts (xs ++ ys) ≡ leaf_parts xs ++ leaf_parts ys
leaf_parts-append [] ys = refl
leaf_parts-append (x ∷ xs) ys = elim (Bool-cases x.filled_leaf) [
  | inl e ↦ rw e (
      ap (λ t. map part_of x.filled_items ++ t) (leaf_parts-append xs ys)
      ∙ sym (append_assoc (map part_of x.filled_items) (leaf_parts xs) (leaf_parts ys)))
  | inr e ↦ rw e (leaf_parts-append xs ys)
]

leaf_parts-index : (xs : List Filled) → Every IsIndexNode xs → leaf_parts xs ≡ []
leaf_parts-index [] h = refl
leaf_parts-index (x ∷ xs) (h, hs) =
    let e : x.filled_leaf ≡ false = h.node_index in rw e (leaf_parts-index xs hs)

module _ (compress : List ℕ → ℕ → Option (List ℕ)) (decompress : List ℕ → Option (List ℕ))
    (crc32c : List ℕ → ℕ) (codec : IsCodec compress decompress page_size) where
  -- The file is what a leaf and other nodes were stored to, and these are the parts of its leaves.
  pub record Begun (f : SliceFile) (ps : List Part) : Type 0 where
    pub first_leaf : Filled
    pub others : List Filled
    pub first_is_leaf : first_leaf.filled_leaf ≡ true
    pub all_filled : Every IsFilled (first_leaf ∷ others)
    pub all_readable : Every IsReadable (first_leaf ∷ others)
    pub all_stored : store_all compress crc32c (first_leaf ∷ others) slice_file ≡ some f
    pub parts_stored : leaf_parts (first_leaf ∷ others) ≡ ps

  abbrev pub Made : SliceFile → List Part → Type 0
  Made f ps = ((f ≡ slice_file) × (ps ≡ [])) ⊎ Begun f ps

  Begun-more :
      (xs : List Filled) (f f' : SliceFile) (ps : List Part)
      → Begun f ps
      → Every IsFilled xs
      → Every IsReadable xs
      → store_all compress crc32c xs f ≡ some f'
      → Begun f' (ps ++ leaf_parts xs)
  Begun-more xs f f' ps b filled readable stored = record {
    first_leaf = b.first_leaf;
    others = b.others ++ xs;
    first_is_leaf = b.first_is_leaf;
    all_filled = Every-append IsFilled (b.first_leaf ∷ b.others) xs b.all_filled filled;
    all_readable = Every-append IsReadable (b.first_leaf ∷ b.others) xs b.all_readable readable;
    all_stored =
        store_all-append compress crc32c (b.first_leaf ∷ b.others) xs slice_file f b.all_stored
        ∙ stored;
    parts_stored =
        leaf_parts-append (b.first_leaf ∷ b.others) xs
        ∙ ap (λ t. t ++ leaf_parts xs) b.parts_stored;
  }

  pub Begun-index :
      (xs : List Filled) (f f' : SliceFile) (ps : List Part)
      → Begun f ps
      → Every IsIndexNode xs
      → store_all compress crc32c xs f ≡ some f'
      → Begun f' ps
  Begun-index xs f f' ps b index stored =
      subst (Begun f') (ap (λ t. ps ++ t) (leaf_parts-index xs index) ∙ append-nil ps) (
        Begun-more xs f f' ps b (Every-imp IsIndexNode IsFilled (λ x h. h.node_filled) xs index)
          (Every-imp IsIndexNode IsReadable (λ x h. h.node_readable) xs index) stored)

  pub Made-leaf :
      (w nw : NodeWriter) (items : List Item) (f f' : SliceFile) (at : ℕ) (ps : List Part)
      → Made f ps
      → Kept w items
      → 0 < length items
      → store compress crc32c w true f ≡ some (at, nw, f')
      → Begun f' (ps ++ map part_of items)
  unfolding store_all
  Made-leaf w nw items f f' at ps made k some_items stored =
      let x : Filled = record { filled_writer = w; filled_items = items; filled_leaf = true } in
      let filled : IsFilled x = record {
        filled_contains = k.kept_contains;
        filled_some = some_items;
      } in
      let readable : IsReadable x = record {
        readable_some = some_items;
        readable_idx = k.kept_idx;
      } in
      let one : store_all compress crc32c (x ∷ []) f ≡ some f' =
        store_all-cons compress crc32c x [] f f' at nw stored in
      elim made [
        | inl (empty, no_parts) ↦ record {
          first_leaf = x;
          others = [];
          first_is_leaf = refl;
          all_filled = (filled, tt);
          all_readable = (readable, tt);
          all_stored = ap (store_all compress crc32c (x ∷ [])) (sym empty) ∙ one;
          parts_stored =
              append-nil (map part_of items) ∙ ap (λ t. t ++ map part_of items) (sym no_parts);
        }
        | inr b ↦
            subst (Begun f') (ap (λ t. ps ++ t) (append-nil (map part_of items)))
              (Begun-more (x ∷ []) f f' ps b (filled, tt) (readable, tt) one)
      ]

  -- The writer with the items of its leaf, and the parts that it has taken so far.
  pub record IsWriting (w : SliceWriter) (items : List Item) (ps : List Part) : Type 0 where
    pub leaf_kept : Kept w.leaf items
    pub stored_parts : List Part
    pub made : Made w.slice stored_parts
    pub index_kept : Every LevelKept w.index
    pub some_level : 0 < length w.index
    pub short_first : length w.first_key < 1024
    pub short_last : length w.last.last_key < 1024
    pub all_parts : stored_parts ++ map part_of items ≡ ps

  pub record LeafStored (w : SliceWriter) (ps : List Part) (answer : Option SliceWriter)
      : Type 0 where
    pub leaf_writer : SliceWriter
    pub leaf_answer : answer ≡ some leaf_writer
    pub leaf_writing : IsWriting leaf_writer [] ps
    pub leaf_fresh : IsFresh leaf_writer.leaf
    pub leaf_last : leaf_writer.last ≡ w.last
    pub leaf_count : leaf_writer.entry_count ≡ w.entry_count

  pub store_leaf-plain :
      (key : List ℕ) (is_new : Bool) (w : SliceWriter) (at : ℕ) (nw : NodeWriter) (f : SliceFile)
      → store compress crc32c w.leaf true w.slice ≡ some (at, nw, f)
      → (length w.first_key == 0) ≡ true
      → store_leaf compress crc32c key is_new w ≡ some (record w { leaf = nw; slice = f })
  unfolding store_leaf
  store_leaf-plain key is_new w at nw f e none_yet = rw (store_leaf, e, none_yet) refl

  pub store_leaf-indexed :
      (key : List ℕ) (is_new : Bool) (w : SliceWriter) (at : ℕ) (nw : NodeWriter) (f f' : SliceFile)
      (levels : List IndexLevel)
      → store compress crc32c w.leaf true w.slice ≡ some (at, nw, f)
      → (length w.first_key == 0) ≡ false
      → index_add compress crc32c w.first_key w.last.last_key at w.index f ≡ some (levels, f')
      → store_leaf compress crc32c key is_new w
        ≡ some (record w {
          leaf = nw;
          slice = f';
          index = levels;
          first_key = if is_new then key else [];
        })
  unfolding store_leaf
  store_leaf-indexed key is_new w at nw f f' levels e some_first up =
      rw (store_leaf, e, some_first, up) refl

  short_if :
      (key : List ℕ) (is_new : Bool)
      → length key < 1024
      → length (if is_new then key else []) < 1024
  short_if key true h = h
  short_if key false h = omega arith

  pub store_leaf-LeafStored :
      (key : List ℕ) (is_new : Bool) (w : SliceWriter) (items : List Item) (ps : List Part)
      → length key < 1024
      → IsWriting w items ps
      → 0 < length items
      → LeafStored w ps (store_leaf compress crc32c key is_new w)
  store_leaf-LeafStored key is_new w items ps short k some_items =
      let s = store-Stores compress decompress crc32c codec w.leaf items true w.slice k.leaf_kept in
      let begun : Begun s.stores_file ps = subst (Begun s.stores_file) k.all_parts (
        Made-leaf w.leaf s.stores_writer items w.slice s.stores_file s.stores_at k.stored_parts
          k.made k.leaf_kept some_items s.stores_answer) in
      elim (Bool-cases (length w.first_key == 0)) [
        | inl none_yet ↦ record {
          leaf_writer = record w { leaf = s.stores_writer; slice = s.stores_file };
          leaf_answer =
              store_leaf-plain key is_new w s.stores_at s.stores_writer s.stores_file
                s.stores_answer none_yet;
          leaf_writing = record {
            leaf_kept = fresh-Kept s.stores_writer s.stores_fresh;
            stored_parts = ps;
            made = inr begun;
            index_kept = k.index_kept;
            some_level = k.some_level;
            short_first = k.short_first;
            short_last = k.short_last;
            all_parts = append-nil ps;
          };
          leaf_fresh = s.stores_fresh;
          leaf_last = refl;
          leaf_count = refl;
        }
        | inr some_first ↦
            let up =
              index_add-Indexed compress decompress crc32c codec w.index w.first_key w.last.last_key
                s.stores_at s.stores_file k.short_first k.short_last k.index_kept in
            record {
              leaf_writer = record w {
                leaf = s.stores_writer;
                slice = up.new_file;
                index = up.new_levels;
                first_key = if is_new then key else [];
              };
              leaf_answer =
                  store_leaf-indexed key is_new w s.stores_at s.stores_writer s.stores_file
                    up.new_file up.new_levels s.stores_answer some_first up.indexed_answer;
              leaf_writing = record {
                leaf_kept = fresh-Kept s.stores_writer s.stores_fresh;
                stored_parts = ps;
                made = inr (
                    Begun-index up.nodes s.stores_file up.new_file ps begun up.nodes_index
                      up.nodes_stored);
                index_kept = up.levels_kept;
                some_level = elim up.growth [
                  | inl same ↦ omega (arith, same, k.some_level)
                  | inr (grown, light) ↦ omega (arith, grown)
                ];
                short_first = short_if key is_new short;
                short_last = k.short_last;
                all_parts = append-nil ps;
              };
              leaf_fresh = s.stores_fresh;
              leaf_last = refl;
              leaf_count = refl;
            }
      ]
