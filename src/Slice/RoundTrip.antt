-- ===== src/Slice/RoundTrip.antt =====
-- Nodes that are stored into a new file and read by the iterator of a slice over that file.
use tyrdbs.Prelude.{
  ◌%◌, ◌^◌, ℕ, zero, suc, ◌+◌, ◌*◌, ◌≤◌, ◌<◌, ◌≡◌, ◌≢◌, refl, sym, ap, ◌∙◌, Bool, true, false,
  Option, some, List, ◌∷◌, ◌++◌, map, arith, ◌==◌, length, Every, drop, length-append,
}
use mathlib.Core.Path.{subst}
use tyrdbs.Prelude.Memory.{to_bytes}
use tyrdbs.Node.{Node, page_size, set_next, get_next}
use tyrdbs.Location.{location, location_of, size, to_uint, invalid_size, max_size}
use tyrdbs.Location.Fields.{location_of-size, size-eq}
use tyrdbs.NodeWriter.Layout.{Item}
use tyrdbs.NodeWriter.RoundTrip.{IsCodec}
use tyrdbs.SliceWriter.Store.{SliceFile, slice_file}
use tyrdbs.Iterator.{Part}
use tyrdbs.Slice.{Slice, SliceIterator, slice_iterator, load_at, begin, next, read_parts}
use tyrdbs.Slice.Load.{
  IsBounded, IsChecksum, Stored, store-Stored, linked, place_of, next_behind, IsLoadable,
}
use tyrdbs.Slice.Chain.{
  Filled, IsFilled, Reads, IsEnd, HasFirst, store_all, store_all-cons, store_all-Followed,
  Stored-Reads,
}
use tyrdbs.Slice.Read.{
  IsReadable, Inside, Inside-part, leaf_parts, part_of, standing, read_parts-standing,
  read_parts-more,
}

linked_first :
    (page : List ℕ) (leaf : Bool)
    → linked page leaf slice_file
      ≡ record slice_file { first_node_size = size (length page) (to_uint leaf) }
unfolding linked slice_file
linked_first page leaf = refl

word_valid : (s : ℕ) (leaf : Bool) → s < max_size → size s (to_uint leaf) ≢ invalid_size
word_valid s true h e = absurd (omega (arith, e, size-eq s true (omega arith)))
word_valid s false h e = absurd (omega (arith, e, size-eq s false (omega arith)))

leaf_parts-leaf :
    (x : Filled) (xs : List Filled)
    → x.filled_leaf ≡ true
    → leaf_parts (x ∷ xs) ≡ map part_of x.filled_items ++ leaf_parts xs
leaf_parts-leaf x xs leaf = rw leaf refl

-- A slice over a file, whatever its root is.
abbrev pub slice_over : (bytes : List ℕ) → (key_count root : ℕ) → SliceFile → Slice
slice_over bytes key_count root f = record {
  slice_bytes = bytes;
  slice_key_count = key_count;
  slice_root = root;
  slice_first_node_size = f.first_node_size;
}

module _ (compress : List ℕ → ℕ → Option (List ℕ)) (decompress : List ℕ → Option (List ℕ))
    (crc32c : List ℕ → ℕ) (codec : IsCodec compress decompress page_size)
    (bounded : IsBounded compress) (checksum : IsChecksum crc32c) where
  -- what is known of the file when its first node, a leaf, is stored
  module _ (x : Filled) (at : ℕ) (f : SliceFile)
      (s : Stored compress decompress crc32c codec bounded checksum x.filled_items true slice_file
        at f) where
    first_size : f.first_node_size ≡ size (length s.stored_page) 1
    first_size = s.first_after ∙ ap (λ g. g.first_node_size) (linked_first s.stored_page true)

    pub first-HasFirst : HasFirst f
    first-HasFirst e = word_valid (length s.stored_page) true s.page_fits (sym first_size ∙ e)

    first_place : location_of 0 f.first_node_size ≡ at
    unfolding place_of slice_file
    first_place =
        ap (location_of 0) first_size
        ∙ location_of-size 0 (length s.stored_page) true (omega arith) s.page_fits
        ∙ ap (λ g. location (length g.file % 2 ^ 32) (length s.stored_page) true)
            (sym (linked_first s.stored_page true))
        ∙ sym s.at_place

    first_length : length f.file ≤ 0x8006
    unfolding slice_file
    first_length = omega (
      arith,
      ap length (
          s.file_after
          ∙ ap (λ g. g.file ++ (to_bytes 4 (crc32c s.stored_page) ++ s.stored_page))
              (linked_first s.stored_page true)),
      s.page_fits,
    )

  begin-load :
      (sl : Slice) (n : Node)
      → 0 < sl.slice_key_count
      → load_at decompress crc32c sl.slice_bytes (location_of 0 sl.slice_first_node_size) ≡ some n
      → begin decompress crc32c sl ≡ some (some (slice_iterator n 0))
  unfolding begin
  begin-load sl n h l =
      let some_keys : (sl.slice_key_count == 0) ≡ false = ground (arith, h) in
      rw (some_keys, load_at, l) refl

  read_parts-begin :
      (fuel : ℕ) (bytes : List ℕ) (n : Node) (items : List Item) (xs : List Filled)
      → Inside decompress crc32c bytes n items xs
      → 0 < length items
      → length (map part_of items ++ leaf_parts xs) < fuel
      → read_parts decompress crc32c fuel bytes (slice_iterator n 0)
        ≡ some (map part_of items ++ leaf_parts xs)
  unfolding next slice_iterator
  read_parts-begin zero bytes n items xs inside some_items enough = absurd (omega arith)
  read_parts-begin (suc fuel) bytes n items xs inside some_items enough =
      let (item, here, cut) = Inside-part decompress crc32c bytes n items xs inside 0 some_items in
      let rest : List Part = map part_of (drop 1 items) ++ leaf_parts xs in
      let e : map part_of items ++ leaf_parts xs ≡ part_of item ∷ rest =
        ap (λ t. map part_of t ++ leaf_parts xs) cut in
      read_parts-more decompress crc32c bytes fuel (slice_iterator n 0) (standing n 0)
        (part_of item) rest refl here
        (read_parts-standing decompress crc32c bytes fuel n items xs 0 inside some_items
          (omega (arith, ap length e)))
      ∙ ap some (sym e)

  -- Node writers that each contain one item or more, those of the leaves with an index of eight
  -- bytes, are stored one after the other into a new file, a leaf first, and the file goes on with
  -- the mark that no node follows: no store fails, and when no page is too large to load, a slice
  -- with keys over that file has an iterator that gives the items of all leaves, in the order in
  -- which they were stored, and then ends, with fuel above their number. The codec is one that
  -- gives back what it compressed, into pages that fit, the checksum has 32 bits and the file stays
  -- below 2 ^ 32 bytes.
  pub store_all-read :
      (x : Filled) (xs : List Filled) (rest : List ℕ) (key_count root : ℕ)
      → x.filled_leaf ≡ true
      → Every IsFilled (x ∷ xs)
      → Every IsReadable (x ∷ xs)
      → 0x8006 * (1 + length xs) + 2 < 2 ^ 32
      → IsEnd rest
      → 0 < key_count
      → (f : SliceFile) × (store_all compress crc32c (x ∷ xs) slice_file ≡ some f)
        × (IsLoadable f
            → (it : SliceIterator) × (begin decompress crc32c
                  (slice_over (f.file ++ rest) key_count root f)
                ≡ some (some it))
              × ((fuel : ℕ)
                  → length (leaf_parts (x ∷ xs)) < fuel
                  → read_parts decompress crc32c fuel (f.file ++ rest) it
                    ≡ some (leaf_parts (x ∷ xs))))
  unfolding store_all set_next get_next slice_file
  store_all-read x xs rest key_count root leaf (hx, hxs) (rx, rxs) room end some_keys =
      let (at, nw, f1, e, s0, flushed) =
        store-Stored compress decompress crc32c codec bounded checksum x.filled_writer
          x.filled_items x.filled_leaf slice_file hx.filled_contains (omega arith) in
      let s : Stored compress decompress crc32c codec bounded checksum x.filled_items true
          slice_file at f1 =
        subst
          (λ b.
            Stored compress decompress crc32c codec bounded checksum x.filled_items b slice_file at
              f1)
          leaf s0 in
      let (f, done, first, longer, before, follow) =
        store_all-Followed compress decompress crc32c codec bounded checksum xs f1 hxs
          (first-HasFirst x at f1 s) (omega (arith, first_length x at f1 s)) in
      (
        f,
        store_all-cons compress crc32c x xs slice_file f1 at nw e ∙ done,
        λ loadable.
            let after = follow rest end loadable in
            let bytes : List ℕ = f.file ++ rest in
            let n : Node = set_next (next_behind (length f1.file) after.tail) s0.stored_node in
            let r : Reads decompress crc32c bytes at x n =
              Stored-Reads compress decompress crc32c codec bounded checksum x slice_file at f1 s0
                after.tail bytes after.tail_behind (before loadable) in
            let inside : Inside decompress crc32c bytes n x.filled_items xs = record {
              inside_count = r.reads_count;
              inside_holds = r.reads_items;
              inside_idx = rx.readable_idx;
              inside_linked = after.tail_linked;
              inside_readable = rxs;
              inside_length = omega (arith, longer, length-append f.file rest);
            } in
            (
              slice_iterator n 0,
              begin-load (slice_over bytes key_count root f) n some_keys (
                  ap (load_at decompress crc32c bytes)
                    (ap (location_of 0) first ∙ first_place x at f1 s)
                  ∙ r.reads_node),
              subst
                  (λ ps.
                    (fuel : ℕ)
                    → length ps < fuel
                    → read_parts decompress crc32c fuel bytes (slice_iterator n 0) ≡ some ps)
                  (sym (leaf_parts-leaf x xs leaf))
                  (λ fuel enough.
                    read_parts-begin fuel bytes n x.filled_items xs inside rx.readable_some enough),
            ),
      )
