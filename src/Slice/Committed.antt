-- ===== src/Slice/Committed.antt =====
-- A slice that was written, flushed and committed gives back what went into it.
use tyrdbs.Prelude.{
  ℕ, ◌^◌, ◌+◌, ◌<◌, ◌≡◌, refl, sym, ap, ◌∙◌, inl, inr, true, Option, some, List, [], ◌∷◌, ◌++◌,
  append_assoc, append-nil, arith, ◌==◌, length, Every, Bool-cases, if◌then◌else◌, replicate, ◌-◌,
  ◌%◌,
}
use mathlib.Core.Path.{subst}
use tyrdbs.Prelude.Memory.{to_bytes}
use tyrdbs.Node.{Node, page_size}
use tyrdbs.Location.{invalid_size}
use tyrdbs.NodeWriter.{NodeWriter}
use tyrdbs.NodeWriter.Layout.{Item}
use tyrdbs.NodeWriter.RoundTrip.{IsCodec}
use tyrdbs.Iterator.{Part}
use tyrdbs.SliceWriter.Store.{SliceFile, slice_file, write_bytes, store}
use tyrdbs.SliceWriter.Index.{IndexLevel, index_add, index_flush}
use tyrdbs.SliceWriter.Entries.{
  SliceWriter, Result, unless_limit, storage_page_size, add_padding, header_bytes, link_at,
  last_location, end_file, data_not_complete, flush_complete, flush_slice,
}
use tyrdbs.Slice.Load.{IsBounded, IsChecksum, Stored, store-Stored, AllLoadable, IsLoadable}
use tyrdbs.Slice.Chain.{Filled, HasFirst, store_all-cons}
use tyrdbs.Slice.RoundTrip.{first-HasFirst}
use tyrdbs.Slice.Kept.{store-Stores}
use tyrdbs.Slice.Indexing.{LevelKept, index_add-Indexed}
use tyrdbs.Slice.Flushing.{
  Grows, Grows-refl, Grows-trans, Grows-HasFirst, store_all-Grows, index_flush-Flushes,
}
use tyrdbs.Slice.Writing.{Begun, Made-leaf, IsWriting}

write_bytes-Grows : (bytes : List ℕ) (f : SliceFile) → Grows f (write_bytes bytes f)
unfolding write_bytes
write_bytes-Grows bytes f = record {
  more = bytes;
  more_behind = refl;
  same_first = refl;
  loadable_back = λ h. h;
}

add_padding-Grows : (f : SliceFile) → Grows f (add_padding f)
unfolding add_padding
add_padding-Grows f = elim (Bool-cases (length f.file % storage_page_size == 0)) [
  | inl e ↦ rw e (Grows-refl f)
  | inr e ↦ rw e (record {
    more = replicate (storage_page_size - length f.file % storage_page_size) 0;
    more_behind = refl;
    same_first = refl;
    loadable_back = λ h. h;
  })
]

link_at-AllLoadable :
    (at next : ℕ) (cached : List (ℕ × Node))
    → AllLoadable (link_at at next cached)
    → AllLoadable cached
unfolding link_at
link_at-AllLoadable at next [] h = tt
link_at-AllLoadable at next ((a, n) ∷ cached) h = elim (Bool-cases (a == at)) [
  | inl e ↦ let h' = rw e at h in h'
  | inr e ↦ let h' = rw e at h in (h'.0, link_at-AllLoadable at next cached h'.1)
]

cached-Grows :
    (f : SliceFile) (cached : List (ℕ × Node))
    → (AllLoadable cached → IsLoadable f)
    → Grows f (record f { cached = cached })
cached-Grows f cached back = record {
  more = [];
  more_behind = sym (append-nil f.file);
  same_first = refl;
  loadable_back = back;
}

end_file-Grows :
    (w : SliceWriter) (last_data_node : ℕ) (f : SliceFile) → Grows f (end_file w last_data_node f)
unfolding end_file
end_file-Grows w last_data_node f =
    let ended : List (ℕ × Node) =
      link_at (last_location f.cached) invalid_size
        (link_at last_data_node invalid_size f.cached) in
    let g : SliceFile = record f { cached = ended } in
    let g1 : SliceFile = write_bytes (to_bytes 2 invalid_size) g in
    let f1 : SliceFile = add_padding g1 in
    let g2 : SliceFile = write_bytes (header_bytes w f1) f1 in
    Grows-trans f g (add_padding g2)
      (cached-Grows f ended (λ h. link_at-AllLoadable last_data_node invalid_size f.cached (
        link_at-AllLoadable (last_location f.cached) invalid_size
          (link_at last_data_node invalid_size f.cached) h)))
      (Grows-trans g g1 (add_padding g2) (write_bytes-Grows (to_bytes 2 invalid_size) g) (
        Grows-trans g1 f1 (add_padding g2) (add_padding-Grows g1) (
          Grows-trans f1 g2 (add_padding g2) (write_bytes-Grows (header_bytes w f1) f1)
            (add_padding-Grows g2))))

module _ (compress : List ℕ → ℕ → Option (List ℕ)) (decompress : List ℕ → Option (List ℕ))
    (crc32c : List ℕ → ℕ) where
  -- the locations that the index gets for the last leaf
  abbrev pub indexed : SliceWriter → ℕ → SliceFile → Option (List IndexLevel × SliceFile)
  indexed w at f =
      if length w.first_key == 0
      then some (w.index, f)
      else index_add compress crc32c w.first_key w.last.last_key at w.index f

  -- the writer that `flush` leaves
  abbrev flushed_with :
      SliceWriter
      → NodeWriter
      → (last_data_node root : ℕ) → List IndexLevel
      → SliceFile
      → SliceWriter
  flushed_with w leaf last_data_node root index f =
      let w' : SliceWriter = record w { leaf = leaf; index = index; root = root } in
      record w' { slice = end_file w' last_data_node f }

  flush_slice-ok :
      (w : SliceWriter) (at root : ℕ) (leaf : NodeWriter) (stored f2 f3 : SliceFile)
      (index : List IndexLevel)
      → w.last.last_eor ≡ true
      → store compress crc32c w.leaf true w.slice ≡ some (at, leaf, stored)
      → (let f1 : SliceFile = write_bytes (to_bytes 2 invalid_size) stored in
          indexed w at f1 ≡ some (index, f2)
          → index_flush compress crc32c (length index + 2) index f2 ≡ some (root, f3)
          → flush_slice compress crc32c w
            ≡ unless_limit (flushed_with w leaf (last_location f1.cached) root index f3))
  unfolding flush_slice flush_complete
  flush_slice-ok w at root leaf stored f2 f3 index eor e up flushed =
      ap (λ b. if b then flush_complete compress crc32c w else data_not_complete) eor
      ∙ rw (flush_complete, e, up, flushed) refl

module _ (compress : List ℕ → ℕ → Option (List ℕ)) (decompress : List ℕ → Option (List ℕ))
    (crc32c : List ℕ → ℕ) (codec : IsCodec compress decompress page_size)
    (bounded : IsBounded compress) (checksum : IsChecksum crc32c) where
  abbrev Writing : SliceWriter → List Item → List Part → Type 0
  Writing = IsWriting compress decompress crc32c codec

  Begun-HasFirst :
      (f : SliceFile) (ps : List Part) → Begun compress decompress crc32c codec f ps → HasFirst f
  unfolding slice_file
  Begun-HasFirst f ps b =
      let x : Filled = b.first_leaf in
      let (at, nw, f1, e, s0, flushed) =
        store-Stored compress decompress crc32c codec bounded checksum x.filled_writer
          x.filled_items x.filled_leaf slice_file b.all_filled.0.filled_contains (omega arith) in
      let h1 : HasFirst f1 =
        first-HasFirst compress decompress crc32c codec bounded checksum x at f1 (
          subst
            (λ l.
              Stored compress decompress crc32c codec bounded checksum x.filled_items l slice_file
                at f1)
            b.first_is_leaf s0) in
      let grows : Grows f1 f =
        store_all-Grows compress crc32c b.others f1 f h1
          (sym (store_all-cons compress crc32c x b.others slice_file f1 at nw e) ∙ b.all_stored) in
      Grows-HasFirst f1 f grows h1

  -- the levels and the file with the last leaf in the index
  record LastIndexed (w : SliceWriter) (at : ℕ) (f : SliceFile) : Type 0 where
    last_levels : List IndexLevel
    last_file : SliceFile
    last_answer : indexed compress decompress crc32c w at f ≡ some (last_levels, last_file)
    last_kept : Every LevelKept last_levels
    last_some : 0 < length last_levels
    last_grows : Grows f last_file

  indexed-LastIndexed :
      (w : SliceWriter) (items : List Item) (ps : List Part) (at : ℕ) (f : SliceFile)
      → Writing w items ps
      → HasFirst f
      → LastIndexed w at f
  indexed-LastIndexed w items ps at f k h = elim (Bool-cases (length w.first_key == 0)) [
    | inl none_yet ↦ record {
      last_levels = w.index;
      last_file = f;
      last_answer = rw none_yet refl;
      last_kept = k.index_kept;
      last_some = k.some_level;
      last_grows = Grows-refl f;
    }
    | inr some_first ↦
        let up =
          index_add-Indexed compress decompress crc32c codec w.index w.first_key w.last.last_key at
            f k.short_first k.short_last k.index_kept in
        record {
          last_levels = up.new_levels;
          last_file = up.new_file;
          last_answer = rw some_first up.indexed_answer;
          last_kept = up.levels_kept;
          last_some = elim up.growth [
            | inl same ↦ omega (arith, same, k.some_level)
            | inr (grown, light) ↦ omega (arith, grown)
          ];
          last_grows = store_all-Grows compress crc32c up.nodes f up.new_file h up.nodes_stored;
        }
  ]

  -- What `flush` leaves: behind the last leaf the mark, and whatever follows it.
  pub record Ended (w : SliceWriter) (ps : List Part) (result : Result SliceWriter) : Type 0 where
    pub ended_writer : SliceWriter
    pub ended_answer : result ≡ unless_limit ended_writer
    pub ended_leaves : SliceFile
    pub ended_begun : Begun compress decompress crc32c codec ended_leaves ps
    pub ended_rest : List ℕ
    pub ended_file :
        ended_writer.slice.file ≡ ended_leaves.file ++ (to_bytes 2 invalid_size ++ ended_rest)
    pub ended_first : ended_writer.slice.first_node_size ≡ ended_leaves.first_node_size
    pub ended_nodes : ended_leaves.total_nodes ≡ w.slice.total_nodes + 1
    pub ended_number : ended_writer.entry_count ≡ w.entry_count
    pub ended_root : ended_writer.root < 2 ^ 48
    pub ended_loadable : IsLoadable ended_writer.slice → IsLoadable ended_leaves

  pub flush_slice-Ended :
      (w : SliceWriter) (items : List Item) (ps : List Part)
      → Writing w items ps
      → 0 < length items
      → w.last.last_eor ≡ true
      → Ended w ps (flush_slice compress crc32c w)
  unfolding write_bytes
  flush_slice-Ended w items ps k some_items eor =
      let s = store-Stores compress decompress crc32c codec w.leaf items true w.slice k.leaf_kept in
      let f : SliceFile = s.stores_file in
      let begun : Begun compress decompress crc32c codec f ps =
        subst (Begun compress decompress crc32c codec f) k.all_parts (
          Made-leaf compress decompress crc32c codec w.leaf s.stores_writer items w.slice f
            s.stores_at k.stored_parts k.made k.leaf_kept some_items s.stores_answer) in
      let h : HasFirst f = Begun-HasFirst f ps begun in
      let f1 : SliceFile = write_bytes (to_bytes 2 invalid_size) f in
      let i = indexed-LastIndexed w items ps s.stores_at f1 k h in
      let h2 : HasFirst i.last_file = Grows-HasFirst f1 i.last_file i.last_grows h in
      let r =
        index_flush-Flushes compress decompress crc32c codec (length i.last_levels + 2)
          i.last_levels i.last_file i.last_kept h2 i.last_some (inl (omega arith)) in
      let w' : SliceWriter =
        flushed_with compress decompress crc32c w s.stores_writer (last_location f1.cached)
          r.flushed_root i.last_levels r.flushed_file in
      let g : Grows f1 w'.slice = Grows-trans f1 i.last_file w'.slice i.last_grows (
        Grows-trans i.last_file r.flushed_file w'.slice r.flushes_grows (
          end_file-Grows
            (record w { leaf = s.stores_writer; index = i.last_levels; root = r.flushed_root })
            (last_location f1.cached) r.flushed_file)) in
      record {
        ended_writer = w';
        ended_answer =
            flush_slice-ok compress decompress crc32c w s.stores_at r.flushed_root s.stores_writer f
              i.last_file r.flushed_file i.last_levels eor s.stores_answer i.last_answer
              r.flushes_answer;
        ended_leaves = f;
        ended_begun = begun;
        ended_rest = g.more;
        ended_file = g.more_behind ∙ append_assoc f.file (to_bytes 2 invalid_size) g.more;
        ended_first = g.same_first;
        ended_nodes = s.stores_nodes;
        ended_number = refl;
        ended_root = r.flushed_narrow;
        ended_loadable = g.loadable_back;
      }
