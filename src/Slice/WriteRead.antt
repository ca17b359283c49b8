-- ===== src/Slice/WriteRead.antt =====
-- From the entries that go into a slice writer to the parts that the slice's iterator gives.
use tyrdbs.Prelude.{
  ℕ, ◌^◌, ◌⊎◌, inl, inr, Bool-cases, ◌==◌, suc, ◌+◌, ◌*◌, ◌<◌, ◌≡◌, refl, sym, ap, ◌∙◌, true, false,
  Option, some, List, [], ◌∷◌, ◌++◌, map, arith, length, Every,
}
use mathlib.Core.Path.{subst}
use mathlib.Core.Option.{some-injective}
use tyrdbs.Prelude.Memory.{to_bytes}
use tyrdbs.Node.{page_size}
use tyrdbs.Location.{invalid_size}
use tyrdbs.NodeWriter.RoundTrip.{IsCodec}
use tyrdbs.Iterator.{Part}
use tyrdbs.SliceWriter.{no_entry}
use tyrdbs.SliceWriter.Order.{TakesAll}
use tyrdbs.SliceWriter.Store.{slice_file}
use tyrdbs.SliceWriter.Entries.{
  SliceWriter, slice_writer, Result, ok, file_size_limit_reached, unless_limit, add_parts,
  flush_slice,
}
use tyrdbs.Slice.{Slice, SliceIterator, commit, begin, read_parts}
use tyrdbs.Slice.Load.{IsBounded, IsChecksum, IsLoadable}
use tyrdbs.Slice.Chain.{Filled}
use tyrdbs.Slice.Read.{leaf_parts}
use tyrdbs.Slice.RoundTrip.{store_all-read}
use tyrdbs.Slice.Flushing.{store_all-total}
use tyrdbs.Slice.Accepting.{
  entry_of, Fits, IsCuts, last_after, slice_writer-Writing, PartsAdded, add_parts-PartsAdded,
  unless_limit-reached, unless_limit-below,
}
use tyrdbs.Slice.Committed.{Ended, flush_slice-Ended}

-- the writer of a result
abbrev written : Result SliceWriter → SliceWriter
written (ok w) = w
written _ = slice_writer

abbrev IsOk : Result SliceWriter → Type 0
IsOk (ok w) = Unit
IsOk _ = ⊥

not_reached : {A : Type 0} (w : SliceWriter) → file_size_limit_reached ≡ ok w → A
not_reached w e = absurd (subst IsOk (sym e) tt)

-- a call that succeeds does so with its writer
unless_limit-ok : (v w : SliceWriter) → unless_limit v ≡ ok w → v ≡ w
unless_limit-ok v w e = elim (Bool-cases v.slice.limit_reached) [
  | inl reached ↦ not_reached w (sym (unless_limit-reached v reached) ∙ e)
  | inr below ↦ ap written (sym (unless_limit-below v below) ∙ e)
]

-- The entries: there are some, the check lets all of them through, they fit into nodes, and the last
-- one ends its record.
pub record IsInput (es : List Part) : Type 0 where
  pub input_some : 0 < length es
  pub input_taken : TakesAll no_entry (map entry_of es)
  pub input_fits : Every Fits es
  pub input_complete : (last_after no_entry es).last_eor ≡ true

module _ (compress : List ℕ → ℕ → Option (List ℕ)) (decompress : List ℕ → Option (List ℕ))
    (crc32c : List ℕ → ℕ) (codec : IsCodec compress decompress page_size)
    (bounded : IsBounded compress) (checksum : IsChecksum crc32c) where
  abbrev AddedTo : List Part → Type 0
  AddedTo es =
      PartsAdded compress decompress crc32c codec slice_writer [] [] es
        (add_parts compress crc32c false es slice_writer)

  added :
      (es : List Part)
      → IsInput es
      → (add_parts compress crc32c false es slice_writer ≡ file_size_limit_reached) ⊎ AddedTo es
  unfolding slice_writer
  added es i =
      add_parts-PartsAdded compress decompress crc32c codec es slice_writer [] [] i.input_taken
        i.input_fits (slice_writer-Writing compress decompress crc32c codec)

  ended :
      (es : List Part)
      → IsInput es
      → (a : AddedTo es)
      → Ended compress decompress crc32c codec bounded checksum a.parts_writer a.parts_pieces
          (flush_slice compress crc32c a.parts_writer)
  unfolding slice_writer
  ended es i a =
      flush_slice-Ended compress decompress crc32c codec bounded checksum a.parts_writer
        a.parts_items a.parts_pieces a.parts_writing (a.parts_some (omega (arith, i.input_some)))
        (ap (λ l. l.last_eor) a.parts_last ∙ i.input_complete)

  -- Some entries with indices below 2 ^ 48, each of which the check of the slice writer lets
  -- through behind those before it, the last with the end of record, an eighth of each value
  -- fitting into a node with its key: a new slice writer takes them all and its flush succeeds,
  -- unless one of the two reaches the limit of the file's size (the disk has room); there is no
  -- other error and no loop that runs out of fuel. The codec of the pages is one that gives back
  -- what it compressed, into pages that fit, and the checksum has 32 bits.
  pub flush_slice-add_parts :
      (es : List Part)
      → IsInput es
      → (add_parts compress crc32c false es slice_writer ≡ file_size_limit_reached)
        ⊎ ((w : SliceWriter) × (add_parts compress crc32c false es slice_writer ≡ ok w)
            × ((flush_slice compress crc32c w ≡ file_size_limit_reached)
                ⊎ ((w' : SliceWriter) × (flush_slice compress crc32c w ≡ ok w'))))
  flush_slice-add_parts es i = elim (added es i) [
    | inl reached ↦ inl reached
    | inr a ↦
        let e = ended es i a in
        inr (
          a.parts_writer,
          a.parts_answer,
          elim (Bool-cases e.ended_writer.slice.limit_reached) [
            | inl reached ↦ inl (e.ended_answer ∙ unless_limit-reached e.ended_writer reached)
            | inr below ↦
                inr (e.ended_writer, e.ended_answer ∙ unless_limit-below e.ended_writer below)
          ],
        )
  ]

  -- What the iterator of the committed slice gives: the entries in their order, each whole or cut.
  abbrev pub GivesBack : List Part → SliceWriter → Type 0
  GivesBack es w =
      (s : Slice) × (it : SliceIterator) × (qs : List Part) × (commit w ≡ some s)
      × (begin decompress crc32c s ≡ some (some it))
      × (read_parts decompress crc32c (suc (length qs)) s.slice_bytes it ≡ some qs)
      × IsCuts es qs

  commit-root :
      (w : SliceWriter)
      → w.root < 2 ^ 48
      → commit w
        ≡ some (record {
          slice_bytes = w.slice.file;
          slice_key_count = w.entry_count;
          slice_root = w.root;
          slice_first_node_size = w.slice.first_node_size;
        })
  unfolding commit
  commit-root w h =
      let valid : (w.root == 0xffff_ffff_ffff_ffff) ≡ false = ground (arith, h) in rw valid refl

  Ended-GivesBack :
      (es : List Part) (i : IsInput es) (a : AddedTo es)
      (e : Ended compress decompress crc32c codec bounded checksum a.parts_writer a.parts_pieces
        (flush_slice compress crc32c a.parts_writer))
      → 0x8006 * (a.parts_writer.slice.total_nodes + 1) + 2 < 2 ^ 32
      → IsLoadable e.ended_writer.slice
      → GivesBack es e.ended_writer
  unfolding slice_writer slice_file
  Ended-GivesBack es i a e room loadable =
      let b = e.ended_begun in
      let x : Filled = b.first_leaf in
      let rest : List ℕ = to_bytes 2 invalid_size ++ e.ended_rest in
      let count : ℕ = e.ended_writer.entry_count in
      let number : count ≡ length es = omega (arith, e.ended_number, a.parts_number) in
      let total : e.ended_leaves.total_nodes ≡ 0 + suc (length b.others) =
        store_all-total compress crc32c (x ∷ b.others) slice_file e.ended_leaves b.all_stored in
      let (f, stored, when_loadable) =
        store_all-read compress decompress crc32c codec bounded checksum x b.others rest count
          e.ended_writer.root b.first_is_leaf b.all_filled b.all_readable
          (omega (arith, total, e.ended_nodes, room)) refl (omega (arith, number, i.input_some)) in
      let same : f ≡ e.ended_leaves = some-injective f e.ended_leaves (sym stored ∙ b.all_stored) in
      let (it, begins, reads) =
        when_loadable (subst IsLoadable (sym same) (e.ended_loadable loadable)) in
      let bytes : f.file ++ rest ≡ e.ended_writer.slice.file =
        ap (λ g. g.file ++ rest) same ∙ sym e.ended_file in
      let first : f.first_node_size ≡ e.ended_writer.slice.first_node_size =
        ap (λ g. g.first_node_size) same ∙ sym e.ended_first in
      let slice_with : List ℕ → ℕ → Slice = λ t n. record {
        slice_bytes = t;
        slice_key_count = count;
        slice_root = e.ended_writer.root;
        slice_first_node_size = n;
      } in
      let parts : leaf_parts (x ∷ b.others) ≡ a.parts_pieces = b.parts_stored in
      (
        slice_with e.ended_writer.slice.file e.ended_writer.slice.first_node_size,
        it,
        a.parts_pieces,
        commit-root e.ended_writer e.ended_root,
        ap (λ t. begin decompress crc32c (slice_with t e.ended_writer.slice.first_node_size))
              (sym bytes)
            ∙ ap (λ n. begin decompress crc32c (slice_with (f.file ++ rest) n)) (sym first)
            ∙ begins,
        ap (λ t. read_parts decompress crc32c (suc (length a.parts_pieces)) t it) (sym bytes)
            ∙ reads (suc (length a.parts_pieces)) (omega (arith, ap length parts))
            ∙ ap some parts,
        a.parts_cut,
      )

  -- Some entries with indices below 2 ^ 48, each of which the check lets through behind those before
  -- it, the last with the end of record, an eighth of each value fitting into a node with its key, were
  -- added to a new slice writer, which was then flushed; the nodes stored before the flush are few
  -- enough for locations of 32 bits, and no node was compressed to more than `node_size` bytes: the
  -- writer commits a slice that has an iterator that gives the entries back in their order, key, value,
  -- flags and index, each of them whole or cut into parts whose values make up its value and of which
  -- only the last can have the end of record, and then ends. The codec of the pages is one that
  -- gives back what it compressed, into pages that fit, and the checksum has 32 bits.
  pub read_parts-add_parts :
      (es : List Part) (w w' : SliceWriter)
      → IsInput es
      → add_parts compress crc32c false es slice_writer ≡ ok w
      → flush_slice compress crc32c w ≡ ok w'
      → 0x8006 * (w.slice.total_nodes + 1) + 2 < 2 ^ 32
      → IsLoadable w'.slice
      → GivesBack es w'
  read_parts-add_parts es w w' i took flushed room loadable = elim (added es i) [
    | inl reached ↦ not_reached w (sym reached ∙ took)
    | inr a ↦
        let e = ended es i a in
        let same : a.parts_writer ≡ w = ap written (sym a.parts_answer ∙ took) in
        let same' : e.ended_writer ≡ w' =
          unless_limit-ok e.ended_writer w'
            (sym e.ended_answer ∙ ap (flush_slice compress crc32c) same ∙ flushed) in
        subst (GivesBack es) same' (
          Ended-GivesBack es i a e (omega (arith, room, ap (λ v. v.slice.total_nodes) same))
            (subst (λ v. IsLoadable v.slice) (sym same') loadable))
  ]
