-- ===== src/Slice/Tests.antt =====
-- The theorems of the slices at concrete inputs. The codec of the runs leaves the bytes as they are,
-- up to the size of the sink, and the checksum is constant.
use tyrdbs.Prelude.{
  ℕ, leb, ltb, ◌^◌, ◌&&◌, get_elem?, Bool-cases, ◌⊎◌, inr, ◌≤◌, ◌++◌, ◌≡◌, inl, refl, ap, Bool,
  true, false, Option, none, some, List, [], ◌∷◌, length, length-take, length-replicate, replicate,
  take, arith,
}
use tyrdbs.Location.{size_from, is_valid, is_leaf_from}
use tyrdbs.Node.{Node, node_size, page_size, set_next, key_count}
use mathlib.Core.Option.{some-injective}
use tyrdbs.Prelude.Cuts.{take-all}
use tyrdbs.Keys.{compare_keys}
use tyrdbs.Iterator.{Part}
use tyrdbs.NodeWriter.{NodeWriter, node_writer, add, opened, internal_reset, reset, flush}
use tyrdbs.NodeWriter.Layout.{Item, Holds}
use tyrdbs.Prelude.Memory.{load, store16, length-load}
use tyrdbs.NodeWriter.Adding.{node_writer-Contains}
use tyrdbs.NodeWriter.RoundTrip.{IsCodec}
use tyrdbs.SliceWriter.{no_entry, check, remember, order_fault, attributes_fault, differs}
use tyrdbs.SliceWriter.Store.{SliceFile, slice_file, store, store_page, write_bytes}
use tyrdbs.SliceWriter.Index.{index_level, index_flush, index_add}
use tyrdbs.SliceWriter.Entries.{
  SliceWriter, slice_writer, Result, ok, invalid_data, data_not_complete, unable_to_compress,
  file_size_limit_reached, add_parts, add_loop, end_file, flush_slice,
}
use tyrdbs.Slice.{Slice, commit, open_slice, load_at}
use tyrdbs.Slice.Load.{IsBounded, IsChecksum, AllLoadable, load_at-store, next_behind}
use tyrdbs.Slice.Kept.{fresh-Kept, node_writer-IsFresh}
use tyrdbs.Slice.Endless.{add_loop_endless}
use tyrdbs.Slice.Header.{open_slice-end_file}
use tyrdbs.Slice.WriteRead.{IsInput, GivesBack, flush_slice-add_parts, read_parts-add_parts}

abbrev clipped : List ℕ → ℕ → Option (List ℕ)
clipped bytes sink_size = some (take sink_size bytes)

abbrev clipped-IsCodec : IsCodec clipped some 8192
clipped-IsCodec bytes h = (take 8192 bytes, refl, ap some (take-all 8192 bytes (omega (arith, h))))

abbrev clipped-IsBounded : IsBounded clipped
clipped-IsBounded bytes page sink_size e =
    omega
      (arith, length-take sink_size bytes, ap length (some-injective (take sink_size bytes) page e))

abbrev no_checksum : List ℕ → ℕ
no_checksum bytes = 0

abbrev no_checksum-IsChecksum : IsChecksum no_checksum
no_checksum-IsChecksum bytes = omega arith

-- a record in two parts, then a deletion
abbrev three : List Part
three =
    record { key = 1 ∷ 2 ∷ []; value = 7 ∷ []; eor = false; deleted = false; idx = 5 }
    ∷ record { key = 1 ∷ 2 ∷ []; value = 8 ∷ []; eor = true; deleted = false; idx = 5 }
    ∷ record { key = 1 ∷ 3 ∷ []; value = []; eor = true; deleted = true; idx = 6 }
    ∷ []

three-IsInput : IsInput three
unfolding check remember no_entry compare_keys attributes_fault order_fault differs
three-IsInput = record {
  input_some = omega arith;
  input_taken = ((true, refl), ((false, refl), ((true, refl), tt)));
  input_fits = (
    record { fits_room = omega arith; fits_idx = omega arith },
    (
      record { fits_room = omega arith; fits_idx = omega arith },
      (record { fits_room = omega arith; fits_idx = omega arith }, tt),
    ),
  );
  input_complete = refl;
}

flush_slice-add_parts_example :
    (add_parts clipped no_checksum false three slice_writer ≡ file_size_limit_reached)
    ⊎ ((w : SliceWriter) × (add_parts clipped no_checksum false three slice_writer ≡ ok w)
        × ((flush_slice clipped no_checksum w ≡ file_size_limit_reached)
            ⊎ ((w' : SliceWriter) × (flush_slice clipped no_checksum w ≡ ok w'))))
flush_slice-add_parts_example =
    flush_slice-add_parts clipped some no_checksum clipped-IsCodec clipped-IsBounded
      no_checksum-IsChecksum three three-IsInput

abbrev written : Result SliceWriter → SliceWriter
written (ok w) = w
written _ = slice_writer

abbrev is_ok : Result SliceWriter → Bool
is_ok (ok w) = true
is_ok _ = false

abbrev taken : Result SliceWriter
taken = add_parts clipped no_checksum false three slice_writer

taken_ok : is_ok taken ≡ true
unfolding slice_writer add_parts add check compare_keys slice_file no_entry node_writer
taken_ok = refl

abbrev flushed : Result SliceWriter
flushed = flush_slice clipped no_checksum (written taken)

flushed_ok : is_ok flushed ≡ true
unfolding slice_writer add_parts add check compare_keys slice_file no_entry node_writer
    tyrdbs.Location.size flush_slice store index_flush index_add index_level opened internal_reset
    reset flush store_page write_bytes
flushed_ok = refl

abbrev loadable : List (ℕ × Node) → Bool
loadable [] = true
loadable ((at, n) ∷ cached) = leb (size_from at) node_size && loadable cached

flushed-loadable : loadable (written flushed).slice.cached ≡ true
unfolding slice_writer add_parts add check compare_keys slice_file no_entry node_writer
    tyrdbs.Location.size flush_slice store index_flush index_add index_level opened internal_reset
    reset flush store_page write_bytes tyrdbs.Location.location size_from end_file
flushed-loadable = refl

taken_nodes : (written taken).slice.total_nodes ≡ 0
unfolding slice_writer add_parts add check compare_keys slice_file no_entry node_writer
taken_nodes = refl

ok-written : (r : Result SliceWriter) → is_ok r ≡ true → r ≡ ok (written r)
ok-written (ok w) e = refl
ok-written (invalid_data error) e = absurd (ground (arith, e))
ok-written data_not_complete e = absurd (ground (arith, e))
ok-written unable_to_compress e = absurd (ground (arith, e))
ok-written file_size_limit_reached e = absurd (ground (arith, e))

loadable-AllLoadable : (cached : List (ℕ × Node)) → loadable cached ≡ true → AllLoadable cached
loadable-AllLoadable [] h = tt
loadable-AllLoadable ((at, n) ∷ cached) h = elim (Bool-cases (leb (size_from at) node_size)) [
  | inl e ↦ let h' = rw e at h in (ground (arith, e), loadable-AllLoadable cached h')
  | inr e ↦ absurd (let h' = rw e at h in ground (arith, h'))
]

read_parts-add_parts_example :
    GivesBack clipped some no_checksum clipped-IsCodec clipped-IsBounded no_checksum-IsChecksum
      three
      (written flushed)
read_parts-add_parts_example =
    read_parts-add_parts clipped some no_checksum clipped-IsCodec clipped-IsBounded
      no_checksum-IsChecksum three (written taken) (written flushed) three-IsInput
      (ok-written taken taken_ok) (ok-written flushed flushed_ok) (omega (arith, taken_nodes))
      (loadable-AllLoadable (written flushed).slice.cached flushed-loadable)

clipped_page :
    (page : List ℕ) → (flush clipped page_size node_writer).0 ≡ some page → length page ≤ node_size
unfolding flush
clipped_page page e =
    let bytes : List ℕ =
      load (store16 (opened node_writer).writer_data 0 (opened node_writer).writer_key_count) 0
        node_size in
    omega (
      arith,
      length-take page_size bytes,
      length-load (store16 (opened node_writer).writer_data 0 (opened node_writer).writer_key_count)
          0 node_size,
      ap length (some-injective (take page_size bytes) page e),
    )

load_at-store_example :
    (at : ℕ) × (nw' : NodeWriter) × (f' : SliceFile) × (n : Node) × (store clipped no_checksum
        node_writer true slice_file
      ≡ some (at, nw', f'))
    × (is_valid at ≡ true)
    × (is_leaf_from at ≡ true)
    × ((rest : List ℕ)
        → load_at some no_checksum (f'.file ++ rest) at
          ≡ some (set_next (next_behind (length f'.file) rest) n))
    × (key_count n ≡ 0)
    × ((i : ℕ) → (item : Item) → get_elem? [] i ≡ some item → Holds n i item)
unfolding slice_file
load_at-store_example =
    load_at-store clipped some no_checksum clipped-IsCodec clipped-IsBounded no_checksum-IsChecksum
      node_writer [] true slice_file node_writer-Contains (omega arith) (λ e. refl) clipped_page

-- a file with a first node
abbrev begun_file : SliceFile
begun_file = record {
  file = [];
  first_node_size = 100;
  cached = [];
  compressed_size = 0;
  uncompressed_size = 0;
  total_nodes = 0;
  leaf_nodes = 0;
  limit_reached = false;
}

-- a value of 65000 bytes
abbrev long_value : List ℕ
long_value = replicate 65000 0

add_loop_endless_example :
    add_loop clipped no_checksum 3 (1 ∷ []) long_value true false 0 true slice_writer ≡ none
unfolding slice_writer
add_loop_endless_example =
    add_loop_endless clipped some no_checksum clipped-IsCodec (1 ∷ []) true false 0 true
      (omega arith) (omega arith) 3 long_value slice_writer []
      (fresh-Kept node_writer node_writer-IsFresh) (omega (arith, length-replicate {A = ℕ} 65000 0))
      (omega (arith, length-replicate {A = ℕ} 65000 0))

-- a writer with a root
abbrev rooted : SliceWriter
unfolding slice_writer
rooted = record slice_writer { root = 100 }

ended_size : ltb (length (end_file rooted 0 begun_file).file) (2 ^ 32) ≡ true
unfolding end_file slice_writer
ended_size = refl

open_slice-end_file_example :
    (s : Slice) × (commit (record rooted { slice = end_file rooted 0 begun_file }) ≡ some s)
    × (open_slice (end_file rooted 0 begun_file).file ≡ some s)
unfolding slice_writer
open_slice-end_file_example =
    open_slice-end_file rooted 0 begun_file (ground (arith, ended_size)) (omega arith) (omega arith)
      (omega arith)
