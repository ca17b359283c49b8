-- ===== src/Slice.antt =====
-- tyrtech/tyrdbs/slice.cpp and slice.h, and `cache::load` of cache.cpp: a slice read from its file,
-- without the cache. Pointers to nodes are the nodes; `decompress` and `crc32c`, of lz4 and crc32c,
-- are parameters.
pub mod Load
pub mod Chain
pub mod Read
pub mod RoundTrip
pub mod Kept
pub mod Indexing
pub mod Flushing
pub mod Writing
pub mod Splitting
pub mod Accepting
pub mod Committed
pub mod WriteRead
pub mod Endless
pub mod Header
mod Tests
use Prim.Native.Nat.{Ordering}
use tyrdbs.Prelude.{
  ℕ, zero, suc, ◌+◌, ◌-◌, ◌*◌, ◌%◌, ◌^◌, Bool, true, false, ◌&&◌, not, Option, none, some, List, [],
  ◌∷◌, ◌++◌, ◌==◌, if◌then◌else◌, ltb, length, take, drop,
}
use tyrdbs.Prelude.Memory.{of_bytes}
use tyrdbs.Keys.{compare_keys}
use tyrdbs.Node.{
  node_size, Node, node, load_node, set_next, get_next, key_count, key_at, value_at, eor_at,
  deleted_at, attributes_at, lower_bound,
}
use tyrdbs.Location.{offset_from, size_from, is_leaf_from, is_valid, location_of}
use tyrdbs.Iterator.{Part}
use tyrdbs.SliceWriter.Entries.{SliceWriter, storage_page_size}

pub record Slice : Type 0 where
  pub slice_bytes : List ℕ
  pub slice_key_count : ℕ
  pub slice_root : ℕ
  pub slice_first_node_size : ℕ

-- `slice_writer::commit`; `none` is the assertion that there is a root.
unfoldable pub commit : SliceWriter → Option Slice
commit w =
    if w.root == 0xffff_ffff_ffff_ffff
    then none
    else some (record {
      slice_bytes = w.slice.file;
      slice_key_count = w.entry_count;
      slice_root = w.root;
      slice_first_node_size = w.slice.first_node_size;
    })

-- `pread`: the bytes that there are
abbrev pub pread : (offset size : ℕ) → List ℕ → List ℕ
pread offset size bytes = take size (drop offset bytes)

-- The constructor over a file, whose last page has the header. The size of the reader has 32 bits.
-- `none` is an assertion on the size, or the error of the signature.
unfoldable pub open_slice : List ℕ → Option Slice
open_slice bytes =
    let size : ℕ = length bytes % 2 ^ 32 in
    let header : List ℕ = drop (size - storage_page_size) bytes in
    if (size % storage_page_size == 0)
      && (ltb storage_page_size size && (of_bytes (take 8 header) == 0x3130306264727974))
    then some (record {
      slice_bytes = bytes;
      slice_key_count = of_bytes (take 8 (drop 18 header));
      slice_root = of_bytes (take 8 (drop 8 header));
      slice_first_node_size = of_bytes (take 2 (drop 16 header));
    })
    else none

-- `m_slice` is null where `ended` holds, and `m_attrs` until the first `next`.
pub record SliceIterator : Type 0 where
  pub ended : Bool
  pub started : Bool
  pub at_node : Node
  pub ndx : ℕ

unfoldable pub slice_iterator : Node → ℕ → SliceIterator
slice_iterator n ndx = record { ended = false; started = false; at_node = n; ndx = ndx }

-- what the iterator stands on
unfoldable pub part_at : SliceIterator → Part
part_at it = record {
  key = key_at it.at_node it.ndx;
  value = value_at it.at_node it.ndx;
  eor = eor_at it.at_node it.ndx;
  deleted = deleted_at it.at_node it.ndx;
  idx = of_bytes (attributes_at 8 it.at_node it.ndx);
}

-- The entry of an index node to go on with: the last one whose first key is not above `min_key`,
-- and the first one when there is none.
unfoldable pub index_entry : Node → (min_key : List ℕ) → Option ℕ
index_entry n min_key = elim (lower_bound n min_key) [
  | none ↦ none
  | some found ↦
      if found == key_count n
      then some ((found + 0xffff) % 2 ^ 16)
      else (elim (compare_keys min_key (key_at n found)) [
        | Ordering.lt ↦ some (found - 1)
        | _ ↦ some found
      ])
]

module _ (decompress : List ℕ → Option (List ℕ)) (crc32c : List ℕ → ℕ) where
  -- The node at a location of the file, with the location of the next one, which stands behind it.
  -- `none` is the assertion on the size of the page, or an error.
  unfoldable pub load_at : List ℕ → (at : ℕ) → Option Node
  load_at bytes at =
      let node_offset : ℕ = offset_from at in
      let page_length : ℕ = size_from at in
      let buffer : List ℕ = pread node_offset (page_length + 6) bytes in
      let page : List ℕ = take page_length (drop 4 buffer) in
      if ltb node_size page_length
      then none
      else if crc32c page == of_bytes (take 4 buffer)
      then (elim (load_node decompress page node) [
        | none ↦ none
        | some n ↦
            let next_size : ℕ = of_bytes (take 2 (drop (page_length + 4) buffer)) in
            some (set_next (location_of (node_offset + page_length + 6) next_size) n)
      ])
      else none

  -- The loop of `load_next`, on fuel: nodes lie one behind the other, so the length of the file is
  -- enough. The outer `none` is a node that does not load.
  unfoldable pub load_next : (fuel : ℕ) → List ℕ → Node → Option (Option Node)
  unfolding load_at
  load_next zero bytes n = none
  load_next (suc fuel) bytes n =
      let rest = load_next fuel bytes in
      if is_valid (get_next n)
      then (elim (load_at bytes (get_next n)) [
        | none ↦ none
        | some n' ↦ if is_leaf_from (get_next n) then some (some n') else rest n'
      ])
      else some none

  unfoldable pub next : List ℕ → SliceIterator → Option (Bool × SliceIterator)
  unfolding load_next
  next bytes it =
      if it.ended
      then some (false, it)
      else if not it.started
      then some (true, record it { started = true })
      else if it.ndx + 1 == key_count it.at_node
      then (elim (load_next (length bytes + 1) bytes it.at_node) [
        | none ↦ none
        | some none ↦ some (false, record it { ended = true })
        | some (some n) ↦ some (true, record it { at_node = n; ndx = 0 })
      ])
      else some (true, record it { ndx = it.ndx + 1 })

  -- `begin`; a slice without keys has no iterator.
  unfoldable pub begin : Slice → Option (Option SliceIterator)
  unfolding slice_iterator load_at
  begin s =
      if s.slice_key_count == 0
      then some none
      else (elim (load_at s.slice_bytes (location_of 0 s.slice_first_node_size)) [
        | none ↦ none
        | some n ↦ some (some (slice_iterator n 0))
      ])

  -- The descent, on fuel; `some none` is the location `-1` of no node.
  unfoldable pub find_node_for :
      (fuel : ℕ) → List ℕ → (at : ℕ) → (min_key max_key : List ℕ) → Option (Option ℕ)
  unfolding load_at index_entry
  find_node_for zero bytes at min_key max_key = none
  find_node_for (suc fuel) bytes at min_key max_key = elim (load_at bytes at) [
    | none ↦ none
    | some n ↦ elim (index_entry n min_key) [
      | none ↦ none
      | some found ↦
          let below : ℕ = of_bytes (attributes_at 8 n found) in
          let rest = find_node_for fuel bytes below min_key max_key in
          elim (compare_keys min_key (value_at n found)) [
            | Ordering.gt ↦ some none
            | _ ↦ elim (compare_keys max_key (key_at n found)) [
              | Ordering.lt ↦ some none
              | _ ↦ if is_leaf_from below then some (some below) else rest
            ]
          ]
    ]
  ]

  unfoldable pub range :
      (fuel : ℕ) → Slice → (min_key max_key : List ℕ) → Option (Option SliceIterator)
  unfolding find_node_for slice_iterator
  range fuel s min_key max_key =
      if s.slice_key_count == 0
      then some none
      else (elim (find_node_for fuel s.slice_bytes s.slice_root min_key max_key) [
        | none ↦ none
        | some none ↦ some none
        | some (some at) ↦ elim (load_at s.slice_bytes at) [
          | none ↦ none
          | some n ↦ elim (lower_bound n min_key) [
            | none ↦ none
            | some ndx ↦ some (some (slice_iterator n ndx))
          ]
        ]
      ])

  -- the parts that a loop over `next` meets, on fuel
  unfoldable pub read_parts : (fuel : ℕ) → List ℕ → SliceIterator → Option (List Part)
  unfolding next part_at
  read_parts zero bytes it = none
  read_parts (suc fuel) bytes it = elim (next bytes it) [
    | none ↦ none
    | some (more, it') ↦
        let rest = read_parts fuel bytes it' in
        if more then (elim rest [ none ↦ none | some ps ↦ some (part_at it' ∷ ps) ]) else some []
  ]
