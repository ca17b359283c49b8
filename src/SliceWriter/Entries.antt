-- ===== src/SliceWriter/Entries.antt =====
-- tyrtech/tyrdbs/slice_writer.cpp, the slice writer: entries go into leaf nodes, a value over as many as
-- it takes, and each leaf that is stored into the index.
use tyrdbs.Prelude.{
  ℕ, zero, suc, ◌+◌, ◌-◌, ◌*◌, ◌%◌, Bool, true, false, ◌&&◌, Option, none, some, List, [], ◌∷◌,
  ◌++◌, ◌==◌, if◌then◌else◌, length, drop, replicate,
}
use tyrdbs.Prelude.Memory.{to_bytes}
use tyrdbs.Node.{Node, set_next}
use tyrdbs.NodeWriter.{NodeWriter, node_writer, add}
use tyrdbs.Location.{invalid_size}
use tyrdbs.Iterator.{Part}
use tyrdbs.SliceWriter.{
  SliceEntry, LastEntry, no_entry, InvalidData, throws, new_key, check, remember,
}
use tyrdbs.SliceWriter.Store.{SliceFile, slice_file, write_bytes, store}
use tyrdbs.SliceWriter.Index.{IndexLevel, index_level, index_add, index_flush}

-- `m_last_key` and `m_last_eor` are in `last`; `m_root` is in the header.
pub record SliceWriter : Type 0 where
  pub first_key : List ℕ
  pub last : LastEntry
  pub leaf : NodeWriter
  pub index : List IndexLevel
  pub slice : SliceFile
  pub root : ℕ
  pub entry_count : ℕ

unfoldable pub slice_writer : SliceWriter
slice_writer = record {
  first_key = [];
  last = no_entry;
  leaf = node_writer;
  index = index_level ∷ [];
  slice = slice_file;
  root = 0xffff_ffff_ffff_ffff;
  entry_count = 0;
}

-- an error, or what the call gives
pub data Result {ℓ} (A : Type ℓ) : Type ℓ where
  ok : A → Result A
  invalid_data : InvalidData → Result A
  data_not_complete : Result A
  unable_to_compress : Result A
  file_size_limit_reached : Result A

-- the writer after a call, unless one of the writes threw
abbrev pub unless_limit : SliceWriter → Result SliceWriter
unless_limit w = if w.slice.limit_reached then file_size_limit_reached else ok w

-- `storage::page_size`
abbrev pub storage_page_size : ℕ
storage_page_size = 4096

-- the bytes up to the end of the storage page
unfoldable pub add_padding : SliceFile → SliceFile
add_padding f =
    let used : ℕ = length f.file % storage_page_size in
    if used == 0 then f else record f { file = f.file ++ replicate (storage_page_size - used) 0 }

-- `struct header`, packed
unfoldable pub header_bytes : SliceWriter → SliceFile → List ℕ
header_bytes w f =
    to_bytes 8 0x3130306264727974
    ++ (to_bytes 8 w.root
        ++ (to_bytes 2 f.first_node_size
            ++ (to_bytes 8 w.entry_count
                ++ (to_bytes 8 f.compressed_size
                    ++ (to_bytes 8 f.uncompressed_size
                        ++ (to_bytes 8 f.total_nodes ++ to_bytes 8 f.leaf_nodes))))))

-- `set_next` on the node at a location
unfoldable pub link_at : (at next : ℕ) → List (ℕ × Node) → List (ℕ × Node)
link_at at next [] = []
link_at at next ((a, n) ∷ cached) =
    let rest = link_at at next cached in
    if a == at then (a, set_next next n) ∷ cached else (a, n) ∷ rest

-- the last stored node
abbrev pub last_location : List (ℕ × Node) → ℕ
last_location [] = 0
last_location ((a, n) ∷ cached) = a

-- what `flush` does with the file behind the index
unfoldable pub end_file : SliceWriter → (last_data_node : ℕ) → SliceFile → SliceFile
unfolding add_padding header_bytes link_at write_bytes
end_file w last_data_node f =
    let ended : List (ℕ × Node) =
      link_at (last_location f.cached) invalid_size
        (link_at last_data_node invalid_size f.cached) in
    let f1 : SliceFile =
      add_padding (write_bytes (to_bytes 2 invalid_size) (record f { cached = ended })) in
    add_padding (write_bytes (header_bytes w f1) f1)

module _ (compress : List ℕ → ℕ → Option (List ℕ)) (crc32c : List ℕ → ℕ) where
  -- The leaf is stored, and goes into the index when it has the first part of a record.
  unfoldable pub store_leaf : (key : List ℕ) → (is_new : Bool) → SliceWriter → Option SliceWriter
  store_leaf key is_new w = elim (store compress crc32c w.leaf true w.slice) [
    | none ↦ none
    | some (at, leaf', slice') ↦
        if length w.first_key == 0
        then some (record w { leaf = leaf'; slice = slice' })
        else (elim (index_add compress crc32c w.first_key w.last.last_key at w.index slice') [
          | none ↦ none
          | some (index', slice'') ↦ some (record w {
            leaf = leaf';
            slice = slice'';
            index = index';
            first_key = if is_new then key else [];
          })
        ])
  ]

  -- The loop of `add`, on fuel: a round takes at least sixteen bytes of the value, or the node has no
  -- room and the next one is new.
  unfoldable pub add_loop :
      (fuel : ℕ)
      → (key value : List ℕ) → (eor deleted : Bool) → (idx : ℕ) → (is_new : Bool) → SliceWriter
      → Option SliceWriter
  unfolding store_leaf
  add_loop zero key value eor deleted idx is_new w = none
  add_loop (suc fuel) key value eor deleted idx is_new w =
      let (res, leaf1) = add key value eor deleted (to_bytes 8 idx) false w.leaf in
      let w1 : SliceWriter = record w { leaf = leaf1 } in
      elim res [
        | none ↦ elim (store_leaf key is_new w1) [
          | none ↦ none
          | some w2 ↦ add_loop fuel key value eor deleted idx is_new w2
        ]
        | some taken ↦
            if length (drop taken value) == 0 then some w1 else (elim (store_leaf key is_new w1) [
              | none ↦ none
              | some w2 ↦ add_loop fuel key (drop taken value) eor deleted idx is_new w2
            ])
      ]

  -- Its assertion that `idx` is below `max_idx`, 2 ^ 48, is a hypothesis of the theorems.
  unfoldable pub add_entry : SliceEntry → (idx : ℕ) → SliceWriter → Result SliceWriter
  unfolding add_loop check remember
  add_entry e idx w = elim (check e w.last) [
    | throws error ↦ invalid_data error
    | new_key is_new ↦
        let w1 : SliceWriter =
          if is_new && (length w.first_key == 0) then record w { first_key = e.key } else w in
        elim (add_loop (2 * length e.value + 2) e.key e.value e.eor e.deleted idx is_new w1) [
          | none ↦ unable_to_compress
          | some w2 ↦
              unless_limit (record w2 { last = remember e; entry_count = w2.entry_count + 1 })
        ]
  ]

  -- `add` of an iterator
  unfoldable pub add_parts : (compact : Bool) → List Part → SliceWriter → Result SliceWriter
  unfolding add_entry
  add_parts compact [] w = ok w
  add_parts compact (p ∷ ps) w =
      let e : SliceEntry = record {
        key = p.key;
        value = p.value;
        eor = p.eor;
        deleted = p.deleted;
      } in
      let skipped = add_parts compact ps w in
      if compact && p.deleted then skipped else (elim (add_entry e p.idx w) [
        | ok w' ↦ add_parts compact ps w'
        | invalid_data error ↦ invalid_data error
        | data_not_complete ↦ data_not_complete
        | unable_to_compress ↦ unable_to_compress
        | file_size_limit_reached ↦ file_size_limit_reached
      ])

  -- `flush` of complete data. The writer's file is flushed by its last pages, which the list of bytes
  -- holds already.
  unfoldable pub flush_complete : SliceWriter → Result SliceWriter
  unfolding write_bytes end_file
  flush_complete w = elim (store compress crc32c w.leaf true w.slice) [
    | none ↦ unable_to_compress
    | some (at, leaf', stored) ↦
        let f1 : SliceFile = write_bytes (to_bytes 2 invalid_size) stored in
        let last_data_node : ℕ = last_location f1.cached in
        let indexed : Option (List IndexLevel × SliceFile) =
          if length w.first_key == 0
          then some (w.index, f1)
          else index_add compress crc32c w.first_key w.last.last_key at w.index f1 in
        elim indexed [
          | none ↦ unable_to_compress
          | some (index', f2) ↦ elim (index_flush compress crc32c (length index' + 2) index' f2) [
            | none ↦ unable_to_compress
            | some (root, f3) ↦
                let w' : SliceWriter = record w { leaf = leaf'; index = index'; root = root } in
                unless_limit (record w' { slice = end_file w' last_data_node f3 })
          ]
        ]
  ]

  unfoldable pub flush_slice : SliceWriter → Result SliceWriter
  unfolding flush_complete
  flush_slice w = if w.last.last_eor then flush_complete w else data_not_complete
