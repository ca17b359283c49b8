-- ===== src/SliceWriter/Store.antt =====
-- tyrtech/tyrdbs/slice_writer.cpp, `store`: a node goes to the end of the file behind its checksum,
-- and the node that was stored before gets its location as the next one. The disk has room, and the
-- file writer is the list of the bytes that it was given; its `size` has 32 bits. An error that a
-- write throws ends the call of the slice writer; here it is the flag `limit_reached`, which those
-- calls look at when they end. The assertion that the first node is a leaf is a hypothesis of the
-- theorems. `compress` and `crc32c`, of lz4 and crc32c, are parameters.
use tyrdbs.Prelude.{
  ℕ, ◌+◌, ◌%◌, ◌^◌, ◌||◌, leb, Bool, false, Option, none, some, List, [], ◌∷◌, ◌++◌, ◌==◌,
  if◌then◌else◌, length,
}
use tyrdbs.Prelude.Memory.{to_bytes}
use tyrdbs.Node.{Node, node_size, page_size, set_next}
use tyrdbs.NodeWriter.{NodeWriter, flush, reset}
use tyrdbs.Location.{size, location, invalid_size}

-- The file, the members of the header that `store` counts in, and the nodes that it hands to the
-- cache, each with its location, the last one first: the head of `cached` is what `m_last_node`
-- points to.
pub record SliceFile : Type 0 where
  pub file : List ℕ
  pub first_node_size : ℕ
  pub cached : List (ℕ × Node)
  pub compressed_size : ℕ
  pub uncompressed_size : ℕ
  pub total_nodes : ℕ
  pub leaf_nodes : ℕ
  pub limit_reached : Bool

unfoldable pub slice_file : SliceFile
slice_file = record {
  file = [];
  first_node_size = 0xffff;
  cached = [];
  compressed_size = 0;
  uncompressed_size = 0;
  total_nodes = 0;
  leaf_nodes = 0;
  limit_reached = false;
}

-- `file_writer::max_file_size`, of storage/file_writer.h
abbrev pub max_file_size : ℕ
max_file_size = 2 ^ 37

unfoldable pub write_bytes : List ℕ → SliceFile → SliceFile
write_bytes bytes f = record f {
  file = f.file ++ bytes;
  limit_reached = f.limit_reached || leb max_file_size (length f.file + length bytes);
}

-- `m_last_node->set_next`, where there is a last node
unfoldable pub link_last : ℕ → List (ℕ × Node) → List (ℕ × Node)
link_last next [] = []
link_last next ((at, n) ∷ cached) = (at, set_next next n) ∷ cached

module _ (compress : List ℕ → ℕ → Option (List ℕ)) (crc32c : List ℕ → ℕ) where
  -- what `store` does with the compressed node and the node itself
  unfoldable pub store_page : (page : List ℕ) → Node → (is_leaf : Bool) → SliceFile → ℕ × SliceFile
  unfolding write_bytes link_last
  store_page page n is_leaf f =
      let leaf : ℕ = if is_leaf then 1 else 0 in
      let word : ℕ = size (length page) leaf in
      let f1 : SliceFile =
        if f.first_node_size == invalid_size
        then record f { first_node_size = word }
        else write_bytes (to_bytes 2 word) f in
      let at : ℕ = location (length f1.file % 2 ^ 32) (length page) is_leaf in
      let f2 : SliceFile = write_bytes page (write_bytes (to_bytes 4 (crc32c page)) f1) in
      (
        at,
        record f2 {
          cached = (at, n) ∷ link_last at f2.cached;
          compressed_size = f2.compressed_size + length page;
          uncompressed_size = f2.uncompressed_size + node_size;
          total_nodes = f2.total_nodes + 1;
          leaf_nodes = f2.leaf_nodes + leaf;
        },
      )

  -- The node writer is left without a node. `none` is the error of the compression.
  unfoldable pub store :
      NodeWriter → (is_leaf : Bool) → SliceFile → Option (ℕ × NodeWriter × SliceFile)
  unfolding store_page
  store nw is_leaf f =
      let (out, nw1) = flush compress page_size nw in
      elim out [
        | none ↦ none
        | some page ↦
            let (n, nw2) = reset nw1 in
            let (at, f') = store_page page n is_leaf f in some (at, nw2, f')
      ]
