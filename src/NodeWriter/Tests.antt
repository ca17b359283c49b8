-- ===== src/NodeWriter/Tests.antt =====
-- Runs of the node writer, and the theorems at concrete inputs. The codec of the runs leaves the
-- bytes as they are.
use tyrdbs.Prelude.{
  ℕ, ◌+◌, ◌≡◌, ◌≤◌, ◌<◌, ◌⊎◌, refl, true, false, Option, none, some, List, [], ◌∷◌, ◌++◌, length,
  arith, get_elem?,
}
use tyrdbs.Node.{Node, node, load_node, entry_at, key_count, value_at}
use tyrdbs.NodeWriter.{NodeWriter, node_writer, opened, add, flush, reset}
use tyrdbs.NodeWriter.Layout.{Item, Holds}
use tyrdbs.NodeWriter.Adding.{Contains, node_writer-Contains, needed, part, added, add-Contains}
use tyrdbs.NodeWriter.RoundTrip.{IsCodec, write_items, write_items-load}

abbrev plain : List ℕ → ℕ → Option (List ℕ)
plain bytes sink_size = some bytes

abbrev plain-IsCodec : IsCodec plain some 8192
plain-IsCodec bytes h = (bytes, refl, refl)

abbrev pair : List Item
pair =
    record {
      key = 1 ∷ 2 ∷ [];
      value = 7 ∷ 8 ∷ 9 ∷ [];
      eor = true;
      deleted = false;
      attributes = 5 ∷ [];
    }
    ∷ record { key = 1 ∷ 3 ∷ []; value = []; eor = true; deleted = true; attributes = 6 ∷ [] }
    ∷ []

abbrev one_added : NodeWriter
one_added = (add (1 ∷ 2 ∷ []) (7 ∷ 8 ∷ 9 ∷ []) true false (5 ∷ []) true node_writer).1

one_added_value : value_at (reset one_added).0 0 ≡ 7 ∷ 8 ∷ 9 ∷ []
unfolding add reset value_at node_writer entry_at
one_added_value = refl

abbrev start : NodeWriter
start = opened node_writer

abbrev one : List ℕ
one = 1 ∷ []

abbrev taken : ℕ
taken = part start [] node_writer-Contains one one true false one false (omega arith) (omega arith)

abbrev first : Item
first = added start [] node_writer-Contains one one true false one false (omega arith) (omega arith)

add-Contains_example :
    ((start.data_offset < start.entry_offset + needed one one one false)
      × (add one one true false one false start ≡ (none, start)))
    ⊎ ((start.entry_offset + needed one one one false ≤ start.data_offset)
        × ((add one one true false one false start).0 ≡ some taken)
        × ((taken ≡ length one) ⊎ ((false ≡ false) × (16 ≤ taken)))
        × Contains (add one one true false one false start).1 ([] ++ (first ∷ [])))
add-Contains_example =
    add-Contains start [] node_writer-Contains one one true false one false (omega arith)
      (omega arith) (omega arith)

write_items-load_example :
    (w : NodeWriter) × (page : List ℕ) × (n : Node) × (write_items pair node_writer ≡ some w)
    × ((flush plain 8192 w).0 ≡ some page)
    × (load_node some page node ≡ some n)
    × (key_count n ≡ length pair)
    × ((i : ℕ) (item : Item) → get_elem? pair i ≡ some item → Holds n i item)
write_items-load_example =
    write_items-load plain some 8192 plain-IsCodec pair (omega arith) (omega arith)
