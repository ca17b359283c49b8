-- ===== src/NodeWriter.antt =====
-- tyrtech/tyrdbs/node_writer.h and node_writer.cpp: entries go into a node from the front, keys,
-- values and attributes from the end. The bytes of `attributes` are a list; the compression is a
-- parameter. Counters of 16 and 32 bits wrap around.
pub mod Layout
pub mod Written
pub mod Adding
pub mod RoundTrip
mod Tests
use tyrdbs.Prelude.{
  ℕ, ◌+◌, ◌-◌, ◌*◌, ◌/◌, ◌%◌, ◌^◌, min, Bool, true, false, ◌&&◌, Option, none, some, List, ◌==◌,
  if◌then◌else◌, ltb, length, take,
}
use Prim.Native.Nat.{max}
use tyrdbs.Prelude.Memory.{Memory, load, store, store16}
use tyrdbs.Node.{Node, node, node_size, Entry, size_of_entry}

-- `m_node` is null where `has_node` is false; `m_data` points into it.
pub record NodeWriter : Type 0 where
  pub has_node : Bool
  pub writer_data : Memory
  pub entry_offset : ℕ
  pub data_offset : ℕ
  pub writer_key_count : ℕ

unfoldable pub node_writer : NodeWriter
node_writer = record {
  has_node = false;
  writer_data = λ i. 0;
  entry_offset = 0;
  data_offset = 0;
  writer_key_count = 0;
}

unfoldable pub internal_reset : NodeWriter → NodeWriter
internal_reset w = record {
  has_node = true;
  writer_data = λ i. 0;
  entry_offset = 2;
  data_offset = node_size;
  writer_key_count = 0;
}

-- `add` and `flush` make a node when there is none.
unfoldable pub opened : NodeWriter → NodeWriter
unfolding internal_reset
opened w = if w.has_node then w else internal_reset w

-- the address of the next entry
unfoldable pub next_entry : NodeWriter → ℕ × NodeWriter
next_entry w = (
  w.entry_offset,
  record w {
    entry_offset = (w.entry_offset + size_of_entry) % 2 ^ 16;
    writer_key_count = (w.writer_key_count + 1) % 2 ^ 16;
  },
)

-- Its assertion, that there is room for `size` bytes, is proved of every call in `Adding`.
unfoldable pub allocate : ℕ → NodeWriter → NodeWriter
allocate size w = record w { data_offset = (w.data_offset + (2 ^ 16 - size)) % 2 ^ 16 }

-- The copies return the address of the bytes and their number.
unfoldable pub copy : List ℕ → NodeWriter → (ℕ × ℕ) × NodeWriter
unfolding allocate
copy key w =
    let w1 : NodeWriter = allocate (length key) w in
    (
      (w1.data_offset, length key),
      record w1 { writer_data = store w1.writer_data w1.data_offset key },
    )

unfoldable pub copy_value : List ℕ → (reserved_space : ℕ) → NodeWriter → (ℕ × ℕ) × NodeWriter
unfolding allocate
copy_value value reserved_space w =
    let available_space : ℕ =
      (w.data_offset + (2 ^ 32 - (w.entry_offset + reserved_space))) % 2 ^ 32 in
    let partial_size : ℕ = min available_space (length value) % 2 ^ 16 in
    let w1 : NodeWriter = allocate partial_size w in
    (
      (w1.data_offset, partial_size),
      record w1 { writer_data = store w1.writer_data w1.data_offset (take partial_size value) },
    )

unfoldable pub copy_attributes : List ℕ → NodeWriter → NodeWriter
unfolding allocate
copy_attributes attributes w =
    let w1 : NodeWriter = allocate (length attributes) w in
    record w1 { writer_data = store w1.writer_data w1.data_offset attributes }

-- `required_size` counts in 16 bits.
unfoldable pub required_size :
    (key value : List ℕ) → (size_of_attributes : ℕ) → (no_split : Bool) → ℕ
required_size key value size_of_attributes no_split =
    let required : ℕ = size_of_entry + length key + size_of_attributes in
    if no_split
    then (required + length value) % 2 ^ 16
    else (required + max 16 (length value / 8)) % 2 ^ 16

-- The difference of the offsets is an `int`, which may be negative.
unfoldable pub has_enough_space :
    (key value : List ℕ) → (size_of_attributes : ℕ) → (no_split : Bool) → NodeWriter → Bool
unfolding required_size
has_enough_space key value size_of_attributes no_split w =
    if ltb w.data_offset (w.entry_offset + required_size key value size_of_attributes no_split)
    then false
    else true

-- The three words of an entry. The bit field for the size of the key has ten bits.
unfoldable pub set_entry : (at : ℕ) → Entry → Memory → Memory
set_entry at e m =
    let eor_bit : ℕ = if e.eor then 2 ^ 10 else 0 in
    let deleted_bit : ℕ = if e.deleted then 2 ^ 11 else 0 in
    store16 (store16 (store16 m at e.value_size) (at + 2) e.key_offset) (at + 4)
      (e.key_size % 2 ^ 10 + eor_bit + deleted_bit)

-- `-1` is `none`. The assertion that the key is not empty is a hypothesis of the theorems on items.
unfoldable pub add :
    (key value : List ℕ)
    → (eor deleted : Bool) → (attributes : List ℕ) → (no_split : Bool) → NodeWriter
    → Option ℕ × NodeWriter
unfolding opened has_enough_space next_entry copy copy_value copy_attributes set_entry
add key value eor deleted attributes no_split w =
    let w0 : NodeWriter = opened w in
    if has_enough_space key value (length attributes) no_split w0
    then (let (at, w1) = next_entry w0 in
        let ((key_offset, key_size), w2) = copy key w1 in
        let ((value_at, value_size), w3) = copy_value value (length attributes) w2 in
        let w4 : NodeWriter = copy_attributes attributes w3 in
        let e : Entry = record {
          value_size = value_size;
          key_offset = key_offset;
          key_size = key_size;
          eor = eor && (length value == value_size);
          deleted = deleted;
        } in
        (some value_size, record w4 { writer_data = set_entry at e w4.writer_data }))
    else (none, w0)

-- The compression gets the bytes and the size of the sink, and gives what it writes there, or
-- fails. The first two bytes of the node take the number of keys before.
unfoldable pub flush :
    (compress : List ℕ → ℕ → Option (List ℕ))
    → (sink_size : ℕ) → NodeWriter
    → Option (List ℕ) × NodeWriter
unfolding opened
flush compress sink_size w =
    let w0 : NodeWriter = opened w in
    let w1 : NodeWriter = record w0 {
      writer_data = store16 w0.writer_data 0 w0.writer_key_count;
    } in
    (compress (load w1.writer_data 0 node_size) sink_size, w1)

-- The moved-from pointer is null; `m_next_node` still has its initial value.
unfoldable pub reset : NodeWriter → Node × NodeWriter
unfolding node
reset w = (
  record node { node_data = w.writer_data; node_key_count = w.writer_key_count },
  record w { has_node = false },
)
