-- ===== src/NodeWriter/Layout.antt =====
-- Where an entry and its bytes stand in a node, and which writes leave them alone.
use tyrdbs.Prelude.{
  ℕ, ◌+◌, ◌-◌, ◌/◌, ◌%◌, ◌^◌, ◌≤◌, ◌<◌, ◌≡◌, sym, ◌∙◌, ◌⊎◌, inl, inr, Bool, true, false, List,
  arith, ◌==◌, if◌then◌else◌, length,
}
use tyrdbs.Prelude.Memory.{
  Memory, load, load16, store16, Same, load-Same, load16-Same, load16-store16, store16-outside,
}
use tyrdbs.Node.{
  Node, node_size, Entry, entry_address, entry_at, key_at, value_at, attributes_at, eor_at,
  deleted_at,
}
use tyrdbs.NodeWriter.{set_entry}

-- what one `add` puts into a node
pub record Item : Type 0 where
  pub key : List ℕ
  pub value : List ℕ
  pub eor : Bool
  pub deleted : Bool
  pub attributes : List ℕ

-- What the node gives back at an index.
pub record Holds (n : Node) (i : ℕ) (item : Item) : Type 0 where
  pub holds_key : key_at n i ≡ item.key
  pub holds_value : value_at n i ≡ item.value
  pub holds_eor : eor_at n i ≡ item.eor
  pub holds_deleted : deleted_at n i ≡ item.deleted
  pub holds_attributes : attributes_at (length item.attributes) n i ≡ item.attributes

-- the third word of an entry
abbrev pub flags_of : (key_size : ℕ) → (eor deleted : Bool) → ℕ
flags_of key_size eor deleted =
    key_size % 2 ^ 10 + (if eor then 2 ^ 10 else 0) + (if deleted then 2 ^ 11 else 0)

-- The words of entry `i` and the bytes they lead to, all of them from `low` up.
pub record Placed (m : Memory) (low i : ℕ) (item : Item) : Type 0 where
  pub at_key : ℕ
  pub value_word : load16 m (entry_address i) ≡ length item.value
  pub offset_word : load16 m (entry_address i + 2) ≡ at_key
  pub flags_word : load16 m (entry_address i + 4) ≡ flags_of (length item.key) item.eor item.deleted
  pub above_low : low + length item.attributes + length item.value ≤ at_key
  pub inside : at_key + length item.key ≤ node_size
  pub short_key : length item.key < 1024
  pub key_bytes : load m at_key (length item.key) ≡ item.key
  pub value_bytes : load m (at_key - length item.value) (length item.value) ≡ item.value
  pub attribute_bytes :
      load m (at_key - length item.value - length item.attributes) (length item.attributes)
      ≡ item.attributes

flags_split :
    (k : ℕ) (e d : Bool)
    → k < 1024
    → (flags_of k e d % 2 ^ 10 ≡ k)
      × ((flags_of k e d / 2 ^ 10 % 2 == 1) ≡ e)
      × ((flags_of k e d / 2 ^ 11 % 2 == 1) ≡ d)
flags_split k true true h = (omega arith, ground arith, ground arith)
flags_split k true false h = (omega arith, ground arith, ground arith)
flags_split k false true h = (omega arith, ground arith, ground arith)
flags_split k false false h = (omega arith, ground arith, ground arith)

-- A node over such a memory gives the item back.
pub Placed-Holds :
    (n : Node) (low i : ℕ) (item : Item) → Placed n.node_data low i item → Holds n i item
unfolding key_at value_at eor_at deleted_at attributes_at entry_at
Placed-Holds n low i item p =
    let (size, eor_ok, deleted_ok) =
      flags_split (length item.key) item.eor item.deleted p.short_key in
    let at_value : (p.at_key + (2 ^ 16 - length item.value)) % 2 ^ 16
        ≡ p.at_key - length item.value =
      omega (arith, p.above_low, p.inside) in
    let at_attributes : (p.at_key - length item.value + (2 ^ 16 - length item.attributes)) % 2 ^ 16
        ≡ p.at_key - length item.value - length item.attributes =
      omega (arith, p.above_low, p.inside) in
    record {
      holds_key = rw (p.flags_word, p.offset_word, size) p.key_bytes;
      holds_value = rw (p.offset_word, p.value_word, at_value) p.value_bytes;
      holds_eor = rw p.flags_word eor_ok;
      holds_deleted = rw p.flags_word deleted_ok;
      holds_attributes =
          rw (p.offset_word, p.value_word, at_value, at_attributes) p.attribute_bytes;
    }

-- Writes elsewhere leave an item in place.
pub Placed-Same :
    (m m' : Memory) (low low' i : ℕ) (item : Item)
    → low' ≤ low
    → Same m m' (entry_address i) (entry_address i + 6)
    → Same m m' low node_size
    → Placed m low i item
    → Placed m' low' i item
Placed-Same m m' low low' i item le words bytes p = record {
  at_key = p.at_key;
  value_word =
      sym (load16-Same m m' (entry_address i) (λ j a b. words j (omega arith) (omega arith)))
      ∙ p.value_word;
  offset_word =
      sym (load16-Same m m' (entry_address i + 2) (λ j a b. words j (omega arith) (omega arith)))
      ∙ p.offset_word;
  flags_word =
      sym (load16-Same m m' (entry_address i + 4) (λ j a b. words j (omega arith) (omega arith)))
      ∙ p.flags_word;
  above_low = omega (arith, p.above_low);
  inside = p.inside;
  short_key = p.short_key;
  key_bytes =
      sym (
        load-Same m m' _ _
          (λ j a b. bytes j (omega (arith, p.above_low)) (omega (arith, p.inside))))
      ∙ p.key_bytes;
  value_bytes =
      sym (
        load-Same m m' _ _
          (λ j a b. bytes j (omega (arith, p.above_low)) (omega (arith, p.above_low, p.inside))))
      ∙ p.value_bytes;
  attribute_bytes =
      sym (
        load-Same m m' _ _
          (λ j a b. bytes j (omega (arith, p.above_low)) (omega (arith, p.above_low, p.inside))))
      ∙ p.attribute_bytes;
}

flags_of-lt : (k : ℕ) (e d : Bool) → flags_of k e d < 65536
flags_of-lt k true true = omega arith
flags_of-lt k true false = omega arith
flags_of-lt k false true = omega arith
flags_of-lt k false false = omega arith

module _ (at : ℕ) (e : Entry) (m : Memory) where
  abbrev with_value : Memory
  with_value = store16 m at e.value_size

  abbrev with_offset : Memory
  with_offset = store16 with_value (at + 2) e.key_offset

  abbrev word : ℕ
  word = flags_of e.key_size e.eor e.deleted

  pub set_entry-outside : (i : ℕ) → ((i < at) ⊎ (at + 6 ≤ i)) → set_entry at e m i ≡ m i
  unfolding set_entry
  set_entry-outside i (inl l) =
      store16-outside with_offset (at + 4) word i (inl (omega arith))
      ∙ store16-outside with_value (at + 2) e.key_offset i (inl (omega arith))
      ∙ store16-outside m at e.value_size i (inl l)
  set_entry-outside i (inr g) =
      store16-outside with_offset (at + 4) word i (inr (omega arith))
      ∙ store16-outside with_value (at + 2) e.key_offset i (inr (omega arith))
      ∙ store16-outside m at e.value_size i (inr (omega arith))

  -- The words of an entry that was just set.
  pub set_entry-words :
      e.value_size < 65536
      → e.key_offset < 65536
      → (load16 (set_entry at e m) at ≡ e.value_size)
        × (load16 (set_entry at e m) (at + 2) ≡ e.key_offset)
        × (load16 (set_entry at e m) (at + 4) ≡ word)
  unfolding set_entry
  set_entry-words hv ho =
      let with_flags : Memory = store16 with_offset (at + 4) word in
      (
        load16-Same with_flags with_offset at
              (λ j a b. store16-outside with_offset (at + 4) word j (inl (omega arith)))
            ∙ load16-Same with_offset with_value at
                (λ j a b. store16-outside with_value (at + 2) e.key_offset j (inl (omega arith)))
            ∙ load16-store16 m at e.value_size hv,
        load16-Same with_flags with_offset (at + 2)
              (λ j a b. store16-outside with_offset (at + 4) word j (inl (omega arith)))
            ∙ load16-store16 with_value (at + 2) e.key_offset ho,
        load16-store16 with_offset (at + 4) word (flags_of-lt e.key_size e.eor e.deleted),
      )
