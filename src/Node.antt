-- ===== src/Node.antt =====
-- tyrtech/tyrdbs/node.cpp and node.h: a node is `node_size` bytes, the number of keys in the first
-- two, behind them six bytes for each key, and keys, values and attributes from the end
-- downwards. Bit fields and words are laid out as on x86-64, lowest first. Pointers into the data
-- are the addresses in it.
pub mod Search
mod Tests
use Prim.Native.Nat.{compare, Ordering}
use tyrdbs.Prelude.{
  ℕ, zero, suc, ◌+◌, ◌-◌, ◌*◌, ◌/◌, ◌%◌, ◌^◌, Bool, true, false, Option, none, some, List, [], ◌∷◌,
  ◌==◌, if◌then◌else◌, ltb, length, get_or,
}
use tyrdbs.Prelude.Memory.{Memory, load, load16}
use tyrdbs.Keys.{le_key}

abbrev pub page_size : ℕ
page_size = 8192

abbrev pub node_size : ℕ
node_size = (page_size - 32) * 255 / 256

abbrev pub max_key_size : ℕ
max_key_size = 1024

-- `struct entry`, packed
pub record Entry : Type 0 where
  pub value_size : ℕ
  pub key_offset : ℕ
  pub key_size : ℕ
  pub eor : Bool
  pub deleted : Bool

abbrev pub size_of_entry : ℕ
size_of_entry = 6

-- `-1` of the types is written out.
pub record Node : Type 0 where
  pub node_data : Memory
  pub node_key_count : ℕ
  pub next_node : ℕ

unfoldable pub node : Node
node = record { node_data = λ i. 0; node_key_count = 0xffff; next_node = 0xffff_ffff_ffff_ffff }

-- The decompression is a parameter: the bytes that it makes of the source, or a negative result.
unfoldable pub load_node : (List ℕ → Option (List ℕ)) → List ℕ → Node → Option Node
load_node decompress source n = elim (decompress source) [
  | none ↦ none
  | some bytes ↦
      if length bytes == node_size
      then (let memory : Memory = λ i. get_or bytes i 0 in
          some (record n { node_data = memory; node_key_count = load16 memory 0 }))
      else none
]

unfoldable pub get_next : Node → ℕ
get_next n = n.next_node

unfoldable pub set_next : ℕ → Node → Node
set_next next n = record n { next_node = next }

unfoldable pub key_count : Node → ℕ
key_count n = n.node_key_count

-- the address of the entry and the fields read from there
abbrev pub entry_address : ℕ → ℕ
entry_address ndx = 2 + ndx * 2 + ndx * 4

unfoldable pub entry_at : Node → ℕ → Entry
entry_at n ndx =
    let at : ℕ = entry_address ndx in
    let flags : ℕ = load16 n.node_data (at + 4) in
    record {
      value_size = load16 n.node_data at;
      key_offset = load16 n.node_data (at + 2);
      key_size = flags % 2 ^ 10;
      eor = flags / 2 ^ 10 % 2 == 1;
      deleted = flags / 2 ^ 11 % 2 == 1;
    }

-- The offset counts in 16 bits.
abbrev pub value_offset : Entry → ℕ
value_offset e = (e.key_offset + (2 ^ 16 - e.value_size)) % 2 ^ 16

unfoldable pub attributes_at : (size_of_attributes : ℕ) → Node → ℕ → List ℕ
attributes_at size_of_attributes n ndx =
    let offset : ℕ = (value_offset (entry_at n ndx) + (2 ^ 16 - size_of_attributes)) % 2 ^ 16 in
    load n.node_data offset size_of_attributes

unfoldable pub key_at : Node → ℕ → List ℕ
key_at n ndx = load n.node_data (entry_at n ndx).key_offset (entry_at n ndx).key_size

unfoldable pub value_at : Node → ℕ → List ℕ
value_at n ndx = load n.node_data (value_offset (entry_at n ndx)) (entry_at n ndx).value_size

unfoldable pub eor_at : Node → ℕ → Bool
eor_at n ndx = (entry_at n ndx).eor

unfoldable pub deleted_at : Node → ℕ → Bool
deleted_at n ndx = (entry_at n ndx).deleted

module _ (n : Node) (key : List ℕ) where
  -- The loop that halves, on fuel; `none` is out of fuel where the loop would go on.
  unfoldable pub halve : (fuel : ℕ) → (start end : ℕ) → Option (ℕ × ℕ)
  halve zero start end = if ltb 8 (end - start) then none else some (start, end)
  halve (suc fuel) start end =
      let ndx : ℕ = (end - start) / 2 + start in
      let below = halve fuel start ndx in
      let above = halve fuel ndx end in
      if ltb 8 (end - start)
      then (if le_key key (key_at n ndx) then below else above)
      else some (start, end)

  -- The loop over the last few, on its number of rounds, `end - start`.
  unfoldable pub scan : (rounds : ℕ) → (ndx end : ℕ) → ℕ
  scan zero ndx end = end
  scan (suc rounds) ndx end =
      let rest = scan rounds (ndx + 1) end in if le_key key (key_at n ndx) then ndx else rest

  -- The keys' number is the fuel of the halving.
  unfoldable pub lower_bound : Option ℕ
  unfolding halve scan
  lower_bound = elim (halve (key_count n) 0 (key_count n)) [
    | none ↦ none
    | some (start, end) ↦ some (scan (end - start) start end)
  ]
