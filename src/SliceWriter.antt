-- ===== src/SliceWriter.antt =====
-- tyrtech/tyrdbs/slice_writer.cpp: the check of what goes into a slice. A slice takes keys in
-- ascending order; a record is a run of entries under one key, the last of them with the end of
-- record. `add` checks an entry against the last key and its flag, and remembers those.
pub mod Store
pub mod Index
pub mod Entries
pub mod Order
mod Tests
use Prim.Native.Nat.{Ordering}
use tyrdbs.Prelude.{
  ℕ, Bool, true, false, ◌||◌, List, [], ◌∷◌, ◌==◌, if◌then◌else◌, ltb, length, not,
}
use tyrdbs.Keys.{compare_keys}
use tyrdbs.Node.{max_key_size}

-- what `add` gets, less the `idx`
pub record SliceEntry : Type 0 where
  pub key : List ℕ
  pub value : List ℕ
  pub eor : Bool
  pub deleted : Bool

-- the members of the writer that `check` reads
pub record LastEntry : Type 0 where
  pub last_key : List ℕ
  pub last_eor : Bool

unfoldable pub no_entry : LastEntry
no_entry = record { last_key = []; last_eor = true }

-- `invalid_data_error`, by its message
pub data InvalidData : Type 0 where
  key_of_zero_length : InvalidData
  maximum_key_size_exceded : InvalidData
  input_keys_not_sorted : InvalidData
  duplicate_keys : InvalidData
  key_eor_mismatch : InvalidData
  invalid_combination : InvalidData

pub data Checked : Type 0 where
  throws : InvalidData → Checked
  new_key : Bool → Checked

-- the tests between the key and the last one: whether the comparison finds a fault
unfoldable pub order_fault : Ordering → (last_eor deleted : Bool) → (otherwise : Checked) → Checked
order_fault Ordering.lt last_eor deleted otherwise = throws input_keys_not_sorted
order_fault Ordering.eq last_eor deleted otherwise =
    if last_eor || deleted then throws duplicate_keys else otherwise
order_fault Ordering.gt last_eor deleted otherwise =
    if last_eor then otherwise else throws key_eor_mismatch

unfoldable pub attributes_fault : SliceEntry → (otherwise : Checked) → Checked
attributes_fault e otherwise =
    if e.deleted
    then (if not e.eor || not (length e.value == 0) then throws invalid_combination else otherwise)
    else otherwise

-- `cmp != 0`
unfoldable pub differs : Ordering → Bool
differs Ordering.eq = false
differs _ = true

unfoldable pub check : SliceEntry → LastEntry → Checked
unfolding order_fault attributes_fault differs
check e w =
    let cmp : Ordering = compare_keys e.key w.last_key in
    let rest : Checked = attributes_fault e (new_key (differs cmp)) in
    if length e.key == 0
    then throws key_of_zero_length
    else if ltb (length e.key) max_key_size
    then (if length w.last_key == 0 then rest else order_fault cmp w.last_eor e.deleted rest)
    else throws maximum_key_size_exceded

-- the last two assignments of `add`
unfoldable pub remember : SliceEntry → LastEntry
remember e = record { last_key = e.key; last_eor = e.eor }
