-- ===== src/SliceWriter/Tests.antt =====
-- Runs of the check of a slice writer, and the theorems at concrete entries.
use tyrdbs.Prelude.{◌≡◌, ◌↔◌, refl, Bool, true, false, List, [], ◌∷◌}
use tyrdbs.Keys.{compare_keys}
use tyrdbs.SliceWriter.{
  SliceEntry, no_entry, InvalidData, throws, new_key, check, remember, order_fault,
  attributes_fault, differs,
}
use tyrdbs.SliceWriter.Order.{IsAllowed, TakesAll, InOrder, check_lem, check-InOrder}

-- a record in two parts, then a deletion
abbrev first_part : SliceEntry
first_part = record { key = 1 ∷ 2 ∷ []; value = 7 ∷ []; eor = false; deleted = false }

abbrev second_part : SliceEntry
second_part = record { key = 1 ∷ 2 ∷ []; value = 8 ∷ []; eor = true; deleted = false }

abbrev deletion : SliceEntry
deletion = record { key = 1 ∷ 3 ∷ []; value = []; eor = true; deleted = true }

abbrev three : List SliceEntry
three = first_part ∷ second_part ∷ deletion ∷ []

repeated : check second_part (remember second_part) ≡ throws InvalidData.duplicate_keys
unfolding check remember compare_keys order_fault
repeated = refl

three-TakesAll : TakesAll no_entry three
unfolding check remember no_entry compare_keys attributes_fault order_fault differs
three-TakesAll = ((true, refl), ((false, refl), ((true, refl), tt)))

check_lem_example :
    ((new : Bool) × (check second_part (remember first_part) ≡ new_key new))
    ↔ IsAllowed second_part (remember first_part)
check_lem_example = check_lem second_part (remember first_part)

check-InOrder_example : InOrder second_part deletion
check-InOrder_example = check-InOrder no_entry three three-TakesAll 1 second_part deletion refl refl
