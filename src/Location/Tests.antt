-- ===== src/Location/Tests.antt =====
-- Runs of the packed locations, and the theorems at concrete inputs.
use tyrdbs.Prelude.{◌≡◌, refl, true, false, arith}
use tyrdbs.Location.{offset_from, size_from, is_leaf_from, is_valid, location, location_of}
use tyrdbs.Location.Fields.{location_fields, invalid_link}

packed : location 5 100 true ≡ 0x58064
unfolding location
packed = refl

location_fields_example :
    (offset_from (location 8198 700 true) ≡ 8198)
    × (size_from (location 8198 700 true) ≡ 700)
    × (is_leaf_from (location 8198 700 true) ≡ true)
    × (is_valid (location 8198 700 true) ≡ true)
location_fields_example = location_fields 8198 700 true (omega arith) (omega arith)

invalid_link_example : is_valid (location_of 8198 0xffff) ≡ false
invalid_link_example = invalid_link 8198 (omega arith)
