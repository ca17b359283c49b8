-- ===== src/Node/Tests.antt =====
-- Runs of the search in a node, and the theorems at a concrete node.
use tyrdbs.Prelude.{
  ℕ, zero, suc, ◌-◌, ◌≤◌, ◌<◌, ◌≡◌, refl, true, false, some, [], ◌∷◌, arith, get_or,
}
use tyrdbs.Keys.{le_key, compare_keys}
use tyrdbs.Node.{Node, entry_at, key_at, key_count, halve, lower_bound}
use tyrdbs.Node.Search.{IsSorted, lower_bound-first, halve_end}

-- Two keys, of the bytes 3 and 3 5, at the addresses 20 and 21.
abbrev two_keys : Node
two_keys = record {
  node_data = λ i.
      get_or
        (2 ∷ 0 ∷ 0 ∷ 0 ∷ 20 ∷ 0 ∷ 1 ∷ 4 ∷ 0 ∷ 0 ∷ 21 ∷ 0 ∷ 2 ∷ 4 ∷ 0 ∷ 0 ∷ 0 ∷ 0 ∷ 0 ∷ 0 ∷ 3 ∷ 3 ∷ 5
          ∷ [])
        i 0;
  node_key_count = 2;
  next_node = 0;
}

abbrev two_keys-IsSorted : IsSorted two_keys
unfolding key_at key_count le_key compare_keys entry_at
two_keys-IsSorted zero h = refl
two_keys-IsSorted (suc i) h = absurd (omega arith)

second : lower_bound two_keys (3 ∷ 4 ∷ []) ≡ some 1
unfolding lower_bound key_at le_key key_count compare_keys entry_at
second = refl

none_left : lower_bound two_keys (4 ∷ []) ≡ some 2
unfolding lower_bound key_at le_key key_count compare_keys entry_at
none_left = refl

lower_bound-first_example :
    (first : ℕ) × (lower_bound two_keys (3 ∷ 4 ∷ []) ≡ some first)
    × (first ≤ key_count two_keys)
    × ((j : ℕ) → j < first → le_key (3 ∷ 4 ∷ []) (key_at two_keys j) ≡ false)
    × (first < key_count two_keys → le_key (3 ∷ 4 ∷ []) (key_at two_keys first) ≡ true)
lower_bound-first_example = lower_bound-first two_keys two_keys-IsSorted (3 ∷ 4 ∷ [])

halve_end_example :
    (cut : ℕ × ℕ) × (halve two_keys (3 ∷ []) 40 0 40 ≡ some cut) × (cut.1 - cut.0 ≤ 8)
halve_end_example = halve_end two_keys (3 ∷ []) 40 0 40 (omega arith)
