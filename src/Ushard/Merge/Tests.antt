-- ===== src/Ushard/Merge/Tests.antt =====
-- Runs of the ushard iterator, and the theorems at concrete slices.
use tyrdbs.Prelude.{ℕ, ◌≡◌, ◌≢◌, refl, inl, inr, true, false, List, [], ◌∷◌, arith}
use tyrdbs.Keys.{compare_keys, le_key}
use tyrdbs.Iterator.{Part}
use tyrdbs.Ushard.Merge.{collect, next, stands_on, place, cmp, ushard_iterator, ushard_range}
use tyrdbs.Ushard.Merge.Newest.{parts, IsChain}
use tyrdbs.Ushard.Merge.Correct.{NewestOf, collect-NewestOf}
use tyrdbs.Ushard.Merge.Range.{collect-range}

-- a part of the key of one byte `k`
abbrev part_at : ℕ → ℕ → ℕ → Part
part_at k value idx = record {
  key = k ∷ [];
  value = value ∷ [];
  eor = true;
  deleted = false;
  idx = idx;
}

-- The second slice has a newer record of the key 5, in two parts, and one key of its own.
abbrev older : List Part
older = part_at 3 30 1 ∷ part_at 5 50 1 ∷ part_at 7 70 1 ∷ []

abbrev newer : List Part
newer =
    record { key = 5 ∷ []; value = 51 ∷ []; eor = false; deleted = false; idx = 2 }
    ∷ part_at 5 52 2
    ∷ part_at 6 60 2
    ∷ []

abbrev slices : List (List Part)
slices = older ∷ newer ∷ []

values : List Part → List (List ℕ)
values [] = []
values (p ∷ ps) = p.value ∷ values ps

merged :
    values (collect 7 (ushard_iterator slices))
    ≡ (30 ∷ []) ∷ (51 ∷ []) ∷ (52 ∷ []) ∷ (60 ∷ []) ∷ (70 ∷ []) ∷ []
unfolding values collect next stands_on place cmp ushard_iterator compare_keys
merged = refl

up_to_five :
    values (collect 7 (ushard_range (5 ∷ []) slices)) ≡ (30 ∷ []) ∷ (51 ∷ []) ∷ (52 ∷ []) ∷ []
unfolding values collect next stands_on place cmp ushard_range compare_keys
up_to_five = refl

older-IsChain : IsChain older
unfolding le_key compare_keys
older-IsChain = (inr ((refl, λ e. cc e), refl), (inr ((refl, λ e. cc e), refl), refl))

newer-IsChain : IsChain newer
unfolding le_key compare_keys
newer-IsChain = (inl (refl, refl), (inr ((refl, λ e. cc e), refl), refl))

collect-NewestOf_example :
    IsChain (collect 7 (ushard_iterator slices))
    × ((k : List ℕ) → NewestOf k slices (parts k (collect 7 (ushard_iterator slices))))
collect-NewestOf_example =
    collect-NewestOf slices (older-IsChain, (newer-IsChain, tt)) (omega arith) 7 (omega arith)

collect-range_example :
    IsChain (collect 7 (ushard_range (5 ∷ []) slices))
    × ((k : List ℕ)
        → le_key k (5 ∷ []) ≡ true
        → NewestOf k slices (parts k (collect 7 (ushard_range (5 ∷ []) slices))))
    × ((k : List ℕ)
        → le_key k (5 ∷ []) ≢ true
        → parts k (collect 7 (ushard_range (5 ∷ []) slices)) ≡ [])
collect-range_example =
    collect-range (5 ∷ []) slices (omega arith) (omega arith) (older-IsChain, (newer-IsChain, tt))
      (omega arith) 7 (omega arith)
