-- ===== src/SliceWriter/Index.antt =====
-- tyrtech/tyrdbs/slice_writer.cpp, `index_writer`: the levels of the index, the lowest first. Each level
-- has a node that it fills, and the level above gets the first and last key of a node and its
-- location when the node is stored.
use tyrdbs.Prelude.{
  ℕ, zero, suc, true, false, Option, none, some, List, [], ◌∷◌, ◌==◌, if◌then◌else◌, length,
}
use tyrdbs.Prelude.Memory.{to_bytes}
use tyrdbs.NodeWriter.{NodeWriter, node_writer, add}
use tyrdbs.SliceWriter.Store.{SliceFile, store}

pub record IndexLevel : Type 0 where
  pub level_node : NodeWriter
  pub level_first_key : List ℕ
  pub level_last_key : List ℕ

unfoldable pub index_level : IndexLevel
index_level = record { level_node = node_writer; level_first_key = []; level_last_key = [] }

-- `index_attributes`
abbrev pub location_bytes : ℕ → List ℕ
location_bytes at = to_bytes 8 at

-- the key of the entry, where the level has none
unfoldable pub first_of_level : List ℕ → IndexLevel → IndexLevel
first_of_level min_key l =
    if length l.level_first_key == 0 then record l { level_first_key = min_key } else l

module _ (compress : List ℕ → ℕ → Option (List ℕ)) (crc32c : List ℕ → ℕ) where
  -- The levels from this one up. Above the highest there is a new one, whose empty node has room for
  -- any two keys.
  unfoldable pub index_add :
      (min_key max_key : List ℕ)
      → (at : ℕ) → List IndexLevel
      → SliceFile
      → Option (List IndexLevel × SliceFile)
  unfolding index_level first_of_level
  index_add min_key max_key at [] f =
      let l : IndexLevel = first_of_level min_key index_level in
      some (
        record l {
          level_node = (add min_key max_key true false (location_bytes at) true l.level_node).1;
          level_last_key = max_key;
        }
            ∷ [],
        f,
      )
  index_add min_key max_key at (l ∷ higher) f =
      let l1 : IndexLevel = first_of_level min_key l in
      let (res, nw) = add min_key max_key true false (location_bytes at) true l1.level_node in
      elim res [
        | some taken ↦ some (record l1 { level_node = nw; level_last_key = max_key } ∷ higher, f)
        | none ↦ elim (store compress crc32c nw false f) [
          | none ↦ none
          | some (at', nw', f') ↦
              elim (index_add l1.level_first_key l1.level_last_key at' higher f') [
                | none ↦ none
                | some (higher', f'') ↦ some (
                  record {
                    level_node = (add min_key max_key true false (location_bytes at) true nw').1;
                    level_first_key = min_key;
                    level_last_key = max_key;
                  }
                      ∷ higher',
                  f'',
                )
              ]
        ]
      ]

  -- Levels that are flushed, on fuel: every level that is flushed leaves one less, but the one above may
  -- grow by one.
  unfoldable pub index_flush : (fuel : ℕ) → List IndexLevel → SliceFile → Option (ℕ × SliceFile)
  index_flush zero levels f = none
  index_flush (suc fuel) [] f = none
  index_flush (suc fuel) (l ∷ higher) f = elim (store compress crc32c l.level_node false f) [
    | none ↦ none
    | some (at, nw, f1) ↦
        if length higher == 0
        then some (at, f1)
        else (elim (index_add l.level_first_key l.level_last_key at higher f1) [
          | none ↦ none
          | some (higher', f2) ↦ index_flush fuel higher' f2
        ])
  ]
