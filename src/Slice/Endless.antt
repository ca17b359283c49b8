-- ===== src/Slice/Endless.antt =====
-- A value of which not even an eighth fits into a node: the loop of `slice_writer::add` stores node
-- after node and does not end.
use tyrdbs.Prelude.{
  ℕ, zero, suc, ◌+◌, ◌/◌, ◌^◌, ◌<◌, ◌≡◌, refl, sym, ◌∙◌, inl, inr, Bool, true, false, Option, none,
  some, List, [], arith, ◌==◌, length, Bool-cases, Option-cases,
}
use mathlib.Core.Path.{subst}
use mathlib.Core.Option.{some-injective}
use tyrdbs.Prelude.Memory.{to_bytes, length-to_bytes}
use tyrdbs.Node.{page_size}
use tyrdbs.NodeWriter.{NodeWriter, opened, add}
use tyrdbs.NodeWriter.Layout.{Item}
use tyrdbs.NodeWriter.Adding.{add-cases}
use tyrdbs.NodeWriter.RoundTrip.{IsCodec}
use tyrdbs.SliceWriter.Index.{index_add}
use tyrdbs.SliceWriter.Store.{SliceFile, store}
use tyrdbs.SliceWriter.Entries.{SliceWriter, store_leaf, add_loop}
use tyrdbs.Slice.Kept.{Kept, Kept-opened, fresh-Kept, IsFresh, add-opened, store-Stores}
use tyrdbs.Slice.Writing.{store_leaf-plain, store_leaf-indexed}
use tyrdbs.Slice.Splitting.{loop-full}

module _ (compress : List ℕ → ℕ → Option (List ℕ)) (decompress : List ℕ → Option (List ℕ))
    (crc32c : List ℕ → ℕ) (codec : IsCodec compress decompress page_size) where
  store_leaf-failed :
      (key : List ℕ) (is_new : Bool) (w : SliceWriter) (at : ℕ) (nw : NodeWriter) (f : SliceFile)
      → store compress crc32c w.leaf true w.slice ≡ some (at, nw, f)
      → (length w.first_key == 0) ≡ false
      → index_add compress crc32c w.first_key w.last.last_key at w.index f ≡ none
      → store_leaf compress crc32c key is_new w ≡ none
  unfolding store_leaf
  store_leaf-failed key is_new w at nw f e some_first failed =
      rw (store_leaf, e, some_first, failed) refl

  store_leaf-IsFresh :
      (key : List ℕ) (is_new : Bool) (w w2 : SliceWriter) (items : List Item)
      → Kept w.leaf items
      → store_leaf compress crc32c key is_new w ≡ some w2
      → IsFresh w2.leaf
  unfolding store_leaf
  store_leaf-IsFresh key is_new w w2 items k e =
      let s = store-Stores compress decompress crc32c codec w.leaf items true w.slice k in
      elim (Bool-cases (length w.first_key == 0)) [
        | inl none_yet ↦
            subst (λ v. IsFresh v.leaf)
              (some-injective _ w2 (
                sym (
                  store_leaf-plain compress decompress crc32c codec key is_new w s.stores_at
                    s.stores_writer s.stores_file s.stores_answer none_yet)
                ∙ e))
              s.stores_fresh
        | inr some_first ↦
            elim (Option-cases (
              index_add compress crc32c w.first_key w.last.last_key s.stores_at w.index
                s.stores_file)) [
                  | inl failed ↦ absurd (
                      cc (
                        sym e
                        ∙ store_leaf-failed key is_new w s.stores_at s.stores_writer s.stores_file
                            s.stores_answer some_first failed))
                  | inr ((levels, f), up) ↦
                      subst (λ v. IsFresh v.leaf)
                        (some-injective _ w2 (
                          sym (
                            store_leaf-indexed compress decompress crc32c codec key is_new w
                              s.stores_at s.stores_writer s.stores_file f levels s.stores_answer
                              some_first up)
                          ∙ e))
                        s.stores_fresh
                ]
      ]

  module _ (key : List ℕ) (eor deleted : Bool) (idx : ℕ) (is_new : Bool) (short : length key < 1024)
      (idx_fits : idx < 2 ^ 64) where
    refused :
        (value : List ℕ) (w : NodeWriter) (items : List Item)
        → Kept w items
        → 8126 < 14 + length key + length value / 8
        → 14 + length key + length value / 8 < 65536
        → add key value eor deleted (to_bytes 8 idx) false w ≡ (none, opened w)
    refused value w items k long no_wrap =
        let e8 : length (to_bytes 8 idx) ≡ 8 = length-to_bytes 8 idx in
        let c = k.kept_contains in
        elim (add-cases (opened w) items c key value eor deleted (to_bytes 8 idx) false short
          (omega (arith, e8, no_wrap, long))) [
            | inl (full, same) ↦ add-opened key value eor deleted (to_bytes 8 idx) false w ∙ same
            | inr (fits, number, enough, contains) ↦
                absurd (omega (arith, fits, e8, long, c.in_node, c.entries_end))
          ]

    loop-failed :
        (fuel : ℕ) (value : List ℕ) (w : SliceWriter) (leaf1 : NodeWriter)
        → add key value eor deleted (to_bytes 8 idx) false w.leaf ≡ (none, leaf1)
        → store_leaf compress crc32c key is_new (record w { leaf = leaf1 }) ≡ none
        → add_loop compress crc32c (suc fuel) key value eor deleted idx is_new w ≡ none
    unfolding add_loop
    loop-failed fuel value w leaf1 e failed = rw (add_loop, e, e, failed) refl

    -- A key below 1024 bytes and a value so long that its eighth, with the key and fourteen bytes,
    -- exceeds the room of an empty node but does not wrap around: whatever leaf with its items the
    -- writer has, no fuel is enough for the loop of `add`. The codec compresses every node.
    pub add_loop_endless :
        (fuel : ℕ) (value : List ℕ) (w : SliceWriter) (items : List Item)
        → Kept w.leaf items
        → 8126 < 14 + length key + length value / 8
        → 14 + length key + length value / 8 < 65536
        → add_loop compress crc32c fuel key value eor deleted idx is_new w ≡ none
    unfolding add_loop
    add_loop_endless zero value w items k long no_wrap = refl
    add_loop_endless (suc fuel) value w items k long no_wrap =
        let w1 : SliceWriter = record w { leaf = opened w.leaf } in
        let none_taken = refused value w.leaf items k long no_wrap in
        elim (Option-cases (store_leaf compress crc32c key is_new w1)) [
          | inl failed ↦ loop-failed fuel value w (opened w.leaf) none_taken failed
          | inr (w2, stored) ↦
              let fresh : IsFresh w2.leaf =
                store_leaf-IsFresh key is_new w1 w2 items (Kept-opened w.leaf items k) stored in
              loop-full compress decompress crc32c codec key eor deleted idx is_new short idx_fits
                fuel value w w2 (opened w.leaf) none_taken stored
              ∙ add_loop_endless fuel value w2 [] (fresh-Kept w2.leaf fresh) long no_wrap
        ]
