-- ===== src/NodeWriter/Written.antt =====
-- The memory of a node after `add` wrote an entry and its three blocks of bytes.
use tyrdbs.Prelude.{ℕ, ◌+◌, ◌≤◌, ◌≡◌, sym, ◌∙◌, inl, inr, List, arith, length}
use tyrdbs.Prelude.Memory.{
  Memory, load, store, Same, load-Same, load-store, store-below, store-above,
}
use tyrdbs.Node.{Entry}
use tyrdbs.NodeWriter.{set_entry}
use tyrdbs.NodeWriter.Layout.{set_entry-outside}

module _ (m : Memory) (at top at_key at_value low : ℕ) (key value attributes : List ℕ) (e : Entry)
    (key_ends : at_key + length key ≡ top) (value_ends : at_value + length value ≡ at_key)
    (attributes_end : low + length attributes ≡ at_value) (room : at + 6 ≤ low) where
  abbrev m1 : Memory
  m1 = store m at_key key

  abbrev m2 : Memory
  m2 = store m1 at_value value

  abbrev m3 : Memory
  m3 = store m2 low attributes

  abbrev pub m4 : Memory
  m4 = set_entry at e m3

  -- the bytes outside the new entry and the new blocks
  pub kept-below : (a b : ℕ) → b ≤ at → Same m m4 a b
  kept-below a b h i _ l = sym (
      set_entry-outside at e m3 i (inl (omega arith))
      ∙ store-below m2 low attributes i (omega arith)
      ∙ store-below m1 at_value value i (omega arith)
      ∙ store-below m at_key key i (omega arith))

  pub kept-above : (a b : ℕ) → top ≤ a → Same m m4 a b
  kept-above a b h i l _ = sym (
      set_entry-outside at e m3 i (inr (omega arith))
      ∙ store-above m2 low attributes i (omega arith)
      ∙ store-above m1 at_value value i (omega arith)
      ∙ store-above m at_key key i (omega arith))

  pub key-written : load m4 at_key (length key) ≡ key
  key-written =
      load-Same m4 m1 at_key (length key) (λ i a _.
        set_entry-outside at e m3 i (inr (omega arith))
        ∙ store-above m2 low attributes i (omega arith)
        ∙ store-above m1 at_value value i (omega arith))
      ∙ load-store m at_key key

  pub value-written : load m4 at_value (length value) ≡ value
  value-written =
      load-Same m4 m2 at_value (length value) (λ i a _.
        set_entry-outside at e m3 i (inr (omega arith))
        ∙ store-above m2 low attributes i (omega arith))
      ∙ load-store m1 at_value value

  pub attributes-written : load m4 low (length attributes) ≡ attributes
  attributes-written =
      load-Same m4 m3 low (length attributes)
        (λ i a _. set_entry-outside at e m3 i (inr (omega arith)))
      ∙ load-store m2 low attributes
