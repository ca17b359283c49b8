-- ===== src/Slice/Kept.antt =====
-- Node writers as a slice writer keeps them: fresh, or with an item at least.
use tyrdbs.Prelude.{
  ℕ, ◌^◌, ◌+◌, ◌≤◌, ◌<◌, ◌≡◌, refl, sym, ap, ◌∙◌, ◌⊎◌, inl, inr, Bool, false, ◌&&◌, Option, none,
  some, List, [], ◌∷◌, ◌++◌, arith, ◌==◌, length, length-append, take, Every, Every-append,
}
use mathlib.Core.Path.{subst}
use tyrdbs.Node.{Node, node_size, page_size}
use tyrdbs.NodeWriter.{NodeWriter, node_writer, opened, internal_reset, add, flush, reset}
use tyrdbs.NodeWriter.Layout.{Item}
use tyrdbs.NodeWriter.Adding.{
  Contains, needed, part, after, add-cases, add-after, opened-Contains, node_writer-Contains,
}
use tyrdbs.NodeWriter.RoundTrip.{IsCodec, flush-load, opened-opened}
use tyrdbs.SliceWriter.Store.{SliceFile, store, store_page}
use tyrdbs.Slice.Load.{store-flushed, store_page-total, store_page-place, place_of-narrow}
use tyrdbs.Slice.Read.{HasIdx}

-- no item yet
abbrev pub IsFresh : NodeWriter → Type 0
IsFresh w = opened w ≡ opened node_writer

pub record Kept (w : NodeWriter) (items : List Item) : Type 0 where
  pub kept_contains : Contains (opened w) items
  pub kept_some : IsFresh w ⊎ (0 < length items)
  pub kept_idx : Every HasIdx items

pub fresh-Kept : (w : NodeWriter) → IsFresh w → Kept w []
fresh-Kept w fresh = record {
  kept_contains = subst (λ v. Contains v []) (sym fresh) node_writer-Contains;
  kept_some = inl fresh;
  kept_idx = tt;
}

pub Kept-opened : (w : NodeWriter) (items : List Item) → Kept w items → Kept (opened w) items
Kept-opened w items k = record {
  kept_contains = subst (λ v. Contains v items) (sym (opened-opened w)) k.kept_contains;
  kept_some = elim k.kept_some [ inl e ↦ inl (opened-opened w ∙ e) | inr h ↦ inr h ];
  kept_idx = k.kept_idx;
}

pub node_writer-IsFresh : IsFresh node_writer
node_writer-IsFresh = refl

-- the room of a fresh node
pub fresh_room :
    (w : NodeWriter)
    → IsFresh w
    → ((opened w).entry_offset ≡ 2) × ((opened w).data_offset ≡ node_size)
unfolding opened internal_reset node_writer
fresh_room w e = (ap (λ v. v.entry_offset) e, ap (λ v. v.data_offset) e)

pub add-opened :
    (key value : List ℕ) (eor deleted : Bool) (attributes : List ℕ) (no_split : Bool)
    (w : NodeWriter)
    → add key value eor deleted attributes no_split w
      ≡ add key value eor deleted attributes no_split (opened w)
unfolding add
add-opened key value eor deleted attributes no_split w = rw (opened-opened w) refl

module _ (key value : List ℕ) (eor deleted : Bool) (attributes : List ℕ) (no_split : Bool)
    (short_key : length key < 1024) (idx : length attributes ≡ 8)
    (room : needed key value attributes no_split ≤ 8126) where
  -- the item with the first bytes of the value
  abbrev pub piece : ℕ → Item
  piece p = record {
    key = key;
    value = take p value;
    eor = eor && (length value == p);
    deleted = deleted;
    attributes = attributes;
  }

  abbrev answer : NodeWriter → Option ℕ × NodeWriter
  answer w = add key value eor deleted attributes no_split w

  -- What `add` has taken.
  pub record Taken (w : NodeWriter) (items : List Item) : Type 0 where
    pub taken_bytes : ℕ
    pub taken_writer : NodeWriter
    pub taken_answer : answer w ≡ (some taken_bytes, taken_writer)
    pub taken_enough : (taken_bytes ≡ length value) ⊎ ((no_split ≡ false) × (16 ≤ taken_bytes))
    pub taken_within : taken_bytes ≤ length value
    pub taken_entries : (opened taken_writer).entry_offset ≡ (opened w).entry_offset + 6
    pub taken_data :
        (opened w).data_offset ≤ (opened taken_writer).data_offset + (length key + length value + 8)
    pub taken_kept : Kept taken_writer (items ++ (piece taken_bytes ∷ []))

  pub add-Taken :
      (w : NodeWriter) (items : List Item)
      → Kept w items
      → ((0 < length items)
          × (answer w ≡ (none, opened w))
          × ((opened w).data_offset
              < (opened w).entry_offset + needed key value attributes no_split))
        ⊎ Taken w items
  add-Taken w items k =
      elim (add-cases (opened w) items k.kept_contains key value eor deleted attributes no_split
        short_key (omega arith)) [
          | inl (full, same) ↦ elim k.kept_some [
            | inl fresh ↦
                let (low, high) = fresh_room w fresh in absurd (omega (arith, full, low, high))
            | inr some_items ↦
                inl
                  (some_items, add-opened key value eor deleted attributes no_split w ∙ same, full)
          ]
          | inr (fits, number, enough, contains) ↦
              let p : ℕ =
                part (opened w) items k.kept_contains key value eor deleted attributes no_split
                  short_key (omega arith) in
              let w' : NodeWriter = (answer (opened w)).1 in
              let same : opened w'
                  ≡ after (opened w) items k.kept_contains key value eor deleted attributes no_split
                      short_key (omega arith) =
                opened-Contains w' (items ++ (piece p ∷ [])) contains
                ∙ ap (λ r. r.1)
                    (add-after (opened w) items k.kept_contains key value eor deleted attributes
                      no_split short_key (omega arith) fits) in
              inr (record {
                taken_bytes = p;
                taken_writer = w';
                taken_answer =
                    add-opened key value eor deleted attributes no_split w
                    ∙ ap (λ n. (n, w')) number;
                taken_enough = enough;
                taken_within = omega arith;
                taken_entries = rw same refl;
                taken_data = rw same (omega (arith, idx));
                taken_kept = record {
                  kept_contains =
                      subst (λ v. Contains v (items ++ (piece p ∷ [])))
                        (sym (opened-Contains w' (items ++ (piece p ∷ [])) contains)) contains;
                  kept_some = inr (omega (arith, length-append items (piece p ∷ [])));
                  kept_idx = Every-append HasIdx items (piece p ∷ []) k.kept_idx (idx, tt);
                };
              })
        ]

  pub add-fresh : (w : NodeWriter) → IsFresh w → Taken w []
  add-fresh w fresh = elim (add-Taken w [] (fresh-Kept w fresh)) [
    | inl (some_items, e, full) ↦ absurd (omega (arith, some_items))
    | inr t ↦ t
  ]

-- What a store leaves behind: a fresh node.
module _ (compress : List ℕ → ℕ → Option (List ℕ)) (decompress : List ℕ → Option (List ℕ))
    (crc32c : List ℕ → ℕ) (codec : IsCodec compress decompress page_size) where
  pub record Stores (w : NodeWriter) (leaf : Bool) (f : SliceFile) : Type 0 where
    pub stores_at : ℕ
    pub stores_writer : NodeWriter
    pub stores_file : SliceFile
    pub stores_answer :
        store compress crc32c w leaf f ≡ some (stores_at, stores_writer, stores_file)
    pub stores_nodes : stores_file.total_nodes ≡ f.total_nodes + 1
    pub stores_fresh : IsFresh stores_writer
    pub stores_narrow : stores_at < 2 ^ 48

  pub store-Stores :
      (w : NodeWriter) (items : List Item) (leaf : Bool) (f : SliceFile)
      → Kept w items
      → Stores w leaf f
  unfolding opened reset node_writer
  store-Stores w items leaf f k =
      let (page, n, flushed, loaded, counted, held) =
        flush-load compress decompress page_size codec w items k.kept_contains in
      let written : Node × NodeWriter = reset (flush compress page_size w).1 in
      let done : ℕ × SliceFile = store_page compress crc32c page written.0 leaf f in
      record {
        stores_at = done.0;
        stores_writer = written.1;
        stores_file = done.1;
        stores_answer = store-flushed compress crc32c w leaf f page flushed;
        stores_nodes = store_page-total compress crc32c page written.0 leaf f;
        stores_fresh = refl;
        stores_narrow = omega (
          arith,
          store_page-place compress crc32c page written.0 leaf f,
          place_of-narrow page leaf f,
        );
      }
