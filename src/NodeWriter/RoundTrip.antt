-- ===== src/NodeWriter/RoundTrip.antt =====
-- Items added to a writer, flushed as a compressed page and loaded as a node again.
use tyrdbs.Prelude.{
  ℕ, zero, suc, ◌+◌, ◌-◌, ◌≤◌, ◌<◌, ◌≡◌, refl, sym, ap, ◌∙◌, inl, inr, Bool, true, false, ◌&&◌,
  List, [], ◌∷◌, ◌++◌, append-nil, append_assoc, arith, ◌==◌, ==_iff, Bool-cases, length, take,
  Option, none, some, get_elem?, get_or, Every,
}
use mathlib.Core.Path.{subst}
use tyrdbs.Prelude.Memory.{
  Memory, load, load16, store16, Same, length-load, load16-Same, load16-store16, store16-outside,
  get_or-load,
}
use tyrdbs.Node.{Node, node, load_node, node_size, key_count, entry_address}
use tyrdbs.NodeWriter.{NodeWriter, node_writer, opened, internal_reset, add, flush}
use tyrdbs.NodeWriter.Layout.{Item, Placed, Placed-Same, Placed-Holds, Holds}
use tyrdbs.NodeWriter.Adding.{
  Contains, opened-Contains, node_writer-Contains, needed, part, added, after, add-after,
  after-Contains,
}

-- One `add` after the other, none of them split, until one is refused.
unfoldable pub write_items : List Item → NodeWriter → Option NodeWriter
write_items [] w = some w
write_items (x ∷ xs) w =
    let (r, w1) = add x.key x.value x.eor x.deleted x.attributes true w in
    let rest = write_items xs w1 in elim r [ none ↦ none | some taken ↦ rest ]

abbrev pub IsItem : Item → Type 0
IsItem x = (0 < length x.key) × (length x.key < 1024)

-- the bytes that an item takes in a node
abbrev pub item_size : Item → ℕ
item_size x = 6 + length x.key + length x.attributes + length x.value

abbrev pub items_size : List Item → ℕ
items_size [] = 0
items_size (x ∷ xs) = item_size x + items_size xs

pub opened-opened : (w : NodeWriter) → opened (opened w) ≡ opened w
unfolding opened
opened-opened w = elim (Bool-cases w.has_node) [ inl e ↦ rw e refl | inr e ↦ rw e refl ]

add-opened :
    (x : Item) (w : NodeWriter)
    → add x.key x.value x.eor x.deleted x.attributes true w
      ≡ add x.key x.value x.eor x.deleted x.attributes true (opened w)
unfolding add
add-opened x w = rw (opened-opened w) refl

and_true : (b : Bool) → (b && true) ≡ b
and_true true = refl
and_true false = refl

take-length : (xs : List ℕ) → take (length xs) xs ≡ xs
take-length [] = refl
take-length (x ∷ xs) = ap (λ t. x ∷ t) (take-length xs)

-- An item that fits goes in whole.
module _ (w : NodeWriter) (items : List Item) (c : Contains w items) (x : Item)
    (short : length x.key < 1024) (room : w.entry_offset + item_size x ≤ w.data_offset) where
  no_wrap : needed x.key x.value x.attributes true < 65536
  no_wrap = let bound : w.data_offset ≤ 8128 = c.in_node in omega arith

  -- the item with the first `n` bytes of its value
  abbrev cut : ℕ → Item
  cut n = record x { value = take n x.value; eor = x.eor && (length x.value == n) }

  add_whole :
      (w' : NodeWriter) × (add x.key x.value x.eor x.deleted x.attributes true w
        ≡ (some (length x.value), w'))
      × (w'.entry_offset ≡ w.entry_offset + 6)
      × (w'.data_offset ≡ w.data_offset - (item_size x - 6))
      × Contains w' (items ++ (x ∷ []))
  add_whole =
      let p : ℕ = part w items c x.key x.value x.eor x.deleted x.attributes true short no_wrap in
      let whole : p ≡ length x.value = omega arith in
      let same : added w items c x.key x.value x.eor x.deleted x.attributes true short no_wrap ≡ x =
        ap (λ n. cut n) {x = p} {y = length x.value} whole
        ∙ (let all : (length x.value == length x.value) ≡ true =
              (==_iff (length x.value) (length x.value)).1 refl in
            rw (take-length x.value, all, and_true x.eor) refl) in
      let w' : NodeWriter =
        after w items c x.key x.value x.eor x.deleted x.attributes true short no_wrap in
      (
        w',
        add-after w items c x.key x.value x.eor x.deleted x.attributes true short no_wrap room
            ∙ ap (λ n. (some n, w')) whole,
        refl,
        omega (arith, whole),
        subst (λ t. Contains w' (items ++ (t ∷ []))) same
            (after-Contains w items c x.key x.value x.eor x.deleted x.attributes true short no_wrap
              room),
      )

write_items-cons :
    (x : Item) (xs : List Item) (w : NodeWriter) (n : ℕ) (w1 : NodeWriter)
    → add x.key x.value x.eor x.deleted x.attributes true w ≡ (some n, w1)
    → write_items (x ∷ xs) w ≡ write_items xs w1
unfolding write_items
write_items-cons x xs w n w1 e =
    ap (λ p. elim p.0 as (λ _. Option NodeWriter) [ none ↦ none | some taken ↦ write_items xs p.1 ])
      e

write_items-Contains :
    (xs : List Item) (w : NodeWriter) (items : List Item)
    → Contains (opened w) items
    → Every IsItem xs
    → (opened w).entry_offset + items_size xs ≤ (opened w).data_offset
    → (w' : NodeWriter) × (write_items xs w ≡ some w') × Contains (opened w') (items ++ xs)
unfolding write_items
write_items-Contains [] w items c h fits =
    (w, refl, subst (Contains (opened w)) (sym (append-nil items)) c)
write_items-Contains (x ∷ xs) w items c (hx, hxs) fits =
    let (w1, done, entries, bytes, c1) = add_whole (opened w) items c x hx.1 (omega arith) in
    let o1 : opened w1 ≡ w1 = opened-Contains w1 (items ++ (x ∷ [])) c1 in
    let (w', rest, c') =
      write_items-Contains xs w1 (items ++ (x ∷ []))
        (subst (λ t. Contains t (items ++ (x ∷ []))) (sym o1) c1) hxs
        (rw o1 (omega (arith, entries, bytes))) in
    (
      w',
      write_items-cons x xs w (length x.value) w1 (add-opened x w ∙ done) ∙ rest,
      subst (Contains (opened w')) (append_assoc items (x ∷ []) xs) c',
    )

-- What the codec of the pages promises for a sink of this size: every node is compressed, and
-- decompressed again.
abbrev pub IsCodec : (List ℕ → ℕ → Option (List ℕ)) → (List ℕ → Option (List ℕ)) → ℕ → Type 0
IsCodec compress decompress sink_size =
    (bytes : List ℕ)
    → length bytes ≡ node_size
    → (page : List ℕ) × (compress bytes sink_size ≡ some page) × (decompress page ≡ some bytes)

-- the memory of a loaded node
abbrev loaded_memory : List ℕ → Memory
loaded_memory bytes i = get_or bytes i 0

loaded-Same : (m : Memory) (size : ℕ) → Same m (loaded_memory (load m 0 size)) 0 size
loaded-Same m size i _ h = sym (get_or-load m 0 size i h ∙ ap m (omega arith))

load_node-bytes :
    (decompress : List ℕ → Option (List ℕ)) (page bytes : List ℕ)
    → decompress page ≡ some bytes
    → length bytes ≡ node_size
    → load_node decompress page node
      ≡ some (record node {
        node_data = loaded_memory bytes;
        node_key_count = load16 (loaded_memory bytes) 0;
      })
unfolding load_node
load_node-bytes decompress page bytes e size =
    let right : (length bytes == node_size) ≡ true = (==_iff (length bytes) node_size).1 size in
    rw (load_node, e, right) refl

get_elem?-lt :
    (items : List Item) (i : ℕ) (item : Item) → get_elem? items i ≡ some item → i < length items
get_elem?-lt [] i item h = absurd (cc h)
get_elem?-lt (x ∷ xs) zero item h = omega arith
get_elem?-lt (x ∷ xs) (suc i) item h = omega (arith, get_elem?-lt xs i item h)

opened_room :
    (items : List Item)
    → 2 + items_size items ≤ node_size
    → (opened node_writer).entry_offset + items_size items ≤ (opened node_writer).data_offset
unfolding opened internal_reset node_writer
opened_room items h = h

module _ (compress : List ℕ → ℕ → Option (List ℕ)) (decompress : List ℕ → Option (List ℕ))
    (sink_size : ℕ) (codec : IsCodec compress decompress sink_size) where
  -- A page that was flushed loads as a node with the items of the writer.
  pub flush-load :
      (w : NodeWriter) (items : List Item)
      → Contains (opened w) items
      → (page : List ℕ) × (n : Node) × ((flush compress sink_size w).0 ≡ some page)
        × (load_node decompress page node ≡ some n)
        × (key_count n ≡ length items)
        × ((i : ℕ) (item : Item) → get_elem? items i ≡ some item → Holds n i item)
  unfolding flush key_count
  flush-load w items c =
      let m : Memory = store16 (opened w).writer_data 0 (opened w).writer_key_count in
      let bytes : List ℕ = load m 0 node_size in
      let (page, packed, unpacked) = codec bytes (length-load m 0 node_size) in
      let counted : load16 (loaded_memory bytes) 0 ≡ length items =
        sym (
          load16-Same m (loaded_memory bytes) 0
            (λ j a b. loaded-Same m node_size j a (omega arith)))
        ∙ load16-store16 (opened w).writer_data 0 (opened w).writer_key_count
            (omega (arith, c.count, c.entries_end, c.in_order, c.in_node))
        ∙ c.count in
      let kept : (a b : ℕ)
          → 2 ≤ a
          → b ≤ node_size
          → Same (opened w).writer_data (loaded_memory bytes) a b =
        λ a b low high i p q.
          sym (
            store16-outside (opened w).writer_data 0 (opened w).writer_key_count i
              (inr (omega arith)))
          ∙ loaded-Same m node_size i (omega arith) (omega arith) in
      let n : Node = record node {
        node_data = loaded_memory bytes;
        node_key_count = load16 (loaded_memory bytes) 0;
      } in
      (
        page,
        n,
        packed,
        load_node-bytes decompress page bytes unpacked (length-load m 0 node_size),
        counted,
        λ i item e.
            let p : Placed (opened w).writer_data (opened w).data_offset i item =
              c.placed i item e in
            Placed-Holds n (opened w).data_offset i item (
              Placed-Same (opened w).writer_data (loaded_memory bytes) (opened w).data_offset
                (opened w).data_offset i item (omega arith)
                (kept (entry_address i) (entry_address i + 6) (omega arith) (
                  omega (arith, get_elem?-lt items i item e, c.entries_end, c.in_order, c.in_node)))
                (kept (opened w).data_offset node_size (omega (arith, c.entries_end, c.in_order))
                  (omega arith))
                p),
      )

  -- Items with keys from 1 to 1023 bytes whose sizes, six bytes for each included, add up to no more
  -- than the node has behind its first two bytes: a new writer takes them all, one `add` after
  -- the other, and when the page that it flushes is loaded, the node has their number, and gives
  -- back each item at its index, the key, the value, both flags and the attributes.
  pub write_items-load :
      (items : List Item)
      → Every IsItem items
      → 2 + items_size items ≤ node_size
      → (w : NodeWriter) × (page : List ℕ) × (n : Node) × (write_items items node_writer ≡ some w)
        × ((flush compress sink_size w).0 ≡ some page)
        × (load_node decompress page node ≡ some n)
        × (key_count n ≡ length items)
        × ((i : ℕ) (item : Item) → get_elem? items i ≡ some item → Holds n i item)
  write_items-load items short fits =
      let start : Contains (opened node_writer) [] = node_writer-Contains in
      let (w, written, c) =
        write_items-Contains items node_writer [] start short (opened_room items fits) in
      let (page, n, packed, unpacked, counted, held) = flush-load w items c in
      (w, page, n, written, packed, unpacked, counted, held)
