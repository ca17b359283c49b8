-- ===== src/NodeWriter/Adding.antt =====
-- What `add` does to a writer whose node holds the items added so far.
use tyrdbs.Prelude.{
  ℕ, zero, suc, ◌+◌, ◌-◌, ◌*◌, ◌/◌, ◌%◌, ◌^◌, min, ◌≤◌, ◌<◌, ◌≡◌, refl, sym, ap, ◌∙◌, ◌⊎◌, inl, inr,
  Bool, true, false, ◌&&◌, List, [], ◌∷◌, ◌++◌, arith, ◌==◌, ltb, if◌then◌else◌, Bool-cases, dec_lt,
  length, length-append, length-take, take, Option, none, some, get_elem?,
}
use mathlib.Core.Option.{some-injective}
use Prim.Native.Nat.{max}
use tyrdbs.Prelude.Memory.{load, load16, store}
use tyrdbs.Node.{node_size, Entry, entry_address}
use tyrdbs.NodeWriter.{
  NodeWriter, node_writer, opened, internal_reset, add, set_entry, next_entry, allocate, copy,
  copy_value, copy_attributes, has_enough_space, required_size,
}
use tyrdbs.NodeWriter.Layout.{Item, Placed, Placed-Same, set_entry-words}
use tyrdbs.NodeWriter.Written.{
  kept-below, kept-above, key-written, value-written, attributes-written,
}
use mathlib.Core.Path.{subst}

-- The writer's node holds these items, and its counters go with them.
pub record Contains (w : NodeWriter) (items : List Item) : Type 0 where
  pub is_open : w.has_node ≡ true
  pub count : w.writer_key_count ≡ length items
  pub entries_end : w.entry_offset ≡ 2 + length items * 6
  pub in_order : w.entry_offset ≤ w.data_offset
  pub in_node : w.data_offset ≤ node_size
  pub placed :
      (i : ℕ) (item : Item)
      → get_elem? items i ≡ some item
      → Placed w.writer_data w.data_offset i item

pub opened-Contains : (w : NodeWriter) (items : List Item) → Contains w items → opened w ≡ w
unfolding opened
opened-Contains w items c = rw c.is_open refl

pub node_writer-Contains : Contains (opened node_writer) []
unfolding opened internal_reset node_writer
node_writer-Contains = record {
  is_open = refl;
  count = refl;
  entries_end = refl;
  in_order = omega arith;
  in_node = omega arith;
  placed = λ i item h. absurd (cc h);
}

-- The room that `add` asks for, without the wrap.
abbrev pub needed : (key value attributes : List ℕ) → (no_split : Bool) → ℕ
needed key value attributes no_split =
    6
    + length key
    + length attributes
    + (if no_split then length value else max 16 (length value / 8))

-- the last of the items, or one of those before
get_elem?-snoc :
    (items : List Item) (x : Item) (i : ℕ) (item : Item)
    → get_elem? (items ++ (x ∷ [])) i ≡ some item
    → ((i < length items) × (get_elem? items i ≡ some item)) ⊎ ((i ≡ length items) × (x ≡ item))
get_elem?-snoc [] x zero item h = inr (refl, some-injective x item h)
get_elem?-snoc [] x (suc i) item h = absurd (cc h)
get_elem?-snoc (y ∷ ys) x zero item h = inl (omega arith, h)
get_elem?-snoc (y ∷ ys) x (suc i) item h = elim (get_elem?-snoc ys x i item h) [
  | inl (l, e) ↦ inl (omega arith, e)
  | inr (l, e) ↦ inr (omega arith, e)
]

module _ (w : NodeWriter) (items : List Item) (c : Contains w items) (key value : List ℕ)
    (eor deleted : Bool) (attributes : List ℕ) (no_split : Bool) (short_key : length key < 1024)
    (no_wrap : needed key value attributes no_split < 65536) where
  needs :
      required_size key value (length attributes) no_split ≡ needed key value attributes no_split
  unfolding required_size
  needs = elim (Bool-cases no_split) [
    | inl e ↦ rw e (
        let f : needed key value attributes true < 65536 = (let n' = rw e at no_wrap in n') in
        omega (arith, f))
    | inr e ↦ rw e (
        let f : needed key value attributes false < 65536 = (let n' = rw e at no_wrap in n') in
        omega (arith, f))
  ]

  enough :
      w.entry_offset + needed key value attributes no_split ≤ w.data_offset
      → has_enough_space key value (length attributes) no_split w ≡ true
  unfolding has_enough_space
  enough h =
      let e : ltb w.data_offset (w.entry_offset + needed key value attributes no_split) ≡ false =
        ground arith in
      rw (needs, e) refl

  not_enough :
      w.data_offset < w.entry_offset + needed key value attributes no_split
      → has_enough_space key value (length attributes) no_split w ≡ false
  unfolding has_enough_space
  not_enough h =
      let e : ltb w.data_offset (w.entry_offset + needed key value attributes no_split) ≡ true =
        ground arith in
      rw (needs, e) refl

  -- how much of the value goes into this node, and where the blocks begin
  abbrev available : ℕ
  available = w.data_offset - length key - (w.entry_offset + 6 + length attributes)

  abbrev pub part : ℕ
  part = min available (length value)

  abbrev key_start : ℕ
  key_start = w.data_offset - length key

  abbrev value_start : ℕ
  value_start = key_start - part

  abbrev attributes_start : ℕ
  attributes_start = value_start - length attributes

  abbrev entry : Entry
  entry = record {
    value_size = part;
    key_offset = key_start;
    key_size = length key;
    eor = eor && (length value == part);
    deleted = deleted;
  }

  abbrev pub added : Item
  added = record {
    key = key;
    value = take part value;
    eor = eor && (length value == part);
    deleted = deleted;
    attributes = attributes;
  }

  abbrev pub after : NodeWriter
  after = record {
    has_node = w.has_node;
    writer_data = set_entry w.entry_offset entry (
        store (store (store w.writer_data key_start key) value_start (take part value))
          attributes_start attributes);
    entry_offset = w.entry_offset + 6;
    data_offset = attributes_start;
    writer_key_count = w.writer_key_count + 1;
  }

  module _ (fits : w.entry_offset + needed key value attributes no_split ≤ w.data_offset) where
    least : 6 + length key + length attributes ≤ needed key value attributes no_split
    least = omega arith

    pub add-after : add key value eor deleted attributes no_split w ≡ (some part, after)
    unfolding add next_entry copy copy_value copy_attributes allocate
    add-after =
        let bound : w.data_offset ≤ 8128 = c.in_node in
        let e1 : (w.entry_offset + 6) % 2 ^ 16 ≡ w.entry_offset + 6 = omega (arith, fits, least) in
        let e2 : (w.writer_key_count + 1) % 2 ^ 16 ≡ w.writer_key_count + 1 =
          omega (arith, c.count, c.entries_end, c.in_order) in
        let e3 : (w.data_offset + (2 ^ 16 - length key)) % 2 ^ 16 ≡ key_start =
          omega (arith, fits, least) in
        let e4 : (key_start + (2 ^ 32 - (w.entry_offset + 6 + length attributes))) % 2 ^ 32
            ≡ available =
          omega (arith, fits, least) in
        let e5 : part % 2 ^ 16 ≡ part = omega arith in
        let e6 : (key_start + (2 ^ 16 - part)) % 2 ^ 16 ≡ value_start =
          omega (arith, fits, least) in
        let e7 : (value_start + (2 ^ 16 - length attributes)) % 2 ^ 16 ≡ attributes_start =
          omega (arith, fits, least) in
        rw (opened-Contains w items c, enough fits, e1, e2, e3, e4, e5, e6, e7) refl

    length-part : length (take part value) ≡ part
    length-part = length-take part value ∙ omega arith

    key_ends : key_start + length key ≡ w.data_offset
    key_ends = omega (arith, fits, least)

    value_ends : value_start + length (take part value) ≡ key_start
    value_ends = omega (arith, fits, least, length-part)

    attributes_end : attributes_start + length attributes ≡ value_start
    attributes_end = omega (arith, fits, least)

    room : w.entry_offset + 6 ≤ attributes_start
    room = omega (arith, fits, least)

    abbrev address : ℕ
    address = entry_address (length items)

    new-Placed : Placed after.writer_data attributes_start (length items) added
    new-Placed =
        let bound : w.data_offset ≤ 8128 = c.in_node in
        let here : address ≡ w.entry_offset = omega (arith, c.entries_end) in
        let (value_word, offset_word, flags_word) =
          set_entry-words w.entry_offset entry
            (store (store (store w.writer_data key_start key) value_start (take part value))
              attributes_start attributes)
            (omega arith) (omega arith) in
        record {
          at_key = key_start;
          value_word = ap (load16 after.writer_data) here ∙ value_word ∙ sym length-part;
          offset_word = ap (λ a. load16 after.writer_data (a + 2)) here ∙ offset_word;
          flags_word = ap (λ a. load16 after.writer_data (a + 4)) here ∙ flags_word;
          above_low = omega (arith, fits, least, length-part);
          inside = omega (arith, key_ends);
          short_key = short_key;
          key_bytes =
              key-written w.writer_data w.entry_offset w.data_offset key_start value_start
                attributes_start key (take part value) attributes entry key_ends value_ends
                attributes_end room;
          value_bytes =
              ap (λ n. load after.writer_data (key_start - n) (length (take part value)))
                length-part
              ∙ value-written w.writer_data w.entry_offset w.data_offset key_start value_start
                  attributes_start key (take part value) attributes entry key_ends value_ends
                  attributes_end room;
          attribute_bytes =
              ap
                (λ n.
                  load after.writer_data (key_start - n - length attributes) (length attributes))
                length-part
              ∙ attributes-written w.writer_data w.entry_offset w.data_offset key_start value_start
                  attributes_start key (take part value) attributes entry key_ends value_ends
                  attributes_end room;
        }

    old-Placed :
        (i : ℕ) (item : Item)
        → i < length items
        → get_elem? items i ≡ some item
        → Placed after.writer_data attributes_start i item
    old-Placed i item l e =
        Placed-Same w.writer_data after.writer_data w.data_offset attributes_start i item
          (omega arith)
          (kept-below w.writer_data w.entry_offset w.data_offset key_start value_start
            attributes_start key (take part value) attributes entry key_ends value_ends
            attributes_end room (entry_address i) (entry_address i + 6)
            (omega (arith, l, c.entries_end)))
          (kept-above w.writer_data w.entry_offset w.data_offset key_start value_start
            attributes_start key (take part value) attributes entry key_ends value_ends
            attributes_end room w.data_offset node_size (omega arith))
          (c.placed i item e)

    pub after-Contains : Contains after (items ++ (added ∷ []))
    after-Contains =
        let bound : w.data_offset ≤ 8128 = c.in_node in
        let grown : length (items ++ (added ∷ [])) ≡ length items + 1 =
          length-append items (added ∷ []) in
        record {
          is_open = c.is_open;
          count = omega (arith, grown, c.count);
          entries_end = omega (arith, grown, c.entries_end);
          in_order = room;
          in_node = omega arith;
          placed = λ i item h. elim (get_elem?-snoc items added i item h) [
            | inl (l, e) ↦ old-Placed i item l e
            | inr (last, same) ↦
                subst (λ t. Placed after.writer_data attributes_start i t) same
                  (subst (λ t. Placed after.writer_data attributes_start t added) (sym last)
                    new-Placed)
          ];
        }

  taken :
      w.entry_offset + needed key value attributes no_split ≤ w.data_offset
      → (part ≡ length value) ⊎ ((no_split ≡ false) × (16 ≤ part))
  taken fits = elim (Bool-cases no_split) [
    | inl e ↦
        let f : w.entry_offset + needed key value attributes true ≤ w.data_offset =
          (let f' = rw e at fits in f') in
        inl (omega (arith, f))
    | inr e ↦
        let f : w.entry_offset + needed key value attributes false ≤ w.data_offset =
          (let f' = rw e at fits in f') in
        elim (dec_lt part 16) [
          | yes small ↦ inl (omega (arith, f, small))
          | no large ↦ inr (e, omega (arith, large))
        ]
  ]

  abbrev result : Option ℕ × NodeWriter
  result = add key value eor deleted attributes no_split w

  -- what `add` does, whatever the key
  pub add-cases :
      ((w.data_offset < w.entry_offset + needed key value attributes no_split)
        × (result ≡ (none, w)))
      ⊎ ((w.entry_offset + needed key value attributes no_split ≤ w.data_offset)
          × (result.0 ≡ some part)
          × ((part ≡ length value) ⊎ ((no_split ≡ false) × (16 ≤ part)))
          × Contains result.1 (items ++ (added ∷ [])))
  unfolding add
  add-cases = elim (dec_lt w.data_offset (w.entry_offset + needed key value attributes no_split)) [
    | yes p ↦ inl (p, (rw (opened-Contains w items c, not_enough p) refl))
    | no p ↦
        let fits : w.entry_offset + needed key value attributes no_split ≤ w.data_offset =
          omega arith in
        inr (
          fits,
          ap (λ r. r.0) (add-after fits),
          taken fits,
          subst (λ r. Contains r.1 (items ++ (added ∷ []))) (sym (add-after fits))
              (after-Contains fits),
        )
  ]

  module _ (some_key : 0 < length key) where
    -- For a writer whose node holds `items`, a key of 1 to 1023 bytes and sizes whose sum stays below
    -- 2 ^ 16: when the node has not the room that `has_enough_space` asks for, `add` returns -1 and
    -- changes nothing. Otherwise it returns the number of the bytes of the value that it took, all
    -- of them with `no_split`, and else all of them or at least sixteen; the node holds the items
    -- and behind them the new one, with that part of the value, and its end of record is that of the
    -- caller only when the part is the whole value.
    pub add-Contains :
        ((w.data_offset < w.entry_offset + needed key value attributes no_split)
          × (result ≡ (none, w)))
        ⊎ ((w.entry_offset + needed key value attributes no_split ≤ w.data_offset)
            × (result.0 ≡ some part)
            × ((part ≡ length value) ⊎ ((no_split ≡ false) × (16 ≤ part)))
            × Contains result.1 (items ++ (added ∷ [])))
    add-Contains = add-cases
