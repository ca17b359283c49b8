-- ===== src/Slice/Indexing.antt =====
-- What the index of a slice writer stores: nodes of the index, and the levels keep their items.
use tyrdbs.Prelude.{
  ℕ, suc, ◌+◌, ◌≤◌, ◌<◌, ◌≡◌, refl, sym, ap, ◌∙◌, ◌⊎◌, inl, inr, true, false, Option, none, some,
  List, [], ◌∷◌, arith, ◌==◌, length, Every, Bool-cases,
}
use mathlib.Core.Path.{subst}
use tyrdbs.Prelude.Memory.{length-to_bytes}
use tyrdbs.Node.{page_size}
use tyrdbs.NodeWriter.{NodeWriter, node_writer, opened, add}
use tyrdbs.NodeWriter.Layout.{Item}
use tyrdbs.NodeWriter.Adding.{needed}
use tyrdbs.NodeWriter.RoundTrip.{IsCodec}
use tyrdbs.SliceWriter.Store.{SliceFile, store}
use tyrdbs.SliceWriter.Index.{IndexLevel, index_level, location_bytes, first_of_level, index_add}
use tyrdbs.Slice.Chain.{Filled, IsFilled, store_all, store_all-cons}
use tyrdbs.Slice.Read.{IsReadable}
use tyrdbs.Slice.Kept.{
  Kept, IsFresh, Taken, add-Taken, add-fresh, fresh_room, node_writer-IsFresh, store-Stores,
  Kept-opened,
}

-- a level with its items, and keys of a size that the index takes
pub record LevelKept (l : IndexLevel) : Type 0 where
  pub level_items : List Item
  pub level_kept : Kept l.level_node level_items
  pub short_first : length l.level_first_key < 1024
  pub short_last : length l.level_last_key < 1024

-- room for one more key at least
abbrev pub Light : IndexLevel → Type 0
Light l = (opened l.level_node).entry_offset + 2060 ≤ (opened l.level_node).data_offset

-- a stored node of the index
pub record IsIndexNode (x : Filled) : Type 0 where
  pub node_filled : IsFilled x
  pub node_readable : IsReadable x
  pub node_index : x.filled_leaf ≡ false

first_of_level-node :
    (key : List ℕ) (l : IndexLevel) → (first_of_level key l).level_node ≡ l.level_node
unfolding first_of_level
first_of_level-node key l = elim (Bool-cases (length l.level_first_key == 0)) [
  | inl e ↦ rw e refl
  | inr e ↦ rw e refl
]

first_of_level-key :
    (key : List ℕ) (l : IndexLevel)
    → length key < 1024
    → length l.level_first_key < 1024
    → length (first_of_level key l).level_first_key < 1024
unfolding first_of_level
first_of_level-key key l h hl = elim (Bool-cases (length l.level_first_key == 0)) [
  | inl e ↦ rw e h
  | inr e ↦ rw e hl
]

first_of_level-last :
    (key : List ℕ) (l : IndexLevel) → (first_of_level key l).level_last_key ≡ l.level_last_key
unfolding first_of_level
first_of_level-last key l = elim (Bool-cases (length l.level_first_key == 0)) [
  | inl e ↦ rw e refl
  | inr e ↦ rw e refl
]

first_of_level-LevelKept :
    (key : List ℕ) (l : IndexLevel)
    → length key < 1024
    → LevelKept l
    → LevelKept (first_of_level key l)
first_of_level-LevelKept key l h k = record {
  level_items = k.level_items;
  level_kept = subst (λ w. Kept w k.level_items) (sym (first_of_level-node key l)) k.level_kept;
  short_first = first_of_level-key key l h k.short_first;
  short_last = omega (arith, k.short_last, ap length (first_of_level-last key l));
}

module _ (compress : List ℕ → ℕ → Option (List ℕ)) (decompress : List ℕ → Option (List ℕ))
    (crc32c : List ℕ → ℕ) (codec : IsCodec compress decompress page_size) (min_key max_key : List ℕ)
    (at : ℕ) (short_min : length min_key < 1024) (short_max : length max_key < 1024) where
  eight : length (location_bytes at) ≡ 8
  eight = length-to_bytes 8 at

  abbrev Entered : NodeWriter → List Item → Type 0
  Entered =
      Taken min_key max_key true false (location_bytes at) true short_min eight
        (omega (arith, eight))

  enter_fresh : (w : NodeWriter) → IsFresh w → Entered w []
  enter_fresh =
      add-fresh min_key max_key true false (location_bytes at) true short_min eight
        (omega (arith, eight))

  enter :
      (w : NodeWriter) (items : List Item)
      → Kept w items
      → ((0 < length items)
          × (add min_key max_key true false (location_bytes at) true w ≡ (none, opened w))
          × ((opened w).data_offset
              < (opened w).entry_offset + needed min_key max_key (location_bytes at) true))
        ⊎ Entered w items
  enter =
      add-Taken min_key max_key true false (location_bytes at) true short_min eight
        (omega (arith, eight))

  abbrev level_with : NodeWriter → List ℕ → IndexLevel
  level_with nw first = record {
    level_node = nw;
    level_first_key = first;
    level_last_key = max_key;
  }

  Entered-LevelKept :
      (w : NodeWriter) (items : List Item) (first : List ℕ) (t : Entered w items)
      → length first < 1024
      → LevelKept (level_with t.taken_writer first)
  Entered-LevelKept w items first t h = record {
    level_items = _;
    level_kept = t.taken_kept;
    short_first = h;
    short_last = short_max;
  }

  Entered-Light :
      (w : NodeWriter) (first : List ℕ) (t : Entered w [])
      → IsFresh w
      → Light (level_with t.taken_writer first)
  Entered-Light w first t fresh =
      let (low, high) = fresh_room w fresh in
      omega (arith, t.taken_entries, t.taken_data, low, high)

  index_add-top :
      (f : SliceFile) (t : Entered node_writer [])
      → index_add compress crc32c min_key max_key at [] f
        ≡ some (level_with t.taken_writer min_key ∷ [], f)
  unfolding index_add first_of_level index_level
  index_add-top f t = ap (λ r. some (level_with r.1 min_key ∷ [], f)) t.taken_answer

  index_add-room :
      (l : IndexLevel) (higher : List IndexLevel) (f : SliceFile) (items : List Item)
      (t : Entered (first_of_level min_key l).level_node items)
      → index_add compress crc32c min_key max_key at (l ∷ higher) f
        ≡ some (level_with t.taken_writer (first_of_level min_key l).level_first_key ∷ higher, f)
  unfolding index_add
  index_add-room l higher f items t = rw (index_add, t.taken_answer, t.taken_answer) refl

  -- the levels and the file after the node of a level was stored and its keys went up
  index_add-full :
      (l : IndexLevel) (higher higher' : List IndexLevel) (f f' f'' : SliceFile)
      (nw nw' : NodeWriter) (at' : ℕ)
      → (let l1 : IndexLevel = first_of_level min_key l in
          add min_key max_key true false (location_bytes at) true l1.level_node ≡ (none, nw)
          → store compress crc32c nw false f ≡ some (at', nw', f')
          → index_add compress crc32c l1.level_first_key l1.level_last_key at' higher f'
            ≡ some (higher', f'')
          → (t : Entered nw' [])
          → index_add compress crc32c min_key max_key at (l ∷ higher) f
            ≡ some (level_with t.taken_writer min_key ∷ higher', f''))
  unfolding index_add
  index_add-full l higher higher' f f' f'' nw nw' at' refused stored up t =
      rw (index_add, refused, refused, stored, up, ap (λ r. r.1) t.taken_answer) refl

module _ (compress : List ℕ → ℕ → Option (List ℕ)) (decompress : List ℕ → Option (List ℕ))
    (crc32c : List ℕ → ℕ) (codec : IsCodec compress decompress page_size) where
  -- The index takes the keys: it stores some nodes of its own, and its levels keep their items. There
  -- is one level more only where all of them have room.
  pub record Indexed (levels : List IndexLevel) (f : SliceFile)
      (answer : Option (List IndexLevel × SliceFile)) : Type 0 where
    pub new_levels : List IndexLevel
    pub new_file : SliceFile
    pub nodes : List Filled
    pub indexed_answer : answer ≡ some (new_levels, new_file)
    pub nodes_index : Every IsIndexNode nodes
    pub nodes_stored : store_all compress crc32c nodes f ≡ some new_file
    pub levels_kept : Every LevelKept new_levels
    pub growth :
        (length new_levels ≡ length levels)
        ⊎ ((length new_levels ≡ suc (length levels)) × Every Light new_levels)

  pub index_add-Indexed :
      (levels : List IndexLevel) (min_key max_key : List ℕ) (at : ℕ) (f : SliceFile)
      → length min_key < 1024
      → length max_key < 1024
      → Every LevelKept levels
      → Indexed levels f (index_add compress crc32c min_key max_key at levels f)
  unfolding store_all node_writer
  index_add-Indexed [] min_key max_key at f hmin hmax k =
      let t =
        enter_fresh compress decompress crc32c codec min_key max_key at hmin hmax node_writer
          node_writer-IsFresh in
      record {
        new_levels = _;
        new_file = f;
        nodes = [];
        indexed_answer =
            index_add-top compress decompress crc32c codec min_key max_key at hmin hmax f t;
        nodes_index = tt;
        nodes_stored = refl;
        levels_kept = (
          Entered-LevelKept compress decompress crc32c codec min_key max_key at hmin hmax
              node_writer [] min_key t hmin,
          tt,
        );
        growth = inr (
          refl,
          (
            Entered-Light compress decompress crc32c codec min_key max_key at hmin hmax node_writer
                min_key t node_writer-IsFresh,
            tt,
          ),
        );
      }
  index_add-Indexed (l ∷ higher) min_key max_key at f hmin hmax (k, ks) =
      let l1 : IndexLevel = first_of_level min_key l in
      let k1 : LevelKept l1 = first_of_level-LevelKept min_key l hmin k in
      elim (enter compress decompress crc32c codec min_key max_key at hmin hmax l1.level_node
        k1.level_items k1.level_kept) [
          | inr t ↦ record {
            new_levels = _;
            new_file = f;
            nodes = [];
            indexed_answer =
                index_add-room compress decompress crc32c codec min_key max_key at hmin hmax l
                  higher f k1.level_items t;
            nodes_index = tt;
            nodes_stored = refl;
            levels_kept = (
              Entered-LevelKept compress decompress crc32c codec min_key max_key at hmin hmax
                  l1.level_node k1.level_items l1.level_first_key t k1.short_first,
              ks,
            );
            growth = inl refl;
          }
          | inl (some_items, refused, full) ↦
              let nw : NodeWriter = opened l1.level_node in
              let kn : Kept nw k1.level_items =
                Kept-opened l1.level_node k1.level_items k1.level_kept in
              let s = store-Stores compress decompress crc32c codec nw k1.level_items false f kn in
              let up =
                index_add-Indexed higher l1.level_first_key l1.level_last_key s.stores_at
                  s.stores_file k1.short_first k1.short_last ks in
              let t =
                enter_fresh compress decompress crc32c codec min_key max_key at hmin hmax
                  s.stores_writer s.stores_fresh in
              let x : Filled = record {
                filled_writer = nw;
                filled_items = k1.level_items;
                filled_leaf = false;
              } in
              record {
                new_levels = _;
                new_file = up.new_file;
                nodes = x ∷ up.nodes;
                indexed_answer =
                    index_add-full compress decompress crc32c codec min_key max_key at hmin hmax l
                      higher up.new_levels f s.stores_file up.new_file nw s.stores_writer
                      s.stores_at refused s.stores_answer up.indexed_answer t;
                nodes_index = (
                  record {
                    node_filled = record {
                      filled_contains = kn.kept_contains;
                      filled_some = some_items;
                    };
                    node_readable = record {
                      readable_some = some_items;
                      readable_idx = kn.kept_idx;
                    };
                    node_index = refl;
                  },
                  up.nodes_index,
                );
                nodes_stored =
                    store_all-cons compress crc32c x up.nodes f s.stores_file s.stores_at
                      s.stores_writer s.stores_answer
                    ∙ up.nodes_stored;
                levels_kept = (
                  Entered-LevelKept compress decompress crc32c codec min_key max_key at hmin hmax
                      s.stores_writer [] min_key t hmin,
                  up.levels_kept,
                );
                growth = elim up.growth [
                  | inl same ↦ inl (ap suc same)
                  | inr (more, light) ↦ inr (
                    ap suc more,
                    (
                      Entered-Light compress decompress crc32c codec min_key max_key at hmin hmax
                          s.stores_writer min_key t s.stores_fresh,
                      light,
                    ),
                  )
                ];
              }
        ]

  -- A level with room takes the keys itself.
  pub index_add-Light :
      (l : IndexLevel) (higher : List IndexLevel) (min_key max_key : List ℕ) (at : ℕ)
      (f : SliceFile)
      → length min_key < 1024
      → length max_key < 1024
      → LevelKept l
      → Light l
      → (l' : IndexLevel) × LevelKept l'
        × (index_add compress crc32c min_key max_key at (l ∷ higher) f ≡ some (l' ∷ higher, f))
  index_add-Light l higher min_key max_key at f hmin hmax k light =
      let l1 : IndexLevel = first_of_level min_key l in
      let k1 : LevelKept l1 = first_of_level-LevelKept min_key l hmin k in
      let light1 : Light l1 =
        subst (λ w. (opened w).entry_offset + 2060 ≤ (opened w).data_offset)
          (sym (first_of_level-node min_key l)) light in
      elim (enter compress decompress crc32c codec min_key max_key at hmin hmax l1.level_node
        k1.level_items k1.level_kept) [
          | inl (some_items, refused, full) ↦ absurd (
              omega (
                arith,
                full,
                light1,
                eight compress decompress crc32c codec min_key max_key at hmin hmax,
              ))
          | inr t ↦ (
            _,
            Entered-LevelKept compress decompress crc32c codec min_key max_key at hmin hmax
                l1.level_node k1.level_items l1.level_first_key t k1.short_first,
            index_add-room compress decompress crc32c codec min_key max_key at hmin hmax l higher f
                k1.level_items t,
          )
        ]
