-- ===== src/Slice/Load.antt =====
-- A node that was stored is loaded again from its location, and leads to the next one.
use tyrdbs.Prelude.{
  ltb, ◌%◌, ℕ, ◌+◌, ◌^◌, ◌≤◌, ◌<◌, ◌≡◌, refl, sym, ap, ◌∙◌, inl, inr, Bool, true, false, Option,
  some, List, [], ◌∷◌, ◌++◌, append_assoc, arith, ◌==◌, ==_iff, if◌then◌else◌, length, take, drop,
  length-append, get_elem?, Bool-cases,
}
use tyrdbs.Prelude.Cuts.{take-append_exact, take-append_whole, drop-append_exact, drop-append_more}
use tyrdbs.Prelude.Memory.{load, store16, to_bytes, of_bytes, length-to_bytes, of_bytes-to_bytes4}
use tyrdbs.Node.{
  Node, node, node_size, page_size, load_node, set_next, key_count, key_at, value_at, eor_at,
  deleted_at, attributes_at, entry_at,
}
use tyrdbs.Location.{
  offset_from, size_from, is_leaf_from, is_valid, location, location_of, size, to_uint,
  invalid_size, max_size,
}
use tyrdbs.NodeWriter.{NodeWriter, opened, flush, reset}
use tyrdbs.NodeWriter.Layout.{Item, Holds}
use tyrdbs.NodeWriter.Adding.{Contains}
use tyrdbs.NodeWriter.RoundTrip.{IsCodec, flush-load}
use tyrdbs.SliceWriter.Store.{SliceFile, write_bytes, link_last, store_page, store}
use tyrdbs.Location.Fields.{location_fields, location-narrow}
use tyrdbs.Slice.{pread, load_at}

module _ (pre crc page rest : List ℕ) (four : length crc ≡ 4) where
  abbrev bytes : List ℕ
  bytes = pre ++ (crc ++ (page ++ rest))

  abbrev buffer : List ℕ
  buffer = pread (length pre) (length page + 6) bytes

  -- the checksum, the page and the two bytes behind it
  buffer_lem : buffer ≡ crc ++ (page ++ take 2 rest)
  buffer_lem =
      ap (take (length page + 6)) (drop-append_exact (length pre) pre (crc ++ (page ++ rest)) refl)
      ∙ ap (λ n. take n (crc ++ (page ++ rest))) {x = length page + 6} {y = 4 + (length page + 2)}
          (omega arith)
      ∙ take-append_exact 4 (length page + 2) crc (page ++ rest) (sym four)
      ∙ ap (λ t. crc ++ t) (take-append_exact (length page) 2 page rest refl)

  pub buffer-crc : take 4 buffer ≡ crc
  buffer-crc = ap (take 4) buffer_lem ∙ take-append_whole 4 crc (page ++ take 2 rest) (sym four)

  pub buffer-page : take (length page) (drop 4 buffer) ≡ page
  buffer-page =
      ap (λ b. take (length page) (drop 4 b)) buffer_lem
      ∙ ap (take (length page)) (drop-append_exact 4 crc (page ++ take 2 rest) (sym four))
      ∙ take-append_whole (length page) page (take 2 rest) refl

  pub buffer-next : take 2 (drop (length page + 4) buffer) ≡ take 2 (take 2 rest)
  buffer-next =
      ap (λ b. take 2 (drop (length page + 4) b)) buffer_lem
      ∙ ap (λ n. take 2 (drop n (crc ++ (page ++ take 2 rest)))) {x = length page + 4}
          {y = 4 + length page} (omega arith)
      ∙ ap (take 2) (drop-append_more 4 (length page) crc (page ++ take 2 rest) (sym four))
      ∙ ap (take 2) (drop-append_exact (length page) page (take 2 rest) refl)

-- the file that `store` has before the checksum, with the link that leads to the node
unfoldable pub linked : List ℕ → Bool → SliceFile → SliceFile
unfolding write_bytes
linked page leaf f =
    let word : ℕ = size (length page) (to_uint leaf) in
    if f.first_node_size == invalid_size
    then record f { first_node_size = word }
    else write_bytes (to_bytes 2 word) f

unfoldable pub place_of : List ℕ → Bool → SliceFile → ℕ
place_of page leaf f = location (length (linked page leaf f).file % 2 ^ 32) (length page) leaf

pub place_of-narrow : (page : List ℕ) (leaf : Bool) (f : SliceFile) → place_of page leaf f < 2 ^ 48
unfolding place_of
place_of-narrow page leaf f =
    location-narrow (length (linked page leaf f).file % 2 ^ 32) (length page) leaf (omega arith)

abbrev pub AllLoadable : List (ℕ × Node) → Type 0
AllLoadable [] = Unit
AllLoadable ((at, n) ∷ cached) = (size_from at ≤ node_size) × AllLoadable cached

link_last-AllLoadable :
    (next : ℕ) (cached : List (ℕ × Node)) → AllLoadable (link_last next cached) → AllLoadable cached
unfolding link_last
link_last-AllLoadable next [] h = tt
link_last-AllLoadable next ((at, n) ∷ cached) h = h

to_uint_lem : (leaf : Bool) → to_uint leaf ≡ (if leaf then 1 else 0)
to_uint_lem true = refl
to_uint_lem false = refl

module _ (compress : List ℕ → ℕ → Option (List ℕ)) (crc32c : List ℕ → ℕ) (page : List ℕ)
    (n : Node) where
  pub store_page-place :
      (leaf : Bool) (f : SliceFile)
      → (store_page compress crc32c page n leaf f).0 ≡ place_of page leaf f
  unfolding store_page place_of linked
  store_page-place true f = refl
  store_page-place false f = refl

  pub store_page-file :
      (leaf : Bool) (f : SliceFile)
      → (store_page compress crc32c page n leaf f).1.file
        ≡ (linked page leaf f).file ++ (to_bytes 4 (crc32c page) ++ page)
  unfolding store_page linked write_bytes
  store_page-file true f = append_assoc (linked page true f).file (to_bytes 4 (crc32c page)) page
  store_page-file false f = append_assoc (linked page false f).file (to_bytes 4 (crc32c page)) page

  pub store_page-first :
      (leaf : Bool) (f : SliceFile)
      → (store_page compress crc32c page n leaf f).1.first_node_size
        ≡ (linked page leaf f).first_node_size
  unfolding store_page linked write_bytes
  store_page-first true f = refl
  store_page-first false f = refl

-- no node that the cache was handed is larger than `cache::load` asserts
abbrev pub IsLoadable : SliceFile → Type 0
IsLoadable f = AllLoadable f.cached

-- what the reader finds behind a node: the location of the next one
abbrev pub next_behind : ℕ → List ℕ → ℕ
next_behind end rest = location_of (end + 2) (of_bytes (take 2 rest))

take-take2 : (xs : List ℕ) → take 2 (take 2 xs) ≡ take 2 xs
take-take2 [] = refl
take-take2 (x ∷ []) = refl
take-take2 (x ∷ y ∷ xs) = refl

module _ (decompress : List ℕ → Option (List ℕ)) (crc32c : List ℕ → ℕ) (pre crc page rest : List ℕ)
    (four : length crc ≡ 4) (checksum : of_bytes crc ≡ crc32c page) where
  load_at-page :
      (at : ℕ)
      → (n : Node) → offset_from at ≡ length pre
      → size_from at ≡ length page
      → load_node decompress page node ≡ some n
      → length page ≤ node_size
      → load_at decompress crc32c (pre ++ (crc ++ (page ++ rest))) at
        ≡ some (set_next (next_behind (length pre + length page + 4) rest) n)
  unfolding load_at
  load_at-page at n o s l small =
      let within : ltb node_size (length page) ≡ false = ground (arith, small) in
      let sum : (crc32c page == of_bytes crc) ≡ true =
        (==_iff (crc32c page) (of_bytes crc)).1 (sym checksum) in
      rw
        (
          o,
          s,
          within,
          buffer-page pre crc page rest four,
          buffer-crc pre crc page rest four,
          sum,
          l,
          o,
          s,
          buffer-next pre crc page rest four,
          take-take2 rest,
        )
        (ap (λ e. some (set_next (location_of e (of_bytes (take 2 rest))) n)) (omega arith))

-- The checksum fits its four bytes, and a page the sink that it is compressed to.
abbrev pub IsChecksum : (List ℕ → ℕ) → Type 0
IsChecksum crc32c = (bytes : List ℕ) → crc32c bytes < 2 ^ 32

abbrev pub IsBounded : (List ℕ → ℕ → Option (List ℕ)) → Type 0
IsBounded compress =
    (bytes page : List ℕ)
    → (sink_size : ℕ) → compress bytes sink_size ≡ some page
    → length page ≤ sink_size

pub set_next-Holds :
    (next : ℕ) (n : Node) (i : ℕ) (item : Item) → Holds n i item → Holds (set_next next n) i item
unfolding set_next key_at value_at eor_at deleted_at attributes_at entry_at
set_next-Holds next n i item h = record {
  holds_key = h.holds_key;
  holds_value = h.holds_value;
  holds_eor = h.holds_eor;
  holds_deleted = h.holds_deleted;
  holds_attributes = h.holds_attributes;
}

length-linked :
    (page : List ℕ) (leaf : Bool) (f : SliceFile)
    → length (linked page leaf f).file ≤ length f.file + 2
unfolding linked write_bytes
length-linked page leaf f = elim (Bool-cases (f.first_node_size == invalid_size)) [
  | inl e ↦ rw e (omega arith)
  | inr e ↦
      rw e (omega (arith, length-append f.file (to_bytes 2 (size (length page) (to_uint leaf)))))
]

module _ (compress : List ℕ → ℕ → Option (List ℕ)) (crc32c : List ℕ → ℕ) where
  pub store-flushed :
      (nw : NodeWriter) (leaf : Bool) (f : SliceFile) (page : List ℕ)
      → (flush compress page_size nw).0 ≡ some page
      → (let written : Node × NodeWriter = reset (flush compress page_size nw).1 in
          let done : ℕ × SliceFile = store_page compress crc32c page written.0 leaf f in
          store compress crc32c nw leaf f ≡ some (done.0, written.1, done.1))
  unfolding store
  store-flushed nw leaf f page e = rw (store, e) refl

  pub store_page-cached :
      (page : List ℕ) (n : Node) (leaf : Bool) (f : SliceFile)
      → IsLoadable (store_page compress crc32c page n leaf f).1
      → (size_from (store_page compress crc32c page n leaf f).0 ≤ node_size) × IsLoadable f
  unfolding store_page write_bytes
  store_page-cached page n leaf f h = (
    h.0,
    elim (Bool-cases (f.first_node_size == invalid_size)) [
      | inl e ↦
          link_last-AllLoadable (store_page compress crc32c page n leaf f).0 f.cached
            (let h' = rw e at h in h'.1)
      | inr e ↦
          link_last-AllLoadable (store_page compress crc32c page n leaf f).0 f.cached
            (let h' = rw e at h in h'.1)
    ],
  )

  pub store_page-total :
      (page : List ℕ) (n : Node) (leaf : Bool) (f : SliceFile)
      → (store_page compress crc32c page n leaf f).1.total_nodes ≡ f.total_nodes + 1
  unfolding store_page write_bytes
  store_page-total page n leaf f = elim (Bool-cases (f.first_node_size == invalid_size)) [
    | inl e ↦ rw e refl
    | inr e ↦ rw e refl
  ]

module _ (compress : List ℕ → ℕ → Option (List ℕ)) (decompress : List ℕ → Option (List ℕ))
    (crc32c : List ℕ → ℕ) (codec : IsCodec compress decompress page_size)
    (bounded : IsBounded compress) (checksum : IsChecksum crc32c) where
  -- What a store has done: the location that it gives, the file, and the node that a reader loads
  -- from there whatever follows in the file.
  pub record Stored (items : List Item) (leaf : Bool) (f : SliceFile) (at : ℕ) (f' : SliceFile)
      : Type 0 where
    pub stored_page : List ℕ
    pub stored_node : Node
    pub page_fits : length stored_page < max_size
    pub at_place : at ≡ place_of stored_page leaf f
    pub file_after :
        f'.file
        ≡ (linked stored_page leaf f).file ++ (to_bytes 4 (crc32c stored_page) ++ stored_page)
    pub first_after : f'.first_node_size ≡ (linked stored_page leaf f).first_node_size
    pub valid_at : is_valid at ≡ true
    pub leaf_at : is_leaf_from at ≡ leaf
    pub loads :
        (rest : List ℕ)
        → length stored_page ≤ node_size
        → load_at decompress crc32c (f'.file ++ rest) at
          ≡ some (set_next (next_behind (length f'.file) rest) stored_node)
    pub loadable_page : IsLoadable f' → length stored_page ≤ node_size
    pub loadable_before : IsLoadable f' → IsLoadable f
    pub stored_count : key_count stored_node ≡ length items
    pub stored_items :
        (i : ℕ) → (item : Item) → get_elem? items i ≡ some item → Holds stored_node i item

  flush-bounded :
      (nw : NodeWriter) (page : List ℕ)
      → (flush compress page_size nw).0 ≡ some page
      → length page < max_size
  unfolding flush
  flush-bounded nw page e = omega (
    arith,
    bounded (load (store16 (opened nw).writer_data 0 (opened nw).writer_key_count) 0 node_size) page
        page_size e,
  )

  -- the layout of the file, whatever stands around the page
  load_at-file :
      (pre page file rest : List ℕ) (at : ℕ) (n : Node)
      → file ≡ pre ++ (to_bytes 4 (crc32c page) ++ page)
      → offset_from at ≡ length pre
      → size_from at ≡ length page
      → load_node decompress page node ≡ some n
      → length page ≤ node_size
      → load_at decompress crc32c (file ++ rest) at
        ≡ some (set_next (next_behind (length file) rest) n)
  load_at-file pre page file rest at n e o s l small =
      let crc : List ℕ = to_bytes 4 (crc32c page) in
      let same : file ++ rest ≡ pre ++ (crc ++ (page ++ rest)) =
        ap (λ t. t ++ rest) e
        ∙ append_assoc pre (crc ++ page) rest
        ∙ ap (λ t. pre ++ t) (append_assoc crc page rest) in
      let size_of : length pre + length page + 4 ≡ length file = omega (
        arith,
        ap length e,
        length-append pre (crc ++ page),
        length-append crc page,
        length-to_bytes 4 (crc32c page),
      ) in
      ap (λ t. load_at decompress crc32c t at) same
      ∙ load_at-page decompress crc32c pre crc page rest (length-to_bytes 4 (crc32c page))
          (of_bytes-to_bytes4 (crc32c page) (checksum page)) at n o s l small
      ∙ ap (λ e. some (set_next (next_behind e rest) n)) size_of

  pub store-Stored :
      (nw : NodeWriter) (items : List Item) (leaf : Bool) (f : SliceFile)
      → Contains (opened nw) items
      → length f.file + 2 < 2 ^ 32
      → (at : ℕ) × (nw' : NodeWriter) × (f' : SliceFile) × (store compress crc32c nw leaf f
          ≡ some (at, nw', f'))
        × (s : Stored items leaf f at f') × ((flush compress page_size nw).0 ≡ some s.stored_page)
  unfolding place_of
  store-Stored nw items leaf f c room =
      let (page, n, flushed, loaded, counted, held) =
        flush-load compress decompress page_size codec nw items c in
      let written : Node × NodeWriter = reset (flush compress page_size nw).1 in
      let done : ℕ × SliceFile = store_page compress crc32c page written.0 leaf f in
      let fits : length page < max_size = flush-bounded nw page flushed in
      let pre : List ℕ = (linked page leaf f).file in
      let bound : length pre < 2 ^ 32 = omega (arith, length-linked page leaf f) in
      let narrow : length pre % 2 ^ 32 ≡ length pre = omega arith in
      let (o', s, l, v) =
        location_fields (length pre % 2 ^ 32) (length page) leaf (omega (arith, narrow, bound))
          fits in
      let o = o' ∙ narrow in
      let cached = store_page-cached compress crc32c page written.0 leaf f in
      let same : done.0 ≡ place_of page leaf f =
        store_page-place compress crc32c page written.0 leaf f in
      let file : done.1.file ≡ pre ++ (to_bytes 4 (crc32c page) ++ page) =
        store_page-file compress crc32c page written.0 leaf f in
      (
        done.0,
        written.1,
        done.1,
        store-flushed compress crc32c nw leaf f page flushed,
        record {
          stored_page = page;
          stored_node = n;
          page_fits = fits;
          at_place = same;
          file_after = file;
          first_after = store_page-first compress crc32c page written.0 leaf f;
          valid_at = ap is_valid same ∙ v;
          leaf_at = ap is_leaf_from same ∙ l;
          loads = λ rest small.
              load_at-file pre page done.1.file rest done.0 n file (ap offset_from same ∙ o)
                (ap size_from same ∙ s) loaded small;
          loadable_page = λ e. omega (arith, (cached e).0, ap size_from same ∙ s);
          loadable_before = λ e. (cached e).1;
          stored_count = counted;
          stored_items = held;
        },
        flushed,
      )

  -- A node writer whose node contains some items and compresses to a page of at most `node_size` bytes,
  -- and a file of less than 2 ^ 32 bytes with the link, to which a leaf goes first: the store
  -- succeeds, and gives a valid location with the leaf flag, from which, whatever follows in the file,
  -- a node with those items is loaded that leads to what follows behind it. The codec is one that
  -- gives back what it compressed, into pages that fit the sink, and the checksum has 32 bits.
  pub load_at-store :
      (nw : NodeWriter) (items : List Item) (leaf : Bool) (f : SliceFile)
      → Contains (opened nw) items
      → length f.file + 2 < 2 ^ 32
      → (f.first_node_size ≡ invalid_size → leaf ≡ true)
      → ((page : List ℕ) → (flush compress page_size nw).0 ≡ some page → length page ≤ node_size)
      → (at : ℕ) × (nw' : NodeWriter) × (f' : SliceFile) × (n : Node) × (store compress crc32c nw
            leaf f
          ≡ some (at, nw', f'))
        × (is_valid at ≡ true)
        × (is_leaf_from at ≡ leaf)
        × ((rest : List ℕ)
            → load_at decompress crc32c (f'.file ++ rest) at
              ≡ some (set_next (next_behind (length f'.file) rest) n))
        × (key_count n ≡ length items)
        × ((i : ℕ) → (item : Item) → get_elem? items i ≡ some item → Holds n i item)
  load_at-store nw items leaf f c room first small =
      let (at, nw', f', e, s, flushed) = store-Stored nw items leaf f c room in
      (
        at,
        nw',
        f',
        s.stored_node,
        e,
        s.valid_at,
        s.leaf_at,
        λ rest. s.loads rest (small s.stored_page flushed),
        s.stored_count,
        s.stored_items,
      )
