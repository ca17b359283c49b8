-- ===== src/Slice/Chain.antt =====
-- Nodes that are stored one after the other: each leads the reader to the next.
use tyrdbs.Prelude.{
  ◌%◌, ℕ, ◌+◌, ◌*◌, ◌^◌, ◌≤◌, ◌<◌, ◌≡◌, ◌≢◌, refl, sym, ap, ◌∙◌, Bool, true, false, Option, none,
  some, List, [], ◌∷◌, ◌++◌, append_assoc, arith, ◌==◌, length, take, length-append, get_elem?,
  Every, Option-cases, inl, inr,
}
use mathlib.Core.Path.{subst}
use mathlib.Core.Option.{some-injective}
use tyrdbs.Prelude.Memory.{to_bytes, of_bytes, of_bytes-to_bytes2}
use tyrdbs.Node.{Node, page_size, set_next, get_next, key_count}
use tyrdbs.Location.{
  is_leaf_from, is_valid, location, location_of, size, to_uint, invalid_size, max_size,
}
use tyrdbs.Location.Fields.{invalid_link, location_of-size}
use tyrdbs.NodeWriter.{NodeWriter, opened}
use tyrdbs.NodeWriter.Layout.{Item, Holds}
use tyrdbs.NodeWriter.Adding.{Contains}
use tyrdbs.NodeWriter.RoundTrip.{IsCodec}
use tyrdbs.SliceWriter.Store.{SliceFile, write_bytes, store}
use tyrdbs.Slice.{load_at}
use tyrdbs.Slice.Load.{
  IsBounded, IsChecksum, Stored, store-Stored, linked, place_of, next_behind, IsLoadable,
  set_next-Holds,
}

-- a node that is to be stored, with what is in it
pub record Filled : Type 0 where
  pub filled_writer : NodeWriter
  pub filled_items : List Item
  pub filled_leaf : Bool

pub record IsFilled (x : Filled) : Type 0 where
  pub filled_contains : Contains (opened x.filled_writer) x.filled_items
  pub filled_some : 0 < length x.filled_items

-- What a reader has that follows the links from a location in the bytes of a file.
module _ (decompress : List ℕ → Option (List ℕ)) (crc32c : List ℕ → ℕ) (bytes : List ℕ) where
  -- the node is read from the location and has these items
  pub record Reads (next : ℕ) (x : Filled) (n : Node) : Type 0 where
    pub reads_valid : is_valid next ≡ true
    pub reads_leaf : is_leaf_from next ≡ x.filled_leaf
    pub reads_node : load_at decompress crc32c bytes next ≡ some n
    pub reads_count : key_count n ≡ length x.filled_items
    pub reads_items :
        (i : ℕ) → (item : Item) → get_elem? x.filled_items i ≡ some item → Holds n i item

  abbrev pub Linked : (next : ℕ) → List Filled → Type 0
  Linked next [] = is_valid next ≡ false
  Linked next (x ∷ xs) = (n : Node) × Reads next x n × Linked (get_next n) xs

-- the mark that no node follows
abbrev pub IsEnd : List ℕ → Type 0
IsEnd rest = of_bytes (take 2 rest) ≡ invalid_size

-- a place for the link is there already
abbrev pub HasFirst : SliceFile → Type 0
HasFirst f = f.first_node_size ≢ invalid_size

module _ (compress : List ℕ → ℕ → Option (List ℕ)) (crc32c : List ℕ → ℕ) where
  -- one `store` after the other
  unfoldable pub store_all : List Filled → SliceFile → Option SliceFile
  store_all [] f = some f
  store_all (x ∷ xs) f = elim (store compress crc32c x.filled_writer x.filled_leaf f) [
    | none ↦ none
    | some (at, nw, f') ↦ store_all xs f'
  ]

  pub store_all-cons :
      (x : Filled) (xs : List Filled) (f f' : SliceFile) (at : ℕ) (nw : NodeWriter)
      → store compress crc32c x.filled_writer x.filled_leaf f ≡ some (at, nw, f')
      → store_all (x ∷ xs) f ≡ store_all xs f'
  unfolding store_all
  store_all-cons x xs f f' at nw e =
      ap
        (λ o. elim o as (λ _. Option SliceFile) [
          | none ↦ none
          | some (at1, nw1, g) ↦ store_all xs g
        ])
        e

  pub store_all-append :
      (xs ys : List Filled) (f f' : SliceFile)
      → store_all xs f ≡ some f'
      → store_all (xs ++ ys) f ≡ store_all ys f'
  unfolding store_all
  store_all-append [] ys f f' e = ap (store_all ys) (some-injective f f' e)
  store_all-append (x ∷ xs) ys f f' e =
      elim (Option-cases (store compress crc32c x.filled_writer x.filled_leaf f)) [
        | inl failed ↦ absurd (
            cc (
              sym (
                ap
                  (λ o. elim o as (λ _. Option SliceFile) [
                    | none ↦ none
                    | some (at1, nw1, g) ↦ store_all xs g
                  ])
                  failed)
              ∙ e))
        | inr ((at, nw, g), stored) ↦
            store_all-cons x (xs ++ ys) f g at nw stored
            ∙ store_all-append xs ys g f' (sym (store_all-cons x xs f g at nw stored) ∙ e)
      ]

pub linked_behind :
    (page : List ℕ) (leaf : Bool) (f : SliceFile)
    → HasFirst f
    → linked page leaf f ≡ write_bytes (to_bytes 2 (size (length page) (to_uint leaf))) f
unfolding linked
linked_behind page leaf f h =
    let e : (f.first_node_size == invalid_size) ≡ false = ground (arith, h) in rw e refl

word_bound : (s leaf : ℕ) → size s leaf < 2 ^ 16
unfolding size
word_bound s leaf = omega arith

place_of-behind :
    (page : List ℕ) (leaf : Bool) (f : SliceFile) (tail : List ℕ)
    → HasFirst f
    → length f.file + 2 < 2 ^ 32
    → length page < max_size
    → next_behind (length f.file) (to_bytes 2 (size (length page) (to_uint leaf)) ++ tail)
      ≡ place_of page leaf f
unfolding place_of write_bytes
place_of-behind page leaf f tail h room fits =
    let word : ℕ = size (length page) (to_uint leaf) in
    ap (location_of (length f.file + 2))
      (of_bytes-to_bytes2 word (word_bound (length page) (to_uint leaf)))
    ∙ location_of-size (length f.file + 2) (length page) leaf (omega arith) fits
    ∙ ap (λ e. location e (length page) leaf) {x = length f.file + 2}
        {y = (length f.file + 2) % 2 ^ 32} (omega arith)
    ∙ ap (λ e. location (e % 2 ^ 32) (length page) leaf)
        (sym (
          ap (λ g. length g.file) (linked_behind page leaf f h)
          ∙ length-append f.file (to_bytes 2 word)))

module _ (compress : List ℕ → ℕ → Option (List ℕ)) (decompress : List ℕ → Option (List ℕ))
    (crc32c : List ℕ → ℕ) (codec : IsCodec compress decompress page_size)
    (bounded : IsBounded compress) (checksum : IsChecksum crc32c) where
  abbrev IsStored : Filled → SliceFile → ℕ → SliceFile → Type 0
  IsStored x f at f' =
      Stored compress decompress crc32c codec bounded checksum x.filled_items x.filled_leaf f at f'

  -- the bytes of a node with its link
  abbrev node_bytes : List ℕ → Bool → List ℕ
  node_bytes page leaf =
      to_bytes 2 (size (length page) (to_uint leaf)) ++ (to_bytes 4 (crc32c page) ++ page)

  module _ (x : Filled) (f : SliceFile) (at : ℕ) (f' : SliceFile) (s : IsStored x f at f') where
    Stored-file : HasFirst f → f'.file ≡ f.file ++ node_bytes s.stored_page x.filled_leaf
    unfolding write_bytes
    Stored-file h =
        s.file_after
        ∙ ap (λ g. g.file ++ (to_bytes 4 (crc32c s.stored_page) ++ s.stored_page))
            (linked_behind s.stored_page x.filled_leaf f h)
        ∙ append_assoc f.file (to_bytes 2 (size (length s.stored_page) (to_uint x.filled_leaf)))
            (to_bytes 4 (crc32c s.stored_page) ++ s.stored_page)

    Stored-length :
        HasFirst f
        → (length f.file + 1 ≤ length f'.file) × (length f'.file ≤ length f.file + 0x8006)
    Stored-length h =
        let e : length f'.file ≡ length f.file + length (node_bytes s.stored_page x.filled_leaf) =
          ap length (Stored-file h)
          ∙ length-append f.file (node_bytes s.stored_page x.filled_leaf) in
        let n : length (node_bytes s.stored_page x.filled_leaf) ≡ 2 + (4 + length s.stored_page) =
          length-append (to_bytes 2 (size (length s.stored_page) (to_uint x.filled_leaf)))
            (to_bytes 4 (crc32c s.stored_page) ++ s.stored_page)
          ∙ ap (λ t. 2 + t) (length-append (to_bytes 4 (crc32c s.stored_page)) s.stored_page) in
        (omega (arith, e, n), omega (arith, e, n, s.page_fits))

    Stored-HasFirst : HasFirst f → HasFirst f'
    unfolding write_bytes
    Stored-HasFirst h e = h (
        sym (
          s.first_after
          ∙ ap (λ g. g.first_node_size) (linked_behind s.stored_page x.filled_leaf f h))
        ∙ e)

    -- what the reader has at the location, in a file that goes on with `tail`
    pub Stored-Reads :
        (tail bytes : List ℕ)
        → bytes ≡ f'.file ++ tail
        → IsLoadable f'
        → Reads decompress crc32c bytes at x
            (set_next (next_behind (length f'.file) tail) s.stored_node)
    unfolding key_count set_next
    Stored-Reads tail bytes e loadable = record {
      reads_valid = s.valid_at;
      reads_leaf = s.leaf_at;
      reads_node =
          ap (λ b. load_at decompress crc32c b at) e ∙ s.loads tail (s.loadable_page loadable);
      reads_count = s.stored_count;
      reads_items = λ i item g.
          set_next-Holds (next_behind (length f'.file) tail) s.stored_node i item
            (s.stored_items i item g);
    }

  -- The file goes on with the nodes, and the reader follows their links.
  pub record Followed (xs : List Filled) (f f' : SliceFile) (rest : List ℕ) : Type 0 where
    pub tail : List ℕ
    pub tail_behind : f'.file ++ rest ≡ f.file ++ tail
    pub tail_linked :
        Linked decompress crc32c (f'.file ++ rest) (next_behind (length f.file) tail) xs

  pub store_all-Followed :
      (xs : List Filled) (f : SliceFile)
      → Every IsFilled xs
      → HasFirst f
      → length f.file + 0x8006 * length xs + 2 < 2 ^ 32
      → (f' : SliceFile) × (store_all compress crc32c xs f ≡ some f')
        × (f'.first_node_size ≡ f.first_node_size)
        × (length f.file + length xs ≤ length f'.file)
        × (IsLoadable f' → IsLoadable f)
        × ((rest : List ℕ) → IsEnd rest → IsLoadable f' → Followed xs f f' rest)
  unfolding store_all get_next set_next write_bytes
  store_all-Followed [] f filled h room = (
    f,
    refl,
    refl,
    omega arith,
    λ e. e,
    λ rest end loadable. record {
      tail = rest;
      tail_behind = refl;
      tail_linked =
          ap (λ s. is_valid (location_of (length f.file + 2) s)) end
          ∙ invalid_link (length f.file + 2) (omega arith);
    },
  )
  store_all-Followed (x ∷ xs) f (hx, hxs) h room =
      let (at, nw, f1, e, s, flushed) =
        store-Stored compress decompress crc32c codec bounded checksum x.filled_writer
          x.filled_items x.filled_leaf f hx.filled_contains (omega arith) in
      let (grows, bound) = Stored-length x f at f1 s h in
      let (f', done, first, longer, before, follow) =
        store_all-Followed xs f1 hxs (Stored-HasFirst x f at f1 s h) (omega (arith, bound)) in
      (
        f',
        store_all-cons compress crc32c x xs f f1 at nw e ∙ done,
        first
            ∙ s.first_after
            ∙ ap (λ g. g.first_node_size) (linked_behind s.stored_page x.filled_leaf f h),
        omega (arith, grows, longer),
        λ e. s.loadable_before (before e),
        λ rest end loadable.
            let after = follow rest end loadable in
            let n : Node = set_next (next_behind (length f1.file) after.tail) s.stored_node in
            record {
              tail = node_bytes s.stored_page x.filled_leaf ++ after.tail;
              tail_behind =
                  after.tail_behind
                  ∙ ap (λ t. t ++ after.tail) (Stored-file x f at f1 s h)
                  ∙ append_assoc f.file (node_bytes s.stored_page x.filled_leaf) after.tail;
              tail_linked =
                  let here : next_behind (length f.file)
                        (node_bytes s.stored_page x.filled_leaf ++ after.tail)
                      ≡ at =
                    place_of-behind s.stored_page x.filled_leaf f
                      (to_bytes 4 (crc32c s.stored_page) ++ s.stored_page ++ after.tail) h
                      (omega arith) s.page_fits
                    ∙ sym s.at_place in
                  let r : Reads decompress crc32c (f'.file ++ rest) at x n =
                    Stored-Reads x f at f1 s after.tail (f'.file ++ rest) after.tail_behind
                      (before loadable) in
                  subst (λ l. Linked decompress crc32c (f'.file ++ rest) l (x ∷ xs)) (sym here)
                    (n, r, after.tail_linked);
            },
      )
