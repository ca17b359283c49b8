-- ===== src/Slice/Flushing.antt =====
-- The flush of the index ends, and only adds to the file.
use tyrdbs.Prelude.{
  ℕ, zero, suc, ◌^◌, ◌+◌, ◌≤◌, ◌<◌, ◌≡◌, refl, sym, ap, ◌∙◌, ◌⊎◌, inl, inr, Bool, false, Option,
  none, some, List, [], ◌∷◌, ◌++◌, append_assoc, append-nil, arith, ◌==◌, length, Every,
  Option-cases,
}
use mathlib.Core.Path.{subst}
use mathlib.Core.Option.{some-injective}
use tyrdbs.Prelude.Memory.{to_bytes}
use tyrdbs.Node.{Node, page_size}
use tyrdbs.NodeWriter.{NodeWriter, flush, reset}
use tyrdbs.NodeWriter.RoundTrip.{IsCodec}
use tyrdbs.Location.{size, to_uint}
use tyrdbs.SliceWriter.Store.{SliceFile, store, store_page, write_bytes}
use tyrdbs.SliceWriter.Index.{IndexLevel, index_add, index_flush}
use tyrdbs.Slice.Load.{
  IsLoadable, store_page-cached, store-flushed, store_page-file, store_page-first, store_page-total,
}
use tyrdbs.Slice.Chain.{Filled, HasFirst, store_all, store_all-cons, linked_behind}
use tyrdbs.Slice.Kept.{store-Stores}
use tyrdbs.Slice.Indexing.{LevelKept, Light, index_add-Indexed, index_add-Light}

-- The file has more bytes behind, its first node is the same, and all nodes that it had are among
-- those that it has.
pub record Grows (f f' : SliceFile) : Type 0 where
  pub more : List ℕ
  pub more_behind : f'.file ≡ f.file ++ more
  pub same_first : f'.first_node_size ≡ f.first_node_size
  pub loadable_back : IsLoadable f' → IsLoadable f

pub Grows-refl : (f : SliceFile) → Grows f f
Grows-refl f = record {
  more = [];
  more_behind = sym (append-nil f.file);
  same_first = refl;
  loadable_back = λ h. h;
}

pub Grows-trans : (f g h : SliceFile) → Grows f g → Grows g h → Grows f h
Grows-trans f g h a b = record {
  more = a.more ++ b.more;
  more_behind =
      b.more_behind ∙ ap (λ t. t ++ b.more) a.more_behind ∙ append_assoc f.file a.more b.more;
  same_first = b.same_first ∙ a.same_first;
  loadable_back = λ h. a.loadable_back (b.loadable_back h);
}

pub Grows-HasFirst : (f g : SliceFile) → Grows f g → HasFirst f → HasFirst g
Grows-HasFirst f g a h e = h (sym a.same_first ∙ e)

module _ (compress : List ℕ → ℕ → Option (List ℕ)) (crc32c : List ℕ → ℕ) where
  pub store-Grows :
      (w : NodeWriter) (leaf : Bool) (f f' : SliceFile) (at : ℕ) (nw : NodeWriter)
      → HasFirst f
      → store compress crc32c w leaf f ≡ some (at, nw, f')
      → Grows f f'
  unfolding store write_bytes
  store-Grows w leaf f f' at nw h e = elim (Option-cases (flush compress page_size w).0) [
    | inl failed ↦ absurd (cc (e, failed))
    | inr (page, flushed) ↦
        let n : Node = (reset (flush compress page_size w).1).0 in
        let after : (store_page compress crc32c page n leaf f).1 ≡ f' =
          ap (λ r. r.2)
            (some-injective _ _ (sym (store-flushed compress crc32c w leaf f page flushed) ∙ e)) in
        let l = linked_behind page leaf f h in
        record {
          more =
              to_bytes 2 (size (length page) (to_uint leaf)) ++ (to_bytes 4 (crc32c page) ++ page);
          more_behind =
              ap (λ g. g.file) (sym after)
              ∙ store_page-file compress crc32c page n leaf f
              ∙ ap (λ g. g.file ++ (to_bytes 4 (crc32c page) ++ page)) l
              ∙ append_assoc f.file (to_bytes 2 (size (length page) (to_uint leaf)))
                  (to_bytes 4 (crc32c page) ++ page);
          same_first =
              ap (λ g. g.first_node_size) (sym after)
              ∙ store_page-first compress crc32c page n leaf f
              ∙ ap (λ g. g.first_node_size) l;
          loadable_back = λ h'.
              (store_page-cached compress crc32c page n leaf f (subst IsLoadable (sym after) h')).1;
        }
  ]

  store-total :
      (w : NodeWriter) (leaf : Bool) (f f' : SliceFile) (at : ℕ) (nw : NodeWriter)
      → store compress crc32c w leaf f ≡ some (at, nw, f')
      → f'.total_nodes ≡ f.total_nodes + 1
  unfolding store
  store-total w leaf f f' at nw e = elim (Option-cases (flush compress page_size w).0) [
    | inl failed ↦ absurd (cc (e, failed))
    | inr (page, flushed) ↦
        let n : Node = (reset (flush compress page_size w).1).0 in
        ap (λ g. g.total_nodes)
          (sym (
            ap (λ r. r.2)
              (some-injective _ _ (sym (store-flushed compress crc32c w leaf f page flushed) ∙ e))))
        ∙ store_page-total compress crc32c page n leaf f
  ]

  -- the count of the nodes in the header
  pub store_all-total :
      (xs : List Filled) (f f' : SliceFile)
      → store_all compress crc32c xs f ≡ some f'
      → f'.total_nodes ≡ f.total_nodes + length xs
  unfolding store_all
  store_all-total [] f f' e = ap (λ g. g.total_nodes) (sym (some-injective f f' e)) ∙ omega arith
  store_all-total (x ∷ xs) f f' e =
      elim (Option-cases (store compress crc32c x.filled_writer x.filled_leaf f)) [
        | inl failed ↦ absurd (
            cc (
              sym (
                ap
                  (λ o. elim o as (λ _. Option SliceFile) [
                    | none ↦ none
                    | some (at1, nw1, g) ↦ store_all compress crc32c xs g
                  ])
                  failed)
              ∙ e))
        | inr ((at, nw, g), stored) ↦ omega (
          arith,
          store-total x.filled_writer x.filled_leaf f g at nw stored,
          store_all-total xs g f' (sym (store_all-cons compress crc32c x xs f g at nw stored) ∙ e),
        )
      ]

  pub store_all-Grows :
      (xs : List Filled) (f f' : SliceFile)
      → HasFirst f
      → store_all compress crc32c xs f ≡ some f'
      → Grows f f'
  unfolding store_all
  store_all-Grows [] f f' h e = subst (Grows f) (some-injective f f' e) (Grows-refl f)
  store_all-Grows (x ∷ xs) f f' h e =
      elim (Option-cases (store compress crc32c x.filled_writer x.filled_leaf f)) [
        | inl failed ↦ absurd (
            cc (
              sym (
                ap
                  (λ o. elim o as (λ _. Option SliceFile) [
                    | none ↦ none
                    | some (at1, nw1, g) ↦ store_all compress crc32c xs g
                  ])
                  failed)
              ∙ e))
        | inr ((at, nw, g), stored) ↦
            let here : Grows f g = store-Grows x.filled_writer x.filled_leaf f g at nw h stored in
            Grows-trans f g f' here (
              store_all-Grows xs g f' (Grows-HasFirst f g here h)
                (sym (store_all-cons compress crc32c x xs f g at nw stored) ∙ e))
      ]

  index_flush-last :
      (fuel : ℕ) (l : IndexLevel) (f f1 : SliceFile) (at : ℕ) (nw : NodeWriter)
      → store compress crc32c l.level_node false f ≡ some (at, nw, f1)
      → index_flush compress crc32c (suc fuel) (l ∷ []) f ≡ some (at, f1)
  unfolding index_flush
  index_flush-last fuel l f f1 at nw e = rw (index_flush, e) refl

  index_flush-step :
      (fuel : ℕ) (l l2 : IndexLevel) (higher levels : List IndexLevel) (f f1 f2 : SliceFile)
      (at : ℕ) (nw : NodeWriter)
      → store compress crc32c l.level_node false f ≡ some (at, nw, f1)
      → index_add compress crc32c l.level_first_key l.level_last_key at (l2 ∷ higher) f1
        ≡ some (levels, f2)
      → index_flush compress crc32c (suc fuel) (l ∷ l2 ∷ higher) f
        ≡ index_flush compress crc32c fuel levels f2
  unfolding index_flush
  index_flush-step fuel l l2 higher levels f f1 f2 at nw e up =
      let some_higher : (suc (length higher) == 0) ≡ false = ground arith in
      rw (index_flush, e, up, some_higher) refl

module _ (compress : List ℕ → ℕ → Option (List ℕ)) (decompress : List ℕ → Option (List ℕ))
    (crc32c : List ℕ → ℕ) (codec : IsCodec compress decompress page_size) where
  -- the levels above the lowest one have room
  abbrev LightAbove : List IndexLevel → Type 0
  LightAbove [] = Unit
  LightAbove (l ∷ higher) = Every Light higher

  Every-LightAbove : (levels : List IndexLevel) → Every Light levels → LightAbove levels
  Every-LightAbove [] h = tt
  Every-LightAbove (l ∷ higher) (h, hs) = hs

  pub record Flushes (f : SliceFile) (answer : Option (ℕ × SliceFile)) : Type 0 where
    pub flushed_root : ℕ
    pub flushed_file : SliceFile
    pub flushes_answer : answer ≡ some (flushed_root, flushed_file)
    pub flushes_grows : Grows f flushed_file
    pub flushed_narrow : flushed_root < 2 ^ 48

  -- fuel above the number of the levels, or that number where all above the lowest have room for a key
  pub index_flush-Flushes :
      (fuel : ℕ) (levels : List IndexLevel) (f : SliceFile)
      → Every LevelKept levels
      → HasFirst f
      → 0 < length levels
      → (length levels < fuel) ⊎ ((length levels ≤ fuel) × LightAbove levels)
      → Flushes f (index_flush compress crc32c fuel levels f)
  index_flush-Flushes zero levels f ks h some_levels enough =
      absurd (elim enough [ inl e ↦ omega (arith, e) | inr (e, l) ↦ omega (arith, e) ])
  index_flush-Flushes (suc fuel) [] f ks h some_levels enough = absurd (omega (arith, some_levels))
  index_flush-Flushes (suc fuel) (l ∷ []) f (k, ks) h some_levels enough =
      let s =
        store-Stores compress decompress crc32c codec l.level_node k.level_items false f
          k.level_kept in
      record {
        flushed_root = s.stores_at;
        flushed_file = s.stores_file;
        flushes_answer =
            index_flush-last compress crc32c fuel l f s.stores_file s.stores_at s.stores_writer
              s.stores_answer;
        flushes_grows =
            store-Grows compress crc32c l.level_node false f s.stores_file s.stores_at
              s.stores_writer h s.stores_answer;
        flushed_narrow = s.stores_narrow;
      }
  index_flush-Flushes (suc fuel) (l ∷ l2 ∷ higher) f (k, ks) h some_levels enough =
      let s =
        store-Stores compress decompress crc32c codec l.level_node k.level_items false f
          k.level_kept in
      let f1 : SliceFile = s.stores_file in
      let g1 : Grows f f1 =
        store-Grows compress crc32c l.level_node false f f1 s.stores_at s.stores_writer h
          s.stores_answer in
      let h1 : HasFirst f1 = Grows-HasFirst f f1 g1 h in
      elim enough [
        | inl e ↦
            let up =
              index_add-Indexed compress decompress crc32c codec (l2 ∷ higher) l.level_first_key
                l.level_last_key s.stores_at f1 k.short_first k.short_last ks in
            let g2 : Grows f1 up.new_file =
              store_all-Grows compress crc32c up.nodes f1 up.new_file h1 up.nodes_stored in
            let rest =
              index_flush-Flushes fuel up.new_levels up.new_file up.levels_kept
                (Grows-HasFirst f1 up.new_file g2 h1)
                (elim up.growth [
                  | inl same ↦ omega (arith, same)
                  | inr (grown, light) ↦ omega (arith, grown)
                ])
                (elim up.growth [
                  | inl same ↦ inl (omega (arith, same, e))
                  | inr (grown, light) ↦
                      inr (omega (arith, grown, e), Every-LightAbove up.new_levels light)
                ]) in
            record {
              flushed_root = rest.flushed_root;
              flushed_file = rest.flushed_file;
              flushes_answer =
                  index_flush-step compress crc32c fuel l l2 higher up.new_levels f f1 up.new_file
                    s.stores_at s.stores_writer s.stores_answer up.indexed_answer
                  ∙ rest.flushes_answer;
              flushes_grows =
                  Grows-trans f f1 rest.flushed_file g1
                    (Grows-trans f1 up.new_file rest.flushed_file g2 rest.flushes_grows);
              flushed_narrow = rest.flushed_narrow;
            }
        | inr (e, (light, lights)) ↦
            let (l', k', up) =
              index_add-Light compress decompress crc32c codec l2 higher l.level_first_key
                l.level_last_key s.stores_at f1 k.short_first k.short_last ks.0 light in
            let rest =
              index_flush-Flushes fuel (l' ∷ higher) f1 (k', ks.1) h1 (omega arith)
                (inr (omega (arith, e), lights)) in
            record {
              flushed_root = rest.flushed_root;
              flushed_file = rest.flushed_file;
              flushes_answer =
                  index_flush-step compress crc32c fuel l l2 higher (l' ∷ higher) f f1 f1
                    s.stores_at s.stores_writer s.stores_answer up
                  ∙ rest.flushes_answer;
              flushes_grows = Grows-trans f f1 rest.flushed_file g1 rest.flushes_grows;
              flushed_narrow = rest.flushed_narrow;
            }
      ]
