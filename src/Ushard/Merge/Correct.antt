-- ===== src/Ushard/Merge/Correct.antt =====
-- Slices read as one by a ushard iterator: the newest record of every key, in the order of the keys.
use mathlib.Core.Path.{subst}
use tyrdbs.Prelude.{
  ℕ, zero, suc, ◌+◌, ◌≤◌, ◌<◌, ◌≡◌, ◌≢◌, refl, sym, ap, ◌∙◌, ◌⊎◌, inl, inr, true, false, List, [],
  ◌∷◌, arith, Every, Any, Every-imp, length,
}
use tyrdbs.Iterator.{Part}
use tyrdbs.Ushard.Merge.{
  Cursor, UshardIterator, sort, begin, stop, size_of, next, collect, elements_of, ushard_iterator,
}
use tyrdbs.Ushard.Merge.Order.{Sorted, Every-place, place-Every, sort-Sorted}
use tyrdbs.Ushard.Merge.Newest.{
  parts, all_parts, Below, Below-le, IsChain, Newest, Newest-above, idx_of, place-Any,
}
use tyrdbs.Ushard.Merge.Skip.{IsSlice, state, bounds-cases, Sorted-Ready, size_of-place, place_told}
use tyrdbs.Ushard.Merge.Collect.{Merged, first_part, collect_lem, collect-met, collect-end}

Every-sort {κ} : (P : Cursor → Type κ) (es : List Cursor) → Every P es → Every P (sort es)
unfolding sort
Every-sort P [] h = tt
Every-sort P (e ∷ es) (h, hs) = Every-place P e (sort es) h (Every-sort P es hs)

sort-Every {κ} : (P : Cursor → Type κ) (es : List Cursor) → Every P (sort es) → Every P es
unfolding sort
sort-Every P [] h = tt
sort-Every P (e ∷ es) h = let (p, ps) = place-Every P e (sort es) h in (p, sort-Every P es ps)

sort-Any : (P : Cursor → Type 0) (es : List Cursor) → Any P (sort es) → Any P es
unfolding sort
sort-Any P [] h = h
sort-Any P (e ∷ es) h = elim (place-Any P e (sort es) h) [
  | inl p ↦ inl p
  | inr q ↦ inr (sort-Any P es q)
]

sort-Newest :
    (k : List ℕ) (es : List Cursor) (ps : List Part) → Newest k (sort es) ps → Newest k es ps
sort-Newest k es ps (found, most) = (
  elim found [
    | inl none' ↦ inl none'
    | inr a ↦ inr (sort-Any (λ c. parts k (all_parts c) ≡ ps) es a)
  ],
  sort-Every _ es most,
)

size_of-sort : (es : List Cursor) → size_of (sort es) ≡ size_of es
unfolding sort size_of
size_of-sort [] = refl
size_of-sort (e ∷ es) = omega (arith, size_of-place e (sort es), size_of-sort es)

Merged_sort :
    (m : List ℕ) (els : List Cursor) (out : List Part) → Merged m (sort els) out → Merged m els out
Merged_sort m els out h = record {
  chain = h.chain;
  newest = λ k i. sort-Newest k els (parts k out) (h.newest k i);
  beyond = h.beyond;
}

-- the first call of `next`
start_lem :
    (fuel : ℕ) (m : List ℕ) (d : Cursor) (ds : List Cursor) (it : UshardIterator)
    → size_of (d ∷ ds) ≤ fuel
    → next it ≡ begin (d ∷ ds) (state [] m [])
    → Sorted (d ∷ ds)
    → Every IsSlice (d ∷ ds)
    → 0 < length d.current.key
    → Merged m (d ∷ ds) (collect (suc fuel) it)
unfolding begin stop parts
start_lem fuel m d ds it h e s ch key = elim (bounds-cases d.current.key m) [
  | inl (within, i) ↦
      let met : next it ≡ (true, state (d ∷ ds) m d.current.key) = e ∙ rw within refl in
      subst (Merged m (d ∷ ds)) (sym (collect-met fuel m d.current.key it d ds met)) (
        first_part m d ds (collect fuel (state (d ∷ ds) m d.current.key)) s ch i
          (collect_lem fuel m d ds h (Sorted-Ready d ds s ch) key i))
  | inr (out, above) ↦
      let done : (next it).0 ≡ false = ap (λ a. a.0) e ∙ rw out refl in
      subst (Merged m (d ∷ ds)) (sym (collect-end fuel it done)) (record {
        chain = tt;
        newest = λ k i. Newest-above k (d ∷ ds) ch (
          above k i,
          Every-imp _ (λ x. Below k x.current.key)
              (λ x b. Below-le k d.current.key x.current.key (above k i) b.key_le) ds s.0,
        );
        beyond = λ k i. refl;
      })
]

-- the elements have keys that are not empty
abbrev pub HasKey : Cursor → Type 0
HasKey c = 0 < length c.current.key

pub no_element : (fuel : ℕ) (m l : List ℕ) → Merged m [] (collect (suc fuel) (state [] l []))
unfolding next parts
no_element fuel m l =
    subst (Merged m []) (sym (collect-end fuel (state [] l []) refl))
      (record { chain = tt; newest = λ k i. (inl refl, tt); beyond = λ k i. refl })

next-begin :
    (m : List ℕ) (c d : Cursor) (es ds : List Cursor)
    → sort (c ∷ es) ≡ d ∷ ds
    → next (state (c ∷ es) m []) ≡ begin (d ∷ ds) (state [] m [])
unfolding next begin
next-begin m c d es ds e = ap (λ els. begin els (state (c ∷ es) m [])) e

sort_told :
    (c : Cursor) (es : List Cursor) → (d : Cursor) × (ds : List Cursor) × (sort (c ∷ es) ≡ d ∷ ds)
unfolding sort
sort_told c es = place_told c (sort es)

-- A loop over elements in any order.
pub elements_lem :
    (fuel : ℕ) (m : List ℕ) (els : List Cursor)
    → size_of els ≤ fuel
    → Every IsSlice els
    → Every HasKey els
    → Merged m els (collect (suc fuel) (state els m []))
elements_lem fuel m [] h ch keys = no_element fuel m m
elements_lem fuel m (c ∷ es) h ch keys =
    let (d, ds, e) = sort_told c es in
    let keys' : Every HasKey (d ∷ ds) = subst (Every HasKey) e (Every-sort HasKey (c ∷ es) keys) in
    Merged_sort m (c ∷ es) (collect (suc fuel) (state (c ∷ es) m [])) (
      subst (λ t. Merged m t (collect (suc fuel) (state (c ∷ es) m []))) (sym e)
        (start_lem fuel m d ds (state (c ∷ es) m [])
          (omega (arith, h, ap size_of e, size_of-sort (c ∷ es))) (next-begin m c d es ds e)
          (subst Sorted e (sort-Sorted (c ∷ es)))
          (subst (Every IsSlice) e (Every-sort IsSlice (c ∷ es) ch)) keys'.0))

-- `ps` is the record of the key `k` in one of the slices that have one, and no slice has one of a
-- greater index. It is empty only when no slice has one.
abbrev pub NewestOf : List ℕ → List (List Part) → List Part → Type 0
NewestOf k slices ps =
    ((ps ≡ []) ⊎ Any (λ s. parts k s ≡ ps) slices)
    × Every (λ s. (parts k s ≡ []) ⊎ ((ps ≢ []) × (idx_of (parts k s) ≤ idx_of ps))) slices

-- the first key of a slice is not empty
abbrev pub StartsWithKey : List Part → Type 0
StartsWithKey [] = Unit
StartsWithKey (p ∷ ps) = 0 < length p.key

-- the number of all the parts
abbrev pub total : List (List Part) → ℕ
total [] = 0
total (s ∷ slices) = length s + total slices

module _ (P : List Part → Type 0) where
  elements_of-Any :
      (slices : List (List Part)) → Any (λ c. P (all_parts c)) (elements_of slices) → Any P slices
  unfolding elements_of
  elements_of-Any [] a = a
  elements_of-Any ([] ∷ slices) a = inr (elements_of-Any slices a)
  elements_of-Any ((p ∷ ps) ∷ slices) (inl a) = inl a
  elements_of-Any ((p ∷ ps) ∷ slices) (inr a) = inr (elements_of-Any slices a)

  elements_of-Every :
      (slices : List (List Part))
      → P []
      → Every (λ c. P (all_parts c)) (elements_of slices)
      → Every P slices
  unfolding elements_of
  elements_of-Every [] e a = tt
  elements_of-Every ([] ∷ slices) e a = (e, elements_of-Every slices e a)
  elements_of-Every ((p ∷ ps) ∷ slices) e (h, a) = (h, elements_of-Every slices e a)

  Every-elements_of :
      (slices : List (List Part))
      → Every P slices
      → Every (λ c. P (all_parts c)) (elements_of slices)
  unfolding elements_of
  Every-elements_of [] a = tt
  Every-elements_of ([] ∷ slices) (h, a) = Every-elements_of slices a
  Every-elements_of ((p ∷ ps) ∷ slices) (h, a) = (h, Every-elements_of slices a)

size_of-elements_of : (slices : List (List Part)) → size_of (elements_of slices) ≡ total slices
unfolding size_of elements_of
size_of-elements_of [] = refl
size_of-elements_of ([] ∷ slices) = omega (arith, size_of-elements_of slices)
size_of-elements_of ((p ∷ ps) ∷ slices) = omega (arith, size_of-elements_of slices)

-- Slices whose keys ascend, whose records are complete, and whose first key is not empty, read by a
-- ushard iterator in a loop over `next`: what the loop meets is again the parts of a slice, keys in
-- ascending order and every record complete, and for every key its parts are the whole record of
-- that key in a slice that has it with the greatest index, and no parts when no slice has the key.
pub collect-NewestOf :
    (slices : List (List Part))
    → Every IsChain slices
    → Every StartsWithKey slices
    → (fuel : ℕ) → total slices < fuel
    → IsChain (collect fuel (ushard_iterator slices))
      × ((k : List ℕ) → NewestOf k slices (parts k (collect fuel (ushard_iterator slices))))
unfolding ushard_iterator parts
collect-NewestOf slices chains keys zero h = absurd (omega arith)
collect-NewestOf slices chains keys (suc fuel) h =
    let out : List Part = collect (suc fuel) (state (elements_of slices) [] []) in
    let merged : Merged [] (elements_of slices) out =
      elements_lem fuel [] (elements_of slices) (omega (arith, size_of-elements_of slices))
        (Every-elements_of IsChain slices chains) (Every-elements_of StartsWithKey slices keys) in
    (
      merged.chain,
      λ k.
          let (found, most) = merged.newest k (inl refl) in
          (
            (elim found [
              | inl none' ↦ inl none'
              | inr a ↦ inr (elements_of-Any (λ s. parts k s ≡ parts k out) slices a)
            ]),
            elements_of-Every _ slices (inl refl) most,
          ),
    )
