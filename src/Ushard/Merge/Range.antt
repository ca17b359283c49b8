-- ===== src/Ushard/Merge/Range.antt =====
-- A range of slices read as one: the keys above the greatest one of the range are left out.
use mathlib.Core.Path.{subst}
use tyrdbs.Prelude.{
  ℕ, zero, suc, ◌≤◌, ◌<◌, ◌≡◌, ◌≢◌, refl, sym, ap, ◌∙◌, ◌⊎◌, inl, inr, true, false, List, [], ◌∷◌,
  arith, Every, Any, length, ◌==◌, if◌then◌else◌,
}
use tyrdbs.Keys.{le_key, le_key_trans}
use tyrdbs.Keys.Order.{compare_keys-cases, eq-le_key, le_key_antisym}
use tyrdbs.Node.{max_key_size}
use tyrdbs.Iterator.{Part}
use tyrdbs.Ushard.Merge.{Cursor, size_of, collect, elements_within, ushard_range}
use tyrdbs.Ushard.Merge.Newest.{parts, all_parts, Below, IsChain, parts_above}
use tyrdbs.Ushard.Merge.Skip.{state, InBounds}
use tyrdbs.Ushard.Merge.Collect.{Merged}
use tyrdbs.Ushard.Merge.Correct.{NewestOf, StartsWithKey, total, elements_lem, no_element}

module _ (m : List ℕ) where
  -- What a slice adds to the elements: itself, or nothing when its first key is beyond the range.
  within-cases :
      (p : Part) (ps : List Part) (slices : List (List Part))
      → ((elements_within m ((p ∷ ps) ∷ slices)
            ≡ record { current = p; following = ps } ∷ elements_within m slices)
          × (le_key p.key m ≡ true))
        ⊎ ((elements_within m ((p ∷ ps) ∷ slices) ≡ elements_within m slices) × Below m p.key)
  unfolding elements_within
  within-cases p ps slices = elim (compare_keys-cases p.key m) [
    | inl (e, same) ↦ inl ((rw (elements_within, e) refl), eq-le_key p.key m e)
    | inr (inl (e, le, _)) ↦ inl ((rw (elements_within, e) refl), le)
    | inr (inr (e, _, ge, ne)) ↦ inr ((rw (elements_within, e) refl), (ge, λ t. ne (sym t)))
  ]

  module _ (P : List Part → Type 0) where
    within-Any :
        (slices : List (List Part))
        → Any (λ c. P (all_parts c)) (elements_within m slices)
        → Any P slices
    unfolding elements_within
    within-Any [] a = a
    within-Any ([] ∷ slices) a = inr (within-Any slices a)
    within-Any ((p ∷ ps) ∷ slices) a = elim (within-cases p ps slices) [
      | inl (e, _) ↦ elim (subst (Any (λ c. P (all_parts c))) e a) [
        | inl h ↦ inl h
        | inr b ↦ inr (within-Any slices b)
      ]
      | inr (e, _) ↦ inr (within-Any slices (subst (Any (λ c. P (all_parts c))) e a))
    ]

    -- `P` holds of the slices that are left out.
    within-Every :
        (slices : List (List Part))
        → P []
        → ((p : Part) (ps : List Part) → IsChain (p ∷ ps) → Below m p.key → P (p ∷ ps))
        → Every IsChain slices
        → Every (λ c. P (all_parts c)) (elements_within m slices)
        → Every P slices
    unfolding elements_within
    within-Every [] e out ch a = tt
    within-Every ([] ∷ slices) e out (c, ch) a = (e, within-Every slices e out ch a)
    within-Every ((p ∷ ps) ∷ slices) e out (c, ch) a = elim (within-cases p ps slices) [
      | inl (s, _) ↦
          let (h, a') : P (p ∷ ps) × Every (λ d. P (all_parts d)) (elements_within m slices) =
            subst (Every (λ d. P (all_parts d))) s a in
          (h, within-Every slices e out ch a')
      | inr (s, b) ↦
          (out p ps c b, within-Every slices e out ch (subst (Every (λ d. P (all_parts d))) s a))
    ]

    Every-within :
        (slices : List (List Part))
        → Every P slices
        → Every (λ c. P (all_parts c)) (elements_within m slices)
    unfolding elements_within
    Every-within [] h = tt
    Every-within ([] ∷ slices) (h, hs) = Every-within slices hs
    Every-within ((p ∷ ps) ∷ slices) (h, hs) = elim (within-cases p ps slices) [
      | inl (s, _) ↦ subst (Every (λ d. P (all_parts d))) (sym s) (h, Every-within slices hs)
      | inr (s, b) ↦ subst (Every (λ d. P (all_parts d))) (sym s) (Every-within slices hs)
    ]

  size_of-within : (slices : List (List Part)) → size_of (elements_within m slices) ≤ total slices
  unfolding elements_within size_of
  size_of-within [] = omega arith
  size_of-within ([] ∷ slices) = omega (arith, size_of-within slices)
  size_of-within ((p ∷ ps) ∷ slices) = elim (within-cases p ps slices) [
    | inl (s, _) ↦ omega (arith, size_of-within slices, ap size_of s)
    | inr (s, _) ↦ omega (arith, size_of-within slices, ap size_of s)
  ]

-- The bound is kept where there are elements.
bounded :
    (m : List ℕ) (els : List Cursor) (fuel : ℕ)
    → Merged m els (collect (suc fuel) (state els m []))
    → Merged m els (collect (suc fuel) (state els (if length els == 0 then [] else m) []))
bounded m [] fuel h = no_element fuel m (if length {A = Cursor} [] == 0 then [] else m)
bounded m (c ∷ es) fuel h =
    let some_element : (length (c ∷ es) == 0) ≡ false = ground arith in rw some_element h

-- `k` is within the bounds, and `p` is not.
out_of_range :
    (m k : List ℕ) (p : Part) → 0 < length m → InBounds m k → Below m p.key → Below k p.key
out_of_range m k p some_bound (inl none') b = absurd (omega (arith, ap length none'))
out_of_range m k p some_bound (inr le) b = (
  le_key_trans k m p.key le b.0,
  λ e. b.1 (le_key_antisym m p.key b.0 (ap (λ t. le_key t m) (sym e) ∙ le)),
)

-- A greatest key `m` of 1 to 1024 bytes, and iterators over a range up to it, whose first keys are
-- not empty, each over the parts of a slice, read by a ushard iterator in a loop over `next`: the
-- loop meets the parts of a slice, for every key up to `m` the whole record of that key from an
-- iterator that has it with the greatest index, and no parts when none has it, and it meets no key
-- above `m`.
pub collect-range :
    (m : List ℕ) (iterators : List (List Part))
    → 0 < length m
    → length m ≤ max_key_size
    → Every IsChain iterators
    → Every StartsWithKey iterators
    → (fuel : ℕ) → total iterators < fuel
    → IsChain (collect fuel (ushard_range m iterators))
      × ((k : List ℕ)
          → le_key k m ≡ true
          → NewestOf k iterators (parts k (collect fuel (ushard_range m iterators))))
      × ((k : List ℕ) → le_key k m ≢ true → parts k (collect fuel (ushard_range m iterators)) ≡ [])
unfolding ushard_range parts
collect-range m iterators some_bound fits chains keys zero h = absurd (omega arith)
collect-range m iterators some_bound fits chains keys (suc fuel) h =
    let els : List Cursor = elements_within m iterators in
    let out : List Part = collect (suc fuel) (state els (if length els == 0 then [] else m) []) in
    let merged : Merged m els out = bounded m els fuel (
      elements_lem fuel m els (omega (arith, size_of-within m iterators))
        (Every-within m IsChain iterators chains) (Every-within m StartsWithKey iterators keys)) in
    (
      merged.chain,
      (λ k le.
          let (found, most) = merged.newest k (inr le) in
          (
            (elim found [
              | inl none' ↦ inl none'
              | inr a ↦ inr (within-Any m (λ s. parts k s ≡ parts k out) iterators a)
            ]),
            within-Every m _ iterators (inl refl)
                (λ p ps c b. inl (parts_above k p ps c (out_of_range m k p some_bound (inr le) b)))
                chains most,
          )),
      λ k not_le.
          merged.beyond k
            (elim [ inl none' ↦ omega (arith, ap length none') | inr le ↦ not_le le ]),
    )
