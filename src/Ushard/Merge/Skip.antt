-- ===== src/Ushard/Merge/Skip.antt =====
-- What `advance` and the loop of `next` do to the elements.
use mathlib.Core.Path.{subst}
use tyrdbs.Prelude.{
  ℕ, zero, suc, ◌+◌, ◌≤◌, ◌<◌, ◌≡◌, ◌≢◌, refl, sym, ap, ◌∙◌, ◌⊎◌, inl, inr, Bool, true, false, List,
  [], ◌∷◌, Bool-cases, arith, Every, Every-imp, length, ◌==◌, if◌then◌else◌,
}
use tyrdbs.Keys.{le_key, le_key_trans, le_key_refl}
use tyrdbs.Keys.Order.{compare_keys-cases, le_key_antisym}
use tyrdbs.Iterator.{Part}
use tyrdbs.Ushard.Merge.{
  Cursor, cmp, place, UshardIterator, Answer, advance, size_of, settle, skip, stop,
  is_out_of_bounds,
}
use tyrdbs.Ushard.Merge.Order.{Sorted, Every-place, place-Sorted}
use tyrdbs.Ushard.Merge.Newest.{
  parts, all_parts, Below, Below-le, IsChain, Newest, place-Newest, Newest-moved, Newest-dropped,
  Newest-above, parts-cons_ne, Follows-le,
}

abbrev pub IsSlice : Cursor → Type 0
IsSlice c = IsChain (all_parts c)

abbrev pub state : List Cursor → (max_key last_key : List ℕ) → UshardIterator
state els m l = record { elements = els; max_key = m; last_key = l }

-- A key is not above the greatest one of the range, if there is a range.
abbrev pub InBounds : List ℕ → List ℕ → Type 0
InBounds m k = (m ≡ []) ⊎ (le_key k m ≡ true)

-- The element at the back has a least key; the others are in order.
pub record Ready (c : Cursor) (es : List Cursor) : Type 0 where
  pub chain : IsSlice c
  pub chains : Every IsSlice es
  pub sorted : Sorted es
  pub least : Every (λ x. le_key c.current.key x.current.key ≡ true) es

pub Sorted-Ready :
    (c : Cursor) (es : List Cursor) → Sorted (c ∷ es) → Every IsSlice (c ∷ es) → Ready c es
Sorted-Ready c es (b, s) (h, hs) = record {
  chain = h;
  chains = hs;
  sorted = s;
  least = Every-imp _ _ (λ x b. b.key_le) es b;
}

pub size_of-place :
    (e : Cursor) (xs : List Cursor) → size_of (place e xs) ≡ suc (length e.following) + size_of xs
unfolding size_of place
size_of-place e [] = refl
size_of-place e (x ∷ xs) = elim (Bool-cases (cmp x e)) [
  | inl c ↦ rw c refl
  | inr c ↦ rw c (omega (arith, size_of-place e xs))
]

pub size_of-pos : (c : Cursor) (es : List Cursor) → 0 < size_of (c ∷ es)
unfolding size_of
size_of-pos c es = omega arith

-- The elements after `advance`.
pub record Advanced (c : Cursor) (es els : List Cursor) : Type 0 where
  pub sorted : Sorted els
  pub chains : Every IsSlice els
  pub least : Every (λ x. le_key c.current.key x.current.key ≡ true) els
  pub smaller : size_of els < size_of (c ∷ es)
  pub same_others :
      (k : List ℕ) (ps : List Part) → c.current.key ≢ k → Newest k els ps → Newest k (c ∷ es) ps

-- the answer of `advance` tells whether there are elements left
abbrev Told : Bool → List Cursor → Type 0
Told b els =
    ((b ≡ false) × (els ≡ [])) ⊎ ((b ≡ true) × ((d : Cursor) × (ds : List Cursor) × (els ≡ d ∷ ds)))

pub place_told :
    (e : Cursor) (xs : List Cursor) → (d : Cursor) × (ds : List Cursor) × (place e xs ≡ d ∷ ds)
unfolding place
place_told e [] = (e, [], refl)
place_told e (x ∷ xs) = elim (Bool-cases (cmp x e)) [
  | inl c ↦ rw c (e, x ∷ xs, refl)
  | inr c ↦ rw c (x, place e xs, refl)
]

rest-Told : (es : List Cursor) → Told (if length es == 0 then false else true) es
rest-Told [] = inl (refl, refl)
rest-Told (e ∷ es) = inr (ground arith, (e, es, refl))

advance_at :
    (current : Part) (following : List Part) (es : List Cursor)
    → Ready (record { current = current; following = following }) es
    → Advanced
        (record { current = current; following = following })
        es
        (advance (record { current = current; following = following } ∷ es)).1
      × Told
          (advance (record { current = current; following = following } ∷ es)).0
          (advance (record { current = current; following = following } ∷ es)).1
unfolding advance size_of parts
advance_at p [] es r = (
  record {
    sorted = r.sorted;
    chains = r.chains;
    least = r.least;
    smaller = omega arith;
    same_others = λ k ps ne h.
        Newest-dropped k ps (record { current = p; following = [] }) es (parts-cons_ne k p [] ne) h;
  },
  rest-Told es,
)
advance_at p (q ∷ qs) es r =
    let d : Cursor = record { current = q; following = qs } in
    let le : le_key p.key q.key ≡ true = Follows-le p q r.chain.0 in
    (
      record {
        sorted = place-Sorted d es r.sorted;
        chains = Every-place IsSlice d es r.chain.1 r.chains;
        least = Every-place (λ x. le_key p.key x.current.key ≡ true) d es le r.least;
        smaller = omega (arith, size_of-place d es);
        same_others = λ k ps ne h.
            Newest-moved k ps (record { current = p; following = q ∷ qs }) d es
              (sym (parts-cons_ne k p (q ∷ qs) ne)) (place-Newest k ps d es h);
      },
      inr (refl, place_told d es),
    )

pub advance-Advanced :
    (c : Cursor) (es : List Cursor)
    → Ready c es
    → Advanced c es (advance (c ∷ es)).1 × Told (advance (c ∷ es)).0 (advance (c ∷ es)).1
advance-Advanced c es r = advance_at c.current c.following es r

-- The test of the bounds.
pub bounds-cases :
    (k m : List ℕ)
    → ((is_out_of_bounds k m ≡ false) × InBounds m k)
      ⊎ ((is_out_of_bounds k m ≡ true) × ((j : List ℕ) → InBounds m j → Below j k))
unfolding is_out_of_bounds
bounds-cases k [] = inl (refl, inl refl)
bounds-cases k (x ∷ m) =
    let some_bound : (length (x ∷ m) == 0) ≡ false = ground arith in
    elim (compare_keys-cases k (x ∷ m)) [
      | inl (e, same) ↦
          inl
            ((rw (some_bound, e) refl), inr (ap (λ t. le_key t (x ∷ m)) same ∙ le_key_refl (x ∷ m)))
      | inr (inl (e, le, _)) ↦ inl ((rw (some_bound, e) refl), inr le)
      | inr (inr (e, _, ge, ne)) ↦ inr (
        (rw (some_bound, e) refl),
        λ j b. elim b [
          | inl empty ↦ absurd (cc empty)
          | inr le ↦ (
            le_key_trans j (x ∷ m) k le ge,
            λ same. ne (le_key_antisym k (x ∷ m) (ap (λ t. le_key t (x ∷ m)) (sym same) ∙ le) ge),
          )
        ],
      )
    ]

-- What the loop comes to from elements whose last key was `l`: there is nothing more within the
-- bounds, or an element stands on the least key behind `l`, with fewer than `n` parts left.
abbrev pub Skipped : List ℕ → List ℕ → List Cursor → ℕ → Answer → Type 0
Skipped m l els n r =
    ((r.0 ≡ false)
      × (r.1.elements ≡ [])
      × ((k : List ℕ) → Below l k → InBounds m k → Newest k els []))
    ⊎ ((d : Cursor) × (ds : List Cursor) × (r ≡ (true, state (d ∷ ds) m d.current.key))
        × Below l d.current.key
        × InBounds m d.current.key
        × Sorted (d ∷ ds)
        × Every IsSlice (d ∷ ds)
        × (size_of (d ∷ ds) < n)
        × ((k : List ℕ) (ps : List Part) → Below l k → Newest k (d ∷ ds) ps → Newest k els ps))

-- From elements that `advance` left, back to those before.
Skipped-back :
    (m l : List ℕ) (c : Cursor) (es els : List Cursor) (r : Answer)
    → c.current.key ≡ l
    → Advanced c es els
    → Skipped m l els (suc (size_of els)) r
    → Skipped m l (c ∷ es) (size_of (c ∷ es)) r
Skipped-back m l c es els r same a (inl (e, none', no_more)) =
    inl (e, none', λ k b i. a.same_others k [] (λ s. b.1 (sym same ∙ s)) (no_more k b i))
Skipped-back m l c es els r same a (inr (d, ds, e, b, i, s, ch, sm, back)) = inr (
  d,
  ds,
  e,
  b,
  i,
  s,
  ch,
  omega (arith, sm, a.smaller),
  λ k ps bk h. a.same_others k ps (λ t. bk.1 (sym same ∙ t)) (back k ps bk h),
)

Skipped-weaken :
    (m l : List ℕ) (els : List Cursor) (n : ℕ) (r : Answer)
    → Skipped m l els n r
    → Skipped m l els (suc n) r
Skipped-weaken m l els n r (inl h) = inl h
Skipped-weaken m l els n r (inr (d, ds, e, b, i, s, ch, sm, back)) =
    inr (d, ds, e, b, i, s, ch, omega (arith, sm), back)

-- The body of the loop.
settle_lem :
    (m l : List ℕ) (d : Cursor) (ds : List Cursor) (rest : Answer)
    → Sorted (d ∷ ds)
    → Every IsSlice (d ∷ ds)
    → le_key l d.current.key ≡ true
    → (d.current.key ≡ l → Skipped m l (d ∷ ds) (size_of (d ∷ ds)) rest)
    → Skipped m l (d ∷ ds) (suc (size_of (d ∷ ds))) (settle rest (state (d ∷ ds) m l))
unfolding settle stop
settle_lem m l d ds rest s ch le again = elim (bounds-cases d.current.key m) [
  | inr (out, above) ↦ rw out (
      inl (
        refl,
        refl,
        λ k b i. Newest-above k (d ∷ ds) ch (
          above k i,
          Every-imp _ (λ x. Below k x.current.key)
              (λ x h. Below-le k d.current.key x.current.key (above k i) h.key_le) ds s.0,
        ),
      ))
  | inl (within, i) ↦ elim (compare_keys-cases d.current.key l) [
    | inl (e, same) ↦
        rw (within, e) (Skipped-weaken m l (d ∷ ds) (size_of (d ∷ ds)) rest (again same))
    | inr (inl (e, lower, ne)) ↦ absurd (ne (le_key_antisym d.current.key l lower le))
    | inr (inr (e, _, _, ne)) ↦
        rw (within, e)
          (inr (d, ds, refl, (le, λ t. ne (sym t)), i, s, ch, omega arith, λ k ps b h. h))
  ]
]

-- The loop, from elements the first of which stands on the last key.
pub skip_lem :
    (fuel : ℕ) (m l : List ℕ) (c : Cursor) (es : List Cursor)
    → size_of (c ∷ es) ≤ fuel
    → c.current.key ≡ l
    → Ready c es
    → Skipped m l (c ∷ es) (size_of (c ∷ es)) (skip fuel (state (c ∷ es) m l))
unfolding skip
skip_lem zero m l c es h same r = absurd (omega (arith, size_of-pos c es))
skip_lem (suc fuel) m l c es h same r =
    let (a, told) = advance-Advanced c es r in
    elim told [
      | inl (e, none') ↦ rw e (
          inl (
            refl,
            none',
            λ k b i.
                a.same_others k [] (λ t. b.1 (sym same ∙ t))
                  (subst (λ els. Newest k els []) (sym none') (inl refl, tt)),
          ))
      | inr (e, (d, ds, els)) ↦
          let left : Advanced c es (d ∷ ds) = subst (Advanced c es) els a in
          rw (e, els)
            (Skipped-back m l c es (d ∷ ds)
              (settle (skip fuel (state (d ∷ ds) m l)) (state (d ∷ ds) m l)) same left
              (settle_lem m l d ds (skip fuel (state (d ∷ ds) m l)) left.sorted left.chains
                (subst (λ t. le_key t d.current.key ≡ true) same left.least.0)
                (λ again.
                  skip_lem fuel m l d ds (omega (arith, left.smaller, h)) again
                    (Sorted-Ready d ds left.sorted left.chains))))
    ]
