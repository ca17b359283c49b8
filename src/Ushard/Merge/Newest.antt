-- ===== src/Ushard/Merge/Newest.antt =====
-- What a merge of slices is for: for each key the record of the slice that has it with the greatest
-- index.
use Prim.Native.Nat.{Ordering}
use tyrdbs.Prelude.{
  ℕ, ◌≤◌, ◌≡◌, ◌≢◌, refl, sym, ap, ◌∙◌, ◌⊎◌, inl, inr, true, false, List, [], ◌∷◌, Bool-cases,
  arith, Every, Any, Every-imp,
}
use mathlib.Core.Path.{subst}
use tyrdbs.Keys.{compare_keys, le_key, le_key_trans, le_key_refl, compare_keys_refl}
use tyrdbs.Keys.Order.{compare_keys-cases, le_key_antisym}
use tyrdbs.Iterator.{Part}
use tyrdbs.Ushard.Merge.{Cursor, cmp, place}
use tyrdbs.Ushard.Merge.Order.{Before, Sorted, place-Every}

-- the parts with this key
unfoldable pub parts : List ℕ → List Part → List Part
parts k [] = []
parts k (p ∷ ps) =
    let rest = parts k ps in elim (compare_keys p.key k) [ Ordering.eq ↦ p ∷ rest | _ ↦ rest ]

abbrev pub all_parts : Cursor → List Part
all_parts c = c.current ∷ c.following

-- `a` is strictly below `b`.
abbrev pub Below : List ℕ → List ℕ → Type 0
Below a b = (le_key a b ≡ true) × (a ≢ b)

-- `q` may stand behind `p` in a slice.
abbrev pub Follows : Part → Part → Type 0
Follows p q = ((p.key ≡ q.key) × (p.eor ≡ false)) ⊎ (Below p.key q.key × (p.eor ≡ true))

-- The parts of a slice: keys ascend, a record is a run of parts under one key, and the last of
-- them, no other, has the end of record.
abbrev pub IsChain : List Part → Type 0
IsChain [] = Unit
IsChain (p ∷ []) = p.eor ≡ true
IsChain (p ∷ q ∷ r) = Follows p q × IsChain (q ∷ r)

abbrev pub idx_of : List Part → ℕ
idx_of [] = 0
idx_of (p ∷ ps) = p.idx

-- `ps` is the record of the key `k` in one of the elements that have one, and no element has one of
-- a greater index. It is empty only when no element has one.
abbrev pub Newest : List ℕ → List Cursor → List Part → Type 0
Newest k cs ps =
    ((ps ≡ []) ⊎ Any (λ c. parts k (all_parts c) ≡ ps) cs)
    × Every
        (λ c.
          (parts k (all_parts c) ≡ []) ⊎ ((ps ≢ []) × (idx_of (parts k (all_parts c)) ≤ idx_of ps)))
        cs

pub parts-cons_eq :
    (k : List ℕ) (p : Part) (ps : List Part) → p.key ≡ k → parts k (p ∷ ps) ≡ p ∷ parts k ps
unfolding parts
parts-cons_eq k p ps e =
    let same : compare_keys p.key k ≡ Ordering.eq =
      ap (compare_keys p.key) (sym e) ∙ compare_keys_refl p.key in
    rw (parts, same) refl

pub parts-cons_ne :
    (k : List ℕ) (p : Part) (ps : List Part) → p.key ≢ k → parts k (p ∷ ps) ≡ parts k ps
unfolding parts
parts-cons_ne k p ps ne = elim (compare_keys-cases p.key k) [
  | inl (e, same) ↦ absurd (ne same)
  | inr (inl (e, _, _)) ↦ rw (parts, e) refl
  | inr (inr (e, _, _, _)) ↦ rw (parts, e) refl
]

pub parts_none : (k : List ℕ) (ps : List Part) → Every (λ q. q.key ≢ k) ps → parts k ps ≡ []
unfolding parts
parts_none k [] h = refl
parts_none k (p ∷ ps) (hp, hs) = parts-cons_ne k p ps hp ∙ parts_none k ps hs

-- strictly below, and further
pub Below-le : (a b c : List ℕ) → Below a b → le_key b c ≡ true → Below a c
Below-le a b c (ab, ne) bc =
    (le_key_trans a b c ab bc, λ e. ne (le_key_antisym a b ab (ap (le_key b) e ∙ bc)))

pub Follows-le : (p q : Part) → Follows p q → le_key p.key q.key ≡ true
Follows-le p q (inl (same, _)) = ap (le_key p.key) (sym same) ∙ le_key_refl p.key
Follows-le p q (inr (b, _)) = b.0

pub IsChain-tail : (p : Part) (ps : List Part) → IsChain (p ∷ ps) → IsChain ps
IsChain-tail p [] h = tt
IsChain-tail p (q ∷ ps) h = h.1

pub IsChain-le :
    (p : Part) (ps : List Part) → IsChain (p ∷ ps) → Every (λ q. le_key p.key q.key ≡ true) ps
IsChain-le p [] h = tt
IsChain-le p (q ∷ ps) (f, h) = (
  Follows-le p q f,
  Every-imp _ (λ r. le_key p.key r.key ≡ true)
      (λ r l. le_key_trans p.key q.key r.key (Follows-le p q f) l) ps (IsChain-le q ps h),
)

-- No part of a chain that begins above `k` has that key.
pub parts_above :
    (k : List ℕ) (p : Part) (ps : List Part)
    → IsChain (p ∷ ps)
    → Below k p.key
    → parts k (p ∷ ps) ≡ []
parts_above k p ps h b = parts_none k (p ∷ ps) (
  (λ e. b.1 (sym e)),
  Every-imp _ (λ r. r.key ≢ k) (λ r l e. (Below-le k p.key r.key b l).1 (sym e)) ps
      (IsChain-le p ps h),
)

-- Behind the end of a record there are no more parts of it.
pub IsChain-ne : (p : Part) (ps : List Part) → IsChain (p ∷ ps) → p.eor ≡ true → parts p.key ps ≡ []
unfolding parts
IsChain-ne p [] h e = refl
IsChain-ne p (q ∷ ps) (inl (_, r), h) e = absurd (cc (e, r))
IsChain-ne p (q ∷ ps) (inr (b, _), h) e = parts_above p.key q ps h b

pub place-Any :
    (P : Cursor → Type 0) (e : Cursor) (xs : List Cursor) → Any P (place e xs) → P e ⊎ Any P xs
unfolding place
place-Any P e [] a = a
place-Any P e (x ∷ xs) a = elim (Bool-cases (cmp x e)) [
  | inl c ↦ (let a' : Any P (e ∷ x ∷ xs) = rw c at a in a')
  | inr c ↦
      let a' : Any P (x ∷ place e xs) = rw c at a in
      elim a' [
        | inl h ↦ inr (inl h)
        | inr h ↦ elim (place-Any P e xs h) [ inl p ↦ inl p | inr q ↦ inr (inr q) ]
      ]
]

module _ (k : List ℕ) (ps : List Part) where
  -- `place` keeps the record of every key.
  pub place-Newest :
      (e : Cursor) (xs : List Cursor) → Newest k (place e xs) ps → Newest k (e ∷ xs) ps
  place-Newest e xs (found, most) = (
    elim found [ inl none' ↦ inl none' | inr a ↦ inr (place-Any _ e xs a) ],
    place-Every _ e xs most,
  )

  -- An element that moved on within another key's parts has the same record of `k`.
  pub Newest-moved :
      (c d : Cursor) (xs : List Cursor)
      → parts k (all_parts d) ≡ parts k (all_parts c)
      → Newest k (d ∷ xs) ps
      → Newest k (c ∷ xs) ps
  Newest-moved c d xs same (found, most) = (
    elim found [
      | inl none' ↦ inl none'
      | inr (inl h) ↦ inr (inl (sym same ∙ h))
      | inr (inr a) ↦ inr (inr a)
    ],
    (subst (λ t. (t ≡ []) ⊎ ((ps ≢ []) × (idx_of t ≤ idx_of ps))) same most.0, most.1),
  )

  -- An element without the key does not count.
  pub Newest-dropped :
      (c : Cursor) (xs : List Cursor)
      → parts k (all_parts c) ≡ []
      → Newest k xs ps
      → Newest k (c ∷ xs) ps
  Newest-dropped c xs e (found, most) =
      (elim found [ inl none' ↦ inl none' | inr a ↦ inr (inr a) ], (inl e, most))

pub Newest-none :
    (k : List ℕ) (xs : List Cursor) → Every (λ c. parts k (all_parts c) ≡ []) xs → Newest k xs []
Newest-none k xs h = (inl refl, Every-imp _ _ (λ c e. inl e) xs h)

-- A key below all of the elements.
-- A key below all of the elements.
none_above :
    (k : List ℕ) (xs : List Cursor)
    → Every (λ c. IsChain (all_parts c)) xs
    → Every (λ c. Below k c.current.key) xs
    → Every (λ c. parts k (all_parts c) ≡ []) xs
none_above k [] h b = tt
none_above k (y ∷ ys) (h, hs) (b, bs) =
    (parts_above k y.current y.following h b, none_above k ys hs bs)

pub Newest-above :
    (k : List ℕ) (xs : List Cursor)
    → Every (λ c. IsChain (all_parts c)) xs
    → Every (λ c. Below k c.current.key) xs
    → Newest k xs []
Newest-above k xs h b = Newest-none k xs (none_above k xs h b)

module _ (c : Cursor) where
  parts-head : parts c.current.key (all_parts c) ≡ c.current ∷ parts c.current.key c.following
  parts-head = parts-cons_eq c.current.key c.current c.following refl

  parts-ne : parts c.current.key (all_parts c) ≢ []
  parts-ne e = cc (parts-head, e)

  -- what the record of the first element's key is to that of another
  abbrev Outdone : Cursor → Type 0
  Outdone y =
      (parts c.current.key (all_parts y) ≡ [])
      ⊎ ((parts c.current.key (all_parts c) ≢ [])
          × (idx_of (parts c.current.key (all_parts y))
              ≤ idx_of (parts c.current.key (all_parts c))))

  Before-Outdone : (y : Cursor) → Before c y → IsChain (all_parts y) → Outdone y
  Before-Outdone y b h = elim (compare_keys-cases c.current.key y.current.key) [
    | inl (_, same) ↦
        let of_y : parts c.current.key (all_parts y) ≡ y.current ∷ parts c.current.key y.following =
          parts-cons_eq c.current.key y.current y.following (sym same) in
        inr (parts-ne, omega (arith, b.idx_le same, ap idx_of of_y, ap idx_of parts-head))
    | inr (inl (_, _, ne)) ↦ inl (parts_above c.current.key y.current y.following h (b.key_le, ne))
    | inr (inr (_, _, _, ne)) ↦
        inl (parts_above c.current.key y.current y.following h (b.key_le, ne))
  ]

  Every-Outdone :
      (ys : List Cursor)
      → Every (Before c) ys
      → Every (λ d. IsChain (all_parts d)) ys
      → Every Outdone ys
  Every-Outdone [] b h = tt
  Every-Outdone (y ∷ ys) (b, bs) (h, hs) = (Before-Outdone y b h, Every-Outdone ys bs hs)

  -- The first of sorted elements has the record of its key.
  pub Newest-head :
      (xs : List Cursor)
      → Sorted (c ∷ xs)
      → Every (λ d. IsChain (all_parts d)) xs
      → Newest c.current.key (c ∷ xs) (parts c.current.key (all_parts c))
  Newest-head xs (before, s) chains =
      ((inr (inl refl)), (inr (parts-ne, omega arith), Every-Outdone xs before chains))
