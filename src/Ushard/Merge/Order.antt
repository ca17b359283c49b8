-- ===== src/Ushard/Merge/Order.antt =====
-- The order of the elements of a ushard iterator, from the back of the vector: ascending keys, and for
-- one key the greatest index first.
use Prim.Native.Nat.{Ordering}
use tyrdbs.Prelude.{
  ◌≤◌, ◌≡◌, refl, sym, ap, ◌∙◌, inl, inr, true, false, List, [], ◌∷◌, Bool-cases, arith, ltb, Every,
}
use tyrdbs.Keys.{compare_keys, le_key, le_key_trans, le_key_refl}
use tyrdbs.Keys.Order.{compare_keys-cases, le_key_antisym, eq-le_key}
use tyrdbs.Ushard.Merge.{Cursor, cmp, place, sort}

-- `x` is read before `y`.
pub record Before (x y : Cursor) : Type 0 where
  pub key_le : le_key x.current.key y.current.key ≡ true
  pub idx_le : x.current.key ≡ y.current.key → y.current.idx ≤ x.current.idx

pub Before-refl : (x : Cursor) → Before x x
Before-refl x = record { key_le = le_key_refl x.current.key; idx_le = λ _. omega arith }

pub Before-trans : (x y z : Cursor) → Before x y → Before y z → Before x z
Before-trans x y z a b = record {
  key_le = le_key_trans _ _ _ a.key_le b.key_le;
  idx_le = λ e.
      let xy : x.current.key ≡ y.current.key =
        le_key_antisym _ _ a.key_le (ap (le_key y.current.key) e ∙ b.key_le) in
      omega (arith, a.idx_le xy, b.idx_le (sym xy ∙ e));
}

module _ (x y : Cursor) where
  cmp-eq :
      compare_keys x.current.key y.current.key ≡ Ordering.eq
      → cmp x y ≡ ltb x.current.idx y.current.idx
  unfolding cmp
  cmp-eq e = rw (cmp, e) refl

  cmp-lt : compare_keys x.current.key y.current.key ≡ Ordering.lt → cmp x y ≡ false
  unfolding cmp
  cmp-lt e = rw (cmp, e) refl

  cmp-gt : compare_keys x.current.key y.current.key ≡ Ordering.gt → cmp x y ≡ true
  unfolding cmp
  cmp-gt e = rw (cmp, e) refl

  -- The comparison decides it.
  pub cmp-Before : (cmp x y ≡ true → Before y x) × (cmp x y ≡ false → Before x y)
  cmp-Before = elim (compare_keys-cases x.current.key y.current.key) [
    | inl (e, same) ↦ (
      (λ h.
          let h' : ltb x.current.idx y.current.idx ≡ true = sym (cmp-eq e) ∙ h in
          record {
            key_le = ap (le_key y.current.key) same ∙ le_key_refl _;
            idx_le = λ _. ground arith;
          }),
      λ h.
          let h' : ltb x.current.idx y.current.idx ≡ false = sym (cmp-eq e) ∙ h in
          record { key_le = eq-le_key _ _ e; idx_le = λ _. ground arith },
    )
    | inr (inl (e, le, ne)) ↦ (
      (λ h. (let h' : false ≡ true = sym (cmp-lt e) ∙ h in absurd (cc h'))),
      λ h. record { key_le = le; idx_le = λ s. absurd (ne s) },
    )
    | inr (inr (e, _, ge, ne)) ↦ (
      (λ h. record { key_le = ge; idx_le = λ s. absurd (ne (sym s)) }),
      λ h. (let h' : true ≡ false = sym (cmp-gt e) ∙ h in absurd (cc h')),
    )
  ]

abbrev pub Sorted : List Cursor → Type 0
Sorted [] = Unit
Sorted (x ∷ xs) = Every (Before x) xs × Sorted xs

-- What holds of every element holds of every element after `place`, and the other way round.
pub Every-place {κ} :
    (P : Cursor → Type κ) (e : Cursor) (xs : List Cursor) → P e → Every P xs → Every P (place e xs)
unfolding place
Every-place P e [] h hs = (h, hs)
Every-place P e (x ∷ xs) h (hx, hs) = elim (Bool-cases (cmp x e)) [
  | inl c ↦ rw c (h, (hx, hs))
  | inr c ↦ rw c (hx, Every-place P e xs h hs)
]

pub place-Every {κ} :
    (P : Cursor → Type κ) (e : Cursor) (xs : List Cursor) → Every P (place e xs) → P e × Every P xs
unfolding place
place-Every P e [] h = h
place-Every P e (x ∷ xs) h = elim (Bool-cases (cmp x e)) [
  | inl c ↦ (let h' : Every P (e ∷ x ∷ xs) = rw c at h in h')
  | inr c ↦
      let (hx, hs) : Every P (x ∷ place e xs) = rw c at h in
      let (he, hxs) = place-Every P e xs hs in (he, (hx, hxs))
]

Every-Before :
    (e x : Cursor) (xs : List Cursor) → Before e x → Every (Before x) xs → Every (Before e) xs
Every-Before e x [] b h = tt
Every-Before e x (y ∷ ys) b (hy, hs) = (Before-trans e x y b hy, Every-Before e x ys b hs)

pub place-Sorted : (e : Cursor) (xs : List Cursor) → Sorted xs → Sorted (place e xs)
unfolding place
place-Sorted e [] s = (tt, tt)
place-Sorted e (x ∷ xs) (sx, s) = elim (Bool-cases (cmp x e)) [
  | inl c ↦
      rw c (let b : Before e x = (cmp-Before x e).0 c in ((b, Every-Before e x xs b sx), (sx, s)))
  | inr c ↦ rw c (Every-place (Before x) e xs ((cmp-Before x e).1 c) sx, place-Sorted e xs s)
]

pub sort-Sorted : (es : List Cursor) → Sorted (sort es)
unfolding sort
sort-Sorted [] = tt
sort-Sorted (e ∷ es) = place-Sorted e (sort es) (sort-Sorted es)
