-- ===== src/Keys.antt =====
-- The comparison of keys, `std::string_view::compare`: byte by byte, a proper prefix first.
pub mod Order
use tyrdbs.Prelude.{
  ℕ, ◌<◌, ◌≡◌, ◌≢◌, refl, sym, ap, ◌∙◌, ◌⊎◌, inl, inr, ◌↔◌, Bool, true, false, List, [], ◌∷◌, arith,
  ltb, if◌then◌else◌, Bool-cases,
}
use Prim.Native.Nat.{Ordering}

-- The sign of `key.compare(other)`.
unfoldable pub compare_keys : List ℕ → List ℕ → Ordering
compare_keys [] [] = Ordering.eq
compare_keys [] (b ∷ bs) = Ordering.lt
compare_keys (a ∷ as') [] = Ordering.gt
compare_keys (a ∷ as') (b ∷ bs) =
    let rest = compare_keys as' bs in
    if ltb a b then Ordering.lt else (if ltb b a then Ordering.gt else rest)

-- `key.compare(other) <= 0`
unfoldable pub le_key : List ℕ → List ℕ → Bool
le_key a b = elim (compare_keys a b) [ Ordering.gt ↦ false | _ ↦ true ]

-- the first bytes that differ decide
compare_keys-cons :
    (x y : ℕ) (a b : List ℕ)
    → ((x < y) × (compare_keys (x ∷ a) (y ∷ b) ≡ Ordering.lt))
      ⊎ (((x ≡ y) × (compare_keys (x ∷ a) (y ∷ b) ≡ compare_keys a b))
          ⊎ ((y < x) × (compare_keys (x ∷ a) (y ∷ b) ≡ Ordering.gt)))
unfolding compare_keys
compare_keys-cons x y a b = elim (Bool-cases (ltb x y)) [
  | inl l ↦ inl (ground arith, rw l refl)
  | inr l ↦ elim (Bool-cases (ltb y x)) [
    | inl g ↦ inr (inr (ground arith, rw (l, g) refl))
    | inr g ↦ inr (inl (ground arith, rw (l, g) refl))
  ]
]

pub le_key-nil : (b : List ℕ) → le_key [] b ≡ true
unfolding le_key compare_keys
le_key-nil [] = refl
le_key-nil (b ∷ bs) = refl

pub cons-le_key : (a : ℕ) (as' : List ℕ) → le_key (a ∷ as') [] ≢ true
unfolding le_key compare_keys
cons-le_key a as' h = cc h

pub le_key-cons :
    (x y : ℕ) (a b : List ℕ)
    → (le_key (x ∷ a) (y ∷ b) ≡ true) ↔ ((x < y) ⊎ ((x ≡ y) × (le_key a b ≡ true)))
unfolding le_key
le_key-cons x y a b = elim (compare_keys-cons x y a b) [
  | inl (l, e) ↦ ((λ h. inl l), (λ h. rw (le_key, e) refl))
  | inr (inl (same, e)) ↦ (
    (λ h. inr (same, (let h' : le_key a b ≡ true = rw (le_key, e) at h in h'))),
    elim [ inl l ↦ absurd (omega (arith, same, l)) | inr (_, h) ↦ rw (le_key, e) h ],
  )
  | inr (inr (g, e)) ↦ (
    (λ h. (let h' : false ≡ true = rw (le_key, e) at h in cc)),
    elim [ inl l ↦ absurd (omega (arith, g, l)) | inr (same, _) ↦ absurd (omega (arith, g, same)) ],
  )
]

pub le_key_trans : (a b c : List ℕ) → le_key a b ≡ true → le_key b c ≡ true → le_key a c ≡ true
le_key_trans [] b [] p q = le_key-nil []
le_key_trans [] b (z ∷ c) p q = le_key-nil (z ∷ c)
le_key_trans (x ∷ a) [] c p q = absurd (cons-le_key x a p)
le_key_trans (x ∷ a) (y ∷ b) [] p q = absurd (cons-le_key y b q)
le_key_trans (x ∷ a) (y ∷ b) (z ∷ c) p q =
    (le_key-cons x z a c).1
      (elim ((le_key-cons x y a b).0 p) as (λ _. (x < z) ⊎ ((x ≡ z) × (le_key a c ≡ true))) [
        | inl l ↦ elim ((le_key-cons y z b c).0 q) [
          | inl m ↦ inl (omega arith)
          | inr (m, _) ↦ inl (omega arith)
        ]
        | inr (l, ab) ↦ elim ((le_key-cons y z b c).0 q) [
          | inl m ↦ inl (omega arith)
          | inr (m, bc) ↦ inr (omega arith, le_key_trans a b c ab bc)
        ]
      ])

pub le_key_refl : (a : List ℕ) → le_key a a ≡ true
le_key_refl [] = le_key-nil []
le_key_refl (x ∷ a) = (le_key-cons x x a a).1 (inr (refl, le_key_refl a))

compare_keys-nil : compare_keys [] [] ≡ Ordering.eq
unfolding compare_keys
compare_keys-nil = refl

not_above_nil : (y : ℕ) (b : List ℕ) → compare_keys [] (y ∷ b) ≢ Ordering.gt
unfolding compare_keys
not_above_nil y b h = cc h

-- Keys that compare equal are equal.
pub compare_keys-eq : (a b : List ℕ) → compare_keys a b ≡ Ordering.eq → a ≡ b
unfolding compare_keys
compare_keys-eq [] [] h = refl
compare_keys-eq [] (y ∷ b) h = absurd (cc h)
compare_keys-eq (x ∷ a) [] h = absurd (cc h)
compare_keys-eq (x ∷ a) (y ∷ b) h = elim (compare_keys-cons x y a b) [
  | inl (_, e) ↦ absurd (cc (h, e))
  | inr (inl (same, e)) ↦ ap (λ t. t ∷ a) same ∙ ap (λ t. y ∷ t) (compare_keys-eq a b (sym e ∙ h))
  | inr (inr (_, e)) ↦ absurd (cc (h, e))
]

pub compare_keys_refl : (a : List ℕ) → compare_keys a a ≡ Ordering.eq
compare_keys_refl [] = compare_keys-nil
compare_keys_refl (x ∷ a) = elim (compare_keys-cons x x a a) [
  | inl (l, _) ↦ absurd (omega arith)
  | inr (inl (_, e)) ↦ e ∙ compare_keys_refl a
  | inr (inr (g, _)) ↦ absurd (omega arith)
]

-- The keys of the other order: where the first is above, the second is at most the first.
pub above-le_key : (a b : List ℕ) → compare_keys a b ≡ Ordering.gt → le_key b a ≡ true
above-le_key [] [] h = le_key-nil []
above-le_key [] (y ∷ b) h = absurd (not_above_nil y b h)
above-le_key (x ∷ a) [] h = le_key-nil (x ∷ a)
above-le_key (x ∷ a) (y ∷ b) h = elim (compare_keys-cons x y a b) [
  | inl (_, e) ↦ absurd (cc (h, e))
  | inr (inl (same, e)) ↦ (le_key-cons y x b a).1 (inr (sym same, above-le_key a b (sym e ∙ h)))
  | inr (inr (g, e)) ↦ (le_key-cons y x b a).1 (inl g)
]
