-- ===== src/Keys/Order.antt =====
-- The order of keys is total and antisymmetric.
use Prim.Native.Nat.{Ordering}
use tyrdbs.Prelude.{ℕ, ◌≡◌, ◌≢◌, refl, ap, ◌∙◌, ◌⊎◌, inl, inr, true, false, List, [], ◌∷◌, arith}
use tyrdbs.Keys.{
  compare_keys, le_key, le_key-cons, above-le_key, compare_keys-eq, compare_keys_refl, cons-le_key,
}

pub le_key_antisym : (a b : List ℕ) → le_key a b ≡ true → le_key b a ≡ true → a ≡ b
le_key_antisym [] [] p q = refl
le_key_antisym [] (y ∷ b) p q = absurd (cons-le_key y b q)
le_key_antisym (x ∷ a) [] p q = absurd (cons-le_key x a p)
le_key_antisym (x ∷ a) (y ∷ b) p q = elim ((le_key-cons x y a b).0 p) [
  | inl l ↦ elim ((le_key-cons y x b a).0 q) [
    | inl m ↦ absurd (omega arith)
    | inr (m, _) ↦ absurd (omega arith)
  ]
  | inr (same, ab) ↦ elim ((le_key-cons y x b a).0 q) [
    | inl m ↦ absurd (omega (arith, same, m))
    | inr (m, ba) ↦ ap (λ t. t ∷ a) same ∙ ap (λ t. y ∷ t) (le_key_antisym a b ab ba)
  ]
]

-- What the three results of the comparison say.
pub eq-le_key : (a b : List ℕ) → compare_keys a b ≡ Ordering.eq → le_key a b ≡ true
unfolding le_key
eq-le_key a b e = rw (le_key, e) refl

pub lt-le_key : (a b : List ℕ) → compare_keys a b ≡ Ordering.lt → le_key a b ≡ true
unfolding le_key
lt-le_key a b e = rw (le_key, e) refl

pub gt-le_key : (a b : List ℕ) → compare_keys a b ≡ Ordering.gt → le_key a b ≡ false
unfolding le_key
gt-le_key a b e = rw (le_key, e) refl

lt-ne : (a b : List ℕ) → compare_keys a b ≡ Ordering.lt → a ≢ b
lt-ne a b e same = cc (e, ap (compare_keys a) same, compare_keys_refl a)

gt-ne : (a b : List ℕ) → compare_keys a b ≡ Ordering.gt → a ≢ b
gt-ne a b e same = cc (e, ap (compare_keys a) same, compare_keys_refl a)

-- Where `a` stands to `b`: the key itself, below, or above.
abbrev pub Compared : List ℕ → List ℕ → Type 0
Compared a b =
    ((compare_keys a b ≡ Ordering.eq) × (a ≡ b))
    ⊎ (((compare_keys a b ≡ Ordering.lt) × (le_key a b ≡ true) × (a ≢ b))
        ⊎ ((compare_keys a b ≡ Ordering.gt) × (le_key a b ≡ false) × (le_key b a ≡ true) × (a ≢ b)))

Compared-as : (a b : List ℕ) (o : Ordering) → compare_keys a b ≡ o → Compared a b
Compared-as a b Ordering.eq e = inl (e, compare_keys-eq a b e)
Compared-as a b Ordering.lt e = inr (inl (e, lt-le_key a b e, lt-ne a b e))
Compared-as a b Ordering.gt e = inr (inr (e, gt-le_key a b e, above-le_key a b e, gt-ne a b e))

pub compare_keys-cases : (a b : List ℕ) → Compared a b
compare_keys-cases a b = Compared-as a b (compare_keys a b) refl
