-- ===== src/Prelude/Cuts.antt =====
-- Cuts of a list at an index, and what a write does to them.
use tyrdbs.Prelude.{
  ℕ, zero, suc, ◌+◌, ◌-◌, ◌≤◌, ◌<◌, ◌≡◌, refl, ap, ◌∙◌, some, List, [], ◌∷◌, ◌++◌, arith, length,
  get_elem?, set, take, drop,
}

module _ {ℓ} {A : Type ℓ} where
  pub take-all : (n : ℕ) (xs : List A) → length xs ≤ n → take n xs ≡ xs
  take-all zero [] h = refl
  take-all zero (x ∷ xs) h = absurd (omega arith)
  take-all (suc n) [] h = refl
  take-all (suc n) (x ∷ xs) h = ap (λ t. x ∷ t) (take-all n xs (omega arith))

  pub drop-all : (n : ℕ) (xs : List A) → length xs ≤ n → drop n xs ≡ []
  drop-all zero [] h = refl
  drop-all zero (x ∷ xs) h = absurd (omega arith)
  drop-all (suc n) [] h = refl
  drop-all (suc n) (x ∷ xs) h = drop-all n xs (omega arith)

  -- a write just past a beginning extends it
  pub take-set :
      (n : ℕ) (x : A) (xs : List A)
      → n < length xs
      → take (suc n) (set xs n x) ≡ take n xs ++ (x ∷ [])
  take-set zero x [] h = absurd (omega arith)
  take-set zero x (y ∷ ys) h = refl
  take-set (suc n) x [] h = absurd (omega arith)
  take-set (suc n) x (y ∷ ys) h = ap (λ t. y ∷ t) (take-set n x ys (omega arith))

  pub take-set_above : (n i : ℕ) (x : A) (xs : List A) → n ≤ i → take n (set xs i x) ≡ take n xs
  take-set_above zero i x xs h = refl
  take-set_above (suc n) i x [] h = refl
  take-set_above (suc n) zero x (y ∷ ys) h = absurd (omega arith)
  take-set_above (suc n) (suc i) x (y ∷ ys) h =
      ap (λ t. y ∷ t) (take-set_above n i x ys (omega arith))

  pub drop-set_below : (n i : ℕ) (x : A) (xs : List A) → i < n → drop n (set xs i x) ≡ drop n xs
  drop-set_below zero i x xs h = absurd (omega arith)
  drop-set_below (suc n) i x [] h = refl
  drop-set_below (suc n) zero x (y ∷ ys) h = refl
  drop-set_below (suc n) (suc i) x (y ∷ ys) h = drop-set_below n i x ys (omega arith)

  pub drop-set_above :
      (n i : ℕ) (x : A) (xs : List A) → n ≤ i → drop n (set xs i x) ≡ set (drop n xs) (i - n) x
  drop-set_above zero i x xs h = ap (λ t. set xs t x) (omega arith)
  drop-set_above (suc n) i x [] h = refl
  drop-set_above (suc n) zero x (y ∷ ys) h = absurd (omega arith)
  drop-set_above (suc n) (suc i) x (y ∷ ys) h =
      drop-set_above n i x ys (omega arith) ∙ ap (λ t. set (drop n ys) t x) (omega arith)

  pub drop-cons :
      (n : ℕ) (xs : List A)
      → n < length xs
      → (x : A) × (get_elem? xs n ≡ some x) × (drop n xs ≡ x ∷ drop (suc n) xs)
  drop-cons zero [] h = absurd (omega arith)
  drop-cons zero (y ∷ ys) h = (y, refl, refl)
  drop-cons (suc n) [] h = absurd (omega arith)
  drop-cons (suc n) (y ∷ ys) h = drop-cons n ys (omega arith)

  pub take-append_left : (n : ℕ) (xs ys : List A) → n ≤ length xs → take n (xs ++ ys) ≡ take n xs
  take-append_left zero xs ys h = refl
  take-append_left (suc n) [] ys h = absurd (omega arith)
  take-append_left (suc n) (x ∷ xs) ys h = ap (λ t. x ∷ t) (take-append_left n xs ys (omega arith))

  pub drop-append_exact : (n : ℕ) (xs ys : List A) → n ≡ length xs → drop n (xs ++ ys) ≡ ys
  drop-append_exact zero [] ys h = refl
  drop-append_exact zero (x ∷ xs) ys h = absurd (omega arith)
  drop-append_exact (suc n) [] ys h = absurd (omega arith)
  drop-append_exact (suc n) (x ∷ xs) ys h = drop-append_exact n xs ys (omega arith)

  pub take-take_le : (n m : ℕ) (xs : List A) → n ≤ m → take n (take m xs) ≡ take n xs
  take-take_le zero m xs h = refl
  take-take_le (suc n) zero xs h = absurd (omega arith)
  take-take_le (suc n) (suc m) [] h = refl
  take-take_le (suc n) (suc m) (x ∷ xs) h = ap (λ t. x ∷ t) (take-take_le n m xs (omega arith))

module _ {ℓ} {A : Type ℓ} where
  pub take-append_exact :
      (n m : ℕ) (xs ys : List A) → n ≡ length xs → take (n + m) (xs ++ ys) ≡ xs ++ take m ys
  take-append_exact zero m [] ys h = ap (λ k. take k ys) (omega arith)
  take-append_exact zero m (x ∷ xs) ys h = absurd (omega arith)
  take-append_exact (suc n) m [] ys h = absurd (omega arith)
  take-append_exact (suc n) m (x ∷ xs) ys h =
      ap (λ k. take k (x ∷ xs ++ ys)) {x = suc n + m} {y = suc (n + m)} (omega arith)
      ∙ ap (λ t. x ∷ t) (take-append_exact n m xs ys (omega arith))

  pub take-append_whole : (n : ℕ) (xs ys : List A) → n ≡ length xs → take n (xs ++ ys) ≡ xs
  take-append_whole n xs ys h = take-append_left n xs ys (omega arith) ∙ take-all n xs (omega arith)

  pub drop-append_more :
      (n m : ℕ) (xs ys : List A) → n ≡ length xs → drop (n + m) (xs ++ ys) ≡ drop m ys
  drop-append_more zero m [] ys h = ap (λ k. drop k ys) (omega arith)
  drop-append_more zero m (x ∷ xs) ys h = absurd (omega arith)
  drop-append_more (suc n) m [] ys h = absurd (omega arith)
  drop-append_more (suc n) m (x ∷ xs) ys h =
      ap (λ k. drop k (x ∷ xs ++ ys)) {x = suc n + m} {y = suc (n + m)} (omega arith)
      ∙ drop-append_more n m xs ys (omega arith)
