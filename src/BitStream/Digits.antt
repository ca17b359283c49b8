-- ===== src/BitStream/Digits.antt =====
-- The binary digits of a number, most significant first: what a stream of bits means.
use native.Mathlib.Nat.{
  div-div-eq-div-mul, mod-eq_of_lt, div-add-mod', mul-add-div_right, div-eq_of_lt,
}
use tyrdbs.Prelude.{
  ℕ, zero, suc, ◌+◌, ◌*◌, ◌/◌, ◌%◌, ◌^◌, ◌<◌, ◌≡◌, refl, sym, ap, ◌∙◌, List, [], ◌∷◌, ◌++◌,
  append-nil, append_assoc, arith, length, length-append,
}
use tyrdbs.Prelude.Bits.{pow2_pos, pow2_suc, mod_double}

unfoldable pub to_bits : ℕ → ℕ → List ℕ
to_bits zero v = []
to_bits (suc b) v = to_bits b (v / 2) ++ (v % 2 ∷ [])

unfoldable pub from_bits : ℕ → List ℕ → ℕ
from_bits acc [] = acc
from_bits acc (d ∷ ds) = from_bits (acc * 2 + d) ds

-- the bits of a sequence of 64-bit words
unfoldable pub words_bits : List ℕ → List ℕ
words_bits [] = []
words_bits (w ∷ ws) = to_bits 64 w ++ words_bits ws

pub pow2_add : (a b : ℕ) → 2 ^ (a + b) ≡ 2 ^ a * 2 ^ b
pow2_add a zero = let e : a + 0 ≡ a = omega arith in rw e (omega arith)
pow2_add a (suc b) =
    let e : a + suc b ≡ suc (a + b) = omega arith in
    rw e
      (pow2_suc (a + b) ∙ omega (arith, pow2_add a b, pow2_suc b, ap (λ t. 2 ^ a * t) (pow2_suc b)))

pub length-to_bits : (b v : ℕ) → length (to_bits b v) ≡ b
unfolding to_bits
length-to_bits zero v = refl
length-to_bits (suc b) v =
    omega (arith, length-append (to_bits b (v / 2)) (v % 2 ∷ []), length-to_bits b (v / 2))

pub to_bits_split : (a b v : ℕ) → to_bits (a + b) v ≡ to_bits a (v / 2 ^ b) ++ to_bits b v
unfolding to_bits
to_bits_split a zero v =
    let e : a + 0 ≡ a = omega arith in let e' : v / 1 ≡ v = omega arith in rw (e, e', append-nil)
to_bits_split a (suc b) v =
    let e : a + suc b ≡ suc (a + b) = omega arith in
    let q : v / 2 / 2 ^ b ≡ v / 2 ^ suc b =
      div-div-eq-div-mul v 2 (2 ^ b) ∙ ap (λ t. v / t) (sym (pow2_suc b)) in
    rw (e, to_bits_split a b (v / 2), q, append_assoc)

pub to_bits_parts : (p q n v : ℕ) → n ≡ p + q → to_bits n v ≡ to_bits p (v / 2 ^ q) ++ to_bits q v
to_bits_parts p q n v e = ap (λ t. to_bits t v) e ∙ to_bits_split p q v

-- Only the low `b` bits count.
pub to_bits_low : (b x r : ℕ) → to_bits b (x * 2 ^ b + r) ≡ to_bits b r
unfolding to_bits
to_bits_low zero x r = refl
to_bits_low (suc b) x r =
    let m : ℕ = 2 ^ b in
    let e : 2 ^ suc b ≡ 2 * m = pow2_suc b in
    let half : (x * (2 * m) + r) / 2 ≡ x * m + r / 2 = omega arith in
    let low : (x * (2 * m) + r) % 2 ≡ r % 2 = omega arith in
    rw (e, half, low, to_bits_low b x (r / 2))

pub to_bits_mod : (b v : ℕ) → to_bits b v ≡ to_bits b (v % 2 ^ b)
to_bits_mod b v =
    let e : v ≡ v / 2 ^ b * 2 ^ b + v % 2 ^ b = sym (div-add-mod' v (2 ^ b)) in
    ap (to_bits b) e ∙ to_bits_low b (v / 2 ^ b) (v % 2 ^ b)

pub to_bits_join :
    (a b top x : ℕ) → x < 2 ^ b → to_bits (a + b) (top * 2 ^ b + x) ≡ to_bits a top ++ to_bits b x
to_bits_join a b top x h =
    let q : (top * 2 ^ b + x) / 2 ^ b ≡ top =
      mul-add-div_right (pow2_pos b) top x ∙ omega (arith, div-eq_of_lt h) in
    to_bits_split a b (top * 2 ^ b + x) ∙ rw (q, to_bits_low b top x)

from_bits-snoc :
    (acc : ℕ) (ds : List ℕ) (d : ℕ) → from_bits acc (ds ++ (d ∷ [])) ≡ from_bits acc ds * 2 + d
unfolding from_bits
from_bits-snoc acc [] d = refl
from_bits-snoc acc (x ∷ ds) d = from_bits-snoc (acc * 2 + x) ds d

pub from_bits-to_bits : (b v : ℕ) → from_bits 0 (to_bits b v) ≡ v % 2 ^ b
unfolding to_bits from_bits
from_bits-to_bits zero v = omega arith
from_bits-to_bits (suc b) v = omega (
  arith,
  from_bits-snoc 0 (to_bits b (v / 2)) (v % 2),
  from_bits-to_bits b (v / 2),
  mod_double v (2 ^ b) (pow2_pos b),
  ap (λ t. v % t) (pow2_suc b),
)

-- Lists that begin with equally many bits and are equal have equal beginnings and equal rests.
pub append_cancel :
    (xs ys us vs : List ℕ) → length xs ≡ length ys → xs ++ us ≡ ys ++ vs → (xs ≡ ys) × (us ≡ vs)
append_cancel [] [] us vs h e = (refl, e)
append_cancel [] (y ∷ ys) us vs h e = absurd (omega arith)
append_cancel (x ∷ xs) [] us vs h e = absurd (omega arith)
append_cancel (x ∷ xs) (y ∷ ys) us vs h e =
    let (p, q) = append_cancel xs ys us vs (omega arith) (cc) in (cc, q)

pub to_bits_cancel :
    (b v w : ℕ) (us vs : List ℕ)
    → v < 2 ^ b
    → w < 2 ^ b
    → to_bits b v ++ us ≡ to_bits b w ++ vs
    → (v ≡ w) × (us ≡ vs)
to_bits_cancel b v w us vs hv hw e =
    let (p, q) =
      append_cancel (to_bits b v) (to_bits b w) us vs
        (length-to_bits b v ∙ sym (length-to_bits b w)) e in
    (
      sym (mod-eq_of_lt hv)
          ∙ sym (from_bits-to_bits b v)
          ∙ ap (from_bits 0) p
          ∙ from_bits-to_bits b w
          ∙ mod-eq_of_lt hw,
      q,
    )

pub words_bits-append : (xs ys : List ℕ) → words_bits (xs ++ ys) ≡ words_bits xs ++ words_bits ys
unfolding words_bits
words_bits-append [] ys = refl
words_bits-append (x ∷ xs) ys = rw (words_bits-append xs ys, append_assoc)

words_bits-one : (w : ℕ) → words_bits (w ∷ []) ≡ to_bits 64 w
unfolding words_bits
words_bits-one w = append-nil (to_bits 64 w)

pub words_bits-snoc :
    (xs : List ℕ) (w : ℕ) → words_bits (xs ++ (w ∷ [])) ≡ words_bits xs ++ to_bits 64 w
words_bits-snoc xs w =
    words_bits-append xs (w ∷ []) ∙ ap (λ t. words_bits xs ++ t) (words_bits-one w)

pub to_bits-zero : (v : ℕ) → to_bits 0 v ≡ []
unfolding to_bits
to_bits-zero v = refl

pub words_bits-cons : (w : ℕ) (ws : List ℕ) → words_bits (w ∷ ws) ≡ to_bits 64 w ++ words_bits ws
unfolding words_bits
words_bits-cons w ws = refl

pub words_bits-nil : words_bits [] ≡ []
unfolding words_bits
words_bits-nil = refl
