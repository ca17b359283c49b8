-- ===== src/Gorilla/Nibbles.antt =====
-- What the counts of leading and trailing zeros say of a word: where its nibbles stand.
use native.Mathlib.Nat.{mul_assoc, mul-div_cancel, div-lt_iff_lt-mul}
use tyrdbs.Prelude.{
  ℕ, zero, suc, ◌+◌, ◌-◌, ◌*◌, ◌/◌, ◌%◌, ◌^◌, ◌≤◌, ◌<◌, ◌≡◌, sym, ap, ◌∙◌, inl, inr, arith, ◌==◌,
  ==_iff, Bool-cases, dec_lt,
}
use tyrdbs.Prelude.Bits.{pow2_pos, pow2_suc}
use tyrdbs.BitStream.Digits.{pow2_add}
use tyrdbs.BitStream.Write.{pow2_mono}
use tyrdbs.Gorilla.{ctz_from, bit_length_from, ctz, clz}

-- The bit length bounds the number, from above.
lt-bit_length : (n x : ℕ) → x < 2 ^ n → x < 2 ^ bit_length_from n x
unfolding bit_length_from
lt-bit_length zero x h = h
lt-bit_length (suc n) x h = elim (Bool-cases (x == 0)) [
  | inl e ↦ let z : x ≡ 0 = (==_iff x 0).0 e in rw (e, z) (omega arith)
  | inr e ↦
      let k : ℕ = bit_length_from n (x / 2) in
      let ih = lt-bit_length n (x / 2) (omega (arith, pow2_suc n)) in
      rw e (omega (arith, ih, pow2_suc k))
]

bit_length-le : (n x : ℕ) → bit_length_from n x ≤ n
unfolding bit_length_from
bit_length-le zero x = omega arith
bit_length-le (suc n) x = ground (arith, bit_length-le n (x / 2))

-- A number that is not zero is an odd number, hence a positive one, times a power of two.
ctz_factor : (n x : ℕ) → x < 2 ^ n → 0 < x → (y : ℕ) × (0 < y) × (x ≡ y * 2 ^ ctz_from n x)
unfolding ctz_from
ctz_factor zero x h p = absurd (omega arith)
ctz_factor (suc n) x h p = elim (Bool-cases (x % 2 == 1)) [
  | inl e ↦ (x, p, rw e (omega arith))
  | inr e ↦
      let even : x % 2 ≡ 0 = ground arith in
      let (y, hy, ey) = ctz_factor n (x / 2) (omega (arith, pow2_suc n)) (omega arith) in
      let k : ℕ = ctz_from n (x / 2) in
      (y, hy, rw e (omega (arith, ey, ap (λ t. y * t) (pow2_suc k))))
]

-- The nibbles between `lc` leading and `lt` trailing zero nibbles: they fit their size, and
-- shifted back they are the word.
pub record IsWindow (lc lt x : ℕ) : Type 0 where
  pub room : lc + lt ≤ 15
  pub size_in : x / 2 ^ (lt * 4) < 2 ^ ((16 - (lc + lt)) * 4)
  pub back : x / 2 ^ (lt * 4) * 2 ^ (lt * 4) ≡ x

le_mul : (y m : ℕ) → 0 < y → m ≤ y * m
le_mul zero m h = elim h [ ]
le_mul (suc y) m h = omega arith

pow2_lt : (a b : ℕ) → 2 ^ a < 2 ^ b → a < b
pow2_lt a b h = elim (dec_lt a b) [
  | yes p ↦ p
  | no p ↦ absurd (omega (arith, h, pow2_mono b a (omega arith)))
]

-- Any window at least as wide as that of the counts will do.
pub window : (x lc lt : ℕ) → x < 2 ^ 64 → 0 < x → lc ≤ clz x / 4 → lt ≤ ctz x / 4 → IsWindow lc lt x
unfolding clz ctz
window x lc lt h p hc ht =
    let b : ℕ = bit_length_from 64 x in
    let k : ℕ = ctz_from 64 x in
    let (y, hy, ey) = ctz_factor 64 x h p in
    let above : x < 2 ^ b = lt-bit_length 64 x h in
    let below : 2 ^ k ≤ x = omega (arith, ey, le_mul y (2 ^ k) hy) in
    let less : k < b = pow2_lt k b (omega (arith, above, below)) in
    let top : b ≤ 64 = bit_length-le 64 x in
    let room : lc + lt ≤ 15 = omega arith in
    let split : 2 ^ k ≡ 2 ^ (k - lt * 4) * 2 ^ (lt * 4) =
      ap (λ t. 2 ^ t) (let e : k ≡ k - lt * 4 + lt * 4 = omega arith in e)
      ∙ pow2_add (k - lt * 4) (lt * 4) in
    let z : ℕ = y * 2 ^ (k - lt * 4) in
    let ez : x ≡ z * 2 ^ (lt * 4) =
      ey ∙ ap (λ t. y * t) split ∙ sym (mul_assoc y (2 ^ (k - lt * 4)) (2 ^ (lt * 4))) in
    let q : x / 2 ^ (lt * 4) ≡ z =
      ap (λ t. t / 2 ^ (lt * 4)) ez ∙ mul-div_cancel z (pow2_pos (lt * 4)) in
    let whole : 2 ^ (64 - lc * 4) ≡ 2 ^ ((16 - (lc + lt)) * 4) * 2 ^ (lt * 4) =
      ap (λ t. 2 ^ t) (let e : 64 - lc * 4 ≡ (16 - (lc + lt)) * 4 + lt * 4 = omega arith in e)
      ∙ pow2_add ((16 - (lc + lt)) * 4) (lt * 4) in
    let bound : x < 2 ^ ((16 - (lc + lt)) * 4) * 2 ^ (lt * 4) =
      omega (arith, above, whole, pow2_mono b (64 - lc * 4) (omega arith)) in
    record {
      room = room;
      size_in = (div-lt_iff_lt-mul (pow2_pos (lt * 4))).1 bound;
      back = ap (λ t. t * 2 ^ (lt * 4)) q ∙ sym ez;
    }
