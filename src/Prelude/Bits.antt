-- ===== src/Prelude/Bits.antt =====
-- Laws of the bitwise operations at variables: masks, disjoint fields and exclusive or.
use Prim.Native.Nat.{
  ℕ, zero, suc, ◌+◌, ◌-◌, ◌*◌, ◌/◌, ◌%◌, ◌^◌, ◌≤◌, ◌<◌, min, max, digits, bitwise, differ, bit_and,
  bit_or, bit_xor, bit_and-bitwise, bit_or-bitwise, bit_xor-bitwise,
}
use mathlib.Core.Path.{◌≡◌, refl, sym, ap, ◌∙◌}
use native.Mathlib.Nat.{le_refl, pow-succ', one-le-pow, mod-eq_of_lt, mul-add-mod_self_left}
use native.Mathlib.Nat.{mul_assoc, mod-lt, div-add-mod, div-div-eq-div-mul}
use native.Mathlib.Omega.{arith}

-- The operations recur on their digits with fuel. Any fuel that covers the first number will do.
module _ (last : ℕ → ℕ) (digit : ℕ → ℕ → ℕ) where
  digits-zero : (fuel y : ℕ) → digits last digit fuel 0 y ≡ last y
  digits-zero zero y = refl
  digits-zero (suc fuel) y = refl

  any_fuel : (x y i j : ℕ) → x ≤ i → x ≤ j → digits last digit i x y ≡ digits last digit j x y
  any_fuel zero y i j hi hj = digits-zero i y ∙ sym (digits-zero j y)
  any_fuel (suc x) y zero j hi hj = absurd (omega arith)
  any_fuel (suc x) y (suc i) zero hi hj = absurd (omega arith)
  any_fuel (suc x) y (suc i) (suc j) hi hj =
      ap (λ t. t * 2 + digit (suc x % 2) (y % 2))
        (any_fuel (suc x / 2) (y / 2) i j (omega arith) (omega arith))

  -- Hence one step of the recursion, for a number that is not zero.
  lowest :
      (x y : ℕ)
      → bitwise last digit (suc x) y
        ≡ bitwise last digit (suc x / 2) (y / 2) * 2 + digit (suc x % 2) (y % 2)
  lowest x y =
      ap (λ t. t * 2 + digit (suc x % 2) (y % 2))
        (any_fuel (suc x / 2) (y / 2) x (suc x / 2) (omega arith) (omega arith))

pub bit_and_step : (x y : ℕ) → bit_and x y ≡ bit_and (x / 2) (y / 2) * 2 + min (x % 2) (y % 2)
bit_and_step zero y = rw (bit_and-bitwise 0 y, bit_and-bitwise (0 / 2) (y / 2)) (omega arith)
bit_and_step (suc x) y =
    rw (bit_and-bitwise (suc x) y, bit_and-bitwise (suc x / 2) (y / 2)) (lowest (λ _. zero) min x y)

pub bit_or_step : (x y : ℕ) → bit_or x y ≡ bit_or (x / 2) (y / 2) * 2 + max (x % 2) (y % 2)
bit_or_step zero y = rw (bit_or-bitwise 0 y, bit_or-bitwise (0 / 2) (y / 2)) (omega arith)
bit_or_step (suc x) y =
    rw (bit_or-bitwise (suc x) y, bit_or-bitwise (suc x / 2) (y / 2)) (lowest (λ t. t) max x y)

zero_differs : (y : ℕ) → y ≡ y / 2 * 2 + differ 0 (y % 2)
zero_differs y = omega arith

pub bit_xor_step : (x y : ℕ) → bit_xor x y ≡ bit_xor (x / 2) (y / 2) * 2 + differ (x % 2) (y % 2)
bit_xor_step zero y = rw (bit_xor-bitwise 0 y, bit_xor-bitwise (0 / 2) (y / 2)) (zero_differs y)
bit_xor_step (suc x) y =
    rw (bit_xor-bitwise (suc x) y, bit_xor-bitwise (suc x / 2) (y / 2)) (lowest (λ t. t) differ x y)

pub pow2_pos : (k : ℕ) → 1 ≤ 2 ^ k
pow2_pos k = one-le-pow k 2 (omega arith)

pub pow2_suc : (k : ℕ) → 2 ^ suc k ≡ 2 * 2 ^ k
pow2_suc k = pow-succ' 2 k

-- A quotient and a remainder are determined by their equation.
pub mod_unique : (m q r : ℕ) → r < m → (m * q + r) % m ≡ r
mod_unique m q r h = mul-add-mod_self_left m q r ∙ mod-eq_of_lt h

pub mod_double : (x m : ℕ) → 0 < m → x % (2 * m) ≡ (x / 2 % m) * 2 + x % 2
mod_double x m h =
    let q : ℕ = x / 2 / m in
    let r : ℕ = x / 2 % m in
    let e : x ≡ 2 * m * q + (r * 2 + x % 2) =
      omega (arith, div-add-mod (x / 2) m, mul_assoc 2 m q) in
    let lt : r < m = mod-lt (x / 2) h in
    ap (λ t. t % (2 * m)) e ∙ mod_unique (2 * m) q (r * 2 + x % 2) (omega (arith, lt))

bit_and-zero_below : (bound x : ℕ) → x ≤ bound → bit_and x 0 ≡ 0
bit_and-zero_below zero x h = let e : x ≡ 0 = omega arith in rw e
bit_and-zero_below (suc bound) zero h = refl
bit_and-zero_below (suc bound) (suc x) h =
    bit_and_step (suc x) 0 ∙ omega (arith, bit_and-zero_below bound (suc x / 2) (omega arith))

-- A mask of `k` ones keeps the remainder by `2 ^ k`.
pub bit_and-mask : (k a : ℕ) → bit_and a (2 ^ k - 1) ≡ a % 2 ^ k
bit_and-mask zero a = omega (arith, bit_and-zero_below a a (le_refl a))
bit_and-mask (suc k) a =
    let m : ℕ = 2 ^ k in
    let p : 1 ≤ m = pow2_pos k in
    let e : 2 ^ suc k ≡ 2 * m = pow2_suc k in
    let half : (2 * m - 1) / 2 ≡ m - 1 = omega (arith, p) in
    rw e (
      bit_and_step a (2 * m - 1)
      ∙ omega
          (arith, p, ap (λ t. bit_and (a / 2) t) half, bit_and-mask k (a / 2), mod_double a m p))

bit_or-zero_below : (n a : ℕ) → a ≤ n → bit_or a 0 ≡ a
bit_or-zero_below n zero h = refl
bit_or-zero_below zero (suc a) h = absurd (omega arith)
bit_or-zero_below (suc n) (suc a) h =
    omega (arith, bit_or_step (suc a) 0, bit_or-zero_below n (suc a / 2) (omega arith))

-- The union of disjoint fields is their sum.
pub bit_or-disjoint : (k a b : ℕ) → b < 2 ^ k → bit_or (a * 2 ^ k) b ≡ a * 2 ^ k + b
bit_or-disjoint zero a b h =
    let e : b ≡ 0 = omega arith in
    let e' : a * 1 ≡ a = omega arith in rw (e, e') (bit_or-zero_below a a (le_refl a) ∙ omega arith)
bit_or-disjoint (suc k) a b h =
    let m : ℕ = 2 ^ k in
    let e : 2 ^ suc k ≡ 2 * m = pow2_suc k in
    let half : a * (2 * m) / 2 ≡ a * m = omega arith in
    let even : a * (2 * m) % 2 ≡ 0 = omega arith in
    let less : b / 2 < m = omega (arith, e) in
    rw e (
      bit_or_step (a * (2 * m)) b
      ∙ rw (half, even) (omega (arith, bit_or-disjoint k a (b / 2) less)))

xor_digits :
    (x y : ℕ)
    → x < 2
    → y < 2
    → (differ x y < 2) × (differ (differ x y) y ≡ x) × (differ x y ≡ differ y x)
xor_digits zero zero p q = (omega arith, refl, refl)
xor_digits zero (suc zero) p q = (omega arith, refl, refl)
xor_digits zero (suc (suc y)) p q = absurd (omega arith)
xor_digits (suc zero) zero p q = (omega arith, refl, refl)
xor_digits (suc zero) (suc zero) p q = (omega arith, refl, refl)
xor_digits (suc zero) (suc (suc y)) p q = absurd (omega arith)
xor_digits (suc (suc x)) y p q = absurd (omega arith)

xor_halves :
    (a b : ℕ)
    → (bit_xor a b / 2 ≡ bit_xor (a / 2) (b / 2)) × (bit_xor a b % 2 ≡ differ (a % 2) (b % 2))
xor_halves a b =
    let d : differ (a % 2) (b % 2) < 2 =
      (xor_digits (a % 2) (b % 2) (omega arith) (omega arith)).0 in
    (omega (arith, bit_xor_step a b, d), omega (arith, bit_xor_step a b, d))

bit_xor_comm_below : (n a b : ℕ) → a ≤ n → b ≤ n → bit_xor a b ≡ bit_xor b a
bit_xor_comm_below zero zero zero p q = refl
bit_xor_comm_below zero zero (suc b) p q = absurd (omega arith)
bit_xor_comm_below zero (suc a) b p q = absurd (omega arith)
bit_xor_comm_below (suc n) a b p q = omega (
  arith,
  bit_xor_step a b,
  bit_xor_step b a,
  (xor_digits (a % 2) (b % 2) (omega arith) (omega arith)).2,
  bit_xor_comm_below n (a / 2) (b / 2) (omega arith) (omega arith),
)

pub bit_xor_comm : (a b : ℕ) → bit_xor a b ≡ bit_xor b a
bit_xor_comm a b = bit_xor_comm_below (a + b) a b (omega arith) (omega arith)

bit_xor_cancel_below : (n a b : ℕ) → a ≤ n → b ≤ n → bit_xor (bit_xor a b) b ≡ a
bit_xor_cancel_below zero zero zero p q = refl
bit_xor_cancel_below zero zero (suc b) p q = absurd (omega arith)
bit_xor_cancel_below zero (suc a) b p q = absurd (omega arith)
bit_xor_cancel_below (suc n) a b p q =
    let (half, low) = xor_halves a b in
    bit_xor_step (bit_xor a b) b
    ∙ rw (half, low)
        (omega (
          arith,
          (xor_digits (a % 2) (b % 2) (omega arith) (omega arith)).1,
          bit_xor_cancel_below n (a / 2) (b / 2) (omega arith) (omega arith),
        ))

-- Exclusive or twice by the same number gives the first number back.
pub bit_xor_cancel : (a b : ℕ) → bit_xor (bit_xor a b) b ≡ a
bit_xor_cancel a b = bit_xor_cancel_below (a + b) a b (omega arith) (omega arith)

pub bit_xor-lt : (k a b : ℕ) → a < 2 ^ k → b < 2 ^ k → bit_xor a b < 2 ^ k
bit_xor-lt zero a b p q =
    let ea : a ≡ 0 = omega arith in let eb : b ≡ 0 = omega arith in rw (ea, eb) (omega arith)
bit_xor-lt (suc k) a b p q = omega (
  arith,
  pow2_suc k,
  bit_xor_step a b,
  (xor_digits (a % 2) (b % 2) (omega arith) (omega arith)).0,
  bit_xor-lt k (a / 2) (b / 2) (omega (arith, pow2_suc k)) (omega (arith, pow2_suc k)),
)

zero-bit_and : (b : ℕ) → bit_and 0 b ≡ 0
zero-bit_and b = bit_and-bitwise 0 b

-- A mask with one digit set keeps that digit.
pub bit_and-digit : (k a : ℕ) → bit_and a (2 ^ k) ≡ a / 2 ^ k % 2 * 2 ^ k
bit_and-digit zero a =
    omega (arith, bit_and_step a 1, bit_and-zero_below (a / 2) (a / 2) (le_refl (a / 2)))
bit_and-digit (suc k) a =
    let m : ℕ = 2 ^ k in
    let half : 2 * m / 2 ≡ m = omega arith in
    let even : 2 * m % 2 ≡ 0 = omega arith in
    rw (pow2_suc k) (
      bit_and_step a (2 * m)
      ∙ rw (half, even)
          (omega (arith, bit_and-digit k (a / 2), ap (λ t. t % 2 * m) (div-div-eq-div-mul a 2 m))))

bit_or_comm_below : (n a b : ℕ) → a ≤ n → b ≤ n → bit_or a b ≡ bit_or b a
bit_or_comm_below zero zero zero p q = refl
bit_or_comm_below zero zero (suc b) p q = absurd (omega arith)
bit_or_comm_below zero (suc a) b p q = absurd (omega arith)
bit_or_comm_below (suc n) a b p q = omega (
  arith,
  bit_or_step a b,
  bit_or_step b a,
  bit_or_comm_below n (a / 2) (b / 2) (omega arith) (omega arith),
)

pub bit_or_comm : (a b : ℕ) → bit_or a b ≡ bit_or b a
bit_or_comm a b = bit_or_comm_below (a + b) a b (omega arith) (omega arith)

-- A tag over the low `k` bits of a number.
pub tagged : (k tag s : ℕ) → bit_or (bit_and s (2 ^ k - 1)) (tag * 2 ^ k) ≡ tag * 2 ^ k + s % 2 ^ k
tagged k tag s =
    bit_or_comm (bit_and s (2 ^ k - 1)) (tag * 2 ^ k)
    ∙ ap (bit_or (tag * 2 ^ k)) (bit_and-mask k s)
    ∙ bit_or-disjoint k tag (s % 2 ^ k) (mod-lt s (pow2_pos k))

pub bit_xor-zero : (a : ℕ) → bit_xor a 0 ≡ a
bit_xor-zero a = bit_xor_comm a 0 ∙ bit_xor-bitwise 0 a
