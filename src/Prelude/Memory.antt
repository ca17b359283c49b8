-- ===== src/Prelude/Memory.antt =====
-- Bytes by address, with `memcpy` in and out of them and 16-bit words in little-endian order.
use tyrdbs.Prelude.{
  ℕ, zero, suc, ◌+◌, ◌*◌, ◌/◌, ◌%◌, ◌^◌, ◌≤◌, ◌<◌, ◌≡◌, refl, ap, ◌∙◌, ◌⊎◌, inl, inr, true, false,
  List, [], ◌∷◌, ◌++◌, arith, ◌==◌, ==_iff, if◌then◌else◌, length, get_or,
}

abbrev pub Memory : Type 0
Memory = ℕ → ℕ

abbrev pub store : Memory → ℕ → List ℕ → Memory
store m at [] i = m i
store m at (b ∷ bs) i = if i == at then b else store m (at + 1) bs i

abbrev pub load : Memory → ℕ → ℕ → List ℕ
load m at zero = []
load m at (suc n) = m at ∷ load m (at + 1) n

abbrev pub store16 : Memory → ℕ → ℕ → Memory
store16 m at v = store m at (v % 256 ∷ v / 256 % 256 ∷ [])

abbrev pub load16 : Memory → ℕ → ℕ
load16 m at = m at + 256 * m (at + 1)

-- the two memories hold the same bytes from `a` up to `b`
abbrev pub Same : Memory → Memory → ℕ → ℕ → Type 0
Same m m' a b = (i : ℕ) → a ≤ i → i < b → m i ≡ m' i

pub length-load : (m : Memory) (at n : ℕ) → length (load m at n) ≡ n
length-load m at zero = refl
length-load m at (suc n) = ap suc (length-load m (at + 1) n)

pub store-below : (m : Memory) (at : ℕ) (bs : List ℕ) (i : ℕ) → i < at → store m at bs i ≡ m i
store-below m at [] i h = refl
store-below m at (b ∷ bs) i h =
    let e : (i == at) ≡ false = ground arith in rw e (store-below m (at + 1) bs i (omega arith))

pub store-above :
    (m : Memory) (at : ℕ) (bs : List ℕ) (i : ℕ) → at + length bs ≤ i → store m at bs i ≡ m i
store-above m at [] i h = refl
store-above m at (b ∷ bs) i h =
    let e : (i == at) ≡ false = ground arith in rw e (store-above m (at + 1) bs i (omega arith))

pub load-Same : (m m' : Memory) (at n : ℕ) → Same m m' at (at + n) → load m at n ≡ load m' at n
load-Same m m' at zero h = refl
load-Same m m' at (suc n) h =
    rw
      (
        h at (omega arith) (omega arith),
        load-Same m m' (at + 1) n (λ i p q. h i (omega arith) (omega arith)),
      )
      refl

pub load-store : (m : Memory) (at : ℕ) (bs : List ℕ) → load (store m at bs) at (length bs) ≡ bs
load-store m at [] = refl
load-store m at (b ∷ bs) =
    let e : (at == at) ≡ true = (==_iff at at).1 refl in
    rw
      (
        e,
        load-Same (store m at (b ∷ bs)) (store m (at + 1) bs) (at + 1) (length bs)
            (λ i p q. (let ne : (i == at) ≡ false = ground arith in rw ne)),
      )
      (ap (λ t. b ∷ t) (load-store m (at + 1) bs))

pub load16-Same : (m m' : Memory) (at : ℕ) → Same m m' at (at + 2) → load16 m at ≡ load16 m' at
load16-Same m m' at h =
    rw (h at (omega arith) (omega arith), h (at + 1) (omega arith) (omega arith)) refl

pub load16-store16 : (m : Memory) (at v : ℕ) → v < 65536 → load16 (store16 m at v) at ≡ v
load16-store16 m at v h =
    let e : (at == at) ≡ true = (==_iff at at).1 refl in
    let e1 : (at + 1 == at) ≡ false = ground arith in
    let e2 : (at + 1 == at + 1) ≡ true = (==_iff (at + 1) (at + 1)).1 refl in
    rw (e, e1, e2) (omega arith)

pub store16-outside : (m : Memory) (at v i : ℕ) → ((i < at) ⊎ (at + 2 ≤ i)) → store16 m at v i ≡ m i
store16-outside m at v i (inl l) = store-below m at (v % 256 ∷ v / 256 % 256 ∷ []) i l
store16-outside m at v i (inr g) = store-above m at (v % 256 ∷ v / 256 % 256 ∷ []) i g

pub get_or-load : (m : Memory) (at n i : ℕ) → i < n → get_or (load m at n) i 0 ≡ m (at + i)
get_or-load m at zero i h = absurd (omega arith)
get_or-load m at (suc n) zero h = ap m (omega arith)
get_or-load m at (suc n) (suc i) h = get_or-load m (at + 1) n i (omega arith) ∙ ap m (omega arith)

pub load-append : (m : Memory) (at a b : ℕ) → load m at (a + b) ≡ load m at a ++ load m (at + a) b
load-append m at zero b =
    ap (load m at) {x = 0 + b} {y = b} (omega arith)
    ∙ ap (λ t. load m t b) {x = at} {y = at + 0} (omega arith)
load-append m at (suc a) b =
    ap (load m at) {x = suc a + b} {y = suc (a + b)} (omega arith)
    ∙ ap (λ t. m at ∷ t)
        (load-append m (at + 1) a b
          ∙ ap (λ t. load m (at + 1) a ++ load m t b) {x = at + 1 + a} {y = at + suc a}
              (omega arith))

-- Bytes written behind those that are there.
pub load-store_behind :
    (m : Memory) (n : ℕ) (bs : List ℕ) → load (store m n bs) 0 (n + length bs) ≡ load m 0 n ++ bs
load-store_behind m n bs =
    load-append (store m n bs) 0 n (length bs)
    ∙ ap (λ t. t ++ load (store m n bs) (0 + n) (length bs))
        (load-Same (store m n bs) m 0 n (λ i a b. store-below m n bs i (omega arith)))
    ∙ ap (λ t. load m 0 n ++ load (store m n bs) t (length bs)) {x = 0 + n} {y = n} (omega arith)
    ∙ ap (λ t. load m 0 n ++ t) (load-store m n bs)

-- the bytes of a word, lowest first, and the word of bytes
abbrev pub to_bytes : (n : ℕ) → ℕ → List ℕ
to_bytes zero v = []
to_bytes (suc n) v = v % 256 ∷ to_bytes n (v / 256)

abbrev pub of_bytes : List ℕ → ℕ
of_bytes [] = 0
of_bytes (b ∷ bs) = b + 256 * of_bytes bs

pub length-to_bytes : (n v : ℕ) → length (to_bytes n v) ≡ n
length-to_bytes zero v = refl
length-to_bytes (suc n) v = ap suc (length-to_bytes n (v / 256))

pub of_bytes-to_bytes2 : (v : ℕ) → v < 2 ^ 16 → of_bytes (to_bytes 2 v) ≡ v
of_bytes-to_bytes2 v h = omega arith

pub of_bytes-to_bytes4 : (v : ℕ) → v < 2 ^ 32 → of_bytes (to_bytes 4 v) ≡ v
of_bytes-to_bytes4 v h = omega arith
