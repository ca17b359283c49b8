-- ===== src/BitStream/Write.antt =====
-- What `bit_writer` has written so far, as a sequence of bits, and that each call appends to it.
use native.Mathlib.Nat.{mod-eq_of_lt, mul-div_cancel, mod-lt, pow-le-pow_right}
use native.Mathlib.Nat.{div-le_self}
use tyrdbs.Prelude.{
  ℕ, zero, suc, ◌+◌, ◌-◌, ◌*◌, ◌/◌, ◌%◌, ◌^◌, ◌≤◌, ◌<◌, min, ◌≡◌, refl, sym, ap, ◌∙◌, inl, inr,
  false, List, [], ◌∷◌, ◌++◌, append-nil, append_assoc, arith, ◌==◌, ==_iff, if◌then◌else◌,
  Bool-cases, Every, Every-append,
}
use Prim.Native.Nat.{bit_or}
use tyrdbs.Prelude.Bits.{bit_and-mask, bit_or-disjoint, pow2_pos}
use tyrdbs.BitStream.{BitWriter, bit_writer, flush, part_of, write_part, write_loop, write}
use tyrdbs.BitStream.Digits.{
  to_bits, words_bits, pow2_add, to_bits_parts, to_bits_mod, to_bits_join, words_bits-snoc,
  words_bits-nil, to_bits-zero,
}

-- The bits in the word at hand are its top ones, and the rest of it is zero.
pub record IsAligned (w : BitWriter) : Type 0 where
  pub offset_in : w.offset ≤ 64
  pub top : ℕ
  pub top_in : top < 2 ^ w.offset
  pub bits_eq : w.bits ≡ top * 2 ^ (64 - w.offset)
  pub words : Every (λ x. x < 2 ^ 64) w.sink

-- all that was written: the bits of the words in the sink, then the top bits of the word at hand
pub content : BitWriter → List ℕ
content w = words_bits w.sink ++ to_bits w.offset (w.bits / 2 ^ (64 - w.offset))

pub pow2_mono : (a b : ℕ) → a ≤ b → 2 ^ a ≤ 2 ^ b
pow2_mono a b h = pow-le-pow_right {n = 2} (omega arith) h

-- The value of a part is the low `part_bits` bits, whichever branch computes it.
pub part_of-eq : (p v : ℕ) → v < 2 ^ 64 → p ≤ 64 → part_of p v ≡ v % 2 ^ p
unfolding part_of
part_of-eq p v hv hp = elim (Bool-cases (p == 64)) [
  | inl e ↦
      let e' : p ≡ 64 = (==_iff p 64).0 e in rw (e, ap (λ t. v % 2 ^ t) e') (sym (mod-eq_of_lt hv))
  | inr e ↦ rw e (bit_and-mask p v)
]

module _ {w : BitWriter} (a : IsAligned w) where
  content-eq : content w ≡ words_bits w.sink ++ to_bits w.offset a.top
  unfolding content
  content-eq =
      let e : w.bits / 2 ^ (64 - w.offset) ≡ a.top =
        ap (λ t. t / 2 ^ (64 - w.offset)) a.bits_eq
        ∙ mul-div_cancel a.top (pow2_pos (64 - w.offset)) in
      rw e refl

-- `x < 2 ^ p`, shifted to just below `top`, with `k` bits left under it.
module _ (o p k top x : ℕ) (room : o + p + k ≡ 64) (ht : top < 2 ^ o) (hx : x < 2 ^ p) where
  pub shift_split : 2 ^ (64 - o) ≡ 2 ^ p * 2 ^ k
  shift_split = let e : 64 - o ≡ p + k = omega arith in ap (λ t. 2 ^ t) e ∙ pow2_add p k

  pub shifted-lt : x * 2 ^ k < 2 ^ (64 - o)
  shifted-lt = rw shift_split (grind (arith, pow2_pos k))

  pub shifted_fits : x * 2 ^ k % 2 ^ 64 ≡ x * 2 ^ k
  shifted_fits =
      let le : 2 ^ (64 - o) ≤ 2 ^ 64 = pow2_mono (64 - o) 64 (omega arith) in
      mod-eq_of_lt (omega (arith, le, shifted-lt))

  pub placed : bit_or (top * 2 ^ (64 - o)) (x * 2 ^ k) ≡ (top * 2 ^ p + x) * 2 ^ k
  placed =
      bit_or-disjoint (64 - o) top (x * 2 ^ k) shifted-lt
      ∙ omega (arith, ap (λ t. top * t) shift_split)

  pub placed-lt : top * 2 ^ p + x < 2 ^ (o + p)
  placed-lt = rw (pow2_add o p) (grind arith)

-- One round past the flush appends the low `part` bits of its value.
write_part-append :
    (w : BitWriter) (a : IsAligned w) (v p : ℕ)
    → v < 2 ^ 64
    → w.offset + p ≤ 64
    → IsAligned (write_part v p w) × (content (write_part v p w) ≡ content w ++ to_bits p v)
unfolding write_part content
write_part-append w a v p hv hp =
    let k : ℕ = 64 - (w.offset + p) in
    let x : ℕ = v % 2 ^ p in
    let lt : x < 2 ^ p = mod-lt v (pow2_pos p) in
    let room : w.offset + p + k ≡ 64 = omega arith in
    let top' : ℕ = a.top * 2 ^ p + x in
    let part : part_of p v ≡ x = part_of-eq p v hv (omega arith) in
    let word : bit_or w.bits (part_of p v * 2 ^ k % 2 ^ 64) ≡ top' * 2 ^ k =
      rw (part, shifted_fits w.offset p k a.top x room a.top_in lt, a.bits_eq)
        (placed w.offset p k a.top x room a.top_in lt) in
    let v_eq : to_bits p v ≡ to_bits p x = to_bits_mod p v in
    let top_eq : to_bits (w.offset + p) top' ≡ to_bits w.offset a.top ++ to_bits p x =
      to_bits_join w.offset p a.top x lt in
    let next : IsAligned (write_part v p w) = record {
      offset_in = hp;
      top = top';
      top_in = placed-lt w.offset p k a.top x room a.top_in lt;
      bits_eq = word;
      words = a.words;
    } in
    (
      next,
      content-eq next
          ∙ rw (content-eq a, top_eq, v_eq)
              (sym (append_assoc (words_bits w.sink) (to_bits w.offset a.top) (to_bits p x))),
    )

-- A flush of a full word changes no bit of the content.
flush_full :
    (w : BitWriter) (a : IsAligned w)
    → w.offset ≡ 64
    → IsAligned (flush w) × ((flush w).offset ≡ 0) × (content (flush w) ≡ content w)
unfolding flush content
flush_full w a e =
    let test : (w.offset == 0) ≡ false = ground arith in
    let top : w.bits ≡ a.top = a.bits_eq ∙ rw e (omega arith) in
    let lt : w.bits < 2 ^ 64 = omega (arith, top, a.top_in, ap (λ t. 2 ^ t) e) in
    let id : w.bits / 1 ≡ w.bits = omega arith in
    rw test (
      record {
        offset_in = omega arith;
        top = 0;
        top_in = omega arith;
        bits_eq = omega arith;
        words = Every-append (λ x. x < 2 ^ 64) w.sink (w.bits ∷ []) a.words (lt, tt);
      },
      refl,
      rw (to_bits-zero, append-nil, words_bits-snoc, e, id),
    )

-- What the loop does first: make room in the word at hand.
make_room :
    (w : BitWriter) (a : IsAligned w)
    → let w' = if w.offset == 64 then flush w else w in
      IsAligned w' × (w'.offset < 64) × (content w' ≡ content w)
make_room w a = elim (Bool-cases (w.offset == 64)) [
  | inl e ↦ let (a', o, c) = flush_full w a ((==_iff w.offset 64).0 e) in rw e (a', omega arith, c)
  | inr e ↦ rw e (a, ground arith, refl)
]

write_loop-append :
    (fuel value bits : ℕ) (w : BitWriter)
    → IsAligned w
    → value < 2 ^ 64
    → bits ≤ fuel
    → bits ≤ 64
    → IsAligned (write_loop fuel value bits w)
      × (content (write_loop fuel value bits w) ≡ content w ++ to_bits bits value)
unfolding write_loop
write_loop-append zero value zero w a hv hf hb = (a, rw (to_bits-zero, append-nil))
write_loop-append zero value (suc bits) w a hv hf hb = absurd (omega arith)
write_loop-append (suc fuel) value zero w a hv hf hb = (a, rw (to_bits-zero, append-nil))
write_loop-append (suc fuel) value (suc bits) w a hv hf hb =
    let w' : BitWriter = if w.offset == 64 then flush w else w in
    let (a', room, same) = make_room w a in
    let p : ℕ = min (64 - w'.offset) (suc bits) in
    let q : ℕ = suc bits - p in
    let (a1, c1) =
      write_part-append w' a' (value / 2 ^ q) p (omega (arith, div-le_self value (2 ^ q)))
        (omega arith) in
    let (a2, c2) =
      write_loop-append fuel value q (write_part (value / 2 ^ q) p w') a1 hv (omega arith)
        (omega arith) in
    let split = to_bits_parts p q (suc bits) value (omega arith) in
    let more : (suc bits == 0) ≡ false = ground arith in
    rw more (
      a2,
      c2
          ∙ rw (c1, same, split)
              (append_assoc (content w) (to_bits p (value / 2 ^ q)) (to_bits q value)),
    )

pub bit_writer-IsAligned : IsAligned bit_writer
bit_writer-IsAligned = record {
  offset_in = omega arith;
  top = 0;
  top_in = omega arith;
  bits_eq = omega arith;
  words = tt;
}

-- `write` appends exactly the low `bits` bits of the value, most significant first, whether or
-- not they cross the end of a word, and keeps the writer aligned.
pub write-content :
    (value bits : ℕ) (w : BitWriter)
    → IsAligned w
    → value < 2 ^ 64
    → bits ≤ 64
    → IsAligned (write value bits w)
      × (content (write value bits w) ≡ content w ++ to_bits bits value)
unfolding write
write-content value bits w a hv hb = write_loop-append bits value bits w a hv (omega arith) hb

module _ (o k top bits : ℕ) (room : o + k ≡ 64) (ht : top < 2 ^ o) (e : bits ≡ top * 2 ^ k) where
  to_word : to_bits 64 bits ≡ to_bits o top ++ to_bits k 0
  to_word =
      ap (λ t. to_bits t bits) (sym room)
      ∙ rw e (
          let z : top * 2 ^ k ≡ top * 2 ^ k + 0 = omega arith in
          rw z (to_bits_join o k top 0 (pow2_pos k)))

  word-lt : bits < 2 ^ 64
  word-lt =
      let whole : 2 ^ 64 ≡ 2 ^ o * 2 ^ k = ap (λ t. 2 ^ t) (sym room) ∙ pow2_add o k in
      let lt : top * 2 ^ k < 2 ^ o * 2 ^ k = grind (arith, pow2_pos k) in
      omega (arith, whole, lt, e)

-- `flush` leaves only whole words: the content, filled up with zeros to a multiple of 64 bits.
pub flush-content :
    (w : BitWriter)
    → IsAligned w
    → (pad : ℕ) × (words_bits (flush w).sink ≡ content w ++ to_bits pad 0)
      × (pad < 64)
      × Every (λ x. x < 2 ^ 64) (flush w).sink
unfolding flush content
flush-content w a = elim (Bool-cases (w.offset == 0)) [
  | inl e ↦
      let z : w.offset ≡ 0 = (==_iff w.offset 0).0 e in
      (0, rw (e, z, to_bits-zero, to_bits-zero, append-nil, append-nil), omega arith, rw e a.words)
  | inr e ↦
      let k : ℕ = 64 - w.offset in
      let back : w.bits / 2 ^ k ≡ a.top =
        ap (λ t. t / 2 ^ k) a.bits_eq ∙ mul-div_cancel a.top (pow2_pos k) in
      let join : to_bits 64 w.bits ≡ to_bits w.offset a.top ++ to_bits k 0 =
        to_word w.offset k a.top w.bits (omega arith) a.top_in a.bits_eq in
      let lt : w.bits < 2 ^ 64 = word-lt w.offset k a.top w.bits (omega arith) a.top_in a.bits_eq in
      (
        k,
        rw (e, words_bits-snoc, join, back)
            (sym (append_assoc (words_bits w.sink) (to_bits w.offset a.top) (to_bits k 0))),
        ground arith,
        rw e (Every-append (λ x. x < 2 ^ 64) w.sink (w.bits ∷ []) a.words (lt, tt)),
      )
]

pub content-start : content bit_writer ≡ []
unfolding content
content-start = rw (to_bits-zero, words_bits-nil)
