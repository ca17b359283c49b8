-- ===== src/BitStream/Read.antt =====
-- What `bit_reader` still has to read, as a sequence of bits, and that each call takes its front.
use Prim.Native.Nat.{bit_and, bit_or}
use native.Mathlib.Nat.{mod-lt, div-le_self}
use tyrdbs.Prelude.{
  ℕ, zero, suc, ◌+◌, ◌-◌, ◌*◌, ◌/◌, ◌%◌, ◌^◌, ◌≤◌, ◌<◌, min, ◌≡◌, refl, sym, ap, ◌∙◌, inl, inr,
  false, Option, some, List, [], ◌∷◌, ◌++◌, append_assoc, arith, ◌==◌, ==_iff, Bool-cases, Every,
  length, length-append,
}
use tyrdbs.Prelude.Bits.{pow2_pos}
use tyrdbs.BitStream.{
  BitReader, bit_reader, load, load_if_empty, part_of, read_part, read_loop, read, read_bit,
}
use tyrdbs.BitStream.Digits.{
  to_bits, words_bits, pow2_add, to_bits_parts, to_bits_mod, to_bits_join, to_bits-zero,
  length-to_bits, to_bits_cancel, words_bits-cons, words_bits-nil,
}
use tyrdbs.BitStream.Write.{part_of-eq, shifted_fits, placed, placed-lt}

-- The words are words, and the offset lies in the word at hand.
pub record IsReady (r : BitReader) : Type 0 where
  pub offset_in : r.offset ≤ 64
  pub bits_in : r.bits < 2 ^ 64
  pub words : Every (λ x. x < 2 ^ 64) r.source

-- the low bits of the word at hand, then the words of the source
pub remaining : BitReader → List ℕ
remaining r = to_bits (64 - r.offset) r.bits ++ words_bits r.source

remaining_empty : (r : BitReader) → r.offset ≡ 64 → remaining r ≡ words_bits r.source
unfolding remaining
remaining_empty r e = rw (e, to_bits-zero)

-- A load of a word changes nothing of what is left to read.
load-remaining :
    (s : List ℕ) (b : ℕ)
    → Every (λ x. x < 2 ^ 64) s
    → 0 < length (words_bits s)
    → (r' : BitReader) × (load (record { source = s; bits = b; offset = 64 }) ≡ some r')
      × IsReady r'
      × (r'.offset < 64)
      × (remaining r' ≡ words_bits s)
unfolding load remaining
load-remaining [] b a h = absurd (omega (arith, ap length words_bits-nil))
load-remaining (w ∷ ws) b a h = (
  record { source = ws; bits = w; offset = 0 },
  refl,
  record { offset_in = omega arith; bits_in = a.0; words = a.1 },
  omega arith,
  sym (words_bits-cons w ws),
)

-- A reader with bits left has, after the load, some in the word at hand, and the same ones left.
load_if_empty-remaining :
    (r : BitReader)
    → IsReady r
    → 0 < length (remaining r)
    → (r' : BitReader) × (load_if_empty r ≡ some r')
      × IsReady r'
      × (r'.offset < 64)
      × (remaining r' ≡ remaining r)
unfolding load_if_empty
load_if_empty-remaining r v h = elim (Bool-cases (r.offset == 64)) [
  | inr e ↦ (r, rw e, v, ground (arith, v.offset_in), refl)
  | inl e ↦
      let o : r.offset ≡ 64 = (==_iff r.offset 64).0 e in
      let same = remaining_empty r o in
      let (r', l, v', room, c) =
        load-remaining r.source r.bits v.words (omega (arith, h, ap length same)) in
      let here : load r ≡ load (record { source = r.source; bits = r.bits; offset = 64 }) =
        ap load (λ i. record { source = r.source; bits = r.bits; offset = o i }) in
      (r', rw e (here ∙ l), v', room, c ∙ sym same)
]

-- One part of the word at hand: its value, and what is left after it.
read_part-remaining :
    (r : BitReader) (p : ℕ)
    → IsReady r
    → r.offset + p ≤ 64
    → let r' = record r { offset = r.offset + p } in
      IsReady r'
      × (read_part p r < 2 ^ p)
      × (remaining r ≡ to_bits p (read_part p r) ++ remaining r')
unfolding read_part remaining
read_part-remaining r p v h =
    let k : ℕ = 64 - (r.offset + p) in
    let x : ℕ = r.bits / 2 ^ k in
    let e : part_of p x ≡ x % 2 ^ p =
      part_of-eq p x (omega (arith, div-le_self r.bits (2 ^ k), v.bits_in)) (omega arith) in
    let lt : x % 2 ^ p < 2 ^ p = mod-lt x (pow2_pos p) in
    let cut = to_bits_parts p k (64 - r.offset) r.bits (omega arith) in
    (
      record { offset_in = h; bits_in = v.bits_in; words = v.words },
      rw e lt,
      rw (cut, e, ← to_bits_mod p x)
          (append_assoc (to_bits p x) (to_bits k r.bits) (words_bits r.source)),
    )

-- What a successful read of `n` bits gives: a value of `n` bits, and the reader past them.
pub record Reads (n : ℕ) (r : BitReader) (hi : ℕ) (out : Option (ℕ × BitReader)) : Type 0 where
  pub value : ℕ
  pub after : BitReader
  pub returned : out ≡ some (hi * 2 ^ n + value, after)
  pub value_in : value < 2 ^ n
  pub ready : IsReady after
  pub front : remaining r ≡ to_bits n value ++ remaining after

done-Reads : (r : BitReader) (hi : ℕ) → IsReady r → Reads 0 r hi (some (hi * 1, r))
done-Reads r hi v = record {
  value = 0;
  after = r;
  returned = ap (λ t. some (t, r)) (omega arith);
  value_in = omega arith;
  ready = v;
  front = rw to_bits-zero;
}

-- A part of `p` bits, then the rest.
part-Reads :
    (p q n hi x : ℕ) (r r' : BitReader) (out : Option (ℕ × BitReader))
    → n ≡ p + q
    → x < 2 ^ p
    → remaining r ≡ to_bits p x ++ remaining r'
    → Reads q r' (hi * 2 ^ p + x) out
    → Reads n r hi out
part-Reads p q n hi x r r' out e hx cut rest =
    let whole : 2 ^ n ≡ 2 ^ p * 2 ^ q = ap (λ t. 2 ^ t) e ∙ pow2_add p q in
    let y : ℕ = rest.value in
    let joined : to_bits n (x * 2 ^ q + y) ≡ to_bits p x ++ to_bits q y =
      ap (λ t. to_bits t (x * 2 ^ q + y)) e ∙ to_bits_join p q x y rest.value_in in
    record {
      value = x * 2 ^ q + y;
      after = rest.after;
      returned =
          rest.returned ∙ ap (λ t. some (t, rest.after)) (omega (arith, ap (λ t. hi * t) whole));
      value_in = rw whole (grind (arith, rest.value_in));
      ready = rest.ready;
      front =
          cut
          ∙ ap (λ t. to_bits p x ++ t) rest.front
          ∙ sym (append_assoc (to_bits p x) (to_bits q y) (remaining rest.after))
          ∙ ap (λ t. t ++ remaining rest.after) (sym joined);
    }

-- The accumulator after a part.
accumulate :
    (p q n hi x : ℕ)
    → n ≡ p + q
    → n ≤ 64
    → hi < 2 ^ (64 - n)
    → x < 2 ^ p
    → (bit_or (hi * 2 ^ n) (x * 2 ^ q % 2 ^ 64) ≡ (hi * 2 ^ p + x) * 2 ^ q)
      × (hi * 2 ^ p + x < 2 ^ (64 - q))
accumulate p q n hi x e hn hh hx =
    let room : 64 - n + p + q ≡ 64 = omega arith in
    let back : 64 - (64 - n) ≡ n = omega arith in
    let up : 64 - n + p ≡ 64 - q = omega arith in
    (
      ap (bit_or (hi * 2 ^ n)) (shifted_fits (64 - n) p q hi x room hh hx)
          ∙ ap (λ t. bit_or (hi * 2 ^ t) (x * 2 ^ q)) (sym back)
          ∙ placed (64 - n) p q hi x room hh hx,
      omega (arith, placed-lt (64 - n) p q hi x room hh hx, ap (λ t. 2 ^ t) up),
    )

read_loop-Reads :
    (fuel hi bits : ℕ) (r : BitReader)
    → IsReady r
    → bits ≤ fuel
    → bits ≤ 64
    → hi < 2 ^ (64 - bits)
    → bits ≤ length (remaining r)
    → Reads bits r hi (read_loop fuel (hi * 2 ^ bits) bits r)
unfolding read_loop
read_loop-Reads zero hi zero r v hf hb hh hl = done-Reads r hi v
read_loop-Reads zero hi (suc bits) r v hf hb hh hl = absurd (omega arith)
read_loop-Reads (suc fuel) hi zero r v hf hb hh hl = done-Reads r hi v
read_loop-Reads (suc fuel) hi (suc bits) r v hf hb hh hl =
    let more : (suc bits == 0) ≡ false = ground arith in
    let (r1, loaded, v1, room, same) = load_if_empty-remaining r v (omega arith) in
    let p : ℕ = min (64 - r1.offset) (suc bits) in
    let q : ℕ = suc bits - p in
    let e : suc bits ≡ p + q = omega arith in
    let x : ℕ = read_part p r1 in
    let r2 : BitReader = record r1 { offset = r1.offset + p } in
    let (v2, lt, cut) = read_part-remaining r1 p v1 (omega arith) in
    let (acc, bound) = accumulate p q (suc bits) hi x e hb hh lt in
    let len : length (remaining r) ≡ p + length (remaining r2) =
      ap length (sym same ∙ cut)
      ∙ length-append (to_bits p x) (remaining r2)
      ∙ ap (λ t. t + length (remaining r2)) (length-to_bits p x) in
    rw (more, loaded, acc)
      (part-Reads p q (suc bits) hi x r r2 _ e lt (sym same ∙ cut) (
        read_loop-Reads fuel (hi * 2 ^ p + x) q r2 v2 (omega arith) (omega arith) bound
          (omega (arith, len))))

-- If the next `bits` bits are those of `v`, `read` returns `v` and goes past them.
pub read-remaining :
    (bits v : ℕ) (rest : List ℕ) (r : BitReader)
    → IsReady r
    → bits ≤ 64
    → v < 2 ^ bits
    → remaining r ≡ to_bits bits v ++ rest
    → (r' : BitReader) × (read bits r ≡ some (v, r')) × IsReady r' × (remaining r' ≡ rest)
unfolding read
read-remaining bits v rest r a hb hv e =
    let len = ap length e ∙ length-append (to_bits bits v) rest in
    let out =
      read_loop-Reads bits 0 bits r a (omega arith) hb (pow2_pos (64 - bits))
        (omega (arith, len, length-to_bits bits v)) in
    let zero_acc : 0 ≡ 0 * 2 ^ bits = omega arith in
    let (same, tail) =
      to_bits_cancel bits out.value v (remaining out.after) rest out.value_in hv
        (sym out.front ∙ e) in
    (
      out.after,
      ap (λ t. read_loop bits t bits r) zero_acc
          ∙ out.returned
          ∙ ap (λ t. some (t, out.after)) (omega (arith, same)),
      out.ready,
      tail,
    )

read_part-one : (r : BitReader) → bit_and (r.bits / 2 ^ (63 - r.offset)) 1 ≡ read_part 1 r
unfolding read_part
read_part-one r = ap (λ t. bit_and (r.bits / 2 ^ t) 1) (omega arith)

-- The call for a single bit agrees with `read(1)`.
pub read_bit-remaining :
    (v : ℕ) (rest : List ℕ) (r : BitReader)
    → IsReady r
    → v < 2
    → remaining r ≡ to_bits 1 v ++ rest
    → (r' : BitReader) × (read_bit r ≡ some (v, r')) × IsReady r' × (remaining r' ≡ rest)
unfolding read_bit
read_bit-remaining v rest r a hv e =
    let len = ap length e ∙ length-append (to_bits 1 v) rest in
    let (r1, loaded, v1, room, same) =
      load_if_empty-remaining r a (omega (arith, len, length-to_bits 1 v)) in
    let (v2, lt, cut) = read_part-remaining r1 1 v1 (omega arith) in
    let r2 : BitReader = record r1 { offset = r1.offset + 1 } in
    let value = read_part-one r1 in
    let (eq, tail) =
      to_bits_cancel 1 (read_part 1 r1) v (remaining r2) rest lt hv (sym cut ∙ same ∙ e) in
    (r2, rw (loaded, read_bit) (ap (λ t. some (t, r2)) (value ∙ eq)), v2, tail)

pub bit_reader-IsReady :
    (words : List ℕ) → Every (λ x. x < 2 ^ 64) words → IsReady (bit_reader words)
bit_reader-IsReady words a = record { offset_in = omega arith; bits_in = omega arith; words = a }

pub remaining-start : (words : List ℕ) → remaining (bit_reader words) ≡ words_bits words
remaining-start words = remaining_empty (bit_reader words) refl
