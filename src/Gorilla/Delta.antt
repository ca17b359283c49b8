-- ===== src/Gorilla/Delta.antt =====
-- The five widths of a delta of deltas: each is read back as it was written.
use tyrdbs.Prelude.{
  ℕ, ◌+◌, ◌*◌, ◌%◌, ◌^◌, ◌≤◌, ◌<◌, ◌≡◌, ◌≢◌, refl, ap, ◌∙◌, inl, inr, true, false, ◌&&◌, some, List,
  ◌++◌, arith, ◌==◌, ==_iff, Bool-cases,
}
use tyrdbs.Prelude.Bits.{tagged}
use tyrdbs.Prelude.Words.{add64, sub64, le_s64, neg64}
use tyrdbs.BitStream.{BitWriter, write}
use tyrdbs.BitStream.Digits.{to_bits, to_bits_join}
use tyrdbs.BitStream.Write.{IsAligned, content}
use tyrdbs.Gorilla.{
  write_encoded, read_biased, read_encoded, after_first, after_second, after_third, after_fourth,
}
use tyrdbs.Gorilla.Codec.{Appends, Takes, Appends-write, Takes-read, Takes-read_bit, Takes-bit}

-- A delta of deltas that the widest form can hold: as a signed word it lies between -0x7fffffff
-- and 0x80000000.
abbrev pub IsEncodable : ℕ → Type 0
IsEncodable v = (v + 0x7fff_ffff) % 2 ^ 64 < 2 ^ 32

-- The bits that `write_encoded` appends for `v`, of which `read_encoded` makes `out`.
pub record Encodes (v out : ℕ) : Type 0 where
  pub enc : List ℕ
  pub appends : (w : BitWriter) → IsAligned w → Appends w (write_encoded v w) enc
  pub takes : Takes read_encoded enc out

Takes-biased :
    (bits bias x v : ℕ)
    → bits ≤ 64
    → x < 2 ^ bits
    → sub64 x bias ≡ v
    → Takes (read_biased bits bias) (to_bits bits x) v
unfolding read_biased
Takes-biased bits bias x v hb hx e r rest a h =
    let (r', got, a', h') = Takes-read bits x hb hx r rest a h in
    (r', rw got (ap (λ t. some (t, r')) e), a', h')

-- The prefixes of the wider forms, bit by bit.
module _ (xs : List ℕ) where
  prefix_two : to_bits 2 0x02 ++ xs ≡ to_bits 1 1 ++ (to_bits 1 0 ++ xs)
  unfolding to_bits
  prefix_two = refl

  prefix_three : to_bits 3 0x06 ++ xs ≡ to_bits 1 1 ++ (to_bits 1 1 ++ (to_bits 1 0 ++ xs))
  unfolding to_bits
  prefix_three = refl

  prefix_four :
      to_bits 4 0x0e ++ xs ≡ to_bits 1 1 ++ (to_bits 1 1 ++ (to_bits 1 1 ++ (to_bits 1 0 ++ xs)))
  unfolding to_bits
  prefix_four = refl

  prefix_ones :
      to_bits 4 0x0f ++ xs ≡ to_bits 1 1 ++ (to_bits 1 1 ++ (to_bits 1 1 ++ (to_bits 1 1 ++ xs)))
  unfolding to_bits
  prefix_ones = refl

-- A tag of `j` bits over a field of `k` bits.
Appends-tagged :
    (j k tag x : ℕ) (enc : List ℕ) (w : BitWriter)
    → to_bits j tag ++ to_bits k x ≡ enc
    → j + k ≤ 64
    → x < 2 ^ k
    → tag * 2 ^ k + x < 2 ^ 64
    → IsAligned w
    → Appends w (write (tag * 2 ^ k + x) (j + k) w) enc
Appends-tagged j k tag x enc w e hn hx hc a =
    let (a', c) = Appends-write (tag * 2 ^ k + x) (j + k) w a hc hn in
    (a', c ∙ ap (λ t. content w ++ t) (to_bits_join j k tag x hx ∙ e))

module _ (v : ℕ) (enc : List ℕ) where
  Takes-first : Takes (after_first 1) enc v → Takes read_encoded (to_bits 1 1 ++ enc) v
  unfolding read_encoded
  Takes-first t = Takes-bit 1 after_first enc v (omega arith) t

  Takes-second :
      (b : ℕ) → b < 2 → Takes (after_second b) enc v → Takes (after_first 1) (to_bits 1 b ++ enc) v
  unfolding after_first
  Takes-second b hb t = Takes-bit b after_second enc v hb t

  Takes-third :
      (b : ℕ) → b < 2 → Takes (after_third b) enc v → Takes (after_second 1) (to_bits 1 b ++ enc) v
  unfolding after_second
  Takes-third b hb t = Takes-bit b after_third enc v hb t

  Takes-fourth :
      (b : ℕ) → b < 2 → Takes (after_fourth b) enc v → Takes (after_third 1) (to_bits 1 b ++ enc) v
  unfolding after_third
  Takes-fourth b hb t = Takes-bit b after_fourth enc v hb t

module _ (v : ℕ) (hv : v < 2 ^ 64) where
  zero-Encodes : v ≡ 0 → Encodes v v
  unfolding write_encoded read_encoded
  zero-Encodes e = record {
    enc = to_bits 1 0;
    appends = λ w a. rw e (Appends-write 0 1 w a (omega arith) (omega arith));
    takes = λ r rest a h.
        let (r', got, a', h') = Takes-read_bit 0 (omega arith) r rest a h in
        (r', rw (got, e), a', h');
  }

  seven-Encodes : (v == 0) ≡ false → (le_s64 (neg64 63) v && le_s64 v 64) ≡ true → Encodes v v
  unfolding write_encoded after_second
  seven-Encodes t0 t1 =
      let x : ℕ = add64 v 0x3f % 2 ^ 7 in
      let enc : List ℕ = to_bits 1 0 ++ to_bits 7 x in
      record {
        enc = to_bits 1 1 ++ enc;
        appends = λ w a.
            rw (t0, t1, tagged 7 0x02 (add64 v 0x3f))
              (Appends-tagged 2 7 0x02 x (to_bits 1 1 ++ enc) w (prefix_two (to_bits 7 x))
                (omega arith) (omega arith) (omega arith) a);
        takes = Takes-first v enc (
            Takes-second v (to_bits 7 x) 0 (omega arith)
              (Takes-biased 7 0x3f x v (omega arith) (omega arith) (ground arith)));
      }

  nine-Encodes :
      (v == 0) ≡ false
      → (le_s64 (neg64 63) v && le_s64 v 64) ≡ false
      → (le_s64 (neg64 255) v && le_s64 v 256) ≡ true
      → Encodes v v
  unfolding write_encoded after_third
  nine-Encodes t0 t1 t2 =
      let x : ℕ = add64 v 0xff % 2 ^ 9 in
      let enc : List ℕ = to_bits 1 1 ++ (to_bits 1 0 ++ to_bits 9 x) in
      record {
        enc = to_bits 1 1 ++ enc;
        appends = λ w a.
            rw (t0, t1, t2, tagged 9 0x06 (add64 v 0xff))
              (Appends-tagged 3 9 0x06 x (to_bits 1 1 ++ enc) w (prefix_three (to_bits 9 x))
                (omega arith) (omega arith) (omega arith) a);
        takes = Takes-first v enc (
            Takes-second v (to_bits 1 0 ++ to_bits 9 x) 1 (omega arith) (
              Takes-third v (to_bits 9 x) 0 (omega arith)
                (Takes-biased 9 0xff x v (omega arith) (omega arith) (ground arith))));
      }

  twelve-Encodes :
      (v == 0) ≡ false
      → (le_s64 (neg64 63) v && le_s64 v 64) ≡ false
      → (le_s64 (neg64 255) v && le_s64 v 256) ≡ false
      → (le_s64 (neg64 2047) v && le_s64 v 2048) ≡ true
      → Encodes v v
  unfolding write_encoded after_fourth
  twelve-Encodes t0 t1 t2 t3 =
      let x : ℕ = add64 v 0x7ff % 2 ^ 12 in
      let enc : List ℕ = to_bits 1 1 ++ (to_bits 1 1 ++ (to_bits 1 0 ++ to_bits 12 x)) in
      record {
        enc = to_bits 1 1 ++ enc;
        appends = λ w a.
            rw (t0, t1, t2, t3, tagged 12 0x0e (add64 v 0x7ff))
              (Appends-tagged 4 12 0x0e x (to_bits 1 1 ++ enc) w (prefix_four (to_bits 12 x))
                (omega arith) (omega arith) (omega arith) a);
        takes = Takes-first v enc (
            Takes-second v (to_bits 1 1 ++ (to_bits 1 0 ++ to_bits 12 x)) 1 (omega arith) (
              Takes-third v (to_bits 1 0 ++ to_bits 12 x) 1 (omega arith) (
                Takes-fourth v (to_bits 12 x) 0 (omega arith)
                  (Takes-biased 12 0x7ff x v (omega arith) (omega arith) (ground arith)))));
      }

  widest-Encodes :
      (v == 0) ≡ false
      → (le_s64 (neg64 63) v && le_s64 v 64) ≡ false
      → (le_s64 (neg64 255) v && le_s64 v 256) ≡ false
      → (le_s64 (neg64 2047) v && le_s64 v 2048) ≡ false
      → Encodes v (sub64 (add64 v 0x7fff_ffff % 2 ^ 32) 0x7fff_ffff)
  unfolding write_encoded after_fourth
  widest-Encodes t0 t1 t2 t3 =
      let x : ℕ = add64 v 0x7fff_ffff % 2 ^ 32 in
      let out : ℕ = sub64 x 0x7fff_ffff in
      let enc : List ℕ = to_bits 1 1 ++ (to_bits 1 1 ++ (to_bits 1 1 ++ to_bits 32 x)) in
      record {
        enc = to_bits 1 1 ++ enc;
        appends = λ w a.
            rw (t0, t1, t2, t3, tagged 32 0x0f (add64 v 0x7fff_ffff))
              (Appends-tagged 4 32 0x0f x (to_bits 1 1 ++ enc) w (prefix_ones (to_bits 32 x))
                (omega arith) (omega arith) (omega arith) a);
        takes = Takes-first out enc (
            Takes-second out (to_bits 1 1 ++ (to_bits 1 1 ++ to_bits 32 x)) 1 (omega arith) (
              Takes-third out (to_bits 1 1 ++ to_bits 32 x) 1 (omega arith) (
                Takes-fourth out (to_bits 32 x) 1 (omega arith)
                  (Takes-biased 32 0x7fff_ffff x out (omega arith) (omega arith) refl))));
      }

widened :
    (v : ℕ)
    → v < 2 ^ 64
    → IsEncodable v
    → Encodes v (sub64 (add64 v 0x7fff_ffff % 2 ^ 32) 0x7fff_ffff)
    → Encodes v v
widened v hv fits e =
    let same : sub64 (add64 v 0x7fff_ffff % 2 ^ 32) 0x7fff_ffff ≡ v = omega arith in rw same at e

-- Every delta of deltas that fits the widest form is read back as it was written, in whichever of
-- the five forms its size selects; the reader takes exactly the bits that the writer appended.
pub encoded-Encodes : (v : ℕ) → v < 2 ^ 64 → IsEncodable v → Encodes v v
encoded-Encodes v hv fits = elim (Bool-cases (v == 0)) [
  | inl t0 ↦ zero-Encodes v hv ((==_iff v 0).0 t0)
  | inr t0 ↦ elim (Bool-cases (le_s64 (neg64 63) v && le_s64 v 64)) [
    | inl t1 ↦ seven-Encodes v hv t0 t1
    | inr t1 ↦ elim (Bool-cases (le_s64 (neg64 255) v && le_s64 v 256)) [
      | inl t2 ↦ nine-Encodes v hv t0 t1 t2
      | inr t2 ↦ elim (Bool-cases (le_s64 (neg64 2047) v && le_s64 v 2048)) [
        | inl t3 ↦ twelve-Encodes v hv t0 t1 t2 t3
        | inr t3 ↦ widened v hv fits (widest-Encodes v hv t0 t1 t2 t3)
      ]
    ]
  ]
]

-- A delta of deltas that does not fit the widest form is written in it all the same, and the reader
-- returns another one: the assertion before the last branch, `(value & ~(0xffffffffU)) == 0`,
-- complements a 32-bit word to zero, so it holds of every value and stops none.
pub encoded_too_wide :
    (v : ℕ) → v < 2 ^ 64 → ¬ IsEncodable v → (out : ℕ) × Encodes v out × (out ≢ v)
encoded_too_wide v hv wide =
    let out : ℕ = sub64 (add64 v 0x7fff_ffff % 2 ^ 32) 0x7fff_ffff in
    (
      out,
      widest-Encodes v hv (ground arith) (ground arith) (ground arith) (ground arith),
      λ e. wide (omega arith),
    )
