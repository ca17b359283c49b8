-- ===== src/Gorilla/Value.antt =====
-- The three forms of a value: each is read back as it was written.
use Prim.Native.Nat.{bit_and, bit_or, bit_xor}
use native.Mathlib.Nat.{div-le_self}
use tyrdbs.Prelude.{
  ℕ, ◌+◌, ◌-◌, ◌*◌, ◌/◌, ◌%◌, ◌^◌, ◌≤◌, ◌<◌, ◌≡◌, refl, sym, ap, ◌∙◌, ◌⊎◌, inl, inr, true, false,
  ◌&&◌, some, List, ◌++◌, append_assoc, arith, ◌==◌, ==_iff, leb, Bool-cases,
}
use tyrdbs.Prelude.Bits.{bit_or-disjoint, bit_and-mask, bit_xor-zero}
use tyrdbs.Prelude.Words.{none32}
use tyrdbs.BitStream.{BitWriter, BitReader, write, read, read_bit}
use tyrdbs.BitStream.Digits.{to_bits, to_bits_join}
use tyrdbs.BitStream.Write.{IsAligned, content}
use tyrdbs.BitStream.Read.{IsReady, remaining}
use tyrdbs.Gorilla.{
  GorillaWriter, GorillaReader, clz, ctz, write_nibbles, write_xor, reuse_control, load_control,
  load_xor,
}
use tyrdbs.Gorilla.Codec.{Appends, Appends-write, Appends-trans, Takes-read, Takes-read_bit}
use tyrdbs.Gorilla.Nibbles.{IsWindow, window}

-- The reader's size and place are those of the writer's last window, if it has one.
abbrev pub SameWindow : ℕ → ℕ → ℕ → ℕ → Type 0
SameWindow lc lt size place =
    ((lc ≡ none32) × (lt ≡ none32)) ⊎ ((lc + lt ≤ 15) × (size ≡ 16 - (lc + lt)) × (place ≡ lt))

-- What `load_xor` gives before the bits of the word `x`, where the writer goes on from `g'`.
pub record Loaded (x : ℕ) (g' : GorillaWriter) (rest : List ℕ) (h : GorillaReader) : Type 0 where
  pub size : ℕ
  pub place : ℕ
  pub reader : BitReader
  pub returned :
      load_xor h
      ≡ some
          (record h { value = bit_xor h.value x; value_size = size; ctz = place; reader = reader })
  pub same : SameWindow g'.last_clz g'.last_ctz size place
  pub ready : IsReady reader
  pub left : remaining reader ≡ rest

-- The bits of the word `x` as `write_xor` writes it, and what `load_xor` makes of them.
pub record Carries (x : ℕ) (g g' : GorillaWriter) : Type 0 where
  pub enc : List ℕ
  pub appends : IsAligned g.writer → Appends g.writer g'.writer enc
  pub loads :
      (h : GorillaReader) (rest : List ℕ)
      → SameWindow g.last_clz g.last_ctz h.value_size h.ctz
      → IsReady h.reader
      → remaining h.reader ≡ enc ++ rest
      → Loaded x g' rest h

-- The nibbles of `x`, shifted back to their place.
nibbles_back :
    (lc lt x : ℕ) → IsWindow lc lt x → x < 2 ^ 64 → x / 2 ^ (lt * 4) * 2 ^ (lt * 4) % 2 ^ 64 ≡ x
nibbles_back lc lt x w h = omega (arith, w.back)

-- A window of at most 15 zero nibbles is one that the reader has.
have_window :
    (lc lt size place : ℕ)
    → lc + lt ≤ 15
    → SameWindow lc lt size place
    → (size ≡ 16 - (lc + lt)) × (place ≡ lt)
have_window lc lt size place h (inl s) = absurd (omega (arith, s.0, h))
have_window lc lt size place h (inr s) = (s.1, s.2)

-- The two bits of a control, one by one.
two_bits :
    (b : ℕ) (xs rest : List ℕ)
    → b < 2
    → to_bits 2 (2 + b) ++ xs ++ rest ≡ to_bits 1 1 ++ (to_bits 1 b ++ (xs ++ rest))
two_bits b xs rest h = rw (to_bits_join 1 1 1 b h) (
    append_assoc (to_bits 1 1 ++ to_bits 1 b) xs rest
    ∙ append_assoc (to_bits 1 1) (to_bits 1 b) (xs ++ rest))

-- The control word of a new window, its fields side by side.
control_word :
    (l n : ℕ)
    → l < 16
    → n < 32
    → bit_or (bit_or (0x03 * 2 ^ 9) (l * 2 ^ 5)) n ≡ 3 * 2 ^ 9 + (l * 2 ^ 5 + n)
control_word l n hl hn =
    ap (λ t. bit_or t n) (bit_or-disjoint 9 3 (l * 2 ^ 5) (omega arith))
    ∙ ap (λ t. bit_or t n) (let e : 3 * 2 ^ 9 + l * 2 ^ 5 ≡ (48 + l) * 2 ^ 5 = omega arith in e)
    ∙ bit_or-disjoint 5 (48 + l) n hn
    ∙ omega arith

-- How `load_xor` goes when there are nibbles to read.
module _ (h g : GorillaReader) (x : ℕ) (r r' : BitReader) where
  load_xor-some :
      read_bit h.reader ≡ some (1, r)
      → load_control (record h { reader = r }) ≡ some g
      → read (g.value_size * 4) g.reader ≡ some (x, r')
      → load_xor h
        ≡ some (record g { value = bit_xor g.value (x * 2 ^ (g.ctz * 4) % 2 ^ 64); reader = r' })
  unfolding load_xor
  load_xor-some e1 e2 e3 = ground arith

module _ (h : GorillaReader) (r : BitReader) where
  load_control-reuse :
      read_bit h.reader ≡ some (0, r)
      → h.value_size ≤ 16
      → h.ctz ≤ 16
      → load_control h ≡ some (record h { reader = r })
  unfolding load_control reuse_control
  load_control-reuse e hs hc = ground arith

  load_control-fresh :
      (r' : BitReader) (l c : ℕ)
      → l + c ≤ 15
      → read_bit h.reader ≡ some (1, r)
      → read 9 r ≡ some (l * 2 ^ 5 + (16 - (l + c)), r')
      → load_control h ≡ some (record h { value_size = 16 - (l + c); ctz = c; reader = r' })
  unfolding load_control
  load_control-fresh r' l c room e1 e2 =
      let ctrl : ℕ = l * 2 ^ 5 + (16 - (l + c)) in
      let size : bit_and ctrl 0x1f ≡ 16 - (l + c) = bit_and-mask 5 ctrl ∙ omega arith in
      let place : (16 + 2 ^ 32 - (ctrl / 2 ^ 5 + (16 - (l + c)))) % 2 ^ 32 ≡ c = omega arith in
      ground (arith, size, place)

module _ (x : ℕ) (hx : x < 2 ^ 64) (g : GorillaWriter) where
  zero-Carries : x ≡ 0 → Carries x g (write_xor x g)
  unfolding write_xor load_xor
  zero-Carries e =
      let t : (x == 0) ≡ true = (==_iff x 0).1 e in
      rw t (record {
        enc = to_bits 1 0;
        appends = λ a. Appends-write 0 1 g.writer a (omega arith) (omega arith);
        loads = λ h rest s a l.
            let (r, got, a', l') = Takes-read_bit 0 (omega arith) h.reader rest a l in
            record {
              size = none32;
              place = none32;
              reader = r;
              returned = rw (got, e, bit_xor-zero);
              same = inl (refl, refl);
              ready = a';
              left = l';
            };
      })

  -- The control `10` and the nibbles of the window before.
  reuse-Carries :
      (x == 0) ≡ false
      → (leb g.last_clz (clz x / 4) && leb g.last_ctz (ctz x / 4)) ≡ true
      → IsWindow g.last_clz g.last_ctz x
      → Carries x g (write_xor x g)
  unfolding write_xor
  reuse-Carries t0 t1 w =
      let lc : ℕ = g.last_clz in
      let lt : ℕ = g.last_ctz in
      let s : ℕ = (16 - (lc + lt)) * 4 in
      let y : ℕ = x / 2 ^ (lt * 4) in
      let fits : y < 2 ^ 64 = omega (arith, div-le_self x (2 ^ (lt * 4))) in
      rw (t0, t1)
        (record {
          enc = to_bits 2 0x02 ++ to_bits s y;
          appends = λ a.
              let p = Appends-write 0x02 2 g.writer a (omega arith) (omega arith) in
              Appends-trans g.writer (write 0x02 2 g.writer) _ (to_bits 2 0x02) (to_bits s y) p
                (Appends-write y s (write 0x02 2 g.writer) p.0 fits (omega arith));
          loads = λ h rest same a l.
              let (size_eq, place_eq) = have_window lc lt h.value_size h.ctz w.room same in
              let at_size : (16 - (lc + lt)) * 4 ≡ h.value_size * 4 = omega (arith, size_eq) in
              let (r1, got1, a1, l1) =
                Takes-read_bit 1 (omega arith) h.reader (to_bits 1 0 ++ (to_bits s y ++ rest)) a
                  (l ∙ two_bits 0 (to_bits s y) rest (omega arith)) in
              let (r2, got2, a2, l2) =
                Takes-read_bit 0 (omega arith) r1 (to_bits s y ++ rest) a1 l1 in
              let (r3, got3, a3, l3) = Takes-read s y (omega arith) w.size_in r2 rest a2 l2 in
              let control =
                load_control-reuse (record h { reader = r1 }) r2 got2 (omega (arith, size_eq))
                  (omega (arith, place_eq, w.room)) in
              let g3 : GorillaReader = record h { reader = r2 } in
              let nibbles = nibbles_back lc lt x w hx in
              record {
                size = h.value_size;
                place = h.ctz;
                reader = r3;
                returned =
                    load_xor-some h g3 y r1 r3 got1 control
                      (ap (λ t. read t r2) (sym at_size) ∙ got3)
                    ∙ ap (λ t. some (record h { value = bit_xor h.value t; reader = r3 }))
                        (ap (λ t. y * 2 ^ (t * 4) % 2 ^ 64) place_eq ∙ nibbles);
                same = same;
                ready = a3;
                left = l3;
              };
        })

  -- The control `11`, the leading zeros and the size of a new window, and its nibbles.
  fresh-Carries :
      (x == 0) ≡ false
      → (leb g.last_clz (clz x / 4) && leb g.last_ctz (ctz x / 4)) ≡ false
      → IsWindow (clz x / 4) (ctz x / 4) x
      → Carries x g (write_xor x g)
  unfolding write_xor write_nibbles
  fresh-Carries t0 t1 w =
      let lc : ℕ = clz x / 4 in
      let lt : ℕ = ctz x / 4 in
      let n : ℕ = 16 - (lc + lt) in
      let ctrl : ℕ = lc * 2 ^ 5 + n in
      let y : ℕ = x / 2 ^ (lt * 4) in
      let fits : y < 2 ^ 64 = omega (arith, div-le_self x (2 ^ (lt * 4))) in
      let word = control_word lc n (omega (arith, w.room)) (omega (arith, w.room)) in
      let bits : to_bits 11 (3 * 2 ^ 9 + ctrl) ≡ to_bits 2 (2 + 1) ++ to_bits 9 ctrl =
        to_bits_join 2 9 3 ctrl (omega (arith, w.room)) in
      let wr : BitWriter = write (3 * 2 ^ 9 + ctrl) 11 g.writer in
      rw (t0, t1, word)
        (record {
          enc = to_bits 2 (2 + 1) ++ to_bits 9 ctrl ++ to_bits (n * 4) y;
          appends = λ a.
              let p =
                Appends-write (3 * 2 ^ 9 + ctrl) 11 g.writer a (omega (arith, w.room))
                  (omega arith) in
              let p' : Appends g.writer wr (to_bits 2 (2 + 1) ++ to_bits 9 ctrl) =
                (p.0, p.1 ∙ ap (λ t. content g.writer ++ t) bits) in
              Appends-trans g.writer wr _ (to_bits 2 (2 + 1) ++ to_bits 9 ctrl) (to_bits (n * 4) y)
                p' (Appends-write y (n * 4) wr p.0 fits (omega arith));
          loads = λ h rest same a l.
              let more : List ℕ = to_bits (n * 4) y ++ rest in
              let (r1, got1, a1, l1) =
                Takes-read_bit 1 (omega arith) h.reader (to_bits 1 1 ++ (to_bits 9 ctrl ++ more)) a
                  (l
                    ∙ append_assoc (to_bits 2 (2 + 1) ++ to_bits 9 ctrl) (to_bits (n * 4) y) rest
                    ∙ two_bits 1 (to_bits 9 ctrl) more (omega arith)) in
              let (r2, got2, a2, l2) =
                Takes-read_bit 1 (omega arith) r1 (to_bits 9 ctrl ++ more) a1 l1 in
              let (r3, got3, a3, l3) =
                Takes-read 9 ctrl (omega arith) (omega (arith, w.room)) r2 more a2 l2 in
              let (r4, got4, a4, l4) = Takes-read (n * 4) y (omega arith) w.size_in r3 rest a3 l3 in
              let control =
                load_control-fresh (record h { reader = r1 }) r2 r3 lc lt w.room got2 got3 in
              let g4 : GorillaReader = record h { value_size = n; ctz = lt; reader = r3 } in
              record {
                size = n;
                place = lt;
                reader = r4;
                returned =
                    load_xor-some h g4 y r1 r4 got1 control got4
                    ∙ ap (λ t. some (record g4 { value = bit_xor h.value t; reader = r4 }))
                        (nibbles_back lc lt x w hx);
                same = inr (w.room, refl, refl);
                ready = a4;
                left = l4;
              };
        })

-- Whatever the window before, the reader makes of the bits that `write_xor` appends the very word,
-- and both sides go on with the same window.
pub xor-Carries : (x : ℕ) (g : GorillaWriter) → x < 2 ^ 64 → Carries x g (write_xor x g)
xor-Carries x g hx = elim (Bool-cases (x == 0)) [
  | inl t0 ↦ zero-Carries x hx g ((==_iff x 0).0 t0)
  | inr t0 ↦
      let p : 0 < x = ground arith in
      elim (Bool-cases (leb g.last_clz (clz x / 4) && leb g.last_ctz (ctz x / 4))) [
        | inl t1 ↦
            reuse-Carries x hx g t0 t1
              (window x g.last_clz g.last_ctz hx p (ground arith) (ground arith))
        | inr t1 ↦
            fresh-Carries x hx g t0 t1
              (window x (clz x / 4) (ctz x / 4) hx p (omega arith) (omega arith))
      ]
]
