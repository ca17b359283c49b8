-- ===== src/BufferedWriter/Padding.antt =====
-- The padding that brings the buffer of a writer to an aligned offset.
use Prim.Native.Nat.{bit_and}
use tyrdbs.Prelude.{
  ℕ, ◌+◌, ◌-◌, ◌*◌, ◌/◌, ◌%◌, ◌^◌, ◌≤◌, ◌<◌, ◌≡◌, ◌≢◌, refl, sym, ap, ◌∙◌, Bool-cases, inl, inr,
  List, ◌++◌, append_assoc, arith, ◌==◌, ==_iff, length, replicate, length-replicate,
}
use native.Mathlib.Nat.{div-add-mod, mod-lt, mul-one, add-mul-mod_self_left, mul-mod_right}
use tyrdbs.Prelude.Bits.{bit_and-mask, pow2_pos}
use tyrdbs.Prelude.Memory.{load, store, load-store_behind}
use tyrdbs.BufferedWriter.{BufferedWriter, add_padding_to, add_alignment_to}
use tyrdbs.BufferedWriter.Bytes.{contents, sunk}

next_multiple : (x m : ℕ) → 0 < m → (x + (m - x % m)) % m ≡ 0
next_multiple x m h =
    let e : x + (m - x % m) ≡ m * (x / m) + m * 1 =
      omega (arith, div-add-mod x m, mod-lt x h, mul-one m) in
    ap (λ t. t % m) e ∙ add-mul-mod_self_left (m * (x / m)) m 1 ∙ mul-mod_right m (x / m)

padding-contents :
    (size : ℕ) (w : BufferedWriter)
    → w.buffer_offset ≤ size
    → contents (add_padding_to size w) ≡ contents w ++ replicate (size - w.buffer_offset) 0
unfolding contents add_padding_to
padding-contents size w h =
    let zeros : List ℕ = replicate (size - w.buffer_offset) 0 in
    ap (λ n. sunk w.sink ++ load (store w.buffer w.buffer_offset zeros) 0 n) {x = size}
      {y = w.buffer_offset + length zeros}
      (omega (arith, length-replicate {A = ℕ} (size - w.buffer_offset) 0))
    ∙ ap (λ t. sunk w.sink ++ t) (load-store_behind w.buffer w.buffer_offset zeros)
    ∙ sym (append_assoc (sunk w.sink) (load w.buffer 0 w.buffer_offset) zeros)

-- For an alignment that is a power of two, and a buffer of less than 2 ^ 32 bytes that has as many left
-- as the alignment: `add_alignment_to` appends fewer zero bytes than the alignment, and leaves the
-- buffer at a multiple of it.
pub alignment-contents :
    (k : ℕ) (w : BufferedWriter)
    → w.buffer_size < 2 ^ 32
    → w.buffer_offset + 2 ^ k ≤ w.buffer_size
    → (n : ℕ) × (n < 2 ^ k)
      × (contents (add_alignment_to (2 ^ k) w) ≡ contents w ++ replicate n 0)
      × ((add_alignment_to (2 ^ k) w).buffer_offset ≡ w.buffer_offset + n)
      × ((add_alignment_to (2 ^ k) w).buffer_offset % 2 ^ k ≡ 0)
unfolding add_alignment_to
alignment-contents k w narrow h =
    let m : ℕ = 2 ^ k in
    let x : ℕ = w.buffer_offset in
    let masked : bit_and x (m - 1) ≡ x % m = bit_and-mask k x in
    let below : x % m < m = mod-lt x (pow2_pos k) in
    elim (Bool-cases (x % m == 0)) [
      | inl e ↦
          rw (masked, e)
            (
              0,
              pow2_pos k,
              padding-contents x w (omega arith)
                  ∙ ap (λ n. contents w ++ replicate n 0) {x = x - x} {y = 0} (omega arith),
              omega arith,
              (==_iff (x % m) 0).0 e,
            )
      | inr e ↦
          let nonzero : x % m ≢ 0 = ground (arith, e) in
          let no_wrap : (x + (m - x % m)) % 2 ^ 32 ≡ x + (m - x % m) =
            omega (arith, h, narrow, below) in
          rw (masked, e, no_wrap)
            (
              m - x % m,
              omega (arith, nonzero, below),
              padding-contents (x + (m - x % m)) w (omega arith)
                  ∙ ap (λ n. contents w ++ replicate n 0) {x = x + (m - x % m) - x} {y = m - x % m}
                      (omega arith),
              refl,
              next_multiple x m (pow2_pos k),
            )
    ]
