-- ===== src/RingQueue/Refine.antt =====
-- A valid ring behaves as the list of its items, oldest first.
use Prim.Native.Nat.{bit_and}
use tyrdbs.Prelude.{
  ℕ, suc, ◌+◌, ◌-◌, ◌*◌, ◌%◌, ◌^◌, ◌≤◌, ◌<◌, ◌≡◌, ◌≢◌, ◌↔◌, refl, sym, ap, ◌∙◌, ◌⊎◌, inl, inr, true,
  false, some, List, [], ◌∷◌, ◌++◌, append-nil, append_assoc, arith, ◌==◌, ==_iff, leb,
  if◌then◌else◌, Bool-cases, dec_lt, length, get_elem?, set, take, drop, replicate, length-append,
  length-set, length-take, length-drop, length-replicate,
}
use native.Mathlib.Nat.{mod-eq_of_lt}
use tyrdbs.Prelude.Bits.{bit_and-mask, pow2_suc, pow2_pos}
use tyrdbs.RingQueue.{RingQueue, ring_queue, push, pop, peek, empty}
use tyrdbs.Prelude.Cuts.{
  take-all, drop-all, take-set, drop-set_below, drop-set_above, drop-cons, take-append_left,
  drop-append_exact, take-take_le,
}

-- The vector has a power of two of places, and the mask goes with it.
pub record IsValid {ℓ} {A : Type ℓ} (r : RingQueue A) : Type ℓ where
  pub log_size : ℕ
  pub size_eq : length r.queue ≡ 2 ^ log_size
  pub mask_eq : r.mask ≡ 2 ^ log_size - 1
  pub head_in : r.head < 2 ^ log_size
  pub tail_in : r.tail < 2 ^ log_size

-- One place further round the ring.
wrap_step :
    (k i m : ℕ)
    → m ≡ 2 ^ k - 1
    → i < 2 ^ k
    → ((i + 1 < 2 ^ k) × (bit_and (i + 1) m ≡ i + 1)) ⊎ ((i + 1 ≡ 2 ^ k) × (bit_and (i + 1) m ≡ 0))
wrap_step k i m e h =
    let b : bit_and (i + 1) m ≡ (i + 1) % 2 ^ k = ap (bit_and (i + 1)) e ∙ bit_and-mask k (i + 1) in
    elim (dec_lt (i + 1) (2 ^ k)) [
      | yes p ↦ inl (p, b ∙ grind arith)
      | no p ↦ inr (omega arith, b ∙ grind arith)
    ]

module _ {ℓ} {A : Type ℓ} where
  -- the items between `t` and `h`, going round at the end of `q`
  abbrev pub between : List A → ℕ → ℕ → List A
  between q t h = if leb t h then take (h - t) (drop t q) else drop t q ++ take h q

  unfoldable pub contents : RingQueue A → List A
  contents r = between r.queue r.tail r.head

  between-le : (q : List A) (t h : ℕ) → t ≤ h → between q t h ≡ take (h - t) (drop t q)
  between-le q t h p = let e : leb t h ≡ true = ground arith in rw e

  between-gt : (q : List A) (t h : ℕ) → h < t → between q t h ≡ drop t q ++ take h q
  between-gt q t h p = let e : leb t h ≡ false = ground arith in rw e

  -- a write at the head, before the head moves on, one place up
  extend_up :
      (q : List A) (t h : ℕ) (x : A)
      → t ≤ h
      → h < length q
      → take (suc (h - t)) (drop t (set q h x)) ≡ between q t h ++ (x ∷ [])
  extend_up q t h x p l =
      rw (drop-set_above t h x q p, between-le q t h p)
        (take-set (h - t) x (drop t q) (omega (arith, length-drop t q)))

  extend_round :
      (q : List A) (t h : ℕ) (x : A)
      → h < t
      → h < length q
      → drop t (set q h x) ++ take (suc h) (set q h x) ≡ between q t h ++ (x ∷ [])
  extend_round q t h x p l =
      rw (drop-set_below t h x q p, take-set h x q l, between-gt q t h p)
        (sym (append_assoc (drop t q) (take h q) (x ∷ [])))

  -- The vector after `reallocate` moved the block from `t` on to the end.
  module _ (q rep : List A) (t : ℕ) (ht : t ≤ length q) (hr : length rep ≡ length q) where
    abbrev moved : List A
    moved = take (t + length q) (q ++ rep) ++ drop t q

    length-kept : length (take (t + length q) (q ++ rep)) ≡ t + length q
    length-kept = omega (arith, length-take (t + length q) (q ++ rep), length-append q rep)

    length-moved : length moved ≡ length q * 2
    length-moved = omega (
      arith,
      length-append (take (t + length q) (q ++ rep)) (drop t q),
      length-kept,
      length-drop t q,
    )

    between-moved : 0 < length q → between moved (t + length q) t ≡ drop t q ++ take t q
    between-moved p =
        between-gt moved (t + length q) t (omega arith)
        ∙ rw (
          drop-append_exact (t + length q) (take (t + length q) (q ++ rep)) (drop t q)
              (sym length-kept),
          take-append_left t (take (t + length q) (q ++ rep)) (drop t q)
              (omega (arith, length-kept)),
          take-take_le t (t + length q) (q ++ rep) (omega arith),
          take-append_left t q rep ht,
        )

module _ {ℓ} {A : Type ℓ} (blank x : A) (r : RingQueue A) (v : IsValid r)
    (small : length r.queue < 2 ^ 31) where
  abbrev written : List A
  written = set r.queue r.head x

  length-written : length written ≡ 2 ^ v.log_size
  length-written = length-set r.queue r.head x ∙ v.size_eq

  -- what a push gives
  Pushed : RingQueue A → Type ℓ
  Pushed r' = IsValid r' × (contents r' ≡ contents r ++ (x ∷ []))

  not_full : (bit_and (r.head + 1) r.mask == r.tail) ≡ false → Pushed (push blank x r)
  unfolding Pushed push contents
  not_full e =
      let k : ℕ = v.log_size in
      let head_lt : r.head < length r.queue = omega (arith, v.size_eq, v.head_in) in
      rw e (elim (wrap_step k r.head r.mask v.mask_eq v.head_in) [
        | inl (room, next) ↦
            let ne : r.head + 1 ≢ r.tail = ground (arith, next, e) in
            rw next (
              record {
                log_size = k;
                size_eq = length-written;
                mask_eq = v.mask_eq;
                head_in = room;
                tail_in = v.tail_in;
              },
              elim (dec_lt r.head r.tail) [
                | yes p ↦
                    between-gt written r.tail (r.head + 1) (omega arith)
                    ∙ ap (λ n. drop r.tail written ++ take n written) {y = suc r.head} (omega arith)
                    ∙ extend_round r.queue r.tail r.head x p head_lt
                | no p ↦
                    between-le written r.tail (r.head + 1) (omega arith)
                    ∙ ap (λ n. take n (drop r.tail written)) {y = suc (r.head - r.tail)}
                        (omega arith)
                    ∙ extend_up r.queue r.tail r.head x (omega arith) head_lt
              ],
            )
        | inr (end, next) ↦
            let ne : 0 ≢ r.tail = ground (arith, next, e) in
            let up : r.tail ≤ r.head = omega (arith, v.tail_in) in
            rw next (
              record {
                log_size = k;
                size_eq = length-written;
                mask_eq = v.mask_eq;
                head_in = pow2_pos k;
                tail_in = v.tail_in;
              },
              between-gt written r.tail 0 (omega arith)
                  ∙ append-nil (drop r.tail written)
                  ∙ sym (
                      take-all (suc (r.head - r.tail)) (drop r.tail written)
                        (omega (arith, length-drop r.tail written, length-written)))
                  ∙ extend_up r.queue r.tail r.head x up head_lt,
            )
      ])

  full : (bit_and (r.head + 1) r.mask == r.tail) ≡ true → Pushed (push blank x r)
  unfolding Pushed push contents
  full e =
      let k : ℕ = v.log_size in
      let at_tail : bit_and (r.head + 1) r.mask ≡ r.tail = (==_iff _ r.tail).0 e in
      let len : length written ≡ 2 ^ k = length-written in
      let head_lt : r.head < length r.queue = omega (arith, v.size_eq, v.head_in) in
      let rep : List A = replicate (length written * 2 - length written) blank in
      let len_rep : length rep ≡ length written =
        length-replicate (length written * 2 - length written) blank ∙ omega arith in
      let size' : 2 ^ suc k ≡ 2 * 2 ^ k = pow2_suc k in
      let mask' : length written * 2 - 1 ≡ 2 ^ suc k - 1 = omega (arith, size', len) in
      let next' : (i : ℕ) → i < 2 ^ suc k → bit_and i (length written * 2 - 1) ≡ i =
        λ i h. ap (bit_and i) mask' ∙ bit_and-mask (suc k) i ∙ mod-eq_of_lt h in
      let inside : bit_and (r.head + 1) (length written * 2 - 1) ≡ r.head + 1 =
        next' (r.head + 1) (omega (arith, size', v.head_in)) in
      let short : length written < 2 ^ 31 = omega (arith, length-set r.queue r.head x, small) in
      let old : length written % 2 ^ 32 ≡ length written = omega arith in
      let wrap : length written * 2 % 2 ^ 32 ≡ length written * 2 = omega arith in
      let kept : take (length written * 2) written ≡ written =
        take-all (length written * 2) written (omega arith) in
      let low : (length written * 2 + (2 ^ 32 - 1)) % 2 ^ 32 ≡ length written * 2 - 1 =
        omega (arith, len, pow2_pos k) in
      rw e (elim (wrap_step k r.head r.mask v.mask_eq v.head_in) [
        | inl (room, next) ↦
            let here : r.tail ≡ r.head + 1 = sym at_tail ∙ next in
            let test : (r.tail == r.head + 1) ≡ true = (==_iff r.tail (r.head + 1)).1 here in
            rw (test, old, wrap, kept, low, inside)
              (
                record {
                  log_size = suc k;
                  size_eq =
                      length-moved written rep r.tail (omega (arith, v.tail_in, len)) len_rep
                      ∙ omega (arith, size', len);
                  mask_eq = mask';
                  head_in = omega (arith, size', v.head_in);
                  tail_in = omega (arith, size', v.tail_in, len);
                },
                ap
                      (between (moved written rep r.tail (omega (arith, v.tail_in, len)) len_rep)
                        (r.tail + length written))
                      (sym here)
                    ∙ between-moved written rep r.tail (omega (arith, v.tail_in, len)) len_rep
                        (omega (arith, len, pow2_pos k))
                    ∙ ap (λ n. drop r.tail written ++ take n written) {y = suc r.head}
                        (omega (arith, here))
                    ∙ extend_round r.queue r.tail r.head x (omega (arith, here)) head_lt,
              )
        | inr (end, next) ↦
            let zero_tail : r.tail ≡ 0 = sym at_tail ∙ next in
            let test : (r.tail == r.head + 1) ≡ false = ground (arith, zero_tail) in
            rw (test, old, wrap, kept, low, inside)
              (
                record {
                  log_size = suc k;
                  size_eq = omega (arith, length-append written rep, len_rep, size', len);
                  mask_eq = mask';
                  head_in = omega (arith, size', v.head_in);
                  tail_in = omega (arith, size', v.tail_in);
                },
                ap (λ t. between (written ++ rep) t (r.head + 1)) zero_tail
                    ∙ between-le (written ++ rep) 0 (r.head + 1) (omega arith)
                    ∙ ap (λ n. take n (written ++ rep)) {x = r.head + 1 - 0} {y = r.head + 1}
                        (omega arith)
                    ∙ take-append_left (r.head + 1) written rep (omega (arith, end, len))
                    ∙ ap (λ n. take n written) {x = r.head + 1} {y = suc (r.head - 0)} (omega arith)
                    ∙ extend_up r.queue 0 r.head x (omega arith) head_lt
                    ∙ ap (λ t. between r.queue t r.head ++ (x ∷ [])) (sym zero_tail),
              )
      ])

  -- With fewer than 2 ^ 31 places, `push` appends its item behind all others and keeps the queue
  -- valid, whether there is room, the indices go round, or the vector has to double with its items
  -- in one block or in two.
  pub push-contents :
      IsValid (push blank x r) × (contents (push blank x r) ≡ contents r ++ (x ∷ []))
  unfolding Pushed
  push-contents = elim (Bool-cases (bit_and (r.head + 1) r.mask == r.tail)) [
    | inl e ↦ full e
    | inr e ↦ not_full e
  ]

module _ {ℓ} {A : Type ℓ} (r : RingQueue A) (v : IsValid r) where
  -- The item at the tail is the first of the contents.
  front :
      r.head ≢ r.tail
      → (x : A) × (get_elem? r.queue r.tail ≡ some x)
        × (contents r ≡ x ∷ between r.queue (bit_and (r.tail + 1) r.mask) r.head)
  unfolding contents
  front ne =
      let k : ℕ = v.log_size in
      let (x, got, cut) = drop-cons r.tail r.queue (omega (arith, v.tail_in, v.size_eq)) in
      (
        x,
        got,
        elim (wrap_step k r.tail r.mask v.mask_eq v.tail_in) [
          | inl (room, next) ↦ rw next (elim (dec_lt r.head r.tail) [
            | yes p ↦
                between-gt r.queue r.tail r.head p
                ∙ rw cut (
                    ap (λ t. x ∷ t)
                      (ap (λ n. drop n r.queue ++ take r.head r.queue) {x = suc r.tail}
                          {y = r.tail + 1} (omega arith)
                        ∙ sym (between-gt r.queue (r.tail + 1) r.head (omega arith))))
            | no p ↦
                between-le r.queue r.tail r.head (omega arith)
                ∙ ap (λ n. take n (drop r.tail r.queue)) {x = r.head - r.tail}
                    {y = suc (r.head - (r.tail + 1))} (omega (arith, ne))
                ∙ rw cut (
                    ap (λ t. x ∷ t)
                      (ap (λ n. take (r.head - (r.tail + 1)) (drop n r.queue)) {x = suc r.tail}
                          {y = r.tail + 1} (omega arith)
                        ∙ sym (between-le r.queue (r.tail + 1) r.head (omega (arith, ne)))))
          ])
          | inr (end, next) ↦ rw next (
              between-gt r.queue r.tail r.head (omega (arith, ne, v.head_in))
              ∙ rw cut (
                  ap (λ t. x ∷ t)
                    (ap (λ t. t ++ take r.head r.queue)
                        (drop-all (suc r.tail) r.queue (omega (arith, end, v.size_eq)))
                      ∙ ap (λ n. take n r.queue) {x = r.head} {y = r.head - 0} (omega arith)
                      ∙ sym (between-le r.queue 0 r.head (omega arith)))))
        ],
      )

  -- `pop` of a queue that is not empty returns the item that was pushed first and leaves the
  -- others in order; `peek` returns the same item.
  pub pop-contents :
      r.head ≢ r.tail
      → (x : A) × (peek r ≡ some x)
        × ((pop r).0 ≡ some x)
        × IsValid (pop r).1
        × (contents r ≡ x ∷ contents (pop r).1)
  unfolding pop peek contents
  pop-contents ne =
      let (x, got, c) = front ne in
      let next : bit_and (r.tail + 1) r.mask < 2 ^ v.log_size =
        elim (wrap_step v.log_size r.tail r.mask v.mask_eq v.tail_in) [
          | inl (room, e) ↦ omega (arith, room, e)
          | inr (end, e) ↦ omega (arith, e, pow2_pos v.log_size)
        ] in
      (
        x,
        got,
        got,
        record {
          log_size = v.log_size;
          size_eq = v.size_eq;
          mask_eq = v.mask_eq;
          head_in = v.head_in;
          tail_in = next;
        },
        c,
      )

  -- `empty` tells whether there are items.
  pub empty-contents : (empty r ≡ true) ↔ (contents r ≡ [])
  unfolding empty contents
  empty-contents = elim (Bool-cases (r.head == r.tail)) [
    | inl e ↦
        let same : r.head ≡ r.tail = (==_iff r.head r.tail).0 e in
        (
          (λ _.
              between-le r.queue r.tail r.head (omega arith)
              ∙ ap (λ n. take n (drop r.tail r.queue)) {x = r.head - r.tail} {y = 0} (omega arith)),
          λ _. rw e,
        )
    | inr e ↦
        let ne : r.head ≢ r.tail = ground arith in
        let (x, got, c) = front ne in ((λ h. (let h' : false ≡ true = rw e at h in cc)), λ h. cc c)
  ]

pub ring_queue-contents {ℓ} :
    {A : Type ℓ} (blank : A) → IsValid (ring_queue blank) × (contents (ring_queue blank) ≡ [])
unfolding ring_queue contents
ring_queue-contents blank = (
  record {
    log_size = 2;
    size_eq = refl;
    mask_eq = refl;
    head_in = omega arith;
    tail_in = omega arith;
  },
  refl,
)
