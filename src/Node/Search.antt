-- ===== src/Node/Search.antt =====
-- The search for a key in a node whose keys ascend.
use tyrdbs.Prelude.{
  ℕ, zero, suc, ◌+◌, ◌-◌, ◌/◌, ◌≤◌, ◌<◌, ◌≡◌, refl, ap, ◌∙◌, inl, inr, true, false, some, List,
  Bool-cases, arith, ltb,
}
use tyrdbs.Keys.{le_key, le_key_trans, le_key_refl}
use tyrdbs.Node.{Node, key_at, key_count, halve, scan, lower_bound}

-- The keys of the node ascend, equal ones side by side.
abbrev pub IsSorted : Node → Type 0
IsSorted n = (i : ℕ) → i + 1 < key_count n → le_key (key_at n i) (key_at n (i + 1)) ≡ true

module _ (n : Node) (sorted : IsSorted n) where
  sorted_upto : (d i : ℕ) → i + d < key_count n → le_key (key_at n i) (key_at n (i + d)) ≡ true
  sorted_upto zero i h =
      ap (λ j. le_key (key_at n i) (key_at n j)) {x = i + 0} {y = i} (omega arith)
      ∙ le_key_refl (key_at n i)
  sorted_upto (suc d) i h = le_key_trans _ (key_at n (i + d)) _ (sorted_upto d i (omega arith)) (
      ap (λ j. le_key (key_at n (i + d)) (key_at n j)) {x = i + suc d} {y = i + d + 1} (omega arith)
      ∙ sorted (i + d) (omega arith))

  module _ (key : List ℕ) where
    -- every key before `i` is below the one that is searched
    abbrev AllBelow : ℕ → Type 0
    AllBelow i = (j : ℕ) → j < i → le_key key (key_at n j) ≡ false

    -- the key at `i`, if there is one, is not
    abbrev NotBelow : ℕ → Type 0
    NotBelow i = i < key_count n → le_key key (key_at n i) ≡ true

    -- One key below the searched one has only such keys before it.
    below : (i : ℕ) → i < key_count n → le_key key (key_at n i) ≡ false → AllBelow (i + 1)
    below i h e j l = elim (Bool-cases (le_key key (key_at n j))) [
      | inr low ↦ low
      | inl up_to ↦
          let up : le_key (key_at n j) (key_at n i) ≡ true =
            ap (λ t. le_key (key_at n j) (key_at n t)) {x = i} {y = j + (i - j)} (omega arith)
            ∙ sorted_upto (i - j) j (omega arith) in
          cc (e, le_key_trans key (key_at n j) (key_at n i) up_to up)
    ]

    record Brackets (start end : ℕ) : Type 0 where
      order : start ≤ end
      inside : end ≤ key_count n
      lower : AllBelow start
      upper : NotBelow end

    -- what the halving leaves
    abbrev Halved : ℕ → ℕ → ℕ → Type 0
    Halved fuel start end =
        (cut : ℕ × ℕ) × (halve n key fuel start end ≡ some cut) × Brackets cut.0 cut.1

    halve-Brackets :
        (fuel start end : ℕ) → end - start ≤ fuel → Brackets start end → Halved fuel start end
    unfolding halve
    halve-Brackets zero start end h b =
        let near : ltb 8 (end - start) ≡ false = ground (arith, h) in
        rw near ((start, end), refl, b)
    halve-Brackets (suc fuel) start end h b = elim (Bool-cases (ltb 8 (end - start))) [
      | inr e ↦ rw e ((start, end), refl, b)
      | inl e ↦
          let ndx : ℕ = (end - start) / 2 + start in
          let far : 8 < end - start = ground arith in
          let ndx_in : ndx < key_count n = omega (arith, far, b.inside) in
          rw e (elim (Bool-cases (le_key key (key_at n ndx))) [
            | inl c ↦ rw c (
                halve-Brackets fuel start ndx (omega arith) (record {
                  order = omega arith;
                  inside = omega arith;
                  lower = b.lower;
                  upper = λ _. c;
                }))
            | inr c ↦ rw c (
                halve-Brackets fuel ndx end (omega arith) (record {
                  order = omega (arith, far);
                  inside = b.inside;
                  lower = λ j l. below ndx ndx_in c j (omega arith);
                  upper = b.upper;
                }))
          ])
    ]

    scan-first :
        (rounds start end : ℕ)
        → Brackets start end
        → end - start ≡ rounds
        → AllBelow (scan n key rounds start end)
          × NotBelow (scan n key rounds start end)
          × (scan n key rounds start end ≤ key_count n)
    unfolding scan
    scan-first zero start end b e =
        ((λ j l. b.lower j (omega (arith, e, b.order, l))), b.upper, b.inside)
    scan-first (suc rounds) start end b e =
        let start_in : start < key_count n = omega (arith, e, b.order, b.inside) in
        elim (Bool-cases (le_key key (key_at n start))) [
          | inl c ↦ rw c (b.lower, (λ _. c), omega arith)
          | inr c ↦ rw c (
              scan-first rounds (start + 1) end
                (record {
                  order = omega (arith, e);
                  inside = b.inside;
                  lower = below start start_in c;
                  upper = b.upper;
                })
                (omega arith))
        ]

    -- In a node whose keys ascend, `lower_bound` returns the first index whose key is not below
    -- the searched one, and the number of keys when there is none: every key before the index
    -- is below the searched one, and the key at the index, if there is one, is not. The halving does
    -- not run out of fuel.
    pub lower_bound-first :
        (first : ℕ) × (lower_bound n key ≡ some first)
        × (first ≤ key_count n)
        × ((j : ℕ) → j < first → le_key key (key_at n j) ≡ false)
        × (first < key_count n → le_key key (key_at n first) ≡ true)
    unfolding lower_bound
    lower_bound-first =
        let whole : Brackets 0 (key_count n) = record {
          order = omega arith;
          inside = omega arith;
          lower = λ j l. absurd (omega arith);
          upper = λ l. absurd (omega arith);
        } in
        let (cut, halved, brackets) =
          halve-Brackets (key_count n) 0 (key_count n) (omega arith) whole in
        let (lower, upper, inside) = scan-first (cut.1 - cut.0) cut.0 cut.1 brackets refl in
        (
          scan n key (cut.1 - cut.0) cut.0 cut.1,
          rw (lower_bound, halved) refl,
          inside,
          lower,
          upper,
        )

-- In any node, and from any two ends that are not further apart than the fuel, the halving ends: it
-- does not run out of fuel, and leaves at most eight keys for the scan.
pub halve_end :
    (n : Node) (key : List ℕ) (fuel start end : ℕ)
    → end - start ≤ fuel
    → (cut : ℕ × ℕ) × (halve n key fuel start end ≡ some cut) × (cut.1 - cut.0 ≤ 8)
unfolding halve
halve_end n key zero start end h =
    let near : ltb 8 (end - start) ≡ false = ground (arith, h) in
    rw near ((start, end), refl, omega (arith, h))
halve_end n key (suc fuel) start end h = elim (Bool-cases (ltb 8 (end - start))) [
  | inr e ↦ rw e ((start, end), refl, ground (arith, e))
  | inl e ↦
      let far : 8 < end - start = ground arith in
      rw e (elim (Bool-cases (le_key key (key_at n ((end - start) / 2 + start)))) [
        | inl c ↦ rw c (halve_end n key fuel start ((end - start) / 2 + start) (omega arith))
        | inr c ↦ rw c (halve_end n key fuel ((end - start) / 2 + start) end (omega arith))
      ])
]
