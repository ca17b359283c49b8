-- ===== src/SliceWriter/Order.antt =====
-- Which entries a slice writer takes, and the order of the keys of those it took.
use Prim.Native.Nat.{Ordering}
use tyrdbs.Prelude.{
  ℕ, zero, suc, ◌<◌, ◌≡◌, ◌≢◌, ◌↔◌, refl, sym, ap, ◌∙◌, ◌⊎◌, inl, inr, Bool, true, false, List, [],
  ◌∷◌, arith, ◌==◌, ltb, length, Bool-cases, some, get_elem?,
}
use mathlib.Core.Path.{subst}
use mathlib.Core.Option.{some-injective}
use tyrdbs.Keys.{
  compare_keys, le_key, compare_keys-eq, compare_keys_refl, above-le_key, le_key_refl,
}
use tyrdbs.Node.{max_key_size}
use tyrdbs.SliceWriter.{
  SliceEntry, LastEntry, InvalidData, Checked, throws, new_key, order_fault, attributes_fault,
  differs, check, remember,
}

-- The key continues the record of the last one, or starts a new one behind it.
abbrev pub Follows : SliceEntry → LastEntry → Type 0
Follows e w =
    ((compare_keys e.key w.last_key ≡ Ordering.gt) × (w.last_eor ≡ true))
    ⊎ ((e.key ≡ w.last_key) × (w.last_eor ≡ false) × (e.deleted ≡ false))

-- What the writer lets through.
pub record IsAllowed (e : SliceEntry) (w : LastEntry) : Type 0 where
  pub some_key : 0 < length e.key
  pub short_key : length e.key < max_key_size
  pub follows : (w.last_key ≡ []) ⊎ Follows e w
  pub whole_deletion : e.deleted ≡ true → (e.eor ≡ true) × (e.value ≡ [])

nil_of_length : {A : Type 0} (xs : List A) → (length xs == 0) ≡ true → xs ≡ []
nil_of_length [] h = refl
nil_of_length (x ∷ xs) h = absurd (ground arith)

-- What the test of the attributes lets through.
attributes_allowed :
    (e : SliceEntry) (otherwise : Checked) (new : Bool)
    → attributes_fault e otherwise ≡ new_key new
    → (otherwise ≡ new_key new) × (e.deleted ≡ true → (e.eor ≡ true) × (e.value ≡ []))
unfolding attributes_fault
attributes_allowed e otherwise new h = elim (Bool-cases e.deleted) [
  | inr d ↦ let h' : otherwise ≡ new_key new = rw d at h in (h', λ d'. absurd (cc (d, d')))
  | inl d ↦ elim (Bool-cases e.eor) [
    | inr r ↦
        (let h' : throws InvalidData.invalid_combination ≡ new_key new = rw (d, r) at h in
          absurd (cc h'))
    | inl r ↦ elim (Bool-cases (length e.value == 0)) [
      | inr l ↦
          (let h' : throws InvalidData.invalid_combination ≡ new_key new = rw (d, r, l) at h in
            absurd (cc h'))
      | inl l ↦
          let h' : otherwise ≡ new_key new = rw (d, r, l) at h in
          (h', λ d'. (r, nil_of_length e.value l))
    ]
  ]
]

Ordering-cases : (o : Ordering) → (o ≡ Ordering.lt) ⊎ ((o ≡ Ordering.eq) ⊎ (o ≡ Ordering.gt))
Ordering-cases Ordering.lt = inl refl
Ordering-cases Ordering.eq = inr (inl refl)
Ordering-cases Ordering.gt = inr (inr refl)

-- What the comparison with the last key lets through.
order_allowed :
    (e : SliceEntry) (w : LastEntry) (otherwise : Checked) (new : Bool)
    → order_fault (compare_keys e.key w.last_key) w.last_eor e.deleted otherwise ≡ new_key new
    → (otherwise ≡ new_key new) × Follows e w
unfolding order_fault
order_allowed e w otherwise new h = elim (Ordering-cases (compare_keys e.key w.last_key)) [
  | inl c ↦
      (let h' : throws InvalidData.input_keys_not_sorted ≡ new_key new = rw c at h in
        absurd (cc h'))
  | inr (inl c) ↦ elim (Bool-cases w.last_eor) [
    | inl r ↦
        (let h' : throws InvalidData.duplicate_keys ≡ new_key new = rw (c, r) at h in
          absurd (cc h'))
    | inr r ↦ elim (Bool-cases e.deleted) [
      | inl d ↦
          (let h' : throws InvalidData.duplicate_keys ≡ new_key new = rw (c, r, d) at h in
            absurd (cc h'))
      | inr d ↦
          let h' : otherwise ≡ new_key new = rw (c, r, d) at h in
          (h', inr (compare_keys-eq e.key w.last_key c, r, d))
    ]
  ]
  | inr (inr c) ↦ elim (Bool-cases w.last_eor) [
    | inr r ↦
        (let h' : throws InvalidData.key_eor_mismatch ≡ new_key new = rw (c, r) at h in
          absurd (cc h'))
    | inl r ↦ let h' : otherwise ≡ new_key new = rw (c, r) at h in (h', inl (c, r))
  ]
]

-- An entry that `check` takes is one that the writer means to let through.
pub check-IsAllowed :
    (e : SliceEntry) (w : LastEntry) (new : Bool) → check e w ≡ new_key new → IsAllowed e w
unfolding check
check-IsAllowed e w new h = elim (Bool-cases (length e.key == 0)) [
  | inl z ↦
      (let h' : throws InvalidData.key_of_zero_length ≡ new_key new = rw z at h in absurd (cc h'))
  | inr z ↦ elim (Bool-cases (ltb (length e.key) max_key_size)) [
    | inr s ↦
        (let h' : throws InvalidData.maximum_key_size_exceded ≡ new_key new = rw (z, s) at h in
          absurd (cc h'))
    | inl s ↦
        let cmp : Ordering = compare_keys e.key w.last_key in
        let rest : Checked = attributes_fault e (new_key (differs cmp)) in
        elim (Bool-cases (length w.last_key == 0)) [
          | inl n ↦
              let h' : rest ≡ new_key new = rw (z, s, n) at h in
              record {
                some_key = ground arith;
                short_key = ground arith;
                follows = inl (nil_of_length w.last_key n);
                whole_deletion = (attributes_allowed e _ new h').1;
              }
          | inr n ↦
              let h' : order_fault cmp w.last_eor e.deleted rest ≡ new_key new =
                rw (z, s, n) at h in
              let (a, f) = order_allowed e w rest new h' in
              record {
                some_key = ground arith;
                short_key = ground arith;
                follows = inr f;
                whole_deletion = (attributes_allowed e _ new a).1;
              }
        ]
  ]
]

attributes_pass :
    (e : SliceEntry) (otherwise : Checked)
    → (e.deleted ≡ true → (e.eor ≡ true) × (e.value ≡ []))
    → attributes_fault e otherwise ≡ otherwise
unfolding attributes_fault
attributes_pass e otherwise h = elim (Bool-cases e.deleted) [
  | inr d ↦ rw d refl
  | inl d ↦
      let none' : (length e.value == 0) ≡ true = ap (λ xs. length xs == 0) (h d).1 in
      rw (d, (h d).0, none') refl
]

order_pass :
    (e : SliceEntry) (w : LastEntry) (otherwise : Checked)
    → Follows e w
    → order_fault (compare_keys e.key w.last_key) w.last_eor e.deleted otherwise ≡ otherwise
unfolding order_fault
order_pass e w otherwise (inl (c, r)) = rw (c, r) refl
order_pass e w otherwise (inr (same, r, d)) =
    let c : compare_keys e.key w.last_key ≡ Ordering.eq =
      ap (compare_keys e.key) (sym same) ∙ compare_keys_refl e.key in
    rw (c, r, d) refl

check_pass :
    (e : SliceEntry) (w : LastEntry)
    → IsAllowed e w
    → check e w ≡ new_key (differs (compare_keys e.key w.last_key))
unfolding check
check_pass e w a =
    let otherwise : Checked = new_key (differs (compare_keys e.key w.last_key)) in
    let z : (length e.key == 0) ≡ false = ground (arith, a.some_key) in
    let s : ltb (length e.key) max_key_size ≡ true = ground (arith, a.short_key) in
    let passed : attributes_fault e otherwise ≡ otherwise =
      attributes_pass e otherwise a.whole_deletion in
    rw (z, s)
      (elim (Bool-cases (length w.last_key == 0)) [
        | inl n ↦ rw n passed
        | inr n ↦ rw n (elim a.follows [
          | inl empty ↦ absurd (
              let n' : (length w.last_key == 0) ≡ true = ap (λ xs. length xs == 0) empty in
              cc (n, n'))
          | inr f ↦ order_pass e w (attributes_fault e otherwise) f ∙ passed
        ])
      ])

-- `check` takes an entry exactly when its key has from 1 to 1023 bytes, nothing was taken before or
-- the key is above the last one, whose record has ended, or the key is the last one, whose record has
-- not ended, and this entry is no deletion, and a deletion has the end of record and no value.
-- Every other entry throws.
pub check_lem :
    (e : SliceEntry) (w : LastEntry) → ((new : Bool) × (check e w ≡ new_key new)) ↔ IsAllowed e w
check_lem e w = (
  (λ (new, h). check-IsAllowed e w new h),
  λ a. (differs (compare_keys e.key w.last_key), check_pass e w a),
)

-- The writer takes all the entries, one after the other.
abbrev pub TakesAll : LastEntry → List SliceEntry → Type 0
TakesAll w [] = Unit
TakesAll w (e ∷ es) = ((new : Bool) × (check e w ≡ new_key new)) × TakesAll (remember e) es

-- two neighbours in a slice
abbrev pub InOrder : SliceEntry → SliceEntry → Type 0
InOrder a b =
    (le_key a.key b.key ≡ true)
    × (((a.key ≡ b.key) × (a.eor ≡ false) × (b.deleted ≡ false))
        ⊎ ((a.key ≢ b.key) × (a.eor ≡ true)))

neighbours : (a b : SliceEntry) → 0 < length a.key → Follows b (remember a) → InOrder a b
unfolding remember
neighbours a b some_key (inl (c, r)) =
    (above-le_key b.key a.key c, inr ((λ same. cc (c, compare_keys_refl b.key, same)), r))
neighbours a b some_key (inr (same, r, d)) =
    (ap (le_key a.key) same ∙ le_key_refl a.key, inl (sym same, r, d))

not_empty : (a : SliceEntry) → 0 < length a.key → (remember a).last_key ≢ []
unfolding remember
not_empty a some_key h =
    let e : length a.key ≡ 0 = ap (λ xs. length xs) h in omega (arith, some_key, e)

-- When the writer takes a list of entries, each key is at most the next one; two neighbours with
-- one key are of one record, which goes on after the first and is no deletion, and where the key
-- changes the record has ended.
pub check-InOrder :
    (w : LastEntry) (es : List SliceEntry)
    → TakesAll w es
    → (i : ℕ) (a b : SliceEntry) → get_elem? es i ≡ some a
    → get_elem? es (suc i) ≡ some b
    → InOrder a b
check-InOrder w [] t i a b ha hb = absurd (cc ha)
check-InOrder w (e ∷ []) t zero a b ha hb = absurd (cc hb)
check-InOrder w (e ∷ []) t (suc i) a b ha hb = absurd (cc ha)
check-InOrder w (e ∷ f ∷ es) ((before, te), ((new, tf), t)) zero a b ha hb =
    let first : 0 < length e.key = (check-IsAllowed e w before te).some_key in
    let pair : InOrder e f = elim (check-IsAllowed f (remember e) new tf).follows [
      | inl empty ↦ absurd (not_empty e first empty)
      | inr follows ↦ neighbours e f first follows
    ] in
    subst (λ x. InOrder x b) (some-injective e a ha)
      (subst (InOrder e) (some-injective f b hb) pair)
check-InOrder w (e ∷ f ∷ es) (te, t) (suc i) a b ha hb =
    check-InOrder (remember e) (f ∷ es) t i a b ha hb
