-- ===== src/Ushard/Merge/Collect.antt =====
-- The parts that a loop over a ushard iterator meets.
use mathlib.Core.Path.{subst}
use tyrdbs.Prelude.{
  ℕ, zero, suc, ◌≤◌, ◌<◌, ◌≡◌, refl, sym, ap, ◌∙◌, inl, inr, true, false, List, [], ◌∷◌, Bool-cases,
  arith, Every, Every-imp, length, ◌==◌,
}
use tyrdbs.Keys.{le_key, cons-le_key}
use tyrdbs.Keys.Order.{compare_keys-cases}
use tyrdbs.Iterator.{Part}
use tyrdbs.Ushard.Merge.{Cursor, UshardIterator, next_part, size_of, skip, next, collect, stands_on}
use tyrdbs.Ushard.Merge.Order.{Sorted}
use tyrdbs.Ushard.Merge.Newest.{
  parts, all_parts, Below, Below-le, IsChain, IsChain-ne, Newest, Newest-moved, Newest-above,
  Newest-head, parts-cons_eq, parts-cons_ne, parts_above,
}
use tyrdbs.Ushard.Merge.Skip.{
  IsSlice, state, InBounds, Ready, Sorted-Ready, Skipped, skip_lem, size_of-pos,
}

-- What is met behind the part that the iterator stands on: together they are the parts of a slice,
-- first the others of the same record, and then for each key behind it and within the bounds the
-- newest record.
pub record Collected (m : List ℕ) (c : Cursor) (es : List Cursor) (out : List Part) : Type 0 where
  pub chain : IsChain (c.current ∷ out)
  pub same_record : parts c.current.key out ≡ parts c.current.key c.following
  pub newest : (k : List ℕ) → Below c.current.key k → InBounds m k → Newest k (c ∷ es) (parts k out)
  pub beyond : (k : List ℕ) → Below c.current.key k → ¬ InBounds m k → parts k out ≡ []

-- One more part of the record.
same_part :
    (m : List ℕ) (p q : Part) (qs : List Part) (es : List Cursor) (out : List Part)
    → q.key ≡ p.key
    → p.eor ≡ false
    → Collected m (record { current = q; following = qs }) es out
    → Collected m (record { current = p; following = q ∷ qs }) es (q ∷ out)
same_part m p q qs es out same e c = record {
  chain = (inl (sym same, e), c.chain);
  same_record =
      parts-cons_eq p.key q out same
      ∙ ap (λ t. q ∷ t) (subst (λ t. parts t out ≡ parts t qs) same c.same_record)
      ∙ sym (parts-cons_eq p.key q qs same);
  newest = λ k b i.
      let b' : Below q.key k = subst (λ t. Below t k) (sym same) b in
      subst (Newest k (record { current = p; following = q ∷ qs } ∷ es))
        (sym (parts-cons_ne k q out b'.1))
        (Newest-moved k (parts k out) (record { current = p; following = q ∷ qs })
          (record { current = q; following = qs }) es (sym (parts-cons_ne k p (q ∷ qs) b.1))
          (c.newest k b' i));
  beyond = λ k b i.
      let b' : Below q.key k = subst (λ t. Below t k) (sym same) b in
      parts-cons_ne k q out b'.1 ∙ c.beyond k b' i;
}

-- What a loop meets from sorted elements: the parts of a slice, with the newest record of every key
-- within the bounds and of no other.
pub record Merged (m : List ℕ) (els : List Cursor) (out : List Part) : Type 0 where
  pub chain : IsChain out
  pub newest : (k : List ℕ) → InBounds m k → Newest k els (parts k out)
  pub beyond : (k : List ℕ) → ¬ InBounds m k → parts k out ≡ []

-- A key is that of the element at the back, before it, or behind it.
pub first_part :
    (m : List ℕ) (d : Cursor) (ds : List Cursor) (out : List Part)
    → Sorted (d ∷ ds)
    → Every IsSlice (d ∷ ds)
    → InBounds m d.current.key
    → Collected m d ds out
    → Merged m (d ∷ ds) (d.current ∷ out)
first_part m d ds out s ch i col = record {
  chain = col.chain;
  newest = λ k ik. elim (compare_keys-cases d.current.key k) [
    | inl (_, same) ↦
        let of_out : parts d.current.key (d.current ∷ out) ≡ parts d.current.key (all_parts d) =
          parts-cons_eq d.current.key d.current out refl
          ∙ ap (λ t. d.current ∷ t) col.same_record
          ∙ sym (parts-cons_eq d.current.key d.current d.following refl) in
        subst (λ t. Newest t (d ∷ ds) (parts t (d.current ∷ out))) same
          (subst (Newest d.current.key (d ∷ ds)) (sym of_out) (Newest-head d ds s ch.1))
    | inr (inl (_, le, ne)) ↦
        subst (Newest k (d ∷ ds)) (sym (parts-cons_ne k d.current out ne))
          (col.newest k (le, ne) ik)
    | inr (inr (_, _, ge, ne)) ↦
        let above : Below k d.current.key = (ge, λ t. ne (sym t)) in
        subst (Newest k (d ∷ ds)) (sym (parts_above k d.current out col.chain above)) (
          Newest-above k (d ∷ ds) ch (
            above,
            Every-imp _ (λ x. Below k x.current.key)
                (λ x h. Below-le k d.current.key x.current.key above h.key_le) ds s.0,
          ))
  ];
  beyond = λ k ik. elim (compare_keys-cases d.current.key k) [
    | inl (_, same) ↦ absurd (ik (subst (InBounds m) same i))
    | inr (inl (_, le, ne)) ↦ parts-cons_ne k d.current out ne ∙ col.beyond k (le, ne) ik
    | inr (inr (_, _, ge, ne)) ↦ parts_above k d.current out col.chain (ge, λ t. ne (sym t))
  ];
}

-- The record that comes after another.
next_record :
    (m : List ℕ) (c d : Cursor) (es ds : List Cursor) (out : List Part)
    → IsSlice c
    → c.current.eor ≡ true
    → Below c.current.key d.current.key
    → ((k : List ℕ) (ps : List Part)
        → Below c.current.key k
        → Newest k (d ∷ ds) ps
        → Newest k (c ∷ es) ps)
    → Merged m (d ∷ ds) (d.current ∷ out)
    → Collected m c es (d.current ∷ out)
next_record m c d es ds out chain e b back h = record {
  chain = (inr (b, e), h.chain);
  same_record =
      parts_above c.current.key d.current out h.chain b
      ∙ sym (IsChain-ne c.current c.following chain e);
  newest = λ k bk ik. back k _ bk (h.newest k ik);
  beyond = λ k bk ik. h.beyond k ik;
}

-- no more records
no_record :
    (m : List ℕ) (c : Cursor) (es : List Cursor)
    → IsSlice c
    → c.current.eor ≡ true
    → ((k : List ℕ) → Below c.current.key k → InBounds m k → Newest k (c ∷ es) [])
    → Collected m c es []
unfolding parts
no_record m c es chain e none' = record {
  chain = e;
  same_record = sym (IsChain-ne c.current c.following chain e);
  newest = none';
  beyond = λ k b i. refl;
}

above_nonempty : (a b : List ℕ) → 0 < length a → le_key a b ≡ true → 0 < length b
above_nonempty [] b h le = absurd (omega arith)
above_nonempty (x ∷ a) [] h le = absurd (cons-le_key x a le)
above_nonempty (x ∷ a) (y ∷ b) h le = omega arith

next-skip :
    (m l : List ℕ) (c : Cursor) (es : List Cursor)
    → 0 < length l
    → c.current.eor ≡ true
    → next (state (c ∷ es) m l) ≡ skip (size_of (c ∷ es)) (state (c ∷ es) m l)
unfolding next
next-skip m l c es some_key e =
    let started : (length l == 0) ≡ false = ground (arith, some_key) in rw (started, e) refl

next-part :
    (m l : List ℕ) (p q : Part) (qs : List Part) (es : List Cursor)
    → 0 < length l
    → p.eor ≡ false
    → next (state (record { current = p; following = q ∷ qs } ∷ es) m l)
      ≡ (true, state (record { current = q; following = qs } ∷ es) m l)
unfolding next next_part
next-part m l p q qs es some_key e =
    let started : (length l == 0) ≡ false = ground (arith, some_key) in rw (started, e) refl

pub collect-met :
    (fuel : ℕ) (m l : List ℕ) (it : UshardIterator) (d : Cursor) (ds : List Cursor)
    → next it ≡ (true, state (d ∷ ds) m l)
    → collect (suc fuel) it ≡ d.current ∷ collect fuel (state (d ∷ ds) m l)
unfolding collect stands_on
collect-met fuel m l it d ds e = rw e refl

pub collect-end :
    (fuel : ℕ) (it : UshardIterator) → (next it).0 ≡ false → collect (suc fuel) it ≡ []
unfolding collect
collect-end fuel it e = rw e refl

-- where the record ends: what the loop of `next` came to
module _ (m : List ℕ) (c : Cursor) (es : List Cursor) (r : Ready c es)
    (some_key : 0 < length c.current.key) (e : c.current.eor ≡ true) (fuel : ℕ)
    (others : (d : Cursor) (ds : List Cursor)
      → size_of (d ∷ ds) < size_of (c ∷ es)
      → Ready d ds
      → 0 < length d.current.key
      → InBounds m d.current.key
      → Collected m d ds (collect fuel (state (d ∷ ds) m d.current.key))) where
  collect-Skipped :
      Skipped m c.current.key (c ∷ es) (size_of (c ∷ es)) (next (state (c ∷ es) m c.current.key))
      → Collected m c es (collect (suc fuel) (state (c ∷ es) m c.current.key))
  collect-Skipped (inl (done, _, none')) =
      subst (Collected m c es) (sym (collect-end fuel (state (c ∷ es) m c.current.key) done))
        (no_record m c es r.chain e none')
  collect-Skipped (inr (d, ds, met, b, i, s, ch, smaller, back)) =
      subst (Collected m c es)
        (sym (collect-met fuel m d.current.key (state (c ∷ es) m c.current.key) d ds met))
        (next_record m c d es ds (collect fuel (state (d ∷ ds) m d.current.key)) r.chain e b back (
          first_part m d ds (collect fuel (state (d ∷ ds) m d.current.key)) s ch i (
            others d ds smaller (Sorted-Ready d ds s ch)
              (above_nonempty c.current.key d.current.key some_key b.0) i)))

collect_part :
    (fuel : ℕ) (m : List ℕ) (p : Part) (ps : List Part) (es : List Cursor)
    → size_of (record { current = p; following = ps } ∷ es) ≤ suc fuel
    → Ready (record { current = p; following = ps }) es
    → 0 < length p.key
    → InBounds m p.key
    → p.eor ≡ false
    → ((d : Cursor)
        → size_of (d ∷ es) ≤ fuel
        → Ready d es
        → 0 < length d.current.key
        → InBounds m d.current.key
        → Collected m d es (collect fuel (state (d ∷ es) m d.current.key)))
    → Collected m
        (record { current = p; following = ps })
        es
        (collect (suc fuel) (state (record { current = p; following = ps } ∷ es) m p.key))
unfolding size_of
collect_part fuel m p [] es h r some_key i e others =
    absurd (let e' : p.eor ≡ true = r.chain in cc (e, e'))
collect_part fuel m p (q ∷ qs) es h r some_key i e others = elim r.chain.0 [
  | inr (_, e') ↦ absurd (cc (e, e'))
  | inl (same, _) ↦
      let d : Cursor = record { current = q; following = qs } in
      let ready : Ready d es = record {
        chain = r.chain.1;
        chains = r.chains;
        sorted = r.sorted;
        least = subst (λ t. Every (λ x. le_key t x.current.key ≡ true) es) same r.least;
      } in
      let met : next (state (record { current = p; following = q ∷ qs } ∷ es) m p.key)
          ≡ (true, state (d ∷ es) m q.key) =
        next-part m p.key p q qs es some_key e ∙ ap (λ t. (true, state (d ∷ es) m t)) same in
      subst (Collected m (record { current = p; following = q ∷ qs }) es)
        (sym (
          collect-met fuel m q.key (state (record { current = p; following = q ∷ qs } ∷ es) m p.key)
            d es met))
        (same_part m p q qs es (collect fuel (state (d ∷ es) m q.key)) (sym same) e (
          others d (omega arith) ready (subst (λ t. 0 < length t) same some_key)
            (subst (InBounds m) same i)))
]

pub collect_lem :
    (fuel : ℕ) (m : List ℕ) (c : Cursor) (es : List Cursor)
    → size_of (c ∷ es) ≤ fuel
    → Ready c es
    → 0 < length c.current.key
    → InBounds m c.current.key
    → Collected m c es (collect fuel (state (c ∷ es) m c.current.key))
collect_lem zero m c es h r some_key i = absurd (omega (arith, h, size_of-pos c es))
collect_lem (suc fuel) m c es h r some_key i = elim (Bool-cases c.current.eor) [
  | inl e ↦
      collect-Skipped m c es r some_key e fuel
        (λ d ds smaller ready key i'. collect_lem fuel m d ds (omega arith) ready key i')
        (subst (Skipped m c.current.key (c ∷ es) (size_of (c ∷ es)))
          (sym (next-skip m c.current.key c es some_key e))
          (skip_lem (size_of (c ∷ es)) m c.current.key c es (omega arith) refl r))
  | inr e ↦
      collect_part fuel m c.current c.following es h r some_key i e
        (λ d smaller ready key i'. collect_lem fuel m d es smaller ready key i')
]
