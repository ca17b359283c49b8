-- ===== src/Ushard/Merge.antt =====
-- tyrtech/tyrdbs/ushard.cpp, `ushard_iterator`: the iterators of several slices read as one. The vector
-- of the elements is listed from its back, which is the one that is read next. `std::sort` and
-- `std::lower_bound` are written as insertion into, and linear search in, a vector that is
-- partitioned by the comparison; the slices that the elements keep alive are left out.
pub mod Order
pub mod Newest
pub mod Skip
pub mod Collect
pub mod Correct
pub mod Range
mod Tests
use Prim.Native.Nat.{Ordering}
use tyrdbs.Prelude.{
  ℕ, zero, suc, ◌+◌, Bool, true, false, List, [], ◌∷◌, ◌==◌, if◌then◌else◌, ltb, length,
}
use tyrdbs.Keys.{compare_keys}
use tyrdbs.Iterator.{Part}

-- an iterator after `next` has returned true: where it stands, and what is before it
pub record Cursor : Type 0 where
  pub current : Part
  pub following : List Part

unfoldable pub cmp : Cursor → Cursor → Bool
cmp e1 e2 = elim (compare_keys e1.current.key e2.current.key) [
  | Ordering.eq ↦ ltb e1.current.idx e2.current.idx
  | Ordering.lt ↦ false
  | Ordering.gt ↦ true
]

-- before the first element, from the back, that the comparison puts before `e` in the vector
unfoldable pub place : Cursor → List Cursor → List Cursor
place e [] = e ∷ []
place e (x ∷ xs) = if cmp x e then e ∷ x ∷ xs else x ∷ place e xs

unfoldable pub sort : List Cursor → List Cursor
sort [] = []
sort (e ∷ es) = place e (sort es)

pub record UshardIterator : Type 0 where
  pub elements : List Cursor
  pub max_key : List ℕ
  pub last_key : List ℕ

-- the elements of the slices whose iterator has a first part
unfoldable pub elements_of : List (List Part) → List Cursor
elements_of [] = []
elements_of ([] ∷ iterators) = elements_of iterators
elements_of ((p ∷ ps) ∷ iterators) = record { current = p; following = ps } ∷ elements_of iterators

-- the constructor over all of the slices
unfoldable pub ushard_iterator : List (List Part) → UshardIterator
unfolding elements_of
ushard_iterator iterators = record { elements = elements_of iterators; max_key = []; last_key = [] }

-- elements of the slices whose iterator over the range begins within it
unfoldable pub elements_within : (max_key : List ℕ) → List (List Part) → List Cursor
elements_within max_key [] = []
elements_within max_key ([] ∷ iterators) = elements_within max_key iterators
elements_within max_key ((p ∷ ps) ∷ iterators) =
    let rest = elements_within max_key iterators in
    elim (compare_keys p.key max_key) [
      | Ordering.gt ↦ rest
      | _ ↦ record { current = p; following = ps } ∷ rest
    ]

-- The constructor over a range. The jobs of the slices are run in the order of the slices.
-- The assertion of the key buffer, that `max_key` has at most 1024 bytes, is a hypothesis of the theorem.
unfoldable pub ushard_range : (max_key : List ℕ) → List (List Part) → UshardIterator
unfolding elements_within
ushard_range max_key iterators =
    let elements : List Cursor = elements_within max_key iterators in
    record {
      elements = elements;
      max_key = if length elements == 0 then [] else max_key;
      last_key = [];
    }

-- `is_out_of_bounds` of an iterator whose back element stands on `key`
unfoldable pub is_out_of_bounds : (key max_key : List ℕ) → Bool
is_out_of_bounds key max_key =
    if length max_key == 0
    then false
    else elim (compare_keys key max_key) [ Ordering.gt ↦ true | _ ↦ false ]

-- `advance_last`, and where the element then belongs. No element is `advance_last` on none, which
-- the callers rule out.
unfoldable pub advance : List Cursor → Bool × List Cursor
unfolding place
advance [] = (false, [])
advance (c ∷ es) = elim c.following [
  | [] ↦ (if length es == 0 then false else true, es)
  | p ∷ ps ↦ (true, place (record { current = p; following = ps }) es)
]

-- the answer of `next`, with the new state
abbrev pub Answer : Type 0
Answer = Bool × UshardIterator

unfoldable pub stop : UshardIterator → Answer
stop it = (false, record it { elements = [] })

-- the parts that the elements have before them
unfoldable pub size_of : List Cursor → ℕ
size_of [] = 0
size_of (c ∷ es) = suc (length c.following) + size_of es

-- what the body of the loop in `next` does with the element that is now at the back
unfoldable pub settle : (rest : Answer) → UshardIterator → Answer
unfolding is_out_of_bounds stop
settle rest it = elim it.elements [
  | [] ↦ (false, it)
  | c ∷ es ↦
      if is_out_of_bounds c.current.key it.max_key
      then stop it
      else (elim (compare_keys c.current.key it.last_key) [
        | Ordering.eq ↦ rest
        | _ ↦ (true, record it { last_key = c.current.key })
      ])
]

-- The loop, on fuel: each round takes a part from an element.
unfoldable pub skip : (fuel : ℕ) → UshardIterator → Answer
skip zero it = (false, it)
skip (suc fuel) it =
    let it' : UshardIterator = record it { elements = (advance it.elements).1 } in
    let rest = skip fuel it' in if (advance it.elements).0 then settle rest it' else (false, it')

-- the part that the iterator stands on is not the last of its record
unfoldable pub next_part : List Cursor → List Cursor
next_part [] = []
next_part (c ∷ es) = elim c.following [
  | [] ↦ c ∷ es
  | p ∷ ps ↦ record { current = p; following = ps } ∷ es
]

-- the part that the iterator stands on, before the others
unfoldable pub stands_on : List Cursor → List Part → List Part
stands_on [] rest = rest
stands_on (c ∷ es) rest = c.current ∷ rest

-- the first call of `next`, once the elements are sorted
unfoldable pub begin : List Cursor → UshardIterator → Answer
unfolding is_out_of_bounds stop
begin [] it = (false, it)
begin (c ∷ es) it =
    let it' : UshardIterator = record it { elements = c ∷ es; last_key = c.current.key } in
    if is_out_of_bounds c.current.key it.max_key then stop it' else (true, it')

unfoldable pub next : UshardIterator → Answer
unfolding sort size_of skip settle advance next_part begin
next it = elim it.elements [
  | [] ↦ (false, it)
  | c ∷ es ↦
      if length it.last_key == 0
      then begin (sort (c ∷ es)) it
      else if c.current.eor
      then skip (size_of (c ∷ es)) it
      else (true, record it { elements = next_part (c ∷ es) })
]

-- The parts that a loop `while (it->next())` meets, on fuel: each round but the last uses up a part.
unfoldable pub collect : (fuel : ℕ) → UshardIterator → List Part
collect zero it = []
collect (suc fuel) it =
    let it' : UshardIterator = (next it).1 in
    let rest = collect fuel it' in if (next it).0 then stands_on it'.elements rest else []
