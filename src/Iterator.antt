-- ===== src/Iterator.antt =====
-- tyrtech/tyrdbs/iterator.h: what an iterator stands on after `next` has returned true. An iterator
-- is modelled by the list of the parts that it still has before it.
use tyrdbs.Prelude.{ℕ, Bool, List}

-- `key()`, `value()`, `eor()`, `deleted()` and `idx()`
pub record Part : Type 0 where
  pub key : List ℕ
  pub value : List ℕ
  pub eor : Bool
  pub deleted : Bool
  pub idx : ℕ
