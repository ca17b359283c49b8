-- ===== src/RingQueue.antt =====
-- tyrtech/common/ring_queue.h: a queue in a circular vector that doubles when it is full. The items
-- are of any type; `blank` is the value that `resize` gives to the new places. The
-- size that `reallocate` doubles wraps around as the `uint32_t` of the source does; the theorem on
-- `push` is about vectors of less than 2 ^ 31 places. The indices stay within the vector.
pub mod Refine
mod Tests
use Prim.Native.Nat.{bit_and}
use tyrdbs.Prelude.{
  ℕ, ◌+◌, ◌-◌, ◌*◌, ◌%◌, ◌^◌, Bool, true, false, Option, none, some, List, [], ◌∷◌, ◌++◌, ◌==◌,
  if◌then◌else◌, length, get_elem?, set, take, drop, replicate,
}

pub record RingQueue {ℓ} (A : Type ℓ) : Type ℓ where
  pub queue : List A
  pub head : ℕ
  pub tail : ℕ
  pub mask : ℕ

module _ {ℓ} {A : Type ℓ} (blank : A) where
  unfoldable pub ring_queue : RingQueue A
  ring_queue = record { queue = replicate 4 blank; head = 0; tail = 0; mask = 3 }

  -- `move_backward` leaves the places below the moved block as they were.
  unfoldable pub reallocate : RingQueue A → RingQueue A
  reallocate r =
      let old_size : ℕ = length r.queue % 2 ^ 32 in
      let size : ℕ = old_size * 2 % 2 ^ 32 in
      let mask : ℕ = (size + (2 ^ 32 - 1)) % 2 ^ 32 in
      let queue : List A = take size r.queue ++ replicate (size - old_size) blank in
      if r.tail == r.head + 1
      then record {
        queue = take (r.tail + old_size) queue ++ drop r.tail r.queue;
        head = r.head;
        tail = r.tail + old_size;
        mask = mask;
      }
      else record { queue = queue; head = r.head; tail = r.tail; mask = mask }

  unfoldable pub push : A → RingQueue A → RingQueue A
  unfolding reallocate
  push item r =
      let r1 : RingQueue A = record r { queue = set r.queue r.head item } in
      let r2 : RingQueue A =
        if bit_and (r1.head + 1) r1.mask == r1.tail then reallocate r1 else r1 in
      record r2 { head = bit_and (r2.head + 1) r2.mask }

module _ {ℓ} {A : Type ℓ} where
  -- The assertion that the queue is not empty is a hypothesis of the theorems; a read outside the
  -- vector would be `none`.
  unfoldable pub pop : RingQueue A → Option A × RingQueue A
  pop r = (get_elem? r.queue r.tail, record r { tail = bit_and (r.tail + 1) r.mask })

  unfoldable pub peek : RingQueue A → Option A
  peek r = get_elem? r.queue r.tail

  unfoldable pub empty : RingQueue A → Bool
  empty r = if r.head == r.tail then true else false
