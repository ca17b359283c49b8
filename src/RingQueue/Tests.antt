-- ===== src/RingQueue/Tests.antt =====
-- Runs of the ring queue, and the theorems at concrete queues.
use tyrdbs.Prelude.{ℕ, ◌≡◌, ◌↔◌, refl, true, some, [], ◌∷◌, ◌++◌, arith}
use tyrdbs.RingQueue.{RingQueue, ring_queue, push, pop, peek, empty}
use tyrdbs.RingQueue.Refine.{
  IsValid, contents, push-contents, pop-contents, empty-contents, ring_queue-contents,
}

-- five pushes after two pops: the indices go round and the vector doubles
abbrev start : RingQueue ℕ
start = ring_queue 0

abbrev busy : RingQueue ℕ
busy = push 0 7 (push 0 6 (push 0 5 (pop (pop (push 0 4 (push 0 3 (push 0 2 start)))).1).1))

busy_holds : contents busy ≡ 4 ∷ 5 ∷ 6 ∷ 7 ∷ []
unfolding contents push pop ring_queue
busy_holds = refl

busy_doubled : busy.mask ≡ 7
unfolding push pop ring_queue
busy_doubled = refl

-- a queue whose items go round the end of the vector, with one place left
abbrev full_ring : RingQueue ℕ
full_ring = record { queue = 5 ∷ 0 ∷ 3 ∷ 4 ∷ []; head = 1; tail = 2; mask = 3 }

abbrev full_ring-IsValid : IsValid full_ring
full_ring-IsValid = record {
  log_size = 2;
  size_eq = refl;
  mask_eq = refl;
  head_in = omega arith;
  tail_in = omega arith;
}

push-contents_example :
    IsValid (push 0 6 full_ring) × (contents (push 0 6 full_ring) ≡ contents full_ring ++ (6 ∷ []))
push-contents_example = push-contents 0 6 full_ring full_ring-IsValid (omega arith)

pop-contents_example :
    (x : ℕ) × (peek full_ring ≡ some x)
    × ((pop full_ring).0 ≡ some x)
    × IsValid (pop full_ring).1
    × (contents full_ring ≡ x ∷ contents (pop full_ring).1)
pop-contents_example = pop-contents full_ring full_ring-IsValid (omega arith)

empty-contents_example : (empty full_ring ≡ true) ↔ (contents full_ring ≡ [])
empty-contents_example = empty-contents full_ring full_ring-IsValid

ring_queue-contents_example : IsValid start × (contents start ≡ [])
ring_queue-contents_example = ring_queue-contents 0
