-- ===== src/Tests/Containers.antt =====
-- The vector and the ring buffer.
use os_pi_is_cool.Base.{◌≡◌, refl, true, some, List, [], ◌∷◌, arith, ok, Ends, OutOfMemory}
use os_pi_is_cool.Vec.{Vec, push_back, insert, erase}
use os_pi_is_cool.Vec.Holds.{Holds, SameDrops}
use os_pi_is_cool.Vec.Grow.{push_back-Holds}
use os_pi_is_cool.Vec.Shift.{insert-Holds, erase-Holds}
use os_pi_is_cool.RingBuffer.{RingBuffer, run}
use os_pi_is_cool.RingBuffer.Queue
use os_pi_is_cool.RingBuffer.Queue.{Op, produce, consume, remove_back, reply}
use os_pi_is_cool.RingBuffer.Holds.{Holds as RingHolds}
use os_pi_is_cool.RingBuffer.Refine.{run_refines}
use os_pi_is_cool.Tests.Memory.{page_allocator}

-- 5, 6 and 7 in storage for three, with a destructor.
abbrev full : Vec
full = record { data_cells = 5 ∷ 6 ∷ 7 ∷ []; length = 3; capacity = 3; dtor = true; dropped = [] }

full-Holds : Holds full (5 ∷ 6 ∷ 7 ∷ [])
full-Holds = record {
  spare = [];
  stored = refl;
  counted = refl;
  room = omega arith;
  fits = omega arith;
  small = omega arith;
}

push_back-Holds_example :
    Ends
      (λ w. Holds w (5 ∷ 6 ∷ 7 ∷ 8 ∷ []) × SameDrops full w)
      (OutOfMemory page_allocator)
      (push_back page_allocator full 8)
push_back-Holds_example = push_back-Holds page_allocator 8 full-Holds

insert-Holds_example :
    Ends
      (λ w. Holds w (5 ∷ 8 ∷ 6 ∷ 7 ∷ []) × SameDrops full w)
      (OutOfMemory page_allocator)
      (insert page_allocator full 1 8)
insert-Holds_example = insert-Holds page_allocator (5 ∷ []) (6 ∷ 7 ∷ []) 1 8 full-Holds refl

erase-Holds_example :
    Ends (λ w. Holds w (5 ∷ 7 ∷ []) × (w.dtor ≡ true) × (w.dropped ≡ 6 ∷ [])) ⊥ (erase full 1)
erase-Holds_example = erase-Holds (5 ∷ []) 6 (7 ∷ []) 1 full-Holds refl

-- Three of four cells in use, round the end of the storage.
abbrev wrapped : RingBuffer
wrapped = record {
  head = some 3;
  tail = some 1;
  data_cells = 11 ∷ 12 ∷ 0 ∷ 10 ∷ [];
  capacity = 4;
  size = 3;
}

wrapped-Holds : RingHolds wrapped (10 ∷ 11 ∷ 12 ∷ [])
wrapped-Holds = record {
  front = 3;
  storage = omega arith;
  front_in = omega arith;
  fits = omega arith;
  head_is = refl;
  tail_is = refl;
  bytes = refl;
}

abbrev script : List Op
script = produce 13 ∷ produce 14 ∷ consume ∷ remove_back ∷ consume ∷ consume ∷ consume ∷ []

run_refines_example : run script (some wrapped) ≡ ok (Queue.run 4 script (10 ∷ 11 ∷ 12 ∷ []))
run_refines_example = run_refines script (10 ∷ 11 ∷ 12 ∷ []) wrapped-Holds
