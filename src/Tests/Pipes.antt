-- ===== src/Tests/Pipes.antt =====
-- A pipe of two bytes.
use os_pi_is_cool.Base.{refl, arith, false, none, [], ◌∷◌, OutOfMemory, Ends}
use os_pi_is_cool.Vec.{Vec}
use os_pi_is_cool.Vec.Holds.{Holds}
use os_pi_is_cool.Pipe.{Pipe, by_reader, by_writer, run}
use os_pi_is_cool.Pipe.Wake.{IsPipe}
use os_pi_is_cool.Pipe.Delivered.{Delivered, start, run-Delivered}
use os_pi_is_cool.Tests.Memory.{page_allocator}

abbrev nobody : Vec
nobody = record { data_cells = 0 ∷ 0 ∷ []; length = 0; capacity = 2; dtor = false; dropped = [] }

abbrev empty_pipe : Pipe
empty_pipe = record {
  num_readers = 1;
  num_writers = 1;
  buffer = record { head = none; tail = none; data_cells = 0 ∷ 0 ∷ []; capacity = 2; size = 0 };
  rx_wait_queue = nobody;
  tx_wait_queue = nobody;
}

nobody-Holds : Holds nobody []
nobody-Holds = record {
  spare = 0 ∷ 0 ∷ [];
  stored = refl;
  counted = refl;
  room = omega arith;
  fits = omega arith;
  small = omega arith;
}

empty_pipe-IsPipe : IsPipe empty_pipe [] [] []
empty_pipe-IsPipe = record {
  bytes = record {
    front = 0;
    storage = omega arith;
    front_in = omega arith;
    fits = omega arith;
    head_is = refl;
    tail_is = refl;
    bytes = refl;
  };
  readers = nobody-Holds;
  writers = nobody-Holds;
  has_reader = ground arith;
}

-- The reader waits first, then the writer fills the pipe, and waits.
run-Delivered_example : Ends (Delivered 2 (7 ∷ 8 ∷ 9 ∷ [])) (OutOfMemory page_allocator) (
    run page_allocator
      (start empty_pipe 5 3 6 (7 ∷ 8 ∷ 9 ∷ []))
      (by_reader ∷ by_writer ∷ by_writer ∷ by_writer ∷ by_reader ∷ by_writer ∷ []))
run-Delivered_example =
    run-Delivered page_allocator empty_pipe 5 3 6 (7 ∷ 8 ∷ 9 ∷ [])
      (by_reader ∷ by_writer ∷ by_writer ∷ by_writer ∷ by_reader ∷ by_writer ∷ []) empty_pipe-IsPipe
      refl refl
