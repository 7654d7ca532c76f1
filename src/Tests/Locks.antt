-- ===== src/Tests/Locks.antt =====
-- The semaphore, the mutex and the condition variable.
use os_pi_is_cool.Base.{
  some, true, refl, inl, arith, false, [], ◌∷◌, if◌then◌else◌, ◌==◌, Ends, OutOfMemory,
}
use os_pi_is_cool.Vec.{Vec}
use os_pi_is_cool.Vec.Holds.{Holds}
use os_pi_is_cool.Thread.{Tcbs, stopped, running}
use os_pi_is_cool.Waking.{World}
use os_pi_is_cool.Waking.Awake.{IsWorld}
use os_pi_is_cool.Semaphore.{Semaphore, sem_wait, sem_post}
use os_pi_is_cool.Semaphore.Tokens.{Level, Waited, sem_wait_lem}
use os_pi_is_cool.Semaphore.Post.{Posted, sem_post_lem}
use os_pi_is_cool.Mutex.{Mutex, mutex_lock, mutex_trylock, mutex_unlock}
use os_pi_is_cool.Mutex.Owner.{Owned, Locked, Tried, mutex_lock_lem, mutex_trylock_lem}
use os_pi_is_cool.Mutex.Unlock.{HandsOver, mutex_unlock-HandsOver}
use os_pi_is_cool.Condition.{Condition, cond_signal}
use os_pi_is_cool.Condition.Signal.{Signalled, cond_signal_lem}
use os_pi_is_cool.Tests.Memory.{page_allocator}
use os_pi_is_cool.Tests.Scheduling.{thread, sched, ready_threads, sched-Queues, sched-IsUnique}

-- Thread 0 runs; thread 1 waits.
abbrev tcbs : Tcbs
tcbs t =
    if t == 30
    then record thread { state = running }
    else if t == 40
    then record thread { tid = 1; state = stopped }
    else thread

abbrev two_threads : Vec
two_threads = record {
  data_cells = 30 ∷ 40 ∷ [];
  length = 2;
  capacity = 2;
  dtor = false;
  dropped = [];
}

abbrev world : World
world = record { threads = two_threads; tcbs = tcbs; sched = sched; current = 30 }

abbrev one_waits : Vec
one_waits = record { data_cells = 1 ∷ 0 ∷ []; length = 1; capacity = 2; dtor = false; dropped = [] }

abbrev taken : Semaphore
taken = record { count = 4294967295; waiting_threads = one_waits }

two_threads-Holds : Holds two_threads (30 ∷ 40 ∷ [])
two_threads-Holds = record {
  spare = [];
  stored = refl;
  counted = refl;
  room = omega arith;
  fits = omega arith;
  small = omega arith;
}

one_waits-Holds : Holds one_waits (1 ∷ [])
one_waits-Holds = record {
  spare = 0 ∷ [];
  stored = refl;
  counted = refl;
  room = omega arith;
  fits = omega arith;
  small = omega arith;
}

taken-Level : Level taken 0 (1 ∷ [])
taken-Level = record {
  queue = one_waits-Holds;
  counted = refl;
  one_empty = inl refl;
  few_tokens = omega arith;
  few_waiters = omega arith;
}

world-IsWorld : IsWorld world (30 ∷ 40 ∷ []) ready_threads
world-IsWorld = record {
  table = two_threads-Holds;
  queues = sched-Queues;
  once = sched-IsUnique;
  priorities = λ t. ground arith;
}

sem_wait_lem_example :
    Ends
      (Waited 0 (1 ∷ []) world)
      (OutOfMemory page_allocator)
      (sem_wait page_allocator taken world)
sem_wait_lem_example =
    sem_wait_lem page_allocator world 0 (1 ∷ []) taken-Level (omega arith) (omega arith)

sem_post_lem_example :
    Ends
      (Posted page_allocator world world-IsWorld 0 (1 ∷ []))
      (OutOfMemory page_allocator)
      (sem_post page_allocator taken world)
sem_post_lem_example =
    sem_post_lem page_allocator world world-IsWorld 0 (1 ∷ []) taken-Level (omega arith)

-- Thread 0 owns the mutex, thread 1 waits for it.
abbrev mutex : Mutex
mutex = record { owner_tid = 0; lock_count = 1; waiting_threads = one_waits }

mutex-Owned : Owned mutex (some 0) (1 ∷ [])
mutex-Owned = record {
  owner_is = refl;
  valid = omega arith;
  counted = refl;
  queue = one_waits-Holds;
}

mutex_lock_lem_example :
    Ends
      (Locked (some 0) (1 ∷ []) world)
      (OutOfMemory page_allocator)
      (mutex_lock page_allocator mutex world)
mutex_lock_lem_example =
    mutex_lock_lem page_allocator world (some 0) (1 ∷ []) mutex-Owned (omega arith) (omega arith)

mutex_trylock_lem_example : Ends (Tried (some 0) (1 ∷ []) mutex world) ⊥ (mutex_trylock mutex world)
mutex_trylock_lem_example =
    mutex_trylock_lem world (some 0) (1 ∷ []) mutex-Owned (omega arith) (omega arith)

mutex_unlock-HandsOver_example :
    Ends
      (HandsOver page_allocator world world-IsWorld mutex (1 ∷ []) true)
      (OutOfMemory page_allocator)
      (mutex_unlock page_allocator mutex world)
mutex_unlock-HandsOver_example =
    mutex_unlock-HandsOver page_allocator world world-IsWorld (some 0) (1 ∷ []) mutex-Owned
      (omega arith) (omega arith)

-- Thread 1 waits for the condition of the mutex at 500.
abbrev condition : Condition
condition = record { lock = 500; waiting_threads = one_waits }

cond_signal_lem_example :
    Ends
      (Signalled page_allocator world world-IsWorld condition (1 ∷ []))
      (OutOfMemory page_allocator)
      (cond_signal page_allocator condition world)
cond_signal_lem_example =
    cond_signal_lem page_allocator world world-IsWorld condition (1 ∷ []) one_waits-Holds
