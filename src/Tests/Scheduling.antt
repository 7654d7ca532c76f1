-- ===== src/Tests/Scheduling.antt =====
-- The scheduler.
use os_pi_is_cool.Base.{
  ℕ, zero, suc, ◌<◌, ◌≤◌, ◌≡◌, ◌≢◌, ◌⊎◌, refl, false, List, [], ◌∷◌, arith, Ends, if◌then◌else◌,
  ◌==◌, Ptr, null, OutOfMemory,
}
use os_pi_is_cool.Vec.{Vec}
use os_pi_is_cool.Thread.{Tcb, Tcbs, ready, running}
use os_pi_is_cool.Scheduler.{
  Scheduler, Machine, max_pri_cntrs, add_thread_to_scheduler, remove_thread_from_scheduler,
  get_next_thread, scheduler_tick,
}
use os_pi_is_cool.Scheduler.Ready.{Ready, live}
use os_pi_is_cool.Scheduler.Fair.{IsCharged, wait_of}
use os_pi_is_cool.Scheduler.Refine.{Queue, Queues, is_live}
use os_pi_is_cool.Scheduler.Next.{Outcome, get_next_thread_lem, get_next_thread_fair}
use os_pi_is_cool.Scheduler.Enqueue.{
  IsUnique, occurs_in, added, removed, add_thread_to_scheduler_lem,
  remove_thread_from_scheduler_lem,
}
use os_pi_is_cool.Scheduler.Find.{occurs}
use os_pi_is_cool.Scheduler.Tick.{IsExclusive, Ticked, requeued, scheduler_tick_lem}
use os_pi_is_cool.Tests.Memory.{page_allocator}

abbrev pub thread : Tcb
thread = record {
  tid = 0;
  state = ready;
  stopped_state = ready;
  pcb = 1;
  pending_signals = 0;
  mask = 0;
  priority = 1;
  blocked_until = 0;
}

abbrev pub tcbs : Tcbs
tcbs t = if t == 30 then record thread { state = running } else thread

abbrev pub none_queued : Vec
none_queued = record {
  data_cells = 0 ∷ 0 ∷ [];
  length = 0;
  capacity = 2;
  dtor = false;
  dropped = [];
}

-- 10 was queued before 20.
abbrev pub two_queued : Vec
two_queued = record none_queued { data_cells = 20 ∷ 10 ∷ []; length = 2 }

abbrev pub queues : ℕ → Vec
queues zero = none_queued
queues (suc zero) = two_queued
queues (suc (suc p)) = none_queued

abbrev pub waiting : ℕ → List Ptr
waiting zero = []
waiting (suc zero) = 10 ∷ 20 ∷ []
waiting (suc (suc p)) = []

abbrev pub sched : Scheduler
sched = record { queues = queues; pri_counters = λ p. 3; curr_pri = 0 }

abbrev pub ready_threads : Ready
ready_threads = record { queue = waiting; counter = λ p. 3; turn = 0 }

none_queued-Queue : Queue none_queued []
none_queued-Queue = record {
  spare = 0 ∷ 0 ∷ [];
  stored = refl;
  counted = refl;
  room = omega arith;
  fits = omega arith;
  small = omega arith;
}

queues-Queue : (p : ℕ) → p < 3 → Queue (queues p) (waiting p)
queues-Queue zero lt = none_queued-Queue
queues-Queue (suc zero) lt = record {
  spare = [];
  stored = refl;
  counted = refl;
  room = omega arith;
  fits = omega arith;
  small = omega arith;
}
queues-Queue (suc (suc p)) lt = none_queued-Queue

pub sched-Queues : Queues sched ready_threads
sched-Queues = record { queues = queues-Queue; counters = refl; turn = refl }

counters-le : (p : ℕ) → 3 ≤ max_pri_cntrs p
counters-le zero = omega arith
counters-le (suc zero) = omega arith
counters-le (suc (suc p)) = omega arith

sched-IsCharged : IsCharged (λ p. 3) 0
sched-IsCharged = record { turn_in = omega arith; counters = counters-le }

pub sched-IsUnique : IsUnique ready_threads
unfolding occurs
sched-IsUnique t = ground arith

get_next_thread_lem_example :
    Ends
      (λ (s', t). (r' : Ready) × Queues s' r' × Outcome tcbs ready_threads r' t)
      ⊥
      (get_next_thread tcbs sched)
get_next_thread_lem_example =
    get_next_thread_lem tcbs sched ready_threads sched-IsCharged sched-Queues

get_next_thread_fair_example :
    Ends
      (λ (s', t).
        (r' : Ready) × Queues s' r'
        × IsCharged r'.counter r'.turn
        × (wait_of (λ p. 3) 0 1 ≤ 17)
        × ((t ≡ 10) × (live (is_live tcbs) (r'.queue 1) ≡ 20 ∷ [])
            ⊎ (live (is_live tcbs) (r'.queue 1) ≡ 10 ∷ 20 ∷ [])
              × (wait_of r'.counter r'.turn 1 < wait_of (λ p. 3) 0 1)))
      ⊥
      (get_next_thread tcbs sched)
unfolding live
get_next_thread_fair_example =
    get_next_thread_fair tcbs sched ready_threads sched-IsCharged sched-Queues 1 10 (20 ∷ [])
      (omega arith) refl

add_thread_to_scheduler_lem_example :
    Ends
      (λ s'. Queues s' (added tcbs ready_threads 40) × IsUnique (added tcbs ready_threads 40))
      (OutOfMemory page_allocator)
      (add_thread_to_scheduler page_allocator tcbs 40 sched)
add_thread_to_scheduler_lem_example =
    add_thread_to_scheduler_lem page_allocator tcbs sched ready_threads 40 sched-Queues
      (omega arith) sched-IsUnique

remove_thread_from_scheduler_lem_example :
    Ends
      (λ s'.
        Queues s' (removed ready_threads 10)
        × (◌≢◌ {A = ℕ} 10 0 → occurs_in 10 (removed ready_threads 10) ≡ 0)
        × ((u : Ptr) → u ≢ 10 → occurs_in u (removed ready_threads 10) ≡ occurs_in u ready_threads))
      ⊥
      (remove_thread_from_scheduler 10 sched)
remove_thread_from_scheduler_lem_example =
    remove_thread_from_scheduler_lem sched ready_threads 10 sched-Queues

-- Thread 30 runs on CPU 0; the other CPUs are idle.
abbrev machine : Machine
machine = record {
  tcbs = tcbs;
  sched = sched;
  curr_thread = λ c. if c == 0 then 30 else null;
  scheduler_ticks = λ c. 0;
}

machine-IsExclusive : IsExclusive machine
machine-IsExclusive = record {
  alone = λ c d ne some_c. ground arith;
  not_ready = λ c some_c. ground arith;
}

tcbs-priority : (t : Ptr) → (tcbs t).priority < 3
tcbs-priority t = ground arith

scheduler_tick_lem_example :
    Ends
      (Ticked 0 machine (requeued machine 0 ready_threads))
      (OutOfMemory page_allocator)
      (scheduler_tick page_allocator 0 machine)
scheduler_tick_lem_example =
    scheduler_tick_lem page_allocator 0 machine ready_threads
      (record { queues = sched-Queues; charged = sched-IsCharged }) sched-IsUnique tcbs-priority
      machine-IsExclusive
