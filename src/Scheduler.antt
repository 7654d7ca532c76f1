-- ===== src/Scheduler.antt =====
-- The ready queues and the choice of the next thread of kernel/scheduler/scheduler.c. The three
-- queues and their counters are functions of the priority. Each function runs under
-- `scheduler_lock`, so that it is one step; what the other threads do is between the calls.
pub mod Ready
pub mod Fair
pub mod Find
pub mod Refine
pub mod Next
pub mod Enqueue
pub mod Tick
use os_pi_is_cool.Base.{
  ℕ, zero, suc, ◌+◌, ◌%◌, ◌^◌, Bool, true, false, not, ◌&&◌, ◌||◌, Option, none, some,
  if◌then◌else◌, ◌==◌, ltb, leb, Run, ok, fault, ◌>>=◌, Ptr, null, Allocator,
}
use os_pi_is_cool.Vec.{Vec, is_empty, get, insert, erase, pop_back}
use os_pi_is_cool.Thread.{Tcb, Tcbs, ready, running, is_ready, is_running, set_state, update}

pub record Scheduler : Type 0 where
  pub queues : ℕ → Vec
  pub pri_counters : ℕ → ℕ
  pub curr_pri : ℕ

-- `MAX_PRI_CNTRS`
abbrev pub max_pri_cntrs : ℕ → ℕ
max_pri_cntrs zero = 9
max_pri_cntrs (suc zero) = 6
max_pri_cntrs (suc (suc _)) = 4

abbrev pub next_pri : ℕ → ℕ
next_pri p = (p + 1) % 3

-- Whether one of the elements from `i` on is the thread, with the elements left.
pub queue_has : ℕ → ℕ → Vec → Ptr → Run Bool
queue_has zero i v t = ok false
queue_has (suc n) i v t =
    let rest = queue_has n (i + 1) v t in get v i >>= λ x. if x == t then ok true else rest

-- The loop over the priorities, with those left.
pub queues_have : ℕ → ℕ → (ℕ → Vec) → Ptr → Run Bool
queues_have zero p queues t = ok false
queues_have (suc n) p queues t =
    let rest = queues_have n (p + 1) queues t in
    queue_has (queues p).length 0 (queues p) t >>= λ found. if found then ok true else rest

pub add_thread_to_scheduler : Allocator → Tcbs → Ptr → Scheduler → Run Scheduler
add_thread_to_scheduler k m t s =
    if t == null || not (is_ready (m t).state)
    then ok s
    else queues_have 3 0 s.queues t >>= λ found.
        if found
        then ok s
        else if leb 3 (m t).priority
        then fault
        else insert k (s.queues (m t).priority) 0 t >>= λ v.
            ok (record s { queues = update s.queues (m t).priority v })

-- The inner loop of `remove_thread_from_scheduler`; every round takes one off `length - i`.
pub remove_from_queue : ℕ → ℕ → Ptr → Vec → Run Vec
remove_from_queue zero i t v = ok v
remove_from_queue (suc n) i t v =
    let erased = erase v i >>= λ w. remove_from_queue n i t w in
    let kept = remove_from_queue n (i + 1) t v in get v i >>= λ x. if x == t then erased else kept

pub remove_from_queues : ℕ → ℕ → Ptr → (ℕ → Vec) → Run (ℕ → Vec)
remove_from_queues zero p t queues = ok queues
remove_from_queues (suc n) p t queues = remove_from_queue (queues p).length 0 t (queues p) >>= λ v.
    remove_from_queues n (p + 1) t (update queues p v)

pub remove_thread_from_scheduler : Ptr → Scheduler → Run Scheduler
remove_thread_from_scheduler t s =
    if t == null
    then ok s
    else remove_from_queues 3 0 t s.queues >>= λ queues. ok (record s { queues = queues })

-- The `while` of `get_next_thread_locked`: elements are taken off until one is a ready thread. Every
-- round takes one off, so that `length` rounds are enough.
pop_ready : ℕ → Tcbs → Vec → Run (Vec × Option Ptr)
pop_ready zero m v = ok (v, none)
pop_ready (suc n) m v = elim (is_empty v) [
  | true ↦ ok (v, none)
  | false ↦ pop_back true v >>= λ (w, took, got). elim got [
    | none ↦ fault
    | some t ↦ elim (t == null || not (is_ready (m t).state)) [
      | true ↦ pop_ready n m w
      | false ↦ ok (w, some t)
    ]
  ]
]

-- The counter of the current priority, and the turn, after one more thread of it was chosen.
pub charge : Scheduler → Scheduler
charge s =
    let c = s.pri_counters s.curr_pri + 1 in
    if ltb (max_pri_cntrs s.curr_pri) c
    then record s {
      pri_counters = update s.pri_counters s.curr_pri 0;
      curr_pri = next_pri s.curr_pri;
    }
    else record s { pri_counters = update s.pri_counters s.curr_pri c }

-- The `for`, with the priorities left to check.
next_from : ℕ → Tcbs → Scheduler → Run (Scheduler × Ptr)
next_from zero m s = ok (s, null)
next_from (suc n) m s =
    pop_ready (s.queues s.curr_pri).length m (s.queues s.curr_pri) >>= λ (v, got).
    let s' = record s { queues = update s.queues s.curr_pri v } in
    elim got [
      | some t ↦ ok (charge s', t)
      | none ↦ next_from n m (record s' { curr_pri = next_pri s.curr_pri })
    ]

pub get_next_thread : Tcbs → Scheduler → Run (Scheduler × Ptr)
get_next_thread m s = next_from 3 m s

-- What `scheduler_tick` works on: the threads, the queues, and `curr_thread` and
-- `scheduler_ticks` of each CPU.
pub record Machine : Type 0 where
  pub tcbs : Tcbs
  pub sched : Scheduler
  pub curr_thread : ℕ → Ptr
  pub scheduler_ticks : ℕ → ℕ

-- The part of `scheduler_tick` behind the return of the current thread to its queue.
dispatch : ℕ → Tcbs → Machine → Scheduler → Run Machine
dispatch cpu saved w s = get_next_thread saved s >>= λ (s', t). ok (record {
  tcbs = if t == null then saved else set_state saved t running;
  sched = s';
  curr_thread = update w.curr_thread cpu t;
  scheduler_ticks = update w.scheduler_ticks cpu ((w.scheduler_ticks cpu + 1) % 2 ^ 64);
})

-- `scheduler_tick` on a CPU up to the context switch. The next thread's context is loaded then, or
-- the idle context if `curr_thread` of the CPU is NULL.
pub scheduler_tick : Allocator → ℕ → Machine → Run Machine
scheduler_tick k cpu w =
    let curr = w.curr_thread cpu in
    let yields = not (curr == null) && is_running (w.tcbs curr).state in
    let saved = if yields then set_state w.tcbs curr ready else w.tcbs in
    (if yields then add_thread_to_scheduler k saved curr w.sched else ok w.sched) >>= λ s.
    dispatch cpu saved w s
