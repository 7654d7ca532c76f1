-- ===== src/Semaphore.antt =====
-- Counting semaphores (kernel/threading/semaphore.c). A call runs up to `schedule_yield`, where the
-- caller gives up its CPU and is resumed when it is woken up. The registry of locks and the names in
-- it, which only the listing of locks reads, are left out. No caller passes NULL for the semaphore.
pub mod Tokens
pub mod Post
use os_pi_is_cool.Base.{
  ℕ, ◌+◌, ◌%◌, ◌^◌, Bool, true, false, not, ◌&&◌, ◌||◌, if◌then◌else◌, ◌==◌, ltb, leb, Run, ok,
  ◌>>=◌, Ptr, null, Allocator,
}
use os_pi_is_cool.Vec.{Vec, vec_new, get, push_back, erase, is_empty, destroy}
use os_pi_is_cool.Thread.{Tcb, Tcbs, unused, ready, stopped, is_stopped, set_state, ThreadState}
use os_pi_is_cool.Scheduler.{Scheduler, add_thread_to_scheduler}
use os_pi_is_cool.Waking.{World, is_negative, thread_get_by_tid, make_ready}

-- `count` is the 32 bits of an `int`.
pub record Semaphore : Type 0 where
  pub count : ℕ
  pub waiting_threads : Vec

-- How a call ends: it returns a number (-1 is `failed`), or the thread gives up its CPU in
-- `schedule_yield` and returns 0 when it runs again.
pub data Reply : Type 0 where
  returned failed yielded : Reply

pub wake_thread : Allocator → ℕ → World → Run World
wake_thread k tid w =
    if w.current == null
    then ok w
    else thread_get_by_tid w tid >>= λ t.
        if t == null || not (is_stopped (w.tcbs t).state) then ok w else make_ready k t w

pub sem_init : Allocator → ℕ → Semaphore → Run (Semaphore × Reply)
sem_init k initial sem =
    if is_negative initial
    then ok (sem, failed)
    else vec_new k 2 false >>= λ v. ok (record { count = initial; waiting_threads = v }, returned)

pub sem_wait : Allocator → Semaphore → World → Run (Semaphore × World × Reply)
sem_wait k sem w =
    let count = (sem.count + 4294967295) % 2 ^ 32 in
    let taken = record sem { count = count } in
    if not (is_negative count)
    then ok (taken, w, returned)
    else if w.current == null
    then ok (taken, w, failed)
    else push_back k sem.waiting_threads (w.tcbs w.current).tid >>= λ v. ok (
      record taken { waiting_threads = v },
      record w { tcbs = set_state w.tcbs w.current stopped },
      yielded,
    )

-- Whether `count <= 0`.
abbrev pub has_waiters : ℕ → Bool
has_waiters count = is_negative count || count == 0

-- The thread that waits longest is taken off the queue and woken up.
pub hand_over : Allocator → ℕ → Vec → World → Run (Semaphore × World × Reply)
hand_over k count waiting w = get waiting 0 >>= λ tid. erase waiting 0 >>= λ v.
    wake_thread k tid w >>= λ w'. ok (record { count = count; waiting_threads = v }, w', returned)

pub sem_post : Allocator → Semaphore → World → Run (Semaphore × World × Reply)
sem_post k sem w =
    let count = (sem.count + 1) % 2 ^ 32 in
    if has_waiters count && not (is_empty sem.waiting_threads)
    then hand_over k count sem.waiting_threads w
    else ok (record sem { count = count }, w, returned)

pub sem_destroy : Semaphore → Run (Semaphore × Reply)
sem_destroy sem =
    if not (is_empty sem.waiting_threads)
    then ok (sem, failed)
    else destroy sem.waiting_threads >>= λ v.
        ok (record { count = 0; waiting_threads = v }, returned)
