-- ===== src/Mutex.antt =====
-- Mutexes (kernel/threading/mutex.c). A call runs up to `schedule_yield`; a thread that gave up its
-- CPU in `mutex_lock` goes on with the next round of the loop when it is woken up. The registry of
-- locks and the names in it are left out. No caller passes NULL for the mutex.
pub mod Owner
pub mod Unlock
use os_pi_is_cool.Base.{
  ℕ, ◌+◌, ◌%◌, ◌^◌, Bool, true, false, not, ◌&&◌, ◌||◌, Option, none, some, if◌then◌else◌, ◌==◌,
  Run, ok, fault, ◌>>=◌, Ptr, null, Allocator,
}
use os_pi_is_cool.Vec.{Vec, vec_new, push_back, pop_back, is_empty, destroy}
use os_pi_is_cool.Thread.{Tcb, stopped, set_state}
use os_pi_is_cool.Waking.{World, thread_get_by_tid, make_ready}
use os_pi_is_cool.Semaphore.{Reply, returned, failed, yielded}

-- `owner_tid` and `lock_count` are the 32 bits of an `int`.
pub record Mutex : Type 0 where
  pub owner_tid : ℕ
  pub lock_count : ℕ
  pub waiting_threads : Vec

-- `-1`
abbrev pub no_owner : ℕ
no_owner = 4294967295

pub mutex_init : Allocator → Mutex → Run (Mutex × Reply)
mutex_init k mx = vec_new k 4 false >>= λ v.
    ok (record { owner_tid = no_owner; lock_count = 0; waiting_threads = v }, returned)

-- The number of the thread that runs.
abbrev pub my_tid : World → ℕ
my_tid w = (w.tcbs w.current).tid

-- One round of the loop of `mutex_lock`, and what follows the loop.
pub mutex_lock : Allocator → Mutex → World → Run (Mutex × World × Reply)
mutex_lock k mx w =
    if w.current == null
    then ok (mx, w, failed)
    else if not (mx.owner_tid == no_owner)
    then (push_back k mx.waiting_threads (my_tid w) >>= λ v. ok (
      record mx { waiting_threads = v },
      record w { tcbs = set_state w.tcbs w.current stopped },
      yielded,
    ))
    else ok (record mx { owner_tid = my_tid w; lock_count = 1 }, w, returned)

pub mutex_trylock : Mutex → World → Run (Mutex × World × Reply)
mutex_trylock mx w =
    if w.current == null || not (mx.owner_tid == no_owner)
    then ok (mx, w, failed)
    else ok (record mx { owner_tid = my_tid w; lock_count = 1 }, w, returned)

-- The thread of the number is made ready, whatever its state.
pub wake_waiting : Allocator → ℕ → World → Run World
wake_waiting k tid w = thread_get_by_tid w tid >>= λ t. if t == null then ok w else make_ready k t w

-- The thread that was taken off the list, through the pointer given to `vec_pop_back`, is woken up.
abbrev pub wake_popped :
    Allocator → Mutex → World → Vec × Bool × Option Ptr → Run (Mutex × World × Reply)
wake_popped k mx w (v, took, none) = fault
wake_popped k mx w (v, took, some tid) =
    wake_waiting k tid w >>= λ w'. ok (record mx { waiting_threads = v }, w', returned)

-- The mutex has no owner now; one waiting thread is taken off the list and woken up.
pub release : Allocator → Mutex → World → Run (Mutex × World × Reply)
release k mx w =
    if is_empty mx.waiting_threads
    then ok (mx, w, returned)
    else pop_back true mx.waiting_threads >>= λ popped. wake_popped k mx w popped

pub mutex_unlock : Allocator → Mutex → World → Run (Mutex × World × Reply)
mutex_unlock k mx w =
    if w.current == null || not (mx.owner_tid == my_tid w)
    then ok (mx, w, failed)
    else let count = (mx.lock_count + 4294967295) % 2 ^ 32 in
      if count == 0
      then release k (record mx { lock_count = count; owner_tid = no_owner }) w
      else ok (record mx { lock_count = count }, w, returned)

pub mutex_destroy : Mutex → Run (Mutex × Reply)
mutex_destroy mx =
    if not (mx.owner_tid == no_owner) || not (is_empty mx.waiting_threads)
    then ok (mx, failed)
    else destroy mx.waiting_threads >>= λ v. ok (record mx { waiting_threads = v }, returned)
