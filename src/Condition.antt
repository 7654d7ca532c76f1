-- ===== src/Condition.antt =====
-- Condition variables (kernel/threading/cond_var.c), whose `wake_thread` is the same code as that of
-- the semaphores. A call runs up to `schedule_yield`; a thread that gave up its CPU in `cond_wait`
-- goes on with `mutex_lock` when it is woken up. No caller passes NULL.
pub mod Signal
use os_pi_is_cool.Base.{
  ℕ, zero, suc, Bool, true, false, not, if◌then◌else◌, ◌==◌, Run, ok, ◌>>=◌, Ptr, null, Allocator,
}
use os_pi_is_cool.Vec.{Vec, vec_new, get, push_back, erase, is_empty, clear}
use os_pi_is_cool.Thread.{stopped, set_state}
use os_pi_is_cool.Waking.{World}
use os_pi_is_cool.Semaphore.{Reply, returned, failed, yielded, wake_thread}
use os_pi_is_cool.Mutex.{Mutex, my_tid, mutex_unlock}

-- `lock` is the address of the mutex.
pub record Condition : Type 0 where
  pub lock : Ptr
  pub waiting_threads : Vec

pub cond_init : Allocator → Ptr → Run (Condition × Reply)
cond_init k lock =
    vec_new k 2 false >>= λ v. ok (record { lock = lock; waiting_threads = v }, returned)

-- `cond_wait` on the mutex at the address, up to the yield. What `mutex_unlock` returns is not read.
pub cond_wait :
    Allocator → Condition → Ptr → Mutex → World → Run (Condition × Mutex × World × Reply)
cond_wait k c lock mx w =
    if not (c.lock == lock)
    then ok (c, mx, w, failed)
    else if w.current == null
    then ok (c, mx, w, failed)
    else push_back k c.waiting_threads (my_tid w) >>= λ v.
        mutex_unlock k mx w >>= λ (mx', w', reply). ok (
          record c { waiting_threads = v },
          mx',
          record w' { tcbs = set_state w'.tcbs w.current stopped },
          yielded,
        )

-- The thread that waits longest is taken off the queue and woken up.
pub wake_first : Allocator → Vec → World → Run (Vec × World)
wake_first k v w = get v 0 >>= λ tid. erase v 0 >>= λ v'. wake_thread k tid w >>= λ w'. ok (v', w')

pub cond_signal : Allocator → Condition → World → Run (Condition × World × Reply)
cond_signal k c w =
    if c.waiting_threads.length == 0
    then ok (c, w, returned)
    else wake_first k c.waiting_threads w >>= λ (v, w').
        ok (record c { waiting_threads = v }, w', returned)

-- The loop of `cond_broadcast`; each round takes one thread off, so that `length` rounds are enough.
pub wake_all : ℕ → Allocator → Vec → World → Run (Vec × World)
wake_all zero k v w = ok (v, w)
wake_all (suc n) k v w =
    if v.length == 0 then ok (v, w) else wake_first k v w >>= λ (v', w'). wake_all n k v' w'

pub cond_broadcast : Allocator → Condition → World → Run (Condition × World × Reply)
cond_broadcast k c w = wake_all c.waiting_threads.length k c.waiting_threads w >>= λ (v, w').
    ok (record c { waiting_threads = v }, w', returned)

pub cond_destroy : Condition → Run (Condition × Reply)
cond_destroy c =
    if not (c.waiting_threads.length == 0)
    then ok (c, failed)
    else clear c.waiting_threads >>= λ v. ok (record { lock = null; waiting_threads = v }, returned)
