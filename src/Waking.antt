-- ===== src/Waking.antt =====
-- What the locks of kernel/threading share: the lookup of a thread by number (`thread_get_by_tid` of
-- kernel/threading/thread.c), and how a stopped thread is made ready again.
pub mod Awake
use os_pi_is_cool.Base.{
  ℕ, ◌+◌, ◌%◌, ◌^◌, Bool, true, false, not, ◌&&◌, ◌||◌, if◌then◌else◌, ◌==◌, ltb, leb, Run, ok,
  ◌>>=◌, Ptr, null, Allocator,
}
use os_pi_is_cool.Vec.{Vec, vec_new, get, push_back, erase, is_empty, destroy}
use os_pi_is_cool.Thread.{Tcb, Tcbs, unused, ready, stopped, is_stopped, set_state, ThreadState}
use os_pi_is_cool.Scheduler.{Scheduler, add_thread_to_scheduler}

-- What the calls work on beside their lock: the table `threads`, the control blocks, the ready
-- queues, and the thread that runs, or NULL.
pub record World : Type 0 where
  pub threads : Vec
  pub tcbs : Tcbs
  pub sched : Scheduler
  pub current : Ptr

abbrev pub is_unused : ThreadState → Bool
is_unused unused = true
is_unused _ = false

-- The sign of an `int`.
abbrev pub is_negative : ℕ → Bool
is_negative n = leb (2 ^ 31) n

-- `tid` is the 32 bits of a `tid_t`.
pub thread_get_by_tid : World → ℕ → Run Ptr
thread_get_by_tid w tid =
    if is_negative tid || leb w.threads.length tid
    then ok null
    else get w.threads tid >>= λ t. ok (if t == null || is_unused (w.tcbs t).state then null else t)

-- The thread is made ready and given to the scheduler.
abbrev pub make_ready : Allocator → Ptr → World → Run World
make_ready k t w = add_thread_to_scheduler k (set_state w.tcbs t ready) t w.sched >>= λ s.
    ok (record w { tcbs = set_state w.tcbs t ready; sched = s })
