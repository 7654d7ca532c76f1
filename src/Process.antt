-- ===== src/Process.antt =====
-- How a process counts its threads by state (kernel/scheduler/process.c and process.h).
pub mod Account
use os_pi_is_cool.Base.{ℕ, ◌+◌, ◌%◌, ◌^◌, Bool, true, false, ◌&&◌, if◌then◌else◌, ltb}
use os_pi_is_cool.Thread.{
  ThreadState, unused, ready, running, stopped, zombie, blocked_interruptable,
  blocked_uninteruptable, blocked_killable,
}

-- `enum process_state`
pub data ProcessState : Type 0 where
  unused_state running_state blocked_state stopped_state zombie_state : ProcessState

-- The part of `pcb_t` that follows the threads.
pub record Pcb : Type 0 where
  pub state : ProcessState
  pub num_blocked_threads : ℕ
  pub num_stopped_threads : ℕ
  pub num_zombie_threads : ℕ
  pub num_running_threads : ℕ

-- `++`, `--` and `> 0` on the 32 bits of an `int`.
abbrev pub inc : ℕ → ℕ
inc n = (n + 1) % 2 ^ 32

abbrev pub dec : ℕ → ℕ
dec n = (n + 4294967295) % 2 ^ 32

abbrev pub is_positive : ℕ → Bool
is_positive n = ltb 0 n && ltb n (2 ^ 31)

-- The first `switch` of `pcb_thread_change_state`.
pub leave : Pcb → ThreadState → Pcb
leave p unused = p
leave p ready = record p { num_running_threads = dec p.num_running_threads }
leave p running = record p { num_running_threads = dec p.num_running_threads }
leave p stopped = record p { num_stopped_threads = dec p.num_stopped_threads }
leave p zombie = record p { num_zombie_threads = dec p.num_zombie_threads }
leave p blocked_interruptable = record p { num_blocked_threads = dec p.num_blocked_threads }
leave p blocked_uninteruptable = record p { num_blocked_threads = dec p.num_blocked_threads }
leave p blocked_killable = record p { num_blocked_threads = dec p.num_blocked_threads }

-- The second one.
pub enter : Pcb → ThreadState → Pcb
enter p unused = p
enter p ready = record p { num_running_threads = inc p.num_running_threads }
enter p running = record p { num_running_threads = inc p.num_running_threads }
enter p stopped = record p { num_stopped_threads = inc p.num_stopped_threads }
enter p zombie = record p { num_zombie_threads = inc p.num_zombie_threads }
enter p blocked_interruptable = record p { num_blocked_threads = inc p.num_blocked_threads }
enter p blocked_uninteruptable = record p { num_blocked_threads = inc p.num_blocked_threads }
enter p blocked_killable = record p { num_blocked_threads = inc p.num_blocked_threads }

-- The rest: the state of the process, and whether `send_sigchld` is called for it.
pub settle : Pcb → Pcb × Bool
settle p =
    if is_positive p.num_running_threads
    then (record p { state = running_state }, true)
    else if is_positive p.num_blocked_threads
    then (record p { state = blocked_state }, false)
    else if is_positive p.num_stopped_threads
    then (record p { state = stopped_state }, true)
    else (record p { state = zombie_state }, true)

pub pcb_thread_change_state : Pcb → ThreadState → ThreadState → Pcb × Bool
pcb_thread_change_state p old new = settle (enter (leave p old) new)
