-- ===== src/Transitions.antt =====
-- How a thread is stopped, continued, blocked, unblocked and terminated (kernel/threading/thread.c).
-- The calls of the terminal, of `send_sigchld`, of the scheduler and of `schedule_yield` are what a
-- transition returns, in order; a transition up to `schedule_yield` is one step.
pub mod Account
use os_pi_is_cool.Base.{
  ℕ, zero, suc, Bool, true, false, not, ◌&&◌, ◌||◌, List, [], ◌∷◌, ◌++◌, if◌then◌else◌, ◌==◌,
  bit_and,
}
use os_pi_is_cool.Thread.{
  ThreadState, unused, ready, running, stopped, zombie, blocked_interruptable,
  blocked_uninteruptable, blocked_killable, Tcb, is_running, is_blocked, is_stopped, is_zombie,
}
use os_pi_is_cool.Process.{Pcb, pcb_thread_change_state}

-- `tty_session_process_stop`, `_exit` and `_continue`, `send_sigchld`, `schedule_yield` and
-- `add_thread_to_scheduler`.
pub data Call : Type 0 where
  session_stop session_exit session_continue sigchld yields scheduled : Call

pub record Turned : Type 0 where
  pub tcb : Tcb
  pub pcb : Pcb
  pub calls : List Call

abbrev pub unturned : Tcb → Pcb → Turned
unturned t p = record { tcb = t; pcb = p; calls = [] }

-- The thread gets a state and its process counts it; some calls come before and some after.
abbrev pub turn_into : ThreadState → List Call → List Call → Tcb → Pcb → Turned
turn_into new before after t p =
    let (p', told) = pcb_thread_change_state p t.state new in
    record {
      tcb = record t { state = new };
      pcb = p';
      calls = before ++ (if told then sigchld ∷ after else after);
    }

abbrev pub yield_if : Bool → List Call
yield_if current = if current then yields ∷ [] else []

-- `current` is whether the thread is the one that runs on this CPU.
abbrev pub stop_thread : Bool → Tcb → Pcb → Turned
stop_thread current t p =
    if is_stopped t.state
    then unturned t p
    else turn_into stopped (session_stop ∷ []) (yield_if current)
        (record t { stopped_state = t.state }) p

abbrev pub terminate_thread : Bool → Tcb → Pcb → Turned
terminate_thread current t p =
    if is_zombie t.state
    then unturned t p
    else turn_into zombie (session_exit ∷ []) (yield_if current) t p

abbrev pub block_thread : Bool → ThreadState → Tcb → Pcb → Turned
block_thread current st t p =
    if not (is_blocked st) then unturned t p else turn_into st [] (yield_if current) t p

-- `tcb` is not NULL.
abbrev pub unblock_thread : Tcb → Pcb → Turned
unblock_thread t p =
    if not (is_blocked t.state)
    then unturned t p
    else turn_into ready [] (scheduled ∷ []) (record t { blocked_until = 0 }) p

-- The state that a thread is continued in.
abbrev pub resumed : Tcb → ThreadState
resumed t =
    if is_running t.stopped_state
    then ready
    else if is_blocked t.stopped_state && (t.blocked_until == 0)
    then ready
    else t.stopped_state

abbrev pub is_ready_again : ThreadState → List Call
is_ready_again ready = scheduled ∷ []
is_ready_again _ = []

abbrev pub continue_thread : Tcb → Pcb → Turned
continue_thread t p =
    if not (is_stopped t.state)
    then unturned t p
    else turn_into (resumed t) (session_continue ∷ []) (is_ready_again (resumed t))
        (record t { stopped_state = ready }) p

-- `send_unblock_event` on the thread that it looks up, and what it returns.
abbrev pub send_unblock_event : ℕ → Tcb → Pcb → Turned × Bool
send_unblock_event event t p =
    if not (is_blocked t.state)
    then (unturned t p, false)
    else if not (bit_and t.blocked_until event == 0)
    then (unblock_thread t p, true)
    else (unturned t p, false)

-- A transition of one thread.
pub data Turn : Type 0 where
  stop terminate : Bool → Turn
  block : Bool → ThreadState → Turn
  unblock continue : Turn
  event : ℕ → Turn

abbrev pub turn : Turn → Tcb → Pcb → Turned
turn (stop current) t p = stop_thread current t p
turn (terminate current) t p = terminate_thread current t p
turn (block current st) t p = block_thread current st t p
turn unblock t p = unblock_thread t p
turn continue t p = continue_thread t p
turn (event e) t p = (send_unblock_event e t p).0

-- A transition of the thread at an index of the process, and transitions in order.
abbrev pub turn_at : ℕ → Turn → List Tcb → Pcb → List Tcb × Pcb
turn_at i a [] p = ([], p)
turn_at zero a (t ∷ ts) p = let r = turn a t p in (r.tcb ∷ ts, r.pcb)
turn_at (suc i) a (t ∷ ts) p = let r = turn_at i a ts p in (t ∷ r.0, r.1)

abbrev pub run : List (ℕ × Turn) → List Tcb × Pcb → List Tcb × Pcb
run [] s = s
run ((i, a) ∷ later) (ts, p) = run later (turn_at i a ts p)
