-- ===== src/Tests/Turns.antt =====
-- A process of two threads, one of which is stopped and continued.
use os_pi_is_cool.Base.{ℕ, refl, arith, true, List, [], ◌∷◌}
use os_pi_is_cool.Thread.{ThreadState, ready, running, blocked_killable, Tcb}
use os_pi_is_cool.Process.{Pcb, running_state}
use os_pi_is_cool.Process.Account.{Accounts}
use os_pi_is_cool.Transitions.{Turn, stop, continue, event, run}
use os_pi_is_cool.Transitions.Account.{Follows, states, run-Follows}

abbrev a_thread : ThreadState → Tcb
a_thread st = record {
  tid = 1;
  state = st;
  stopped_state = ready;
  pcb = 8;
  pending_signals = 0;
  mask = 0;
  priority = 1;
  blocked_until = 2;
}

abbrev both : List Tcb
both = a_thread running ∷ a_thread blocked_killable ∷ []

abbrev their_process : Pcb
their_process = record {
  state = running_state;
  num_blocked_threads = 1;
  num_stopped_threads = 0;
  num_zombie_threads = 0;
  num_running_threads = 1;
}

both-Accounts : Accounts their_process (states both)
both-Accounts = record { active = refl; blocked = refl; stopped = refl; zombies = refl }

abbrev moves : List (ℕ × Turn)
moves = (0, stop true) ∷ (1, event 2) ∷ (0, continue) ∷ []

run-Follows_example :
    Follows (run moves (both, their_process)).1 (states (run moves (both, their_process)).0)
run-Follows_example = run-Follows moves both their_process (omega arith) (both-Accounts, refl)
