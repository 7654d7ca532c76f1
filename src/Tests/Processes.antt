-- ===== src/Tests/Processes.antt =====
-- The threads of a process.
use os_pi_is_cool.Base.{refl, arith, [], ◌∷◌}
use os_pi_is_cool.Thread.{stopped, zombie, blocked_killable}
use os_pi_is_cool.Process.{Pcb, blocked_state, pcb_thread_change_state}
use os_pi_is_cool.Process.Account.{Accounts, Settled, pcb_thread_change_state_lem}

-- A process with a stopped thread, a blocked one, and a zombie.
abbrev three_threads : Pcb
three_threads = record {
  state = blocked_state;
  num_blocked_threads = 1;
  num_stopped_threads = 1;
  num_zombie_threads = 1;
  num_running_threads = 0;
}

three_threads-Accounts : Accounts three_threads (stopped ∷ blocked_killable ∷ zombie ∷ [])
three_threads-Accounts = record { active = refl; blocked = refl; stopped = refl; zombies = refl }

pcb_thread_change_state_lem_example :
    Settled
      (stopped ∷ zombie ∷ zombie ∷ [])
      (pcb_thread_change_state three_threads blocked_killable zombie)
pcb_thread_change_state_lem_example =
    pcb_thread_change_state_lem (stopped ∷ []) (zombie ∷ []) blocked_killable zombie (omega arith)
      three_threads-Accounts
