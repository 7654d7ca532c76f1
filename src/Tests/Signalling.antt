-- ===== src/Tests/Signalling.antt =====
-- The signal masks and actions.
use os_pi_is_cool.Base.{ℕ, ◌≡◌, refl, Option, some, List, [], ◌∷◌}
use os_pi_is_cool.Signals.{Handlers, SigAction, sig_set, sig_block, sigprocmask}
use os_pi_is_cool.Signals.Actions.{run, StillDefault, run-StillDefault}
use os_pi_is_cool.Signals.Masks.{sigprocmask-sig_set}

abbrev handlers : Handlers
handlers = record { sig_dfl = 4096; sig_ign = 4100; dfl_is_code = refl; ign_is_code = refl }

abbrev actions : ℕ → SigAction
actions signum = record { sa_handler = 4096; sa_mask = 0; sa_flags = 0 }

-- A handler at 8192 for SIGINT, then for SIGKILL, which is refused, and SIG_IGN for SIGSTOP.
abbrev calls : List (ℕ × Option SigAction)
calls =
    (2, some (record { sa_handler = 8192; sa_mask = 0; sa_flags = 0 }))
    ∷ (9, some (record { sa_handler = 8192; sa_mask = 0; sa_flags = 0 }))
    ∷ (10, some (record { sa_handler = 1; sa_mask = 0; sa_flags = 0 }))
    ∷ []

run-StillDefault_example : StillDefault handlers (run handlers calls actions)
run-StillDefault_example = run-StillDefault handlers calls actions (refl, refl)

sigprocmask-sig_set_example :
    (old : ℕ) × (new : ℕ) × ((sigprocmask sig_block (some 512) (some 4)).0 ≡ some new)
    × ((sigprocmask sig_block (some 512) (some 4)).1 ≡ some old)
    × ((sigprocmask sig_set (some old) (some new)).0 ≡ some 4)
sigprocmask-sig_set_example = sigprocmask-sig_set sig_block 512 4
