-- ===== src/Signals/Actions.antt =====
-- What no `sigaction` can change: SIGKILL and SIGSTOP keep their default action.
use os_pi_is_cool.Base.{
  ℕ, ◌≡◌, arith, false, not, ◌&&◌, ◌||◌, Option, none, some, List, [], ◌∷◌, ◌==◌, inl, inr,
  Bool-cases,
}
use os_pi_is_cool.Thread.{update}
use os_pi_is_cool.Signals.{
  Handlers, user_sig_dfl, sigkill, sigstop, SigAction, is_no_signal, installed, sigaction,
}

-- The actions after the calls, each with a signal and what is asked for it.
abbrev pub run : Handlers → List (ℕ × Option SigAction) → (ℕ → SigAction) → Option (ℕ → SigAction)
run hs [] actions = some actions
run hs ((signum, sa) ∷ calls) actions = elim (sigaction hs signum sa (some actions)).0 [
  | none ↦ none
  | some actions' ↦ run hs calls actions'
]

abbrev pub IsDefault : Handlers → (ℕ → SigAction) → Type 0
IsDefault hs actions =
    ((actions sigkill).sa_handler ≡ hs.sig_dfl) × ((actions sigstop).sa_handler ≡ hs.sig_dfl)

-- The default action of both, in the actions left by one call.
abbrev pub StillDefault : Handlers → Option (ℕ → SigAction) → Type 0
StillDefault hs none = ⊥
StillDefault hs (some actions) = IsDefault hs actions

installed-IsDefault :
    (hs : Handlers) (signum : ℕ) (sa : SigAction) (actions : ℕ → SigAction)
    → ((signum == sigkill || signum == sigstop)
        && (not (sa.sa_handler == user_sig_dfl) && not (sa.sa_handler == hs.sig_dfl)))
      ≡ false
    → IsDefault hs actions
    → IsDefault hs (update actions signum (installed hs sa))
installed-IsDefault hs signum sa actions allowed (kill, stop) =
    (ground (arith, kill, allowed, hs.dfl_is_code), ground (arith, stop, allowed, hs.dfl_is_code))

pub sigaction-StillDefault :
    (hs : Handlers) (signum : ℕ) (sa : Option SigAction) (actions : ℕ → SigAction)
    → IsDefault hs actions
    → StillDefault hs (sigaction hs signum sa (some actions)).0
unfolding sigaction
sigaction-StillDefault hs signum none actions h = elim (Bool-cases (is_no_signal signum)) [
  | inl e ↦ rw e h
  | inr e ↦ rw e h
]
sigaction-StillDefault hs signum (some sa) actions h = elim (Bool-cases (is_no_signal signum)) [
  | inl e ↦ rw e h
  | inr e ↦
      elim (Bool-cases (
        (signum == sigkill || signum == sigstop)
        && (not (sa.sa_handler == user_sig_dfl) && not (sa.sa_handler == hs.sig_dfl)))) [
          | inl refused ↦ rw (e, refused) h
          | inr allowed ↦ rw (e, allowed) (installed-IsDefault hs signum sa actions allowed h)
        ]
]

-- If SIGKILL and SIGSTOP have the default action, they keep it whatever `sigaction` calls a
-- process makes.
pub run-StillDefault :
    (hs : Handlers) (calls : List (ℕ × Option SigAction)) (actions : ℕ → SigAction)
    → IsDefault hs actions
    → StillDefault hs (run hs calls actions)
run-StillDefault hs [] actions h = h
run-StillDefault hs ((signum, sa) ∷ calls) actions h =
    go (sigaction hs signum sa (some actions)).0 (sigaction-StillDefault hs signum sa actions h)
      (λ actions'. run-StillDefault hs calls actions')
  where
    go :
        (o : Option (ℕ → SigAction))
        → StillDefault hs o
        → ((actions' : ℕ → SigAction)
            → IsDefault hs actions'
            → StillDefault hs (run hs calls actions'))
        → StillDefault hs (elim o [ none ↦ none | some actions' ↦ run hs calls actions' ])
    go none bad rest = bad
    go (some actions') h' rest = rest actions' h'
