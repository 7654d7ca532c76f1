-- ===== src/Signals.antt =====
-- The signal masks and actions of kernel/signals/signals.c: `sigaction`, `sigprocmask` and the
-- operations on sets of signals. A set is the 32 bits of a `signalset_t`. Delivery is not modelled.
pub mod Actions
pub mod Masks
use os_pi_is_cool.Base.{
  ℕ, ◌-◌, ◌^◌, ◌≡◌, bit_and, bit_or, Bool, true, false, not, ◌&&◌, ◌||◌, Option, none, some,
  if◌then◌else◌, ◌==◌, leb, Ptr,
}
use os_pi_is_cool.Thread.{update}

-- The addresses that the linker gives to `SIG_DFL` and `SIG_IGN`; no function stands at the addresses
-- 0 and 1, which user programs pass for them.
pub record Handlers : Type 0 where
  pub sig_dfl : Ptr
  pub sig_ign : Ptr
  pub dfl_is_code : leb 2 sig_dfl ≡ true
  pub ign_is_code : leb 2 sig_ign ≡ true

abbrev pub user_sig_dfl : Ptr
user_sig_dfl = 0

abbrev pub user_sig_ign : Ptr
user_sig_ign = 1

abbrev pub sigkill : ℕ
sigkill = 9

abbrev pub sigstop : ℕ
sigstop = 10

-- `struct sigaction`
pub record SigAction : Type 0 where
  pub sa_handler : Ptr
  pub sa_mask : ℕ
  pub sa_flags : ℕ

-- The numbers returned: 0, or the name of an error.
pub data Status : Type 0 where
  success esrch einval efault : Status

-- `signum < 0 || signum >= 32` on the 32 bits of an `int`.
abbrev pub is_no_signal : ℕ → Bool
is_no_signal signum = leb 32 signum

-- `pcb->sigactions[signum] = *sa` with the handlers that user programs pass replaced.
abbrev pub installed : Handlers → SigAction → SigAction
installed hs sa =
    if sa.sa_handler == user_sig_dfl
    then record sa { sa_handler = hs.sig_dfl }
    else if sa.sa_handler == user_sig_ign
    then record sa { sa_handler = hs.sig_ign }
    else sa

-- The array `sigactions` of the current process, NULL if there is none. The result has what is
-- written through `old` where that is not NULL.
pub sigaction :
    Handlers
    → ℕ
    → Option SigAction
    → Option (ℕ → SigAction)
    → Option (ℕ → SigAction) × Option SigAction × Status
sigaction hs signum sa none = (none, none, esrch)
sigaction hs signum none (some actions) =
    if is_no_signal signum then (some actions, none, einval) else (some actions, none, efault)
sigaction hs signum (some sa) (some actions) =
    if is_no_signal signum
    then (some actions, none, einval)
    else if (signum == sigkill || signum == sigstop)
        && (not (sa.sa_handler == user_sig_dfl) && not (sa.sa_handler == hs.sig_dfl))
    then (some actions, some (actions signum), einval)
    else (some (update actions signum (installed hs sa)), some (actions signum), success)

abbrev pub sig_block : ℕ
sig_block = 0

abbrev pub sig_unblock : ℕ
sig_unblock = 1

abbrev pub sig_set : ℕ
sig_set = 2

-- `~set`
abbrev pub complement : ℕ → ℕ
complement set = 4294967295 - set

-- `sigprocmask` on the mask of the current thread, NULL if there is none, with what is written
-- through `oldset` where that is not NULL.
pub sigprocmask : ℕ → Option ℕ → Option ℕ → Option ℕ × Option ℕ × Status
sigprocmask how none mask = (mask, none, efault)
sigprocmask how (some set) none = (none, none, esrch)
sigprocmask how (some set) (some mask) =
    if how == sig_block
    then (some (bit_or mask set), some mask, success)
    else if how == sig_unblock
    then (some (bit_and mask (complement set)), some mask, success)
    else if how == sig_set
    then (some set, some mask, success)
    else (some mask, some mask, einval)

pub sigemptyset : Option ℕ → Option ℕ × Status
sigemptyset none = (none, efault)
sigemptyset (some set) = (some 0, success)

pub sigaddset : Option ℕ → ℕ → Option ℕ × Status
sigaddset none signum = (none, efault)
sigaddset (some set) signum =
    if is_no_signal signum then (some set, einval) else (some (bit_or set (2 ^ signum)), success)

pub sigfillset : Option ℕ → Option ℕ × Status
sigfillset none = (none, efault)
sigfillset (some set) = (some 4294967295, success)
