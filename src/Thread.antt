-- ===== src/Thread.antt =====
-- Thread control blocks (kernel/threading/thread.h): the fields that the scheduler, the signals and
-- the locks read and write, and the table from pointers to them.
use os_pi_is_cool.Base.{ℕ, Bool, true, false, ◌==◌, if◌then◌else◌, Ptr}

pub data ThreadState : Type 0 where
  unused ready running stopped zombie : ThreadState
  blocked_interruptable blocked_uninteruptable blocked_killable : ThreadState

abbrev pub is_ready : ThreadState → Bool
is_ready ready = true
is_ready _ = false

abbrev pub is_running : ThreadState → Bool
is_running running = true
is_running _ = false

abbrev pub is_blocked : ThreadState → Bool
is_blocked blocked_interruptable = true
is_blocked blocked_uninteruptable = true
is_blocked blocked_killable = true
is_blocked _ = false

abbrev pub is_stopped : ThreadState → Bool
is_stopped stopped = true
is_stopped _ = false

abbrev pub is_zombie : ThreadState → Bool
is_zombie zombie = true
is_zombie _ = false

-- `tcb_t`. Only what is modelled reads is kept; `waiting_on_this` and the CPU context are not.
pub record Tcb : Type 0 where
  pub tid : ℕ
  pub state : ThreadState
  pub stopped_state : ThreadState
  pub pcb : Ptr
  pub pending_signals : ℕ
  pub mask : ℕ
  pub priority : ℕ
  pub blocked_until : ℕ

-- What the pointers to thread control blocks point to.
abbrev pub Tcbs : Type 0
Tcbs = Ptr → Tcb

abbrev pub update {ℓ} : {A : Type ℓ} → (ℕ → A) → ℕ → A → ℕ → A
update f i a j = if i == j then a else f j

-- `thread->state = st`
abbrev pub set_state : Tcbs → Ptr → ThreadState → Tcbs
set_state m t st = update m t (record (m t) { state = st })
