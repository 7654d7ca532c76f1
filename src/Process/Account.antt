-- ===== src/Process/Account.antt =====
-- The counters of a process are the numbers of its threads in each kind of state, and the state of
-- the process is what the states of its threads make it.
use os_pi_is_cool.Base.{
  ℕ, suc, ◌+◌, ◌^◌, ◌<◌, ◌≤◌, ◌≡◌, refl, ap, ◌∙◌, arith, Bool, false, not, ◌||◌, List, [], ◌∷◌,
  ◌++◌, if◌then◌else◌, length, length-append, inl, inr, Bool-cases,
}
use os_pi_is_cool.Thread.{
  ThreadState, unused, ready, running, stopped, zombie, blocked_interruptable,
  blocked_uninteruptable, blocked_killable, is_ready, is_running, is_blocked, is_stopped, is_zombie,
}
use os_pi_is_cool.Process.{
  ProcessState, running_state, blocked_state, stopped_state, zombie_state, Pcb, inc, dec,
  is_positive, leave, enter, settle, pcb_thread_change_state,
}

-- Ready or on a CPU.
abbrev pub is_active : ThreadState → Bool
is_active st = is_ready st || is_running st

abbrev pub count : (ThreadState → Bool) → List ThreadState → ℕ
count f [] = 0
count f (st ∷ l) = (if f st then 1 else 0) + count f l

abbrev pub any : (ThreadState → Bool) → List ThreadState → Bool
any f [] = false
any f (st ∷ l) = f st || any f l

-- What the states of its threads make of a process, and whether its parent is told.
abbrev pub state_of : List ThreadState → ProcessState
state_of l =
    if any is_active l
    then running_state
    else if any is_blocked l
    then blocked_state
    else if any is_stopped l
    then stopped_state
    else zombie_state

abbrev pub is_told : List ThreadState → Bool
is_told l = any is_active l || not (any is_blocked l)

pub record Accounts (p : Pcb) (l : List ThreadState) : Type 0 where
  pub active : p.num_running_threads ≡ count is_active l
  pub blocked : p.num_blocked_threads ≡ count is_blocked l
  pub stopped : p.num_stopped_threads ≡ count is_stopped l
  pub zombies : p.num_zombie_threads ≡ count is_zombie l

module _ (f : ThreadState → Bool) where
  count-append : (l l' : List ThreadState) → count f (l ++ l') ≡ count f l + count f l'
  count-append [] l' = omega arith
  count-append (st ∷ l) l' = omega (arith, count-append l l')

  count_le : (l : List ThreadState) → count f l ≤ length l
  count_le [] = omega arith
  count_le (st ∷ l) = ground (arith, count_le l)

  any-count : (l : List ThreadState) → length l < 2 ^ 31 → is_positive (count f l) ≡ any f l
  any-count [] lt = refl
  any-count (st ∷ l) lt = ground (arith, any-count l (omega arith), count_le l)

  -- A counter when a thread in state `st` goes, or comes.
  gone :
      (pre post : List ThreadState) (st : ThreadState) (c : ℕ)
      → length (pre ++ post) < 2 ^ 31
      → c ≡ count f (pre ++ st ∷ post)
      → (if f st then dec c else c) ≡ count f (pre ++ post)
  gone pre post st c lt e = ground (
    arith,
    count-append pre post,
    count-append pre (st ∷ post),
    count_le pre,
    count_le post,
    length-append pre post,
  )

  come :
      (pre post : List ThreadState) (st : ThreadState) (c : ℕ)
      → length (pre ++ post) < 2 ^ 31
      → c ≡ count f (pre ++ post)
      → (if f st then inc c else c) ≡ count f (pre ++ st ∷ post)
  come pre post st c lt e = ground (
    arith,
    count-append pre post,
    count-append pre (st ∷ post),
    count_le pre,
    count_le post,
    length-append pre post,
  )

-- What `change` does to the four counters.
abbrev Counted : (ℕ → ℕ) → Pcb → Pcb → ThreadState → Type 0
Counted change p q st =
    (q.num_running_threads
      ≡ (if is_active st then change p.num_running_threads else p.num_running_threads))
    × (q.num_blocked_threads
        ≡ (if is_blocked st then change p.num_blocked_threads else p.num_blocked_threads))
    × (q.num_stopped_threads
        ≡ (if is_stopped st then change p.num_stopped_threads else p.num_stopped_threads))
    × (q.num_zombie_threads
        ≡ (if is_zombie st then change p.num_zombie_threads else p.num_zombie_threads))

leave-Counted : (p : Pcb) (st : ThreadState) → Counted dec p (leave p st) st
unfolding leave
leave-Counted p unused = (refl, refl, refl, refl)
leave-Counted p ready = (refl, refl, refl, refl)
leave-Counted p running = (refl, refl, refl, refl)
leave-Counted p stopped = (refl, refl, refl, refl)
leave-Counted p zombie = (refl, refl, refl, refl)
leave-Counted p blocked_interruptable = (refl, refl, refl, refl)
leave-Counted p blocked_uninteruptable = (refl, refl, refl, refl)
leave-Counted p blocked_killable = (refl, refl, refl, refl)

enter-Counted : (p : Pcb) (st : ThreadState) → Counted inc p (enter p st) st
unfolding enter
enter-Counted p unused = (refl, refl, refl, refl)
enter-Counted p ready = (refl, refl, refl, refl)
enter-Counted p running = (refl, refl, refl, refl)
enter-Counted p stopped = (refl, refl, refl, refl)
enter-Counted p zombie = (refl, refl, refl, refl)
enter-Counted p blocked_interruptable = (refl, refl, refl, refl)
enter-Counted p blocked_uninteruptable = (refl, refl, refl, refl)
enter-Counted p blocked_killable = (refl, refl, refl, refl)

module _ (pre post : List ThreadState) (lt : length (pre ++ post) < 2 ^ 31) where
  leave-Accounts :
      {p : Pcb} (st : ThreadState)
      → Accounts p (pre ++ st ∷ post)
      → Accounts (leave p st) (pre ++ post)
  leave-Accounts {p} st h =
      let (a, b, s, z) = leave-Counted p st in
      record {
        active = a ∙ gone is_active pre post st _ lt h.active;
        blocked = b ∙ gone is_blocked pre post st _ lt h.blocked;
        stopped = s ∙ gone is_stopped pre post st _ lt h.stopped;
        zombies = z ∙ gone is_zombie pre post st _ lt h.zombies;
      }

  enter-Accounts :
      {p : Pcb} (st : ThreadState)
      → Accounts p (pre ++ post)
      → Accounts (enter p st) (pre ++ st ∷ post)
  enter-Accounts {p} st h =
      let (a, b, s, z) = enter-Counted p st in
      record {
        active = a ∙ come is_active pre post st _ lt h.active;
        blocked = b ∙ come is_blocked pre post st _ lt h.blocked;
        stopped = s ∙ come is_stopped pre post st _ lt h.stopped;
        zombies = z ∙ come is_zombie pre post st _ lt h.zombies;
      }

-- The counters right, the state of the process that of its threads, and the parent told as it should.
abbrev pub Settled : List ThreadState → Pcb × Bool → Type 0
Settled l (p, told) = Accounts p l × (p.state ≡ state_of l) × (told ≡ is_told l)

settle-Settled :
    {p : Pcb} (l : List ThreadState) → length l < 2 ^ 31 → Accounts p l → Settled l (settle p)
unfolding settle
settle-Settled {p} l lt h = elim (Bool-cases (any is_active l)) [
  | inl e ↦ rw (sizes.0, e) (same, refl, refl)
  | inr e ↦ elim (Bool-cases (any is_blocked l)) [
    | inl e' ↦ rw (sizes.0, sizes.1, e, e') (same, refl, refl)
    | inr e' ↦ elim (Bool-cases (any is_stopped l)) [
      | inl e'' ↦ rw (sizes.0, sizes.1, sizes.2, e, e', e'') (same, refl, refl)
      | inr e'' ↦ rw (sizes.0, sizes.1, sizes.2, e, e', e'') (same, refl, refl)
    ]
  ]
]
  where
    sizes :
        (is_positive p.num_running_threads ≡ any is_active l)
        × (is_positive p.num_blocked_threads ≡ any is_blocked l)
        × (is_positive p.num_stopped_threads ≡ any is_stopped l)
    sizes = (
      ap is_positive h.active ∙ any-count is_active l lt,
      ap is_positive h.blocked ∙ any-count is_blocked l lt,
      ap is_positive h.stopped ∙ any-count is_stopped l lt,
    )

    same : {st : ProcessState} → Accounts (record p { state = st }) l
    same = record {
      active = h.active;
      blocked = h.blocked;
      stopped = h.stopped;
      zombies = h.zombies;
    }

-- If the counters of a process with fewer than 2^31 threads are right and one of its threads goes
-- from one state to another, they are right again, the process gets the state that its threads
-- make it have, and `send_sigchld` is called unless that is the blocked state. A thread that is
-- created comes from the unused state, and one that is cleaned up goes to it.
pub pcb_thread_change_state_lem :
    {p : Pcb} (pre post : List ThreadState) (old new : ThreadState)
    → length (pre ++ old ∷ post) < 2 ^ 31
    → Accounts p (pre ++ old ∷ post)
    → Settled (pre ++ new ∷ post) (pcb_thread_change_state p old new)
unfolding pcb_thread_change_state
pcb_thread_change_state_lem pre post old new lt h =
    settle-Settled (pre ++ new ∷ post) (omega (arith, lt, size, length-append pre (new ∷ post)))
      (enter-Accounts pre post fewer new (leave-Accounts pre post fewer old h))
  where
    size : length (pre ++ old ∷ post) ≡ length pre + suc (length post)
    size = length-append pre (old ∷ post)

    fewer : length (pre ++ post) < 2 ^ 31
    fewer = omega (arith, lt, size, length-append pre post)
