-- ===== src/Waking/Awake.antt =====
-- What a thread's number stands for, and what making a thread ready does to the world.
use os_pi_is_cool.Base.{
  ℕ, zero, suc, ◌<◌, ◌≤◌, ◌≡◌, refl, subst, ap, arith, Bool, true, false, ◌||◌, List, [], ◌∷◌, ◌++◌,
  if◌then◌else◌, ◌==◌, leb, length, get_or, inl, inr, Bool-cases, ok, Ptr, null, Allocator,
  OutOfMemory, Ends, returns, Ends-bind,
}
use os_pi_is_cool.Vec.Holds.{Holds, get-Holds}
use os_pi_is_cool.Thread.{Tcbs, ready, set_state}
use os_pi_is_cool.Scheduler.Ready.{Ready}
use os_pi_is_cool.Scheduler.Refine.{Queues}
use os_pi_is_cool.Scheduler.Enqueue.{IsUnique, added, add_thread_to_scheduler_lem}
use os_pi_is_cool.Waking.{World, is_unused, is_negative, thread_get_by_tid, make_ready}

pub split_at :
    (l : List Ptr) (i : ℕ)
    → i < length l
    → (xs : List Ptr) × (ys : List Ptr) × (l ≡ xs ++ get_or l i null ∷ ys) × (i ≡ length xs)
split_at [] i lt = absurd (omega arith)
split_at (x ∷ l) zero lt = ([], l, refl, refl)
split_at (x ∷ l) (suc i) lt =
    let (xs, ys, e, c) = split_at l i (omega arith) in
    (x ∷ xs, ys, ap (λ zs. x ∷ zs) e, omega (arith, c))

pub get_or_past : (l : List Ptr) (i : ℕ) → length l ≤ i → get_or l i null ≡ null
get_or_past [] i le = refl
get_or_past (x ∷ l) zero le = absurd (omega arith)
get_or_past (x ∷ l) (suc i) le = get_or_past l i (omega arith)

-- The thread of a number, if the table and its control block know one; else NULL.
abbrev pub thread_of : Tcbs → List Ptr → ℕ → Ptr
thread_of m ts tid =
    let t = get_or ts tid null in
    if is_negative tid then null else if t == null || is_unused (m t).state then null else t

pub thread_get_by_tid_lem :
    (w : World) (ts : List Ptr) (tid : ℕ)
    → Holds w.threads ts
    → thread_get_by_tid w tid ≡ ok (thread_of w.tcbs ts tid)
unfolding thread_get_by_tid
thread_get_by_tid_lem w ts tid h = elim (Bool-cases (is_negative tid)) [
  | inl neg ↦ rw neg refl
  | inr pos ↦ elim (Bool-cases (leb w.threads.length tid)) [
    | inl past ↦ rw (pos, past, get_or_past ts tid (ground (arith, past, h.counted))) refl
    | inr within ↦
        let (xs, ys, e, c) = split_at ts tid (ground (arith, within, h.counted)) in
        rw (pos, within, get-Holds xs (get_or ts tid null) ys tid (subst (Holds w.threads) e h) c)
          refl
  ]
]

-- The world after a call that wakes up the thread `t` of a stopped state, and after any other.
abbrev pub Awake : Bool → World → Ready → Ptr → World → Type 0
Awake true w r t w' =
    (w'.tcbs ≡ set_state w.tcbs t ready)
    × Queues w'.sched (added (set_state w.tcbs t ready) r t)
    × IsUnique (added (set_state w.tcbs t ready) r t)
    × (w'.threads ≡ w.threads)
    × (w'.current ≡ w.current)
Awake false w r t w' = w' ≡ w

-- The parts of the world that a wake-up reads are in good order.
pub record IsWorld (w : World) (ts : List Ptr) (r : Ready) : Type 0 where
  pub table : Holds w.threads ts
  pub queues : Queues w.sched r
  pub once : IsUnique r
  pub priorities : (t : Ptr) → (w.tcbs t).priority < 3

module _ (k : Allocator) (w : World) {ts : List Ptr} {r : Ready} (h : IsWorld w ts r) where
  pub make_ready-Awake : (t : Ptr) → Ends (Awake true w r t) (OutOfMemory k) (make_ready k t w)
  make_ready-Awake t =
      Ends-bind
        (add_thread_to_scheduler_lem k (set_state w.tcbs t ready) w.sched r t h.queues
          (ground (arith, h.priorities t)) h.once)
        λ s (held, once). returns (refl, held, once, refl, refl)
