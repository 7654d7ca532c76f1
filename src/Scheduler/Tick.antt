-- ===== src/Scheduler/Tick.antt =====
-- `scheduler_tick` on several CPUs: no thread runs on two of them.
use native.Mathlib.Nat.{le_trans}
use os_pi_is_cool.Base.{
  ℕ, ◌<◌, ◌≡◌, ◌≢◌, ◌⊎◌, inl, inr, refl, ap, sym, ◌∙◌, subst, Bool, true, false, not, ◌&&◌, ◌==◌,
  arith, Ptr, null, Bool-cases, if◌then◌else◌, Ends, returns, Ends-bind, Ends-value, ◌>>=◌,
  Allocator, OutOfMemory,
}
use os_pi_is_cool.Thread.{Tcbs, ready, running, is_ready, is_running, set_state, update}
use os_pi_is_cool.Scheduler.{Scheduler, Machine, dispatch, scheduler_tick, add_thread_to_scheduler}
use os_pi_is_cool.Scheduler.Ready.{Ready}
use os_pi_is_cool.Scheduler.Fair.{IsCharged}
use os_pi_is_cool.Scheduler.Refine.{Queues, is_live}
use os_pi_is_cool.Scheduler.Next.{Outcome, get_next_thread_lem}
use os_pi_is_cool.Scheduler.Enqueue.{IsUnique, occurs_in, added, add_thread_to_scheduler_lem}

-- Each thread is current on one CPU at most, and no current thread is ready for another.
pub record IsExclusive (w : Machine) : Type 0 where
  pub alone : (c d : ℕ) → c ≢ d → w.curr_thread c ≢ null → w.curr_thread c ≢ w.curr_thread d
  pub not_ready :
      (c : ℕ) → w.curr_thread c ≢ null → is_ready (w.tcbs (w.curr_thread c)).state ≡ false

pub record IsScheduled (w : Machine) (r : Ready) : Type 0 where
  pub queues : Queues w.sched r
  pub charged : IsCharged r.counter r.turn

abbrev pub Priorities : Tcbs → Type 0
Priorities m = (t : Ptr) → (m t).priority < 3

-- The part of `scheduler_tick` before the choice.
abbrev yields : Machine → ℕ → Bool
yields w cpu = not (w.curr_thread cpu == null) && is_running (w.tcbs (w.curr_thread cpu)).state

abbrev saved : Machine → ℕ → Tcbs
saved w cpu = if yields w cpu then set_state w.tcbs (w.curr_thread cpu) ready else w.tcbs

saved-Priorities : (w : Machine) (cpu : ℕ) → Priorities w.tcbs → Priorities (saved w cpu)
saved-Priorities w cpu h t = ground (arith, h t, h (w.curr_thread cpu))

saved_other :
    (w : Machine) (cpu : ℕ) (t : Ptr)
    → t ≢ w.curr_thread cpu
    → (saved w cpu t).state ≡ (w.tcbs t).state
saved_other w cpu t ne = ground arith

module _ (w : Machine) (cpu : ℕ) (x : IsExclusive w) (s : Scheduler) (ticks : ℕ → ℕ) where
  -- The threads of the other CPUs are not ready after the current one was put back either.
  still_busy :
      (c : ℕ)
      → (cpu == c) ≡ false
      → w.curr_thread c ≢ null
      → is_ready (saved w cpu (w.curr_thread c)).state ≡ false
  still_busy c other some_c =
      ap is_ready (saved_other w cpu (w.curr_thread c) (x.alone c cpu (λ e. ground arith) some_c))
      ∙ x.not_ready c some_c

  -- A ready thread is not the current one of another CPU.
  not_elsewhere :
      (t : Ptr) (c : ℕ) → is_live (saved w cpu) t ≡ true → (cpu == c) ≡ false → t ≢ w.curr_thread c
  not_elsewhere t c live_t other e =
      let live_c : is_live (saved w cpu) (w.curr_thread c) ≡ true =
        subst (λ j. is_live (saved w cpu) j ≡ true) e live_t in
      elim (Bool-cases (w.curr_thread c == null)) [
        | inl none_c ↦ cc (rw none_c at live_c)
        | inr some_c ↦
            let busy = still_busy c other (λ n. ground arith) in cc (rw (some_c, busy) at live_c)
      ]

  idle-IsExclusive : IsExclusive (record {
    tcbs = saved w cpu;
    sched = s;
    curr_thread = update w.curr_thread cpu null;
    scheduler_ticks = ticks;
  })
  idle-IsExclusive = record {
    alone = λ c d ne some_c. elim (Bool-cases (cpu == c)) [
      | inl here ↦ absurd ((rw here at some_c) refl)
      | inr there ↦ elim (Bool-cases (cpu == d)) [
        | inl here' ↦ rw (there, here') (rw there at some_c)
        | inr there' ↦ rw (there, there') (x.alone c d ne (rw there at some_c))
      ]
    ];
    not_ready = λ c some_c. elim (Bool-cases (cpu == c)) [
      | inl here ↦ absurd ((rw here at some_c) refl)
      | inr there ↦ rw there (still_busy c there (rw there at some_c))
    ];
  }

  run-IsExclusive :
      (t : Ptr)
      → is_live (saved w cpu) t ≡ true
      → IsExclusive (record {
        tcbs = set_state (saved w cpu) t running;
        sched = s;
        curr_thread = update w.curr_thread cpu t;
        scheduler_ticks = ticks;
      })
  run-IsExclusive t live_t = record {
    alone = λ c d ne some_c. elim (Bool-cases (cpu == c)) [
      | inl here ↦
          let there' : (cpu == d) ≡ false = ground arith in
          rw (here, there') (not_elsewhere t d live_t there')
      | inr there ↦ elim (Bool-cases (cpu == d)) [
        | inl here' ↦ rw (there, here') (λ e. not_elsewhere t c live_t there (sym e))
        | inr there' ↦ rw (there, there') (x.alone c d ne (rw there at some_c))
      ]
    ];
    not_ready = λ c some_c. elim (Bool-cases (cpu == c)) [
      | inl here ↦ let self : (t == t) ≡ true = ground arith in rw (here, self)
      | inr there ↦
          let apart : (t == w.curr_thread c) ≡ false =
            ground (arith, not_elsewhere t c live_t there) in
          rw (there, apart) (still_busy c there (rw there at some_c))
    ];
  }

-- The queues at the choice: the current thread is back in its own, if it ran.
abbrev pub requeued : Machine → ℕ → Ready → Ready
requeued w cpu r = if yields w cpu then added (saved w cpu) r (w.curr_thread cpu) else r

-- What a tick of a CPU makes of the machine `w`, with the queues `before` at the choice.
abbrev pub Ticked : ℕ → Machine → Ready → Machine → Type 0
Ticked cpu w before w' =
    (r : Ready) × IsScheduled w' r
    × IsUnique r
    × IsExclusive w'
    × ((w'.curr_thread cpu ≡ null) ⊎ ((w'.tcbs (w'.curr_thread cpu)).state ≡ running))
    × Outcome (saved w cpu) before r (w'.curr_thread cpu)

dispatch-Ticked :
    {F : Type 0} (cpu : ℕ) (w : Machine) (s : Scheduler) (r : Ready)
    → IsExclusive w
    → Queues s r
    → IsCharged r.counter r.turn
    → IsUnique r
    → Ends (Ticked cpu w r) F (dispatch cpu (saved w cpu) w s)
unfolding dispatch
dispatch-Ticked cpu w s r x h charged once =
    let (a, called, (r', h', (charged', fewer, out))) =
      Ends-value (get_next_thread_lem (saved w cpu) s r charged h) in
    let self : (cpu == cpu) ≡ true = ground arith in
    let here : (t : Ptr) → update w.curr_thread cpu t cpu ≡ t = λ t. ground arith in
    let chose : Outcome (saved w cpu) r r' a.1 = (charged', fewer, out) in
    rw called (elim out [
      | inl (none_left, _) ↦ rw none_left (
          returns (
            r',
            record { queues = h'; charged = charged' },
            λ u. le_trans (fewer u) (once u),
            idle-IsExclusive w cpu x a.0 _,
            inl (rw self),
            subst (λ z. Outcome (saved w cpu) r r' z) (none_left ∙ sym (here null)) chose,
          ))
      | inr (ne, c) ↦
          let some_t : (a.1 == null) ≡ false = ground arith in
          let itself : (a.1 == a.1) ≡ true = ground arith in
          rw some_t (
            returns (
              r',
              record { queues = h'; charged = charged' },
              λ u. le_trans (fewer u) (once u),
              run-IsExclusive w cpu x a.0 _ a.1 c.ready_now,
              inr (rw (self, itself)),
              subst (λ z. Outcome (saved w cpu) r r' z) (sym (here a.1)) chose,
            ))
    ])

added-IsCharged :
    (m : Tcbs) (r : Ready) (t : Ptr)
    → IsCharged r.counter r.turn
    → IsCharged (added m r t).counter (added m r t).turn
added-IsCharged m r t h = elim (Bool-cases (is_live m t && (occurs_in t r == 0))) [
  | inl new ↦ rw new h
  | inr old ↦ rw old h
]

-- If the vectors hold queues in which no thread stands twice, the counters are within their
-- limits, the priorities are below 3, and no thread is current on two CPUs or ready while it is
-- current, then after a tick on any CPU the queues, the counters and the current threads are so
-- again. Of the queues to which a running current thread was added back, the CPU is left without a
-- thread only if they hold no ready one; else the thread it dispatches is running and was the
-- ready one that the priorities choose. The tick is fatal only for want of memory.
pub scheduler_tick_lem :
    (k : Allocator) (cpu : ℕ) (w : Machine) (r : Ready)
    → IsScheduled w r
    → IsUnique r
    → Priorities w.tcbs
    → IsExclusive w
    → Ends (Ticked cpu w (requeued w cpu r)) (OutOfMemory k) (scheduler_tick k cpu w)
unfolding scheduler_tick
scheduler_tick_lem k cpu w r h once low x = elim (Bool-cases (yields w cpu)) [
  | inl again ↦
      let m = saved w cpu in
      let t = w.curr_thread cpu in
      let queue_eq : added m r t ≡ requeued w cpu r = rw again refl in
      let run_eq : (add_thread_to_scheduler k m t w.sched >>= λ s. dispatch cpu m w s)
          ≡ scheduler_tick k cpu w =
        rw again refl in
      subst (λ b. Ends (Ticked cpu w b) (OutOfMemory k) (scheduler_tick k cpu w)) queue_eq
        (subst (Ends (Ticked cpu w (added m r t)) (OutOfMemory k)) run_eq (
          Ends-bind
            (add_thread_to_scheduler_lem k m w.sched r t h.queues (saved-Priorities w cpu low t)
              once)
            λ s (hs, once').
              dispatch-Ticked cpu w s _ x hs (added-IsCharged m r t h.charged) once'))
  | inr not_again ↦
      let queue_eq : r ≡ requeued w cpu r = rw not_again refl in
      let run_eq : dispatch cpu (saved w cpu) w w.sched ≡ scheduler_tick k cpu w =
        rw not_again refl in
      subst (λ b. Ends (Ticked cpu w b) (OutOfMemory k) (scheduler_tick k cpu w)) queue_eq
        (subst (Ends (Ticked cpu w r) (OutOfMemory k)) run_eq
          (dispatch-Ticked cpu w w.sched r x h.queues h.charged once))
]
