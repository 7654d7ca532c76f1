-- ===== src/Scheduler/Enqueue.antt =====
-- What `add_thread_to_scheduler` and `remove_thread_from_scheduler` do to the three queues.
use mathlib.Core.List.{reverse-append}
use native.Mathlib.Nat.{le_trans}
use os_pi_is_cool.Base.{
  Option, none, some, ℕ, zero, suc, ◌+◌, ◌≤◌, ◌<◌, ◌≡◌, ◌≢◌, refl, ap, ◌∙◌, sym, subst, Bool, true,
  false, not, ◌||◌, ◌&&◌, List, [], ◌∷◌, ◌++◌, reverse, if◌then◌else◌, ◌==◌, leb, arith, Ptr, null,
  Bool-cases, inl, inr, ok, Ends, returns, Ends-bind, Ends-mono, Allocator, OutOfMemory,
}
use os_pi_is_cool.Vec.{Vec}
use os_pi_is_cool.Vec.Holds.{Holds}
use os_pi_is_cool.Vec.Shift.{insert-Holds}
use os_pi_is_cool.Thread.{Tcbs, is_ready, update}
use os_pi_is_cool.Scheduler.{
  Scheduler, next_pri, queue_has, queues_have, add_thread_to_scheduler, remove_from_queue,
  remove_from_queues, remove_thread_from_scheduler,
}
use os_pi_is_cool.Scheduler.Ready.{Ready, take_ready, proceed, next_from}
use os_pi_is_cool.Scheduler.Find.{
  occurs, has, without, occurs-append, occurs-reverse, occurs-without, without-reverse,
  queue_has-occurs, remove_from_queue-without,
}
use os_pi_is_cool.Scheduler.Refine.{Queue, Queues, is_live, update-Queues}

-- How often the thread stands in the three queues.
abbrev pub occurs_in : Ptr → Ready → ℕ
occurs_in t r = occurs t (r.queue 0) + occurs t (r.queue 1) + occurs t (r.queue 2)

-- No thread stands twice in the queues.
abbrev pub IsUnique : Ready → Type 0
IsUnique r = (t : Ptr) → occurs_in t r ≤ 1

-- `t` at the back of the queue of priority `p`.
abbrev pub enqueued : Ready → ℕ → Ptr → Ready
enqueued r p t = record r { queue = update r.queue p (r.queue p ++ t ∷ []) }

queues_have-occurs :
    (s : Scheduler) (r : Ready) (t : Ptr)
    → Queues s r
    → queues_have 3 0 s.queues t ≡ ok (not (occurs_in t r == 0))
unfolding queues_have
queues_have-occurs s r t h =
    rw (in_queue 0 (omega arith), in_queue 1 (omega arith), in_queue 2 (omega arith)) (ground arith)
  where
    in_queue :
        (p : ℕ) → p < 3 → queue_has (s.queues p).length 0 (s.queues p) t ≡ ok (has t (r.queue p))
    in_queue p lt =
        queue_has-occurs t (reverse (r.queue p)) [] _ 0 (h.queues p lt).counted refl (h.queues p lt)
        ∙ ap (λ (n : ℕ). ok (not (n == 0))) (occurs-reverse t (r.queue p))

occurs-enqueued :
    (r : Ready) (p : ℕ) (t u : Ptr)
    → p < 3
    → occurs_in u (enqueued r p t) ≡ occurs_in u r + (if t == u then 1 else 0)
unfolding occurs
occurs-enqueued r zero t u lt = ground (arith, occurs-append u (r.queue 0) (t ∷ []))
occurs-enqueued r (suc zero) t u lt = ground (arith, occurs-append u (r.queue 1) (t ∷ []))
occurs-enqueued r (suc (suc zero)) t u lt = ground (arith, occurs-append u (r.queue 2) (t ∷ []))
occurs-enqueued r (suc (suc (suc p))) t u lt = absurd (omega arith)

-- The queues after `add_thread_to_scheduler`: a ready thread that is in none of them goes to the
-- back of the one of its priority.
abbrev pub added : Tcbs → Ready → Ptr → Ready
added m r t = if is_live m t && (occurs_in t r == 0) then enqueued r (m t).priority t else r

-- Those after `remove_thread_from_scheduler`.
abbrev pub removed : Ready → Ptr → Ready
removed r t = record r { queue = λ p. if t == null then r.queue p else without t (r.queue p) }

added-IsUnique :
    (m : Tcbs) (r : Ready) (t : Ptr) → (m t).priority < 3 → IsUnique r → IsUnique (added m r t)
added-IsUnique m r t lt once u = elim (Bool-cases (is_live m t && (occurs_in t r == 0))) [
  | inl new ↦ rw new (omega (arith, occurs-enqueued r (m t).priority t u lt, absent u new, once u))
  | inr old ↦ rw old (once u)
]
  where
    absent :
        (u : Ptr)
        → (is_live m t && (occurs_in t r == 0)) ≡ true
        → occurs_in u r + (if t == u then 1 else 0) ≤ 1
    absent u new = elim (Bool-cases (t == u)) [
      | inl same ↦
          rw same
            (let e : t ≡ u = ground arith in subst (λ j. occurs_in j r + 1 ≤ 1) e (ground arith))
      | inr other ↦ rw other (omega (arith, once u))
    ]

module _ (k : Allocator) (m : Tcbs) (s : Scheduler) (r : Ready) (t : Ptr) (held : Queues s r) where
  -- If the vectors hold queues in which no thread stands twice, and the priority of the thread is
  -- below 3, `add_thread_to_scheduler` puts a ready thread that is in no queue at the back of the
  -- queue of its priority, and changes nothing for any other thread. It is fatal only for want of
  -- memory. No thread comes to stand twice in the queues.
  pub add_thread_to_scheduler_lem :
      (m t).priority < 3
      → IsUnique r
      → Ends
          (λ s'. Queues s' (added m r t) × IsUnique (added m r t))
          (OutOfMemory k)
          (add_thread_to_scheduler k m t s)
  unfolding add_thread_to_scheduler
  add_thread_to_scheduler_lem lt once =
      elim (Bool-cases (t == null || not (is_ready (m t).state))) [
        | inl idle ↦ rw idle (returns (held, once))
        | inr live_t ↦ elim (Bool-cases (occurs_in t r == 0)) [
          | inl new ↦
              rw (live_t, queues_have-occurs s r t held, new, in_range)
                (Ends-bind
                  (insert-Holds k [] (reverse (r.queue (m t).priority)) 0 t (held.queues _ lt) refl)
                  λ v (hv, _). returns (
                    update-Queues (m t).priority v _ held (
                        subst (Holds v) (sym (reverse-append (r.queue (m t).priority) (t ∷ [])))
                          hv),
                    rw (live_t, new) at (added-IsUnique m r t lt once),
                  ))
          | inr old ↦ rw (live_t, queues_have-occurs s r t held, old) (returns (held, once))
        ]
      ]
    where
      in_range : leb 3 (m t).priority ≡ false
      in_range = ground arith

-- The loop over the priorities leaves the other queues alone.
remove_from_queues-without :
    (s : Scheduler) (r : Ready) (t : Ptr)
    → Queues s r
    → Ends
        (λ queues. (p : ℕ) → p < 3 → Queue (queues p) (without t (r.queue p)))
        ⊥
        (remove_from_queues 3 0 t s.queues)
unfolding remove_from_queues
remove_from_queues-without s r t h = Ends-bind (at_queue 0 (omega arith)) λ v₀ h₀.
    Ends-bind (at_queue 1 (omega arith))
      λ v₁ h₁. Ends-bind (at_queue 2 (omega arith)) λ v₂ h₂. returns (all_of v₀ v₁ v₂ h₀ h₁ h₂)
  where
    at_queue :
        (p : ℕ)
        → p < 3
        → Ends
            (λ v. Queue v (without t (r.queue p)))
            ⊥
            (remove_from_queue (s.queues p).length 0 t (s.queues p))
    at_queue p lt =
        Ends-mono
          (remove_from_queue-without t (reverse (r.queue p)) [] _ 0 (h.queues p lt).counted refl
            (h.queues p lt))
          λ v hv. subst (Holds v) (without-reverse t (r.queue p)) hv

    all_of :
        (v₀ v₁ v₂ : Vec)
        → Queue v₀ (without t (r.queue 0))
        → Queue v₁ (without t (r.queue 1))
        → Queue v₂ (without t (r.queue 2))
        → (p : ℕ) → p < 3
        → Queue (update (update (update s.queues 0 v₀) 1 v₁) 2 v₂ p) (without t (r.queue p))
    all_of v₀ v₁ v₂ h₀ h₁ h₂ zero lt = h₀
    all_of v₀ v₁ v₂ h₀ h₁ h₂ (suc zero) lt = h₁
    all_of v₀ v₁ v₂ h₀ h₁ h₂ (suc (suc zero)) lt = h₂
    all_of v₀ v₁ v₂ h₀ h₁ h₂ (suc (suc (suc p))) lt = absurd (omega arith)

-- If the vectors hold queues, `remove_thread_from_scheduler` always returns. The thread stands in
-- no queue any more, the other threads keep their places, the counters and the turn are as before;
-- NULL removes nothing.
pub remove_thread_from_scheduler_lem :
    (s : Scheduler) (r : Ready) (t : Ptr)
    → Queues s r
    → Ends
        (λ s'.
          Queues s' (removed r t)
          × (t ≢ null → occurs_in t (removed r t) ≡ 0)
          × ((u : Ptr) → u ≢ t → occurs_in u (removed r t) ≡ occurs_in u r))
        ⊥
        (remove_thread_from_scheduler t s)
unfolding remove_thread_from_scheduler
remove_thread_from_scheduler_lem s r t h = elim (Bool-cases (t == null)) [
  | inl none_given ↦ rw none_given (returns (h, λ ne. absurd (ne (ground arith)), λ u ne. refl))
  | inr given ↦ rw given (
      Ends-bind (remove_from_queues-without s r t h) λ queues hq. returns (
        record { queues = hq; counters = h.counters; turn = h.turn },
        λ ne. ground (
          arith,
          occurs-without t t (r.queue 0),
          occurs-without t t (r.queue 1),
          occurs-without t t (r.queue 2),
        ),
        λ u ne. ground (
          arith,
          occurs-without t u (r.queue 0),
          occurs-without t u (r.queue 1),
          occurs-without t u (r.queue 2),
        ),
      ))
]

take_ready-occurs :
    (is_live : Ptr → Bool) (u : Ptr) (q : List Ptr) → occurs u (take_ready is_live q).0 ≤ occurs u q
unfolding take_ready occurs
take_ready-occurs is_live u [] = omega arith
take_ready-occurs is_live u (x ∷ q) = elim (Bool-cases (is_live x)) [
  | inl live_x ↦ rw live_x (ground arith)
  | inr stale ↦ rw stale (ground (arith, take_ready-occurs is_live u q))
]

update-occurs :
    (r : Ready) (p : ℕ) (q : List Ptr) (u : Ptr)
    → occurs u q ≤ occurs u (r.queue p)
    → occurs_in u (record r { queue = update r.queue p q }) ≤ occurs_in u r
update-occurs r zero q u le = omega arith
update-occurs r (suc zero) q u le = omega arith
update-occurs r (suc (suc zero)) q u le = omega arith
update-occurs r (suc (suc (suc p))) q u le = ground arith

-- Choosing a thread only takes threads out.
pub next_from-occurs :
    (n : ℕ) (is_live : Ptr → Bool) (r : Ready) (u : Ptr)
    → occurs_in u (next_from n is_live r).0 ≤ occurs_in u r
unfolding next_from
next_from-occurs zero is_live r u = omega arith
next_from-occurs (suc n) is_live r u =
    go (take_ready is_live (r.queue r.turn)) (take_ready-occurs is_live u (r.queue r.turn))
      (λ r'. next_from-occurs n is_live r' u)
  where
    go :
        (x : List Ptr × Option Ptr)
        → occurs u x.0 ≤ occurs u (r.queue r.turn)
        → ((r' : Ready) → occurs_in u (next_from n is_live r').0 ≤ occurs_in u r')
        → occurs_in u (proceed (next_from n is_live) r x).0 ≤ occurs_in u r
    go (q, none) le rest =
        le_trans (rest (record r { queue = update r.queue r.turn q; turn = next_pri r.turn }))
          (update-occurs r r.turn q u le)
    go (q, some t) le rest = update-occurs r r.turn q u le
