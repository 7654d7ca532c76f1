-- ===== src/Condition/Signal.antt =====
-- Waiting for a condition, and signalling one.
use os_pi_is_cool.Base.{
  ℕ, ◌≡◌, refl, arith, true, false, Option, none, List, [], ◌∷◌, ◌++◌, ◌==◌, Ptr, Allocator,
  OutOfMemory, Ends, returns, Ends-bind, Ends-any,
}
use os_pi_is_cool.Vec.{Vec}
use os_pi_is_cool.Vec.Holds.{Holds, get-Holds}
use os_pi_is_cool.Vec.Shift.{erase-Holds}
use os_pi_is_cool.Thread.{stopped, set_state}
use os_pi_is_cool.Scheduler.Ready.{Ready}
use os_pi_is_cool.Waking.{World}
use os_pi_is_cool.Waking.Awake.{thread_of, Awake, IsWorld}
use os_pi_is_cool.Semaphore.{Reply, returned, yielded}
use os_pi_is_cool.Semaphore.Post.{wakes, wake_thread-Awake}
use os_pi_is_cool.Mutex.{Mutex, my_tid}
use os_pi_is_cool.Mutex.Owner.{Owned}
use os_pi_is_cool.Mutex.Unlock.{left_waiting, Woken}
use os_pi_is_cool.Condition.{Condition, wake_first, cond_signal}

module _ (k : Allocator) (w : World) {ts : List Ptr} {r : Ready} (h : IsWorld w ts r) where
  pub wake_first-Awake :
      (v : Vec) (tid : ℕ) (ws : List ℕ)
      → Holds v (tid ∷ ws)
      → Ends
          (λ (v', w').
            Holds v' ws
            × Awake (wakes w (thread_of w.tcbs ts tid)) w r (thread_of w.tcbs ts tid) w')
          (OutOfMemory k)
          (wake_first k v w)
  unfolding wake_first
  wake_first-Awake v tid ws q = rw (get-Holds [] tid ws 0 q refl) (
      Ends-bind (Ends-any (erase-Holds [] tid ws 0 q refl)) λ v' (held, kept, log).
        Ends-bind (wake_thread-Awake k w h tid) λ w' awake. returns (held, awake))

  -- The condition, the world and the reply after `cond_signal`.
  abbrev pub Signalled : Condition → List ℕ → Condition × World × Reply → Type 0
  Signalled c [] (c', w', reply) = (c' ≡ c) × (w' ≡ w) × (reply ≡ returned)
  Signalled c (tid ∷ ws) (c', w', reply) =
      Holds c'.waiting_threads ws
      × (c'.lock ≡ c.lock)
      × Awake (wakes w (thread_of w.tcbs ts tid)) w r (thread_of w.tcbs ts tid) w'
      × (reply ≡ returned)

  -- If the queue of the condition and the world are in good order, `cond_signal` does nothing if
  -- no thread waits. Else the thread that waits longest leaves the queue, and is made ready and
  -- given to the scheduler if it is still stopped and some thread runs on this CPU. It is fatal
  -- only for want of memory.
  pub cond_signal_lem :
      (c : Condition) (ws : List ℕ)
      → Holds c.waiting_threads ws
      → Ends (Signalled c ws) (OutOfMemory k) (cond_signal k c w)
  unfolding cond_signal
  cond_signal_lem c [] q = rw nobody (returns (refl, refl, refl))
    where
      nobody : (c.waiting_threads.length == 0) ≡ true
      nobody = ground (arith, q.counted)
  cond_signal_lem c (tid ∷ ws) q = rw somebody (
      Ends-bind (wake_first-Awake c.waiting_threads tid ws q)
        λ (v, w') (held, awake). returns (held, refl, awake, refl))
    where
      somebody : (c.waiting_threads.length == 0) ≡ false
      somebody = ground (arith, q.counted)

  -- The condition, the mutex, the world and the reply after `cond_wait` up to its yield.
  abbrev pub Waits : List ℕ → List ℕ → Option ℕ → Condition × Mutex × World × Reply → Type 0
  Waits ws ms last (c, mx, w', reply) =
      Holds c.waiting_threads (ws ++ my_tid w ∷ [])
      × Owned mx none (left_waiting ms last)
      × ((w₁ : World) × Woken k w h last w₁
          × (w' ≡ record w₁ { tcbs = set_state w₁.tcbs w.current stopped }))
      × (reply ≡ yielded)
