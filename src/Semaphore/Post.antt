-- ===== src/Semaphore/Post.antt =====
-- `sem_post` gives a token back or hands it to the thread that waits longest.
use os_pi_is_cool.Base.{
  ℕ, ◌+◌, ◌%◌, ◌^◌, ◌<◌, ◌≡◌, refl, arith, Bool, true, false, not, ◌&&◌, ◌||◌, List, [], ◌∷◌,
  if◌then◌else◌, ◌==◌, inl, inr, Bool-cases, ok, ◌>>=◌, Ptr, null, Allocator, OutOfMemory, Ends,
  returns, Ends-bind, Ends-any,
}
use os_pi_is_cool.Vec.{is_empty}
use os_pi_is_cool.Vec.Holds.{get-Holds}
use os_pi_is_cool.Vec.Shift.{erase-Holds}
use os_pi_is_cool.Thread.{is_stopped}
use os_pi_is_cool.Scheduler.Ready.{Ready}
use os_pi_is_cool.Semaphore.{
  Semaphore, Reply, returned, has_waiters, wake_thread, hand_over, sem_post,
}
use os_pi_is_cool.Semaphore.Tokens.{Level}
use os_pi_is_cool.Waking.{World, make_ready}
use os_pi_is_cool.Waking.Awake.{thread_of, thread_get_by_tid_lem, Awake, IsWorld, make_ready-Awake}

abbrev pub wakes : World → Ptr → Bool
wakes w t = not (w.current == null) && (not (t == null) && is_stopped (w.tcbs t).state)

module _ (k : Allocator) (w : World) {ts : List Ptr} {r : Ready} (h : IsWorld w ts r) where
  pub wake_thread-Awake :
      (tid : ℕ)
      → Ends
          (Awake (wakes w (thread_of w.tcbs ts tid)) w r (thread_of w.tcbs ts tid))
          (OutOfMemory k)
          (wake_thread k tid w)
  unfolding wake_thread
  wake_thread-Awake tid = rw (thread_get_by_tid_lem w ts tid h.table) (go (thread_of w.tcbs ts tid))
    where
      go :
          (t : Ptr)
          → Ends (Awake (wakes w t) w r t) (OutOfMemory k) (
              if w.current == null
              then ok w
              else ok t >>= λ t.
                  if t == null || not (is_stopped (w.tcbs t).state) then ok w else make_ready k t w)
      go t = elim (Bool-cases (w.current == null)) [
        | inl idle ↦ rw idle (returns refl)
        | inr busy ↦ elim (Bool-cases (t == null)) [
          | inl nobody ↦ rw (busy, nobody) (returns refl)
          | inr somebody ↦ elim (Bool-cases (is_stopped (w.tcbs t).state)) [
            | inl sleeps ↦ rw (busy, somebody, sleeps) (make_ready-Awake k w h t)
            | inr awake ↦ rw (busy, somebody, awake) (returns refl)
          ]
        ]
      ]

  -- The semaphore, the world and the reply after `sem_post`.
  abbrev pub Posted : ℕ → List ℕ → Semaphore × World × Reply → Type 0
  Posted tokens [] (sem, w', reply) = Level sem (tokens + 1) [] × (w' ≡ w) × (reply ≡ returned)
  Posted tokens (tid ∷ ws) (sem, w', reply) =
      Level sem 0 ws
      × Awake (wakes w (thread_of w.tcbs ts tid)) w r (thread_of w.tcbs ts tid) w'
      × (reply ≡ returned)

  -- On a semaphore in good order with fewer than 2^31 - 1 tokens, in a world in good order,
  -- `sem_post` adds a token if no thread waits. Else the thread that waits longest leaves the
  -- queue, and is made ready and given to the scheduler if it is still stopped and some thread
  -- runs on this CPU. It is fatal only for want of memory.
  pub sem_post_lem :
      {sem : Semaphore} (tokens : ℕ) (ws : List ℕ)
      → Level sem tokens ws
      → tokens + 1 < 2 ^ 31
      → Ends (Posted tokens ws) (OutOfMemory k) (sem_post k sem w)
  unfolding sem_post hand_over
  sem_post_lem {sem} tokens [] l lt = rw nobody (
      returns (
        record {
          queue = l.queue;
          counted = omega (arith, l.counted, lt);
          one_empty = inr refl;
          few_tokens = lt;
          few_waiters = omega arith;
        },
        refl,
        refl,
      ))
    where
      nobody :
          (has_waiters ((sem.count + 1) % 2 ^ 32) && not (is_empty sem.waiting_threads)) ≡ false
      nobody = ground (arith, l.queue.counted)
  sem_post_lem {sem} tokens (tid ∷ ws) l lt =
      rw (somebody, get-Holds [] tid ws 0 l.queue refl)
        (Ends-bind (Ends-any (erase-Holds [] tid ws 0 l.queue refl)) λ v (held, kept, log).
          Ends-bind (wake_thread-Awake tid) λ w' awake. returns (
            record {
              queue = held;
              counted = omega (arith, l.counted, l.few_waiters, none_left);
              one_empty = inl refl;
              few_tokens = omega arith;
              few_waiters = omega (arith, l.few_waiters);
            },
            awake,
            refl,
          ))
    where
      none_left : tokens ≡ 0
      none_left = elim l.one_empty [ inl e ↦ e | inr e ↦ cc ]

      somebody :
          (has_waiters ((sem.count + 1) % 2 ^ 32) && not (is_empty sem.waiting_threads)) ≡ true
      somebody = ground (arith, l.counted, l.few_waiters, none_left, l.queue.counted)
