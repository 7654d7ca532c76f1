-- ===== src/Semaphore/Tokens.antt =====
-- A semaphore is a number of tokens and a queue of waiting threads, of which one is empty.
use os_pi_is_cool.Base.{
  ℕ, zero, suc, ◌+◌, ◌-◌, ◌%◌, ◌^◌, ◌<◌, ◌≡◌, ◌≢◌, ◌⊎◌, refl, subst, ap, arith, true, false, List,
  [], ◌∷◌, ◌++◌, ◌==◌, length, length-snoc, inl, inr, null, Allocator, OutOfMemory, Ends, returns,
  Ends-bind,
}
use os_pi_is_cool.Vec.Holds.{Holds, vec_new-Holds}
use os_pi_is_cool.Vec.Grow.{push_back-Holds}
use os_pi_is_cool.Thread.{stopped, set_state}
use os_pi_is_cool.Waking.{World, is_negative}
use os_pi_is_cool.Semaphore.{Semaphore, Reply, returned, yielded, sem_init, sem_wait}

-- The `count` of so many tokens and waiting threads.
abbrev pub level : ℕ → List ℕ → ℕ
level tokens ws = (tokens + (2 ^ 32 - length ws)) % 2 ^ 32

pub record Level (sem : Semaphore) (tokens : ℕ) (ws : List ℕ) : Type 0 where
  pub queue : Holds sem.waiting_threads ws
  pub counted : sem.count ≡ level tokens ws
  pub one_empty : (tokens ≡ 0) ⊎ (ws ≡ [])
  pub few_tokens : tokens < 2 ^ 31
  pub few_waiters : length ws < 2 ^ 31

-- A new semaphore has the tokens asked for, which are fewer than 2^31, and no thread waits. It is
-- fatal only for want of memory.
pub sem_init_lem :
    (k : Allocator) (tokens : ℕ) (sem : Semaphore)
    → tokens < 2 ^ 31
    → Ends
        (λ (sem', reply). Level sem' tokens [] × (reply ≡ returned))
        (OutOfMemory k)
        (sem_init k tokens sem)
unfolding sem_init
sem_init_lem k tokens sem lt = rw positive (
    Ends-bind (vec_new-Holds k 2 false (omega arith)) λ v (held, no_dtor, no_drops). returns (
      record {
        queue = held;
        counted = omega (arith, lt);
        one_empty = inr refl;
        few_tokens = lt;
        few_waiters = omega arith;
      },
      refl,
    ))
  where
    positive : is_negative tokens ≡ false
    positive = ground (arith, lt)

-- What a `sem_wait` that found a token does, and one that found none.
abbrev pub Waited : ℕ → List ℕ → World → Semaphore × World × Reply → Type 0
Waited zero ws w (sem, w', reply) =
    Level sem 0 (ws ++ (w.tcbs w.current).tid ∷ [])
    × (w' ≡ record w { tcbs = set_state w.tcbs w.current stopped })
    × (reply ≡ yielded)
Waited (suc tokens) ws w (sem, w', reply) = Level sem tokens [] × (w' ≡ w) × (reply ≡ returned)

-- On a semaphore in good order with fewer than 2^31 - 1 waiting threads, called by a thread,
-- `sem_wait` takes a token if there is one and returns; if there is none, the thread goes to the
-- end of the queue, stops, and gives up its CPU. It is fatal only for want of memory.
pub sem_wait_lem :
    (k : Allocator) (w : World) {sem : Semaphore} (tokens : ℕ) (ws : List ℕ)
    → Level sem tokens ws
    → w.current ≢ null
    → length ws + 1 < 2 ^ 31
    → Ends (Waited tokens ws w) (OutOfMemory k) (sem_wait k sem w)
unfolding sem_wait
sem_wait_lem k w {sem} zero ws h some_thread lt =
    rw (none_left, busy)
      (Ends-bind (push_back-Holds k (w.tcbs w.current).tid h.queue) λ v (held, same). returns (
        record {
          queue = held;
          counted = omega (arith, h.counted, lt, length-snoc ws (w.tcbs w.current).tid);
          one_empty = inl refl;
          few_tokens = omega arith;
          few_waiters = omega (arith, lt, length-snoc ws (w.tcbs w.current).tid);
        },
        refl,
        refl,
      ))
  where
    none_left : is_negative ((sem.count + 4294967295) % 2 ^ 32) ≡ true
    none_left = ground (arith, h.counted, lt)

    busy : (w.current == null) ≡ false
    busy = ground (arith, some_thread)
sem_wait_lem k w {sem} (suc tokens) ws h some_thread lt = rw some_left (
    returns (
      record {
        queue = subst (Holds sem.waiting_threads) nobody h.queue;
        counted = omega (arith, h.counted, ap length nobody, h.few_tokens);
        one_empty = inr refl;
        few_tokens = omega (arith, h.few_tokens);
        few_waiters = omega arith;
      },
      refl,
      refl,
    ))
  where
    nobody : ws ≡ []
    nobody = elim h.one_empty [ inl e ↦ absurd (omega (arith, e)) | inr e ↦ e ]

    some_left : is_negative ((sem.count + 4294967295) % 2 ^ 32) ≡ false
    some_left = ground (arith, h.counted, h.few_tokens, ap length nobody)
