-- ===== src/Mutex/Owner.antt =====
-- Who owns a mutex and who waits for it, through each call.
use os_pi_is_cool.Base.{
  ℕ, ◌^◌, ◌<◌, ◌≡◌, ◌≢◌, refl, arith, true, false, not, ◌||◌, Option, none, some, List, [], ◌∷◌,
  ◌++◌, ◌==◌, null, Allocator, OutOfMemory, Ends, returns, Ends-bind,
}
use os_pi_is_cool.Vec.Holds.{Holds}
use os_pi_is_cool.Vec.Grow.{push_back-Holds}
use os_pi_is_cool.Thread.{stopped, set_state}
use os_pi_is_cool.Waking.{World}
use os_pi_is_cool.Semaphore.{Reply, returned, failed, yielded}
use os_pi_is_cool.Mutex.{Mutex, no_owner, my_tid, mutex_lock, mutex_trylock}

-- `owner_tid` of an owner or of none.
abbrev pub owner_word : Option ℕ → ℕ
owner_word none = no_owner
owner_word (some t) = t

abbrev pub depth : Option ℕ → ℕ
depth none = 0
depth (some t) = 1

-- The numbers of threads, which an `int` holds.
abbrev pub IsTid : Option ℕ → Type 0
IsTid none = Unit
IsTid (some t) = t < 2 ^ 31

pub record Owned (mx : Mutex) (owner : Option ℕ) (ws : List ℕ) : Type 0 where
  pub owner_is : mx.owner_tid ≡ owner_word owner
  pub valid : IsTid owner
  pub counted : mx.lock_count ≡ depth owner
  pub queue : Holds mx.waiting_threads ws

-- The mutex, the world and the reply after a round of `mutex_lock`.
abbrev pub Locked : Option ℕ → List ℕ → World → Mutex × World × Reply → Type 0
Locked none ws w (mx, w', reply) = Owned mx (some (my_tid w)) ws × (w' ≡ w) × (reply ≡ returned)
Locked (some t) ws w (mx, w', reply) =
    Owned mx (some t) (ws ++ my_tid w ∷ [])
    × (w' ≡ record w { tcbs = set_state w.tcbs w.current stopped })
    × (reply ≡ yielded)

-- On a mutex in good order, called by a thread, a round of `mutex_lock` returns only if nobody
-- owned the mutex, and then the caller owns it. Else the caller goes to the end of the list, stops
-- and gives up its CPU, and the owner stays. It is fatal only for want of memory.
pub mutex_lock_lem :
    (k : Allocator) (w : World) {mx : Mutex} (owner : Option ℕ) (ws : List ℕ)
    → Owned mx owner ws
    → w.current ≢ null
    → my_tid w < 2 ^ 31
    → Ends (Locked owner ws w) (OutOfMemory k) (mutex_lock k mx w)
unfolding mutex_lock
mutex_lock_lem k w {mx} none ws h some_thread lt =
    rw (busy, free)
      (returns
        (record { owner_is = refl; valid = lt; counted = refl; queue = h.queue }, refl, refl))
  where
    busy : (w.current == null) ≡ false
    busy = ground (arith, some_thread)

    free : (mx.owner_tid == no_owner) ≡ true
    free = ground (arith, h.owner_is)
mutex_lock_lem k w {mx} (some t) ws h some_thread lt =
    rw (busy, held)
      (Ends-bind (push_back-Holds k (my_tid w) h.queue) λ v (queue, same). returns (
        record { owner_is = h.owner_is; valid = h.valid; counted = h.counted; queue = queue },
        refl,
        refl,
      ))
  where
    busy : (w.current == null) ≡ false
    busy = ground (arith, some_thread)

    held : (mx.owner_tid == no_owner) ≡ false
    held = ground (arith, h.owner_is, h.valid)

-- After `mutex_trylock`.
abbrev pub Tried : Option ℕ → List ℕ → Mutex → World → Mutex × World × Reply → Type 0
Tried none ws mx w (mx', w', reply) = Owned mx' (some (my_tid w)) ws × (w' ≡ w) × (reply ≡ returned)
Tried (some t) ws mx w (mx', w', reply) = (mx' ≡ mx) × (w' ≡ w) × (reply ≡ failed)

-- On a mutex in good order, called by a thread, `mutex_trylock` makes the caller the owner if
-- there is none, and else fails and changes nothing.
pub mutex_trylock_lem :
    (w : World) {mx : Mutex} (owner : Option ℕ) (ws : List ℕ)
    → Owned mx owner ws
    → w.current ≢ null
    → my_tid w < 2 ^ 31
    → Ends (Tried owner ws mx w) ⊥ (mutex_trylock mx w)
unfolding mutex_trylock
mutex_trylock_lem w {mx} none ws h some_thread lt =
    rw goes (
      returns (record { owner_is = refl; valid = lt; counted = refl; queue = h.queue }, refl, refl))
  where
    goes : (w.current == null || not (mx.owner_tid == no_owner)) ≡ false
    goes = ground (arith, some_thread, h.owner_is)
mutex_trylock_lem w {mx} (some t) ws h some_thread lt = rw refused (returns (refl, refl, refl))
  where
    refused : (w.current == null || not (mx.owner_tid == no_owner)) ≡ true
    refused = ground (arith, h.owner_is, h.valid)
