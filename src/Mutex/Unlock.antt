-- ===== src/Mutex/Unlock.antt =====
-- `mutex_unlock`: the owner gives the mutex up and wakes up a waiting thread.
use os_pi_is_cool.Base.{
  ℕ, ◌+◌, ◌%◌, ◌^◌, ◌<◌, ◌≡◌, ◌≢◌, refl, sym, subst, arith, Bool, true, false, not, ◌||◌, Option,
  none, some, List, [], ◌∷◌, ◌++◌, append-nil, ap, ◌⊎◌, Ends-mono, if◌then◌else◌, ◌==◌, length-snoc,
  inl, inr, Bool-cases, ok, Ptr, null, Allocator, OutOfMemory, Ends, returns, Ends-bind, Ends-any,
}
use os_pi_is_cool.Vec.{is_empty}
use os_pi_is_cool.Vec.Grow.{pop_back-Holds}
use os_pi_is_cool.Scheduler.Ready.{Ready}
use os_pi_is_cool.Waking.{World, make_ready}
use os_pi_is_cool.Waking.Awake.{thread_of, thread_get_by_tid_lem, Awake, IsWorld, make_ready-Awake}
use os_pi_is_cool.Semaphore.{Reply, returned, failed}
use os_pi_is_cool.Mutex.{Mutex, my_tid, wake_waiting, wake_popped, release, mutex_unlock}
use os_pi_is_cool.Mutex.Owner.{Owned}

-- The waiting threads, with the one that began to wait last.
abbrev pub waiting : List ℕ → Option ℕ → List ℕ
waiting ws none = []
waiting ws (some tid) = ws ++ tid ∷ []

-- Those who wait when that one is woken up.
abbrev pub left_waiting : List ℕ → Option ℕ → List ℕ
left_waiting ws none = []
left_waiting ws (some tid) = ws

-- Whether the caller owns the mutex.
abbrev pub owns : World → Option ℕ → Bool
owns w none = false
owns w (some t) = t == my_tid w

module _ (k : Allocator) (w : World) {ts : List Ptr} {r : Ready} (h : IsWorld w ts r) where
  wake_waiting-Awake :
      (tid : ℕ)
      → Ends
          (Awake (not (thread_of w.tcbs ts tid == null)) w r (thread_of w.tcbs ts tid))
          (OutOfMemory k)
          (wake_waiting k tid w)
  unfolding wake_waiting
  wake_waiting-Awake tid =
      rw (thread_get_by_tid_lem w ts tid h.table) (go (thread_of w.tcbs ts tid))
    where
      go :
          (t : Ptr)
          → Ends
              (Awake (not (t == null)) w r t)
              (OutOfMemory k)
              (if t == null then ok w else make_ready k t w)
      go t = elim (Bool-cases (t == null)) [
        | inl nobody ↦ rw nobody (returns refl)
        | inr somebody ↦ rw somebody (make_ready-Awake k w h t)
      ]

  -- What the waiting thread, if there is one, is after the release.
  abbrev pub Woken : Option ℕ → World → Type 0
  Woken none w' = w' ≡ w
  Woken (some tid) w' =
      Awake (not (thread_of w.tcbs ts tid == null)) w r (thread_of w.tcbs ts tid) w'

  abbrev pub Unlocked : Bool → List ℕ → Option ℕ → Mutex → Mutex × World × Reply → Type 0
  Unlocked true ws last mx (mx', w', reply) =
      Owned mx' none (left_waiting ws last) × Woken last w' × (reply ≡ returned)
  Unlocked false ws last mx (mx', w', reply) = (mx' ≡ mx) × (w' ≡ w) × (reply ≡ failed)

  release-Unlocked :
      {mx : Mutex} (ws : List ℕ) (last : Option ℕ) (mx0 : Mutex)
      → Owned mx none (waiting ws last)
      → Ends (Unlocked true ws last mx0) (OutOfMemory k) (release k mx w)
  unfolding release
  release-Unlocked {mx} ws none mx0 o = rw nobody (returns (o, refl, refl))
    where
      nobody : is_empty mx.waiting_threads ≡ true
      nobody = ground (arith, o.queue.counted)
  release-Unlocked {mx} ws (some tid) mx0 o = rw somebody (
      Ends-bind (Ends-any (pop_back-Holds true ws tid o.queue))
        λ (v, took, got) (held, took_one, is_last, same).
          subst
            (λ g.
              Ends (Unlocked true ws (some tid) mx0) (OutOfMemory k)
                (wake_popped k mx w (v, took, g)))
            (sym is_last)
            (Ends-bind (wake_waiting-Awake tid) λ w' awake. returns (
              record { owner_is = o.owner_is; valid = _; counted = o.counted; queue = held },
              awake,
              refl,
            )))
    where
      somebody : is_empty mx.waiting_threads ≡ false
      somebody = ground (arith, o.queue.counted, length-snoc ws tid)

  -- On a mutex and in a world in good order, called by a thread, `mutex_unlock` by the owner
  -- leaves a mutex without an owner; the thread that began to wait last leaves the list and is
  -- made ready and given to the scheduler, if the table still knows it. By any other thread it
  -- fails and changes nothing. It is fatal only for want of memory.
  pub mutex_unlock_lem :
      {mx : Mutex} (owner : Option ℕ) (ws : List ℕ) (last : Option ℕ)
      → Owned mx owner (waiting ws last)
      → w.current ≢ null
      → my_tid w < 2 ^ 31
      → Ends (Unlocked (owns w owner) ws last mx) (OutOfMemory k) (mutex_unlock k mx w)
  unfolding mutex_unlock
  mutex_unlock_lem {mx} none ws last o some_thread lt = rw refused (returns (refl, refl, refl))
    where
      refused : (w.current == null || not (mx.owner_tid == my_tid w)) ≡ true
      refused = ground (arith, o.owner_is, lt)
  mutex_unlock_lem {mx} (some t) ws last o some_thread lt = elim (Bool-cases (t == my_tid w)) [
    | inr other ↦
        let refused : (w.current == null || not (mx.owner_tid == my_tid w)) ≡ true =
          ground (arith, o.owner_is, other) in
        rw (refused, other) (returns (refl, refl, refl))
    | inl mine ↦
        let goes : (w.current == null || not (mx.owner_tid == my_tid w)) ≡ false =
          ground (arith, o.owner_is, mine, some_thread) in
        let free : ((mx.lock_count + 4294967295) % 2 ^ 32 == 0) ≡ true =
          ground (arith, o.counted) in
        rw (goes, mine, free)
          (release-Unlocked ws last mx (record {
            owner_is = refl;
            valid = _;
            counted = omega (arith, o.counted);
            queue = o.queue;
          }))
  ]

-- A list is empty, or has a last element.
from_last : (ws : List ℕ) → (ws ≡ []) ⊎ ((xs : List ℕ) × (x : ℕ) × (ws ≡ xs ++ x ∷ []))
from_last [] = inl refl
from_last (w ∷ ws) = elim (from_last ws) [
  | inl nobody ↦ inr ([], w, ap (λ l. w ∷ l) nobody)
  | inr (xs, x, split) ↦ inr (w ∷ xs, x, ap (λ l. w ∷ l) split)
]

module _ (k : Allocator) (w : World) {ts : List Ptr} {r : Ready} (h : IsWorld w ts r) where
  -- How an unlock ends, by whether the caller owns the mutex: it is refused, or the mutex has no owner
  -- and nobody waited, or one of the waiting threads leaves the list and is awake.
  pub data HandsOver (mx : Mutex) (ws : List ℕ) : Bool → Mutex × World × Reply → Type 0 where
    refused : HandsOver mx ws false (mx, w, failed)
    nobody : {mx' : Mutex} → ws ≡ [] → Owned mx' none [] → HandsOver mx ws true (mx', w, returned)
    one :
        {mx' : Mutex} {w' : World} (tid : ℕ) (pre post : List ℕ)
        → ws ≡ pre ++ tid ∷ post
        → Owned mx' none (pre ++ post)
        → Awake (not (thread_of w.tcbs ts tid == null)) w r (thread_of w.tcbs ts tid) w'
        → HandsOver mx ws true (mx', w', returned)

  handed_over :
      (mx : Mutex) (ws : List ℕ) (last : Option ℕ) (mine : Bool) (x : Mutex × World × Reply)
      → Unlocked k w h mine ws last mx x
      → HandsOver mx (waiting ws last) mine x
  handed_over mx ws last false (mx', w', reply) (same, still, said) =
      subst (λ m. HandsOver mx (waiting ws last) false (m, w', reply)) (sym same)
        (subst (λ v. HandsOver mx (waiting ws last) false (mx, v, reply)) (sym still)
          (subst (λ a. HandsOver mx (waiting ws last) false (mx, w, a)) (sym said) refused))
  handed_over mx ws none true (mx', w', reply) (owned, still, said) =
      subst (λ v. HandsOver mx [] true (mx', v, reply)) (sym still)
        (subst (λ a. HandsOver mx [] true (mx', w, a)) (sym said) (nobody refl owned))
  handed_over mx ws (some tid) true (mx', w', reply) (owned, awake, said) =
      subst (λ a. HandsOver mx (ws ++ tid ∷ []) true (mx', w', a)) (sym said)
        (one tid ws [] refl (subst (Owned mx' none) (sym (append-nil ws)) owned) awake)

  -- On a mutex and in a world in good order, called by a thread, `mutex_unlock` by the owner leaves a
  -- mutex without an owner; if threads wait for it, one of them leaves the list, the others stay in
  -- their order, and it is made ready and given to the scheduler, if the table still knows it. By any
  -- other thread it fails and changes nothing. It is fatal only for want of memory.
  pub mutex_unlock-HandsOver :
      {mx : Mutex} (owner : Option ℕ) (ws : List ℕ)
      → Owned mx owner ws
      → w.current ≢ null
      → my_tid w < 2 ^ 31
      → Ends (HandsOver mx ws (owns w owner)) (OutOfMemory k) (mutex_unlock k mx w)
  mutex_unlock-HandsOver {mx} owner ws o some_thread lt = elim (from_last ws) [
    | inl empty ↦
        subst (λ l. Ends (HandsOver mx l (owns w owner)) (OutOfMemory k) (mutex_unlock k mx w))
          (sym empty)
          (Ends-mono
            (mutex_unlock_lem k w h owner [] none (subst (Owned mx owner) empty o) some_thread lt)
            (λ x u. handed_over mx [] none (owns w owner) x u))
    | inr (xs, x, split) ↦
        subst (λ l. Ends (HandsOver mx l (owns w owner)) (OutOfMemory k) (mutex_unlock k mx w))
          (sym split)
          (Ends-mono
            (mutex_unlock_lem k w h owner xs (some x) (subst (Owned mx owner) split o) some_thread
              lt)
            (λ y u. handed_over mx xs (some x) (owns w owner) y u))
  ]
