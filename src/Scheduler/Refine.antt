-- ===== src/Scheduler/Refine.antt =====
-- The queues of scheduler.c behave as the first-in first-out queues of `Scheduler.Ready`.
use mathlib.Core.List.{reverse-cons}
use os_pi_is_cool.Base.{
  ℕ, zero, suc, ◌+◌, ◌<◌, ◌≡◌, refl, ap, ◌∙◌, sym, subst, Bool, true, false, not, ◌||◌, Option,
  none, some, List, [], ◌∷◌, ◌++◌, reverse, ◌==◌, ltb, arith, length, length-snoc, Ptr, null,
  Bool-cases, inl, inr, ok, Ends, returns, Ends-bind,
}
use os_pi_is_cool.Vec.{Vec, is_empty}
use os_pi_is_cool.Vec.Holds.{Holds}
use os_pi_is_cool.Vec.Grow.{pop_back-Holds}
use os_pi_is_cool.Thread.{Tcbs, is_ready, update}
use os_pi_is_cool.Scheduler.{
  Scheduler, next_pri, max_pri_cntrs, pop_ready, charge, next_from, get_next_thread,
}
use os_pi_is_cool.Scheduler.Ready
use os_pi_is_cool.Scheduler.Ready.{Ready, take_ready}

-- What `get_next_thread_locked` asks of a thread.
abbrev pub is_live : Tcbs → Ptr → Bool
is_live m t = not (t == null || not (is_ready (m t).state))

-- Index 0 of the vector is the newest thread, so that the queue stands in it from the back.
abbrev pub Queue : Vec → List Ptr → Type 0
Queue v q = Holds v (reverse q)

pub record Queues (s : Scheduler) (r : Ready) : Type 0 where
  pub queues : (p : ℕ) → p < 3 → Queue (s.queues p) (r.queue p)
  pub counters : s.pri_counters ≡ r.counter
  pub turn : s.curr_pri ≡ r.turn

pub length-reverse : (q : List Ptr) → length (reverse q) ≡ length q
length-reverse [] = refl
length-reverse (t ∷ q) =
    ap length (reverse-cons t q) ∙ length-snoc (reverse q) t ∙ ap suc (length-reverse q)

pop_ready-Queue :
    (m : Tcbs) (q : List Ptr) (n : ℕ) {v : Vec}
    → n ≡ length q
    → Queue v q
    → Ends
        (λ (w, got). Queue w (take_ready (is_live m) q).0 × (got ≡ (take_ready (is_live m) q).1))
        ⊥
        (pop_ready n m v)
unfolding pop_ready take_ready
pop_ready-Queue m [] zero e h = returns (h, refl)
pop_ready-Queue m [] (suc n) e h = absurd (omega arith)
pop_ready-Queue m (t ∷ q) zero e h = absurd (omega arith)
pop_ready-Queue m (t ∷ q) (suc n) {v} e h =
    let held : Holds v (reverse q ++ t ∷ []) = subst (Holds v) (reverse-cons t q) h in
    let some_left : is_empty v ≡ false = ground (arith, held.counted, length-snoc (reverse q) t) in
    rw (some_left, pop_ready)
      (Ends-bind (pop_back-Holds true (reverse q) t held) λ (w, took, got) (hw, done, out, same).
        rw out (elim (Bool-cases (t == null || not (is_ready (m t).state))) [
          | inl stale ↦ rw stale (pop_ready-Queue m q n (omega arith) hw)
          | inr live_t ↦ rw live_t (returns (hw, refl))
        ]))

-- NULL for no thread.
abbrev pub ptr_of : Option Ptr → Ptr
ptr_of none = null
ptr_of (some t) = t

charge-Queues : {s : Scheduler} {r : Ready} → Queues s r → Queues (charge s) (Ready.charge r)
unfolding charge
charge-Queues {s} {r} h =
    rw (h.counters, h.turn)
      (elim (Bool-cases (ltb (max_pri_cntrs r.turn) (r.counter r.turn + 1))) [
        | inl over ↦ rw over (record { queues = h.queues; counters = refl; turn = refl })
        | inr under ↦ rw under (record { queues = h.queues; counters = refl; turn = refl })
      ])

pub update-Queues :
    {s : Scheduler} {r : Ready} (p : ℕ) (v : Vec) (q : List Ptr)
    → Queues s r
    → Queue v q
    → Queues (record s { queues = update s.queues p v }) (record r { queue = update r.queue p q })
update-Queues {s} {r} p v q h hv = record {
  queues = λ j lt. elim (Bool-cases (p == j)) [
    | inl same ↦ rw same hv
    | inr other ↦ rw other (h.queues j lt)
  ];
  counters = h.counters;
  turn = h.turn;
}

abbrev pub Next : Ready × Option Ptr → Scheduler × Ptr → Type 0
Next x (s, t) = Queues s x.0 × (t ≡ ptr_of x.1)

next_from-Queues :
    (m : Tcbs) (n : ℕ) (s : Scheduler) (r : Ready)
    → r.turn < 3
    → Queues s r
    → Ends (Next (Ready.next_from n (is_live m) r)) ⊥ (next_from n m s)
unfolding next_from Ready.next_from
next_from-Queues m zero s r lt h = returns (h, refl)
next_from-Queues m (suc n) s r lt h =
    let here = subst (λ p. Queue (s.queues p) (r.queue r.turn)) (sym h.turn) (h.queues r.turn lt) in
    Ends-bind
      (pop_ready-Queue m (r.queue r.turn) (s.queues s.curr_pri).length
        (here.counted ∙ length-reverse (r.queue r.turn)) here)
      λ (w, got) (hw, e).
        go w got (take_ready (is_live m) (r.queue r.turn)) refl hw e (next_from-Queues m n)
  where
    go :
        (w : Vec) (got : Option Ptr) (x : List Ptr × Option Ptr)
        → take_ready (is_live m) (r.queue r.turn) ≡ x
        → Queue w (take_ready (is_live m) (r.queue r.turn)).0
        → got ≡ (take_ready (is_live m) (r.queue r.turn)).1
        → ((s' : Scheduler) (r' : Ready)
            → r'.turn < 3
            → Queues s' r'
            → Ends (Next (Ready.next_from n (is_live m) r')) ⊥ (next_from n m s'))
        → Ends (Next (Ready.proceed (Ready.next_from n (is_live m)) r x)) ⊥ (
            let s' = record s { queues = update s.queues s.curr_pri w } in
            elim got [
              | some t ↦ ok (charge s', t)
              | none ↦ next_from n m (record s' { curr_pri = next_pri s.curr_pri })
            ])
    go w got (q, none) e hw e' rest =
        rw (e', e, h.turn)
          (rest _ (record r { queue = update r.queue r.turn q; turn = next_pri r.turn })
            (omega arith)
            (record {
              queues = (update-Queues r.turn w q h (rw e at hw)).queues;
              counters = h.counters;
              turn = refl;
            }))
    go w got (q, some t) e hw e' rest =
        rw (e', e, h.turn)
          (returns (
            charge-Queues (
                update-Queues {s = record s { curr_pri = r.turn }} r.turn w q
                  (record { queues = h.queues; counters = h.counters; turn = refl }) (rw e at hw)),
            refl,
          ))

-- `get_next_thread` returns what the three queues give, or NULL, never touches memory outside a
-- queue, and leaves vectors that hold the queues that are left.
pub get_next_thread-Queues :
    (m : Tcbs) (s : Scheduler) (r : Ready)
    → r.turn < 3
    → Queues s r
    → Ends (Next (Ready.next_from 3 (is_live m) r)) ⊥ (get_next_thread m s)
unfolding get_next_thread
get_next_thread-Queues m s r lt h = next_from-Queues m 3 s r lt h
