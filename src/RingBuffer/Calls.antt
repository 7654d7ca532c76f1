-- ===== src/RingBuffer/Calls.antt =====
-- What `produce_ring_buffer` and `consume_ring_buffer` give a client that knows the bytes of the ring.
use os_pi_is_cool.Base.{
  ℕ, ◌≡◌, sym, ap, subst, Bool, true, false, Option, none, some, List, [], ◌∷◌, ◌++◌, inl, inr,
  ◌==◌, length, Bool-cases, Ends, Ends-mono, Ends-unmap,
}
use os_pi_is_cool.RingBuffer.{RingBuffer, produce_ring_buffer, consume_ring_buffer, call}
use os_pi_is_cool.RingBuffer.Queue
use os_pi_is_cool.RingBuffer.Queue.{Op, produce, consume, Reply, reply}
use os_pi_is_cool.RingBuffer.Holds.{Holds}
use os_pi_is_cool.RingBuffer.Refine.{Matches, call-Matches}

pub data Produced (r : RingBuffer) (q : List ℕ) (c : ℕ) : Option RingBuffer × Bool → Type 0 where
  put :
      {s : RingBuffer}
      → Holds s (q ++ c ∷ [])
      → s.capacity ≡ r.capacity
      → (length q == r.capacity) ≡ false
      → Produced r q c (some s, true)
  full :
      {s : RingBuffer}
      → Holds s q
      → (length q == r.capacity) ≡ true
      → s.capacity ≡ r.capacity
      → Produced r q c (some s, false)

pub data Consumed (r : RingBuffer) : List ℕ → RingBuffer × Bool × Option ℕ → Type 0 where
  got :
      {s : RingBuffer} {c : ℕ} {q : List ℕ}
      → Holds s q
      → s.capacity ≡ r.capacity
      → Consumed r (c ∷ q) (s, true, some c)
  none_left :
      {s : RingBuffer} {o : Option ℕ}
      → Holds s []
      → s.capacity ≡ r.capacity
      → Consumed r [] (s, false, o)

produced :
    (r : RingBuffer) (q : List ℕ) (c : ℕ) (x : Option RingBuffer × Bool)
    → Matches (produce c) r q (x.0, reply x.1 none)
    → Produced r q c x
unfolding Queue.call
produced r q c (none, done) (s, is_s, h, same_capacity, out) = absurd (cc)
produced r q c (some r', done) (s, is_s, h, same_capacity, out) =
    let same : s ≡ r' = cc in
    elim (Bool-cases (length q == r.capacity)) [
      | inl e ↦
          let h' : Holds s q = rw e at h in
          let out' : reply done none ≡ reply false none = rw e at out in
          subst (λ z. Produced r q c (some z, done)) same
            (subst (λ b. Produced r q c (some s, b)) (sym (ap (λ (z : Reply). z.done) out'))
              (full h' e same_capacity))
      | inr e ↦
          let h' : Holds s (q ++ c ∷ []) = rw e at h in
          let out' : reply done none ≡ reply true none = rw e at out in
          subst (λ z. Produced r q c (some z, done)) same
            (subst (λ b. Produced r q c (some s, b)) (sym (ap (λ (z : Reply). z.done) out'))
              (put h' same_capacity e))
    ]

consumed :
    (r : RingBuffer) (q : List ℕ) (x : RingBuffer × Bool × Option ℕ)
    → Matches consume r q (some x.0, reply x.1 x.2)
    → Consumed r q x
unfolding Queue.call
consumed r [] (r', false, o) (s, is_s, h, same_capacity, out) =
    let same : s ≡ r' = cc in
    subst (λ z. Consumed r [] (z, false, o)) same (none_left h same_capacity)
consumed r [] (r', true, o) (s, is_s, h, same_capacity, out) = absurd (cc)
consumed r (c ∷ q) (r', false, o) (s, is_s, h, same_capacity, out) = absurd (cc)
consumed r (c ∷ q) (r', true, none) (s, is_s, h, same_capacity, out) = absurd (cc)
consumed r (c ∷ q) (r', true, some d) (s, is_s, h, same_capacity, out) =
    let same : s ≡ r' = cc in
    let byte : c ≡ d = cc in
    subst (λ z. Consumed r (c ∷ q) (z, true, some d)) same
      (subst (λ z. Consumed r (c ∷ q) (s, true, some z)) byte (got h same_capacity))

module _ {r : RingBuffer} (q : List ℕ) (h : Holds r q) where
  pub produce_ring_buffer_lem : (c : ℕ) → Ends (Produced r q c) ⊥ (produce_ring_buffer (some r) c)
  unfolding call
  produce_ring_buffer_lem c =
      Ends-mono (Ends-unmap (produce_ring_buffer (some r) c) (call-Matches (produce c) q h))
        λ x m. produced r q c x m

  pub consume_ring_buffer_lem : Ends (Consumed r q) ⊥ (consume_ring_buffer r)
  unfolding call
  consume_ring_buffer_lem =
      Ends-mono (Ends-unmap (consume_ring_buffer r) (call-Matches consume q h))
        λ x m. consumed r q x m
