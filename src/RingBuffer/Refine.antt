-- ===== src/RingBuffer/Refine.antt =====
-- A ring buffer in good order behaves as the queue of the bytes between its pointers.
use os_pi_is_cool.Base.{
  ℕ, suc, ◌+◌, ◌-◌, ◌*◌, ◌≤◌, ◌<◌, ◌≡◌, refl, sym, ap, ap₂, ◌∙◌, true, false, Option, none, some,
  List, [], ◌∷◌, ◌++◌, arith, ◌==◌, length, get_or, load-get_or, store-set, inl, inr, Bool-cases,
  ok, Ends, returns, Ends-value,
}
use os_pi_is_cool.RingBuffer.Queue
use os_pi_is_cool.RingBuffer.Queue.{
  Op, produce, consume, remove_back, Reply, reply, drop_last, has_any,
}
use os_pi_is_cool.RingBuffer.{
  RingBuffer, create_ring_buffer, step_up, consume_ring_buffer, produce_ring_buffer,
  remove_back_ring_buffer, call, run,
}
use os_pi_is_cool.RingBuffer.Window.{place, window, length-window, window_snoc, window_shift}
use os_pi_is_cool.RingBuffer.Holds.{Holds, appended, shrunk}

drop_last_snoc : (q : List ℕ) (x : ℕ) → drop_last (q ++ x ∷ []) ≡ q
drop_last_snoc [] x = refl
drop_last_snoc (y ∷ []) x = refl
drop_last_snoc (y ∷ z ∷ q) x = ap (λ w. y ∷ w) (drop_last_snoc (z ∷ q) x)

has_any_snoc : (q : List ℕ) (x : ℕ) → has_any (q ++ x ∷ []) ≡ true
has_any_snoc [] x = refl
has_any_snoc (y ∷ q) x = refl

-- The call returns what the queue's call returns, and leaves a ring that holds the queue's rest.
abbrev pub Matches : Op → RingBuffer → List ℕ → Option RingBuffer × Reply → Type 0
Matches op r q (r', out) =
    (s : RingBuffer) × (r' ≡ some s)
    × Holds s (Queue.call r.capacity op q).0
    × (s.capacity ≡ r.capacity)
    × (out ≡ (Queue.call r.capacity op q).1)

matched :
    (op : Op) (r : RingBuffer) (q : List ℕ) {s : RingBuffer} {q' : List ℕ} {out : Reply}
    → Queue.call r.capacity op q ≡ (q', out)
    → Holds s q'
    → s.capacity ≡ r.capacity
    → Ends (Matches op r q) ⊥ (ok (some s, out))
matched op r q e h c = returns (_, refl, rw e h, c, rw e)

module _ {r : RingBuffer} (q : List ℕ) (h : Holds r q) where
  length-bytes : length q ≡ r.size
  length-bytes = ap length h.bytes ∙ length-window r.data_cells r.capacity h.front 0 r.size

  produce_full :
      (c : ℕ)
      → (r.size == r.capacity) ≡ true
      → Queue.call r.capacity (produce c) q ≡ (q, reply false none)
  unfolding Queue.call
  produce_full c full = rw (length-bytes, full)

  produce_free :
      (c : ℕ)
      → (r.size == r.capacity) ≡ false
      → Queue.call r.capacity (produce c) q ≡ (q ++ c ∷ [], reply true none)
  unfolding Queue.call
  produce_free c free = rw (length-bytes, free)

  produce-Matches : (c : ℕ) → Ends (Matches (produce c) r q) ⊥ (call (produce c) r)
  unfolding call produce_ring_buffer
  produce-Matches c = elim (Bool-cases (r.size == r.capacity)) [
    | inl full ↦ rw full (matched (produce c) r q (produce_full c full) h refl)
    | inr free ↦ elim (Bool-cases (r.size == 0)) [
      | inl empty ↦
          let none_yet : r.size ≡ 0 = ground arith in
          let nothing : q ≡ window r.data_cells r.capacity 0 0 r.size =
            h.bytes
            ∙ ap (window r.data_cells r.capacity h.front 0) none_yet
            ∙ sym (ap (window r.data_cells r.capacity 0 0) none_yet) in
          rw (free, empty, store-set r.data_cells 0 c (omega (arith, h.storage, h.front_in)))
            (matched (produce c) r q (produce_free c free)
              (appended r.data_cells r.capacity 0 r.size 0 c q h.storage (omega (arith, h.front_in))
                (ground (arith, h.fits)) (ground (arith, h.front_in)) nothing)
              refl)
      | inr some_bytes ↦
          let t = place r.capacity h.front (r.size - 1) in
          let i = step_up r.capacity t in
          let at : i ≡ place r.capacity h.front r.size = ground (arith, h.front_in, h.fits) in
          let write = store-set r.data_cells i c (ground (arith, h.front_in, h.storage, h.fits)) in
          let tail_some : r.tail ≡ some t = rw some_bytes at h.tail_is in
          let head_some : r.head ≡ some h.front = rw some_bytes at h.head_is in
          rw (free, some_bytes, tail_some, head_some, write)
            (matched (produce c) r q (produce_free c free)
              (appended r.data_cells r.capacity h.front r.size i c q h.storage h.front_in
                (ground (arith, h.fits)) at h.bytes)
              refl)
    ]
  ]

module _ {r : RingBuffer} (q : List ℕ) (h : Holds r q) where
  empty-nil : (r.size == 0) ≡ true → q ≡ []
  empty-nil e =
      let none_yet : r.size ≡ 0 = ground arith in
      h.bytes ∙ ap (window r.data_cells r.capacity h.front 0) none_yet

  count : (r.size == 0) ≡ false → r.size ≡ suc (r.size - 1)
  count e = ground arith

  front_first :
      (r.size == 0) ≡ false
      → q
        ≡ get_or r.data_cells h.front 0
          ∷ window r.data_cells r.capacity (step_up r.capacity h.front) 0 (r.size - 1)
  front_first e =
      h.bytes
      ∙ ap (window r.data_cells r.capacity h.front 0) (count e)
      ∙ ap₂ ◌∷◌ (ap (λ i. get_or r.data_cells i 0) (ground (arith, h.front_in))) (
          sym (
            window_shift r.data_cells r.capacity h.front 0 (r.size - 1) h.front_in
              (ground (arith, h.fits))))

  back_last :
      (r.size == 0) ≡ false
      → q
        ≡ window r.data_cells r.capacity h.front 0 (r.size - 1)
          ++ get_or r.data_cells (place r.capacity h.front (0 + (r.size - 1))) 0 ∷ []
  back_last e =
      h.bytes
      ∙ ap (window r.data_cells r.capacity h.front 0) (count e)
      ∙ window_snoc r.data_cells r.capacity h.front 0 (r.size - 1)

  consume_empty : (r.size == 0) ≡ true → Queue.call r.capacity consume q ≡ (q, reply false none)
  unfolding Queue.call
  consume_empty e = rw (empty-nil e)

  consume_some :
      (r.size == 0) ≡ false
      → Queue.call r.capacity consume q ≡ (
        window r.data_cells r.capacity (step_up r.capacity h.front) 0 (r.size - 1),
        reply true (some (get_or r.data_cells h.front 0)),
      )
  unfolding Queue.call
  consume_some e = rw (front_first e)

  remove_back_empty :
      (r.size == 0) ≡ true → Queue.call r.capacity remove_back q ≡ (q, reply false none)
  unfolding Queue.call
  remove_back_empty e = rw (empty-nil e)

  remove_back_some :
      (r.size == 0) ≡ false
      → Queue.call r.capacity remove_back q
        ≡ (window r.data_cells r.capacity h.front 0 (r.size - 1), reply true none)
  unfolding Queue.call
  remove_back_some e = rw (back_last e, drop_last_snoc, has_any_snoc)

  consume-Matches : Ends (Matches consume r q) ⊥ (call consume r)
  unfolding call consume_ring_buffer
  consume-Matches = elim (Bool-cases (r.size == 0)) [
    | inl empty ↦ rw empty (matched consume r q (consume_empty empty) h refl)
    | inr more ↦
        let head_some : r.head ≡ some h.front = rw more at h.head_is in
        let tail_some : r.tail ≡ some (place r.capacity h.front (r.size - 1)) =
          rw more at h.tail_is in
        rw
          (
            more,
            head_some,
            load-get_or r.data_cells h.front 0 (omega (arith, h.storage, h.front_in)),
            tail_some,
          )
          (matched consume r q (consume_some more)
            (shrunk r.data_cells r.capacity (step_up r.capacity h.front) (r.size - 1) _ _ h.storage
              (ground (arith, h.front_in)) (omega (arith, h.fits))
              (λ ne. ground (arith, h.front_in, h.fits)) refl)
            (ground arith))
  ]

  remove_back-Matches : Ends (Matches remove_back r q) ⊥ (call remove_back r)
  unfolding call remove_back_ring_buffer
  remove_back-Matches = elim (Bool-cases (r.size == 0)) [
    | inl empty ↦ rw empty (matched remove_back r q (remove_back_empty empty) h refl)
    | inr more ↦
        let head_some : r.head ≡ some h.front = rw more at h.head_is in
        let tail_some : r.tail ≡ some (place r.capacity h.front (r.size - 1)) =
          rw more at h.tail_is in
        rw (more, tail_some, head_some)
          (matched remove_back r q (remove_back_some more)
            (shrunk r.data_cells r.capacity h.front (r.size - 1) _ _ h.storage h.front_in
              (omega (arith, h.fits)) (λ ne. ground (arith, h.front_in, h.fits)) refl)
            (ground arith))
  ]

-- Every call on a ring in good order succeeds or fails as the call on its queue does, with the same
-- byte, never touches memory outside the storage, and leaves a ring that holds the queue's rest.
pub call-Matches :
    (op : Op) {r : RingBuffer} (q : List ℕ) → Holds r q → Ends (Matches op r q) ⊥ (call op r)
call-Matches (produce c) q h = produce-Matches q h c
call-Matches consume q h = consume-Matches q h
call-Matches remove_back q h = remove_back-Matches q h

-- No sequence of calls tells a ring in good order from the bounded queue of its bytes.
pub run_refines :
    (ops : List Op) {r : RingBuffer} (q : List ℕ)
    → Holds r q
    → run ops (some r) ≡ ok (Queue.run r.capacity ops q)
unfolding run Queue.run
run_refines [] q h = refl
run_refines (op ∷ ops) {r} q h =
    let ((r', out), called, (s, is_s, held, same, answer)) = Ends-value (call-Matches op q h) in
    rw (called, is_s, run_refines ops _ held, same, answer)

-- A new ring of a positive capacity whose storage was granted, and is as large as was asked for,
-- holds the empty queue.
pub create_ring_buffer-Holds :
    (kmalloc : ℕ → Option (List ℕ)) (capacity : ℕ) (cells : List ℕ)
    → kmalloc (8 * capacity) ≡ some cells
    → 8 * capacity ≤ length cells
    → 0 < capacity
    → Holds (create_ring_buffer kmalloc capacity) []
unfolding create_ring_buffer
create_ring_buffer-Holds kmalloc capacity cells e big positive = rw e (record {
  front = 0;
  storage = omega arith;
  front_in = positive;
  fits = omega arith;
  head_is = refl;
  tail_is = refl;
  bytes = refl;
})
