-- ===== src/RingBuffer/Holds.antt =====
-- What a ring buffer in good order holds: the bytes from its head on, as many as `size` says.
use os_pi_is_cool.Base.{
  ℕ, suc, ◌+◌, ◌-◌, ◌≤◌, ◌<◌, ◌≡◌, ◌≢◌, ap, none, some, List, [], ◌∷◌, ◌++◌, arith, if◌then◌else◌,
  ◌==◌, length, get_or, set, length-set, get_or-set_self, inl, inr, Bool-cases,
}
use os_pi_is_cool.RingBuffer.{RingBuffer, reset_if_empty}
use os_pi_is_cool.RingBuffer.Window.{place, window, window_snoc, window-set}

pub record Holds (r : RingBuffer) (q : List ℕ) : Type 0 where
  pub front : ℕ
  pub storage : r.capacity ≤ length r.data_cells
  pub front_in : front < r.capacity
  pub fits : r.size ≤ r.capacity
  pub head_is : r.head ≡ (if r.size == 0 then none else some front)
  pub tail_is : r.tail ≡ (if r.size == 0 then none else some (place r.capacity front (r.size - 1)))
  pub bytes : q ≡ window r.data_cells r.capacity front 0 r.size

-- A byte written behind a window that starts at `f`.
pub appended :
    (cells : List ℕ) (cap f n i c : ℕ) (q : List ℕ)
    → cap ≤ length cells
    → f < cap
    → n < cap
    → i ≡ place cap f n
    → q ≡ window cells cap f 0 n
    → Holds
        (record {
          head = some f;
          tail = some i;
          data_cells = set cells i c;
          capacity = cap;
          size = n + 1;
        })
        (q ++ c ∷ [])
appended cells cap f n i c q big in_f lt at bytes = record {
  front = f;
  storage = omega (arith, length-set cells i c);
  front_in = in_f;
  fits = omega arith;
  head_is = ground arith;
  tail_is = ground arith;
  bytes = rw (bytes, at, grow, window_snoc new cap f 0 n, kept, first, last);
}
  where
    new : List ℕ
    new = set cells (place cap f n) c

    grow : n + 1 ≡ suc n
    grow = omega arith

    first : 0 + n ≡ n
    first = omega arith

    kept : window new cap f 0 n ≡ window cells cap f 0 n
    kept = window-set cells cap f 0 n n c in_f lt (omega arith)

    last : get_or new (place cap f n) 0 ≡ c
    last = get_or-set_self cells (place cap f n) c 0 (ground arith)

-- What is left of a window after one byte is gone; an empty ring forgets its pointers.
pub shrunk :
    (cells : List ℕ) (cap f n j : ℕ) (q : List ℕ)
    → cap ≤ length cells
    → f < cap
    → n ≤ cap
    → (n ≢ 0 → j ≡ place cap f (n - 1))
    → q ≡ window cells cap f 0 n
    → Holds
        (reset_if_empty
          (record { head = some f; tail = some j; data_cells = cells; capacity = cap; size = n }))
        q
shrunk cells cap f n j q big in_f le at bytes = elim (Bool-cases (n == 0)) [
  | inl empty ↦ rw empty (record {
    front = f;
    storage = big;
    front_in = in_f;
    fits = le;
    head_is = rw empty;
    tail_is = rw empty;
    bytes = bytes;
  })
  | inr some_bytes ↦ rw some_bytes (record {
    front = f;
    storage = big;
    front_in = in_f;
    fits = le;
    head_is = rw some_bytes;
    tail_is = rw some_bytes (ap some (at (ground arith)));
    bytes = bytes;
  })
]
