-- ===== src/Pipe/Order.antt =====
-- A round of `pipe_read` and one of `pipe_write`, on the bytes in the pipe and the waiting threads.
use os_pi_is_cool.Base.{
  ℕ, ◌≡◌, refl, ◌∙◌, Bool, true, false, Option, none, some, List, [], ◌∷◌, ◌++◌, ◌==◌, ltb, length,
  inl, inr, Bool-cases, Ends, returns, Ends-bind, Ends-any, Allocator, OutOfMemory,
}
use os_pi_is_cool.Vec.Grow.{push_back-Holds}
use os_pi_is_cool.RingBuffer.{RingBuffer}
use os_pi_is_cool.RingBuffer.Calls.{
  Produced, put, full, Consumed, got, none_left, produce_ring_buffer_lem, consume_ring_buffer_lem,
}
use os_pi_is_cool.Pipe.{
  Pipe, Turn, goes_on, returned, blocked, store_read, read_byte, pipe_read, write_byte, pipe_write,
}
use os_pi_is_cool.Pipe.Wake.{IsPipe, Same, pipe_wake_up_readers_lem, pipe_wake_up_writers_lem}

-- How a round of `pipe_read` of the thread `tid` ends, by the bytes in the pipe: enough bytes are
-- read, a byte is there, nobody writes any more, or the thread waits.
pub data Read (p : Pipe) (q rx tx : List ℕ) (tid count : ℕ) (so_far : List ℕ)
    : Pipe × List ℕ × Turn × List ℕ → Type 0 where
  enough :
      {p' : Pipe} {tids : List ℕ}
      → ltb (length so_far) count ≡ false
      → Same p p'
      → IsPipe p' q rx []
      → tids ≡ tx
      → Read p q rx tx tid count so_far (p', tids, returned, so_far)
  byte :
      {p' : Pipe} {c : ℕ} {q' : List ℕ}
      → ltb (length so_far) count ≡ true
      → q ≡ c ∷ q'
      → Same p p'
      → IsPipe p' q' rx tx
      → Read p q rx tx tid count so_far (p', [], (store_read c so_far).0, (store_read c so_far).1)
  no_writer :
      {p' : Pipe}
      → ltb (length so_far) count ≡ true
      → q ≡ []
      → (p.num_writers == 0) ≡ true
      → Same p p'
      → IsPipe p' [] rx tx
      → Read p q rx tx tid count so_far (p', [], returned, so_far)
  waits :
      {p' : Pipe} {tids : List ℕ}
      → ltb (length so_far) count ≡ true
      → q ≡ []
      → (p.num_writers == 0) ≡ false
      → Same p p'
      → IsPipe p' [] (tid ∷ rx) []
      → tids ≡ tx
      → Read p q rx tx tid count so_far (p', tids, blocked, so_far)

-- How a round of `pipe_write` ends, for the bytes left: none is left, there is room for one, or the
-- thread waits.
pub data Written (p : Pipe) (q rx tx : List ℕ) (tid : ℕ)
    : List ℕ → Pipe × List ℕ × Turn × List ℕ → Type 0 where
  all :
      {p' : Pipe} {tids : List ℕ}
      → Same p p'
      → IsPipe p' q [] tx
      → tids ≡ rx
      → Written p q rx tx tid [] (p', tids, returned, [])
  room :
      {p' : Pipe} {b : ℕ} {rest : List ℕ}
      → (length q == p.buffer.capacity) ≡ false
      → Same p p'
      → IsPipe p' (q ++ b ∷ []) rx tx
      → Written p q rx tx tid (b ∷ rest) (p', [], goes_on, rest)
  no_room :
      {p' : Pipe} {b : ℕ} {rest tids : List ℕ}
      → (length q == p.buffer.capacity) ≡ true
      → Same p p'
      → IsPipe p' q [] (tid ∷ tx)
      → tids ≡ rx
      → Written p q rx tx tid (b ∷ rest) (p', tids, blocked, b ∷ rest)

-- The rounds with what the buffer gave.
read_byte_lem :
    (k : Allocator) (p : Pipe) (q rx tx : List ℕ) (tid count : ℕ) (so_far : List ℕ)
    (x : RingBuffer × Bool × Option ℕ)
    → IsPipe p q rx tx
    → ltb (length so_far) count ≡ true
    → Consumed p.buffer q x
    → Ends (Read p q rx tx tid count so_far) (OutOfMemory k) (read_byte k p tid so_far x)
read_byte_lem k p (b ∷ q) rx tx tid count so_far (s, true, some c) h more (got g same) = returns (
    byte more refl (refl, same)
      (record { bytes = g; readers = h.readers; writers = h.writers; has_reader = h.has_reader }))
read_byte_lem k p [] rx tx tid count so_far (s, false, o) h more (none_left e same) =
    let now : IsPipe (record p { buffer = s }) [] rx tx = record {
      bytes = e;
      readers = h.readers;
      writers = h.writers;
      has_reader = h.has_reader;
    } in
    elim (Bool-cases (p.num_writers == 0)) [
      | inl closed ↦ rw closed (returns (no_writer more refl closed (refl, same) now))
      | inr still ↦ rw still (
          Ends-bind (Ends-any (pipe_wake_up_writers_lem now)) λ (p', tids) (woke, who, (w, c)).
            Ends-bind (push_back-Holds k tid woke.readers) λ v (held, _). returns (
              waits more refl still (w, c ∙ same)
                (record {
                  bytes = woke.bytes;
                  readers = held;
                  writers = woke.writers;
                  has_reader = woke.has_reader;
                })
                who))
    ]
read_byte_lem k p [] rx tx tid count so_far (s, true, o) h more x = elim x [ ]
read_byte_lem k p (b ∷ q) rx tx tid count so_far (s, false, o) h more x = elim x [ ]
read_byte_lem k p (b ∷ q) rx tx tid count so_far (s, true, none) h more x = elim x [ ]

write_byte_lem :
    (k : Allocator) (p : Pipe) (q rx tx : List ℕ) (tid b : ℕ) (rest : List ℕ)
    (x : Option RingBuffer × Bool)
    → IsPipe p q rx tx
    → Produced p.buffer q b x
    → Ends (Written p q rx tx tid (b ∷ rest)) (OutOfMemory k) (write_byte k p tid b rest x)
write_byte_lem k p q rx tx tid b rest (none, done) h x = elim x [ ]
write_byte_lem k p q rx tx tid b rest (some s, true) h (put g same free) = returns (
    room free (refl, same)
      (record { bytes = g; readers = h.readers; writers = h.writers; has_reader = h.has_reader }))
write_byte_lem k p q rx tx tid b rest (some s, false) h (full g filled same) =
    let now : IsPipe (record p { buffer = s }) q rx tx = record {
      bytes = g;
      readers = h.readers;
      writers = h.writers;
      has_reader = h.has_reader;
    } in
    Ends-bind (Ends-any (pipe_wake_up_readers_lem now)) λ (p', tids) (woke, who, (w, c)).
      Ends-bind (push_back-Holds k tid woke.writers) λ v (held, _). returns (
        no_room filled (w, c ∙ same)
          (record {
            bytes = woke.bytes;
            readers = woke.readers;
            writers = held;
            has_reader = woke.has_reader;
          })
          who)

module _ (k : Allocator) {p : Pipe} {q rx tx : List ℕ} (h : IsPipe p q rx tx) (tid : ℕ) where
  -- On a pipe in good order, a round of `pipe_read` takes the oldest byte and goes on, or returns at
  -- the end mark; if the pipe is empty it returns if nobody writes any more, and else wakes up the
  -- writers, the last one that came first, and waits; if it has read enough it wakes up the writers
  -- and returns. It is fatal only for want of memory.
  pub pipe_read_lem :
      (count : ℕ) (so_far : List ℕ)
      → Ends (Read p q rx tx tid count so_far) (OutOfMemory k) (pipe_read k p tid count so_far)
  unfolding pipe_read
  pipe_read_lem count so_far = elim (Bool-cases (ltb (length so_far) count)) [
    | inl more ↦ rw more (
        Ends-bind (Ends-any (consume_ring_buffer_lem q h.bytes))
          λ x c. read_byte_lem k p q rx tx tid count so_far x h more c)
    | inr full_count ↦ rw full_count (
        Ends-bind (Ends-any (pipe_wake_up_writers_lem h))
          λ (p', tids) (woke, who, same). returns (enough full_count same woke who))
  ]

  -- On a pipe in good order, a round of `pipe_write` puts the next byte behind the others if there
  -- is room, and else wakes up the readers and waits; if no byte is left it wakes up the readers and
  -- returns. It is fatal only for want of memory.
  pub pipe_write_lem :
      (left : List ℕ) → Ends (Written p q rx tx tid left) (OutOfMemory k) (pipe_write k p tid left)
  unfolding pipe_write
  pipe_write_lem [] =
      Ends-bind (Ends-any (pipe_wake_up_readers_lem h))
        λ (p', tids) (woke, who, same). returns (all same woke who)
  pipe_write_lem (b ∷ rest) =
      Ends-bind (Ends-any (produce_ring_buffer_lem q h.bytes b))
        λ x c. write_byte_lem k p q rx tx tid b rest x h c
