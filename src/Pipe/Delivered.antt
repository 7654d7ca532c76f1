-- ===== src/Pipe/Delivered.antt =====
-- A reader and a writer of a pipe, in any order of their rounds: the bytes arrive in order.
use os_pi_is_cool.Base.{
  ℕ, ◌≤◌, ◌≡◌, ◌⊎◌, inl, inr, refl, sym, ◌∙◌, arith, true, false, List, [], ◌∷◌, ◌++◌, append-nil,
  length, Bool-cases, Ends, returns, Ends-if, Ends-bind, Ends-mono, Allocator, OutOfMemory,
}
use os_pi_is_cool.Pipe.{Pipe, goes_on, Link, has_returned, Move, by_reader, by_writer, move, run}
use os_pi_is_cool.Pipe.Wake.{IsPipe}
use os_pi_is_cool.Pipe.Order.{pipe_read_lem}
use os_pi_is_cool.Pipe.Stream.{has_mark, open_end, Tail-freed, Streams, flows, ended}
use os_pi_is_cool.Pipe.Stream.Reader.{reader_turn}
use os_pi_is_cool.Pipe.Stream.Writer.{writer_lem}

module _ (d : List ℕ) (plain : has_mark d ≡ false) where
  move_lem :
      (k : Allocator) (s : Link) (m : Move)
      → Streams d s
      → Ends (Streams d) (OutOfMemory k) (move k s m)
  unfolding move
  move_lem k s by_reader (ended closed done same le) = rw done (returns (ended closed done same le))
  move_lem k s by_writer (ended closed done same le) =
      Ends-if s.closed (λ _. returns (ended closed done same le)) (λ opened. absurd (cc))
  move_lem k s by_reader (flows h still) = elim (Bool-cases (has_returned s.reading)) [
    | inl done ↦ rw done (returns (flows h still))
    | inr busy ↦ rw busy (
        Ends-if s.freed
          (λ freed. absurd (let clash : true ≡ false = sym freed ∙ Tail-freed h.tail in cc))
          λ _. Ends-bind (pipe_read_lem k h.good s.reader s.count s.got) λ x r.
            returns (reader_turn d plain s h.queued h.end h.rx h.tx x h.tail h.in_order h.within r))
  ]
  move_lem k s by_writer (flows h still) = elim (Bool-cases s.closed) [
    | inl c ↦ Ends-if s.closed (λ _. returns (flows h still)) (λ opened. absurd (cc))
    | inr c ↦
        writer_lem d plain k s h.queued h.end h.rx h.tx h.good h.tail c h.in_order h.within still
  ]

  run-Streams :
      (k : Allocator) (s : Link) (ms : List Move)
      → Streams d s
      → Ends (Streams d) (OutOfMemory k) (run k s ms)
  unfolding run
  run-Streams k s [] h = returns h
  run-Streams k s (m ∷ ms) h = Ends-bind (move_lem k s m h) λ s' h'. run-Streams k s' ms h'

-- The reader has the first of the bytes, in order, and no more than it asked for. If its call has
-- returned, it has as many as it asked for, or all, or these are more than a pipe of this capacity
-- has room for with the end mark.
abbrev pub Delivered : ℕ → List ℕ → Link → Type 0
Delivered capacity d s =
    ((rest : List ℕ) × (s.got ++ rest ≡ d))
    × (length s.got ≤ s.count)
    × (has_returned s.reading ≡ true
        → (length s.got ≡ s.count) ⊎ ((s.got ≡ d) ⊎ (capacity ≤ length d)))

delivered : (capacity : ℕ) (d : List ℕ) (s : Link) → Streams d s → Delivered capacity d s
delivered capacity d s (ended closed done same le) =
    (([], append-nil s.got ∙ same), le, λ r. inr (inl same))
delivered capacity d s (flows h still) =
    ((h.queued ++ s.left, h.in_order), h.within, λ r. inl (still r))

-- The link before its first round.
abbrev pub start : Pipe → ℕ → ℕ → ℕ → List ℕ → Link
start p reader count writer d = record {
  pipe = p;
  reader = reader;
  count = count;
  got = [];
  reading = goes_on;
  writer = writer;
  left = d;
  writing = goes_on;
  closed = false;
  freed = false;
}

-- If a thread writes bytes without the end mark to an empty pipe in good order, of which it is the
-- only writer, and closes it, while another one reads: in whatever order their rounds come, and
-- however often they wake up and find nothing to do, the reader has at any time the first of these
-- bytes, in order, and no more than it asked for. When its call has returned it has as many as it
-- asked for, or all of them, if the pipe has room for all and the end mark. The reader, who has not
-- closed the pipe, is counted, and neither of the two uses a pipe that was freed. It is fatal only for
-- want of memory.
pub run-Delivered :
    (k : Allocator) (p : Pipe) (reader count writer : ℕ) (d : List ℕ) (ms : List Move)
    → IsPipe p [] [] []
    → p.num_writers ≡ 1
    → has_mark d ≡ false
    → Ends
        (Delivered p.buffer.capacity d)
        (OutOfMemory k)
        (run k (start p reader count writer d) ms)
run-Delivered k p reader count writer d ms good one plain =
    Ends-mono
      (run-Streams d plain k (start p reader count writer d) ms (
        flows
          (record {
            queued = [];
            end = [];
            rx = [];
            tx = [];
            good = good;
            tail = open_end refl one (λ r. absurd (cc)) refl;
            in_order = refl;
            within = omega arith;
          })
          (λ r. absurd (cc))))
      (delivered p.buffer.capacity d)
