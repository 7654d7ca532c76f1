-- ===== src/Pipe/Stream.antt =====
-- A reader and a writer of a pipe, in any order of their rounds: what is invariant.
pub mod Reader
pub mod Writer
use os_pi_is_cool.Base.{
  ℕ, zero, suc, ◌+◌, ◌%◌, ◌<◌, ◌≤◌, ◌≡◌, ◌⊎◌, inl, inr, refl, sym, ap, subst, ◌∙◌, arith, Bool,
  true, false, not, ◌||◌, Option, none, some, List, [], ◌∷◌, ◌++◌, append-nil, append_assoc,
  append-cons, length, length-snoc, ◌==◌, ltb, if◌then◌else◌, Run, ok, ◌>>=◌, or_false, Bool-cases,
  Ends, returns, Ends-if, Ends-bind, Ends-mono, Ends-any, Ptr, Allocator, OutOfMemory,
}
use os_pi_is_cool.RingBuffer.{RingBuffer}
use os_pi_is_cool.RingBuffer.Holds
use os_pi_is_cool.RingBuffer.Calls.{Produced, put, full, produce_ring_buffer_lem}
use os_pi_is_cool.Pipe.{
  Pipe, Turn, goes_on, returned, blocked, end_mark, store_read, pipe_close, put_mark, Closed, Link,
  has_returned, Move, by_reader, by_writer, move, run,
}
use os_pi_is_cool.Process.{dec}
use os_pi_is_cool.Pipe.Wake.{IsPipe, pipe_wake_up_readers_lem}
use os_pi_is_cool.Pipe.Order.{
  Read, enough, byte, no_writer, waits, Written, all, room, no_room, pipe_read_lem, pipe_write_lem,
}

abbrev pub has_mark : List ℕ → Bool
has_mark [] = false
has_mark (c ∷ cs) = c == end_mark || has_mark cs

-- A byte in the middle of bytes without the end mark.
pub plain_middle :
    (xs : List ℕ) (c : ℕ) (ys : List ℕ) → has_mark (xs ++ c ∷ ys) ≡ false → (c == end_mark) ≡ false
plain_middle [] c ys h = (or_false (c == end_mark) (has_mark ys) h).0
plain_middle (x ∷ xs) c ys h =
    plain_middle xs c ys (or_false (x == end_mark) (has_mark (xs ++ c ∷ ys)) h).1

-- What is behind the bytes of the writer: nothing while it writes, and then an end mark if there was
-- room for one.
pub data Tail (s : Link) : List ℕ → Type 0 where
  open_end :
      s.closed ≡ false
      → s.pipe.num_writers ≡ 1
      → (has_returned s.writing ≡ true → s.left ≡ [])
      → s.freed ≡ false
      → Tail s []
  no_mark : s.closed ≡ true → s.pipe.num_writers ≡ 0 → s.left ≡ [] → s.freed ≡ false → Tail s []
  mark :
      s.closed ≡ true
      → s.pipe.num_writers ≡ 0
      → s.left ≡ []
      → s.freed ≡ false
      → Tail s (end_mark ∷ [])

-- The link after some moves, for the bytes `data_bytes` that are written.
pub record Flows (data_bytes : List ℕ) (s : Link) : Type 0 where
  pub queued : List ℕ
  pub end : List ℕ
  pub rx : List ℕ
  pub tx : List ℕ
  pub good : IsPipe s.pipe (queued ++ end) rx tx
  pub tail : Tail s end
  pub in_order : s.got ++ (queued ++ s.left) ≡ data_bytes
  pub within : length s.got ≤ s.count

pub data Streams (data_bytes : List ℕ) (s : Link) : Type 0 where
  flows :
      Flows data_bytes s
      → (has_returned s.reading ≡ true → length s.got ≡ s.count)
      → Streams data_bytes s
  ended :
      s.closed ≡ true
      → has_returned s.reading ≡ true
      → s.got ≡ data_bytes
      → length s.got ≤ s.count
      → Streams data_bytes s

pub Tail-kept :
    {s s' : Link} {e : List ℕ}
    → s'.closed ≡ s.closed
    → s'.pipe.num_writers ≡ s.pipe.num_writers
    → s'.left ≡ s.left
    → s'.writing ≡ s.writing
    → s'.freed ≡ s.freed
    → Tail s e
    → Tail s' e
Tail-kept c n l w fr (open_end a b f o) =
    open_end (c ∙ a) (n ∙ b) (λ r. l ∙ f (ap has_returned (sym w) ∙ r)) (fr ∙ o)
Tail-kept c n l w fr (no_mark a b f o) = no_mark (c ∙ a) (n ∙ b) (l ∙ f) (fr ∙ o)
Tail-kept c n l w fr (mark a b f o) = mark (c ∙ a) (n ∙ b) (l ∙ f) (fr ∙ o)

-- The pipe is not freed while one of the two uses it.
pub Tail-freed : {s : Link} {e : List ℕ} → Tail s e → s.freed ≡ false
Tail-freed (open_end a b f o) = o
Tail-freed (no_mark a b f o) = o
Tail-freed (mark a b f o) = o

-- What the reader has done is as before.
abbrev pub StillRead : Link → Type 0
StillRead s = has_returned s.reading ≡ true → length s.got ≡ s.count
