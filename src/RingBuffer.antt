-- ===== src/RingBuffer.antt =====
-- The byte queue of kernel/data-structs/ring_buffer.c. `head` and `tail` are offsets into `data`,
-- `none` where the source has NULL; a byte is any number, since bytes are only moved. The storage
-- of a failed `kmalloc` has no cells, so that every access to it is a fault.
pub mod Queue
pub mod Window
pub mod Holds
pub mod Refine
pub mod Calls
use os_pi_is_cool.Base.{
  ℕ, suc, ◌+◌, ◌-◌, ◌*◌, Bool, true, false, Option, none, some, List, [], ◌∷◌, if◌then◌else◌, ◌==◌,
  Run, ok, fault, ◌>>=◌, load, store,
}
use os_pi_is_cool.RingBuffer.Queue.{Op, produce, consume, remove_back, Reply, reply}

pub record RingBuffer : Type 0 where
  pub head : Option ℕ
  pub tail : Option ℕ
  pub data_cells : List ℕ
  pub capacity : ℕ
  pub size : ℕ

-- `kmalloc` is the argument: the cells of a block of so many bytes.
pub create_ring_buffer : (ℕ → Option (List ℕ)) → ℕ → RingBuffer
create_ring_buffer kmalloc capacity = record {
  head = none;
  tail = none;
  data_cells = elim (kmalloc (8 * capacity)) [ none ↦ [] | some cells ↦ cells ];
  capacity = capacity;
  size = 0;
}

-- `NULL` becomes the index of no cell.
abbrev pub deref : Option ℕ → Run ℕ
deref none = fault
deref (some i) = ok i

-- The pointer's next place, round the end of the storage.
abbrev pub step_up : ℕ → ℕ → ℕ
step_up capacity i = if i + 1 == capacity then 0 else i + 1

abbrev pub step_down : ℕ → ℕ → ℕ
step_down capacity i = if i == 0 then capacity - 1 else i - 1

-- The last statement of `consume_ring_buffer` and `remove_back_ring_buffer`.
abbrev pub reset_if_empty : RingBuffer → RingBuffer
reset_if_empty r = if r.size == 0 then record r { tail = none; head = none } else r

-- The result, and what goes through `next`.
pub consume_ring_buffer : RingBuffer → Run (RingBuffer × Bool × Option ℕ)
consume_ring_buffer r = if r.size == 0 then ok (r, false, none) else do
  h ← deref r.head
  c ← load r.data_cells h
  let r' = record r { size = r.size - 1; head = some (step_up r.capacity h) }
  ok (reset_if_empty r', true, some c)

-- Where the byte is written.
abbrev pub next_tail : RingBuffer → Run ℕ
next_tail r = if r.size == 0 then ok 0 else deref r.tail >>= λ t. ok (step_up r.capacity t)

pub produce_ring_buffer : Option RingBuffer → ℕ → Run (Option RingBuffer × Bool)
produce_ring_buffer none c = ok (none, false)
produce_ring_buffer (some r) c = if r.size == r.capacity then ok (some r, false) else do
  t ← next_tail r
  cells ← store r.data_cells t c
  let h = if r.size == 0 then some 0 else r.head
  ok (some (record r { data_cells = cells; tail = some t; head = h; size = r.size + 1 }), true)

pub remove_back_ring_buffer : Option RingBuffer → Run (Option RingBuffer × Bool)
remove_back_ring_buffer none = ok (none, false)
remove_back_ring_buffer (some r) = if r.size == 0 then ok (some r, false) else do
  t ← deref r.tail
  let r' = record r { size = r.size - 1; tail = some (step_down r.capacity t) }
  ok (some (reset_if_empty r'), true)

-- One call by a client that holds a ring, and what it sees of it.
pub call : Op → RingBuffer → Run (Option RingBuffer × Reply)
call (produce c) r = produce_ring_buffer (some r) c >>= λ (r', done). ok (r', reply done none)
call consume r = consume_ring_buffer r >>= λ (r', done, c). ok (some r', reply done c)
call remove_back r = remove_back_ring_buffer (some r) >>= λ (r', done). ok (r', reply done none)

-- The calls of a client in order, with what each returns.
pub run : List Op → Option RingBuffer → Run (List Reply)
run [] r = ok []
run (op ∷ ops) none = fault
run (op ∷ ops) (some r) = do (r', out) ← call op r; outs ← run ops r'; ok (out ∷ outs)
