-- ===== src/Pipe.antt =====
-- Pipes (kernel/pipe/pipe.c). What runs under the lock of a pipe is one step: a round of the loops of
-- `pipe_read` and `pipe_write`, what follows these loops, and `pipe_open` and `pipe_close`. The calls
-- of `unblock_thread` that a step makes are returned as the numbers of the threads, in order. A
-- byte is any number; the callers have a process, and their inode has a pipe.
pub mod Wake
pub mod Order
pub mod Stream
pub mod Delivered
use os_pi_is_cool.Base.{
  ℕ, zero, suc, ◌+◌, ◌%◌, ◌^◌, bit_and, Bool, true, false, not, ◌&&◌, Option, none, some, List, [],
  ◌∷◌, ◌++◌, if◌then◌else◌, ◌==◌, ltb, length, Run, ok, fault, ◌>>=◌, Ptr, Allocator,
}
use os_pi_is_cool.Process.{inc, dec}
use os_pi_is_cool.Vec.{Vec, push_back, pop_back, is_empty}
use os_pi_is_cool.RingBuffer.{RingBuffer, produce_ring_buffer, consume_ring_buffer}

-- `struct pipe_st`; the counters are the 32 bits of an `int`.
pub record Pipe : Type 0 where
  pub num_readers : ℕ
  pub num_writers : ℕ
  pub buffer : RingBuffer
  pub rx_wait_queue : Vec
  pub tx_wait_queue : Vec

-- The byte that tells a reader to stop, put behind the last writer's bytes.
abbrev pub end_mark : ℕ
end_mark = 4

-- One round of the loop of `pipe_wake_up_readers`, for what `vec_pop_back` gave.
abbrev pub woken_by : Vec × Bool × Option Ptr → (Vec → Run (Vec × List ℕ)) → Run (Vec × List ℕ)
woken_by (v, false, _) rest = rest v
woken_by (v, true, none) rest = fault
woken_by (v, true, some tid) rest = rest v >>= λ (v', tids). ok (v', tid ∷ tids)

-- The loop, with the rounds that are left: each takes a thread off the queue.
pub wake_up : ℕ → Vec → Run (Vec × List ℕ)
wake_up zero v = ok (v, [])
wake_up (suc n) v =
    if is_empty v then ok (v, []) else pop_back true v >>= λ popped. woken_by popped (wake_up n)

pub pipe_wake_up_readers : Pipe → Run (Pipe × List ℕ)
pipe_wake_up_readers p = wake_up p.rx_wait_queue.length p.rx_wait_queue >>= λ (v, tids).
    ok (record p { rx_wait_queue = v }, tids)

pub pipe_wake_up_writers : Pipe → Run (Pipe × List ℕ)
pipe_wake_up_writers p = wake_up p.tx_wait_queue.length p.tx_wait_queue >>= λ (v, tids).
    ok (record p { tx_wait_queue = v }, tids)

-- How a round ends: with the next one, with a return of the number of bytes, or in `block_thread`.
pub data Turn : Type 0 where
  goes_on returned blocked : Turn

-- A round of `pipe_read` that found a byte, for the bytes read so far: those that are read now.
abbrev pub store_read : ℕ → List ℕ → Turn × List ℕ
store_read c got = if c == end_mark then (returned, got) else (goes_on, got ++ c ∷ [])

-- A round of `pipe_read` for the thread `tid`, `count` bytes and those read so far, with what
-- `consume_ring_buffer` gave.
abbrev pub read_byte :
    Allocator
    → Pipe
    → ℕ
    → List ℕ
    → RingBuffer × Bool × Option ℕ
    → Run (Pipe × List ℕ × Turn × List ℕ)
read_byte k p tid got (r, true, none) = fault
read_byte k p tid got (r, true, some c) =
    let (turn, now) = store_read c got in ok (record p { buffer = r }, [], turn, now)
read_byte k p tid got (r, false, _) =
    if p.num_writers == 0
    then ok (record p { buffer = r }, [], returned, got)
    else pipe_wake_up_writers (record p { buffer = r }) >>= λ (p', tids).
        push_back k p'.rx_wait_queue tid >>= λ v.
        ok (record p' { rx_wait_queue = v }, tids, blocked, got)

pub pipe_read : Allocator → Pipe → ℕ → ℕ → List ℕ → Run (Pipe × List ℕ × Turn × List ℕ)
pipe_read k p tid count got =
    if ltb (length got) count
    then (consume_ring_buffer p.buffer >>= λ c. read_byte k p tid got c)
    else pipe_wake_up_writers p >>= λ (p', tids). ok (p', tids, returned, got)

-- A round of `pipe_write` for the bytes left, with what `produce_ring_buffer` gave for the first.
abbrev pub write_byte :
    Allocator
    → Pipe
    → ℕ
    → ℕ
    → List ℕ
    → Option RingBuffer × Bool
    → Run (Pipe × List ℕ × Turn × List ℕ)
write_byte k p tid b rest (none, _) = fault
write_byte k p tid b rest (some r, true) = ok (record p { buffer = r }, [], goes_on, rest)
write_byte k p tid b rest (some r, false) =
    pipe_wake_up_readers (record p { buffer = r }) >>= λ (p', tids).
    push_back k p'.tx_wait_queue tid >>= λ v.
    ok (record p' { tx_wait_queue = v }, tids, blocked, b ∷ rest)

pub pipe_write : Allocator → Pipe → ℕ → List ℕ → Run (Pipe × List ℕ × Turn × List ℕ)
pipe_write k p tid [] = pipe_wake_up_readers p >>= λ (p', tids). ok (p', tids, returned, [])
pipe_write k p tid (b ∷ rest) =
    produce_ring_buffer (some p.buffer) b >>= λ r. write_byte k p tid b rest r

-- `mode & O_RDONLY` and `mode & O_WRONLY`
abbrev pub for_reading : ℕ → Bool
for_reading mode = not (bit_and mode 1 == 0)

abbrev pub for_writing : ℕ → Bool
for_writing mode = not (bit_and mode 2 == 0)

pub pipe_open : Pipe → ℕ → Pipe
pipe_open p mode =
    let r = if for_reading mode then record p { num_readers = inc p.num_readers } else p in
    if for_writing mode then record r { num_writers = inc r.num_writers } else r

-- 0, and whether `pipe_free` is called, or SYS_EAGAIN.
pub data Closed : Type 0 where
  success : Bool → Closed
  eagain : Closed

abbrev pub is_abandoned : Pipe → Bool
is_abandoned p = p.num_readers == 0 && p.num_writers == 0

-- `pipe_close` of the last writer, with what `produce_ring_buffer` gave for the mark.
abbrev pub put_mark : Pipe → Option RingBuffer × Bool → Run (Pipe × List ℕ × Closed)
put_mark p (none, _) = fault
put_mark p (some r, false) = ok (record p { buffer = r }, [], eagain)
put_mark p (some r, true) = pipe_wake_up_readers (record p { buffer = r }) >>= λ (p', tids).
    ok (p', tids, success (is_abandoned p'))

abbrev pub close_writer : Pipe → Run (Pipe × List ℕ × Closed)
close_writer p =
    let q = record p { num_writers = dec p.num_writers } in
    if q.num_writers == 0
    then (produce_ring_buffer (some q.buffer) end_mark >>= λ r. put_mark q r)
    else ok (q, [], success (is_abandoned q))

pub pipe_close : Pipe → ℕ → Run (Pipe × List ℕ × Closed)
pipe_close p mode =
    let r = if for_reading mode then record p { num_readers = dec p.num_readers } else p in
    if for_writing mode then close_writer r else ok (r, [], success (is_abandoned r))

-- A thread that reads `count` bytes from a pipe and one that writes to it and then closes it, each
-- with its number, what it has done, and how its last round ended; and whether the pipe was freed.
pub record Link : Type 0 where
  pub pipe : Pipe
  pub reader : ℕ
  pub count : ℕ
  pub got : List ℕ
  pub reading : Turn
  pub writer : ℕ
  pub left : List ℕ
  pub writing : Turn
  pub closed : Bool
  pub freed : Bool

abbrev pub has_returned : Turn → Bool
has_returned returned = true
has_returned _ = false

-- Whether `pipe_close` called `pipe_free`.
abbrev pub frees : Closed → Bool
frees (success freed) = freed
frees eagain = false

-- Whose thread runs next: a blocked one may have been woken up, by the other or by a signal.
pub data Move : Type 0 where
  by_reader by_writer : Move

pub move : Allocator → Link → Move → Run Link
move k s by_reader =
    if has_returned s.reading
    then ok s
    else if s.freed
    then fault
    else pipe_read k s.pipe s.reader s.count s.got >>= λ (p, tids, turn, now).
        ok (record s { pipe = p; got = now; reading = turn })
move k s by_writer =
    if s.closed
    then ok s
    else if s.freed
    then fault
    else if has_returned s.writing
    then (pipe_close s.pipe 2 >>= λ (p, tids, reply).
        ok (record s { pipe = p; closed = true; freed = frees reply }))
    else pipe_write k s.pipe s.writer s.left >>= λ (p, tids, turn, now).
        ok (record s { pipe = p; left = now; writing = turn })

-- The threads in any order.
pub run : Allocator → Link → List Move → Run Link
run k s [] = ok s
run k s (m ∷ ms) = move k s m >>= λ s'. run k s' ms
