-- ===== src/Pipe/Wake.antt =====
-- What a pipe in good order holds, and the wake-up of the threads that wait at it.
use os_pi_is_cool.Base.{
  ℕ, zero, suc, ◌≡◌, ◌≢◌, refl, sym, ap, ◌∙◌, arith, Bool, true, false, Option, none, some, List,
  [], ◌∷◌, ◌++◌, ◌==◌, length, length-snoc, Run, Ends, returns, Ends-bind, Ends-mono, Ptr,
}
use os_pi_is_cool.Vec.{Vec}
use os_pi_is_cool.Vec.Holds.{Holds}
use os_pi_is_cool.Vec.Grow.{pop_back-Holds}
use os_pi_is_cool.RingBuffer.Holds
use os_pi_is_cool.Pipe.{Pipe, woken_by, wake_up, pipe_wake_up_readers, pipe_wake_up_writers}

-- A queue of threads from its end on, as the vector has it.
abbrev pub from_end : List ℕ → List ℕ
from_end [] = []
from_end (t ∷ ts) = from_end ts ++ t ∷ []

-- The bytes of the pipe, oldest first, and the threads that wait to read and to write, the one that
-- came last first; some thread has the pipe open for reading.
pub record IsPipe (p : Pipe) (q rx tx : List ℕ) : Type 0 where
  pub bytes : os_pi_is_cool.RingBuffer.Holds.Holds p.buffer q
  pub readers : Holds p.rx_wait_queue (from_end rx)
  pub writers : Holds p.tx_wait_queue (from_end tx)
  pub has_reader : p.num_readers ≢ 0

-- What a round leaves as it is: the number of writers and the size of the buffer.
abbrev pub Same : Pipe → Pipe → Type 0
Same p p' = (p'.num_writers ≡ p.num_writers) × (p'.buffer.capacity ≡ p.buffer.capacity)

length-from_end : (ts : List ℕ) → length (from_end ts) ≡ length ts
length-from_end [] = refl
length-from_end (t ∷ ts) = length-snoc (from_end ts) t ∙ ap suc (length-from_end ts)

-- A round that took the thread `t`.
woken_by_lem :
    {P : Vec × List ℕ → Type 0} (rest : Vec → Run (Vec × List ℕ)) (x : Vec × Bool × Option Ptr)
    (t : ℕ)
    → x.1 ≡ true
    → x.2 ≡ some t
    → Ends (λ (v, tids). P (v, t ∷ tids)) ⊥ (rest x.0)
    → Ends P ⊥ (woken_by x rest)
woken_by_lem rest (v, false, got) t took some_t h = absurd (cc)
woken_by_lem rest (v, true, none) t took some_t h = absurd (cc)
woken_by_lem rest (v, true, some u) t took some_t h =
    let same : t ≡ u = cc in rw (sym same) (Ends-bind h λ x p. returns p)

wake_up_lem :
    (n : ℕ) (v : Vec) (ts : List ℕ)
    → Holds v (from_end ts)
    → n ≡ length ts
    → Ends (λ (v', tids). Holds v' [] × (tids ≡ ts)) ⊥ (wake_up n v)
unfolding wake_up
wake_up_lem zero v [] h e = returns (h, refl)
wake_up_lem zero v (t ∷ ts) h e = absurd (omega arith)
wake_up_lem (suc n) v [] h e = absurd (omega arith)
wake_up_lem (suc n) v (t ∷ ts) h e =
    let some_thread : (v.length == 0) ≡ false =
      ground (arith, h.counted, length-snoc (from_end ts) t) in
    rw some_thread (
      Ends-bind (pop_back-Holds true (from_end ts) t h) λ x (h', took, got, same).
        woken_by_lem (wake_up n) x t took got (
          Ends-mono (wake_up_lem n x.0 ts h' (omega arith))
            λ (v', tids) (e', woke). (e', ap (λ z. t ∷ z) woke)))

module _ {p : Pipe} {q rx tx : List ℕ} (h : IsPipe p q rx tx) where
  -- What a wake-up of the readers, and of the writers, leaves and returns.
  abbrev pub WokeReaders : Pipe × List ℕ → Type 0
  WokeReaders (p', tids) = IsPipe p' q [] tx × (tids ≡ rx) × Same p p'

  abbrev pub WokeWriters : Pipe × List ℕ → Type 0
  WokeWriters (p', tids) = IsPipe p' q rx [] × (tids ≡ tx) × Same p p'

  pub pipe_wake_up_readers_lem : Ends WokeReaders ⊥ (pipe_wake_up_readers p)
  unfolding pipe_wake_up_readers
  pipe_wake_up_readers_lem =
      Ends-bind
        (wake_up_lem p.rx_wait_queue.length p.rx_wait_queue rx h.readers
          (h.readers.counted ∙ length-from_end rx))
        (λ (v, tids) (e, same). returns (
          record { bytes = h.bytes; readers = e; writers = h.writers; has_reader = h.has_reader },
          same,
          (refl, refl),
        ))

  pub pipe_wake_up_writers_lem : Ends WokeWriters ⊥ (pipe_wake_up_writers p)
  unfolding pipe_wake_up_writers
  pipe_wake_up_writers_lem =
      Ends-bind
        (wake_up_lem p.tx_wait_queue.length p.tx_wait_queue tx h.writers
          (h.writers.counted ∙ length-from_end tx))
        (λ (v, tids) (e, same). returns (
          record { bytes = h.bytes; readers = h.readers; writers = e; has_reader = h.has_reader },
          same,
          (refl, refl),
        ))
