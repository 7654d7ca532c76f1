-- ===== src/Pipe/Stream/Writer.antt =====
-- The rounds of the writer keep the bytes in order, and so does its close.
use os_pi_is_cool.Base.{
  ℕ, ◌≤◌, ◌≡◌, ◌≢◌, refl, sym, ap, subst, ◌∙◌, arith, Bool, true, false, Option, none, some, List,
  [], ◌∷◌, ◌++◌, append-nil, append-cons, length, ◌==◌, Ends, returns, Ends-if, Ends-bind, Ends-any,
  Allocator, OutOfMemory,
}
use os_pi_is_cool.RingBuffer.{RingBuffer}
use os_pi_is_cool.RingBuffer.Holds
use os_pi_is_cool.RingBuffer.Calls.{Produced, put, full, produce_ring_buffer_lem}
use os_pi_is_cool.Pipe.{
  Pipe, Turn, end_mark, pipe_close, put_mark, is_abandoned, frees, Link, has_returned, by_writer,
  move,
}
use os_pi_is_cool.Process.{dec}
use os_pi_is_cool.Pipe.Wake.{IsPipe, pipe_wake_up_readers_lem}
use os_pi_is_cool.Pipe.Order.{Written, all, room, no_room, pipe_write_lem}
use os_pi_is_cool.Pipe.Stream.{has_mark, Tail, open_end, no_mark, mark, Streams, flows, StillRead}

not_abandoned : (p : Pipe) → p.num_readers ≢ 0 → is_abandoned p ≡ false
not_abandoned p some_reader = ground arith

module _ (d : List ℕ) (plain : has_mark d ≡ false) where
  writer_turn :
      (s : Link) (left q rx tx : List ℕ) (x : Pipe × List ℕ × Turn × List ℕ)
      → s.closed ≡ false
      → s.freed ≡ false
      → s.pipe.num_writers ≡ 1
      → s.got ++ (q ++ left) ≡ d
      → length s.got ≤ s.count
      → StillRead s
      → Written s.pipe (q ++ []) rx tx s.writer left x
      → Streams d (record s { pipe = x.0; left = x.3; writing = x.2 })
  writer_turn s [] q rx tx x c u n o le still (all same good who) =
      flows
        (record {
          queued = q;
          end = [];
          rx = [];
          tx = tx;
          good = good;
          tail = open_end c (same.0 ∙ n) (λ r. refl) u;
          in_order = o;
          within = le;
        })
        still
  writer_turn s (b ∷ rest) q rx tx x c u n o le still (room {p'} free same good) =
      flows
        (record {
          queued = q ++ b ∷ [];
          end = [];
          rx = rx;
          tx = tx;
          good =
              subst (λ z. IsPipe p' z rx tx)
                (ap (λ z. z ++ b ∷ []) (append-nil q) ∙ sym (append-nil (q ++ b ∷ []))) good;
          tail = open_end c (same.0 ∙ n) (λ r. absurd (cc)) u;
          in_order = ap (λ z. s.got ++ z) (sym (append-cons q b rest)) ∙ o;
          within = le;
        })
        still
  writer_turn s (b ∷ rest) q rx tx x c u n o le still (no_room filled same good who) =
      flows
        (record {
          queued = q;
          end = [];
          rx = [];
          tx = s.writer ∷ tx;
          good = good;
          tail = open_end c (same.0 ∙ n) (λ r. absurd (cc)) u;
          in_order = o;
          within = le;
        })
        still

  -- The close by the writer, with what the buffer gave for the end mark.
  put_mark_lem :
      (s : Link) (p : Pipe) (q rx tx : List ℕ) (x : Option RingBuffer × Bool)
      → IsPipe p (q ++ []) rx tx
      → p.num_writers ≡ 0
      → s.left ≡ []
      → s.got ++ (q ++ s.left) ≡ d
      → length s.got ≤ s.count
      → StillRead s
      → Produced p.buffer (q ++ []) end_mark x
      → Ends
          (λ (p', tids, reply).
            Streams d (record s { pipe = p'; closed = true; freed = frees reply }))
          ⊥
          (put_mark p x)
  put_mark_lem s p q rx tx (none, done) good n f o le still x = elim x [ ]
  put_mark_lem s p q rx tx (some r, true) good n f o le still (put g same free) =
      let now : IsPipe (record p { buffer = r }) (q ++ end_mark ∷ []) rx tx = record {
        bytes =
            subst (λ z. os_pi_is_cool.RingBuffer.Holds.Holds r (z ++ end_mark ∷ [])) (append-nil q)
              g;
        readers = good.readers;
        writers = good.writers;
        has_reader = good.has_reader;
      } in
      Ends-bind (pipe_wake_up_readers_lem now) λ (p', tids) (woke, who, kept). returns (
        flows
          (record {
            queued = q;
            end = end_mark ∷ [];
            rx = [];
            tx = tx;
            good = woke;
            tail = mark refl (kept.0 ∙ n) f (not_abandoned p' woke.has_reader);
            in_order = o;
            within = le;
          })
          still)
  put_mark_lem s p q rx tx (some r, false) good n f o le still (full g filled same) = returns (
      flows
        (record {
          queued = q;
          end = [];
          rx = rx;
          tx = tx;
          good = record {
            bytes = g;
            readers = good.readers;
            writers = good.writers;
            has_reader = good.has_reader;
          };
          tail = no_mark refl n f refl;
          in_order = o;
          within = le;
        })
        still)

  close_lem :
      (s : Link) (q rx tx : List ℕ)
      → IsPipe s.pipe (q ++ []) rx tx
      → s.pipe.num_writers ≡ 1
      → s.left ≡ []
      → s.got ++ (q ++ s.left) ≡ d
      → length s.got ≤ s.count
      → StillRead s
      → Ends
          (λ (p', tids, reply).
            Streams d (record s { pipe = p'; closed = true; freed = frees reply }))
          ⊥
          (pipe_close s.pipe 2)
  unfolding pipe_close
  close_lem s q rx tx good n f o le still =
      let last : (dec s.pipe.num_writers == 0) ≡ true = ground arith in
      let none_writes : dec s.pipe.num_writers ≡ 0 = ground arith in
      let now : IsPipe (record s.pipe { num_writers = dec s.pipe.num_writers }) (q ++ []) rx tx =
        record {
          bytes = good.bytes;
          readers = good.readers;
          writers = good.writers;
          has_reader = good.has_reader;
        } in
      rw last (
        Ends-bind (produce_ring_buffer_lem (q ++ []) good.bytes end_mark)
          λ x c. put_mark_lem s _ q rx tx x now none_writes f o le still c)

  pub writer_lem :
      (k : Allocator) (s : Link) (q e rx tx : List ℕ)
      → IsPipe s.pipe (q ++ e) rx tx
      → Tail s e
      → s.closed ≡ false
      → s.got ++ (q ++ s.left) ≡ d
      → length s.got ≤ s.count
      → StillRead s
      → Ends (Streams d) (OutOfMemory k) (move k s by_writer)
  unfolding move
  writer_lem k s q e rx tx good (no_mark c n f u) opened o le still = absurd (cc)
  writer_lem k s q e rx tx good (mark c n f u) opened o le still = absurd (cc)
  writer_lem k s q e rx tx good (open_end c n f u) opened o le still =
      Ends-if s.closed (λ closed. absurd (cc))
        (λ _.
          Ends-if s.freed (λ freed. absurd (cc))
            λ _.
              Ends-if (has_returned s.writing)
                (λ done.
                  Ends-bind (Ends-any (close_lem s q rx tx good n (f done) o le still))
                    λ x t. returns t)
                (λ busy.
                  Ends-bind (pipe_write_lem k good s.writer s.left)
                    λ x w. returns (writer_turn s s.left q rx tx x c u n o le still w)))
