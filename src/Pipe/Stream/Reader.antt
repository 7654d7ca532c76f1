-- ===== src/Pipe/Stream/Reader.antt =====
-- The rounds of the reader keep the bytes in order.
use os_pi_is_cool.Base.{
  ℕ, ◌≤◌, ◌≡◌, refl, sym, ap, subst, ◌∙◌, arith, true, false, List, [], ◌∷◌, ◌++◌, append-nil,
  append-cons, length, length-snoc, ◌==◌, ltb,
}
use os_pi_is_cool.Pipe.{Pipe, Turn, returned, end_mark, store_read, Link}
use os_pi_is_cool.Pipe.Wake.{IsPipe}
use os_pi_is_cool.Pipe.Order.{Read, enough, byte, no_writer, waits}
use os_pi_is_cool.Pipe.Stream.{
  has_mark, plain_middle, Tail, open_end, no_mark, mark, Streams, flows, ended, Tail-kept,
}

module _ (d : List ℕ) (plain : has_mark d ≡ false) where
  -- A round of the reader that found a byte.
  reads_byte :
      (s : Link) (q e rx tx : List ℕ) (p' : Pipe) (c : ℕ) (q' : List ℕ)
      → Tail s e
      → s.got ++ (q ++ s.left) ≡ d
      → ltb (length s.got) s.count ≡ true
      → q ++ e ≡ c ∷ q'
      → p'.num_writers ≡ s.pipe.num_writers
      → IsPipe p' q' rx tx
      → Streams d
          (record s { pipe = p'; got = (store_read c s.got).1; reading = (store_read c s.got).0 })
  reads_byte s (b ∷ q) e rx tx p' c q' t o more first same good =
      let is_b : b ≡ c = cc in
      let is_rest : q ++ e ≡ q' = cc in
      let in_middle : s.got ++ c ∷ (q ++ s.left) ≡ d =
        subst (λ z. s.got ++ z ∷ (q ++ s.left) ≡ d) is_b o in
      let no_end : (c == end_mark) ≡ false =
        plain_middle s.got c (q ++ s.left) (ap has_mark in_middle ∙ plain) in
      rw no_end (
        flows
          (record {
            queued = q;
            end = e;
            rx = rx;
            tx = tx;
            good = subst (λ z. IsPipe p' z rx tx) (sym is_rest) good;
            tail = Tail-kept refl same refl refl refl t;
            in_order = sym (append-cons s.got c (q ++ s.left)) ∙ in_middle;
            within = ground (arith, length-snoc s.got c);
          })
          (λ r. absurd (cc)))
  reads_byte s [] e rx tx p' c q' (open_end a b f u) o more first same good = absurd (cc)
  reads_byte s [] e rx tx p' c q' (no_mark a b f u) o more first same good = absurd (cc)
  reads_byte s [] e rx tx p' c q' (mark a b f u) o more first same good =
      let is_mark : end_mark ≡ c = cc in
      subst
        (λ z.
          Streams d (record s {
            pipe = p';
            got = (store_read z s.got).1;
            reading = (store_read z s.got).0;
          }))
        is_mark
        (ended a refl (sym (append-nil s.got) ∙ ap (λ z. s.got ++ z) (sym f) ∙ o) (ground arith))

  -- The pipe is empty and nobody writes any more.
  reads_end :
      (s : Link) (q e : List ℕ) (p' : Pipe)
      → Tail s e
      → s.got ++ (q ++ s.left) ≡ d
      → ltb (length s.got) s.count ≡ true
      → q ++ e ≡ []
      → (s.pipe.num_writers == 0) ≡ true
      → Streams d (record s { pipe = p'; reading = returned })
  reads_end s (b ∷ q) e p' t o more nothing gone = absurd (cc)
  reads_end s [] e p' (open_end a b f u) o more nothing gone = absurd (ground arith)
  reads_end s [] e p' (mark a b f u) o more nothing gone = absurd (cc)
  reads_end s [] e p' (no_mark a b f u) o more nothing gone =
      ended a refl (sym (append-nil s.got) ∙ ap (λ z. s.got ++ z) (sym f) ∙ o) (ground arith)

  pub reader_turn :
      (s : Link) (q e rx tx : List ℕ) (x : Pipe × List ℕ × Turn × List ℕ)
      → Tail s e
      → s.got ++ (q ++ s.left) ≡ d
      → length s.got ≤ s.count
      → Read s.pipe (q ++ e) rx tx s.reader s.count s.got x
      → Streams d (record s { pipe = x.0; got = x.3; reading = x.2 })
  reader_turn s q e rx tx x t o le (enough full_count same good who) =
      flows
        (record {
          queued = q;
          end = e;
          rx = rx;
          tx = [];
          good = good;
          tail = Tail-kept refl same.0 refl refl refl t;
          in_order = o;
          within = le;
        })
        (λ r. ground arith)
  reader_turn s q e rx tx x t o le (byte {p'} {c} {q'} more first same good) =
      reads_byte s q e rx tx p' c q' t o more first same.0 good
  reader_turn s q e rx tx x t o le (no_writer {p'} more nothing gone same good) =
      reads_end s q e p' t o more nothing gone
  reader_turn s q e rx tx x t o le (waits {p'} more nothing still same good who) =
      flows
        (record {
          queued = q;
          end = e;
          rx = s.reader ∷ rx;
          tx = [];
          good = subst (λ z. IsPipe p' z (s.reader ∷ rx) []) (sym nothing) good;
          tail = Tail-kept refl same.0 refl refl refl t;
          in_order = o;
          within = le;
        })
        (λ r. absurd (cc))
