-- ===== src/Fs/Bitmap/Change.antt =====
-- A bit of a bitmap is set or cleared.
use os_pi_is_cool.Base.{
  ℕ, zero, suc, ◌+◌, ◌*◌, ◌/◌, ◌%◌, ◌^◌, ◌<◌, ◌≤◌, ◌≡◌, ◌≢◌, sym, subst, ◌∙◌, Bool, ◌||◌, ◌==◌, leb,
  some, List, ok, ◌>>=◌, Ends, returns, Ends-bind, Ends-if, Ends-mono, arith,
}
use native.Mathlib.Nat.{mod-lt, div-lt_iff_lt-mul}
use os_pi_is_cool.Fs.Errors.{Result, success, error, file_read_error, file_write_error}
use os_pi_is_cool.Fs.Store.{Store, ReadEnds, read, not_read, WriteEnds, written, not_written}
use os_pi_is_cool.Fs.Bitmap.{change_bit, bits_per_block, change_read, set_bit_in_bitmap_range}
use os_pi_is_cool.Fs.Bitmap.Bits.{AreBytes, written_bit, change_bit_lem, length-written_bit}
use os_pi_is_cool.Fs.Bitmap.Places.{taken, IsBitmap, SameBlocks, bit_written}

module _ (T : Store) where
  -- How a bit of block `a` of a bitmap is changed: it has the value, and every other bit and block is
  -- as it was; or the block could not be read, or not written.
  pub data Changed (v : Bool) (s : T.S) (start a p : ℕ) : Result Unit × T.S → Type 0 where
    changed :
        {s' : T.S}
        → T.Good s'
        → taken T s' start a p ≡ v
        → ((q : ℕ) → q ≢ p → taken T s' start a q ≡ taken T s start a q)
        → ((m : ℕ) → m < T.count → m ≢ start + a → T.view s' m ≡ T.view s m)
        → Changed v s start a p (success tt, s')
    unread :
        {s' : T.S}
        → T.ReadFails s (start + a)
        → T.Good s'
        → SameBlocks T s s'
        → Changed v s start a p (error file_read_error, s')
    unwritten :
        {s' : T.S} (t : T.S) (b : List ℕ)
        → T.WriteFails t (start + a) b
        → T.Good s'
        → ((m : ℕ) → m < T.count → m ≢ start + a → T.view s' m ≡ T.view s m)
        → Changed v s start a p (error file_write_error, s')

  write_lem :
      (v : Bool) (s t : T.S) (start a p : ℕ) (r : Result Unit × T.S)
      → AreBytes (T.view s (start + a))
      → p < bits_per_block T
      → SameBlocks T s t
      → WriteEnds T.Good T.view T.count
          (T.WriteFails t (start + a) (written_bit v (T.view s (start + a)) (p / 8) (p % 8)))
          t
          (start + a)
          (written_bit v (T.view s (start + a)) (p / 8) (p % 8))
          r
      → Changed v s start a p r
  write_lem v s t start a p (success u, s') w h same (written g e o) =
      let c = bit_written T v s t s' start a p w h same e in
      changed g c.0 c.1 (λ m l ne. o m l ne ∙ same m)
  write_lem v s t start a p (error x, s') w h same (not_written g o fl) =
      unwritten t _ fl g (λ m l ne. o m l ne ∙ same m)

  change_read_lem :
      (v : Bool) (s : T.S) (start a p : ℕ) (r : Result (List ℕ) × T.S)
      → AreBytes (T.view s (start + a))
      → p < bits_per_block T
      → ReadEnds T.Good T.view (T.ReadFails s (start + a)) s (start + a) r
      → Ends (Changed v s start a p) ⊥ (change_read T v (start + a) p r)
  change_read_lem v s start a p (error x, t) w h (not_read g same fl) = returns (unread fl g same)
  change_read_lem v s start a p (success b, t) w h (read g same c) =
      let bs = T.view s (start + a) in
      let l = T.view_bytes s (start + a) in
      let bs' = written_bit v bs (p / 8) (p % 8) in
      subst
        (λ x. Ends (Changed v s start a p) ⊥ (x >>= λ bytes'. T.write_block bytes' (start + a) t))
        (sym (
          subst (λ z. change_bit v z p ≡ ok bs') (sym c)
            (change_bit_lem v bs p (omega (arith, l)))))
        (Ends-mono
          (T.write_block_law t (start + a) bs' g (length-written_bit v bs (p / 8) (p % 8) ∙ l))
          (λ r k. write_lem v s t start a p r w h same k))

  -- Of a bitmap inside a good store, whose blocks hold bytes, for a bit that counts, and with memory
  -- for one block: the bit gets the value that is asked for, and every other bit and block stays as
  -- it was; or the call returns the error of the block that could not be read, or not written.
  pub set_bit_in_bitmap_range_lem :
      (memory : List ℕ) (v : Bool) (s : T.S) (start blocks valid bit : ℕ)
      → T.Good s
      → IsBitmap T s start blocks valid
      → bit < valid
      → Ends
          (Changed v s start (bit / bits_per_block T) (bit % bits_per_block T))
          ⊥
          (set_bit_in_bitmap_range T (some memory) start blocks valid bit v s)
  unfolding set_bit_in_bitmap_range
  set_bit_in_bitmap_range_lem memory v s start blocks valid bit g w h =
      let bits = bits_per_block T in
      let some_bits : 0 < bits = positive bits (w.covers) in
      let inside : bit / bits < blocks =
        (div-lt_iff_lt-mul some_bits).1 (omega (arith, w.covers)) in
      let num : (start + bit / bits) % 2 ^ 32 ≡ start + bit / bits = omega (arith, w.narrow) in
      Ends-if (blocks == 0 || leb valid bit || leb blocks (bit / bits)) (λ t. absurd (ground arith))
        (λ t.
          subst
            (λ z.
              Ends (Changed v s start (bit / bits) (bit % bits)) ⊥
                (T.read_block z s >>= λ r. change_read T v z (bit % bits) r))
            (sym num)
            (Ends-bind (T.read_block_law s (start + bit / bits) g) (λ r c.
              change_read_lem v s start (bit / bits) (bit % bits) r
                (w.bytes (start + bit / bits) (omega (arith, w.within))) (mod-lt bit some_bits) c)))
    where
      positive : (b : ℕ) → valid ≤ blocks * b → 0 < b
      positive zero k = absurd (omega arith)
      positive (suc b) k = omega arith
