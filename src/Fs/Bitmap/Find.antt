-- ===== src/Fs/Bitmap/Find.antt =====
-- The search of a whole bitmap: the first free bit, taken or not.
use os_pi_is_cool.Base.{
  ℕ, zero, suc, ◌+◌, ◌*◌, ◌/◌, ◌%◌, ◌^◌, ◌<◌, ◌≡◌, ◌≢◌, refl, sym, subst, ◌∙◌, inl, inr, Bool, true,
  false, ◌||◌, ◌==◌, ltb, Bool-cases, zero_of, Option, none, some, List, length, Run, ok, ◌>>=◌,
  Ends, returns, Ends-bind, Ends-if, arith,
}
use os_pi_is_cool.Fs.Errors.{
  Result, success, error, file_read_error, file_write_error, no_free_blocks,
}
use os_pi_is_cool.Fs.Store.{Store, ReadEnds, read, not_read, WriteEnds, written, not_written}
use os_pi_is_cool.Fs.Bitmap.{
  bits_per_block, bits_in_block, stored, take_bit, search_read, search_blocks,
  find_free_from_bitmap_range,
}
use os_pi_is_cool.Fs.Bitmap.Bits.{bit_at, AreBytes, written_bit, change_bit_lem, length-written_bit}
use os_pi_is_cool.Fs.Bitmap.Places.{
  before_place, small_start, taken, IsBitmap, SameBlocks, After, only_found, marked, bit_written,
}
use os_pi_is_cool.Fs.Bitmap.Search.{FirstFree, free, full, find_in_bytes_lem}

module _ (T : Store) where
  -- How the search ends.
  pub data Searched (update : Bool) (s : T.S) (start valid : ℕ) : Result ℕ × T.S → Type 0 where
    found :
        {s' : T.S} (a p n : ℕ)
        → n ≡ a * bits_per_block T + p
        → p < bits_per_block T
        → n < valid
        → taken T s start a p ≡ false
        → ((b q : ℕ)
            → q < bits_per_block T
            → b * bits_per_block T + q < n
            → taken T s start b q ≡ true)
        → T.Good s'
        → After T s s' start a p update
        → Searched update s start valid (success n, s')
    none_free :
        {s' : T.S}
        → ((b q : ℕ)
            → q < bits_per_block T
            → b * bits_per_block T + q < valid
            → taken T s start b q ≡ true)
        → T.Good s'
        → SameBlocks T s s'
        → Searched update s start valid (error no_free_blocks, s')
    search_unread :
        {s' : T.S} (t : T.S) (n : ℕ)
        → T.ReadFails t n
        → T.Good s'
        → SameBlocks T s s'
        → Searched update s start valid (error file_read_error, s')
    search_unwritten :
        {s' : T.S} (t : T.S) (n : ℕ) (b : List ℕ)
        → T.WriteFails t n b
        → T.Good s'
        → ((m : ℕ) → m < T.count → m ≢ n → T.view s' m ≡ T.view s m)
        → Searched update s start valid (error file_write_error, s')

  -- The bit has been written.
  stored_lem :
      (s t : T.S) (start valid a p n : ℕ) (r : Result Unit × T.S)
      → AreBytes (T.view s (start + a))
      → p < bits_per_block T
      → SameBlocks T s t
      → WriteEnds T.Good T.view T.count
          (T.WriteFails t (start + a) (written_bit true (T.view s (start + a)) (p / 8) (p % 8)))
          t
          (start + a)
          (written_bit true (T.view s (start + a)) (p / 8) (p % 8))
          r
      → ((s' : T.S)
          → T.Good s'
          → After T s s' start a p true
          → Searched true s start valid (success n, s'))
      → Searched true s start valid (stored T n r)
  stored_lem s t start valid a p n (success u, s') w h same (written g v o) ok' =
      let c = bit_written T true s t s' start a p w h same v in
      ok' s' g (marked c.0 c.1 c.2 (λ m l ne. o m l ne ∙ same m))
  stored_lem s t start valid a p n (error x, s') w h same (not_written g o fl) ok' =
      search_unwritten t (start + a) _ fl g (λ m l ne. o m l ne ∙ same m)

  take_bit_lem :
      (update : Bool) (s t : T.S) (start valid a p first n : ℕ)
      → AreBytes (T.view s (start + a))
      → p < bits_per_block T
      → SameBlocks T s t
      → T.Good t
      → (first + p) % 2 ^ 32 ≡ n
      → ((s' : T.S)
          → T.Good s'
          → After T s s' start a p update
          → Searched update s start valid (success n, s'))
      → Ends
          (Searched update s start valid)
          ⊥
          (take_bit T update (start + a) (T.view s (start + a)) first p t)
  unfolding take_bit
  take_bit_lem true s t start valid a p first n w h same g e ok' =
      let bs = T.view s (start + a) in
      let bs' = written_bit true bs (p / 8) (p % 8) in
      let l : length bs ≡ T.block_bytes = T.view_bytes s (start + a) in
      subst
        (λ x. Ends (Searched true s start valid) ⊥ (
          x >>= λ bytes'.
          T.write_block bytes' (start + a) t >>= λ r. ok (stored T ((first + p) % 2 ^ 32) r)))
        (sym (change_bit_lem true bs p (omega (arith, l))))
        (Ends-bind
          (T.write_block_law t (start + a) bs' g (length-written_bit true bs (p / 8) (p % 8) ∙ l))
          (λ r c. returns (
            subst (λ z. Searched true s start valid (stored T z r)) (sym e)
              (stored_lem s t start valid a p n r w h same c ok'))))
  take_bit_lem false s t start valid a p first n w h same g e ok' =
      returns (
        subst (λ z. Searched false s start valid (success z, t)) (sym e)
          (ok' t g (only_found same)))

  module _ (update : Bool) (s : T.S) (start blocks valid : ℕ)
      (w : IsBitmap T s start blocks valid) where
    -- All bits before block `index` are taken.
    abbrev FullBefore : ℕ → Type 0
    FullBefore index =
        (b q : ℕ)
        → b < index
        → q < bits_per_block T
        → b * bits_per_block T + q < valid
        → taken T s start b q ≡ true

    searched :
        (index first : ℕ) (t : T.S) (o : Option ℕ) (rest : T.S → Run (Result ℕ × T.S))
        → first ≡ index * bits_per_block T
        → index < blocks
        → SameBlocks T s t
        → T.Good t
        → FullBefore index
        → (FullBefore (index + 1) → Ends (Searched update s start valid) ⊥ (rest t))
        → FirstFree (bit_at (T.view s (start + index))) 0 (bits_in_block T valid first) 0 o
        → Ends (Searched update s start valid) ⊥ (elim o [
          | none ↦ rest t
          | some bit ↦ take_bit T update (start + index) (T.view s (start + index)) first bit t
        ])
    searched index first t none rest e i same g before k (full a) = k (λ b q h r v.
        elim (Bool-cases (ltb b index)) [
          | inl u ↦ before b q (ground arith) r v
          | inr u ↦
              let c : b ≡ index = ground arith in
              let v' : first + q < valid =
                omega (arith, e, subst (λ z. z * bits_per_block T + q < valid) c v) in
              subst (λ z. taken T s start z q ≡ true) (sym c) (a q (omega arith) (omega arith))
        ])
    searched index first t (some p) rest e i same g before k (free {k = j} n l m f a) =
        let c : j ≡ p = omega arith in
        let h : p < bits_per_block T = omega arith in
        take_bit_lem update s t start valid index p first (index * bits_per_block T + p)
          (w.bytes (start + index) (omega (arith, w.within))) h same g
          (omega (arith, e, w.covers, w.small))
          (λ s' g' after.
            found index p _ refl h (omega (arith, e))
              (subst (λ z. taken T s start index z ≡ false) c f)
              (λ b q r v. elim (before_place b q index p (bits_per_block T) r h v) [
                | inl u ↦ before b q u r (omega (arith, e))
                | inr (u, x) ↦
                    subst (λ z. taken T s start z q ≡ true) (sym u)
                      (a q (omega arith) (omega arith))
              ])
              g' after)

    read_lem :
        (index first : ℕ) (t : T.S) (r : Result (List ℕ) × T.S) (rest : T.S → Run (Result ℕ × T.S))
        → first ≡ index * bits_per_block T
        → index < blocks
        → SameBlocks T s t
        → FullBefore index
        → ((t' : T.S)
            → SameBlocks T s t'
            → T.Good t'
            → FullBefore (index + 1)
            → Ends (Searched update s start valid) ⊥ (rest t'))
        → ReadEnds T.Good T.view (T.ReadFails t (start + index)) t (start + index) r
        → Ends
            (Searched update s start valid)
            ⊥
            (search_read T update valid (start + index) first rest r)
    read_lem index first t (error x, t') rest e i same before k (not_read g v fl) =
        returns (search_unread t (start + index) fl g (λ m. v m ∙ same m))
    read_lem index first t (success b, t') rest e i same before k (read g v c) =
        let bs = T.view s (start + index) in
        let m = bits_in_block T valid first in
        let same' : SameBlocks T s t' = λ m. v m ∙ same m in
        subst
          (λ z.
            Ends (Searched update s start valid) ⊥
              (search_read T update valid (start + index) first rest (success z, t')))
          (sym (c ∙ same (start + index)))
          (Ends-bind
            (find_in_bytes_lem ((m + 7) / 8) 0 bs m (omega (arith, T.view_bytes s (start + index)))
              (omega arith))
            (λ o f.
              searched index first t' o rest e i same' g before (k t' same' g)
                (subst (λ z. FirstFree (bit_at bs) 0 z 0 o) (omega arith) f)))

    search_blocks_lem :
        (left index : ℕ) (t : T.S)
        → index + left ≡ blocks
        → SameBlocks T s t
        → T.Good t
        → FullBefore index
        → Ends (Searched update s start valid) ⊥ (search_blocks T update start valid left index t)
    unfolding search_blocks
    search_blocks_lem zero index t h same g before = returns (
        none_free
          (λ b q r v.
            elim (before_place b q blocks 0 (bits_per_block T) r (omega arith)
              (omega (arith, w.covers))) [
                | inl u ↦ before b q (omega arith) r v
                | inr u ↦ absurd (omega arith)
              ])
          g same)
    search_blocks_lem (suc left) index t h same g before =
        let num : (start + index) % 2 ^ 32 ≡ start + index = omega (arith, w.narrow) in
        let first : index * bits_per_block T % 2 ^ 32 ≡ index * bits_per_block T =
          omega (arith, small_start index blocks (bits_per_block T) (omega arith) w.small) in
        let rest = λ (s' : T.S). search_blocks T update start valid left (index + 1) s' in
        subst
          (λ z. Ends (Searched update s start valid) ⊥ (
            T.read_block z t >>= λ r.
            search_read T update valid z (index * bits_per_block T % 2 ^ 32) rest r))
          (sym num)
          (subst
            (λ z. Ends (Searched update s start valid) ⊥ (
              T.read_block (start + index) t >>= λ r.
              search_read T update valid (start + index) z rest r))
            (sym first)
            (Ends-bind (T.read_block_law t (start + index) g) (λ r c.
              read_lem index (index * bits_per_block T) t r rest refl (omega arith) same before
                (λ t' same' g' before'.
                  search_blocks_lem left (index + 1) t' (omega arith) same' g' before')
                c)))

  -- Of a bitmap inside a good store, whose blocks hold bytes and which is large enough for the bits
  -- that count, of which there are some, and with memory for one block: the search returns the first
  -- bit that is not set, and if it is to be taken, that bit is set afterwards and every other bit and
  -- block is as it was, else all are as they were; or NO_FREE_BLOCKS, and then all bits that count
  -- are set and nothing has changed; or the error of a block that could not be read or written.
  pub find_free_from_bitmap_range_lem :
      (memory : List ℕ) (update : Bool) (s : T.S) (start blocks valid : ℕ)
      → T.Good s
      → IsBitmap T s start blocks valid
      → 0 < valid
      → Ends
          (Searched update s start valid)
          ⊥
          (find_free_from_bitmap_range T (some memory) start blocks valid update s)
  unfolding find_free_from_bitmap_range
  find_free_from_bitmap_range_lem memory update s start blocks valid g w p =
      Ends-if (blocks == 0 || valid == 0)
        (λ t. absurd (ground (arith, zero_of valid blocks (bits_per_block T), w.covers)))
        (λ t.
          search_blocks_lem update s start blocks valid w blocks 0 s (omega arith) (λ m. refl) g
            (λ b q h. absurd (omega arith)))
