-- ===== src/Fs/Blocks/Fresh.antt =====
-- A block that is handed out is not handed out again.
use os_pi_is_cool.Base.{
  ℕ, zero, suc, ◌+◌, ◌*◌, ◌^◌, ◌<◌, ◌≤◌, ◌≡◌, ◌≢◌, sym, subst, ap, ◌∙◌, inl, inr, true, false, ltb,
  ◌==◌, Bool-cases, some, List, [], ◌∷◌, ok, ◌>>=◌, Ends, returns, Ends-bind, arith,
}
use native.Mathlib.Nat.{mul-le-mul_right}
use os_pi_is_cool.Fs.Errors.{Result, success, error}
use os_pi_is_cool.Fs.Layout.{Layout}
use os_pi_is_cool.Fs.Layout.Fits.{Fits}
use os_pi_is_cool.Fs.Store.{Store}
use os_pi_is_cool.Fs.Bitmap.{bits_per_block}
use os_pi_is_cool.Fs.Bitmap.Bits.{bit_at, AreBytes}
use os_pi_is_cool.Fs.Bitmap.Places.{before_place, taken, IsBitmap, After, marked, After-IsBitmap}
use os_pi_is_cool.Fs.Bitmap.Find.{Searched, found, find_free_from_bitmap_range_lem}
use os_pi_is_cool.Fs.Blocks.{find_free_block, take_blocks}

-- Two bits at different places have different numbers.
same_place :
    (a p b q bits : ℕ) → p < bits → q < bits → a * bits + p ≡ b * bits + q → (a ≡ b) × (p ≡ q)
same_place a p b q bits h k e = elim (Bool-cases (ltb a b)) [
  | inl t ↦ absurd (grind (arith, mul-le-mul_right {m = a + 1} {n = b} bits (ground arith)))
  | inr t ↦ elim (Bool-cases (ltb b a)) [
    | inl u ↦ absurd (grind (arith, mul-le-mul_right {m = b + 1} {n = a} bits (ground arith)))
    | inr u ↦
        let c : a ≡ b = ground arith in
        (c, omega (arith, subst (λ z. z * bits + p ≡ b * bits + q) c e))
  ]
]

-- A bit of the map is in one of its blocks.
inside : (a p n bits : ℕ) → p < bits → a * bits + p < n * bits → a < n
inside a p n bits h k = elim (before_place a p n 0 bits h (omega arith) (omega arith)) [
  | inl l ↦ l
  | inr e ↦ absurd (omega arith)
]

true_is_not_false : true ≡ false → ⊥
true_is_not_false h = cc

-- A number is none of a list.
abbrev pub NotIn : ℕ → List ℕ → Type 0
NotIn n [] = Unit
NotIn n (m ∷ ms) = m ≢ n × NotIn n ms

module _ (T : Store) (l : Layout) where
  -- A block that counts, and whose bit is not set.
  abbrev pub FreeBlock : T.S → ℕ → Type 0
  FreeBlock s n =
      (a : ℕ) × (p : ℕ) × (n ≡ a * bits_per_block T + p)
      × p < bits_per_block T
      × a < l.block_bitmap_blocks
      × n < l.total_fs_blocks
      × (taken T s l.block_bitmap_start a p ≡ false)

  -- Free blocks, no two of them the same.
  abbrev pub FreshBlocks : T.S → List ℕ → Type 0
  FreshBlocks s [] = Unit
  FreshBlocks s (n ∷ ns) = FreeBlock s n × NotIn n ns × FreshBlocks s ns

  abbrev IsBlockMap : T.S → Type 0
  IsBlockMap s = IsBitmap T s l.block_bitmap_start l.block_bitmap_blocks l.total_fs_blocks

  -- A block that is free after another one has been taken was free before, and is another one.
  still_free :
      (s s' : T.S) (a p m : ℕ)
      → IsBlockMap s
      → p < bits_per_block T
      → After T s s' l.block_bitmap_start a p true
      → FreeBlock s' m
      → FreeBlock s m × m ≢ a * bits_per_block T + p
  still_free s s' a p m w h (marked t o by same) (b, q, e, k, i, v, f) =
      let start = l.block_bitmap_start in
      let apart : b ≡ a → q ≡ p → ⊥ = λ c d. true_is_not_false (
        sym t
        ∙ subst (λ z. taken T s' start z p ≡ false) c
            (subst (λ z. taken T s' start b z ≡ false) d f)) in
      let before : taken T s start b q ≡ false = elim (Bool-cases (b == a)) [
        | inl x ↦
            let c : b ≡ a = ground arith in
            subst (λ z. taken T s start z q ≡ false) (sym c)
              (sym (o q (λ d. apart c d)) ∙ subst (λ z. taken T s' start z q ≡ false) c f)
        | inr x ↦
            sym (
              ap (λ z. bit_at z q)
                (same (start + b) (omega (arith, w.within)) (λ z. absurd (ground arith))))
            ∙ f
      ] in
      (
        (b, q, e, k, i, v, before),
        (λ z. let d = same_place b q a p (bits_per_block T) k h (sym e ∙ z) in apart d.0 d.1),
      )

  freshness_kept :
      (s s' : T.S) (a p : ℕ) (ns : List ℕ)
      → IsBlockMap s
      → p < bits_per_block T
      → After T s s' l.block_bitmap_start a p true
      → FreshBlocks s' ns
      → FreshBlocks s ns × NotIn (a * bits_per_block T + p) ns
  freshness_kept s s' a p [] w h after f = (tt, tt)
  freshness_kept s s' a p (m ∷ ns) w h after (f, d, fs) =
      let x = still_free s s' a p m w h after f in
      let y = freshness_kept s s' a p ns w h after fs in ((x.0, d, y.0), (x.1, y.1))

  module _ (memory : List ℕ) where
    -- After the first block, the others.
    taken_next :
        (k : ℕ) (s : T.S) (r : Result ℕ × T.S)
        → IsBlockMap s
        → Searched T true s l.block_bitmap_start l.total_fs_blocks r
        → ((s' : T.S)
            → T.Good s'
            → IsBlockMap s'
            → Ends (FreshBlocks s') ⊥ (take_blocks T (some memory) l k s'))
        → Ends (FreshBlocks s) ⊥ (elim r.0 [
          | error e ↦ ok []
          | success n ↦ take_blocks T (some memory) l k r.1 >>= λ ns. ok (n ∷ ns)
        ])
    taken_next k s (success n, s') w (found a p m e h v f earlier g after) rest =
        Ends-bind (rest s' g (After-IsBitmap T s s' _ _ _ a p true w after)) (λ ns fresh.
          let x = freshness_kept s s' a p ns w h after fresh in
          returns (
            (a, p, e, h, inside a p _ _ h (omega (arith, e, w.covers)), v, f),
            subst (λ z. NotIn z ns) (sym e) x.1,
            x.0,
          ))
    taken_next k s (error e, s') w c rest = returns tt

    take_blocks_fresh :
        (k : ℕ) (s : T.S)
        → T.Good s
        → IsBlockMap s
        → 0 < l.total_fs_blocks
        → Ends (FreshBlocks s) ⊥ (take_blocks T (some memory) l k s)
    unfolding take_blocks find_free_block
    take_blocks_fresh zero s g w p = returns tt
    take_blocks_fresh (suc k) s g w p =
        Ends-bind (find_free_from_bitmap_range_lem T memory true s _ _ _ g w p)
          (λ r c. taken_next k s r w c (λ s' g' w'. take_blocks_fresh k s' g' w' p))

    -- On a store as large as a layout of `mkfs`, whose blocks hold bytes, and with memory for one
    -- block: the blocks that a client gets, one after the other until the first call that fails, are
    -- below the number of blocks, were free at first by the bitmap, and no block is handed out twice.
    pub take_blocks_lem :
        (k : ℕ) (s : T.S) (table inodes : ℕ)
        → T.Good s
        → Fits l T.block_bytes T.count table inodes
        → T.count ≤ 2 ^ 32
        → ((n : ℕ) → n < T.count → AreBytes (T.view s n))
        → Ends (FreshBlocks s) ⊥ (take_blocks T (some memory) l k s)
    take_blocks_lem k s table inodes g f c b =
        take_blocks_fresh k s g
          (record {
            bytes = b;
            within =
                omega
                  (arith, f.at_one, f.inode_bitmap_next, f.table_next, f.data_next, f.data_inside);
            narrow =
                omega
                  (arith, f.at_one, f.inode_bitmap_next, f.table_next, f.data_next, f.data_inside);
            small = f.block_small;
            covers =
                subst (λ z. z ≤ l.block_bitmap_blocks * bits_per_block T) (sym f.same_total)
                  f.block_bits;
          })
          (omega (arith, f.same_total, f.data_inside))
