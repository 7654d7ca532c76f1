-- ===== src/Fs/Inode/Pointers.antt =====
-- The look-up of a block of a file against a description of where its number stands.
use native.Mathlib.Nat.{div-eq_of_lt, mod-eq_of_lt, mul-le-mul_right}
use os_pi_is_cool.Base.{
  ℕ, ◌+◌, ◌-◌, ◌*◌, ◌||◌, ◌<◌, ◌≤◌, ◌≡◌, ◌⊎◌, inl, inr, refl, sym, ap, subst, ◌∙◌, true, false,
  if◌then◌else◌, ltb, leb, Bool-cases, some, List, length, Run, ok, ◌>>=◌, load, Ends, returns,
  Ends-bind, Ends-mono, Ends-value, arith,
}
use os_pi_is_cool.Fs.Bytes.{read_le32}
use os_pi_is_cool.Fs.Bytes.Read.{load-Safe, read_le32-Safe}
use os_pi_is_cool.Fs.Errors.{Result, success, error}
use os_pi_is_cool.Fs.Layout.{Layout}
use os_pi_is_cool.Fs.Store.{Store, ReadEnds, read, not_read}
use os_pi_is_cool.Fs.Inode.{
  Inode, data_of, blocks_in_single_ptr, get_block_num_from_disk_ptr, from_double_ptr,
  get_block_num_from_inode,
}

-- The number with index `i` of the block of pointers `p`.
abbrev pub pointer : (ℕ → List ℕ) → ℕ → ℕ → Run ℕ
pointer view p i = read_le32 (view p) (4 * i)

-- Where the number of block `n` of a file stands: in the inode, in the block of pointers 12, or in
-- the first block of pointers that block 13 names. No block has the number 0.
pub block_at : (ℕ → List ℕ) → ℕ → Inode → ℕ → Run ℕ
block_at view per_block inode n =
    if leb inode.i_blocks n
    then ok 0
    else if ltb n 12 || leb inode.i_blocks 15
    then load inode.blocks n
    else if ltb n (12 + per_block)
    then (load inode.blocks 12 >>= λ p. pointer view p (n - 12))
    else load inode.blocks 13 >>= λ q. pointer view q 0 >>= λ p. pointer view p (n - per_block - 12)

-- The blocks of pointers that lead to the number of block `n` of a file, where it does not stand in
-- the inode: the one of block 12, or that of block 13 and the first one below it.
pub data PointerBlock (view : ℕ → List ℕ) (per_block : ℕ) (inode : Inode) (n : ℕ) : ℕ → Type 0 where
  single :
      {p : ℕ}
      → leb inode.i_blocks n ≡ false
      → (ltb n 12 || leb inode.i_blocks 15) ≡ false
      → ltb n (12 + per_block) ≡ true
      → load inode.blocks 12 ≡ ok p
      → PointerBlock view per_block inode n p
  double :
      {p : ℕ}
      → leb inode.i_blocks n ≡ false
      → (ltb n 12 || leb inode.i_blocks 15) ≡ false
      → ltb n (12 + per_block) ≡ false
      → load inode.blocks 13 ≡ ok p
      → PointerBlock view per_block inode n p
  below_double :
      {q p : ℕ}
      → leb inode.i_blocks n ≡ false
      → (ltb n 12 || leb inode.i_blocks 15) ≡ false
      → ltb n (12 + per_block) ≡ false
      → load inode.blocks 13 ≡ ok q
      → pointer view q 0 ≡ ok p
      → PointerBlock view per_block inode n p

module _ (T : Store) (buf : List ℕ) (l : Layout) where
  -- The read of one of these blocks fails in a state with the same blocks.
  abbrev pub Unread : T.S → (ℕ → Type 0) → Type 0
  Unread s Block =
      (s' : T.S) × (p : ℕ) × T.Good s'
      × ((m : ℕ) → T.view s' m ≡ T.view s m)
      × Block p
      × T.ReadFails s' p

  -- A look-up leaves the blocks as they are, and gives the number it should or could not read one of
  -- the blocks that it is about.
  abbrev pub Looked : T.S → (ℕ → Type 0) → Run ℕ → ℕ × T.S → Type 0
  Looked s Block expected (n, s') =
      T.Good s' × ((m : ℕ) → T.view s' m ≡ T.view s m) × ((expected ≡ ok n) ⊎ Unread s Block)

  module _ (whole : length buf ≡ T.block_bytes) (same : l.bytes_per_block ≡ T.block_bytes) where
    pointer_read :
        (s : T.S) (Block : ℕ → Type 0) (p i : ℕ) (x : Result (List ℕ) × T.S)
        → T.Good s
        → Block p
        → i < blocks_in_single_ptr l
        → ReadEnds T.Good T.view (T.ReadFails s p) s p x
        → Ends
            (Looked s Block (pointer (T.view s) p i))
            ⊥
            (read_le32 (data_of buf x.0) (4 * i) >>= λ n. ok (n, x.1))
    pointer_read s Block p i (success b, s') good this h (read g v e) =
        let (n, called, _) =
          Ends-value (read_le32-Safe b (4 * i) (omega (arith, ap length e, T.view_bytes s p))) in
        subst (λ r. Ends (Looked s Block (pointer (T.view s) p i)) ⊥ (r >>= λ n. ok (n, s')))
          (sym called) (returns (g, v, inl (ap (λ z. read_le32 z (4 * i)) (sym e) ∙ called)))
    pointer_read s Block p i (error _, s') good this h (not_read g v f) =
        Ends-bind (read_le32-Safe buf (4 * i) (omega arith))
          (λ n _. returns (g, v, inr (s, p, good, (λ m. refl), this, f)))

    get_block_num_from_disk_ptr_lem :
        (s : T.S) (Block : ℕ → Type 0) (p i : ℕ)
        → T.Good s
        → Block p
        → i < blocks_in_single_ptr l
        → Ends
            (Looked s Block (pointer (T.view s) p i))
            ⊥
            (get_block_num_from_disk_ptr T (some buf) l p i s)
    unfolding get_block_num_from_disk_ptr
    get_block_num_from_disk_ptr_lem s Block p i g this h =
        Ends-bind (T.read_block_law s p g) (λ x r. pointer_read s Block p i x g this h r)

    -- A look-up in a block of pointers that was itself looked up.
    second_read :
        (s : T.S) (Block : ℕ → Type 0) (q p i : ℕ) (s' : T.S)
        → Block q
        → ((z : ℕ) → pointer (T.view s) q 0 ≡ ok z → Block z)
        → Looked s Block (pointer (T.view s) q 0) (p, s')
        → i < blocks_in_single_ptr l
        → Ends
            (Looked s Block (pointer (T.view s) q 0 >>= λ p. pointer (T.view s) p i))
            ⊥
            (get_block_num_from_disk_ptr T (some buf) l p i s')
    second_read s Block q p i s' this below (g, v, inr unread) h =
        Ends-mono (get_block_num_from_disk_ptr_lem s' (λ z. Unit) p i g tt h)
          (λ (n, s3) (g', v', _). (g', (λ m. v' m ∙ v m), inr unread))
    second_read s Block q p i s' this below (g, v, inl e) h =
        Ends-mono (get_block_num_from_disk_ptr_lem s' Block p i g (below p e) h)
          (λ (n, s'') (g', v', found'). (
            g',
            λ m. v' m ∙ v m,
            elim found' [
              | inr (s3, z, good, same, at, fails) ↦
                  inr (s3, z, good, (λ m. same m ∙ v m), at, fails)
              | inl e' ↦ inl (rw e (ap (λ z. read_le32 z (4 * i)) (sym (v p)) ∙ e'))
            ],
          ))

    from_double_ptr_lem :
        (s : T.S) (inode : Inode) (n : ℕ)
        → T.Good s
        → leb inode.i_blocks n ≡ false
        → (ltb n 12 || leb inode.i_blocks 15) ≡ false
        → ltb n (12 + blocks_in_single_ptr l) ≡ false
        → length inode.blocks ≡ 15
        → 12 + blocks_in_single_ptr l ≤ n
        → n < 12 + 2 * blocks_in_single_ptr l
        → Ends
            (Looked s (PointerBlock (T.view s) (blocks_in_single_ptr l) inode n) (
              load inode.blocks 13 >>= λ q. pointer (T.view s) q 0 >>= λ p.
              pointer (T.view s) p (n - blocks_in_single_ptr l - 12)))
            ⊥
            (from_double_ptr T (some buf) l inode n s)
    unfolding from_double_ptr
    from_double_ptr_lem s inode n g inside indirect past_single f low high =
        let k = blocks_in_single_ptr l in
        let wide : 1 * k ≤ k * k = mul-le-mul_right k (omega arith) in
        let at_lt : n - k - 12 < k * k = omega arith in
        let (q, named, _) = Ends-value (load-Safe inode.blocks 13 (omega arith)) in
        rw (named, div-eq_of_lt at_lt, mod-eq_of_lt at_lt)
          (Ends-bind
            (get_block_num_from_disk_ptr_lem s (PointerBlock (T.view s) k inode n) q 0 g
              (double inside indirect past_single named) (omega arith))
            (λ (p, s') x.
              second_read s (PointerBlock (T.view s) k inode n) q p (n - k - 12) s'
                (double inside indirect past_single named)
                (λ z at. below_double inside indirect past_single named at) x (omega arith)))

    -- If the layout has the block size of the store, the buffer that `kmalloc` gives is one block
    -- long, the inode has 15 block numbers, and the block is below 12 plus twice the pointers that
    -- fit in a block: `get_block_num_from_inode` returns, never reads outside an array or a block of
    -- pointers, and leaves every block as it is. It returns 0 past the end of the file; else the
    -- number that stands in the inode, in the block of pointers, or in the first block of pointers
    -- below the double pointer; unless, with the blocks as they are, the read of one of these one or two
    -- blocks of pointers fails, in a state in good order.
    pub get_block_num_from_inode_lem :
        (s : T.S) (inode : Inode) (n : ℕ)
        → T.Good s
        → length inode.blocks ≡ 15
        → n < 12 + 2 * blocks_in_single_ptr l
        → Ends
            (Looked s
              (PointerBlock (T.view s) (blocks_in_single_ptr l) inode n)
              (block_at (T.view s) (blocks_in_single_ptr l) inode n))
            ⊥
            (get_block_num_from_inode T (some buf) l inode n s)
    unfolding get_block_num_from_inode block_at
    get_block_num_from_inode_lem s inode n g f high = elim (Bool-cases (leb inode.i_blocks n)) [
      | inl past ↦ rw past (returns (g, λ m. refl, inl refl))
      | inr inside ↦ elim (Bool-cases (ltb n 12 || leb inode.i_blocks 15)) [
        | inl direct ↦
            let (a, named, _) = Ends-value (load-Safe inode.blocks n (ground arith)) in
            rw (inside, direct, named) (returns (g, λ m. refl, inl refl))
        | inr indirect ↦ elim (Bool-cases (ltb n (12 + blocks_in_single_ptr l))) [
          | inl in_single ↦
              let (p, named, _) = Ends-value (load-Safe inode.blocks 12 (omega arith)) in
              rw (inside, indirect, in_single, named)
                (get_block_num_from_disk_ptr_lem s
                  (PointerBlock (T.view s) (blocks_in_single_ptr l) inode n) p (n - 12) g
                  (single inside indirect in_single named) (ground arith))
          | inr past_single ↦
              let k = blocks_in_single_ptr l in
              let low : 12 + k ≤ n = ground arith in
              let wide : 1 * k ≤ k * k = mul-le-mul_right k (omega arith) in
              let in_double : ltb n (12 + k + k * k) ≡ true = ground arith in
              rw (inside, indirect, past_single, in_double)
                (from_double_ptr_lem s inode n g inside indirect past_single f low high)
        ]
      ]
    ]
