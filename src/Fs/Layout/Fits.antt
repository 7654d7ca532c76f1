-- ===== src/Fs/Layout/Fits.antt =====
-- What `mkfs` lays out is what `mount` accepts.
use os_pi_is_cool.Base.{
  ℕ, ◌+◌, ◌-◌, ◌*◌, ◌/◌, ◌%◌, ◌^◌, ◌<◌, ◌≤◌, ◌≡◌, refl, ◌⊎◌, inl, inr, true, false, ◌||◌, ◌==◌, leb,
  if-elim, Bool-cases, zero_of, arith, subst, sym,
}
use native.Mathlib.Nat.{lt-div-mul-add, div-mul-le_self, div-le_of_le-mul, div-eq_of_lt}
use os_pi_is_cool.Fs.Errors.{Result, success, error, FsError}
use os_pi_is_cool.Fs.Layout.{Layout, fs_set_layout, round_up, place}

-- The parts of the layout follow each other, from block 1 to the end of `total` blocks, and the
-- bitmaps have a bit for every block and every inode.
pub record Fits (l : Layout) (bytes total table inodes : ℕ) : Type 0 where
  pub at_one : l.block_bitmap_start ≡ 1
  pub inode_bitmap_next : l.inode_bitmap_start ≡ 1 + l.block_bitmap_blocks
  pub table_next : l.inode_table_start ≡ l.inode_bitmap_start + l.inode_bitmap_blocks
  pub data_next : l.data_start_block ≡ l.inode_table_start + table
  pub data_inside : l.data_start_block < total
  pub block_bits : total ≤ l.block_bitmap_blocks * (bytes * 8)
  pub inode_bits : inodes ≤ l.inode_bitmap_blocks * (bytes * 8)
  pub block_small : l.block_bitmap_blocks * (bytes * 8) ≤ 2 ^ 32
  pub inode_small : l.inode_bitmap_blocks * (bytes * 8) ≤ 2 ^ 32
  pub same_bytes : l.bytes_per_block ≡ bytes
  pub same_total : l.total_fs_blocks ≡ total
  pub same_table : l.num_table_blocks ≡ table

-- The blocks that so many bits take, without a bound on the numbers.
abbrev pub bitmap_size : ℕ → ℕ → ℕ
bitmap_size bits per_block = (bits + per_block - 1) / per_block

-- Why a device of `total` blocks may not do: there is nothing to lay out, its size is within one
-- bitmap block of what 32 bits count, or its blocks are too few.
pub data NoPlace (bytes total table inodes : ℕ) : Type 0 where
  empty : (table ≡ 0) ⊎ (inodes ≡ 0) → NoPlace bytes total table inodes
  wide :
      (2 ^ 32 < total + bytes * 8) ⊎ (2 ^ 32 < inodes + bytes * 8)
      → NoPlace bytes total table inodes
  full :
      total ≤ 1 + bitmap_size total (bytes * 8) + bitmap_size inodes (bytes * 8) + table
      → NoPlace bytes total table inodes

-- How a layout is chosen.
pub data Laid (bytes total table inodes : ℕ) : Result Layout → Type 0 where
  fits : {l : Layout} → Fits l bytes total table inodes → Laid bytes total table inodes (success l)
  no_place :
      {e : FsError} → NoPlace bytes total table inodes → Laid bytes total table inodes (error e)

-- A size in bitmap blocks: exact, or 0 after a wrap-around.
pub data Rounded (a b : ℕ) (n : ℕ) : Type 0 where
  exact : n ≡ bitmap_size a b → a ≤ n * b → n ≤ 2 ^ 21 → n * b ≤ 2 ^ 32 → Rounded a b n
  wrapped : 2 ^ 32 < a + b → n ≡ 0 → Rounded a b n

pub round_up_lem : (a b : ℕ) → 2048 ≤ b → b < 2 ^ 16 → a < 2 ^ 32 → Rounded a b (round_up a b)
unfolding round_up
round_up_lem a b h k m = rounded (Bool-cases (leb (a + b) (2 ^ 32)))
  where
    rounded :
        (leb (a + b) (2 ^ 32) ≡ true) ⊎ (leb (a + b) (2 ^ 32) ≡ false)
        → Rounded a b ((a + b + 4294967295) % 2 ^ 32 / b)
    rounded (inl t) =
        let p : a + b ≤ 2 ^ 32 = ground arith in
        let e : (a + b + 4294967295) % 2 ^ 32 ≡ a + b - 1 = omega arith in
        subst (λ x. Rounded a b (x / b)) (sym e)
          (exact refl (omega (arith, lt-div-mul-add {a = a + b - 1} {b = b} (omega arith)))
            (div-le_of_le-mul b (omega arith)) (omega (arith, div-mul-le_self (a + b - 1) b)))
    rounded (inr t) =
        let p : 2 ^ 32 < a + b = ground arith in
        wrapped p (div-eq_of_lt {n = (a + b + 4294967295) % 2 ^ 32} {m = b} (omega arith))

module _ (bytes total table inodes : ℕ) (p : 256 ≤ bytes) (h : total < 2 ^ 32) (r : inodes < 2 ^ 32)
    (m : table < 2 ^ 31) where
  place_if :
      (n k : ℕ)
      → n ≤ 2 ^ 21
      → k ≤ 2 ^ 21
      → (total ≤ 1 + n + k + table → NoPlace bytes total table inodes)
      → ((n ≡ 0) ⊎ (k ≡ 0) ⊎ (table ≡ 0) → 0 < total → NoPlace bytes total table inodes)
      → (total ≤ n * (bytes * 8)
          × inodes ≤ k * (bytes * 8)
          × n * (bytes * 8) ≤ 2 ^ 32
          × k * (bytes * 8) ≤ 2 ^ 32)
        ⊎ (n ≡ 0)
        ⊎ (k ≡ 0)
      → Laid bytes total table inodes (place bytes total table n k)
  unfolding place fs_set_layout
  place_if n k u v f g q =
      let data_at = (((1 + n) % 2 ^ 32 + k) % 2 ^ 32 + table) % 2 ^ 32 in
      let L = Laid bytes total table inodes in
      if-elim L (leb total data_at) (λ t. no_place (f (ground arith)))
        (λ t.
          if-elim L
            (bytes == 0 || total == 0 || n == 0 || k == 0 || table == 0 || leb total data_at)
            (λ z. no_place (g (ground arith) (ground arith)))
            (λ z. fits (record {
              at_one = refl;
              inode_bitmap_next = omega arith;
              table_next = omega arith;
              data_next = omega arith;
              data_inside = ground arith;
              block_bits = ground arith;
              inode_bits = ground arith;
              block_small = ground arith;
              inode_small = ground arith;
              same_bytes = refl;
              same_total = refl;
              same_table = refl;
            })))

  pub place_lem :
      (n k : ℕ)
      → Rounded total (bytes * 8) n
      → Rounded inodes (bytes * 8) k
      → Laid bytes total table inodes (place bytes total table n k)
  place_lem n k (exact e a b c) (exact e' a' b' c') =
      place_if n k b b' (λ t. full (omega arith))
        (λ z t. empty (ground (arith, zero_of total n (bytes * 8), zero_of inodes k (bytes * 8))))
        (inl (a, a', c, c'))
  place_lem n k (exact e a b c) (wrapped w e') =
      place_if n k b (omega arith) (λ _. wide (inr w)) (λ _ _. wide (inr w)) (inr (inr e'))
  place_lem n k (wrapped w e) (exact e' a' b' c') =
      place_if n k (omega arith) b' (λ _. wide (inl w)) (λ _ _. wide (inl w)) (inr (inl e))
  place_lem n k (wrapped w e) (wrapped w' e') =
      place_if n k (omega arith) (omega arith) (λ _. wide (inl w)) (λ _ _. wide (inl w))
        (inr (inl e))
