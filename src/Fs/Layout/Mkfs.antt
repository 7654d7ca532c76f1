-- ===== src/Fs/Layout/Mkfs.antt =====
-- `mkfs` up to the writing of the blocks: its layout is the one that `mount` accepts.
use os_pi_is_cool.Base.{
  ℕ, ◌+◌, ◌-◌, ◌*◌, ◌/◌, ◌%◌, ◌^◌, ◌<◌, ◌≤◌, ◌≡◌, ◌≢◌, refl, sym, subst, ◌⊎◌, true, not, ◌||◌, ◌==◌,
  ltb, leb, if-elim, zero_of, arith,
}
use native.Mathlib.Nat.{mul-le-mul_left}
use os_pi_is_cool.Fs.Errors.{Result, success, error, FsError, invalid_args}
use os_pi_is_cool.Fs.Device.{Region}
use os_pi_is_cool.Fs.Layout.{
  Layout, range_is_valid, validate_superblock, block_bytes, round_up, place, layout_of, after_empty,
  mkfs_layout, with_region, lay_out, check_size, mkfs, fs_set_layout, superblock_of, inode_bytes,
}
use os_pi_is_cool.Fs.Layout.Fits.{Fits, Laid, fits, no_place, NoPlace, round_up_lem, place_lem}

range_lem :
    (start count total : ℕ)
    → 0 < count
    → start + count ≤ total
    → range_is_valid start count total ≡ true
unfolding range_is_valid
range_lem start count total p q = ground arith

-- A layout whose parts follow each other passes the test of the superblock.
Fits-accepted :
    {bytes total table inodes : ℕ} (l : Layout)
    → Fits l bytes total table inodes
    → 0 < table
    → 0 < inodes
    → total < 2 ^ 32
    → validate_superblock (superblock_of l) bytes total ≡ success tt
unfolding validate_superblock superblock_of
Fits-accepted {bytes} {total} {table} {inodes} l f p q r =
    let n = l.block_bitmap_blocks in
    let k = l.inode_bitmap_blocks in
    let n0 : 0 < n = ground (arith, zero_of total n (bytes * 8), f.block_bits, f.data_inside) in
    let k0 : 0 < k = ground (arith, zero_of inodes k (bytes * 8), f.inode_bits) in
    let a = range_lem l.block_bitmap_start n l.total_fs_blocks n0 (
      omega (
        arith, f.at_one, f.inode_bitmap_next, f.table_next, f.data_next, f.data_inside,
        f.same_total,
      )) in
    let b = range_lem l.inode_bitmap_start k l.total_fs_blocks k0 (
      omega (
        arith, f.at_one, f.inode_bitmap_next, f.table_next, f.data_next, f.data_inside,
        f.same_total,
      )) in
    let c =
      range_lem l.inode_table_start l.num_table_blocks l.total_fs_blocks
        (omega (arith, f.same_table))
        (omega (
          arith, f.at_one, f.inode_bitmap_next, f.table_next, f.data_next, f.data_inside,
          f.same_total, f.same_table,
        )) in
    ground (
      arith, a, b, c, f.at_one, f.inode_bitmap_next, f.table_next, f.data_next, f.data_inside,
      f.same_total, f.same_table, f.same_bytes,
    )

-- The reasons of `mkfs` to refuse a region.
pub data Refusal (table bytes : ℕ) (region : Region) : Type 0 where
  wide_device : 2 ^ 32 ≤ region.count → Refusal table bytes region
  wide_table : 2 ^ 32 ≤ table * (bytes / inode_bytes) → Refusal table bytes region
  crowded :
      NoPlace bytes region.count table (table * (bytes / inode_bytes)) → Refusal table bytes region

-- How `mkfs` ends, with an inode table of `table` blocks.
pub data Made (table config block_size : ℕ) (emptied : Result Unit) (configure : Result Region)
    : Result (Region × Layout) → Type 0 where
  made :
      {region : Region} {l : Layout}
      → configure ≡ success region
      → block_bytes config ≡ success block_size
      → Fits l block_size region.count table (table * (block_size / inode_bytes))
      → validate_superblock (superblock_of l) block_size region.count ≡ success tt
      → Made table config block_size emptied configure (success (region, l))
  bad_table :
      (table ≡ 0) ⊎ (2 ^ 31 ≤ table)
      → Made table config block_size emptied configure (error invalid_args)
  bad_config :
      block_bytes config ≢ success block_size
      → Made table config block_size emptied configure (error invalid_args)
  no_region :
      {e : FsError} → configure ≡ error e → Made table config block_size emptied configure (error e)
  not_emptied :
      {e : FsError} → emptied ≡ error e → Made table config block_size emptied configure (error e)
  no_room :
      {e : FsError} {region : Region}
      → configure ≡ success region
      → Refusal table block_size region
      → Made table config block_size emptied configure (error e)

module _ (table config block_size : ℕ) (emptied : Result Unit) (region : Region) where
  finish :
      (r : Result Layout)
      → block_bytes config ≡ success block_size
      → 0 < table
      → 0 < table * (block_size / inode_bytes)
      → region.count < 2 ^ 32
      → Laid block_size region.count table (table * (block_size / inode_bytes)) r
      → Made table config block_size emptied (success region) (with_region region r)
  finish (success l) e t i c (fits f) = made refl e f (Fits-accepted l f t i c)
  finish (error e') e t i c (no_place n) = no_room refl (crowded n)

  not_emptied_if :
      (r : Result Layout) (c : Result Unit)
      → emptied ≡ c
      → Made table config block_size emptied (success region) (with_region region r)
      → Made table config block_size emptied (success region) (with_region region (after_empty c r))
  not_emptied_if r (error e) h k = not_emptied h
  not_emptied_if r (success u) h k = k

  laid-Made :
      block_bytes config ≡ success block_size
      → 256 ≤ block_size
      → block_size ≤ 4096
      → 0 < table
      → table < 2 ^ 31
      → Made table config block_size emptied
          (success region)
          (lay_out table block_size emptied (success region))
  unfolding mkfs_layout layout_of
  laid-Made e p q r m =
      let per = block_size / inode_bytes in
      let inodes = table * per in
      let bits = block_size * 8 in
      let small : inodes < 2 ^ 64 =
        omega (arith, mul-le-mul_left {m = per} {n = 40} table (omega arith)) in
      let some_inode : 0 < inodes =
        grind (arith, mul-le-mul_left {m = 1} {n = per} table (omega arith)) in
      let same : inodes % 2 ^ 64 ≡ inodes = omega arith in
      let n = round_up region.count bits in
      let P = λ (x : Result Layout).
        Made table config block_size emptied (success region) (with_region region x) in
      if-elim P (ltb (2 ^ 32 - 1) region.count) (λ t. no_room refl (wide_device (ground arith)))
        (λ t. not_emptied_if _ emptied refl (
          if-elim P (inodes % 2 ^ 64 == 0 || ltb (2 ^ 32 - 1) (inodes % 2 ^ 64))
            (λ u. no_room refl (wide_table (ground arith)))
            (λ u. finish _ e r some_inode (ground arith) (
              subst
                (λ i.
                  Laid block_size region.count table inodes
                    (place block_size region.count table n (round_up i bits)))
                (sym same)
                (place_lem block_size region.count table inodes p (ground arith) (ground arith) m n
                  _ (round_up_lem region.count bits (omega arith) (omega arith) (ground arith))
                  (round_up_lem inodes bits (omega arith) (omega arith) (ground arith)))))))

-- The sizes that a configuration stands for.
pub config_bounds :
    (config bytes : ℕ) → block_bytes config ≡ success bytes → 256 ≤ bytes × bytes ≤ 4096
config_bounds config bytes h = ground arith

config_error : (config : ℕ) (e : FsError) → block_bytes config ≡ error e → invalid_args ≡ e
config_error config e h = ground arith

module _ (table config block_size : ℕ) (emptied : Result Unit) (p : 0 < table)
    (q : table < 2 ^ 31) where
  region-Made :
      (configure : Result Region)
      → block_bytes config ≡ success block_size
      → Made table config block_size emptied configure (lay_out table block_size emptied configure)
  region-Made (error e) h = no_region refl
  region-Made (success region) h =
      let b = config_bounds config block_size h in
      laid-Made table config block_size emptied region h b.0 b.1 p q

  config-Made :
      (configure : Result Region) (r : Result ℕ)
      → block_bytes config ≡ r
      → Made table config block_size emptied configure
          (check_size table block_size emptied configure r)
  config-Made configure (error e) h =
      subst (λ x. Made table config block_size emptied configure (error x))
        (config_error config e h) (bad_config (λ k. cc))
  config-Made configure (success bytes) h =
      if-elim (Made table config block_size emptied configure) (not (bytes == block_size))
        (λ t. bad_config (λ e. absurd (ground arith)))
        (λ t.
          let e : bytes ≡ block_size = ground arith in
          subst
            (λ x.
              Made table config block_size emptied configure (lay_out table x emptied configure))
            (sym e) (region-Made configure (subst (λ x. block_bytes config ≡ success x) e h)))

-- For an inode table of any 32-bit size, any configuration and device: if `mkfs` goes on to write
-- its blocks, then the block bitmap starts at block 1, the inode bitmap, the inode table and the
-- data follow without a gap and end inside the region, the bitmaps have a bit for each block and
-- each inode, and `mount` accepts the superblock. Otherwise the inode table is empty or over 31
-- bits, the configuration is not the device's block size, the region was not found (whose error is
-- the result), the cache of blocks was not emptied (likewise), its numbers come within one bitmap block of 32 bits, or the parts do not fit in it.
pub mkfs_lem :
    (table config block_size : ℕ) (emptied : Result Unit) (configure : Result Region)
    → Made table config block_size emptied configure
        (mkfs table config block_size emptied configure)
unfolding mkfs
mkfs_lem table config block_size emptied configure =
    if-elim (Made table config block_size emptied configure) (table == 0 || leb (2 ^ 31) table)
      (λ t. bad_table (ground arith))
      (λ t.
        config-Made table config block_size emptied (ground arith) (ground arith) configure _ refl)

-- A layout that the superblock's test accepts is one that `fs_set_layout` takes over.
pub accepted_layout :
    (l : Layout) (bytes total : ℕ)
    → 0 < bytes
    → validate_superblock (superblock_of l) bytes total ≡ success tt
    → fs_set_layout (superblock_of l).layout ≡ success l
unfolding validate_superblock range_is_valid fs_set_layout superblock_of
accepted_layout l bytes total p h = ground arith
