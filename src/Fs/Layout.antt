-- ===== src/Fs/Layout.antt =====
-- Where the file system lies on the device and how it is laid out there: `fs_set_layout`,
-- `mkfs` and `validate_superblock` of kernel/fs/disk.c, and the superblock that `mkfs_inode` of
-- kernel/fs/inodes.c writes. `uint32_t` and `uint64_t` values wrap where the source adds.
pub mod Fits
pub mod Mkfs
use os_pi_is_cool.Base.{
  ℕ, suc, ◌+◌, ◌-◌, ◌*◌, ◌/◌, ◌%◌, ◌^◌, bit_or, Bool, true, false, not, ◌&&◌, ◌||◌, if◌then◌else◌,
  ◌==◌, ltb, leb, List, [], ◌∷◌, Run, ok, ◌>>=◌, load,
}
use os_pi_is_cool.Fs.Device.{Region}
use os_pi_is_cool.Fs.Errors.{Result, success, error, invalid_args, fs_invalid}

-- The variables that `fs_set_layout` sets.
pub record Layout : Type 0 where
  pub bytes_per_block : ℕ
  pub total_fs_blocks : ℕ
  pub block_bitmap_start : ℕ
  pub block_bitmap_blocks : ℕ
  pub inode_bitmap_start : ℕ
  pub inode_bitmap_blocks : ℕ
  pub inode_table_start : ℕ
  pub num_table_blocks : ℕ
  pub data_start_block : ℕ

-- `struct superblock_st`: the layout, with a signature and the number of the root directory.
pub record Superblock : Type 0 where
  pub signature : List ℕ
  pub layout : Layout
  pub root_inode_id : ℕ

-- "OSisCOOLv2" and its NUL.
abbrev pub fs_signature : List ℕ
fs_signature = 79 ∷ 83 ∷ 105 ∷ 115 ∷ 67 ∷ 79 ∷ 79 ∷ 76 ∷ 118 ∷ 50 ∷ 0 ∷ []

abbrev pub root_ino : ℕ
root_ino = 1

pub range_is_valid : ℕ → ℕ → ℕ → Bool
range_is_valid start count total = not (count == 0) && ltb start total && leb count (total - start)

unfoldable pub fs_set_layout : Layout → Result Layout
fs_set_layout l =
    if l.bytes_per_block == 0
      || l.total_fs_blocks == 0
      || l.block_bitmap_blocks == 0
      || l.inode_bitmap_blocks == 0
      || l.num_table_blocks == 0
      || leb l.total_fs_blocks l.data_start_block
    then error invalid_args
    else success l

-- The bytes of the signature are compared one by one.
abbrev pub signature_matches : List ℕ → List ℕ → Bool
signature_matches [] [] = true
signature_matches (x ∷ xs) (y ∷ ys) = x == y && signature_matches xs ys
signature_matches _ _ = false

pub validate_superblock : Superblock → ℕ → ℕ → Result Unit
validate_superblock s block_size fs_block_count =
    let l = s.layout in
    if not (signature_matches s.signature fs_signature)
    then error fs_invalid
    else if not (l.bytes_per_block == block_size)
        || l.total_fs_blocks == 0
        || not (l.total_fs_blocks == fs_block_count)
        || not (s.root_inode_id == root_ino)
    then error fs_invalid
    else if not (l.block_bitmap_start == 1)
        || not (range_is_valid l.block_bitmap_start l.block_bitmap_blocks l.total_fs_blocks)
        || not (range_is_valid l.inode_bitmap_start l.inode_bitmap_blocks l.total_fs_blocks)
        || not (range_is_valid l.inode_table_start l.num_table_blocks l.total_fs_blocks)
        || ltb l.inode_bitmap_start ((l.block_bitmap_start + l.block_bitmap_blocks) % 2 ^ 32)
        || ltb l.inode_table_start ((l.inode_bitmap_start + l.inode_bitmap_blocks) % 2 ^ 32)
        || ltb l.data_start_block ((l.inode_table_start + l.num_table_blocks) % 2 ^ 32)
        || leb l.total_fs_blocks l.data_start_block
    then error fs_invalid
    else success tt

-- The block size that `mkfs` takes for a configuration.
abbrev pub block_bytes : ℕ → Result ℕ
block_bytes config =
    if config == 0
    then success 256
    else if config == 1
    then success 512
    else if config == 2
    then success 1024
    else if config == 3
    then success 2048
    else if config == 4
    then success 4096
    else error invalid_args

-- `sizeof(struct inode_st)`.
abbrev pub inode_bytes : ℕ
inode_bytes = 112

-- `a + b - 1`, over `b`, in 32 bits.
unfoldable pub round_up : ℕ → ℕ → ℕ
round_up a b = (a + b + 4294967295) % 2 ^ 32 / b

-- The layout of `total` blocks, with bitmaps and an inode table of so many blocks.
unfoldable pub place : ℕ → ℕ → ℕ → ℕ → ℕ → Result Layout
place bytes total table block_bitmap inode_bitmap =
    let inode_bitmap_at = (1 + block_bitmap) % 2 ^ 32 in
    let table_at = (inode_bitmap_at + inode_bitmap) % 2 ^ 32 in
    let data_at = (table_at + table) % 2 ^ 32 in
    if leb total data_at
    then error invalid_args
    else fs_set_layout (record {
      bytes_per_block = bytes;
      total_fs_blocks = total;
      block_bitmap_start = 1;
      block_bitmap_blocks = block_bitmap;
      inode_bitmap_start = inode_bitmap_at;
      inode_bitmap_blocks = inode_bitmap;
      inode_table_start = table_at;
      num_table_blocks = table;
      data_start_block = data_at;
    })

-- The numbers of `mkfs`, of a region whose count fits in 32 bits.
unfoldable pub layout_of : ℕ → ℕ → ℕ → Result Layout
layout_of table bytes total =
    let inode_count = table * (bytes / inode_bytes) % 2 ^ 64 in
    if inode_count == 0 || ltb (2 ^ 32 - 1) inode_count
    then error invalid_args
    else place bytes total table (round_up total (bytes * 8)) (round_up inode_count (bytes * 8))

abbrev pub after_empty : Result Unit → Result Layout → Result Layout
after_empty (error e) r = error e
after_empty (success u) r = r

-- `mkfs` from the choice of the region to `fs_set_layout`; `lru_cache_empty` returns `emptied`.
unfoldable pub mkfs_layout : ℕ → ℕ → Result Unit → Region → Result Layout
mkfs_layout table bytes emptied region =
    if ltb (2 ^ 32 - 1) region.count
    then error invalid_args
    else after_empty emptied (layout_of table bytes region.count)

abbrev pub with_region : Region → Result Layout → Result (Region × Layout)
with_region region (error e) = error e
with_region region (success l) = success (region, l)

-- The rest of `mkfs`, up to `mkfs_inode`, from the result of `configure_default_fs_region`.
abbrev pub lay_out : ℕ → ℕ → Result Unit → Result Region → Result (Region × Layout)
lay_out table bytes emptied (error e) = error e
lay_out table bytes emptied (success region) =
    with_region region (mkfs_layout table bytes emptied region)

abbrev pub check_size : ℕ → ℕ → Result Unit → Result Region → Result ℕ → Result (Region × Layout)
check_size table block_size emptied configure (error e) = error e
check_size table block_size emptied configure (success bytes) =
    if not (bytes == block_size) then error invalid_args else lay_out table bytes emptied configure

-- `mkfs` up to `mkfs_inode`: the size of the inode table, the configuration of the block size, the
-- block size of the device, and what `lru_cache_empty` and `configure_default_fs_region` return.
unfoldable pub mkfs : ℕ → ℕ → ℕ → Result Unit → Result Region → Result (Region × Layout)
mkfs table config block_size emptied configure =
    if table == 0 || leb (2 ^ 31) table
    then error invalid_args
    else check_size table block_size emptied configure (block_bytes config)

-- The superblock that `mkfs_inode` writes last.
pub superblock_of : Layout → Superblock
superblock_of l = record { signature = fs_signature; layout = l; root_inode_id = root_ino }
