-- ===== src/Tests/Files.antt =====
-- The file system on a device whose blocks have one byte, and on one with a partition table.
use os_pi_is_cool.Base.{
  ℕ, ◌%◌, ◌/◌, ◌≡◌, ◌≢◌, refl, sym, ap, subst, ◌∙◌, true, false, if◌then◌else◌, ◌==◌, Option, some,
  List, [], ◌∷◌, ◌++◌, length, replicate, get_or, Ends, arith,
}
use os_pi_is_cool.Fs.Errors.{
  success, err_code, fs_err_to_sys_errno, switch_errno, no_free_blocks, sys_enospc, sys_esrch,
  sys_eio,
}
use os_pi_is_cool.Fs.Device.{Region, Device}
use os_pi_is_cool.Fs.Driver.{Driver}
use os_pi_is_cool.Fs.Store.{Store, ReadEnds, WriteEnds}
use os_pi_is_cool.Fs.Cache.{Disk, read_block, write_block, lru_cache_empty}
use os_pi_is_cool.Fs.Cache.Coherent.{view, ReadFails, WriteFails, Cached}
use os_pi_is_cool.Fs.Cache.Through.{HasMemory}
use os_pi_is_cool.Fs.Cache.Blocks.{IsDisk, read_block_lem, write_block_lem, cached_store}
use os_pi_is_cool.Fs.Cache.Empty.{lru_cache_empty_lem}
use os_pi_is_cool.Fs.Bitmap.{find_free_from_bitmap_range, set_bit_in_bitmap_range}
use os_pi_is_cool.Fs.Bitmap.Places.{IsBitmap}
use os_pi_is_cool.Fs.Bitmap.Find.{Searched, find_free_from_bitmap_range_lem}
use os_pi_is_cool.Fs.Bitmap.Change.{Changed, set_bit_in_bitmap_range_lem}
use os_pi_is_cool.Fs.Device.Place.{Placed}
use os_pi_is_cool.Fs.Region.{configure_default_fs_region}
use os_pi_is_cool.Fs.Region.Within.{configure_default_fs_region_lem}
use os_pi_is_cool.Fs.Layout.{
  Layout, mkfs, mkfs_layout, layout_of, place, fs_set_layout, round_up, superblock_of,
}
use os_pi_is_cool.Fs.Mount.{mount_layout}
use os_pi_is_cool.Fs.Mount.Again.{mount-mkfs}
use os_pi_is_cool.Fs.Layout.Fits.{Fits}
use os_pi_is_cool.Fs.Blocks.{take_blocks}
use os_pi_is_cool.Fs.Blocks.Fresh.{FreshBlocks, take_blocks_lem}
use os_pi_is_cool.Fs.Layout.Mkfs.{Made, mkfs_lem}

-- A device whose block `n` has the byte `s n`.
abbrev put_byte : (ℕ → ℕ) → ℕ → ℕ → ℕ → ℕ
put_byte s n b m = if m == n then b else s m

one_byte : (b : List ℕ) → length b ≡ 1 → (get_or b 0 0 ∷ []) ≡ b
one_byte [] h = absurd (omega arith)
one_byte (x ∷ []) h = refl
one_byte (x ∷ y ∷ b) h = absurd (omega arith)

some_inj : {A : Type 0} (a b : A) → some a ≡ some b → a ≡ b
some_inj a b h = cc

put_byte_self : (s : ℕ → ℕ) (n b : ℕ) → put_byte s n b n ≡ b
put_byte_self s n b = ground arith

put_byte_other : (s : ℕ → ℕ) (n b m : ℕ) → m ≢ n → put_byte s n b m ≡ s m
put_byte_other s n b m h = ground arith

abbrev bytes_device : Driver
bytes_device = record {
  St = ℕ → ℕ;
  block_get_size = 1;
  block_read = λ s n. some (s n ∷ []);
  block_write = λ s n b. (true, put_byte s n (get_or b 0 0));
  contents = λ s n. s n ∷ [];
  sized = λ s n. refl;
  read_same = λ s n b h. sym (some_inj _ b h);
  write_same = λ s n b h k. ap (λ z. z ∷ []) (put_byte_self s n (get_or b 0 0)) ∙ one_byte b h;
  write_other = λ s n b m h. ap (λ z. z ∷ []) (put_byte_other s n (get_or b 0 0) m h);
}

abbrev plenty : ℕ → Option (List ℕ)
plenty n = some []

plenty-HasMemory : HasMemory plenty
plenty-HasMemory n = ([], refl)

-- Blocks 2 to 9 of the device, where every block has the byte 0xfe; block 3 is in the cache.
abbrev small_region : Region
small_region = record { base = 2; count = 8 }

abbrev small_disk : Disk bytes_device
small_disk = record {
  device = λ n. 0xfe;
  region = small_region;
  bytes_per_block = 1;
  nodes = record { bytes = 0xfe ∷ []; dirty = false; block = 3 } ∷ [];
  size = 1;
  cache_hits = 0;
  cache_misses = 0;
  cache_evictions = 0;
}

small_disk-IsDisk : IsDisk bytes_device plenty plenty-HasMemory small_region small_disk
small_disk-IsDisk = (
  record {
    counted = refl;
    few = omega arith;
    clean = ((refl, refl, omega arith), tt, tt);
    within = omega arith;
    sized = refl;
  },
  refl,
)

read_block_lem_example :
    Ends
      (ReadEnds
        (IsDisk bytes_device plenty plenty-HasMemory small_region)
        (view bytes_device)
        (ReadFails bytes_device small_disk 3)
        small_disk
        3)
      ⊥
      (read_block bytes_device plenty 3 small_disk)
read_block_lem_example =
    read_block_lem bytes_device plenty plenty-HasMemory small_region small_disk 3 small_disk-IsDisk

write_block_lem_example :
    Ends
      (WriteEnds
        (IsDisk bytes_device plenty plenty-HasMemory small_region)
        (view bytes_device)
        8
        (WriteFails bytes_device small_disk 5 (7 ∷ []))
        small_disk
        5
        (7 ∷ []))
      ⊥
      (write_block bytes_device plenty (7 ∷ []) 5 small_disk)
write_block_lem_example =
    write_block_lem bytes_device plenty plenty-HasMemory small_region small_disk 5 (7 ∷ [])
      small_disk-IsDisk refl

lru_cache_empty_lem_example :
    Ends
      (λ r. (r.1.nodes ≡ []) × Cached bytes_device 0 small_disk r)
      ⊥
      (lru_cache_empty bytes_device small_disk)
lru_cache_empty_lem_example = lru_cache_empty_lem bytes_device small_disk small_disk-IsDisk.0

abbrev small_store : Store
small_store = cached_store bytes_device plenty plenty-HasMemory small_region

-- A bitmap of 16 bits in the blocks 1 and 2, of which 12 count.
small_disk-IsBitmap : IsBitmap small_store small_disk 1 2 12
small_disk-IsBitmap = record {
  bytes = λ n h. (omega arith, tt);
  within = omega arith;
  narrow = omega arith;
  small = omega arith;
  covers = omega arith;
}

find_free_from_bitmap_range_lem_example :
    Ends
      (Searched small_store true small_disk 1 12)
      ⊥
      (find_free_from_bitmap_range small_store (some []) 1 2 12 true small_disk)
find_free_from_bitmap_range_lem_example =
    find_free_from_bitmap_range_lem small_store [] true small_disk 1 2 12 small_disk-IsDisk
      small_disk-IsBitmap (omega arith)

set_bit_in_bitmap_range_lem_example :
    Ends
      (Changed small_store false small_disk 1 (9 / 8) (9 % 8))
      ⊥
      (set_bit_in_bitmap_range small_store (some []) 1 2 12 9 false small_disk)
set_bit_in_bitmap_range_lem_example =
    set_bit_in_bitmap_range_lem small_store [] false small_disk 1 2 12 9 small_disk-IsDisk
      small_disk-IsBitmap (omega arith)

-- A device of 10000 blocks of 512 bytes, with a FAT partition of 2048 blocks from block 64 on.
abbrev boot_sector : List ℕ
boot_sector =
    replicate 446 0
    ++ (0 ∷ 0 ∷ 0 ∷ 0 ∷ 0x0c ∷ 0 ∷ 0 ∷ 0 ∷ 64 ∷ 0 ∷ 0 ∷ 0 ∷ 0 ∷ 8 ∷ 0 ∷ 0 ∷ [])
    ++ replicate 48 0
    ++ (0x55 ∷ 0xaa ∷ [])

abbrev partitioned : Device
partitioned = record {
  is_qemu = false;
  block_get_count = 10000;
  block_get_size = 512;
  block_read = λ n. some boot_sector;
}

some_length : (xs ys : List ℕ) → length xs ≡ 512 → some xs ≡ some ys → length ys ≡ 512
some_length xs ys h e = subst (λ z. length z ≡ 512) (some_inj xs ys e) h

configure_default_fs_region_lem_example :
    Ends
      (Placed partitioned)
      ⊥
      (configure_default_fs_region partitioned (replicate 4096 1) (replicate 4096 2))
configure_default_fs_region_lem_example =
    configure_default_fs_region_lem partitioned (replicate 4096 1) (replicate 4096 2)
      (λ n bytes e. some_length boot_sector bytes refl e) refl refl

-- An inode table of 16 blocks on 4000 blocks of 512 bytes.
mkfs_lem_example :
    Made 16 1 512
      (success tt)
      (success (record { base = 64; count = 4000 }))
      (mkfs 16 1 512 (success tt) (success (record { base = 64; count = 4000 })))
mkfs_lem_example = mkfs_lem 16 1 512 (success tt) (success (record { base = 64; count = 4000 }))

-- A full disk is reported as such; an error number that is translated twice is not.
full_disk : fs_err_to_sys_errno (err_code no_free_blocks) ≡ sys_enospc
unfolding fs_err_to_sys_errno switch_errno err_code
full_disk = refl

no_process_twice : fs_err_to_sys_errno sys_esrch ≡ sys_eio
unfolding fs_err_to_sys_errno switch_errno err_code
no_process_twice = refl

-- On the 8 blocks of the small region: a bitmap of blocks, one of inodes, a table of one block, and
-- the data from block 4 on.
abbrev small_layout : Layout
small_layout = record {
  bytes_per_block = 1;
  total_fs_blocks = 8;
  block_bitmap_start = 1;
  block_bitmap_blocks = 1;
  inode_bitmap_start = 2;
  inode_bitmap_blocks = 1;
  inode_table_start = 3;
  num_table_blocks = 1;
  data_start_block = 4;
}

small_layout-Fits : Fits small_layout 1 8 1 8
small_layout-Fits = record {
  at_one = refl;
  inode_bitmap_next = refl;
  table_next = refl;
  data_next = refl;
  data_inside = omega arith;
  block_bits = omega arith;
  inode_bits = omega arith;
  block_small = omega arith;
  inode_small = omega arith;
  same_bytes = refl;
  same_total = refl;
  same_table = refl;
}

take_blocks_lem_example :
    Ends
      (FreshBlocks small_store small_layout small_disk)
      ⊥
      (take_blocks small_store (some []) small_layout 3 small_disk)
take_blocks_lem_example =
    take_blocks_lem small_store small_layout [] 3 small_disk 1 8 small_disk-IsDisk small_layout-Fits
      (omega arith) (λ n h. (omega arith, tt))

-- 4000 blocks of 512 bytes from block 64 on, with an inode table of 16 blocks.
abbrev big_region : Region
big_region = record { base = 64; count = 4000 }

abbrev big_layout : Layout
big_layout = record {
  bytes_per_block = 512;
  total_fs_blocks = 4000;
  block_bitmap_start = 1;
  block_bitmap_blocks = 1;
  inode_bitmap_start = 2;
  inode_bitmap_blocks = 1;
  inode_table_start = 3;
  num_table_blocks = 16;
  data_start_block = 19;
}

made_big : mkfs 16 1 512 (success tt) (success big_region) ≡ success (big_region, big_layout)
unfolding mkfs mkfs_layout layout_of place fs_set_layout round_up
made_big = refl

mount-mkfs_example :
    mount_layout false 512 (λ n. some (superblock_of big_layout)) (success big_region)
    ≡ success big_layout
mount-mkfs_example =
    mount-mkfs 16 1 512 (success tt) (success big_region) big_region big_layout
      (λ n. some (superblock_of big_layout)) made_big refl
