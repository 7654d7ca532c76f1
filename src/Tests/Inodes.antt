-- ===== src/Tests/Inodes.antt =====
-- Files on a device that is never written, whose blocks hold two pointers.
use os_pi_is_cool.Base.{ℕ, ◌+◌, ◌*◌, refl, some, List, [], ◌∷◌, ok, Ends, returns, arith}
use os_pi_is_cool.Fs.Errors.{success, error, file_write_error}
use os_pi_is_cool.Fs.Layout.{Layout}
use os_pi_is_cool.Fs.Store.{Store, read, not_written}
use os_pi_is_cool.Fs.Inode.{Inode, get_block_num_from_inode}
use os_pi_is_cool.Fs.Inode.Pointers.{Looked, PointerBlock, block_at, get_block_num_from_inode_lem}

-- Block `m` holds the numbers `2 * m` and `2 * m + 1`.
abbrev two_pointers : ℕ → List ℕ
two_pointers m = (2 * m) ∷ 0 ∷ 0 ∷ 0 ∷ (2 * m + 1) ∷ 0 ∷ 0 ∷ 0 ∷ []

abbrev read_only : Store
read_only = record {
  S = Unit;
  block_bytes = 8;
  count = 64;
  read_block = λ n s. ok (success (two_pointers n), s);
  write_block = λ b n s. ok (error file_write_error, s);
  Good = λ s. Unit;
  view = λ s. two_pointers;
  ReadFails = λ s n. ⊥;
  WriteFails = λ s n b. Unit;
  view_bytes = λ s n. refl;
  read_block_law = λ s n g. returns (read tt (λ m. refl) refl);
  write_block_law = λ s n b g h. returns (not_written tt (λ m q ne. refl) tt);
}

abbrev read_only_layout : Layout
read_only_layout = record {
  bytes_per_block = 8;
  total_fs_blocks = 64;
  block_bitmap_start = 1;
  block_bitmap_blocks = 1;
  inode_bitmap_start = 2;
  inode_bitmap_blocks = 1;
  inode_table_start = 3;
  num_table_blocks = 1;
  data_start_block = 4;
}

abbrev scrap : List ℕ
scrap = 7 ∷ 7 ∷ 7 ∷ 7 ∷ 7 ∷ 7 ∷ 7 ∷ 7 ∷ []

abbrev long_file : Inode
long_file = record {
  i_blocks = 17;
  blocks = 40 ∷ 41 ∷ 42 ∷ 43 ∷ 44 ∷ 45 ∷ 46 ∷ 47 ∷ 48 ∷ 49 ∷ 50 ∷ 51 ∷ 10 ∷ 9 ∷ 0 ∷ [];
}

-- Block 15 is the second of the first block of pointers, 18, that block 9 names.
get_block_num_from_inode_lem_example :
    Ends
      (Looked read_only scrap read_only_layout tt
        (PointerBlock two_pointers 2 long_file 15)
        (block_at two_pointers 2 long_file 15))
      ⊥
      (get_block_num_from_inode read_only (some scrap) read_only_layout long_file 15 tt)
get_block_num_from_inode_lem_example =
    get_block_num_from_inode_lem read_only scrap read_only_layout refl refl tt long_file 15 tt refl
      (omega arith)
