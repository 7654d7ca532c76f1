-- ===== src/Fs/Blocks.antt =====
-- The blocks and inodes of the file system are handed out and given back: `find_free_block`,
-- `find_free_inode`, `set_block_allocated` and `set_inode_allocated` of kernel/fs/inodes.c, on the
-- bitmaps where the layout has them.
pub mod Fresh
use os_pi_is_cool.Base.{
  ℕ, zero, suc, ◌+◌, ◌-◌, ◌*◌, ◌/◌, ◌%◌, ◌^◌, Bool, true, if◌then◌else◌, ◌==◌, Option, List, [],
  ◌∷◌, Run, ok, ◌>>=◌,
}
use os_pi_is_cool.Fs.Errors.{Result, success, error, invalid_args}
use os_pi_is_cool.Fs.Layout.{Layout, inode_bytes}
use os_pi_is_cool.Fs.Store.{Store}
use os_pi_is_cool.Fs.Bitmap.{find_free_from_bitmap_range, set_bit_in_bitmap_range}

pub get_inode_capacity : Layout → ℕ
get_inode_capacity l = l.num_table_blocks * (l.bytes_per_block / inode_bytes) % 2 ^ 32

-- The first argument of the functions is what `kmalloc` returns for a block of data.
module _ (T : Store) (memory : Option (List ℕ)) (l : Layout) where
  pub find_free_block : Bool → T.S → Run (Result ℕ × T.S)
  find_free_block update s =
      find_free_from_bitmap_range T memory l.block_bitmap_start l.block_bitmap_blocks
        l.total_fs_blocks update s

  abbrev pub inode_of : Result ℕ × T.S → Result ℕ × T.S
  inode_of (error e, s) = (error e, s)
  inode_of (success n, s) = (success ((n + 1) % 2 ^ 32), s)

  pub find_free_inode : Bool → T.S → Run (Result ℕ × T.S)
  find_free_inode update s =
      find_free_from_bitmap_range T memory l.inode_bitmap_start l.inode_bitmap_blocks
        (get_inode_capacity l) update s
      >>= λ r. ok (inode_of r)

  pub set_block_allocated : ℕ → Bool → T.S → Run (Result Unit × T.S)
  set_block_allocated block_num allocated s =
      set_bit_in_bitmap_range T memory l.block_bitmap_start l.block_bitmap_blocks l.total_fs_blocks
        block_num allocated s

  pub set_inode_allocated : ℕ → Bool → T.S → Run (Result Unit × T.S)
  set_inode_allocated inode_id allocated s =
      if inode_id == 0
      then ok (error invalid_args, s)
      else set_bit_in_bitmap_range T memory l.inode_bitmap_start l.inode_bitmap_blocks
          (get_inode_capacity l) (inode_id - 1) allocated s

  -- A client that takes up to so many blocks, one after the other, until it gets an error: the
  -- blocks that it got.
  pub take_blocks : ℕ → T.S → Run (List ℕ)
  take_blocks zero s = ok []
  take_blocks (suc k) s = find_free_block true s >>= λ (r, s').
      let rest = take_blocks k s' in
      elim r [ error e ↦ ok [] | success n ↦ rest >>= λ ns. ok (n ∷ ns) ]
