-- ===== src/Fs/Inode.antt =====
-- The block numbers of a file (kernel/fs/inodes.c): an inode holds the first ones, and the others
-- stand in blocks of pointers. Products of the number of pointers in a block stay below 2^64.
pub mod Pointers
use os_pi_is_cool.Base.{
  ℕ, ◌+◌, ◌-◌, ◌*◌, ◌/◌, ◌%◌, ◌||◌, if◌then◌else◌, ltb, leb, Option, none, some, List, Run, ok,
  fault, ◌>>=◌, load,
}
use os_pi_is_cool.Fs.Bytes.{read_le32}
use os_pi_is_cool.Fs.Errors.{Result, success, error}
use os_pi_is_cool.Fs.Layout.{Layout}
use os_pi_is_cool.Fs.Store.{Store}

-- What the functions below read of `struct inode_st`: `metadata.i_blocks` and the array `blocks`.
pub record Inode : Type 0 where
  pub i_blocks : ℕ
  pub blocks : List ℕ

-- A buffer after a read into it: a failed one leaves what `kmalloc` gave.
abbrev pub data_of : List ℕ → Result (List ℕ) → List ℕ
data_of buf (success b) = b
data_of buf (error e) = buf

-- `BLOCKS_IN_SINGLE_PTR`; a `block_no_t` has four bytes.
abbrev pub blocks_in_single_ptr : Layout → ℕ
blocks_in_single_ptr l = l.bytes_per_block / 4

abbrev pub blocks_in_double_ptr : Layout → ℕ
blocks_in_double_ptr l = blocks_in_single_ptr l * blocks_in_single_ptr l

abbrev pub blocks_in_triple_ptr : Layout → ℕ
blocks_in_triple_ptr l = blocks_in_double_ptr l * blocks_in_single_ptr l

-- As in Blocks, `memory` is what `kmalloc` returns for a block of data.
module _ (T : Store) (memory : Option (List ℕ)) (l : Layout) where
  -- The result of the read is not looked at. Where `kmalloc` gives NULL, NULL is accessed.
  pub get_block_num_from_disk_ptr : ℕ → ℕ → T.S → Run (ℕ × T.S)
  get_block_num_from_disk_ptr ptr_block_num idx s = elim memory [
    | none ↦ fault
    | some buf ↦ T.read_block ptr_block_num s >>= λ (r, s').
        read_le32 (data_of buf r) (4 * idx) >>= λ n. ok (n, s')
  ]

  -- The case for double pointers.
  pub from_double_ptr : Inode → ℕ → T.S → Run (ℕ × T.S)
  from_double_ptr inode block_num s =
      let at = block_num - blocks_in_single_ptr l - 12 in
      load inode.blocks 13 >>= λ p.
      get_block_num_from_disk_ptr p (at / blocks_in_double_ptr l) s >>= λ (single, s').
      get_block_num_from_disk_ptr single (at % blocks_in_double_ptr l) s'

  -- The case for triple pointers.
  pub from_triple_ptr : Inode → ℕ → T.S → Run (ℕ × T.S)
  from_triple_ptr inode block_num s =
      let at = block_num - blocks_in_double_ptr l - blocks_in_single_ptr l - 12 in
      let below = at % blocks_in_triple_ptr l in
      load inode.blocks 14 >>= λ p.
      get_block_num_from_disk_ptr p (at / blocks_in_triple_ptr l) s >>= λ (double, s').
      get_block_num_from_disk_ptr double (below / blocks_in_double_ptr l) s' >>= λ (single, s'').
      get_block_num_from_disk_ptr single (below % blocks_in_double_ptr l) s''

  pub get_block_num_from_inode : Inode → ℕ → T.S → Run (ℕ × T.S)
  get_block_num_from_inode inode block_num s =
      if leb inode.i_blocks block_num
      then ok (0, s)
      else if ltb block_num 12 || leb inode.i_blocks 15
      then (load inode.blocks block_num >>= λ n. ok (n, s))
      else if ltb block_num (12 + blocks_in_single_ptr l)
      then (load inode.blocks 12 >>= λ p. get_block_num_from_disk_ptr p (block_num - 12) s)
      else if ltb block_num (12 + blocks_in_single_ptr l + blocks_in_double_ptr l)
      then from_double_ptr inode block_num s
      else from_triple_ptr inode block_num s
