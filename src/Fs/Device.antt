-- ===== src/Fs/Device.antt =====
-- The block device as the file system sees it when it looks for its place, and that place
-- (kernel/fs/disk.c). `uint64_t` sums wrap.
pub mod Place
use os_pi_is_cool.Base.{
  ℕ, ◌+◌, ◌-◌, ◌%◌, ◌^◌, Bool, ◌||◌, if◌then◌else◌, ◌==◌, ltb, leb, Option, List,
}
use os_pi_is_cool.Fs.Errors.{Result, success, error, invalid_args}

-- `fs_base_block` and `fs_block_count`.
pub record Region : Type 0 where
  pub base : ℕ
  pub count : ℕ

-- The block device: `block_get_count`, `block_get_size`, and what `block_read` stores, if it
-- returns 0. `is_qemu` is the build for QEMU, which has no partitions.
pub record Device : Type 0 where
  pub is_qemu : Bool
  pub block_get_count : ℕ
  pub block_get_size : ℕ
  pub block_read : ℕ → Option (List ℕ)

-- `fs_set_block_region`, into an empty pair of variables.
pub fs_set_block_region : ℕ → ℕ → Result Region
fs_set_block_region base_block block_count =
    if block_count == 0
    then error invalid_args
    else if ltb ((base_block + block_count) % 2 ^ 64) base_block
    then error invalid_args
    else success (record { base = base_block; count = block_count })

pub set_fs_region_after_partition : ℕ → ℕ → ℕ → Result Region
set_fs_region_after_partition partition_start partition_blocks device_blocks =
    let fs_base = (partition_start + partition_blocks) % 2 ^ 64 in
    if partition_blocks == 0
      || leb fs_base partition_start
      || device_blocks == 0
      || leb device_blocks fs_base
    then error invalid_args
    else fs_set_block_region fs_base (device_blocks - fs_base)
