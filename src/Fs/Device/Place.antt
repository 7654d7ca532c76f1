-- ===== src/Fs/Device/Place.antt =====
-- Where a region of the file system may lie on the device.
use os_pi_is_cool.Base.{
  ℕ, ◌+◌, ◌-◌, ◌<◌, ◌^◌, ◌%◌, ◌≡◌, ◌⊎◌, inr, true, none, ◌||◌, ◌==◌, ltb, leb, if-elim, arith,
}
use os_pi_is_cool.Fs.Errors.{Result, success, error, invalid_args, file_read_error}
use os_pi_is_cool.Fs.Device.{Device, Region, fs_set_block_region, set_fs_region_after_partition}

-- The region is not empty, ends with the device, and leaves its first block to the partition table,
-- if there is one; or the arguments were refused, or a block could not be read.
pub data Placed (d : Device) : Result Region → Type 0 where
  located :
      {r : Region}
      → 0 < r.count
      → r.base + r.count ≡ d.block_get_count
      → (d.is_qemu ≡ true) ⊎ (0 < r.base)
      → Placed d (success r)
  refused : Placed d (error invalid_args)
  unread : (n : ℕ) → d.block_read n ≡ none → Placed d (error file_read_error)

pub fs_set_block_region-Placed :
    (d : Device) (base count : ℕ)
    → 0 < count
    → base + count ≡ d.block_get_count
    → (d.is_qemu ≡ true) ⊎ (0 < base)
    → Placed d (fs_set_block_region base count)
unfolding fs_set_block_region
fs_set_block_region-Placed d base count p e q =
    if-elim (Placed d) (count == 0) (λ _. refused)
      (λ _.
        if-elim (Placed d) (ltb ((base + count) % 2 ^ 64) base) (λ _. refused) (λ _. located p e q))

pub set_fs_region_after_partition-Placed :
    (d : Device) (start blocks : ℕ)
    → Placed d (set_fs_region_after_partition start blocks d.block_get_count)
unfolding set_fs_region_after_partition
set_fs_region_after_partition-Placed d start blocks =
    let base = (start + blocks) % 2 ^ 64 in
    if-elim (Placed d)
      (blocks == 0 || leb base start || d.block_get_count == 0 || leb d.block_get_count base)
      (λ _. refused)
      (λ h.
        fs_set_block_region-Placed d base (d.block_get_count - base) (ground arith) (ground arith)
          (inr (ground arith)))
