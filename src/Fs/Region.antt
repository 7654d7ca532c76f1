-- ===== src/Fs/Region.antt =====
-- Which blocks of the device the file system may use: `configure_default_fs_region` of
-- kernel/fs/disk.c, which reads the partition table.
pub mod Within
use os_pi_is_cool.Base.{
  ℕ, zero, suc, ◌+◌, ◌-◌, ◌*◌, ◌/◌, ◌%◌, ◌^◌, bit_or, Bool, true, false, not, ◌&&◌, ◌||◌,
  if◌then◌else◌, ◌==◌, ltb, leb, Option, none, some, List, [], ◌∷◌, ◌++◌, drop, length, Run, ok,
  ◌>>=◌, load,
}
use os_pi_is_cool.Fs.Errors.{Result, success, error, invalid_args, file_read_error}
use os_pi_is_cool.Fs.Device.{Device, Region, fs_set_block_region, set_fs_region_after_partition}
use os_pi_is_cool.Fs.Bytes.{buffer_size, read_into, read_le32}
use os_pi_is_cool.Fs.Gpt.{configure_gpt_fs_region}

abbrev pub mbr_type_is_boot_partition : ℕ → Bool
mbr_type_is_boot_partition type =
    type == 0x01
    || type == 0x04
    || type == 0x06
    || type == 0x0b
    || type == 0x0c
    || type == 0x0e
    || type == 0xef

-- The partition to fall back on: the first one that is not empty, as an offset in `mbr`.
abbrev pub fall_back : Device → List ℕ → Option ℕ → Run (Result Region)
fall_back d mbr none = ok (error invalid_args)
fall_back d mbr (some at) = do
  start ← read_le32 mbr (at + 8)
  blocks ← read_le32 mbr (at + 12)
  ok (set_fs_region_after_partition start blocks d.block_get_count)

abbrev pub or_else : Option ℕ → ℕ → Option ℕ
or_else none at = some at
or_else (some first) at = some first

-- The loop from partition `i`, with `left` of the four to go; `gpt` is the buffer of
-- `configure_gpt_fs_region`.
pub scan_partitions : Device → List ℕ → List ℕ → ℕ → ℕ → Option ℕ → Run (Result Region)
scan_partitions d mbr gpt zero i fallback = fall_back d mbr fallback
scan_partitions d mbr gpt (suc left) i fallback =
    let at = 446 + i * 16 in
    load mbr (at + 4) >>= λ type. read_le32 mbr (at + 8) >>= λ start.
    read_le32 mbr (at + 12) >>= λ blocks.
    let skip = scan_partitions d mbr gpt left (i + 1) fallback in
    let rest = scan_partitions d mbr gpt left (i + 1) (or_else fallback at) in
    if blocks == 0
    then skip
    else if type == 0xee
    then configure_gpt_fs_region d gpt
    else if mbr_type_is_boot_partition type
    then ok (set_fs_region_after_partition start blocks d.block_get_count)
    else rest

-- The boot signature, and the table behind it.
pub read_mbr : Device → List ℕ → List ℕ → Run (Result Region)
read_mbr d mbr gpt = load mbr 510 >>= λ b510. load mbr 511 >>= λ b511.
    if not (b510 == 0x55) || not (b511 == 0xaa)
    then ok (error invalid_args)
    else scan_partitions d mbr gpt 4 0 none

-- The two lists are the buffers on the stack of this function and of `configure_gpt_fs_region`.
pub configure_default_fs_region : Device → List ℕ → List ℕ → Run (Result Region)
configure_default_fs_region d mbr gpt =
    if d.block_get_count == 0 || d.block_get_size == 0 || ltb buffer_size d.block_get_size
    then ok (error invalid_args)
    else if d.is_qemu
    then ok (fs_set_block_region 0 d.block_get_count)
    else elim (read_into d 0 mbr) [
      | none ↦ ok (error file_read_error)
      | some table ↦ read_mbr d table gpt
    ]
