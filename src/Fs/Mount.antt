-- ===== src/Fs/Mount.antt =====
-- `mount` of kernel/fs/disk.c up to the layout that it takes from the superblock, with `mount_inode`
-- of kernel/fs/inodes.c. What follows it (the test of the root directory, the open file table, the
-- seeding of files, procfs and devfs) is left out.
pub mod Again
use os_pi_is_cool.Base.{ℕ, Bool, true, false, ◌||◌, if◌then◌else◌, ◌==◌, ltb, Option, none, some}
use os_pi_is_cool.Fs.Errors.{
  Result, success, error, fs_already_mounted, invalid_args, file_read_error,
}
use os_pi_is_cool.Fs.Device.{Region}
use os_pi_is_cool.Fs.Bytes.{buffer_size}
use os_pi_is_cool.Fs.Layout.{Layout, Superblock, fs_set_layout, validate_superblock}

-- No caller passes NULL.
pub mount_inode : Superblock → Result Layout
mount_inode superblock = fs_set_layout superblock.layout

abbrev pub mount_valid : Superblock → Result Unit → Result Layout
mount_valid superblock (error e) = error e
mount_valid superblock (success u) = mount_inode superblock

abbrev pub mount_read : ℕ → Region → Option Superblock → Result Layout
mount_read block_size region none = error file_read_error
mount_read block_size region (some superblock) =
    mount_valid superblock (validate_superblock superblock block_size region.count)

abbrev pub mount_region : ℕ → (ℕ → Option Superblock) → Result Region → Result Layout
mount_region block_size block_read (error e) = error e
mount_region block_size block_read (success region) =
    mount_read block_size region (block_read region.base)

-- The arguments are `is_mounted`, the block size of the device, what `block_read` finds at a block
-- as a superblock, and what `configure_default_fs_region` returns.
pub mount_layout : Bool → ℕ → (ℕ → Option Superblock) → Result Region → Result Layout
mount_layout is_mounted block_size block_read configure =
    if is_mounted
    then error fs_already_mounted
    else if block_size == 0 || ltb buffer_size block_size
    then error invalid_args
    else mount_region block_size block_read configure
