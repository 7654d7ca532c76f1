-- ===== src/Fs/Mount/Again.antt =====
-- A file system that `mkfs` made is mounted with the layout that it was made with.
use os_pi_is_cool.Base.{
  ℕ, ◌≡◌, subst, ap, ◌∙◌, false, ◌||◌, ◌==◌, ltb, if-elim, Option, some, arith,
}
use os_pi_is_cool.Fs.Errors.{Result, success}
use os_pi_is_cool.Fs.Device.{Region}
use os_pi_is_cool.Fs.Bytes.{buffer_size}
use os_pi_is_cool.Fs.Layout.{Layout, Superblock, superblock_of, mkfs}
use os_pi_is_cool.Fs.Layout.Mkfs.{Made, made, mkfs_lem, config_bounds, accepted_layout}
use os_pi_is_cool.Fs.Mount.{mount_inode, mount_valid, mount_read, mount_region, mount_layout}

module _ (table config block_size : ℕ) (emptied : Result Unit) (configure : Result Region) where
  mounted :
      (region : Region) (l : Layout) (block_read : ℕ → Option Superblock)
      → Made table config block_size emptied configure (success (region, l))
      → block_read region.base ≡ some (superblock_of l)
      → mount_layout false block_size block_read configure ≡ success l
  unfolding mount_layout mount_inode
  mounted region l block_read (made e b f v) h =
      let bounds = config_bounds config block_size b in
      if-elim (λ r. r ≡ success l) (block_size == 0 || ltb buffer_size block_size)
        (λ t. absurd (ground arith))
        (λ t.
          ap (mount_region block_size block_read) e
          ∙ ap (mount_read block_size region) h
          ∙ ap (mount_valid (superblock_of l)) v
          ∙ accepted_layout l block_size region.count (omega arith) v)

  -- If `mkfs` goes on to write its blocks in a region with a layout, and its superblock is what the
  -- first block of that region has, then a later `mount` on the same device, which finds the same
  -- region, takes over the same layout.
  pub mount-mkfs :
      (region : Region) (l : Layout) (block_read : ℕ → Option Superblock)
      → mkfs table config block_size emptied configure ≡ success (region, l)
      → block_read region.base ≡ some (superblock_of l)
      → mount_layout false block_size block_read configure ≡ success l
  mount-mkfs region l block_read h k =
      mounted region l block_read
        (subst (Made table config block_size emptied configure) h
          (mkfs_lem table config block_size emptied configure))
        k
