-- ===== src/Fs/Region/Within.antt =====
-- The choice of the region, from whatever the first blocks of the device contain.
use os_pi_is_cool.Base.{
  ℕ, zero, suc, ◌+◌, ◌*◌, ◌≤◌, ◌≡◌, refl, ◌∙◌, inl, not, ◌||◌, ◌==◌, ltb, Option, none, some, List,
  length, Ends, returns, Ends-bind, Ends-if, arith,
}
use os_pi_is_cool.Fs.Device.{Device}
use os_pi_is_cool.Fs.Device.Place.{
  Placed, refused, unread, set_fs_region_after_partition-Placed, fs_set_block_region-Placed,
}
use os_pi_is_cool.Fs.Bytes.{buffer_size}
use os_pi_is_cool.Fs.Bytes.Read.{load-Safe, read_le32-Safe, IsSized, read_into_lem, ReadInto-Ends}
use os_pi_is_cool.Fs.Gpt.Within.{configure_gpt_fs_region-Placed}
use os_pi_is_cool.Fs.Region.{
  mbr_type_is_boot_partition, fall_back, or_else, scan_partitions, read_mbr,
  configure_default_fs_region,
}

-- A partition that may be remembered lies in the table.
data InTable : Option ℕ → Type 0 where
  no_entry : InTable none
  entry : {at : ℕ} → at + 16 ≤ 510 → InTable (some at)

or_else-InTable : {o : Option ℕ} (at : ℕ) → InTable o → at + 16 ≤ 510 → InTable (or_else o at)
or_else-InTable at no_entry h = entry h
or_else-InTable at (entry k) h = entry k

fall_back-Placed :
    (d : Device) (mbr : List ℕ) (o : Option ℕ)
    → length mbr ≡ buffer_size
    → InTable o
    → Ends (Placed d) ⊥ (fall_back d mbr o)
fall_back-Placed d mbr none e no_entry = returns refused
fall_back-Placed d mbr (some at) e (entry h) =
    Ends-bind (read_le32-Safe mbr (at + 8) (omega arith)) (λ start _.
      Ends-bind (read_le32-Safe mbr (at + 12) (omega arith))
        (λ blocks _. returns (set_fs_region_after_partition-Placed d start blocks)))

scan_partitions-Placed :
    (d : Device) (mbr gpt : List ℕ) (left i : ℕ) (o : Option ℕ)
    → IsSized d
    → length mbr ≡ buffer_size
    → length gpt ≡ buffer_size
    → i + left ≡ 4
    → InTable o
    → Ends (Placed d) ⊥ (scan_partitions d mbr gpt left i o)
unfolding scan_partitions
scan_partitions-Placed d mbr gpt zero i o w e g n h = fall_back-Placed d mbr o e h
scan_partitions-Placed d mbr gpt (suc left) i o w e g n h =
    let at = 446 + i * 16 in
    Ends-bind (load-Safe mbr (at + 4) (omega arith)) (λ type _.
      Ends-bind (read_le32-Safe mbr (at + 8) (omega arith)) (λ start _.
        Ends-bind (read_le32-Safe mbr (at + 12) (omega arith)) (λ blocks _.
          Ends-if (blocks == 0)
            (λ _. scan_partitions-Placed d mbr gpt left (i + 1) o w e g (omega arith) h)
            (λ _.
              Ends-if (type == 0xee) (λ _. configure_gpt_fs_region-Placed d gpt w g)
                (λ _.
                  Ends-if (mbr_type_is_boot_partition type)
                    (λ _. returns (set_fs_region_after_partition-Placed d start blocks))
                    (λ _.
                      scan_partitions-Placed d mbr gpt left (i + 1) (or_else o at) w e g
                        (omega arith) (or_else-InTable at h (omega arith))))))))

read_mbr-Placed :
    (d : Device) (mbr gpt : List ℕ)
    → IsSized d
    → length mbr ≡ buffer_size
    → length gpt ≡ buffer_size
    → Ends (Placed d) ⊥ (read_mbr d mbr gpt)
unfolding read_mbr
read_mbr-Placed d mbr gpt w e g = Ends-bind (load-Safe mbr 510 (omega arith)) (λ b510 _.
    Ends-bind (load-Safe mbr 511 (omega arith)) (λ b511 _.
      Ends-if (not (b510 == 0x55) || not (b511 == 0xaa)) (λ _. returns refused)
        (λ _. scan_partitions-Placed d mbr gpt 4 0 none w e g refl no_entry)))

-- For buffers of 4096 bytes with any content, on a device whose reads store one block each: the
-- choice of the region reads no byte outside its buffers, whatever the partition tables say, and
-- returns. It returns a region that is not empty, that ends with the device, and that leaves the
-- first block of a device with partitions alone; or INVALID_ARGS; or FILE_READ_ERROR, and then a
-- block could not be read.
pub configure_default_fs_region_lem :
    (d : Device) (mbr gpt : List ℕ)
    → IsSized d
    → length mbr ≡ buffer_size
    → length gpt ≡ buffer_size
    → Ends (Placed d) ⊥ (configure_default_fs_region d mbr gpt)
unfolding configure_default_fs_region
configure_default_fs_region_lem d mbr gpt w e g =
    Ends-if (d.block_get_count == 0 || d.block_get_size == 0 || ltb buffer_size d.block_get_size)
      (λ _. returns refused)
      (λ k.
        Ends-if d.is_qemu
          (λ q.
            returns (
              fs_set_block_region-Placed d 0 d.block_get_count (ground arith) (omega arith)
                (inl q)))
          (λ _.
            ReadInto-Ends (read_into_lem d 0 mbr w (ground arith))
              (λ table e'. read_mbr-Placed d table gpt w (e' ∙ e) g) (λ n h. unread n h)))
