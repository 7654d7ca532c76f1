-- ===== src/Fs/Gpt.antt =====
-- The partition table of kind GPT: `configure_gpt_fs_region` of kernel/fs/disk.c and what it calls.
pub mod Within
use os_pi_is_cool.Base.{
  ℕ, zero, suc, ◌+◌, ◌-◌, ◌*◌, ◌/◌, ◌%◌, ◌^◌, Bool, not, ◌&&◌, ◌||◌, if◌then◌else◌, ◌==◌, ltb, leb,
  Option, none, some, List, [], ◌∷◌, Run, ok, ◌>>=◌,
}
use os_pi_is_cool.Fs.Errors.{Result, success, error, invalid_args, file_read_error}
use os_pi_is_cool.Fs.Device.{Device, Region, set_fs_region_after_partition}
use os_pi_is_cool.Fs.Bytes.{buffer_size, read_into, read_le32, read_le64, bytes_equal}

abbrev pub efi_system_guid : List ℕ
efi_system_guid =
    0x28 ∷ 0x73 ∷ 0x2a ∷ 0xc1 ∷ 0x1f ∷ 0xf8 ∷ 0xd2 ∷ 0x11 ∷ 0xba ∷ 0x4b ∷ 0x00 ∷ 0xa0 ∷ 0xc9 ∷ 0x3e
    ∷ 0xc9 ∷ 0x3b ∷ []

abbrev pub microsoft_basic_guid : List ℕ
microsoft_basic_guid =
    0xa2 ∷ 0xa0 ∷ 0xd0 ∷ 0xeb ∷ 0xe5 ∷ 0xb9 ∷ 0x33 ∷ 0x44 ∷ 0x87 ∷ 0xc0 ∷ 0x68 ∷ 0xb6 ∷ 0xb7 ∷ 0x26
    ∷ 0x99 ∷ 0xc7 ∷ []

abbrev pub unused_guid : List ℕ
unused_guid = 0 ∷ 0 ∷ 0 ∷ 0 ∷ 0 ∷ 0 ∷ 0 ∷ 0 ∷ 0 ∷ 0 ∷ 0 ∷ 0 ∷ 0 ∷ 0 ∷ 0 ∷ 0 ∷ []

abbrev pub gpt_guid_is_unused : List ℕ → ℕ → Run Bool
gpt_guid_is_unused buf at = bytes_equal buf at unused_guid

pub gpt_guid_rank : List ℕ → ℕ → Run ℕ
gpt_guid_rank buf at = do
  is_efi ← bytes_equal buf at efi_system_guid
  is_basic ← bytes_equal buf at microsoft_basic_guid
  is_unused ← gpt_guid_is_unused buf at
  ok (if is_efi then 3 else if is_basic then 2 else if not is_unused then 1 else 0)

-- The partition chosen so far; its rank is 0 if there is none.
pub record Best : Type 0 where
  pub rank : ℕ
  pub start : ℕ
  pub blocks : ℕ

-- An entry of rank `rank` that fits in the device, against the best one so far.
abbrev pub better_of : ℕ → ℕ → ℕ → ℕ → Best → Best
better_of device_blocks rank first_lba last_lba best =
    if ltb last_lba first_lba || leb device_blocks last_lba
    then best
    else if ltb best.rank rank || rank == best.rank && ltb first_lba best.start
    then record { rank = rank; start = first_lba; blocks = last_lba - first_lba + 1 }
    else best

-- The entry at `at` in the buffer.
pub consider : List ℕ → ℕ → ℕ → Best → Run Best
consider buf at device_blocks best = gpt_guid_rank buf at >>= λ rank.
    if rank == 0 then ok best else do
      first_lba ← read_le64 buf (at + 32)
      last_lba ← read_le64 buf (at + 40)
      ok (better_of device_blocks rank first_lba last_lba best)

-- What stays the same in the loop over the entries.
pub record Table : Type 0 where
  pub entries_lba : ℕ
  pub entry_size : ℕ
  pub entries_per_block : ℕ

-- The block of the table that an entry needs, unless the buffer holds it (`loaded_block`; `none` is
-- the number of no block).
pub load_entries : Device → ℕ → Option ℕ → List ℕ → Option (List ℕ)
load_entries d block none buf = read_into d block buf
load_entries d block (some loaded) buf = if block == loaded then some buf else read_into d block buf

-- The loop from entry `i`, with `left` entries to go.
pub scan_entries : Device → Table → ℕ → ℕ → Option ℕ → List ℕ → Best → Run (Result Best)
scan_entries d t zero i loaded buf best = ok (success best)
scan_entries d t (suc left) i loaded buf best =
    let block = (t.entries_lba + i / t.entries_per_block) % 2 ^ 64 in
    if leb d.block_get_count block
    then ok (success best)
    else elim (load_entries d block loaded buf) [
      | none ↦ ok (error file_read_error)
      | some buf' ↦
          consider buf' (i % t.entries_per_block * t.entry_size) d.block_get_count best
          >>= λ better. scan_entries d t left (i + 1) (some block) buf' better
    ]

abbrev pub gpt_signature : List ℕ
gpt_signature = 69 ∷ 70 ∷ 73 ∷ 32 ∷ 80 ∷ 65 ∷ 82 ∷ 84 ∷ []

abbrev pub after_best : ℕ → Result Best → Result Region
after_best device_blocks (error e) = error e
after_best device_blocks (success best) =
    if best.rank == 0
    then error invalid_args
    else set_fs_region_after_partition best.start best.blocks device_blocks

-- `i / n` and `i % n` stand under the test that `n` is not 0.
pub scan_table : Device → List ℕ → ℕ → ℕ → ℕ → Run (Result Region)
scan_table d buf entries_lba entry_count entry_size =
    if entries_lba == 0
      || entry_count == 0
      || ltb entry_size 128
      || ltb d.block_get_size entry_size
      || not (d.block_get_size % entry_size == 0)
    then ok (error invalid_args)
    else let t : Table = record {
      entries_lba = entries_lba;
      entry_size = entry_size;
      entries_per_block = d.block_get_size / entry_size;
    } in
      let start : Best = record { rank = 0; start = 0; blocks = 0 } in
      scan_entries d t entry_count 0 none buf start >>= λ found.
      ok (after_best d.block_get_count found)

-- The header of the table, in the buffer.
pub read_table : Device → List ℕ → Run (Result Region)
read_table d buf = do
  entries_lba ← read_le64 buf 72
  entry_count ← read_le32 buf 80
  entry_size ← read_le32 buf 84
  scan_table d buf entries_lba entry_count entry_size

-- The argument after the device is the buffer before the first read.
pub configure_gpt_fs_region : Device → List ℕ → Run (Result Region)
configure_gpt_fs_region d buf =
    if d.block_get_size == 0 || ltb buffer_size d.block_get_size
    then ok (error invalid_args)
    else elim (read_into d 1 buf) [
      | none ↦ ok (error file_read_error)
      | some header ↦ bytes_equal header 0 gpt_signature >>= λ is_gpt.
          if not is_gpt then ok (error invalid_args) else read_table d header
    ]
