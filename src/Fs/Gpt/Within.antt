-- ===== src/Fs/Gpt/Within.antt =====
-- The scan of a GPT stays in its buffer, whatever the table says, and ends in a region.
use os_pi_is_cool.Base.{
  ℕ, zero, suc, ◌+◌, ◌*◌, ◌/◌, ◌%◌, ◌^◌, ◌<◌, ◌≤◌, ◌≡◌, refl, ◌∙◌, not, ◌||◌, ◌==◌, ltb, leb,
  if-elim, Option, none, some, List, length, Ends, returns, Ends-bind, Ends-if, arith,
}
use native.Mathlib.Nat.{mod-lt, mul-le-mul_right, div-mul-le_self, le-div_iff_mul-le}
use os_pi_is_cool.Fs.Errors.{Result, success, error, file_read_error}
use os_pi_is_cool.Fs.Device.{Device}
use os_pi_is_cool.Fs.Device.Place.{Placed, refused, unread, set_fs_region_after_partition-Placed}
use os_pi_is_cool.Fs.Bytes.{buffer_size}
use os_pi_is_cool.Fs.Bytes.Read.{
  Safe, Safe-bind, read_le32-Safe, read_le64-Safe, bytes_equal-Safe, IsSized, ReadInto, filled,
  read_into_lem, ReadInto-Ends,
}
use os_pi_is_cool.Fs.Gpt.{
  gpt_guid_rank, efi_system_guid, microsoft_basic_guid, unused_guid, Best, consider, Table,
  load_entries, scan_entries, gpt_signature, after_best, scan_table, read_table,
  configure_gpt_fs_region,
}

gpt_guid_rank-Safe : (buf : List ℕ) (at : ℕ) → at + 16 ≤ length buf → Safe (gpt_guid_rank buf at)
unfolding gpt_guid_rank
gpt_guid_rank-Safe buf at h = Safe-bind (bytes_equal-Safe buf at efi_system_guid h) (λ a.
    Safe-bind (bytes_equal-Safe buf at microsoft_basic_guid h)
      (λ b. Safe-bind (bytes_equal-Safe buf at unused_guid h) (λ c. returns tt)))

consider-Safe :
    (buf : List ℕ) (at n : ℕ) (best : Best) → at + 48 ≤ length buf → Safe (consider buf at n best)
unfolding consider
consider-Safe buf at n best h = Safe-bind (gpt_guid_rank-Safe buf at (omega arith)) (λ rank.
    Ends-if (rank == 0) (λ _. returns tt)
      (λ _.
        Safe-bind (read_le64-Safe buf (at + 32) (omega arith))
          (λ first. Safe-bind (read_le64-Safe buf (at + 40) (omega arith)) (λ last. returns tt))))

load_entries_lem :
    (d : Device) (n : ℕ) (loaded : Option ℕ) (buf : List ℕ)
    → IsSized d
    → d.block_get_size ≤ length buf
    → ReadInto d buf (load_entries d n loaded buf)
unfolding load_entries
load_entries_lem d n none buf w h = read_into_lem d n buf w h
load_entries_lem d n (some m) buf w h =
    if-elim (ReadInto d buf) (n == m) (λ _. filled refl) (λ _. read_into_lem d n buf w h)

-- How the scan of the entries ends.
data Scanned (d : Device) : Result Best → Type 0 where
  scanned : {best : Best} → Scanned d (success best)
  stuck : (n : ℕ) → d.block_read n ≡ none → Scanned d (error file_read_error)

-- The entries of one block lie in it.
entry_fits :
    (i n size block_size : ℕ) → 0 < n → n * size ≤ block_size → i % n * size + size ≤ block_size
entry_fits i n size block_size p h = grind (arith, mod-lt i p, mul-le-mul_right size (mod-lt i p))

scan_entries_lem :
    (d : Device) (t : Table) (left i : ℕ) (loaded : Option ℕ) (buf : List ℕ) (best : Best)
    → IsSized d
    → d.block_get_size ≤ length buf
    → 128 ≤ t.entry_size
    → 0 < t.entries_per_block
    → t.entries_per_block * t.entry_size ≤ d.block_get_size
    → Ends (Scanned d) ⊥ (scan_entries d t left i loaded buf best)
unfolding scan_entries
scan_entries_lem d t zero i loaded buf best w h p q r = returns scanned
scan_entries_lem d t (suc left) i loaded buf best w h p q r =
    let block = (t.entries_lba + i / t.entries_per_block) % 2 ^ 64 in
    Ends-if (leb d.block_get_count block) (λ _. returns scanned)
      (λ _.
        ReadInto-Ends (load_entries_lem d block loaded buf w h)
          (λ buf' e.
            Ends-bind
              (consider-Safe buf' (i % t.entries_per_block * t.entry_size) d.block_get_count best
                (omega (arith, entry_fits i _ _ _ q r)))
              (λ best' _.
                scan_entries_lem d t left (i + 1) (some block) buf' best' w (omega arith) p q r))
          (λ n e. stuck n e))

after_best-Placed :
    (d : Device) (found : Result Best)
    → Scanned d found
    → Placed d (after_best d.block_get_count found)
after_best-Placed d (success best) h =
    if-elim (Placed d) (best.rank == 0) (λ _. refused)
      (λ _. set_fs_region_after_partition-Placed d best.start best.blocks)
after_best-Placed d (error e) (stuck n h) = unread n h

scan_table-Placed :
    (d : Device) (buf : List ℕ) (entries_lba entry_count entry_size : ℕ)
    → IsSized d
    → d.block_get_size ≤ length buf
    → Ends (Placed d) ⊥ (scan_table d buf entries_lba entry_count entry_size)
unfolding scan_table
scan_table-Placed d buf lba count size w h =
    Ends-if
      (lba == 0
        || count == 0
        || ltb size 128
        || ltb d.block_get_size size
        || not (d.block_get_size % size == 0))
      (λ _. returns refused)
      (λ k.
        Ends-bind
          (scan_entries_lem d
            (record {
              entries_lba = lba;
              entry_size = size;
              entries_per_block = d.block_get_size / size;
            })
            count 0 none buf (record { rank = 0; start = 0; blocks = 0 }) w h (ground arith)
            ((le-div_iff_mul-le (ground arith)).1 (ground arith))
            (div-mul-le_self d.block_get_size size))
          (λ found m. returns (after_best-Placed d found m)))

read_table-Placed :
    (d : Device) (buf : List ℕ)
    → IsSized d
    → length buf ≡ buffer_size
    → d.block_get_size ≤ length buf
    → Ends (Placed d) ⊥ (read_table d buf)
unfolding read_table
read_table-Placed d buf w e h = Ends-bind (read_le64-Safe buf 72 (omega arith)) (λ lba _.
    Ends-bind (read_le32-Safe buf 80 (omega arith)) (λ count _.
      Ends-bind (read_le32-Safe buf 84 (omega arith))
        (λ size _. scan_table-Placed d buf lba count size w h)))

pub configure_gpt_fs_region-Placed :
    (d : Device) (buf : List ℕ)
    → IsSized d
    → length buf ≡ buffer_size
    → Ends (Placed d) ⊥ (configure_gpt_fs_region d buf)
unfolding configure_gpt_fs_region
configure_gpt_fs_region-Placed d buf w e =
    Ends-if (d.block_get_size == 0 || ltb buffer_size d.block_get_size) (λ _. returns refused)
      (λ k.
        ReadInto-Ends (read_into_lem d 1 buf w (ground arith))
          (λ header e'.
            Ends-bind (bytes_equal-Safe header 0 gpt_signature (omega arith)) (λ is_gpt _.
              Ends-if (not is_gpt) (λ _. returns refused)
                (λ _. read_table-Placed d header w (e' ∙ e) (ground arith))))
          (λ n h. unread n h))
