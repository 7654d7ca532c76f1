-- ===== src/Fs/Cache/Blocks.antt =====
-- The cache behind its interface: `read_block` and `write_block` on a coherent disk are those of a
-- store of blocks.
use os_pi_is_cool.Base.{
  ℕ, ◌+◌, ◌%◌, ◌^◌, ◌<◌, ◌≡◌, sym, subst, ap, ap₂, ◌∙◌, Option, List, length, take_all, Ends,
  returns, Ends-bind, Ends-mono,
}
use os_pi_is_cool.Fs.Errors.{Result, success, error}
use os_pi_is_cool.Fs.Device.{Region}
use os_pi_is_cool.Fs.Driver.{Driver}
use os_pi_is_cool.Fs.Store.{Store, ReadEnds, read, not_read, WriteEnds, written, not_written}
use os_pi_is_cool.Fs.Cache.{Node, Disk, max_size, copy_out, read_block, write_block}
use os_pi_is_cool.Fs.Cache.Coherent.{place, view, IsCoherent, ReadFails, WriteFails}
use os_pi_is_cool.Fs.Cache.Through.{
  HasMemory, Added, added, not_added, lru_cache_add_to_front-Added,
}
use os_pi_is_cool.Fs.Cache.Update.{Updated, updated, not_updated, lru_cache_update_data-Updated}

module _ (D : Driver) (kmalloc : ℕ → Option (List ℕ)) (memory : HasMemory kmalloc) where
  -- A disk in the region with a coherent cache.
  abbrev pub IsDisk : Region → Disk D → Type 0
  IsDisk r d = IsCoherent D max_size d × (d.region ≡ r)

  same_view :
      (d d' : Disk D)
      → d'.device ≡ d.device
      → d'.region ≡ d.region
      → (n : ℕ) → view D d' n ≡ view D d n
  same_view d d' e f n = ap₂ (λ s (r : Region). D.contents s ((r.base + n) % 2 ^ 64)) e f

  copy_out_lem :
      (r : Region) (d : Disk D) (n : ℕ) (x : Result Node × Disk D)
      → IsDisk r d
      → Added D d n x
      → ReadEnds (IsDisk r) (view D) (ReadFails D d n) d n (copy_out D d.bytes_per_block x)
  copy_out_lem r d n (success m, d') h (added (c, k) v l b) =
      read (c, k.0 ∙ h.1) (same_view d d' v k.0)
        (take_all d.bytes_per_block m.bytes (ap length b ∙ D.sized _ _ ∙ sym h.0.sized) ∙ b)
  copy_out_lem r d n (error e, d') h (not_added (c, k) v f) =
      not_read (c, k.0 ∙ h.1) (same_view d d' v k.0) f

  -- On a disk whose cache has at most 12 nodes, which all agree with the device, and with memory to
  -- be had: `read_block` returns what the device has in that block of the file system and leaves
  -- every block as it is, or returns FILE_READ_ERROR, and then the block is not in the region or the
  -- device refused the read. The cache still has at most 12 nodes and agrees with the device.
  pub read_block_lem :
      (r : Region) (d : Disk D) (n : ℕ)
      → IsDisk r d
      → Ends (ReadEnds (IsDisk r) (view D) (ReadFails D d n) d n) ⊥ (read_block D kmalloc n d)
  unfolding read_block
  read_block_lem r d n h =
      Ends-bind (lru_cache_add_to_front-Added D kmalloc memory d n h.0)
        (λ x a. returns (copy_out_lem r d n x h a))

  written_lem :
      (r : Region) (d : Disk D) (n : ℕ) (b : List ℕ) (x : Result Unit × Disk D)
      → IsDisk r d
      → Updated D d n b x
      → WriteEnds (IsDisk r) (view D) r.count (WriteFails D d n b) d n b x
  written_lem r d n b (success u, d') h (updated (c, k) l w o) =
      written (c, k.0 ∙ h.1) w (λ m q. o m (subst (λ z. m < z.count) (sym h.1) q))
  written_lem r d n b (error e, d') h (not_updated (c, k) f o) =
      not_written (c, k.0 ∙ h.1) (λ m q. o m (subst (λ z. m < z.count) (sym h.1) q)) f

  -- On a disk whose cache has at most 12 nodes, which all agree with the device, with memory to be
  -- had, and for data of one block: `write_block` puts the data on the device, in that block of the file system, and leaves all other blocks as they are, or returns
  -- FILE_WRITE_ERROR, and then the block is not in the region or the device refused the write. The
  -- cache still has at most 12 nodes and agrees with the device, also after an error.
  pub write_block_lem :
      (r : Region) (d : Disk D) (n : ℕ) (b : List ℕ)
      → IsDisk r d
      → length b ≡ D.block_get_size
      → Ends
          (WriteEnds (IsDisk r) (view D) r.count (WriteFails D d n b) d n b)
          ⊥
          (write_block D kmalloc b n d)
  unfolding write_block
  write_block_lem r d n b h l =
      Ends-mono (lru_cache_update_data-Updated D kmalloc memory d n b h.0 l)
        (λ x u. written_lem r d n b x h u)

  abbrev pub cached_store : Region → Store
  cached_store r = record {
    S = Disk D;
    block_bytes = D.block_get_size;
    count = r.count;
    read_block = read_block D kmalloc;
    write_block = write_block D kmalloc;
    Good = IsDisk r;
    view = view D;
    ReadFails = ReadFails D;
    WriteFails = WriteFails D;
    view_bytes = λ d n. D.sized d.device (place D d n);
    read_block_law = λ d n h. read_block_lem r d n h;
    write_block_law = λ d n b h l. write_block_lem r d n b h l;
  }
