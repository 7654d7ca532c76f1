-- ===== src/Fs/Driver.antt =====
-- What the file system asks of the block device (`block_read` and `block_write` of
-- kernel/disk/block.h, on the SD card or the disk of QEMU), for one block.
use os_pi_is_cool.Base.{ℕ, ◌≡◌, ◌≢◌, Bool, true, Option, some, List, length}

-- A read has the block or fails. A write replaces one block, or fails, and then that block may have
-- any content.
pub record Driver : Type 1 where
  pub St : Type 0
  pub block_get_size : ℕ
  pub block_read : St → ℕ → Option (List ℕ)
  pub block_write : St → ℕ → List ℕ → Bool × St
  pub contents : St → ℕ → List ℕ
  pub sized : (s : St) (n : ℕ) → length (contents s n) ≡ block_get_size
  pub read_same : (s : St) (n : ℕ) (b : List ℕ) → block_read s n ≡ some b → b ≡ contents s n
  pub write_same :
      (s : St) (n : ℕ) (b : List ℕ)
      → length b ≡ block_get_size
      → (block_write s n b).0 ≡ true
      → contents (block_write s n b).1 n ≡ b
  pub write_other :
      (s : St) (n : ℕ) (b : List ℕ) (m : ℕ)
      → m ≢ n
      → contents (block_write s n b).1 m ≡ contents s m
