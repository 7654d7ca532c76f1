-- ===== src/Fs/Store.antt =====
-- Blocks by number, as the code above the cache sees them: `read_block` and `write_block`, with what
-- that code relies on. The cache fills this interface (Fs/Cache/Blocks).
use os_pi_is_cool.Base.{ℕ, ◌≡◌, ◌≢◌, ◌<◌, List, length, Run, Ends}
use os_pi_is_cool.Fs.Errors.{Result, success, error, file_read_error, file_write_error}

-- How a read of a block ends in a state with the blocks `old`: the block, or a reason; nothing has
-- changed.
pub data ReadEnds {S : Type 0} (Good : S → Type 0) (view : S → ℕ → List ℕ) (fails : Type 0) (s : S)
    (n : ℕ) : Result (List ℕ) × S → Type 0 where
  read :
      {b : List ℕ} {s' : S}
      → Good s'
      → ((m : ℕ) → view s' m ≡ view s m)
      → b ≡ view s n
      → ReadEnds Good view fails s n (success b, s')
  not_read :
      {s' : S}
      → Good s'
      → ((m : ℕ) → view s' m ≡ view s m)
      → fails
      → ReadEnds Good view fails s n (error file_read_error, s')

-- How a write ends, where the blocks below `count` are in use: only block `n` may have changed.
pub data WriteEnds {S : Type 0} (Good : S → Type 0) (view : S → ℕ → List ℕ) (count : ℕ)
    (fails : Type 0) (s : S) (n : ℕ) (b : List ℕ) : Result Unit × S → Type 0 where
  written :
      {s' : S}
      → Good s'
      → view s' n ≡ b
      → ((m : ℕ) → m < count → m ≢ n → view s' m ≡ view s m)
      → WriteEnds Good view count fails s n b (success tt, s')
  not_written :
      {s' : S}
      → Good s'
      → ((m : ℕ) → m < count → m ≢ n → view s' m ≡ view s m)
      → fails
      → WriteEnds Good view count fails s n b (error file_write_error, s')

-- A state `S` that is `Good` has `count` blocks of `block_bytes` bytes. A call returns, and may fail
-- only for the reasons `ReadFails` and `WriteFails`.
pub record Store : Type 1 where
  pub S : Type 0
  pub block_bytes : ℕ
  pub count : ℕ
  pub read_block : ℕ → S → Run (Result (List ℕ) × S)
  pub write_block : List ℕ → ℕ → S → Run (Result Unit × S)
  pub Good : S → Type 0
  pub view : S → ℕ → List ℕ
  pub ReadFails : S → ℕ → Type 0
  pub WriteFails : S → ℕ → List ℕ → Type 0
  pub view_bytes : (s : S) (n : ℕ) → length (view s n) ≡ block_bytes
  pub read_block_law :
      (s : S) (n : ℕ) → Good s → Ends (ReadEnds Good view (ReadFails s n) s n) ⊥ (read_block n s)
  pub write_block_law :
      (s : S) (n : ℕ) (b : List ℕ)
      → Good s
      → length b ≡ block_bytes
      → Ends (WriteEnds Good view count (WriteFails s n b) s n b) ⊥ (write_block b n s)
