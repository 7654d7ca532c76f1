-- ===== src/Fs/Bytes.antt =====
-- Numbers and signatures in a buffer of bytes (kernel/fs/disk.c). A buffer on the stack is a list of
-- its 4096 bytes, with any content at first.
pub mod Read
use os_pi_is_cool.Base.{
  ℕ, ◌+◌, ◌*◌, ◌^◌, bit_or, Bool, true, false, not, if◌then◌else◌, ◌==◌, Option, none, some, List,
  [], ◌∷◌, ◌++◌, drop, length, Run, ok, ◌>>=◌, load,
}
use os_pi_is_cool.Fs.Device.{Device}

-- `FS_MOUNT_BLOCK_BUFFER_SIZE`.
abbrev pub buffer_size : ℕ
buffer_size = 4096

-- The bytes read, and the rest of the buffer as it was.
abbrev pub fill : List ℕ → List ℕ → List ℕ
fill bytes buffer = bytes ++ drop (length bytes) buffer

-- `read_le32(&data[at])`
pub read_le32 : List ℕ → ℕ → Run ℕ
read_le32 buf at = do
  b0 ← load buf at
  b1 ← load buf (at + 1)
  b2 ← load buf (at + 2)
  b3 ← load buf (at + 3)
  ok (bit_or (bit_or (bit_or b0 (b1 * 2 ^ 8)) (b2 * 2 ^ 16)) (b3 * 2 ^ 24))

-- `read_le64(&data[at])`
pub read_le64 : List ℕ → ℕ → Run ℕ
read_le64 buf at = do
  low ← read_le32 buf at
  high ← read_le32 buf (at + 4)
  ok (bit_or low (high * 2 ^ 32))

-- `bytes_equal(&data[at], bytes, count)`, for the array `bytes` of `count` constants.
pub bytes_equal : List ℕ → ℕ → List ℕ → Run Bool
bytes_equal buf at [] = ok true
bytes_equal buf at (y ∷ ys) = load buf at >>= λ x.
    let rest = bytes_equal buf (at + 1) ys in if not (x == y) then ok false else rest

abbrev pub read_into : Device → ℕ → List ℕ → Option (List ℕ)
read_into d block buf = elim (d.block_read block) [
  | none ↦ none
  | some bytes ↦ some (fill bytes buf)
]
