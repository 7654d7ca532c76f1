-- ===== src/Fs/Bitmap.antt =====
-- Bitmaps of blocks and inodes on the device: `set_bit_in_bitmap_range` and
-- `find_free_from_bitmap_range` of kernel/fs/disk.c, each under a lock. A byte is a number below 256; `uint32_t` values wrap.
pub mod Bits
pub mod Search
pub mod Places
pub mod Find
pub mod Change
use os_pi_is_cool.Base.{
  ℕ, zero, suc, ◌+◌, ◌-◌, ◌*◌, ◌/◌, ◌%◌, ◌^◌, bit_and, bit_or, min, Bool, true, false, ◌||◌,
  if◌then◌else◌, ◌==◌, ltb, leb, Option, none, some, List, [], ◌∷◌, Run, ok, fault, ◌>>=◌, load,
  store,
}
use os_pi_is_cool.Fs.Errors.{Result, success, error, invalid_args, file_read_error, no_free_blocks}
use os_pi_is_cool.Fs.Store.{Store}

-- `1u << (7u - bit)`, for one of the 8 bits.
abbrev pub mask : ℕ → ℕ
mask bit = 2 ^ (7 - bit)

-- `data[bit / 8u] |= mask` and `data[bit / 8u] &= ~mask`.
pub change_bit : Bool → List ℕ → ℕ → Run (List ℕ)
change_bit set_bit bytes bit = load bytes (bit / 8) >>= λ b.
    let m = mask (bit % 8) in
    store bytes (bit / 8) (if set_bit then bit_or b m else bit_and b (255 - m))

-- The loop over the bits of a byte from `index`, with `left` rounds to go; the byte starts at bit
-- `first` of its block.
pub find_in_byte : ℕ → ℕ → ℕ → ℕ → ℕ → Option ℕ
find_in_byte zero index byte first valid = none
find_in_byte (suc left) index byte first valid =
    let rest = find_in_byte left (index + 1) byte first valid in
    if leb valid (first + index)
    then none
    else if bit_and byte (mask index) == 0
    then some index
    else rest

-- The loop over the bytes from `index_byte`, which the list starts with.
pub find_in_bytes : ℕ → ℕ → List ℕ → ℕ → Run (Option ℕ)
find_in_bytes zero index_byte bytes valid = ok none
find_in_bytes (suc left) index_byte [] valid = fault
find_in_bytes (suc left) index_byte (byte ∷ bytes) valid =
    let rest = find_in_bytes left (index_byte + 1) bytes valid in
    if byte == 0xff then rest else elim (find_in_byte 8 0 byte (index_byte * 8) valid) [
      | none ↦ rest
      | some index ↦ ok (some (index_byte * 8 + index))
    ]

module _ (T : Store) where
  abbrev pub bits_per_block : ℕ
  bits_per_block = T.block_bytes * 8

  abbrev pub bits_in_block : ℕ → ℕ → ℕ
  bits_in_block valid first = min (valid - first) bits_per_block

  abbrev pub stored : ℕ → Result Unit × T.S → Result ℕ × T.S
  stored found (error e, s) = (error e, s)
  stored found (success u, s) = (success found, s)

  -- A free bit in the block `num`, which has `bytes`.
  pub take_bit : Bool → ℕ → List ℕ → ℕ → ℕ → T.S → Run (Result ℕ × T.S)
  take_bit update num bytes first bit s =
      if update
      then (change_bit true bytes bit >>= λ bytes'.
          T.write_block bytes' num s >>= λ r. ok (stored ((first + bit) % 2 ^ 32) r))
      else ok (success ((first + bit) % 2 ^ 32), s)

  -- What a block of the bitmap has: a free bit, or nothing, and then `rest` goes on.
  abbrev pub search_read :
      Bool → ℕ → ℕ → ℕ → (T.S → Run (Result ℕ × T.S)) → Result (List ℕ) × T.S → Run (Result ℕ × T.S)
  search_read update valid num first rest (error e, s) = ok (error e, s)
  search_read update valid num first rest (success bytes, s) =
      let valid_in_block = bits_in_block valid first in
      find_in_bytes ((valid_in_block + 7) / 8) 0 bytes valid_in_block >>= λ found. elim found [
        | none ↦ rest s
        | some bit ↦ take_bit update num bytes first bit s
      ]

  -- The loop over the blocks of the bitmap from `index`, with `left` rounds to go.
  pub search_blocks : Bool → ℕ → ℕ → ℕ → ℕ → T.S → Run (Result ℕ × T.S)
  search_blocks update start valid zero index s = ok (error no_free_blocks, s)
  search_blocks update start valid (suc left) index s =
      let num = (start + index) % 2 ^ 32 in
      T.read_block num s >>= λ r.
      search_read update valid num (index * bits_per_block % 2 ^ 32)
        (λ s'. search_blocks update start valid left (index + 1) s') r

  -- The first argument is what `kmalloc` returns for a block of data; no caller passes NULL for the
  -- result.
  pub find_free_from_bitmap_range : Option (List ℕ) → ℕ → ℕ → ℕ → Bool → T.S → Run (Result ℕ × T.S)
  find_free_from_bitmap_range memory start blocks valid update s =
      if blocks == 0 || valid == 0 then ok (error invalid_args, s) else elim memory [
        | none ↦ ok (error file_read_error, s)
        | some buffer ↦ search_blocks update start valid blocks 0 s
      ]

  pub find_free_from_bitmap : Option (List ℕ) → ℕ → Bool → T.S → Run (Result ℕ × T.S)
  find_free_from_bitmap memory block update s =
      find_free_from_bitmap_range memory block 1 bits_per_block update s

  abbrev pub change_read : Bool → ℕ → ℕ → Result (List ℕ) × T.S → Run (Result Unit × T.S)
  change_read set_bit num bit (error e, s) = ok (error e, s)
  change_read set_bit num bit (success bytes, s) =
      change_bit set_bit bytes bit >>= λ bytes'. T.write_block bytes' num s

  pub set_bit_in_bitmap_range :
      Option (List ℕ) → ℕ → ℕ → ℕ → ℕ → Bool → T.S → Run (Result Unit × T.S)
  set_bit_in_bitmap_range memory start blocks valid bit set_bit s =
      if blocks == 0 || leb valid bit || leb blocks (bit / bits_per_block)
      then ok (error invalid_args, s)
      else elim memory [
        | none ↦ ok (error file_read_error, s)
        | some buffer ↦
            let num = (start + bit / bits_per_block) % 2 ^ 32 in
            T.read_block num s >>= λ r. change_read set_bit num (bit % bits_per_block) r
      ]
