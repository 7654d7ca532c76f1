-- ===== src/Fs/Cache.antt =====
-- The cache of blocks: kernel/fs/caches/lru_cache.c, and `read_block` and `write_block` of
-- kernel/fs/disk.c, which use it under a lock. The linked list of nodes is a list, head first, and a
-- pointer to a node is its place in the list; `size` is kept beside it. The counters wrap at 32 bits.
pub mod Nodes
pub mod Coherent
pub mod Through
pub mod Update
pub mod Blocks
pub mod Empty
use os_pi_is_cool.Base.{
  ℕ, zero, suc, ◌+◌, ◌-◌, ◌%◌, ◌^◌, Bool, true, false, ◌||◌, if◌then◌else◌, ◌==◌, ltb, leb, Option,
  none, some, List, [], ◌∷◌, length, take, Run, ok, fault, ◌>>=◌,
}
use os_pi_is_cool.Fs.Errors.{
  Result, success, error, invalid_args, file_read_error, file_write_error,
}
use os_pi_is_cool.Fs.Device.{Region}
use os_pi_is_cool.Fs.Driver.{Driver}

-- `MAX_SIZE`.
abbrev pub max_size : ℕ
max_size = 12

-- `struct node_st`.
pub record Node : Type 0 where
  pub bytes : List ℕ
  pub dirty : Bool
  pub block : ℕ

-- The device, the numbers of disk.c that the cache reads, and the variables of the cache.
pub record Disk (D : Driver) : Type 0 where
  pub device : D.St
  pub region : Region
  pub bytes_per_block : ℕ
  pub nodes : List Node
  pub size : ℕ
  pub cache_hits : ℕ
  pub cache_misses : ℕ
  pub cache_evictions : ℕ

-- `struct lru_cache_stats`.
pub record Stats : Type 0 where
  pub capacity_blocks : ℕ
  pub used_blocks : ℕ
  pub hits : ℕ
  pub misses : ℕ
  pub evictions : ℕ
  pub dirty_blocks : ℕ

abbrev pub count_up : ℕ → ℕ
count_up n = (n + 1) % 2 ^ 32

pub map_fs_block_to_disk_block : Region → ℕ → Result ℕ
map_fs_block_to_disk_block r num =
    if r.count == 0 || leb r.count num
    then error invalid_args
    else success ((r.base + num) % 2 ^ 64)

-- The loop of `lru_cache_get_block`, with so many of the `size` rounds to go.
pub find_node : ℕ → ℕ → List Node → Run (Option ℕ)
find_node block zero ns = ok none
find_node block (suc left) [] = fault
find_node block (suc left) (n ∷ ns) =
    let rest = find_node block left ns in
    if n.block == block
    then ok (some 0)
    else rest >>= λ found. ok (elim found [ none ↦ none | some i ↦ some (suc i) ])

-- A node taken out of the list, and the list.
pub take_out : ℕ → List Node → Run (Node × List Node)
take_out i [] = fault
take_out zero (n ∷ ns) = ok (n, ns)
take_out (suc i) (n ∷ ns) = take_out i ns >>= λ (m, rest). ok (m, n ∷ rest)

-- The tail taken out.
pub take_last : List Node → Run (Node × List Node)
take_last [] = fault
take_last (n ∷ []) = ok (n, [])
take_last (n ∷ m ∷ ns) = take_last (m ∷ ns) >>= λ (last, rest). ok (last, n ∷ rest)

-- The functions on a disk of the driver.
module _ (D : Driver) where
  abbrev pub from_device : Option (List ℕ) → Result (List ℕ)
  from_device none = error file_read_error
  from_device (some b) = success b

  pub read_block_data : Disk D → ℕ → Result (List ℕ)
  read_block_data d num = elim (map_fs_block_to_disk_block d.region num) [
    | error e ↦ error file_read_error
    | success at ↦ from_device (D.block_read d.device at)
  ]

  abbrev pub to_device : Disk D → Bool × D.St → Result Unit × Disk D
  to_device d (done, s) =
      (if done then success tt else error file_write_error, record d { device = s })

  pub write_block_data : Disk D → List ℕ → ℕ → Result Unit × Disk D
  write_block_data d bytes num = elim (map_fs_block_to_disk_block d.region num) [
    | error e ↦ (error file_write_error, d)
    | success at ↦ to_device d (D.block_write d.device at bytes)
  ]

  pub lru_cache_get_block : ℕ → Disk D → Run (Option ℕ)
  lru_cache_get_block block d = find_node block d.size d.nodes

  pub lru_cache_remove_node : ℕ → Disk D → Run (Node × Disk D)
  lru_cache_remove_node i d =
      take_out i d.nodes >>= λ (n, ns). ok (n, record d { nodes = ns; size = d.size - 1 })

  -- What `lru_cache_remove_back` does with the node that it took out.
  abbrev pub flush : Disk D → Node → Result Unit × Disk D
  flush d n = if n.dirty then write_block_data d n.bytes n.block else (success tt, d)

  pub lru_cache_remove_back : Disk D → Run (Result Unit × Disk D)
  lru_cache_remove_back d = take_last d.nodes >>= λ (n, ns). ok (
      flush
        (record d { nodes = ns; size = d.size - 1; cache_evictions = count_up d.cache_evictions })
        n)

  -- The node becomes the head, and the tail goes if they are too many.
  pub push_front : Node → Disk D → Run (Result Unit × Disk D)
  push_front n d =
      let pushed = record d { nodes = n ∷ d.nodes; size = d.size + 1 } in
      if ltb max_size pushed.size then lru_cache_remove_back pushed else ok (success tt, pushed)

  abbrev pub with_node : Node → Result Unit × Disk D → Result Node × Disk D
  with_node n (error e, d) = (error e, d)
  with_node n (success u, d) = (success n, d)

  abbrev pub push_read : ℕ → Disk D → Result (List ℕ) → Run (Result Node × Disk D)
  push_read block d (error e) = ok (error e, d)
  push_read block d (success bytes) =
      let n : Node = record { bytes = bytes; dirty = false; block = block } in
      push_front n d >>= λ r. ok (with_node n r)

  -- The node is in the cache and becomes the head.
  pub add_found : ℕ → Disk D → Run (Result Node × Disk D)
  add_found i d =
      lru_cache_remove_node i d >>= λ (n, d'). push_front n d' >>= λ r. ok (with_node n r)

  abbrev pub push_written : Node → Result Unit × Disk D → Run (Result Unit × Disk D)
  push_written n (error e, d) = ok (error e, d)
  push_written n (success u, d) = push_front n d

  -- The data go to the device at once; the node of a block that is not written is given up.
  pub write_through : List ℕ → ℕ → Disk D → Run (Result Unit × Disk D)
  write_through data_bytes block d =
      let n : Node = record {
        bytes = take d.bytes_per_block data_bytes;
        dirty = false;
        block = block;
      } in
      push_written n (write_block_data d n.bytes block)

  -- The loop of `lru_cache_empty`, with rounds for as many nodes.
  pub empty_rounds : ℕ → Disk D → Run (Result Unit × Disk D)
  empty_rounds zero d = ok (success tt, d)
  empty_rounds (suc left) d =
      if length d.nodes == 0
      then ok (success tt, d)
      else lru_cache_remove_back d >>= λ (r, d').
          let rest = empty_rounds left d' in
          elim r [ error e ↦ ok (error e, d') | success u ↦ rest ]

  pub lru_cache_empty : Disk D → Run (Result Unit × Disk D)
  lru_cache_empty d = empty_rounds (length d.nodes) d

  abbrev pub copy_out : ℕ → Result Node × Disk D → Result (List ℕ) × Disk D
  copy_out count (error e, d) = (error e, d)
  copy_out count (success n, d) = (success (take count n.bytes), d)

  -- The loop of `lru_cache_get_stats`.
  pub count_dirty : List Node → ℕ
  count_dirty [] = 0
  count_dirty (n ∷ ns) = let rest = count_dirty ns in if n.dirty then (rest + 1) % 2 ^ 32 else rest

  pub lru_cache_get_stats : Disk D → Stats
  lru_cache_get_stats d = record {
    capacity_blocks = max_size;
    used_blocks = d.size;
    hits = d.cache_hits;
    misses = d.cache_misses;
    evictions = d.cache_evictions;
    dirty_blocks = count_dirty d.nodes;
  }

  -- The block is not in the cache; the arguments are the results of `kmalloc` for the node and for
  -- its bytes. The first is written through unchecked; the second is written by the driver, once the
  -- number of the block is known to be right.
  abbrev pub read_in : ℕ → Disk D → Option (List ℕ) → Option (List ℕ) → Run (Result Node × Disk D)
  read_in block d none buffer = fault
  read_in block d (some node) none = elim (map_fs_block_to_disk_block d.region block) [
    | error e ↦ ok (error file_read_error, d)
    | success at ↦ fault
  ]
  read_in block d (some node) (some buffer) = push_read block d (read_block_data d block)

  abbrev pub write_in :
      List ℕ → ℕ → Disk D → Option (List ℕ) → Option (List ℕ) → Run (Result Unit × Disk D)
  write_in data_bytes block d none buffer = ok (error file_write_error, d)
  write_in data_bytes block d (some node) none = ok (error file_write_error, d)
  write_in data_bytes block d (some node) (some buffer) = write_through data_bytes block d

  -- With `kmalloc`, which has so many bytes or none.
  module _ (kmalloc : ℕ → Option (List ℕ)) where
    pub add_missing : ℕ → Disk D → Run (Result Node × Disk D)
    add_missing block d = read_in block d (kmalloc 32) (kmalloc d.bytes_per_block)

    abbrev pub add_looked_up : ℕ → Disk D → Option ℕ → Run (Result Node × Disk D)
    add_looked_up block d none =
        add_missing block (record d { cache_misses = count_up d.cache_misses })
    add_looked_up block d (some i) = add_found i (record d { cache_hits = count_up d.cache_hits })

    pub lru_cache_add_to_front : ℕ → Disk D → Run (Result Node × Disk D)
    lru_cache_add_to_front block d =
        lru_cache_get_block block d >>= λ found. add_looked_up block d found

    abbrev pub update_looked_up : List ℕ → ℕ → Disk D → Option ℕ → Run (Result Unit × Disk D)
    update_looked_up data_bytes block d none =
        write_in data_bytes block (record d { cache_misses = count_up d.cache_misses }) (kmalloc 32)
          (kmalloc d.bytes_per_block)
    update_looked_up data_bytes block d (some i) =
        lru_cache_remove_node i (record d { cache_hits = count_up d.cache_hits }) >>= λ (n, d').
        write_through data_bytes block d'

    pub lru_cache_update_data : List ℕ → ℕ → Disk D → Run (Result Unit × Disk D)
    lru_cache_update_data data_bytes block d =
        lru_cache_get_block block d >>= λ found. update_looked_up data_bytes block d found

    pub read_block : ℕ → Disk D → Run (Result (List ℕ) × Disk D)
    read_block num d = lru_cache_add_to_front num d >>= λ r. ok (copy_out d.bytes_per_block r)

    pub write_block : List ℕ → ℕ → Disk D → Run (Result Unit × Disk D)
    write_block data_bytes num d = lru_cache_update_data data_bytes num d
