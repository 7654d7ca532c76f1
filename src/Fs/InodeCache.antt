-- ===== src/Fs/InodeCache.antt =====
-- The cache of inodes (kernel/fs/caches/inode_cache.c). The linked list is the list of its nodes'
-- addresses, which stand for the nodes in a heap; what runs under `inode_cache_lock` is one step. The
-- contents of an inode are a parameter, and the results of `get_inode_raw` and `write_inode` are
-- arguments. A number of references is far from the ends of an `int`.
pub mod Find
pub mod Users
pub mod Sound
pub mod Change
pub mod Turns
pub mod Joins
pub mod Leaves
pub mod Reach
pub mod Empty
use os_pi_is_cool.Base.{
  ℕ, zero, suc, ◌+◌, ◌%◌, ◌^◌, Bool, true, false, not, ◌&&◌, ◌||◌, Option, none, some, List, [],
  ◌∷◌, ◌++◌, length, if◌then◌else◌, ◌==◌, Ptr, null,
}
use os_pi_is_cool.Thread.{update}
use os_pi_is_cool.Fs.Errors.{FsError, ℤ, pos, negsuc, Result, success, error, file_not_found}

-- `struct cache_ll_node_st` with its `struct cached_inode_st`; `load_error` is empty for SUCCESS.
pub record CacheNode (A : Type 0) : Type 0 where
  pub num_refs : ℤ
  pub loading : Bool
  pub load_error : Option FsError
  pub inode : A
  pub id : ℕ
  pub dirty : Bool

-- The variables of inode_cache.c, the nodes, what was written by `write_inode` and the nodes that
-- were freed.
pub record InodeCache (A : Type 0) : Type 0 where
  pub nodes : List Ptr
  pub heap : Ptr → CacheNode A
  pub hits : ℕ
  pub misses : ℕ
  pub evictions : ℕ
  pub written : List (A × ℕ)
  pub freed : List Ptr

pub record InodeCacheStats : Type 0 where
  pub capacity : ℕ
  pub used : ℕ
  pub hits : ℕ
  pub misses : ℕ
  pub evictions : ℕ
  pub dirty : ℕ

abbrev pub increment : ℤ → ℤ
increment (pos n) = pos (n + 1)
increment (negsuc zero) = pos 0
increment (negsuc (suc n)) = negsuc n

abbrev pub decrement : ℤ → ℤ
decrement (pos zero) = negsuc 0
decrement (pos (suc n)) = pos n
decrement (negsuc n) = negsuc (n + 1)

abbrev pub not_positive : ℤ → Bool
not_positive (pos zero) = true
not_positive (pos (suc n)) = false
not_positive (negsuc n) = true

-- The search, by the number of each node.
abbrev pub find_inode : ℕ → (Ptr → ℕ) → List Ptr → Option Ptr
find_inode id id_of [] = none
find_inode id id_of (p ∷ ps) = if id_of p == id then some p else find_inode id id_of ps

abbrev pub unlinked : Ptr → List Ptr → List Ptr
unlinked p [] = []
unlinked p (q ∷ qs) = if q == p then qs else q ∷ unlinked p qs

module _ {A : Type 0} where
  abbrev pub id_of : (Ptr → CacheNode A) → Ptr → ℕ
  id_of heap p = (heap p).id

  abbrev pub find_inode_in_cache : ℕ → InodeCache A → Option Ptr
  find_inode_in_cache id c = find_inode id (id_of c.heap) c.nodes

  abbrev pub write_node : Ptr → CacheNode A → InodeCache A → InodeCache A
  write_node p n c = record c { heap = update c.heap p n }

  abbrev pub unlink_cache_inode_locked : Ptr → InodeCache A → InodeCache A
  unlink_cache_inode_locked p c = record c {
    nodes = unlinked p c.nodes;
    evictions = (c.evictions + 1) % 2 ^ 32;
  }

  abbrev pub free_node : Ptr → InodeCache A → InodeCache A
  free_node p c = record c { freed = c.freed ++ p ∷ [] }

  -- `r` is the result of `write_inode`.
  abbrev pub flush_and_free_cache_inode :
      Ptr → Result Unit → InodeCache A → InodeCache A × Result Unit
  flush_and_free_cache_inode p r c =
      let n = c.heap p in
      if n.dirty
      then (
        free_node p (record (write_node p (record n { dirty = false }) c) {
          written = c.written ++ (n.inode, n.id) ∷ [];
        }),
        r,
      )
      else (free_node p c, success tt)

  abbrev pub new_node : ℕ → A → CacheNode A
  new_node id zeroed = record {
    num_refs = pos 1;
    loading = true;
    load_error = none;
    inode = zeroed;
    id = id;
    dirty = false;
  }

-- `empty_inode_cache` returns, or waits for another thread to load the node that it took off the list.
pub data Emptying : Type 0 where
  returned : Result Unit → Emptying
  waiting : Ptr → Emptying

-- What the first critical section of `get_inode_from_cache` found.
pub data Looked : Type 0 where
  no_memory : Looked
  hit miss : Ptr → Looked

module _ {A : Type 0} where
  abbrev pub looked_in : Ptr → CacheNode A → InodeCache A → Option Ptr → InodeCache A × Looked
  looked_in at new c (some p) =
      let n = c.heap p in
      (
        free_node at (record (write_node p (record n { num_refs = increment n.num_refs }) c) {
          hits = (c.hits + 1) % 2 ^ 32;
        }),
        hit p,
      )
  looked_in at new c none = (
    record (write_node at new c) { nodes = c.nodes ++ at ∷ []; misses = (c.misses + 1) % 2 ^ 32 },
    miss at,
  )

  -- `get_inode_from_cache` until it loads or waits; `at` is what `kmalloc` gave.
  abbrev pub look_up : Ptr → ℕ → A → InodeCache A → InodeCache A × Looked
  look_up at id zeroed c =
      if at == null
      then (c, no_memory)
      else looked_in at (new_node id zeroed) c (find_inode_in_cache id c)

  -- The critical section behind `get_inode_raw`, which stores the inode, or fails; and what the call
  -- returns.
  abbrev pub after_load : Ptr → Result A → InodeCache A → InodeCache A × Option Ptr
  after_load p (success inode) c =
      let n = c.heap p in
      (write_node p (record n { inode = inode; load_error = none; loading = false }) c, some p)
  after_load p (error e) c =
      let n = c.heap p in
      let refs = decrement n.num_refs in
      let c' =
        write_node p (record n { load_error = some e; loading = false; num_refs = refs }) c in
      (if not_positive refs then free_node p (unlink_cache_inode_locked p c') else c', none)

  -- The critical section of `remove_ref_from_cache`, and the node that is to be flushed.
  abbrev pub drop_ref : InodeCache A → Option Ptr → InodeCache A × Result (Option Ptr)
  drop_ref c none = (c, error file_not_found)
  drop_ref c (some p) =
      let n = c.heap p in
      let refs = decrement n.num_refs in
      let c' = write_node p (record n { num_refs = refs }) c in
      if not_positive refs && not n.loading
      then (unlink_cache_inode_locked p c', success (some p))
      else (c', success none)

  -- What is left to do behind that section.
  abbrev pub flush_dropped :
      Result Unit → InodeCache A × Result (Option Ptr) → InodeCache A × Result Unit
  flush_dropped r (c, error e) = (c, error e)
  flush_dropped r (c, success none) = (c, success tt)
  flush_dropped r (c, success (some p)) = flush_and_free_cache_inode p r c

  abbrev pub remove_ref_from_cache : ℕ → Result Unit → InodeCache A → InodeCache A × Result Unit
  remove_ref_from_cache id r c = flush_dropped r (drop_ref c (find_inode_in_cache id c))

  -- The loop of `empty_inode_cache` ends with an error.
  abbrev pub and_then :
      (InodeCache A → InodeCache A × Emptying)
      → InodeCache A × Result Unit
      → InodeCache A × Emptying
  and_then next (c, error e) = (c, returned (error e))
  and_then next (c, success x) = next c

  -- A round of `empty_inode_cache`; `r` has the results of `write_inode`.
  abbrev pub empty_round :
      (InodeCache A → InodeCache A × Emptying)
      → (Ptr → Result Unit)
      → InodeCache A
      → List Ptr
      → InodeCache A × Emptying
  empty_round next r c [] = (c, returned (success tt))
  empty_round next r c (p ∷ ps) =
      let c' = unlink_cache_inode_locked p c in
      if (c'.heap p).loading
      then (c', waiting p)
      else and_then next (flush_and_free_cache_inode p (r p) c')

  abbrev pub empty_rounds : ℕ → (Ptr → Result Unit) → InodeCache A → InodeCache A × Emptying
  empty_rounds zero r c = (c, returned (success tt))
  empty_rounds (suc n) r c = empty_round (empty_rounds n r) r c c.nodes

  abbrev pub empty_inode_cache : (Ptr → Result Unit) → InodeCache A → InodeCache A × Emptying
  empty_inode_cache r c = empty_rounds (length c.nodes + 1) r c

  abbrev pub not_clean : (Ptr → CacheNode A) → List Ptr → ℕ
  not_clean heap [] = 0
  not_clean heap (p ∷ ps) =
      (if (heap p).dirty || (heap p).loading then 1 else 0) + not_clean heap ps

  -- With a pointer that is not NULL.
  abbrev pub inode_cache_get_stats : InodeCache A → InodeCacheStats
  inode_cache_get_stats c = record {
    capacity = 0;
    used = length c.nodes % 2 ^ 32;
    hits = c.hits;
    misses = c.misses;
    evictions = c.evictions;
    dirty = not_clean c.heap c.nodes % 2 ^ 32;
  }
