-- ===== src/Fs/InodeCache/Users.antt =====
-- The threads that use the cache of inodes by `get_inode_from_cache` and `remove_ref_from_cache`: each
-- critical section of these is a step, in any order. `empty_inode_cache` is not among the steps.
use os_pi_is_cool.Base.{
  ℕ, ◌+◌, ◌≡◌, Bool, true, false, ◌&&◌, Option, none, some, List, [], ◌∷◌, ◌++◌, if◌then◌else◌,
  ◌==◌, Ptr,
}
use os_pi_is_cool.Fs.Errors.{FsError, Result, success, error}
use os_pi_is_cool.Fs.InodeCache.{
  InodeCache, Looked, no_memory, hit, miss, look_up, after_load, drop_ref, find_inode_in_cache,
  flush_and_free_cache_inode,
}
use os_pi_is_cool.Fs.InodeCache.Find.{Absent}

-- What a thread is about to do with the node that it has a reference to: it reads the inode, it waits
-- until another thread has read it, or it uses it.
pub data Phase : Type 0 where
  loads waits holds : Phase

pub record User : Type 0 where
  pub phase : Phase
  pub id : ℕ
  pub at : Ptr

-- The users, and the nodes that are taken off the list but not written and freed yet.
pub record Shared (A : Type 0) : Type 0 where
  pub cache : InodeCache A
  pub users : List User
  pub flushing : List Ptr

abbrev pub user : Phase → ℕ → Ptr → User
user phase id p = record { phase = phase; id = id; at = p }

module _ {A : Type 0} where
  abbrev pub join : ℕ → Shared A → InodeCache A × Looked → Shared A
  join id s (c, no_memory) = record s { cache = c }
  join id s (c, hit p) = record s { cache = c; users = user waits id p ∷ s.users }
  join id s (c, miss p) = record s { cache = c; users = user loads id p ∷ s.users }

  -- The other users, and this one if it gets the inode.
  abbrev pub keep : ℕ → List User → Shared A → InodeCache A × Option Ptr → Shared A
  keep id others s (c, none) = record s { cache = c; users = others }
  keep id others s (c, some p) = record s { cache = c; users = user holds id p ∷ others }

  abbrev pub leave : List User → Shared A → InodeCache A × Result (Option Ptr) → Shared A
  leave others s (c, error e) = record s { cache = c; users = others }
  leave others s (c, success none) = record s { cache = c; users = others }
  leave others s (c, success (some p)) = record s {
    cache = c;
    users = others;
    flushing = p ∷ s.flushing;
  }

  abbrev pub dropped : ℕ → List User → Shared A → Shared A
  dropped id others s = leave others s (drop_ref s.cache (find_inode_in_cache id s.cache))

  -- The end of the wait of `get_inode_from_cache`.
  abbrev pub woken : ℕ → Ptr → List User → Shared A → Option FsError → Shared A
  woken id p others s none = record s { users = user holds id p ∷ others }
  woken id p others s (some e) = dropped id others s

-- One critical section of those two; the order of the users does not matter. `kmalloc` gives no address of a node
-- in the list.
pub data Step {A : Type 0} (s : Shared A) : Shared A → Type 0 where
  look :
      (at : Ptr) (id : ℕ) (zeroed : A)
      → Absent at s.cache.nodes
      → Step s (join id s (look_up at id zeroed s.cache))
  load :
      (id : ℕ) (p : Ptr) (r : Result A) (xs ys : List User)
      → s.users ≡ xs ++ user loads id p ∷ ys
      → Step s (keep id (xs ++ ys) s (after_load p r s.cache))
  wake :
      (id : ℕ) (p : Ptr) (xs ys : List User)
      → s.users ≡ xs ++ user waits id p ∷ ys
      → (s.cache.heap p).loading ≡ false
      → Step s (woken id p (xs ++ ys) s (s.cache.heap p).load_error)
  drop :
      (id : ℕ) (p : Ptr) (xs ys : List User)
      → s.users ≡ xs ++ user holds id p ∷ ys
      → Step s (dropped id (xs ++ ys) s)
  flush :
      (p : Ptr) (r : Result Unit) (ps qs : List Ptr)
      → s.flushing ≡ ps ++ p ∷ qs
      → Step s
          (record s { cache = (flush_and_free_cache_inode p r s.cache).0; flushing = ps ++ qs })

pub data Steps {A : Type 0} (s : Shared A) : Shared A → Type 0 where
  at_start : Steps s s
  then_step : {s' s'' : Shared A} → Steps s s' → Step s' s'' → Steps s s''

abbrev pub of_id : ℕ → User → Bool
of_id id u = u.id == id

abbrev pub is_loads : Phase → Bool
is_loads loads = true
is_loads waits = false
is_loads holds = false

abbrev pub loads_id : ℕ → User → Bool
loads_id id u = is_loads u.phase && (u.id == id)

abbrev pub count : (User → Bool) → List User → ℕ
count p [] = 0
count p (u ∷ us) = (if p u then 1 else 0) + count p us
