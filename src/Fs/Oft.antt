-- ===== src/Fs/Oft.antt =====
-- The open file table (kernel/fs/oft.c). What runs under `oft_table_lock` is one step; an entry is a
-- pointer into a store of entries. The results of the calls on inodes and directories are
-- arguments, and the calls that give an inode or an entry back are logged in order.
pub mod Find
pub mod Open
pub mod Close
use os_pi_is_cool.Base.{
  ℕ, zero, suc, ◌+◌, ◌%◌, ◌^◌, Bool, true, false, not, ◌&&◌, ◌||◌, Option, none, some, List, [],
  ◌∷◌, ◌++◌, if◌then◌else◌, ◌==◌, ltb, leb, Run, ok, fault, ◌>>=◌, store, Ptr, null, Allocator,
}
use os_pi_is_cool.Thread.{update}
use os_pi_is_cool.Vec
use os_pi_is_cool.Vec.{Vec, vec_new, get, push_back, pop_back, destroy}
use os_pi_is_cool.Fs.Errors.{
  FsError, Result, success, error, invalid_args, file_not_found, file_read_error,
  oft_fd_does_not_exist,
}

-- `struct oft_entry`; `ref_count` has 16 bits.
pub record OftEntry : Type 0 where
  pub mode : ℕ
  pub cursor : ℕ
  pub ref_count : ℕ
  pub ino_id : ℕ
  pub inode : Ptr

-- The variables of oft.c, the entries, the entries that `kfree` was called with, and the inodes that
-- `vfs_put_inode` was, and the inode numbers that `remove_ref_from_cache` was.
pub record Oft : Type 0 where
  pub table : Vec
  pub initialized : Bool
  pub entries : Ptr → OftEntry
  pub freed : List Ptr
  pub put_inodes : List Ptr
  pub removed_refs : List ℕ

abbrev pub free_entry : Ptr → Oft → Oft
free_entry e o = record o { freed = o.freed ++ e ∷ [] }

pub entry_deletor : Ptr → Oft → Oft
entry_deletor e o =
    if e == null
    then o
    else free_entry e (
        if ltb 0 (o.entries e).ino_id
        then record o { put_inodes = o.put_inodes ++ (o.entries e).inode ∷ [] }
        else o)

-- The destructor on each element in order.
abbrev pub delete_all : List Ptr → Oft → Oft
delete_all [] o = o
delete_all (e ∷ es) o = delete_all es (entry_deletor e o)

pub empty_oft : Oft → Run Oft
empty_oft o =
    if not o.initialized
    then ok o
    else destroy (record o.table { dropped = [] }) >>= λ v.
        ok (record (delete_all v.dropped o) { table = v; initialized = false })

pub initialize_oft : Allocator → Oft → Run Oft
initialize_oft k o = (if o.initialized then empty_oft o else ok o) >>= λ o'.
    vec_new k 3 true >>= λ v. ok (record o' { table = v; initialized = true })

-- The loop of `find_file_in_table`, with the rounds left, the index, and what was found.
pub find_loop : ℕ → ℕ → Option ℕ → Vec → Run (Option ℕ)
find_loop zero i found v = ok found
find_loop (suc n) i (some j) v = get v i >>= λ e. find_loop n (i + 1) (some j) v
find_loop (suc n) i none v =
    get v i >>= λ e. find_loop n (i + 1) (if e == null then some i else none) v

abbrev pub or_length : Option ℕ → ℕ → ℕ
or_length none n = n
or_length (some i) n = i

-- What `find_file_in_table` stores.
pub find_file_in_table : Vec → Run ℕ
find_file_in_table v = find_loop v.length 0 none v >>= λ found. ok (or_length found v.length)

-- What becomes of a file without an inode number: the directory has the name already, or the error of
-- `add_new_file`, or the number of the new file and the error of `add_dirent`, or its number and its
-- inode.
pub data NewFile : Type 0 where
  exists : NewFile
  not_made : FsError → NewFile
  not_added : ℕ → FsError → NewFile
  made : ℕ → Ptr → NewFile

abbrev pub created : OftEntry → NewFile → Result OftEntry
created e exists = success e
created e (not_made err) = error err
created e (not_added ino err) = error err
created e (made ino node) = success (record e { ino_id = ino; inode = node })

-- `remove_ref_from_cache` for a new file that has no name.
abbrev pub unreferenced : ℕ → NewFile → Oft → Oft
unreferenced zero (not_added ino err) o = record o { removed_refs = o.removed_refs ++ ino ∷ [] }
unreferenced zero exists o = o
unreferenced zero (not_made err) o = o
unreferenced zero (made ino node) o = o
unreferenced (suc n) file o = o

-- `vfs_get_inode`
abbrev pub looked_up : OftEntry → Result Ptr → Result OftEntry
looked_up e (error err) = error err
looked_up e (success node) = success (record e { inode = node })

-- The entry is put into the table.
pub add_to_table : Allocator → Ptr → Oft → Run (Oft × Result ℕ)
add_to_table k at o = find_file_in_table o.table >>= λ i.
    (if i == o.table.length then push_back k o.table at else Vec.set o.table i at) >>= λ v.
    ok (record o { table = v }, success i)

abbrev pub with_entry : Allocator → Ptr → Oft → Result OftEntry → Run (Oft × Result ℕ)
with_entry k at o (error err) = ok (free_entry at o, error err)
with_entry k at o (success e) =
    let o' = record o { entries = update o.entries at e } in
    if e.inode == null then ok (free_entry at o', error file_read_error) else add_to_table k at o'

abbrev pub new_oft_entry : ℕ → ℕ → OftEntry
new_oft_entry mode ino_id = record {
  mode = mode % 2 ^ 8;
  cursor = 0;
  ref_count = 1;
  ino_id = ino_id;
  inode = null;
}

-- `kmalloc` gave `at`, which is written to even if it is NULL.
pub oft_open_file : Allocator → Ptr → ℕ → ℕ → NewFile → Result Ptr → Oft → Run (Oft × Result ℕ)
oft_open_file k at mode ino_id file inode o =
    let e = new_oft_entry mode ino_id in
    if at == null
    then fault
    else with_entry k at (unreferenced ino_id file o)
        (if ino_id == 0 then created e file else looked_up e inode)

-- `fd` is the 32 bits of an `int`.
abbrev pub is_no_fd : ℕ → Vec → Bool
is_no_fd fd v = leb (2 ^ 31) fd || leb v.length fd

pub oft_add_reference : ℕ → Oft → Run (Oft × Result Unit)
oft_add_reference fd o =
    if is_no_fd fd o.table
    then ok (o, error oft_fd_does_not_exist)
    else get o.table fd >>= λ e.
        if e == null
        then ok (o, error oft_fd_does_not_exist)
        else let x = o.entries e in
          ok (
            record o {
              entries = update o.entries e (record x { ref_count = (x.ref_count + 1) % 2 ^ 16 });
            },
            success tt,
          )

pub get_oft_entry_by_fd : ℕ → Oft → Run (Result Ptr)
get_oft_entry_by_fd fd o =
    if is_no_fd fd o.table
    then ok (error oft_fd_does_not_exist)
    else get o.table fd >>= λ e. ok (if e == null then error oft_fd_does_not_exist else success e)

-- The search of `oft_close_file`, with the rounds left.
pub search : ℕ → ℕ → Ptr → Vec → Run (Option ℕ)
search zero i e v = ok none
search (suc n) i e v = get v i >>= λ x.
    let rest = search n (i + 1) e v in
    if x == null then rest else if not (x == e) then rest else ok (some i)

-- `open_file_table.data[i] = NULL`
abbrev pub null_at : ℕ → Vec → Run Vec
null_at i v = store v.data_cells i null >>= λ cells. ok (record v { data_cells = cells })

-- The last reference at index `i` is gone.
pub remove_entry : ℕ → Ptr → Oft → Run (Oft × Result Unit)
remove_entry i e o =
    (if o.table.length == i + 1
      then (pop_back false o.table >>= λ (v, took, x). ok v)
      else null_at i o.table)
    >>= λ v. ok (entry_deletor e (record o { table = v }), success tt)

abbrev pub close_found : Ptr → Oft → Option ℕ → Run (Oft × Result Unit)
close_found e o none = ok (o, error file_not_found)
close_found e o (some i) =
    let x = o.entries e in
    let count = (x.ref_count + 65535) % 2 ^ 16 in
    let o' = record o { entries = update o.entries e (record x { ref_count = count }) } in
    if count == 0 then remove_entry i e o' else ok (o', success tt)

pub oft_close_file : Ptr → Oft → Run (Oft × Result Unit)
oft_close_file e o =
    if e == null
    then ok (o, error invalid_args)
    else search o.table.length 0 e o.table >>= λ found. close_found e o found
