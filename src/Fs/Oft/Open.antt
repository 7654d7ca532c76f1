-- ===== src/Fs/Oft/Open.antt =====
-- `oft_open_file` takes the first free file descriptor.
use os_pi_is_cool.Base.{
  ℕ, zero, suc, ◌^◌, ◌<◌, ◌≤◌, ◌≡◌, ◌≢◌, inl, inr, refl, subst, arith, false, List, [], ◌∷◌, ◌++◌,
  ◌%◌, length, get_or, if◌then◌else◌, ◌==◌, leb, Bool-cases, ok, Ptr, null,
}
use os_pi_is_cool.Vec
use os_pi_is_cool.Vec.{Vec, get}
use os_pi_is_cool.Vec.Holds.{Holds, get-Holds}
use os_pi_is_cool.Waking.Awake.{split_at, get_or_past}
use os_pi_is_cool.Fs.Errors.{
  FsError, Result, success, error, file_read_error, oft_fd_does_not_exist,
}
use os_pi_is_cool.Fs.Oft.{Oft, NewFile, exists, not_made, not_added, made, get_oft_entry_by_fd}
use os_pi_is_cool.Fs.Oft.Find.{slot, put}

-- What a file descriptor stands for.
abbrev pub entry_of : List Ptr → ℕ → Result Ptr
entry_of es fd =
    if leb (2 ^ 31) fd
    then error oft_fd_does_not_exist
    else if get_or es fd null == null
    then error oft_fd_does_not_exist
    else success (get_or es fd null)

pub get_oft_entry_by_fd_lem :
    (o : Oft) (es : List Ptr) (fd : ℕ)
    → Holds o.table es
    → get_oft_entry_by_fd fd o ≡ ok (entry_of es fd)
unfolding get_oft_entry_by_fd
get_oft_entry_by_fd_lem o es fd h = elim (Bool-cases (leb (2 ^ 31) fd)) [
  | inl negative ↦ rw negative refl
  | inr valid ↦ elim (Bool-cases (leb o.table.length fd)) [
    | inl past ↦ rw (valid, past, get_or_past es fd (ground (arith, past, h.counted))) refl
    | inr within ↦
        let (xs, ys, e, c) = split_at es fd (ground (arith, within, h.counted)) in
        rw (valid, within, get-Holds xs (get_or es fd null) ys fd (subst (Holds o.table) e h) c)
          refl
  ]
]

slot_le : (es : List Ptr) → slot es ≤ length es
slot_le [] = omega arith
slot_le (e ∷ es) = elim (Bool-cases (e == null)) [
  | inl free ↦ rw free (omega arith)
  | inr used ↦ rw used (omega (arith, slot_le es))
]

get_or-put :
    (es : List Ptr) (at : Ptr) (fd : ℕ)
    → get_or (put es at) fd null ≡ (if fd == slot es then at else get_or es fd null)
get_or-put [] at zero = refl
get_or-put [] at (suc fd) = let no : (suc fd == 0) ≡ false = ground arith in rw no refl
get_or-put (e ∷ es) at zero = elim (Bool-cases (e == null)) [
  | inl free ↦ rw free refl
  | inr used ↦ let no : (0 == suc (slot es)) ≡ false = ground arith in rw (used, no) refl
]
get_or-put (e ∷ es) at (suc fd) = elim (Bool-cases (e == null)) [
  | inl free ↦ let no : (suc fd == 0) ≡ false = ground arith in rw (free, no) refl
  | inr used ↦
      let same : (suc fd == suc (slot es)) ≡ (fd == slot es) = ground arith in
      rw (used, same) (get_or-put es at fd)
]

pub entry_of-put :
    (es : List Ptr) (at : Ptr) (fd : ℕ)
    → at ≢ null
    → length es < 2 ^ 31
    → entry_of (put es at) fd ≡ (if fd == slot es then success at else entry_of es fd)
entry_of-put es at fd ne small = elim (Bool-cases (leb (2 ^ 31) fd)) [
  | inl negative ↦
      let other : (fd == slot es) ≡ false = ground (arith, negative, slot_le es) in
      rw (negative, other) refl
  | inr valid ↦
      rw (valid, get_or-put es at fd)
        (elim (Bool-cases (fd == slot es)) [
          | inl here ↦ let used : (at == null) ≡ false = ground arith in rw (here, used) refl
          | inr other ↦ rw other refl
        ])
]

-- The new entry stands in the first free place, with one reference to the inode `node` of number `ino`;
-- all else is as before.
pub record Placed (o : Oft) (es : List Ptr) (at mode ino : ℕ) (node : Ptr) (o' : Oft) : Type 0 where
  pub there : node ≢ null
  pub one_reference :
      o'.entries at
      ≡ record { mode = mode % 2 ^ 8; cursor = 0; ref_count = 1; ino_id = ino; inode = node }
  pub others : (q : Ptr) → at ≢ q → o'.entries q ≡ o.entries q
  pub held : Holds o'.table (put es at)
  pub nothing_freed : o'.freed ≡ o.freed
  pub nothing_put : o'.put_inodes ≡ o.put_inodes
  pub nothing_removed : o'.removed_refs ≡ o.removed_refs
  pub descriptors :
      (fd : ℕ)
      → get_oft_entry_by_fd fd o' ≡ ok (if fd == slot es then success at else entry_of es fd)

-- The new entry is freed again, and these references are removed from the inode cache; the table is
-- as before.
pub record Dropped (o : Oft) (at : Ptr) (refs : List ℕ) (o' : Oft) : Type 0 where
  pub table_kept : o'.table ≡ o.table
  pub others : (q : Ptr) → at ≢ q → o'.entries q ≡ o.entries q
  pub freed_again : o'.freed ≡ o.freed ++ at ∷ []
  pub nothing_put : o'.put_inodes ≡ o.put_inodes
  pub removed : o'.removed_refs ≡ o.removed_refs ++ refs

-- How an open ends, by the inode number, what becomes of a file without one, and the inode that is
-- looked up.
pub data Opened (o : Oft) (es : List Ptr) (at mode : ℕ)
    : ℕ → NewFile → Result Ptr → Oft × Result ℕ → Type 0 where
  known :
      {o' : Oft} {n : ℕ} {file : NewFile} {node : Ptr}
      → Placed o es at mode (suc n) node o'
      → Opened o es at mode (suc n) file (success node) (o', success (slot es))
  unknown :
      {o' : Oft} {n : ℕ} {file : NewFile} {e : FsError}
      → Dropped o at [] o'
      → Opened o es at mode (suc n) file (error e) (o', error e)
  no_inode :
      {o' : Oft} {n : ℕ} {file : NewFile} {node : Ptr}
      → node ≡ null
      → Dropped o at [] o'
      → Opened o es at mode (suc n) file (success node) (o', error file_read_error)
  new :
      {o' : Oft} {ino : ℕ} {node : Ptr} {inode : Result Ptr}
      → Placed o es at mode ino node o'
      → Opened o es at mode 0 (made ino node) inode (o', success (slot es))
  new_no_inode :
      {o' : Oft} {ino : ℕ} {node : Ptr} {inode : Result Ptr}
      → node ≡ null
      → Dropped o at [] o'
      → Opened o es at mode 0 (made ino node) inode (o', error file_read_error)
  not_new :
      {o' : Oft} {e : FsError} {inode : Result Ptr}
      → Dropped o at [] o'
      → Opened o es at mode 0 (not_made e) inode (o', error e)
  not_named :
      {o' : Oft} {ino : ℕ} {e : FsError} {inode : Result Ptr}
      → Dropped o at (ino ∷ []) o'
      → Opened o es at mode 0 (not_added ino e) inode (o', error e)
  named_already :
      {o' : Oft} {inode : Result Ptr}
      → Dropped o at [] o'
      → Opened o es at mode 0 exists inode (o', error file_read_error)
