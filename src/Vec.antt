-- ===== src/Vec.antt =====
-- The growable array of pointers of kernel/data-structs/vec.c. Every function takes the vector and
-- returns the new one; `data` is the storage with its unused cells, and each access is checked.
pub mod Holds
pub mod Grow
pub mod Loops
pub mod Shift
use os_pi_is_cool.Base.{
  ℕ, zero, suc, ◌+◌, ◌-◌, ◌*◌, ◌%◌, ◌^◌, Bool, true, false, Option, none, some, List, [], ◌∷◌, ◌++◌,
  if◌then◌else◌, ◌==◌, ltb, leb, Run, ok, fatal, ◌>>=◌, load, store, Ptr, null, Allocator,
}

-- `dtor` says whether `ele_dtor_fn` is set; `dropped` lists the arguments it was called with.
pub record Vec : Type 0 where
  pub data_cells : List Ptr
  pub length : ℕ
  pub capacity : ℕ
  pub dtor : Bool
  pub dropped : List Ptr

-- `size_t`
abbrev pub add_size : ℕ → ℕ → ℕ
add_size a b = (a + b) % 2 ^ 64

abbrev pub mul_size : ℕ → ℕ → ℕ
mul_size a b = a * b % 2 ^ 64

-- `sizeof(ptr_t) * n`
abbrev pub bytes_for : ℕ → ℕ
bytes_for n = mul_size 8 n

abbrev pub is_empty : Vec → Bool
is_empty v = v.length == 0

pub vec_new : Allocator → ℕ → Bool → Run Vec
vec_new k initial dtor = elim (k.alloc (bytes_for initial)) [
  | none ↦ fatal
  | some cells ↦
      ok (record { data_cells = cells; length = 0; capacity = initial; dtor = dtor; dropped = [] })
]

pub get : Vec → ℕ → Run Ptr
get v i = if leb v.length i then fatal else load v.data_cells i

-- What the calls of the destructor add to `dropped`.
abbrev pub drop_elem : Vec → Ptr → List Ptr
drop_elem v x = if v.dtor then v.dropped ++ (x ∷ []) else v.dropped

pub set : Vec → ℕ → Ptr → Run Vec
set v i x = if leb v.length i then fatal else do
  old ← load v.data_cells i
  cells ← store v.data_cells i x
  ok (record v { data_cells = cells; dropped = drop_elem v old })

-- `for (i = 0; i < length; i++) to[i] = from[i]`, with the rounds left.
copy_cells : ℕ → ℕ → List Ptr → List Ptr → Run (List Ptr)
copy_cells zero i from to = ok to
copy_cells (suc n) i from to = do x ← load from i; to' ← store to i x; copy_cells n (i + 1) from to'

pub reserve : Allocator → Vec → ℕ → Run Vec
reserve k v new_capacity =
    if ltb new_capacity v.length then fatal else elim (k.alloc (bytes_for new_capacity)) [
      | none ↦ fatal
      | some cells ↦ (copy_cells v.length 0 v.data_cells cells) >>= λ copied.
          ok (record v { data_cells = copied; capacity = new_capacity })
    ]

abbrev pub grown : Vec → ℕ
grown v = if v.capacity == 0 then 1 else mul_size v.capacity 2

-- The part of `vec_push_back` behind the growth.
append_within : Vec → Ptr → Run Vec
append_within v x = do
  cells ← store v.data_cells v.length x
  ok (record v { data_cells = cells; length = add_size v.length 1 })

pub push_back : Allocator → Vec → Ptr → Run Vec
push_back k v x =
    (if leb v.capacity v.length then reserve k v (grown v) else ok v) >>= λ w. append_within w x

-- The result, and what goes through `deleted_elem`, which is NULL if `out` is false.
pub pop_back : Bool → Vec → Run (Vec × Bool × Option Ptr)
pop_back out v =
    if is_empty v
    then ok (v, false, if out then some null else none)
    else let w = record v { length = v.length - 1 } in
      if out then (load v.data_cells w.length >>= λ x. ok (w, true, some x)) else ok (w, true, none)

-- `for (; i < length; i++) swap(data[i], temp)`, with the rounds left.
pub shift_up : ℕ → ℕ → Ptr → List Ptr → Run (Ptr × List Ptr)
shift_up zero i temp cells = ok (temp, cells)
shift_up (suc n) i temp cells = do
  temp2 ← load cells i
  cells' ← store cells i temp
  shift_up n (i + 1) temp2 cells'

-- The part of `vec_insert` behind the growth; it runs only at `index < length`.
insert_within : Vec → ℕ → Ptr → Run Vec
unfolding shift_up
insert_within v i x = do
  temp ← load v.data_cells i
  cells ← store v.data_cells i x
  (carried, cells') ← shift_up (v.length - (i + 1)) (i + 1) temp cells
  cells'' ← store cells' v.length carried
  ok (record v { data_cells = cells''; length = add_size v.length 1 })

pub insert : Allocator → Vec → ℕ → Ptr → Run Vec
insert k v i x =
    if i == v.length
    then push_back k v x
    else if ltb v.length i
    then fatal
    else (if v.length == v.capacity then reserve k v (grown v) else ok v) >>= λ w.
        insert_within w i x

-- `for (; i < length - 1; i++) data[i] = data[i + 1]`, with the rounds left.
pub shift_down : ℕ → ℕ → List Ptr → Run (List Ptr)
shift_down zero i cells = ok cells
shift_down (suc n) i cells = do
  x ← load cells (i + 1)
  cells' ← store cells i x
  shift_down n (i + 1) cells'

pub erase : Vec → ℕ → Run Vec
unfolding shift_down
erase v i = if leb v.length i then fatal else do
  dropped ←
      if v.dtor then (load v.data_cells i >>= λ x. ok (v.dropped ++ (x ∷ []))) else ok v.dropped
  cells ← shift_down (v.length - 1 - i) i v.data_cells
  ok (record v { data_cells = cells; length = v.length - 1; dropped = dropped })

-- `for (i = 0; i < length; i++) ele_dtor_fn(data[i])`, with the rounds left.
pub drop_cells : ℕ → ℕ → List Ptr → List Ptr → Run (List Ptr)
drop_cells zero i cells dropped = ok dropped
drop_cells (suc n) i cells dropped = do
  x ← load cells i
  drop_cells n (i + 1) cells (dropped ++ (x ∷ []))

pub clear : Vec → Run Vec
unfolding drop_cells
clear v = do
  dropped ← if v.dtor then drop_cells v.length 0 v.data_cells v.dropped else ok v.dropped
  ok (record v { length = 0; dropped = dropped })

-- The storage is given back: no cell is left.
pub destroy : Vec → Run Vec
destroy v = clear v >>= λ w. ok (record w { data_cells = []; capacity = 0; length = 0 })
