-- ===== src/HashMap.antt =====
-- The hash map of kernel/data-structs/hashmap.c. The chain of a bucket is the list of its entries
-- from the head on; the pointer to an entry with the one before it (`prev`) is the chain split at
-- the entry. The memory that a key points to is a list of bytes, and each access to it is checked.
-- No caller passes NULL for the map itself.
pub mod Keys
pub mod Chain
pub mod Finite
pub mod Get
pub mod Put
pub mod Remove
pub mod Clear
use os_pi_is_cool.Base.{
  ℕ, zero, suc, ◌+◌, ◌-◌, ◌*◌, ◌/◌, ◌%◌, ◌^◌, bit_xor, Bool, true, false, not, Option, none, some,
  List, [], ◌∷◌, ◌++◌, if◌then◌else◌, ◌==◌, length, replicate, Run, ok, fatal, fault, ◌>>=◌, load,
  store, Ptr, Allocator,
}

-- `hashmap_key_t`; `type` is the number of the `HASHMAP_KEY_` constant, `data_cells` the memory
-- that `data` points to.
pub record Key : Type 0 where
  pub type : ℕ
  pub data_cells : Option (List ℕ)
  pub size : ℕ

-- `hashmap_entry_t` without `next`.
pub record Entry : Type 0 where
  pub key_type : ℕ
  pub key_size : ℕ
  pub key : List ℕ
  pub value : Ptr

-- `value_dtor` says whether it is set; `dropped` lists the arguments it was called with.
pub record HashMap : Type 0 where
  pub buckets : Option (List (List Entry))
  pub bucket_count : ℕ
  pub size : ℕ
  pub value_dtor : Bool
  pub dropped : List Ptr

-- `HASHMAP_KEY_STRING`
abbrev pub key_string : ℕ
key_string = 3

pub strlen : List ℕ → Run ℕ
strlen [] = fault
strlen (c ∷ cs) =
    let rest = strlen cs in if c == 0 then ok 0 else rest >>= λ n. ok ((n + 1) % 2 ^ 64)

pub key_size : Key → List ℕ → Run ℕ
key_size key cells =
    if key.type == key_string then (strlen cells >>= λ n. ok ((n + 1) % 2 ^ 64)) else ok key.size

-- `for (i = 0; i < size; i++) dst[i] = src[i]`, with the rounds left: what is written to `dst`.
pub memcpy : ℕ → ℕ → List ℕ → Run (List ℕ)
memcpy zero i src = ok []
memcpy (suc n) i src = load src i >>= λ c. memcpy n (i + 1) src >>= λ cs. ok (c ∷ cs)

pub memeq : ℕ → ℕ → List ℕ → List ℕ → Run Bool
memeq zero i lhs rhs = ok true
memeq (suc n) i lhs rhs =
    let rest = memeq n (i + 1) lhs rhs in
    load lhs i >>= λ l. load rhs i >>= λ r. if l == r then rest else ok false

-- One round of FNV-1a.
abbrev pub mix : ℕ → ℕ → ℕ
mix hash byte = bit_xor hash byte * 1099511628211 % 2 ^ 64

abbrev pub hash_basis : ℕ
hash_basis = 1469598103934665603

pub hash_bytes : ℕ → ℕ → List ℕ → ℕ → Run ℕ
hash_bytes zero i bytes hash = ok hash
hash_bytes (suc n) i bytes hash = load bytes i >>= λ b. hash_bytes n (i + 1) bytes (mix hash b)

-- The two hashes of a key put together.
abbrev pub combine : ℕ → ℕ → ℕ
combine hash key_hash =
    bit_xor hash ((key_hash + 0x9e3779b97f4a7c15 + hash * 2 ^ 6 % 2 ^ 64 + hash / 2 ^ 2) % 2 ^ 64)

-- The four bytes of the `enum`, the lowest first.
abbrev pub type_bytes : ℕ → List ℕ
type_bytes t = t ∷ 0 ∷ 0 ∷ 0 ∷ []

pub hash_key : Key → List ℕ → Run ℕ
unfolding hash_bytes key_size
hash_key key cells = do
  hash ← hash_bytes 4 0 (type_bytes key.type) hash_basis
  n ← key_size key cells
  key_hash ← hash_bytes n 0 cells hash_basis
  ok (combine hash key_hash)

pub key_equals : Entry → Key → List ℕ → Run Bool
unfolding key_size memeq
key_equals e key cells = key_size key cells >>= λ n.
    if e.key_type == key.type
    then if e.key_size == n then memeq n 0 e.key cells else ok false
    else ok false

-- An entry, with the chain before and behind it.
abbrev pub Found : Type 0
Found = Option (List Entry × Entry × List Entry)

pub find_in : Key → List ℕ → List Entry → List Entry → Run Found
find_in key cells before [] = ok none
find_in key cells before (e ∷ rest) =
    let further = find_in key cells (before ++ e ∷ []) rest in
    key_equals e key cells >>= λ same. if same then ok (some (before, e, rest)) else further

-- `map->buckets`
abbrev pub chains : HashMap → Run (List (List Entry))
chains m = elim m.buckets [ none ↦ fault | some bs ↦ ok bs ]

pub find_entry : HashMap → Key → Run Found
find_entry m key = if m.bucket_count == 0 then ok none else elim key.data_cells [
  | none ↦ ok none
  | some cells ↦ do
    hash ← hash_key key cells
    bs ← chains m
    chain ← load bs (hash % m.bucket_count)
    find_in key cells [] chain
]

pub new : Allocator → ℕ → Bool → Run HashMap
new k bucket_count value_dtor =
    let count = if bucket_count == 0 then 16 else bucket_count in
    elim (k.alloc (8 * count % 2 ^ 64)) [
      | none ↦ fatal
      | some cells ↦ ok (record {
        buckets = some (replicate count []);
        bucket_count = count;
        size = 0;
        value_dtor = value_dtor;
        dropped = [];
      })
    ]

abbrev pub drop_value : HashMap → Ptr → List Ptr
drop_value m v = if m.value_dtor then m.dropped ++ v ∷ [] else m.dropped

-- `map->buckets[bucket] = chain`
abbrev pub set_chain : HashMap → ℕ → List Entry → Run HashMap
set_chain m bucket chain = do
  bs ← chains m
  bs' ← store bs bucket chain
  ok (record m { buckets = some bs' })

abbrev pub new_entry : Key → ℕ → List ℕ → Ptr → Entry
new_entry key n copied value = record {
  key_type = key.type;
  key_size = n;
  key = copied;
  value = value;
}

-- The part of `hashmap_put` for a key that is not there: the copy of the key, and the new entry at
-- the head of its chain. An entry takes 40 bytes.
pub put_new : Allocator → HashMap → Key → List ℕ → Ptr → Run (HashMap × Bool)
put_new k m key cells value = key_size key cells >>= λ n. elim (k.alloc n) [
  | none ↦ ok (m, false)
  | some key_copy ↦ memcpy n 0 cells >>= λ copied. elim (k.alloc 40) [
    | none ↦ ok (m, false)
    | some entry ↦ do
      hash ← hash_key key cells
      bs ← chains m
      chain ← load bs (hash % m.bucket_count)
      m' ← set_chain m (hash % m.bucket_count) (new_entry key n copied value ∷ chain)
      ok (record m' { size = (m.size + 1) % 2 ^ 64 }, true)
  ]
]

-- The new value in the place of the entry's.
pub put_found : HashMap → ℕ → List Entry × Entry × List Entry → Ptr → Run (HashMap × Bool)
put_found m bucket (before, e, rest) value =
    set_chain (record m { dropped = drop_value m e.value }) bucket
      (before ++ record e { value = value } ∷ rest)
    >>= λ m'. ok (m', true)

-- `hashmap_put` behind its guards.
pub put_at : Allocator → HashMap → Key → List ℕ → Ptr → Run (HashMap × Bool)
put_at k m key cells value = find_entry m key >>= λ found. elim found [
  | none ↦ put_new k m key cells value
  | some place ↦ hash_key key cells >>= λ hash. put_found m (hash % m.bucket_count) place value
]

-- The guards, on `map->buckets` and `key.data`.
abbrev pub put_checked :
    Option (List (List Entry))
    → Option (List ℕ)
    → Allocator
    → HashMap
    → Key
    → Ptr
    → Run (HashMap × Bool)
put_checked none d k m key value = ok (m, false)
put_checked (some bs) none k m key value = ok (m, false)
put_checked (some bs) (some cells) k m key value = put_at k m key cells value

pub put : Allocator → HashMap → Key → Ptr → Run (HashMap × Bool)
put k m key value = put_checked m.buckets key.data_cells k m key value

pub get : HashMap → Key → Run (Option Ptr)
get m key = find_entry m key >>= λ found. elim found [
  | none ↦ ok none
  | some (before, e, rest) ↦ ok (some e.value)
]

pub contains : HashMap → Key → Run Bool
contains m key = find_entry m key >>= λ found. elim found [ none ↦ ok false | some at ↦ ok true ]

-- The entry is taken out of its chain. `out` says whether `value` is not NULL: then the value goes
-- through it and is not destroyed.
pub unlink :
    Bool → HashMap → Key → List ℕ → List Entry → Entry → List Entry → Run (HashMap × Option Ptr)
unlink out m key cells before e rest = do
  hash ← hash_key key cells
  m' ← set_chain m (hash % m.bucket_count) (before ++ rest)
  ok (
    record m' {
      size = (m.size + (2 ^ 64 - 1)) % 2 ^ 64;
      dropped = if out then m.dropped else drop_value m e.value;
    },
    some e.value,
  )

pub remove : Bool → HashMap → Key → Run (HashMap × Option Ptr)
remove out m key = find_entry m key >>= λ found. elim found [
  | none ↦ ok (m, none)
  | some (before, e, rest) ↦ elim key.data_cells [
    | none ↦ fault
    | some cells ↦ unlink out m key cells before e rest
  ]
]

-- The values of a chain, then those of the chains, in the order of the loops.
abbrev pub drop_chain : List Entry → List Ptr
drop_chain [] = []
drop_chain (e ∷ rest) = e.value ∷ drop_chain rest

pub clear_chains : ℕ → ℕ → List (List Entry) → List Ptr → Run (List (List Entry) × List Ptr)
clear_chains zero i bs dropped = ok (bs, dropped)
clear_chains (suc n) i bs dropped = do
  chain ← load bs i
  bs' ← store bs i []
  clear_chains n (i + 1) bs' (dropped ++ drop_chain chain)

pub clear : HashMap → Run HashMap
clear m = elim m.buckets [
  | none ↦ ok m
  | some bs ↦ clear_chains m.bucket_count 0 bs [] >>= λ (bs', values). ok (record m {
    buckets = some bs';
    size = 0;
    dropped = if m.value_dtor then m.dropped ++ values else m.dropped;
  })
]

pub destroy : HashMap → Run HashMap
destroy m = clear m >>= λ m'. ok (record m' { buckets = none; bucket_count = 0 })
