-- ===== src/HashMap/Keys.antt =====
-- Which key a `hashmap_key_t` is: its type with the bytes that count. The loops over these bytes
-- stay inside them, and the hash is a function of the key.
use os_pi_is_cool.Base.{
  ℕ, zero, suc, ◌+◌, ◌^◌, ◌<◌, ◌≤◌, ◌≡◌, ◌≢◌, refl, sym, ap, ap₂, arith, Bool, true, false, ◌&&◌,
  some, List, [], ◌∷◌, ◌++◌, if◌then◌else◌, ◌==◌, length, take, drop, take-append-drop, length-take,
  length-snoc, append-cons, ok, load-append, inl, inr, Bool-cases,
}
use os_pi_is_cool.HashMap.{
  Key, Entry, key_string, strlen, key_size, memcpy, memeq, mix, hash_basis, hash_bytes, combine,
  type_bytes, hash_key, key_equals,
}

abbrev pub hash_all : List ℕ → ℕ → ℕ
hash_all [] hash = hash
hash_all (b ∷ bs) hash = hash_all bs (mix hash b)

pub hash_of : ℕ → List ℕ → ℕ
hash_of t bytes = combine (hash_all (type_bytes t) hash_basis) (hash_all bytes hash_basis)

abbrev pub same : List ℕ → List ℕ → Bool
same [] [] = true
same [] (y ∷ ys) = false
same (x ∷ xs) [] = false
same (x ∷ xs) (y ∷ ys) = if x == y then same xs ys else false

pub same-eq : (xs ys : List ℕ) → same xs ys ≡ true → xs ≡ ys
same-eq [] [] e = refl
same-eq [] (y ∷ ys) e = cc
same-eq (x ∷ xs) [] e = cc
same-eq (x ∷ xs) (y ∷ ys) e = ap₂ ◌∷◌ (ground arith) (same-eq xs ys (ground arith))

pub same_refl : (xs : List ℕ) → same xs xs ≡ true
same_refl [] = refl
same_refl (x ∷ xs) = ground (arith, same_refl xs)

same-length : (xs ys : List ℕ) → length xs ≢ length ys → same xs ys ≡ false
same-length xs ys ne = elim (Bool-cases (same xs ys)) [
  | inl e ↦ absurd (ne (ap length (same-eq xs ys e)))
  | inr e ↦ e
]

-- Whether the two keys are one.
abbrev pub at : ℕ → List ℕ → ℕ → List ℕ → Bool
at t b t' b' = (t == t') && same b b'

pub at-eq : (t : ℕ) (b : List ℕ) (t' : ℕ) (b' : List ℕ) → at t b t' b' ≡ true → (t ≡ t') × (b ≡ b')
at-eq t b t' b' e = (ground arith, same-eq b b' (ground arith))

pub at_refl : (t : ℕ) (b : List ℕ) → at t b t b ≡ true
at_refl t b = ground (arith, same_refl b)

-- The memory behind the key starts with the bytes that count, and they are all that counts.
pub record Names (key : Key) (cells : List ℕ) (bytes : List ℕ) : Type 0 where
  pub is_data : key.data_cells ≡ some cells
  pub behind : List ℕ
  pub split : cells ≡ bytes ++ behind
  pub sized : key_size key cells ≡ ok (length bytes)

-- A key of a fixed size in memory that is large enough.
pub bytes-Names :
    (t n : ℕ) (cells : List ℕ)
    → t ≢ key_string
    → n ≤ length cells
    → Names (record { type = t; data_cells = some cells; size = n }) cells (take n cells)
unfolding key_size
bytes-Names t n cells ne le = record {
  is_data = refl;
  behind = drop n cells;
  split = sym (take-append-drop n cells);
  sized = rw fixed (ap ok (omega (arith, length-take n cells)));
}
  where
    fixed : (t == key_string) ≡ false
    fixed = ground arith

-- The bytes of a string have no 0 among them.
abbrev pub IsString : List ℕ → Type 0
IsString [] = Unit
IsString (c ∷ cs) = (c ≢ 0) × IsString cs

strlen-append :
    (cs rest : List ℕ) → IsString cs → length cs < 2 ^ 64 → strlen (cs ++ 0 ∷ rest) ≡ ok (length cs)
unfolding strlen
strlen-append [] rest h lt = refl
strlen-append (c ∷ cs) rest (ne, h) lt =
    rw (more, strlen-append cs rest h (omega arith)) (ap ok (omega arith))
  where
    more : (c == 0) ≡ false
    more = ground arith

-- A string up to and with its 0.
pub string-Names :
    (cs rest : List ℕ) (size : ℕ)
    → IsString cs
    → length cs + 1 < 2 ^ 64
    → Names
        (record { type = key_string; data_cells = some (cs ++ 0 ∷ rest); size = size })
        (cs ++ 0 ∷ rest)
        (cs ++ 0 ∷ [])
unfolding key_size
string-Names cs rest size h lt = record {
  is_data = refl;
  behind = rest;
  split = append-cons cs 0 rest;
  sized = rw (strlen-append cs rest h (omega arith), length-snoc cs 0) (ap ok (omega arith));
}

hash_bytes-append :
    (xs pre rest : List ℕ) (n i hash : ℕ)
    → i ≡ length pre
    → n ≡ length xs
    → hash_bytes n i (pre ++ (xs ++ rest)) hash ≡ ok (hash_all xs hash)
unfolding hash_bytes
hash_bytes-append [] pre rest zero i hash e c = refl
hash_bytes-append [] pre rest (suc n) i hash e c = absurd (omega arith)
hash_bytes-append (x ∷ xs) pre rest zero i hash e c = absurd (omega arith)
hash_bytes-append (x ∷ xs) pre rest (suc n) i hash e c =
    rw (load-append pre x (xs ++ rest) i e, append-cons pre x (xs ++ rest))
      (hash_bytes-append xs (pre ++ x ∷ []) rest n (i + 1) (mix hash x)
        (omega (arith, length-snoc pre x)) (omega arith))

memcpy-append :
    (xs pre rest : List ℕ) (n i : ℕ)
    → i ≡ length pre
    → n ≡ length xs
    → memcpy n i (pre ++ (xs ++ rest)) ≡ ok xs
unfolding memcpy
memcpy-append [] pre rest zero i e c = refl
memcpy-append [] pre rest (suc n) i e c = absurd (omega arith)
memcpy-append (x ∷ xs) pre rest zero i e c = absurd (omega arith)
memcpy-append (x ∷ xs) pre rest (suc n) i e c =
    rw
      (
        load-append pre x (xs ++ rest) i e,
        append-cons pre x (xs ++ rest),
        memcpy-append xs (pre ++ x ∷ []) rest n (i + 1) (omega (arith, length-snoc pre x))
            (omega arith),
      )
      refl

memeq-append :
    (xs ys pre pre' rest : List ℕ) (n i : ℕ)
    → i ≡ length pre
    → i ≡ length pre'
    → n ≡ length xs
    → n ≡ length ys
    → memeq n i (pre ++ xs) (pre' ++ (ys ++ rest)) ≡ ok (same xs ys)
unfolding memeq
memeq-append [] [] pre pre' rest zero i e e' c c' = refl
memeq-append [] [] pre pre' rest (suc n) i e e' c c' = absurd (omega arith)
memeq-append [] (y ∷ ys) pre pre' rest n i e e' c c' = absurd (omega arith)
memeq-append (x ∷ xs) [] pre pre' rest n i e e' c c' = absurd (omega arith)
memeq-append (x ∷ xs) (y ∷ ys) pre pre' rest zero i e e' c c' = absurd (omega arith)
memeq-append (x ∷ xs) (y ∷ ys) pre pre' rest (suc n) i e e' c c' =
    rw
      (
        load-append pre x xs i e,
        load-append pre' y (ys ++ rest) i e',
        append-cons pre x xs,
        append-cons pre' y (ys ++ rest),
        memeq-append xs ys (pre ++ x ∷ []) (pre' ++ y ∷ []) rest n (i + 1)
            (omega (arith, length-snoc pre x)) (omega (arith, length-snoc pre' y)) (omega arith)
            (omega arith),
      )
      (elim (Bool-cases (x == y)) [ inl e ↦ rw e refl | inr e ↦ rw e refl ])

module _ {key : Key} {cells bytes : List ℕ} (h : Names key cells bytes) where
  pub hash_key-Names : hash_key key cells ≡ ok (hash_of key.type bytes)
  unfolding hash_key hash_of hash_bytes
  hash_key-Names =
      rw
        (
          h.sized,
          h.split,
          hash_bytes-append bytes [] h.behind (length bytes) 0 hash_basis refl refl,
        )
        refl

  pub memcpy-Names : memcpy (length bytes) 0 cells ≡ ok bytes
  memcpy-Names = rw h.split (memcpy-append bytes [] h.behind (length bytes) 0 refl refl)

  pub key_equals-Names :
      (e : Entry)
      → e.key_size ≡ length e.key
      → key_equals e key cells ≡ ok (at e.key_type e.key key.type bytes)
  unfolding key_equals
  key_equals-Names e sized = elim (Bool-cases (e.key_type == key.type)) [
    | inr other ↦ rw (h.sized, other) refl
    | inl same_type ↦ elim (Bool-cases (e.key_size == length bytes)) [
      | inr other ↦
          rw (h.sized, same_type, other, same-length e.key bytes (ground (arith, sized, other)))
            refl
      | inl same_size ↦
          rw
            (
              h.sized,
              same_type,
              same_size,
              h.split,
              memeq-append e.key bytes [] [] h.behind (length bytes) 0 refl refl (ground arith)
                  refl,
            )
            refl
    ]
  ]
