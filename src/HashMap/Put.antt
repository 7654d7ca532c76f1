-- ===== src/HashMap/Put.antt =====
-- `hashmap_put` changes the finite map at one key, or reports that there was no memory.
use os_pi_is_cool.Base.{
  ℕ, ◌%◌, ◌^◌, ◌<◌, ◌≡◌, refl, sym, subst, ap, ◌∙◌, arith, Bool, true, false, Option, none, some,
  List, [], ◌∷◌, ◌++◌, if◌then◌else◌, length, length-append, set, load-get_or, store-set, Run,
  ◌>>=◌, Ptr, Allocator, OutOfMemory, Ends, returns, Ends-value, inl, inr, Option-cases,
}
use native.Mathlib.Nat.{mod-lt}
use os_pi_is_cool.HashMap.{
  Key, Entry, HashMap, Found, hash_key, put_new, put_found, put_at, put_checked, put, drop_value,
}
use os_pi_is_cool.HashMap.Keys.{at, at-eq, hash_of, Names, hash_key-Names, memcpy-Names}
use os_pi_is_cool.HashMap.Chain.{
  lookup, is_at, IsChain, linked, Search, missing, hit, lookup-hit, lookup-replaced,
  replaced-IsChain,
}
use os_pi_is_cool.HashMap.Finite.{
  Finite, updated, total, total-set, chain_at, Holds, find_entry-Located, changed-Holds,
}

module _ {m : HashMap} {f : Finite} {key : Key} {cells bytes : List ℕ} (h : Holds m f)
    (names : Names key cells bytes) where
  -- What becomes of the destructor's log if a value is put where `old` was.
  abbrev after_put : Option Ptr → List Ptr
  after_put none = m.dropped
  after_put (some old) = if m.value_dtor then m.dropped ++ old ∷ [] else m.dropped

  -- Either the key has the value now and all else is as before, or nothing has changed since there
  -- was no memory for a new key.
  abbrev pub Put : Allocator → Ptr → HashMap × Bool → Type 0
  Put k v (m', true) =
      Holds m' (updated f key.type bytes (some v))
      × (m'.value_dtor ≡ m.value_dtor)
      × (m'.dropped ≡ after_put (f key.type bytes))
  Put k v (m', false) = (m' ≡ m) × (f key.type bytes ≡ none) × OutOfMemory k

  abbrev bucket : ℕ
  bucket = hash_of key.type bytes % length h.chains

  bucket_lt : bucket < length h.chains
  bucket_lt = mod-lt (hash_of key.type bytes) h.some_bucket

  put_new-Put :
      (k : Allocator) (v : Ptr)
      → lookup key.type bytes (chain_at h.chains key.type bytes) ≡ none
      → Ends (Put k v) ⊥ (put_new k m key cells v)
  unfolding put_new
  put_new-Put k v gone = elim (Option-cases (k.alloc (length bytes))) [
    | inl refused ↦ rw (names.sized, refused) (returns (refl, unknown, (_, refused)))
    | inr (copy, granted) ↦ elim (Option-cases (k.alloc 40)) [
      | inl refused ↦
          rw (names.sized, granted, memcpy-Names names, refused)
            (returns (refl, unknown, (_, refused)))
      | inr (entry, granted') ↦
          rw
            (
              names.sized,
              granted,
              memcpy-Names names,
              granted',
              hash_key-Names names,
              h.is_buckets,
              h.counted,
              load-get_or h.chains bucket [] bucket_lt,
              store-set h.chains bucket _ bucket_lt,
            )
            (returns (
              changed-Holds h key.type bytes _ (some v) _ _ m.value_dtor m.dropped refl
                  (linked refl gone (h.in_order bucket)) (λ t' b'. refl)
                  (omega (arith, h.sized, total-set h.chains bucket _ bucket_lt)),
              refl,
              rw unknown refl,
            ))
    ]
  ]
    where
      unknown : f key.type bytes ≡ none
      unknown = sym (h.found key.type bytes) ∙ gone

  put_found-Put :
      (k : Allocator) (v : Ptr) (front : List Entry) (e : Entry) (rest : List Entry)
      → chain_at h.chains key.type bytes ≡ front ++ e ∷ rest
      → lookup key.type bytes front ≡ none
      → is_at e key.type bytes ≡ true
      → Ends (Put k v) ⊥ (put_found m bucket (front, e, rest) v)
  unfolding put_found
  put_found-Put k v front e rest split first here =
      rw
        (h.is_buckets, store-set h.chains bucket (front ++ record e { value = v } ∷ rest) bucket_lt)
        (returns (
          changed-Holds h key.type bytes _ (some v) _ _ m.value_dtor (drop_value m e.value)
              h.counted (replaced-IsChain e rest front v (subst IsChain split (h.in_order bucket)))
              replaced sizes,
          refl,
          rw known refl,
        ))
    where
      one : (e.key_type ≡ key.type) × (e.key ≡ bytes)
      one = at-eq e.key_type e.key key.type bytes here

      known : f key.type bytes ≡ some e.value
      known =
          sym (h.found key.type bytes)
          ∙ ap (lookup key.type bytes) split
          ∙ lookup-hit key.type bytes front e rest first here

      replaced :
          (t' : ℕ) (b' : List ℕ)
          → lookup t' b' (front ++ record e { value = v } ∷ rest) ≡ (
              if at key.type bytes t' b'
              then some v
              else lookup t' b' (chain_at h.chains key.type bytes))
      replaced t' b' =
          rw (split, ← one.0, ← one.1)
            (lookup-replaced e rest front v t' b' (rw (one.0, one.1) first))

      sizes : m.size ≡ total (set h.chains bucket (front ++ record e { value = v } ∷ rest)) % 2 ^ 64
      sizes = omega (
        arith,
        h.sized,
        total-set h.chains bucket (front ++ record e { value = v } ∷ rest) bucket_lt,
        ap length split,
        length-append front (e ∷ rest),
        length-append front (record e { value = v } ∷ rest),
      )

  put_at-Put : (k : Allocator) (v : Ptr) → Ends (Put k v) ⊥ (put_at k m key cells v)
  unfolding put_at
  put_at-Put k v =
      let (found, runs, search) = Ends-value (find_entry-Located h names) in
      rw runs (answer found search)
    where
      answer :
          (found : Found)
          → Search key.type bytes [] (chain_at h.chains key.type bytes) found
          → Ends (Put k v) ⊥ (elim found as (λ _. Run (HashMap × Bool)) [
            | none ↦ put_new k m key cells v
            | some place ↦
                hash_key key cells >>= λ hash. put_found m (hash % m.bucket_count) place v
          ])
      answer none (missing gone) = put_new-Put k v gone
      answer (some place) (hit front e rest split first here) = rw (hash_key-Names names) (
          subst
            (λ n. Ends (Put k v) ⊥ (put_found m (hash_of key.type bytes % n) (front, e, rest) v))
            (sym h.counted) (put_found-Put k v front e rest split first here))

  -- On a map that holds a finite map, `hashmap_put` gives a key in readable memory the value, for
  -- a new key and for one that was there, whose old value goes to the destructor; it fails only
  -- for a new key, if `kmalloc` refuses, and then changes nothing.
  pub put-Holds : (k : Allocator) (v : Ptr) → Ends (Put k v) ⊥ (put k m key v)
  unfolding put
  put-Holds k v =
      subst (λ bs. Ends (Put k v) ⊥ (put_checked bs key.data_cells k m key v)) (sym h.is_buckets)
        (subst (λ d. Ends (Put k v) ⊥ (put_checked (some h.chains) d k m key v)) (sym names.is_data)
          (put_at-Put k v))
