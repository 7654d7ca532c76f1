-- ===== src/HashMap/Remove.antt =====
-- `hashmap_remove` takes one key out of the finite map.
use os_pi_is_cool.Base.{
  ℕ, ◌+◌, ◌-◌, ◌%◌, ◌^◌, ◌<◌, ◌≡◌, refl, sym, subst, ap, ap₂, ◌∙◌, arith, Bool, true, Option, none,
  some, List, [], ◌∷◌, ◌++◌, if◌then◌else◌, length, length-append, set, store-set, Run, ok, fault,
  Ptr, Ends, returns, Ends-value, inl, inr, Bool-cases,
}
use native.Mathlib.Nat.{mod-lt}
use os_pi_is_cool.HashMap.{Key, Entry, HashMap, Found, unlink, remove}
use os_pi_is_cool.HashMap.Keys.{at, at-eq, hash_of, Names, hash_key-Names}
use os_pi_is_cool.HashMap.Chain.{
  lookup, is_at, IsChain, Search, missing, hit, lookup-hit, lookup-erased, entry-IsChain,
  erased-IsChain,
}
use os_pi_is_cool.HashMap.Finite.{
  Finite, updated, total, total-set, chain_at, Holds, find_entry-Located, changed-Holds,
}

module _ {m : HashMap} {f : Finite} {key : Key} {cells bytes : List ℕ} (h : Holds m f)
    (names : Names key cells bytes) where
  -- What `remove` returns and leaves; `out` says that the caller takes the value.
  abbrev after_remove : Bool → Option Ptr → List Ptr
  after_remove out none = m.dropped
  after_remove out (some old) =
      if out then m.dropped else if m.value_dtor then m.dropped ++ old ∷ [] else m.dropped

  abbrev pub Removed : Bool → HashMap × Option Ptr → Type 0
  Removed out (m', taken) =
      Holds m' (updated f key.type bytes none)
      × (taken ≡ f key.type bytes)
      × (m'.value_dtor ≡ m.value_dtor)
      × (m'.dropped ≡ after_remove out (f key.type bytes))

  abbrev bucket : ℕ
  bucket = hash_of key.type bytes % length h.chains

  bucket_lt : bucket < length h.chains
  bucket_lt = mod-lt (hash_of key.type bytes) h.some_bucket

  updated-none : f key.type bytes ≡ none → Holds m (updated f key.type bytes none)
  updated-none gone = record {
    chains = h.chains;
    is_buckets = h.is_buckets;
    counted = h.counted;
    some_bucket = h.some_bucket;
    in_order = h.in_order;
    found = λ t' b'. h.found t' b' ∙ same_value t' b';
    sized = h.sized;
  }
    where
      same_value : (t' : ℕ) (b' : List ℕ) → f t' b' ≡ updated f key.type bytes none t' b'
      same_value t' b' = elim (Bool-cases (at key.type bytes t' b')) [
        | inl one ↦
            let (et, eb) = at-eq key.type bytes t' b' one in rw one (ap₂ f (sym et) (sym eb) ∙ gone)
        | inr other ↦ rw other refl
      ]

  unlink-Removed :
      (out : Bool) (front : List Entry) (e : Entry) (rest : List Entry)
      → chain_at h.chains key.type bytes ≡ front ++ e ∷ rest
      → lookup key.type bytes front ≡ none
      → is_at e key.type bytes ≡ true
      → Ends (Removed out) ⊥ (unlink out m key cells front e rest)
  unfolding unlink
  unlink-Removed out front e rest split first here =
      rw
        (
          hash_key-Names names,
          h.is_buckets,
          h.counted,
          store-set h.chains bucket (front ++ rest) bucket_lt,
        )
        (returns (
          changed-Holds h key.type bytes _ none _ _ m.value_dtor _ refl
              (erased-IsChain e rest front chain) erased sizes,
          sym known,
          refl,
          rw known refl,
        ))
    where
      chain : IsChain (front ++ e ∷ rest)
      chain = subst IsChain split (h.in_order bucket)

      one : (e.key_type ≡ key.type) × (e.key ≡ bytes)
      one = at-eq e.key_type e.key key.type bytes here

      known : f key.type bytes ≡ some e.value
      known =
          sym (h.found key.type bytes)
          ∙ ap (lookup key.type bytes) split
          ∙ lookup-hit key.type bytes front e rest first here

      erased :
          (t' : ℕ) (b' : List ℕ)
          → lookup t' b' (front ++ rest) ≡ (
              if at key.type bytes t' b'
              then none
              else lookup t' b' (chain_at h.chains key.type bytes))
      erased t' b' =
          rw (split, ← one.0, ← one.1)
            (lookup-erased e rest front t' b' (rw (one.0, one.1) first)
              (entry-IsChain e rest front chain).1)

      sizes :
          (m.size + (2 ^ 64 - 1)) % 2 ^ 64 ≡ total (set h.chains bucket (front ++ rest)) % 2 ^ 64
      sizes = omega (
        arith,
        h.sized,
        total-set h.chains bucket (front ++ rest) bucket_lt,
        ap length split,
        length-append front (e ∷ rest),
        length-append front rest,
      )

  -- On a map that holds a finite map, `hashmap_remove` of a key in readable memory returns its
  -- value and takes the key out; the value goes to the destructor if the caller does not take it.
  -- For a key that is not there it returns none, and the finite map and the destructor's log are
  -- as before.
  pub remove-Holds : (out : Bool) → Ends (Removed out) ⊥ (remove out m key)
  unfolding remove
  remove-Holds out =
      let (found, runs, search) = Ends-value (find_entry-Located h names) in
      rw runs (answer found search)
    where
      answer :
          (found : Found)
          → Search key.type bytes [] (chain_at h.chains key.type bytes) found
          → Ends (Removed out) ⊥ (elim found as (λ _. Run (HashMap × Option Ptr)) [
            | none ↦ ok (m, none)
            | some (before, e, rest) ↦ elim key.data_cells [
              | none ↦ fault
              | some cells' ↦ unlink out m key cells' before e rest
            ]
          ])
      answer none (missing gone) =
          let unknown = sym (h.found key.type bytes) ∙ gone in
          returns (updated-none unknown, sym unknown, refl, rw unknown refl)
      answer (some place) (hit front e rest split first here) =
          rw names.is_data (unlink-Removed out front e rest split first here)
