-- ===== src/HashMap/Chain.antt =====
-- The search of a chain of entries, and what a change of one entry does to the searches.
use os_pi_is_cool.Base.{
  ℕ, ◌≡◌, refl, sym, subst, ap, ◌∙◌, Bool, true, false, Option, none, some, List, [], ◌∷◌, ◌++◌,
  append_assoc, append-nil, if◌then◌else◌, length, Ptr, Ends, returns, Ends-mono, inl, inr,
  Bool-cases,
}
use os_pi_is_cool.HashMap.{Key, Entry, Found, find_in}
use os_pi_is_cool.HashMap.Keys.{at, at-eq, Names, key_equals-Names}

abbrev pub is_at : Entry → ℕ → List ℕ → Bool
is_at e t b = at e.key_type e.key t b

-- The value of the first entry with the key.
abbrev pub lookup : ℕ → List ℕ → List Entry → Option Ptr
lookup t b [] = none
lookup t b (e ∷ rest) = if is_at e t b then some e.value else lookup t b rest

-- Each entry knows the size of its key, and no key is there twice.
pub data IsChain : List Entry → Type 0 where
  ended : IsChain []
  linked :
      {e : Entry} {rest : List Entry}
      → e.key_size ≡ length e.key
      → lookup e.key_type e.key rest ≡ none
      → IsChain rest
      → IsChain (e ∷ rest)

-- What a search ends with.
pub data Search (t : ℕ) (b : List ℕ) (before chain : List Entry) : Found → Type 0 where
  missing : lookup t b chain ≡ none → Search t b before chain none
  hit :
      (front : List Entry) (e : Entry) (rest : List Entry)
      → chain ≡ front ++ e ∷ rest
      → lookup t b front ≡ none
      → is_at e t b ≡ true
      → Search t b before chain (some (before ++ front, e, rest))

further-Search :
    (t : ℕ) (b : List ℕ) (before : List Entry) (e : Entry) (rest : List Entry) {f : Found}
    → is_at e t b ≡ false
    → Search t b (before ++ e ∷ []) rest f
    → Search t b before (e ∷ rest) f
further-Search t b before e rest ne (missing h) = missing (rw (ne, h) refl)
further-Search t b before e rest ne (hit front e' rest' split first found) =
    subst (λ l. Search t b before (e ∷ rest) (some (l, e', rest')))
      (sym (append_assoc before (e ∷ []) front))
      (hit (e ∷ front) e' rest' (ap (λ l. e ∷ l) split) (rw (ne, first) refl) found)

pub find_in-Search :
    {key : Key} {cells bytes : List ℕ} (before chain : List Entry)
    → Names key cells bytes
    → IsChain chain
    → Ends (Search key.type bytes before chain) ⊥ (find_in key cells before chain)
unfolding find_in
find_in-Search before [] names ended = returns (missing refl)
find_in-Search {key} {bytes} before (e ∷ rest) names (linked sized new h) =
    elim (Bool-cases (is_at e key.type bytes)) [
      | inl found ↦
          rw (key_equals-Names names e sized, found)
            (returns (
              subst (λ l. Search key.type bytes before (e ∷ rest) (some (l, e, rest)))
                (append-nil before) (hit [] e rest refl refl found)))
      | inr ne ↦
          rw (key_equals-Names names e sized, ne)
            (Ends-mono (find_in-Search (before ++ e ∷ []) rest names h)
              λ f s. further-Search key.type bytes before e rest ne s)
    ]

module _ (t : ℕ) (b : List ℕ) where
  lookup-append :
      (front back : List Entry)
      → lookup t b front ≡ none
      → lookup t b (front ++ back) ≡ lookup t b back
  lookup-append [] back h = refl
  lookup-append (e ∷ front) back h = elim (Bool-cases (is_at e t b)) [
    | inl found ↦ absurd (cc (rw found at h))
    | inr ne ↦ rw ne (lookup-append front back (rw ne at h))
  ]

  pub lookup-hit :
      (front : List Entry) (e : Entry) (rest : List Entry)
      → lookup t b front ≡ none
      → is_at e t b ≡ true
      → lookup t b (front ++ e ∷ rest) ≡ some e.value
  lookup-hit front e rest first found = lookup-append front (e ∷ rest) first ∙ (rw found refl)

-- The other keys' entries are found or missed as before; `v` is what the key has now.
module _ (e : Entry) (rest : List Entry) where
  hidden :
      (x : Entry) (t : ℕ) (b : List ℕ)
      → is_at x e.key_type e.key ≡ false
      → is_at x t b ≡ true
      → is_at e t b ≡ false
  hidden x t b ne found = elim (Bool-cases (is_at e t b)) [
    | inr ne ↦ ne
    | inl here ↦ let (et, eb) = at-eq e.key_type e.key t b here in absurd (cc (ne, found, et, eb))
  ]

  pub lookup-replaced :
      (front : List Entry) (v : Ptr) (t : ℕ) (b : List ℕ)
      → lookup e.key_type e.key front ≡ none
      → lookup t b (front ++ record e { value = v } ∷ rest)
        ≡ (if is_at e t b then some v else lookup t b (front ++ e ∷ rest))
  lookup-replaced [] v t b h = elim (Bool-cases (is_at e t b)) [
    | inl here ↦ rw here refl
    | inr ne ↦ rw ne refl
  ]
  lookup-replaced (x ∷ front) v t b h = elim (Bool-cases (is_at x e.key_type e.key)) [
    | inl same_key ↦ absurd (cc (rw same_key at h))
    | inr other ↦ elim (Bool-cases (is_at x t b)) [
      | inl found ↦ rw (found, hidden x t b other found) refl
      | inr ne ↦ rw ne (lookup-replaced front v t b (rw other at h))
    ]
  ]

  pub lookup-erased :
      (front : List Entry) (t : ℕ) (b : List ℕ)
      → lookup e.key_type e.key front ≡ none
      → lookup e.key_type e.key rest ≡ none
      → lookup t b (front ++ rest) ≡ (if is_at e t b then none else lookup t b (front ++ e ∷ rest))
  lookup-erased [] t b h h' = elim (Bool-cases (is_at e t b)) [
    | inl here ↦ let (et, eb) = at-eq e.key_type e.key t b here in rw here (rw (et, eb) at h')
    | inr ne ↦ rw ne refl
  ]
  lookup-erased (x ∷ front) t b h h' = elim (Bool-cases (is_at x e.key_type e.key)) [
    | inl same_key ↦ absurd (cc (rw same_key at h))
    | inr other ↦ elim (Bool-cases (is_at x t b)) [
      | inl found ↦ rw (found, hidden x t b other found) refl
      | inr ne ↦ rw ne (lookup-erased front t b (rw other at h) h')
    ]
  ]

  -- A key that is nowhere in the chain is nowhere in the changed chains.
  still_missing :
      (front : List Entry) (v : Ptr) (t : ℕ) (b : List ℕ)
      → lookup t b (front ++ e ∷ rest) ≡ none
      → (lookup t b (front ++ rest) ≡ none)
        × (lookup t b (front ++ record e { value = v } ∷ rest) ≡ none)
  still_missing [] v t b h = elim (Bool-cases (is_at e t b)) [
    | inl here ↦ absurd (cc (rw here at h))
    | inr ne ↦ let gone : lookup t b rest ≡ none = rw ne at h in (gone, rw ne gone)
  ]
  still_missing (x ∷ front) v t b h = elim (Bool-cases (is_at x t b)) [
    | inl here ↦ absurd (cc (rw here at h))
    | inr ne ↦ rw ne (still_missing front v t b (rw ne at h))
  ]

  pub entry-IsChain :
      (front : List Entry)
      → IsChain (front ++ e ∷ rest)
      → (e.key_size ≡ length e.key) × (lookup e.key_type e.key rest ≡ none)
  entry-IsChain [] (linked sized new h) = (sized, new)
  entry-IsChain (x ∷ front) (linked sized new h) = entry-IsChain front h

  pub replaced-IsChain :
      (front : List Entry) (v : Ptr)
      → IsChain (front ++ e ∷ rest)
      → IsChain (front ++ record e { value = v } ∷ rest)
  replaced-IsChain [] v (linked sized new h) = linked sized new h
  replaced-IsChain (x ∷ front) v (linked sized new h) =
      linked sized (still_missing front v x.key_type x.key new).1 (replaced-IsChain front v h)

  pub erased-IsChain : (front : List Entry) → IsChain (front ++ e ∷ rest) → IsChain (front ++ rest)
  erased-IsChain [] (linked sized new h) = h
  erased-IsChain (x ∷ front) (linked sized new h) =
      linked sized (still_missing front 0 x.key_type x.key new).0 (erased-IsChain front h)
