-- ===== src/HashMap/Finite.antt =====
-- The finite map that a hash map holds, and that each operation is the map's.
use os_pi_is_cool.Base.{
  ℕ, zero, suc, ◌+◌, ◌%◌, ◌^◌, ◌<◌, ◌≡◌, ◌≢◌, refl, sym, subst, ap, ap₂, ◌∙◌, arith, Bool, false,
  Option, none, some, List, [], ◌∷◌, if◌then◌else◌, ◌==◌, length, length-set, get_or, set,
  get_or-set_self, get_or-set_ne, load-get_or, Ptr, Ends, inl, inr, Bool-cases,
}
use native.Mathlib.Nat.{mod-lt}
use os_pi_is_cool.HashMap.{Key, Entry, HashMap, Found, find_entry}
use os_pi_is_cool.HashMap.Keys.{at, at-eq, hash_of, Names, hash_key-Names}
use os_pi_is_cool.HashMap.Chain.{lookup, IsChain, Search, find_in-Search}

-- The value of each type and key.
abbrev pub Finite : Type 0
Finite = ℕ → List ℕ → Option Ptr

abbrev pub no_keys : Finite
no_keys t b = none

abbrev pub updated : Finite → ℕ → List ℕ → Option Ptr → Finite
updated f t b r t' b' = if at t b t' b' then r else f t' b'

abbrev pub total : List (List Entry) → ℕ
total [] = 0
total (c ∷ cs) = length c + total cs

abbrev pub chain_at : List (List Entry) → ℕ → List ℕ → List Entry
chain_at bs t b = get_or bs (hash_of t b % length bs) []

pub record Holds (m : HashMap) (f : Finite) : Type 0 where
  pub chains : List (List Entry)
  pub is_buckets : m.buckets ≡ some chains
  pub counted : m.bucket_count ≡ length chains
  pub some_bucket : 0 < length chains
  pub in_order : (i : ℕ) → IsChain (get_or chains i [])
  pub found : (t : ℕ) (b : List ℕ) → lookup t b (chain_at chains t b) ≡ f t b
  pub sized : m.size ≡ total chains % 2 ^ 64

pub total-set :
    (bs : List (List Entry)) (i : ℕ) (c : List Entry)
    → i < length bs
    → total (set bs i c) + length (get_or bs i []) ≡ total bs + length c
total-set [] i c lt = absurd (omega arith)
total-set (d ∷ bs) zero c lt = omega arith
total-set (d ∷ bs) (suc i) c lt = omega (arith, total-set bs i c (omega arith))

in_order-set :
    (bs : List (List Entry)) (i : ℕ) (c : List Entry)
    → i < length bs
    → IsChain c
    → ((j : ℕ) → IsChain (get_or bs j []))
    → (j : ℕ) → IsChain (get_or (set bs i c) j [])
in_order-set bs i c lt h all j = elim (Bool-cases (i == j)) [
  | inl here ↦
      let eq : i ≡ j = ground arith in
      subst (λ k. IsChain (get_or (set bs i c) k [])) eq (rw (get_or-set_self bs i c [] lt) h)
  | inr ne ↦ rw (get_or-set_ne bs i j c [] (ground arith)) (all j)
]

-- A chain that changes for one key only changes the map for this key only.
found-set :
    (bs : List (List Entry)) (f : Finite) (t : ℕ) (b : List ℕ) (c : List Entry) (r : Option Ptr)
    → hash_of t b % length bs < length bs
    → ((t' : ℕ) (b' : List ℕ) → lookup t' b' (chain_at bs t' b') ≡ f t' b')
    → ((t' : ℕ) (b' : List ℕ)
        → lookup t' b' c ≡ (if at t b t' b' then r else lookup t' b' (chain_at bs t b)))
    → (t' : ℕ) (b' : List ℕ)
    → lookup t' b' (get_or (set bs (hash_of t b % length bs) c) (hash_of t' b' % length bs) [])
      ≡ updated f t b r t' b'
found-set bs f t b c r lt old changed t' b' =
    elim (Bool-cases (hash_of t b % length bs == hash_of t' b' % length bs)) [
      | inl here ↦
          let eq : hash_of t b % length bs ≡ hash_of t' b' % length bs = ground arith in
          rw (← eq, get_or-set_self bs (hash_of t b % length bs) c [] lt, changed t' b')
            (ap (λ o. if at t b t' b' then r else o)
              (ap (λ i. lookup t' b' (get_or bs i [])) eq ∙ old t' b'))
      | inr ne ↦ elim (Bool-cases (at t b t' b')) [
        | inl one ↦
            let (et, eb) = at-eq t b t' b' one in
            let apart : hash_of t b % length bs ≢ hash_of t' b' % length bs = ground arith in
            absurd (apart (ap₂ (λ x y. hash_of x y % length bs) et eb))
        | inr other ↦
            rw
              (
                get_or-set_ne bs (hash_of t b % length bs) (hash_of t' b' % length bs) c []
                    (ground arith),
                other,
              )
              (old t' b')
      ]
    ]

-- Where the search for a key in the map ends.
abbrev pub Located : {m : HashMap} {f : Finite} → Holds m f → ℕ → List ℕ → Found → Type 0
Located h t b = Search t b [] (chain_at h.chains t b)

pub find_entry-Located :
    {m : HashMap} {f : Finite} {key : Key} {cells bytes : List ℕ} (h : Holds m f)
    → Names key cells bytes
    → Ends (Located h key.type bytes) ⊥ (find_entry m key)
unfolding find_entry
find_entry-Located {m} {key} {bytes} h names =
    rw
      (
        some_count,
        names.is_data,
        hash_key-Names names,
        h.is_buckets,
        h.counted,
        load-get_or h.chains _ [] (mod-lt (hash_of key.type bytes) h.some_bucket),
      )
      (find_in-Search [] (chain_at h.chains key.type bytes) names (h.in_order _))
  where
    some_count : (m.bucket_count == 0) ≡ false
    some_count = ground (arith, h.counted, h.some_bucket)

-- The map with another chain in the bucket of the key, if that chain is the old one but for the key.
pub changed-Holds :
    {m : HashMap} {f : Finite} (h : Holds m f) (t : ℕ) (b : List ℕ) (c : List Entry)
    (r : Option Ptr) (count size : ℕ) (dtor : Bool) (dropped : List Ptr)
    → count ≡ length h.chains
    → IsChain c
    → ((t' : ℕ) (b' : List ℕ)
        → lookup t' b' c ≡ (if at t b t' b' then r else lookup t' b' (chain_at h.chains t b)))
    → size ≡ (total (set h.chains (hash_of t b % length h.chains) c)) % 2 ^ 64
    → Holds
        (record {
          buckets = some (set h.chains (hash_of t b % length h.chains) c);
          bucket_count = count;
          size = size;
          value_dtor = dtor;
          dropped = dropped;
        })
        (updated f t b r)
changed-Holds h t b c r count size dtor dropped counted is_chain changed sized = record {
  chains = set h.chains (hash_of t b % length h.chains) c;
  is_buckets = refl;
  counted = counted ∙ sym (length-set h.chains _ c);
  some_bucket = omega (arith, h.some_bucket, length-set h.chains (hash_of t b % length h.chains) c);
  in_order = in_order-set h.chains _ c lt is_chain h.in_order;
  found = λ t' b'.
      rw (length-set h.chains (hash_of t b % length h.chains) c)
        (found-set h.chains _ t b c r lt h.found changed t' b');
  sized = sized;
}
  where
    lt : hash_of t b % length h.chains < length h.chains
    lt = mod-lt (hash_of t b) h.some_bucket
