-- ===== src/HashMap/Clear.antt =====
-- `hashmap_new` and `hashmap_clear`: the map without keys.
use os_pi_is_cool.Base.{
  ℕ, zero, suc, ◌+◌, ◌*◌, ◌%◌, ◌^◌, ◌<◌, ◌≡◌, refl, sym, subst, ap, ◌∙◌, arith, Bool, some, List,
  [], ◌∷◌, ◌++◌, map, append_assoc, append-nil, append-cons, if◌then◌else◌, ◌==◌, length,
  length-replicate, get_or, replicate, load-append, store-append, ok, Ptr, Allocator, OutOfMemory,
  Ends, returns, stops, inl, inr, Option-cases,
}
use os_pi_is_cool.HashMap.{Entry, HashMap, new, clear_chains, clear, drop_chain}
use os_pi_is_cool.HashMap.Chain.{lookup, ended}
use os_pi_is_cool.HashMap.Finite.{Finite, no_keys, total, Holds}

abbrev pub no_chains : ℕ → List (List Entry)
no_chains n = replicate n []

get_or-replicate : (n i : ℕ) → get_or (no_chains n) i [] ≡ []
get_or-replicate zero i = refl
get_or-replicate (suc n) zero = refl
get_or-replicate (suc n) (suc i) = get_or-replicate n i

total-replicate : (n : ℕ) → total (no_chains n) ≡ 0
total-replicate zero = refl
total-replicate (suc n) = omega (arith, total-replicate n)

-- Only empty chains.
emptied-Holds :
    (n count : ℕ) (dtor : Bool) (dropped : List Ptr)
    → 0 < n
    → count ≡ n
    → Holds
        (record {
          buckets = some (no_chains n);
          bucket_count = count;
          size = 0;
          value_dtor = dtor;
          dropped = dropped;
        })
        no_keys
emptied-Holds n count dtor dropped lt eq = record {
  chains = no_chains n;
  is_buckets = refl;
  counted = eq ∙ sym (length-replicate {A = List Entry} n []);
  some_bucket = omega (arith, lt, length-replicate {A = List Entry} n []);
  in_order = λ i. rw (get_or-replicate n i) ended;
  found = λ t b. ap (lookup t b) (get_or-replicate n _);
  sized = rw (total-replicate n) refl;
}

-- A new map holds no key; it has the buckets asked for, or 16 for none. It is fatal only for want
-- of memory.
pub new-Holds :
    (k : Allocator) (bucket_count : ℕ) (value_dtor : Bool)
    → Ends
        (λ m.
          Holds m no_keys
          × (m.bucket_count ≡ (if bucket_count == 0 then 16 else bucket_count))
          × (m.value_dtor ≡ value_dtor)
          × (m.dropped ≡ []))
        (OutOfMemory k)
        (new k bucket_count value_dtor)
unfolding new
new-Holds k bucket_count value_dtor =
    elim (Option-cases (k.alloc (8 * (if bucket_count == 0 then 16 else bucket_count) % 2 ^ 64))) [
      | inl refused ↦ rw (refused, new) (stops (_, refused))
      | inr (cells, granted) ↦
          rw (granted, new)
            (returns (emptied-Holds _ _ value_dtor [] (ground arith) refl, refl, refl, refl))
    ]

-- The values of the chains in the order of the buckets.
abbrev pub values : List (List Entry) → List Ptr
values [] = []
values (c ∷ cs) = map (λ (e : Entry). e.value) c ++ values cs

drop_chain_lem : (c : List Entry) → drop_chain c ≡ map (λ (e : Entry). e.value) c
drop_chain_lem [] = refl
drop_chain_lem (e ∷ rest) = ap (λ vs. e.value ∷ vs) (drop_chain_lem rest)

replicate_snoc : (n : ℕ) → no_chains n ++ ([] ∷ []) ≡ [] ∷ no_chains n
replicate_snoc zero = refl
replicate_snoc (suc n) = ap (λ cs. [] ∷ cs) (replicate_snoc n)

clear_chains-append :
    (cs : List (List Entry)) (n i : ℕ) (dropped : List Ptr)
    → n ≡ length cs
    → clear_chains n i (no_chains i ++ cs) dropped
      ≡ ok (no_chains (i + length cs), dropped ++ values cs)
unfolding clear_chains
clear_chains-append [] zero i dropped e =
    rw (append-nil, append-nil) (ap (λ k. ok (no_chains k, dropped)) (omega arith))
clear_chains-append [] (suc n) i dropped e = absurd (omega arith)
clear_chains-append (c ∷ cs) zero i dropped e = absurd (omega arith)
clear_chains-append (c ∷ cs) (suc n) i dropped e =
    rw
      (
        load-append (no_chains i) c cs i (sym (length-replicate {A = List Entry} i [])),
        store-append (no_chains i) c cs i [] (sym (length-replicate {A = List Entry} i [])),
        append-cons (no_chains i) [] cs,
        replicate_snoc i,
        ← append_assoc dropped (map (λ (e : Entry). e.value) c) (values cs),
        drop_chain_lem c,
      )
      (subst
        (λ j.
          clear_chains n j ([] ∷ (no_chains i ++ cs)) (dropped ++ map (λ (e : Entry). e.value) c)
          ≡ ok (
            no_chains (i + suc (length cs)),
            (dropped ++ map (λ (e : Entry). e.value) c) ++ values cs,
          ))
        next
        (clear_chains-append cs n (suc i) (dropped ++ map (λ (e : Entry). e.value) c) (omega arith)
          ∙ ap (λ j. ok (no_chains j, (dropped ++ map (λ (e : Entry). e.value) c) ++ values cs))
              (omega arith)))
  where
    next : suc i ≡ i + 1
    next = omega arith

-- `hashmap_clear` of a map that holds a finite map leaves one that holds no key; if there is a
-- destructor, each value goes to it once, bucket after bucket.
pub hashmap_clear_lem :
    {m : HashMap} {f : Finite} (h : Holds m f)
    → Ends
        (λ m'.
          Holds m' no_keys
          × (m'.value_dtor ≡ m.value_dtor)
          × (m'.dropped ≡ (if m.value_dtor then m.dropped ++ values h.chains else m.dropped)))
        ⊥
        (clear m)
unfolding clear
hashmap_clear_lem {m} h =
    rw (h.is_buckets, clear_chains-append h.chains m.bucket_count 0 [] h.counted, start)
      (returns (emptied-Holds _ _ m.value_dtor _ h.some_bucket h.counted, refl, refl))
  where
    start : 0 + length h.chains ≡ length h.chains
    start = omega arith
