-- ===== src/Tests/Maps.antt =====
-- The hash map.
use os_pi_is_cool.Base.{
  ℕ, zero, suc, ◌%◌, ◌≡◌, refl, ap, true, Option, some, List, [], ◌∷◌, arith, ok, Ends, get_or,
}
use os_pi_is_cool.HashMap.{Key, Entry, HashMap, put, get, remove, clear}
use os_pi_is_cool.HashMap.Keys.{Names, string-Names, hash_of}
use os_pi_is_cool.HashMap.Chain.{lookup, IsChain, ended, linked}
use os_pi_is_cool.HashMap.Finite.{Holds, no_keys}
use os_pi_is_cool.HashMap.Get.{hashmap_get_lem}
use os_pi_is_cool.HashMap.Put.{Put, put-Holds}
use os_pi_is_cool.HashMap.Remove.{Removed, remove-Holds}
use os_pi_is_cool.HashMap.Clear.{hashmap_clear_lem}
use os_pi_is_cool.Tests.Memory.{page_allocator}

-- The value 70 for the string "ab", in a map of one bucket.
abbrev entry : Entry
entry = record { key_type = 3; key_size = 3; key = 97 ∷ 98 ∷ 0 ∷ []; value = 70 }

abbrev one_entry : HashMap
one_entry = record {
  buckets = some ((entry ∷ []) ∷ []);
  bucket_count = 1;
  size = 1;
  value_dtor = true;
  dropped = [];
}

abbrev one_value : ℕ → List ℕ → Option ℕ
one_value t b = lookup t b (entry ∷ [])

one_entry-IsChain : (i : ℕ) → IsChain (get_or ((entry ∷ []) ∷ []) i [])
one_entry-IsChain zero = linked {e = entry} refl refl ended
one_entry-IsChain (suc i) = ended

only_bucket : (t : ℕ) (b : List ℕ) → hash_of t b % 1 ≡ 0
only_bucket t b = omega arith

abbrev one_entry-Holds : Holds one_entry one_value
one_entry-Holds = record {
  chains = (entry ∷ []) ∷ [];
  is_buckets = refl;
  counted = refl;
  some_bucket = omega arith;
  in_order = one_entry-IsChain;
  found = λ t b. ap (λ i. lookup t b (get_or ((entry ∷ []) ∷ []) i [])) (only_bucket t b);
  sized = refl;
}

-- "ab" in memory with more behind it.
abbrev ab : Key
ab = record { type = 3; data_cells = some (97 ∷ 98 ∷ 0 ∷ 255 ∷ []); size = 0 }

ab-Names : Names ab (97 ∷ 98 ∷ 0 ∷ 255 ∷ []) (97 ∷ 98 ∷ 0 ∷ [])
ab-Names = string-Names (97 ∷ 98 ∷ []) (255 ∷ []) 0 (omega arith, (omega arith, _)) (omega arith)

hashmap_get_lem_example : get one_entry ab ≡ ok (some 70)
hashmap_get_lem_example = hashmap_get_lem one_entry-Holds ab-Names

put-Holds_example :
    Ends (Put one_entry-Holds ab-Names page_allocator 71) ⊥ (put page_allocator one_entry ab 71)
put-Holds_example = put-Holds one_entry-Holds ab-Names page_allocator 71

remove-Holds_example : Ends (Removed one_entry-Holds ab-Names true) ⊥ (remove true one_entry ab)
remove-Holds_example = remove-Holds one_entry-Holds ab-Names true

hashmap_clear_lem_example :
    Ends (λ m. Holds m no_keys × (m.value_dtor ≡ true) × (m.dropped ≡ 70 ∷ [])) ⊥ (clear one_entry)
hashmap_clear_lem_example = hashmap_clear_lem one_entry-Holds
