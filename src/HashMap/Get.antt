-- ===== src/HashMap/Get.antt =====
-- `hashmap_get` and `hashmap_contains` read the finite map that the hash map holds.
use os_pi_is_cool.Base.{
  ℕ, ◌≡◌, refl, sym, ap, ◌∙◌, Bool, true, false, Option, none, some, List, [], Run, ok, Ptr,
  Ends-value,
}
use os_pi_is_cool.HashMap.{Key, HashMap, Found, get, contains}
use os_pi_is_cool.HashMap.Keys.{Names}
use os_pi_is_cool.HashMap.Chain.{lookup, Search, missing, hit, lookup-hit}
use os_pi_is_cool.HashMap.Finite.{Finite, chain_at, Holds, find_entry-Located}

module _ {m : HashMap} {f : Finite} {key : Key} {cells bytes : List ℕ} (h : Holds m f)
    (names : Names key cells bytes) where
  -- On a map that holds a finite map, `hashmap_get` of a key in readable memory returns its value,
  -- and none for a key that is not there.
  pub hashmap_get_lem : get m key ≡ ok (f key.type bytes)
  unfolding get
  hashmap_get_lem =
      let (found, runs, search) = Ends-value (find_entry-Located h names) in
      rw runs (answer found search)
    where
      answer :
          (found : Found)
          → Search key.type bytes [] (chain_at h.chains key.type bytes) found
          → (elim found as (λ _. Run (Option Ptr)) [
            | none ↦ ok none
            | some (before, e, rest) ↦ ok (some e.value)
          ])
            ≡ ok (f key.type bytes)
      answer none (missing gone) = ap ok (sym gone ∙ h.found key.type bytes)
      answer (some place) (hit front e rest split first here) = ap ok (
          sym (lookup-hit key.type bytes front e rest first here)
          ∙ ap (lookup key.type bytes) (sym split)
          ∙ h.found key.type bytes)

  -- On a map that holds a finite map, `hashmap_contains` says of a key in readable memory whether
  -- it has a value.
  pub contains-Holds :
      contains m key ≡ ok (elim (f key.type bytes) [ none ↦ false | some v ↦ true ])
  unfolding contains
  contains-Holds =
      let (found, runs, search) = Ends-value (find_entry-Located h names) in
      rw runs (answer found search)
    where
      answer :
          (found : Found)
          → Search key.type bytes [] (chain_at h.chains key.type bytes) found
          → (elim found as (λ _. Run Bool) [ none ↦ ok false | some e ↦ ok true ])
            ≡ ok (elim (f key.type bytes) [ none ↦ false | some v ↦ true ])
      answer none (missing gone) = rw (← h.found key.type bytes, gone) refl
      answer (some place) (hit front e rest split first here) =
          rw (← h.found key.type bytes, split, lookup-hit key.type bytes front e rest first here)
            refl
