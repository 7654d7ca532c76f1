-- ===== src/Fs/InodeCache/Leaves.antt =====
-- A thread that has loaded an inode, or waited for it, or gives it back.
use os_pi_is_cool.Base.{
  ℕ, zero, suc, ◌+◌, ◌<◌, ◌≡◌, ◌≢◌, inl, inr, refl, sym, ap, ◌∙◌, arith, true, false, Option, none,
  some, List, ◌∷◌, if◌then◌else◌, Bool-cases, Ptr,
}
use os_pi_is_cool.Thread.{update}
use os_pi_is_cool.Fs.Errors.{FsError, pos}
use os_pi_is_cool.Fs.InodeCache.{CacheNode, find_inode, unlinked, id_of, decrement, not_positive}
use os_pi_is_cool.Fs.InodeCache.Users.{
  Phase, loads, waits, holds, User, user, is_loads, of_id, loads_id, count,
}
use os_pi_is_cool.Fs.InodeCache.Sound.{
  All, All-map, Counted, unused, used, Ready, Sound, update-here,
}
use os_pi_is_cool.Fs.InodeCache.Change.{counted_at, changed-Sound, unlinked-Sound}
use os_pi_is_cool.Fs.InodeCache.Turns.{Ready-same, Ready-loading, count-user, count-other}

decrement-suc : (n : ℕ) → decrement (pos (1 + n)) ≡ pos n
decrement-suc n = let same : 1 + n ≡ suc n = omega arith in rw same refl

not_positive-zero : (n : ℕ) → not_positive (pos n) ≡ true → n ≡ 0
not_positive-zero zero h = refl
not_positive-zero (suc n) h = absurd (cc)

not_positive-more : (n : ℕ) → not_positive (pos n) ≡ false → 0 < n
not_positive-more zero h = absurd (cc)
not_positive-more (suc n) h = omega arith

module _ {A : Type 0} (nodes : List Ptr) (heap : Ptr → CacheNode A) (os : List User) (id : ℕ)
    (p : Ptr) where
  -- The counts without the user in front.
  others_of :
      (phase : Phase) (id' : ℕ)
      → id' ≢ id
      → (count (of_id id') os ≡ count (of_id id') (user phase id p ∷ os))
        × (count (loads_id id') os ≡ count (loads_id id') (user phase id p ∷ os))
  others_of phase id' ne =
      let (uses, reads) = count-other phase id p os id' ne in (sym uses, sym reads)

  refs_left :
      (phase : Phase)
      → Sound nodes heap (user phase id p ∷ os)
      → decrement (heap p).num_refs ≡ pos (count (of_id id) os)
  refs_left phase s =
      let (refs, reading) = counted_at s id p s.linked.0.0 in
      ap decrement (refs ∙ ap pos (count-user phase id p os).0)
      ∙ decrement-suc (count (of_id id) os)

  -- While a thread reads the inode the node is loading, and no other thread reads it.
  only_reader :
      Sound nodes heap (user loads id p ∷ os)
      → ((heap p).loading ≡ true) × (count (loads_id id) os ≡ 0)
  only_reader s =
      let (refs, reading) = counted_at s id p s.linked.0.0 in
      let (uses, reads) = count-user loads id p os in
      elim (Bool-cases (heap p).loading) [
        | inl busy ↦
            let one : count (loads_id id) (user loads id p ∷ os) ≡ 1 = rw busy at reading in
            (busy, omega (arith, one, reads))
        | inr idle ↦
            let none_there : count (loads_id id) (user loads id p ∷ os) ≡ 0 = rw idle at reading in
            absurd (omega (arith, none_there, reads))
      ]

  pub loaded-Sound :
      (inode : A)
      → Sound nodes heap (user loads id p ∷ os)
      → Sound nodes
          (update heap p (record (heap p) { inode = inode; load_error = none; loading = false }))
          (user holds id p ∷ os)
  loaded-Sound inode s =
      let n = record (heap p) { inode = inode; load_error = none; loading = false } in
      let (refs, reading) = counted_at s id p s.linked.0.0 in
      let (busy, alone) = only_reader s in
      let (uses, reads) = count-user loads id p os in
      let (uses', reads') = count-user holds id p os in
      changed-Sound s id p n (user holds id p ∷ os) s.linked.0.0 refl
        (λ id' ne.
          let (same, same_reads) = count-other holds id p os id' ne in
          let (before, before_reads) = count-other loads id p os id' ne in
          (same ∙ sym before, same_reads ∙ sym before_reads))
        (refs ∙ ap pos (uses ∙ sym uses')) (omega (arith, uses')) (reads' ∙ omega (arith, alone))
        (
          (
            s.linked.0.0,
            (
              ap (λ x. x.loading) (update-here heap p n),
              ap (λ x. x.load_error) (update-here heap p n),
            ),
          ),
          All-map os (λ u (at, ready). (at, Ready-loading heap p n u.phase u.at busy ready))
              s.linked.1,
        )

  -- The node after a failed load.
  abbrev failed_node : FsError → CacheNode A
  failed_node e = record (heap p) {
    load_error = some e;
    loading = false;
    num_refs = decrement (heap p).num_refs;
  }

  links_failed :
      (e : FsError)
      → Sound nodes heap (user loads id p ∷ os)
      → All
          (λ u.
            (find_inode u.id (id_of heap) nodes ≡ some u.at)
            × Ready (update heap p (failed_node e)) u.phase u.at)
          os
  links_failed e s =
      All-map os
        (λ u (at, ready).
          (at, Ready-loading heap p (failed_node e) u.phase u.at (only_reader s).0 ready))
        s.linked.1

  pub failed_kept :
      (e : FsError)
      → Sound nodes heap (user loads id p ∷ os)
      → not_positive (decrement (heap p).num_refs) ≡ false
      → Sound nodes (update heap p (failed_node e)) os
  failed_kept e s more =
      changed-Sound s id p (failed_node e) os s.linked.0.0 refl (others_of loads)
        (refs_left loads s)
        (not_positive-more (count (of_id id) os) (ap not_positive (sym (refs_left loads s)) ∙ more))
        (only_reader s).1 (links_failed e s)

  pub failed_gone :
      (e : FsError)
      → Sound nodes heap (user loads id p ∷ os)
      → not_positive (decrement (heap p).num_refs) ≡ true
      → Sound (unlinked p nodes) (update heap p (failed_node e)) os
  failed_gone e s gone =
      unlinked-Sound s id p (failed_node e) os s.linked.0.0 refl (others_of loads)
        (not_positive-zero (count (of_id id) os) (ap not_positive (sym (refs_left loads s)) ∙ gone))
        (links_failed e s)

  -- A thread that waited uses the inode.
  pub woken-Sound :
      (heap p).loading ≡ false
      → (heap p).load_error ≡ none
      → Sound nodes heap (user waits id p ∷ os)
      → Sound nodes heap (user holds id p ∷ os)
  woken-Sound idle fine s = record {
    distinct = s.distinct;
    counted = λ id'. again id' (find_inode id' (id_of heap) nodes) (s.counted id');
    linked = ((s.linked.0.0, (idle, fine)), s.linked.1);
  }
    where
      again :
          (id' : ℕ) (o : Option Ptr)
          → Counted heap (user waits id p ∷ os) id' o
          → Counted heap (user holds id p ∷ os) id' o
      again id' none (unused gone) = unused gone
      again id' (some q) (used refs more reading) = used refs more reading

  -- The node that a reference was given back to.
  abbrev dropped_node : CacheNode A
  dropped_node = record (heap p) { num_refs = decrement (heap p).num_refs }

  module _ (phase : Phase) (no_reader : is_loads phase ≡ false) (idle : (heap p).loading ≡ false)
      (s : Sound nodes heap (user phase id p ∷ os)) where
    links_dropped :
        All
          (λ u.
            (find_inode u.id (id_of heap) nodes ≡ some u.at)
            × Ready (update heap p dropped_node) u.phase u.at)
          os
    links_dropped =
        All-map os
          (λ u (at, ready). (at, Ready-same heap p dropped_node u.phase u.at refl refl ready))
          s.linked.1

    no_reader_left : count (loads_id id) os ≡ (if (heap p).loading then 1 else 0)
    no_reader_left =
        let (uses, reads) = count-user phase id p os in
        let same : count (loads_id id) (user phase id p ∷ os) ≡ 0 + count (loads_id id) os =
          reads ∙ ap (λ b. (if b then 1 else 0) + count (loads_id id) os) no_reader in
        omega (arith, same) ∙ (counted_at s id p s.linked.0.0).1

    pub dropped_kept :
        not_positive (decrement (heap p).num_refs) ≡ false
        → Sound nodes (update heap p dropped_node) os
    dropped_kept more =
        changed-Sound s id p dropped_node os s.linked.0.0 refl (others_of phase) (refs_left phase s)
          (not_positive-more (count (of_id id) os)
            (ap not_positive (sym (refs_left phase s)) ∙ more))
          no_reader_left links_dropped

    pub dropped_gone :
        not_positive (decrement (heap p).num_refs) ≡ true
        → Sound (unlinked p nodes) (update heap p dropped_node) os
    dropped_gone gone =
        unlinked-Sound s id p dropped_node os s.linked.0.0 refl (others_of phase)
          (not_positive-zero (count (of_id id) os)
            (ap not_positive (sym (refs_left phase s)) ∙ gone))
          links_dropped
