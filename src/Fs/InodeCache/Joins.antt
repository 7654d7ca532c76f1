-- ===== src/Fs/InodeCache/Joins.antt =====
-- A thread that looks an inode up in the cache takes a reference, or makes a node.
use os_pi_is_cool.Base.{
  ℕ, ◌≤◌, ◌≡◌, ◌≢◌, inl, inr, refl, sym, ap, subst, ◌∙◌, arith, true, Option, none, some, List, [],
  ◌∷◌, ◌++◌, if◌then◌else◌, ◌==◌, Bool-cases, if-elim, Ptr, null,
}
use os_pi_is_cool.Thread.{update}
use os_pi_is_cool.Fs.Errors.{pos}
use os_pi_is_cool.Fs.InodeCache.{
  CacheNode, find_inode, find_inode_in_cache, id_of, increment, new_node, looked_in, look_up,
}
use os_pi_is_cool.Fs.InodeCache.Find.{
  Absent, or_else, find-snoc, find-Absent, Distinct-Absent, Distinct-snoc,
}
use os_pi_is_cool.Fs.InodeCache.Users.{
  Phase, loads, waits, holds, User, user, Shared, join, is_loads, of_id, loads_id, count,
}
use os_pi_is_cool.Fs.InodeCache.Sound.{
  All-map, Counted, unused, used, Ready, Sound, update-here, update-there, Counted-other,
}
use os_pi_is_cool.Fs.InodeCache.Change.{counted_at, changed-Sound}
use os_pi_is_cool.Fs.InodeCache.Turns.{Ready-same, count-user, count-other}

or_else-none : (o : Option Ptr) → or_else o none ≡ o
or_else-none none = refl
or_else-none (some p) = refl

Absent-find :
    (id : ℕ) (f : Ptr → ℕ) (ps : List Ptr) (p : Ptr) → Absent p ps → find_inode id f ps ≢ some p
Absent-find id f [] p a h = cc
Absent-find id f (q ∷ qs) p (ne, a) h = elim (Bool-cases (f q == id)) [
  | inl here ↦ let found : some q ≡ some p = rw here at h in let same : q ≡ p = cc in ne (sym same)
  | inr there ↦ Absent-find id f qs p a (rw there at h)
]

loads_le : (id : ℕ) (us : List User) → count (loads_id id) us ≤ count (of_id id) us
loads_le id [] = omega arith
loads_le id (u ∷ us) = elim (Bool-cases (u.id == id)) [
  | inl same ↦ elim (Bool-cases (is_loads u.phase)) [
    | inl reads ↦ rw (same, reads) (omega (arith, loads_le id us))
    | inr idle ↦ rw (same, idle) (omega (arith, loads_le id us))
  ]
  | inr other ↦ elim (Bool-cases (is_loads u.phase)) [
    | inl reads ↦ rw (other, reads) (omega (arith, loads_le id us))
    | inr idle ↦ rw (other, idle) (omega (arith, loads_le id us))
  ]
]

module _ {A : Type 0} where
  found-Sound :
      (nodes : List Ptr) (heap : Ptr → CacheNode A) (us : List User) (id : ℕ) (p : Ptr)
      → Sound nodes heap us
      → find_inode id (id_of heap) nodes ≡ some p
      → Sound nodes
          (update heap p (record (heap p) { num_refs = increment (heap p).num_refs }))
          (user waits id p ∷ us)
  found-Sound nodes heap us id p s found =
      let (refs, reading) = counted_at s id p found in
      let n = record (heap p) { num_refs = increment (heap p).num_refs } in
      let (uses, reads) = count-user waits id p us in
      changed-Sound s id p n (user waits id p ∷ us) found refl (count-other waits id p us)
        (ap increment refs ∙ ap pos (omega (arith, uses))) (omega (arith, uses))
        (reads ∙ omega arith ∙ reading)
        (
          (found, tt),
          All-map us (λ u (at, ready). (at, Ready-same heap p n u.phase u.at refl refl ready))
              s.linked,
        )

  -- What a new node at an address that is not in the list does to the others.
  module _ (nodes : List Ptr) (heap : Ptr → CacheNode A) (us : List User) (id : ℕ) (at : Ptr)
      (zeroed : A) (s : Sound nodes heap us) (fresh : Absent at nodes)
      (unknown : find_inode id (id_of heap) nodes ≡ none) where
    new_heap : Ptr → CacheNode A
    new_heap = update heap at (new_node id zeroed)

    elsewhere : (q : Ptr) → at ≢ q → (new_heap q).id ≡ (heap q).id
    unfolding new_heap
    elsewhere q ne = ap (λ x. x.id) (update-there heap at (new_node id zeroed) q ne)

    new_id : (new_heap at).id ≡ id
    unfolding new_heap
    new_id = ap (λ x. x.id) (update-here heap at (new_node id zeroed))

    find_new :
        (id' : ℕ)
        → find_inode id' (id_of new_heap) (nodes ++ at ∷ [])
          ≡ or_else (find_inode id' (id_of heap) nodes) (if id == id' then some at else none)
    find_new id' =
        find-snoc id' (id_of new_heap) nodes at
        ∙ ap (λ o. or_else o (if (new_heap at).id == id' then some at else none))
            (find-Absent id' (id_of heap) (id_of new_heap) nodes at fresh elsewhere)
        ∙ ap (λ n. or_else (find_inode id' (id_of heap) nodes) (if n == id' then some at else none))
            new_id

    unused_id : count (of_id id) us ≡ 0
    unused_id = known (find_inode id (id_of heap) nodes) (s.counted id) unknown
      where
        known : (o : Option Ptr) → Counted heap us id o → o ≡ none → count (of_id id) us ≡ 0
        known none (unused gone) e = gone
        known (some p) c e = absurd (cc)

    Ready-elsewhere :
        (phase : Phase) (q : Ptr) → at ≢ q → Ready heap phase q → Ready new_heap phase q
    unfolding new_heap
    Ready-elsewhere loads q ne r = tt
    Ready-elsewhere waits q ne r = tt
    Ready-elsewhere holds q ne (rl, re) =
        let there = update-there heap at (new_node id zeroed) q ne in
        (ap (λ x. x.loading) there ∙ rl, ap (λ x. x.load_error) there ∙ re)

    counts_with_it :
        (id' : ℕ)
        → Counted new_heap
            (user loads id at ∷ us)
            id'
            (or_else (find_inode id' (id_of heap) nodes) (if id == id' then some at else none))
    unfolding new_heap
    counts_with_it id' = elim (Bool-cases (id == id')) [
      | inl same ↦
          let is_id : id ≡ id' = ground arith in
          rw same (
            subst
              (λ i.
                Counted new_heap (user loads id at ∷ us) i
                  (or_else (find_inode i (id_of heap) nodes) (some at)))
              is_id (rw unknown here))
      | inr other ↦
          let ne : id' ≢ id = ground arith in
          let (uses, reads) = count-other loads id at us id' ne in
          rw (other, or_else-none (find_inode id' (id_of heap) nodes))
            (Counted-other heap at (new_node id zeroed) us (user loads id at ∷ us) id' _
              (Absent-find id' (id_of heap) nodes at fresh) uses reads (s.counted id'))
    ]
      where
        here : Counted new_heap (user loads id at ∷ us) id (some at)
        here =
            let now = update-here heap at (new_node id zeroed) in
            let (uses, reads) = count-user loads id at us in
            used (ap (λ x. x.num_refs) now ∙ ap pos (omega (arith, uses, unused_id)))
              (omega (arith, uses))
              (reads
                ∙ omega (arith, loads_le id us, unused_id)
                ∙ ap (λ x. if x.loading then 1 else 0) (sym now))

    fresh-Sound : Sound (nodes ++ at ∷ []) new_heap (user loads id at ∷ us)
    fresh-Sound = record {
      distinct =
          Distinct-snoc (id_of new_heap) nodes at
            (ap (λ n. find_inode n (id_of new_heap) nodes) new_id
              ∙ find-Absent id (id_of heap) (id_of new_heap) nodes at fresh elsewhere
              ∙ unknown)
            (Distinct-Absent (id_of heap) (id_of new_heap) nodes at fresh elsewhere s.distinct);
      counted = λ id'.
          subst (Counted new_heap (user loads id at ∷ us) id') (sym (find_new id'))
            (counts_with_it id');
      linked = (
        (find_new id ∙ rw unknown there, tt),
        All-map us
            (λ u (linked_at, ready). (
              find_new u.id ∙ ap (λ o. or_else o (if id == u.id then some at else none)) linked_at,
              Ready-elsewhere u.phase u.at
                  (λ e. Absent-find u.id (id_of heap) nodes at fresh (linked_at ∙ ap some (sym e)))
                  ready,
            ))
            s.linked,
      );
    }
      where
        there : (if id == id then some at else none) ≡ some at
        there = let same : (id == id) ≡ true = ground arith in rw same refl

module _ {A : Type 0} where
  abbrev pub Good : Shared A → Type 0
  Good s = Sound s.cache.nodes s.cache.heap s.users

  looked_in-Good :
      (s : Shared A) (at : Ptr) (id : ℕ) (zeroed : A) (o : Option Ptr)
      → Absent at s.cache.nodes
      → find_inode_in_cache id s.cache ≡ o
      → Good s
      → Good (join id s (looked_in at (new_node id zeroed) s.cache o))
  unfolding new_heap
  looked_in-Good s at id zeroed none fresh e g =
      fresh-Sound s.cache.nodes s.cache.heap s.users id at zeroed g fresh e
  looked_in-Good s at id zeroed (some p) fresh e g =
      found-Sound s.cache.nodes s.cache.heap s.users id p g e

  pub look-Good :
      (s : Shared A) (at : Ptr) (id : ℕ) (zeroed : A)
      → Absent at s.cache.nodes
      → Good s
      → Good (join id s (look_up at id zeroed s.cache))
  look-Good s at id zeroed fresh g =
      if-elim (λ r. Good (join id s r)) (at == null) (λ no_memory. g)
        (λ there. looked_in-Good s at id zeroed (find_inode_in_cache id s.cache) fresh refl g)
