-- ===== src/Fs/InodeCache/Change.antt =====
-- A change of one node, and the unlinking of a node that nobody uses.
use os_pi_is_cool.Base.{
  ℕ, ◌<◌, ◌≡◌, ◌≢◌, inl, inr, refl, sym, ap, subst, ◌∙◌, arith, Option, none, some, List, [], ◌∷◌,
  if◌then◌else◌, ◌==◌, Bool-cases, Ptr,
}
use os_pi_is_cool.Thread.{update}
use os_pi_is_cool.Fs.Errors.{pos}
use os_pi_is_cool.Fs.InodeCache.{CacheNode, find_inode, unlinked, id_of}
use os_pi_is_cool.Fs.InodeCache.Find.{
  Distinct, find-id, find-unlinked-other, find-unlinked, Distinct-unlinked,
}
use os_pi_is_cool.Fs.InodeCache.Users.{User, of_id, loads_id, count}
use os_pi_is_cool.Fs.InodeCache.Sound.{
  All, All-map, All-others, Counted, unused, used, Ready, Linked, Sound, update-here, id_of-update,
  Counted-other,
}

module _ {A : Type 0} where
  module _ {nodes : List Ptr} {heap : Ptr → CacheNode A} {us : List User}
      (s : Sound nodes heap us) where
    -- What is known of the node of an inode.
    pub counted_at :
        (id : ℕ) (p : Ptr)
        → find_inode id (id_of heap) nodes ≡ some p
        → ((heap p).num_refs ≡ pos (count (of_id id) us))
          × (count (loads_id id) us ≡ (if (heap p).loading then 1 else 0))
    counted_at id p found = known (some p) (subst (Counted heap us id) found (s.counted id)) refl
      where
        known :
            (o : Option Ptr)
            → Counted heap us id o
            → o ≡ some p
            → ((heap p).num_refs ≡ pos (count (of_id id) us))
              × (count (loads_id id) us ≡ (if (heap p).loading then 1 else 0))
        known none c e = absurd (cc)
        known (some q) (used refs more reading) e =
            let same : q ≡ p = cc in
            (
              ap (λ z. (heap z).num_refs) (sym same) ∙ refs,
              reading ∙ ap (λ z. if (heap z).loading then 1 else 0) same,
            )

    module _ (id : ℕ) (p : Ptr) (n : CacheNode A) (vs : List User)
        (found : find_inode id (id_of heap) nodes ≡ some p) (same_id : n.id ≡ (heap p).id)
        (others : (id' : ℕ)
          → id' ≢ id
          → (count (of_id id') vs ≡ count (of_id id') us)
            × (count (loads_id id') vs ≡ count (loads_id id') us)) where
      not_here : (id' : ℕ) → id' ≢ id → find_inode id' (id_of heap) nodes ≢ some p
      not_here id' ne h =
          ne (sym (find-id id' (id_of heap) nodes p h) ∙ find-id id (id_of heap) nodes p found)

      same_ids : id_of (update heap p n) ≡ id_of heap
      same_ids = id_of-update heap p n same_id

      -- The node of an inode changes.
      pub changed-Sound :
          n.num_refs ≡ pos (count (of_id id) vs)
          → 0 < count (of_id id) vs
          → count (loads_id id) vs ≡ (if n.loading then 1 else 0)
          → All
              (λ u.
                (find_inode u.id (id_of heap) nodes ≡ some u.at)
                × Ready (update heap p n) u.phase u.at)
              vs
          → Sound nodes (update heap p n) vs
      changed-Sound refs more reading links = record {
        distinct = subst (λ f. Distinct f nodes) (sym same_ids) s.distinct;
        counted = λ id'.
            subst (λ f. Counted (update heap p n) vs id' (find_inode id' f nodes)) (sym same_ids)
              (elim (Bool-cases (id' == id)) [
                | inl same ↦
                    let is_id : id' ≡ id = ground arith in
                    subst (λ i. Counted (update heap p n) vs i (find_inode i (id_of heap) nodes))
                      (sym is_id)
                      (subst (Counted (update heap p n) vs id) (sym found) (
                        used (ap (λ x. x.num_refs) (update-here heap p n) ∙ refs) more (
                          reading
                          ∙ ap (λ x. if x.loading then 1 else 0) (sym (update-here heap p n)))))
                | inr other ↦
                    let ne : id' ≢ id = ground arith in
                    let (uses, reads) = others id' ne in
                    Counted-other heap p n us vs id' _ (not_here id' ne) uses reads (s.counted id')
              ]);
        linked =
            All-map vs (λ u (at, ready). (ap (λ f. find_inode u.id f nodes) same_ids ∙ at, ready))
              links;
      }

      -- The last user of the node is gone, and it is unlinked.
      pub unlinked-Sound :
          count (of_id id) vs ≡ 0
          → All
              (λ u.
                (find_inode u.id (id_of heap) nodes ≡ some u.at)
                × Ready (update heap p n) u.phase u.at)
              vs
          → Sound (unlinked p nodes) (update heap p n) vs
      unlinked-Sound gone links = record {
        distinct =
            subst (λ f. Distinct f (unlinked p nodes)) (sym same_ids)
              (Distinct-unlinked (id_of heap) nodes p s.distinct);
        counted = λ id'.
            subst (λ f. Counted (update heap p n) vs id' (find_inode id' f (unlinked p nodes)))
              (sym same_ids)
              (elim (Bool-cases (id' == id)) [
                | inl same ↦
                    let is_id : id' ≡ id = ground arith in
                    subst
                      (λ i.
                        Counted (update heap p n) vs i
                          (find_inode i (id_of heap) (unlinked p nodes)))
                      (sym is_id)
                      (subst (Counted (update heap p n) vs id)
                        (sym (find-unlinked id (id_of heap) nodes p s.distinct found))
                        (unused gone))
                | inr other ↦
                    let ne : id' ≢ id = ground arith in
                    let (uses, reads) = others id' ne in
                    subst (Counted (update heap p n) vs id') (sym (kept id' ne)) (
                      Counted-other heap p n us vs id' _ (not_here id' ne) uses reads
                        (s.counted id'))
              ]);
        linked = linked_on vs (All-others id vs gone) links;
      }
        where
          kept :
              (id' : ℕ)
              → id' ≢ id
              → find_inode id' (id_of heap) (unlinked p nodes) ≡ find_inode id' (id_of heap) nodes
          kept id' ne =
              find-unlinked-other id' (id_of heap) nodes p
                (λ e. ne (sym e ∙ find-id id (id_of heap) nodes p found))

          linked_on :
              (ws : List User)
              → All (λ u. u.id ≢ id) ws
              → All
                  (λ u.
                    (find_inode u.id (id_of heap) nodes ≡ some u.at)
                    × Ready (update heap p n) u.phase u.at)
                  ws
              → All (Linked (unlinked p nodes) (update heap p n)) ws
          linked_on [] ne a = tt
          linked_on (w ∷ ws) (ne, nes) ((at, ready), a) = (
            (ap (λ f. find_inode w.id f (unlinked p nodes)) same_ids ∙ kept w.id ne ∙ at, ready),
            linked_on ws nes a,
          )
