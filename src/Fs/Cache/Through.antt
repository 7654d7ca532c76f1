-- ===== src/Fs/Cache/Through.antt =====
-- Through the cache a client sees the device: a block is brought to the front.
use os_pi_is_cool.Base.{
  ℕ, ◌+◌, ◌-◌, ◌<◌, ◌≡◌, refl, sym, subst, ap, ◌∙◌, false, Option, none, some, List, ◌∷◌, ◌++◌,
  length, length-append, ok, ◌>>=◌, Ends, returns, Ends-bind, Ends-mono, arith,
}
use os_pi_is_cool.Fs.Errors.{Result, success, error, file_read_error}
use os_pi_is_cool.Fs.Driver.{Driver}
use os_pi_is_cool.Fs.Cache.{
  Node, Disk, max_size, take_out, lru_cache_get_block, lru_cache_remove_node, push_front, with_node,
  push_read, add_found, read_in, add_missing, add_looked_up, lru_cache_add_to_front,
}
use os_pi_is_cool.Fs.Cache.Nodes.{
  Absent, IsClean, AllClean, AllClean-remove, Found, hit, miss, find_node_lem, take_out_lem,
}
use os_pi_is_cool.Fs.Cache.Coherent.{
  view, IsCoherent, Kept, ReadFails, ReadData, read, unread, read_block_data_lem, Cached,
  push_front-IsCoherent,
}

-- There is memory for the small requests of the file system.
abbrev pub HasMemory : (ℕ → Option (List ℕ)) → Type 0
HasMemory kmalloc = (n : ℕ) → (b : List ℕ) × (kmalloc n ≡ some b)

module _ (D : Driver) where
  -- The disk is coherent and lies where it lay.
  abbrev pub Stays : Disk D → Disk D → Type 0
  Stays d d' = IsCoherent D max_size d' × Kept D d d'

  -- How `lru_cache_add_to_front` ends for the block `n` of `d`: the device is as before, and the
  -- node has the block, or the read fails.
  pub data Added (d : Disk D) (n : ℕ) : Result Node × Disk D → Type 0 where
    added :
        {m : Node} {d' : Disk D}
        → Stays d d'
        → d'.device ≡ d.device
        → n < d.region.count
        → m.bytes ≡ view D d n
        → Added d n (success m, d')
    not_added :
        {d' : Disk D}
        → Stays d d'
        → d'.device ≡ d.device
        → ReadFails D d n
        → Added d n (error file_read_error, d')

  -- The counters do not matter.
  pub recounted :
      (d : Disk D) (hits misses : ℕ)
      → IsCoherent D max_size d
      → IsCoherent D max_size (record d { cache_hits = hits; cache_misses = misses })
  recounted d hits misses h = record {
    counted = h.counted;
    few = h.few;
    clean = h.clean;
    within = h.within;
    sized = h.sized;
  }

  Added_recounted :
      (d : Disk D) (n : ℕ) (r : Result Node × Disk D) (hits misses : ℕ)
      → Added (record d { cache_hits = hits; cache_misses = misses }) n r
      → Added d n r
  Added_recounted d n r hits misses (added c v h b) = added c v h b
  Added_recounted d n r hits misses (not_added c v f) = not_added c v f

  pushed-Added :
      (d d' : Disk D) (n : ℕ) (m : Node) (r : Result Unit × Disk D)
      → Cached D max_size d' r
      → Kept D d d'
      → d'.device ≡ d.device
      → n < d.region.count
      → m.bytes ≡ view D d n
      → Added d n (with_node D m r)
  pushed-Added d d' n m (success u, d2) (e, c, k, v) k' v' h b =
      added (c, (k.0 ∙ k'.0, k.1 ∙ k'.1)) (v ∙ v') h b
  pushed-Added d d' n m (error x, d2) (e, c, k, v) k' v' h b = absurd cc

  -- The node taken out of the cache, which is coherent without it.
  pub lru_cache_remove_node-IsCoherent :
      (d : Disk D) (i : ℕ) (before : List Node) (m : Node) (after : List Node)
      → IsCoherent D max_size d
      → d.nodes ≡ before ++ m ∷ after
      → i ≡ length before
      → (lru_cache_remove_node D i d
          ≡ ok (m, record d { nodes = before ++ after; size = d.size - 1 }))
        × IsClean (view D d) d.region.count m
        × Absent m.block (before ++ after)
        × IsCoherent D max_size (record d { nodes = before ++ after; size = d.size - 1 })
  unfolding lru_cache_remove_node
  lru_cache_remove_node-IsCoherent d i before m after h e j =
      let c =
        AllClean-remove (view D d) d.region.count before m after
          (subst (AllClean (view D d) d.region.count) e h.clean) in
      let l : length d.nodes ≡ length before + (length after + 1) =
        omega (arith, ap length e, length-append before (m ∷ after)) in
      let l' = length-append before after in
      (
        ap (λ r. r >>= λ (n, ns). ok (n, record d { nodes = ns; size = d.size - 1 }))
            (ap (λ z. take_out i z) e ∙ take_out_lem before m after i j),
        c.0,
        c.1,
        record {
          counted = omega (arith, h.counted, l, l');
          few = omega (arith, h.few, l, l');
          clean = c.2;
          within = h.within;
          sized = h.sized;
        },
      )

  add_found-Added :
      (d : Disk D) (i n : ℕ) (before : List Node) (m : Node) (after : List Node)
      → IsCoherent D max_size d
      → d.nodes ≡ before ++ m ∷ after
      → i ≡ length before
      → m.block ≡ n
      → Ends (Added d n) ⊥ (add_found D i d)
  unfolding add_found
  add_found-Added d i n before m after h e j b =
      let r = lru_cache_remove_node-IsCoherent d i before m after h e j in
      let d' : Disk D = record d { nodes = before ++ after; size = d.size - 1 } in
      subst
        (λ x. Ends (Added d n) ⊥ (x >>= λ (n, d'). push_front D n d' >>= λ r. ok (with_node D n r)))
        (sym r.0)
        (Ends-bind (push_front-IsCoherent D d' m r.3 r.1 r.2) (λ x q. returns (
          pushed-Added d d' n m x q (refl, refl) refl (subst (λ z. z < d.region.count) b r.1.2)
            (subst (λ z. m.bytes ≡ view D d z) b r.1.1))))

  push_read-Added :
      (d : Disk D) (n : ℕ) (r : Result (List ℕ))
      → IsCoherent D max_size d
      → Absent n d.nodes
      → ReadData D d n r
      → Ends (Added d n) ⊥ (push_read D n d r)
  push_read-Added d n (success b) h a (read l e) =
      Ends-bind
        (push_front-IsCoherent D d (record { bytes = b; dirty = false; block = n }) h (refl, e, l)
          a)
        (λ x q. returns (pushed-Added d d n _ x q (refl, refl) refl l e))
  push_read-Added d n (error x) h a (unread f) = returns (not_added (h, (refl, refl)) refl f)

  module _ (kmalloc : ℕ → Option (List ℕ)) (memory : HasMemory kmalloc) where
    add_missing-Added :
        (d : Disk D) (n : ℕ)
        → IsCoherent D max_size d
        → Absent n d.nodes
        → Ends (Added d n) ⊥ (add_missing D kmalloc n d)
    unfolding add_missing
    add_missing-Added d n h a =
        subst (λ o. Ends (Added d n) ⊥ (read_in D n d o (kmalloc d.bytes_per_block)))
          (sym (memory 32).1)
          (subst (λ o. Ends (Added d n) ⊥ (read_in D n d (some (memory 32).0) o))
            (sym (memory d.bytes_per_block).1)
            (push_read-Added d n _ h a (read_block_data_lem D d n)))

    looked_up-Added :
        (d : Disk D) (n : ℕ) (o : Option ℕ)
        → IsCoherent D max_size d
        → Found n d.nodes o
        → Ends (Added d n) ⊥ (add_looked_up D kmalloc n d o)
    looked_up-Added d n none h (miss a) =
        Ends-mono (add_missing-Added _ n (recounted d _ _ h) a) (λ x k. Added_recounted d n x _ _ k)
    looked_up-Added d n (some i) h (hit before m after e j b) =
        Ends-mono (add_found-Added _ i n before m after (recounted d _ _ h) e j b)
          (λ x k. Added_recounted d n x _ _ k)

    -- A cache of at most 12 nodes that agrees with the device stays such; the block comes to its
    -- front with what the device has.
    pub lru_cache_add_to_front-Added :
        (d : Disk D) (n : ℕ)
        → IsCoherent D max_size d
        → Ends (Added d n) ⊥ (lru_cache_add_to_front D kmalloc n d)
    unfolding lru_cache_add_to_front lru_cache_get_block
    lru_cache_add_to_front-Added d n h =
        Ends-bind (find_node_lem n d.size d.nodes h.counted) (λ o f. looked_up-Added d n o h f)
