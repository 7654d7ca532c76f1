-- ===== src/Fs/Cache/Update.antt =====
-- What is written through the cache is on the device at once.
use os_pi_is_cool.Base.{
  ℕ, ◌+◌, ◌%◌, ◌^◌, ◌<◌, ◌≤◌, ◌≡◌, ◌≢◌, refl, sym, subst, ap₂, ◌∙◌, inl, inr, false, Option, none,
  some, List, ◌++◌, length, take_all, ◌>>=◌, Ends, returns, Ends-bind, Ends-mono, arith,
}
use os_pi_is_cool.Fs.Errors.{Result, success, error, file_write_error}
use os_pi_is_cool.Fs.Driver.{Driver}
use os_pi_is_cool.Fs.Cache.{
  Node, Disk, max_size, count_up, write_block_data, lru_cache_get_block, write_through,
  push_written, write_in, update_looked_up, lru_cache_update_data,
}
use os_pi_is_cool.Fs.Cache.Nodes.{Absent, AllClean-view, Found, hit, miss, find_node_lem}
use os_pi_is_cool.Fs.Cache.Coherent.{
  place, view, IsCoherent, Kept, WriteFails, WroteData, wrote, lost, beyond, write_block_data_lem,
  Cached, push_front-IsCoherent,
}
use os_pi_is_cool.Fs.Device.{Region}
use os_pi_is_cool.Fs.Cache.Through.{HasMemory, Stays, recounted, lru_cache_remove_node-IsCoherent}

module _ (D : Driver) where
  -- Two blocks of the file system are two blocks of the device.
  place_ne :
      (d : Disk D) (m n : ℕ)
      → d.region.base + d.region.count ≤ 2 ^ 64
      → m < d.region.count
      → n < d.region.count
      → m ≢ n
      → place D d m ≢ place D d n
  place_ne d m n w h k ne e = ne (omega arith)

  -- How `lru_cache_update_data` ends for the bytes `b` and the block `n` of `d`: the device has the
  -- bytes there, or the write fails; the other blocks are as before.
  pub data Updated (d : Disk D) (n : ℕ) (b : List ℕ) : Result Unit × Disk D → Type 0 where
    updated :
        {d' : Disk D}
        → Stays D d d'
        → n < d.region.count
        → view D d' n ≡ b
        → ((m : ℕ) → m < d.region.count → m ≢ n → view D d' m ≡ view D d m)
        → Updated d n b (success tt, d')
    not_updated :
        {d' : Disk D}
        → Stays D d d'
        → WriteFails D d n b
        → ((m : ℕ) → m < d.region.count → m ≢ n → view D d' m ≡ view D d m)
        → Updated d n b (error file_write_error, d')

  pushed-Updated :
      (d d' : Disk D) (n : ℕ) (b : List ℕ) (r : Result Unit × Disk D)
      → Cached D max_size d' r
      → Kept D d d'
      → n < d.region.count
      → view D d' n ≡ b
      → ((m : ℕ) → m < d.region.count → m ≢ n → view D d' m ≡ view D d m)
      → Updated d n b r
  pushed-Updated d d' n b (success u, d2) (e, c, k, v) k' h w o =
      let v2 : (m : ℕ) → view D d2 m ≡ view D d' m =
        λ m. ap₂ (λ s (r : Region). D.contents s ((r.base + m) % 2 ^ 64)) v k.0 in
      updated (c, (k.0 ∙ k'.0, k.1 ∙ k'.1)) h (v2 n ∙ w) (λ m l q. v2 m ∙ o m l q)
  pushed-Updated d d' n b (error x, d2) (e, c, k, v) k' h w o = absurd cc

  -- The cache stays coherent when a block changes that it does not have.
  rewritten :
      (d : Disk D) (n : ℕ) (s : D.St)
      → IsCoherent D max_size d
      → Absent n d.nodes
      → n < d.region.count
      → ((m : ℕ) → m ≢ place D d n → D.contents s m ≡ D.contents d.device m)
      → IsCoherent D max_size (record d { device = s })
        × ((m : ℕ) → m < d.region.count → m ≢ n → D.contents s (place D d m) ≡ view D d m)
  rewritten d n s h a l o =
      let other : (m : ℕ) → m < d.region.count → m ≢ n → D.contents s (place D d m) ≡ view D d m =
        λ m k q. o _ (place_ne d m n h.within k l q) in
      (
        record {
          counted = h.counted;
          few = h.few;
          clean = AllClean-view d.nodes other a h.clean;
          within = h.within;
          sized = h.sized;
        },
        other,
      )

  push_written-Updated :
      (d : Disk D) (n : ℕ) (b : List ℕ) (r : Result Unit × Disk D)
      → IsCoherent D max_size d
      → Absent n d.nodes
      → WroteData D d n b r
      → Ends (Updated d n b) ⊥ (push_written D (record { bytes = b; dirty = false; block = n }) r)
  push_written-Updated d n b (success u, d') h a (wrote {s} l e o) =
      let k = rewritten d n s h a l o in
      Ends-mono
        (push_front-IsCoherent D _ (record { bytes = b; dirty = false; block = n }) k.0
          (refl, sym e, l) a)
        (λ x q. pushed-Updated d (record d { device = s }) n b x q (refl, refl) l e k.1)
  push_written-Updated d n b (error x, d') h a (lost {s} l e o) =
      let k = rewritten d n s h a l o in returns (not_updated (k.0, (refl, refl)) (inr e) k.1)
  push_written-Updated d n b (error x, d') h a (beyond l) =
      returns (not_updated (h, (refl, refl)) (inl l) (λ m k q. refl))

  write_through-Updated :
      (d : Disk D) (n : ℕ) (b : List ℕ)
      → IsCoherent D max_size d
      → Absent n d.nodes
      → length b ≡ D.block_get_size
      → Ends (Updated d n b) ⊥ (write_through D b n d)
  unfolding write_through
  write_through-Updated d n b h a l =
      subst
        (λ z. Ends (Updated d n b) ⊥ (
          push_written D (record { bytes = z; dirty = false; block = n })
            (write_block_data D d z n)))
        (sym (take_all d.bytes_per_block b (l ∙ sym h.sized)))
        (push_written-Updated d n b _ h a (write_block_data_lem D d n b l))

  Updated_recounted :
      (d : Disk D) (n : ℕ) (b : List ℕ) (r : Result Unit × Disk D) (hits misses size : ℕ)
      (ns : List Node)
      → Updated
          (record d { nodes = ns; size = size; cache_hits = hits; cache_misses = misses })
          n
          b
          r
      → Updated d n b r
  Updated_recounted d n b r hits misses size ns (updated c l w o) = updated c l w o
  Updated_recounted d n b r hits misses size ns (not_updated c f o) = not_updated c f o

  module _ (kmalloc : ℕ → Option (List ℕ)) (memory : HasMemory kmalloc) where
    looked_up-Updated :
        (d : Disk D) (n : ℕ) (b : List ℕ) (o : Option ℕ)
        → IsCoherent D max_size d
        → length b ≡ D.block_get_size
        → Found n d.nodes o
        → Ends (Updated d n b) ⊥ (update_looked_up D kmalloc b n d o)
    looked_up-Updated d n b none h l (miss a) =
        let d' : Disk D = record d { cache_misses = count_up d.cache_misses } in
        subst (λ o. Ends (Updated d n b) ⊥ (write_in D b n d' o (kmalloc d.bytes_per_block)))
          (sym (memory 32).1)
          (subst (λ o. Ends (Updated d n b) ⊥ (write_in D b n d' (some (memory 32).0) o))
            (sym (memory d.bytes_per_block).1)
            (Ends-mono (write_through-Updated d' n b (recounted D d _ _ h) a l)
              (λ x k. Updated_recounted d n b x _ _ _ _ k)))
    looked_up-Updated d n b (some i) h l (hit before m after e j q) =
        let d' : Disk D = record d { cache_hits = count_up d.cache_hits } in
        let r = lru_cache_remove_node-IsCoherent D d' i before m after (recounted D d _ _ h) e j in
        subst (λ x. Ends (Updated d n b) ⊥ (x >>= λ (m, d2). write_through D b n d2)) (sym r.0)
          (Ends-mono
            (write_through-Updated _ n b r.3 (subst (λ z. Absent z (before ++ after)) q r.2) l)
            (λ x k. Updated_recounted d n b x _ _ _ _ k))

    pub lru_cache_update_data-Updated :
        (d : Disk D) (n : ℕ) (b : List ℕ)
        → IsCoherent D max_size d
        → length b ≡ D.block_get_size
        → Ends (Updated d n b) ⊥ (lru_cache_update_data D kmalloc b n d)
    unfolding lru_cache_update_data lru_cache_get_block
    lru_cache_update_data-Updated d n b h l =
        Ends-bind (find_node_lem n d.size d.nodes h.counted)
          (λ o f. looked_up-Updated d n b o h l f)
