-- ===== src/Fs/Cache/Coherent.antt =====
-- The cache never differs from the device: what its functions keep, and the steps that they share.
use os_pi_is_cool.Base.{
  ℕ, suc, ◌+◌, ◌-◌, ◌%◌, ◌^◌, ◌<◌, ◌≤◌, ◌≡◌, ◌≢◌, refl, sym, subst, ap, ◌⊎◌, inl, inr, Bool, true,
  false, ◌||◌, if◌then◌else◌, ◌==◌, ltb, leb, if-elim, Option, none, some, List, [], ◌∷◌, ◌++◌,
  append-nil, length, length-append, Ends, returns, Ends-bind, Ends-if, arith,
}
use os_pi_is_cool.Fs.Errors.{Result, success, error, file_read_error, file_write_error}
use os_pi_is_cool.Fs.Driver.{Driver}
use os_pi_is_cool.Fs.Cache.{
  Node, Disk, max_size, count_up, map_fs_block_to_disk_block, take_last, from_device, to_device,
  read_block_data, write_block_data, lru_cache_remove_back, push_front, flush,
}
use os_pi_is_cool.Fs.Cache.Nodes.{Absent, IsClean, AllClean, AllClean-remove, take_last_lem}

module _ (D : Driver) where
  -- Where a block of the file system is on the device, and what is there.
  abbrev pub place : Disk D → ℕ → ℕ
  place d n = (d.region.base + n) % 2 ^ 64

  abbrev pub view : Disk D → ℕ → List ℕ
  view d n = D.contents d.device (place d n)

  -- At most `limit` nodes, counted in `size`, each with what the device has in its block.
  pub record IsCoherent (limit : ℕ) (d : Disk D) : Type 0 where
    pub counted : d.size ≡ length d.nodes
    pub few : length d.nodes ≤ limit
    pub clean : AllClean (view d) d.region.count d.nodes
    pub within : d.region.base + d.region.count ≤ 2 ^ 64
    pub sized : d.bytes_per_block ≡ D.block_get_size

  -- The disk lies where it lay.
  abbrev pub Kept : Disk D → Disk D → Type 0
  Kept d d' = (d'.region ≡ d.region) × (d'.bytes_per_block ≡ d.bytes_per_block)

  -- Why a block may not be read or written.
  abbrev pub ReadFails : Disk D → ℕ → Type 0
  ReadFails d n = (d.region.count ≤ n) ⊎ (D.block_read d.device (place d n) ≡ none)

  abbrev pub WriteFails : Disk D → ℕ → List ℕ → Type 0
  WriteFails d n b = (d.region.count ≤ n) ⊎ ((D.block_write d.device (place d n) b).0 ≡ false)

  -- How a read from the device ends.
  pub data ReadData (d : Disk D) (n : ℕ) : Result (List ℕ) → Type 0 where
    read : {b : List ℕ} → n < d.region.count → b ≡ view d n → ReadData d n (success b)
    unread : ReadFails d n → ReadData d n (error file_read_error)

  from_device_lem :
      (d : Disk D) (n : ℕ) (o : Option (List ℕ))
      → D.block_read d.device (place d n) ≡ o
      → n < d.region.count
      → ReadData d n (from_device D o)
  from_device_lem d n none e h = unread (inr e)
  from_device_lem d n (some b) e h = read h (D.read_same d.device (place d n) b e)

  pub read_block_data_lem : (d : Disk D) (n : ℕ) → ReadData d n (read_block_data D d n)
  unfolding read_block_data map_fs_block_to_disk_block
  read_block_data_lem d n =
      let P = λ (r : Result ℕ). ReadData d n (elim r [
        | error e ↦ error file_read_error
        | success at ↦ from_device D (D.block_read d.device at)
      ]) in
      if-elim P (d.region.count == 0 || leb d.region.count n) (λ t. unread (inl (ground arith)))
        (λ t. from_device_lem d n _ refl (ground arith))

  -- How a write to the device ends: the block has the bytes, or it is not known what it has.
  pub data WroteData (d : Disk D) (n : ℕ) (b : List ℕ) : Result Unit × Disk D → Type 0 where
    wrote :
        {s : D.St}
        → n < d.region.count
        → D.contents s (place d n) ≡ b
        → ((m : ℕ) → m ≢ place d n → D.contents s m ≡ D.contents d.device m)
        → WroteData d n b (success tt, record d { device = s })
    lost :
        {s : D.St}
        → n < d.region.count
        → (D.block_write d.device (place d n) b).0 ≡ false
        → ((m : ℕ) → m ≢ place d n → D.contents s m ≡ D.contents d.device m)
        → WroteData d n b (error file_write_error, record d { device = s })
    beyond : d.region.count ≤ n → WroteData d n b (error file_write_error, d)

  to_device_lem :
      (d : Disk D) (n : ℕ) (b : List ℕ) (r : Bool × D.St)
      → D.block_write d.device (place d n) b ≡ r
      → n < d.region.count
      → length b ≡ D.block_get_size
      → WroteData d n b (to_device D d r)
  to_device_lem d n b (true, s) e h k =
      wrote h
        (subst (λ r. D.contents r.1 (place d n) ≡ b) e
          (D.write_same d.device (place d n) b k (ap (λ z. z.0) e)))
        (λ m q.
          subst (λ r. D.contents r.1 m ≡ D.contents d.device m) e
            (D.write_other d.device (place d n) b m q))
  to_device_lem d n b (false, s) e h k = lost h (ap (λ z. z.0) e) (λ m q.
      subst (λ r. D.contents r.1 m ≡ D.contents d.device m) e
        (D.write_other d.device (place d n) b m q))

  pub write_block_data_lem :
      (d : Disk D) (n : ℕ) (b : List ℕ)
      → length b ≡ D.block_get_size
      → WroteData d n b (write_block_data D d b n)
  unfolding write_block_data map_fs_block_to_disk_block
  write_block_data_lem d n b k =
      let P = λ (r : Result ℕ). WroteData d n b (elim r [
        | error e ↦ (error file_write_error, d)
        | success at ↦ to_device D d (D.block_write d.device at b)
      ]) in
      if-elim P (d.region.count == 0 || leb d.region.count n) (λ t. beyond (ground arith))
        (λ t. to_device_lem d n b _ refl (ground arith) k)

  -- The disk is the same but for its cache, which is coherent, and the call succeeded.
  abbrev pub Cached : ℕ → Disk D → Result Unit × Disk D → Type 0
  Cached limit d (r, d') =
      (r ≡ success tt) × IsCoherent limit d' × Kept d d' × (d'.device ≡ d.device)

  flush_lem :
      (d : Disk D) (n : Node) (limit : ℕ)
      → n.dirty ≡ false
      → IsCoherent limit d
      → Cached limit d (flush D d n)
  flush_lem d n limit e h =
      subst
        (λ b. Cached limit d (if b then write_block_data D d n.bytes n.block else (success tt, d)))
        (sym e) (refl, h, (refl, refl), refl)

  -- The tail is clean, and goes without a write.
  tail_goes :
      (d : Disk D) (limit : ℕ) (r : Node × List Node)
      → IsCoherent (suc limit) d
      → d.nodes ≡ r.1 ++ (r.0 ∷ [])
      → Cached limit d (
          flush D
            (record d {
              nodes = r.1;
              size = d.size - 1;
              cache_evictions = count_up d.cache_evictions;
            })
            r.0)
  tail_goes d limit (n, ns) h e =
      let c = subst (AllClean (view d) d.region.count) e h.clean in
      let m = AllClean-remove (view d) d.region.count ns n [] c in
      let l : length d.nodes ≡ length ns + 1 =
        omega (arith, ap length e, length-append ns (n ∷ [])) in
      flush_lem _ n limit m.0.0 (record {
        counted = omega (arith, h.counted, l);
        few = omega (arith, h.few, l);
        clean = subst (AllClean (view d) d.region.count) (append-nil ns) m.2;
        within = h.within;
        sized = h.sized;
      })

  pub lru_cache_remove_back-IsCoherent :
      (d : Disk D) (limit : ℕ)
      → IsCoherent (suc limit) d
      → 0 < length d.nodes
      → Ends (Cached limit d) ⊥ (lru_cache_remove_back D d)
  unfolding lru_cache_remove_back
  lru_cache_remove_back-IsCoherent d limit h p =
      Ends-bind (taken d.nodes p) (λ r e. returns (tail_goes d limit r h e))
    where
      taken : (ns : List Node) → 0 < length ns → Ends (λ r. ns ≡ r.1 ++ (r.0 ∷ [])) ⊥ (take_last ns)
      taken [] p = absurd (omega arith)
      taken (n ∷ ns) p = take_last_lem n ns

  -- A clean node of a block that no other has becomes the head.
  pub push_front-IsCoherent :
      (d : Disk D) (n : Node)
      → IsCoherent max_size d
      → IsClean (view d) d.region.count n
      → Absent n.block d.nodes
      → Ends (Cached max_size d) ⊥ (push_front D n d)
  unfolding push_front
  push_front-IsCoherent d n h c a =
      let pushed : Disk D = record d { nodes = n ∷ d.nodes; size = d.size + 1 } in
      let k : IsCoherent (suc max_size) pushed = record {
        counted = omega (arith, h.counted);
        few = omega (arith, h.few);
        clean = (c, a, h.clean);
        within = h.within;
        sized = h.sized;
      } in
      Ends-if (ltb max_size (d.size + 1))
        (λ t. lru_cache_remove_back-IsCoherent pushed max_size k (omega arith))
        (λ t. returns (
          refl,
          (record {
            counted = k.counted;
            few = ground (arith, h.counted);
            clean = k.clean;
            within = k.within;
            sized = k.sized;
          }),
          (refl, refl),
          refl,
        ))
