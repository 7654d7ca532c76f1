-- ===== src/Fs/InodeCache/Empty.antt =====
-- `empty_inode_cache` writes back what is not written yet.
use os_pi_is_cool.Base.{
  ℕ, zero, suc, ◌+◌, ◌<◌, ◌≡◌, inl, inr, refl, sym, ap, subst, ◌∙◌, arith, true, false, none, some,
  List, [], ◌∷◌, ◌++◌, append_assoc, append-nil, length, if◌then◌else◌, ◌==◌, Bool-cases, if-elim,
  Ptr,
}
use os_pi_is_cool.Thread.{update}
use os_pi_is_cool.Fs.Errors.{Result, success}
use os_pi_is_cool.Fs.InodeCache.{
  CacheNode, InodeCache, Emptying, returned, find_inode, unlinked, id_of, unlink_cache_inode_locked,
  flush_and_free_cache_inode, and_then, empty_round, empty_rounds, empty_inode_cache,
}
use os_pi_is_cool.Fs.InodeCache.Find.{Distinct, Absent}

Absent-unfound :
    (f : Ptr → ℕ) (p : Ptr) (ps : List Ptr) → find_inode (f p) f ps ≡ none → Absent p ps
Absent-unfound f p [] h = tt
Absent-unfound f p (q ∷ qs) h = elim (Bool-cases (f q == f p)) [
  | inl here ↦ absurd (let found : some q ≡ none = rw here at h in cc)
  | inr there ↦ (
    λ e.
        let same : f q ≡ f p = ap f (sym e) in
        let clash : (f q == f p) ≡ true = ground arith in
        absurd (let two : true ≡ false = sym clash ∙ there in cc),
    Absent-unfound f p qs (rw there at h),
  )
]

-- No address stands in the list twice.
abbrev Once : List Ptr → Type 0
Once [] = Unit
Once (p ∷ ps) = Absent p ps × Once ps

Once-Distinct : (f : Ptr → ℕ) (ps : List Ptr) → Distinct f ps → Once ps
Once-Distinct f [] d = tt
Once-Distinct f (p ∷ ps) (d, ds) = (Absent-unfound f p ps d, Once-Distinct f ps ds)

module _ {A : Type 0} where
  abbrev pub dirty_one : CacheNode A → List (A × ℕ)
  dirty_one n = if n.dirty then (n.inode, n.id) ∷ [] else []

  -- The inodes that are dirty, with their numbers.
  abbrev pub dirty_ones : (Ptr → CacheNode A) → List Ptr → List (A × ℕ)
  dirty_ones heap [] = []
  dirty_ones heap (p ∷ ps) = dirty_one (heap p) ++ dirty_ones heap ps

  dirty_ones-update :
      (heap : Ptr → CacheNode A) (p : Ptr) (n : CacheNode A) (ps : List Ptr)
      → Absent p ps
      → dirty_ones (update heap p n) ps ≡ dirty_ones heap ps
  dirty_ones-update heap p n [] a = refl
  dirty_ones-update heap p n (q ∷ qs) (ne, a) =
      let there : (p == q) ≡ false = ground arith in
      rw (there, dirty_ones-update heap p n qs a) refl

  -- No node of the list is loading.
  abbrev pub Idle : (Ptr → CacheNode A) → List Ptr → Type 0
  Idle heap [] = Unit
  Idle heap (p ∷ ps) = ((heap p).loading ≡ false) × Idle heap ps

  Idle-same :
      (heap heap' : Ptr → CacheNode A) (ps : List Ptr)
      → ((q : Ptr) → (heap' q).loading ≡ (heap q).loading)
      → Idle heap ps
      → Idle heap' ps
  Idle-same heap heap' [] same idle = tt
  Idle-same heap heap' (p ∷ ps) same (here, idle) =
      (same p ∙ here, Idle-same heap heap' ps same idle)

  cleaned-loading :
      (heap : Ptr → CacheNode A) (p q : Ptr)
      → (update heap p (record (heap p) { dirty = false }) q).loading ≡ (heap q).loading
  cleaned-loading heap p q = elim (Bool-cases (p == q)) [
    | inl here ↦ let at : p ≡ q = ground arith in rw here (ap (λ z. (heap z).loading) at)
    | inr there ↦ rw there refl
  ]

  -- A node is written if it is dirty, and freed.
  pub data Flushed (c : InodeCache A) (p : Ptr) : InodeCache A × Result Unit → Type 0 where
    flushed :
        {c' : InodeCache A}
        → c'.nodes ≡ c.nodes
        → c'.freed ≡ c.freed ++ p ∷ []
        → c'.written ≡ c.written ++ dirty_one (c.heap p)
        → ((ps : List Ptr) → Absent p ps → dirty_ones c'.heap ps ≡ dirty_ones c.heap ps)
        → ((q : Ptr) → (c'.heap q).loading ≡ (c.heap q).loading)
        → Flushed c p (c', success tt)

  flush_lem :
      (c : InodeCache A) (p : Ptr) (r : Result Unit)
      → r ≡ success tt
      → Flushed c p (flush_and_free_cache_inode p r c)
  flush_lem c p r done =
      subst (λ r. Flushed c p (flush_and_free_cache_inode p r c)) (sym done)
        (elim (Bool-cases (c.heap p).dirty) [
          | inl dirty ↦ rw dirty (
              flushed refl refl (rw dirty refl)
                (λ ps a. dirty_ones-update c.heap p (record (c.heap p) { dirty = false }) ps a)
                (λ q. cleaned-loading c.heap p q))
          | inr clean ↦
              rw clean (
                flushed refl refl (rw (clean, append-nil c.written) refl) (λ ps a. refl)
                  (λ q. refl))
        ])

  -- How it ends.
  pub data Emptied (c : InodeCache A) (ps : List Ptr) : InodeCache A × Emptying → Type 0 where
    emptied :
        {c' : InodeCache A}
        → c'.nodes ≡ []
        → c'.freed ≡ c.freed ++ ps
        → c'.written ≡ c.written ++ dirty_ones c.heap ps
        → Emptied c ps (c', returned (success tt))

  rounds_lem :
      (n : ℕ) (c : InodeCache A) (ps : List Ptr) (r : Ptr → Result Unit)
      → c.nodes ≡ ps
      → length ps < n
      → Once ps
      → Idle c.heap ps
      → ((p : Ptr) → r p ≡ success tt)
      → Emptied c ps (empty_rounds n r c)
  rounds_lem zero c ps r e enough once idle done = absurd (omega arith)
  rounds_lem (suc n) c [] r e enough once idle done =
      subst (λ ns. Emptied c [] (empty_round (empty_rounds n r) r c ns)) (sym e)
        (emptied e (sym (append-nil c.freed)) (sym (append-nil c.written)))
  rounds_lem (suc n) c (p ∷ ps) r e enough (absent, once) (here_idle, idle) done =
      subst (λ ns. Emptied c (p ∷ ps) (empty_round (empty_rounds n r) r c ns)) (sym e)
        (if-elim (Emptied c (p ∷ ps)) (c.heap p).loading
          (λ busy. absurd (let clash : true ≡ false = sym busy ∙ here_idle in cc))
          (λ quiet.
            go_on (empty_rounds n r)
              (λ c' at same.
                rounds_lem n c' ps r at (omega (arith, enough)) once
                  (Idle-same c.heap c'.heap ps same idle) done)
              _ (flush_lem (unlink_cache_inode_locked p c) p (r p) (done p))))
    where
      rest : unlinked p c.nodes ≡ ps
      rest = let here : (p == p) ≡ true = ground arith in rw (e, here) refl

      longer :
          (c' : InodeCache A) (out : InodeCache A × Emptying)
          → c'.freed ≡ c.freed ++ p ∷ []
          → c'.written ≡ c.written ++ dirty_one (c.heap p)
          → dirty_ones c'.heap ps ≡ dirty_ones c.heap ps
          → Emptied c' ps out
          → Emptied c (p ∷ ps) out
      longer c' _ freed written same (emptied none_left frees writes) =
          emptied none_left (frees ∙ ap (λ l. l ++ ps) freed ∙ append_assoc c.freed (p ∷ []) ps) (
            writes
            ∙ ap (λ l. l ++ dirty_ones c'.heap ps) written
            ∙ append_assoc c.written (dirty_one (c.heap p)) (dirty_ones c'.heap ps)
            ∙ ap (λ l. c.written ++ (dirty_one (c.heap p) ++ l)) same)

      go_on :
          (next : InodeCache A → InodeCache A × Emptying)
          → ((c' : InodeCache A)
              → c'.nodes ≡ ps
              → ((q : Ptr) → (c'.heap q).loading ≡ (c.heap q).loading)
              → Emptied c' ps (next c'))
          → (out : InodeCache A × Result Unit) → Flushed (unlink_cache_inode_locked p c) p out
          → Emptied c (p ∷ ps) (and_then next out)
      go_on next then_rest _ (flushed {c'} nodes freed written same loading) =
          longer c' (next c') freed written (same ps absent) (then_rest c' (nodes ∙ rest) loading)

  -- If no two nodes of the list are for the same inode, none of them is loading, and every write to the
  -- device succeeds, `empty_inode_cache` returns SUCCESS with an empty list: every dirty inode is
  -- written, once and in the order of the list, under its number, and every node is freed once.
  pub empty_inode_cache_lem :
      (c : InodeCache A) (r : Ptr → Result Unit)
      → Distinct (id_of c.heap) c.nodes
      → Idle c.heap c.nodes
      → ((p : Ptr) → r p ≡ success tt)
      → Emptied c c.nodes (empty_inode_cache r c)
  empty_inode_cache_lem c r distinct idle done =
      rounds_lem (length c.nodes + 1) c c.nodes r refl (omega arith)
        (Once-Distinct (id_of c.heap) c.nodes distinct) idle done
