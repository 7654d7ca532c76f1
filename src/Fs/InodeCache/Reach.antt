-- ===== src/Fs/InodeCache/Reach.antt =====
-- Every step keeps what holds of the cache of inodes and its users.
use os_pi_is_cool.Base.{
  ℕ, ◌≡◌, inl, inr, refl, sym, ap, subst, ◌∙◌, arith, true, false, not, ◌&&◌, Option, none, some,
  List, [], ◌∷◌, ◌++◌, if◌then◌else◌, ◌==◌, Bool-cases, if-elim, Ptr,
}
use os_pi_is_cool.Thread.{update}
use os_pi_is_cool.Fs.Errors.{FsError, Result, success, error}
use os_pi_is_cool.Fs.InodeCache.{
  CacheNode, InodeCache, find_inode, id_of, decrement, not_positive, after_load, drop_ref,
  flush_and_free_cache_inode,
}
use os_pi_is_cool.Fs.InodeCache.Find.{Distinct}
use os_pi_is_cool.Fs.InodeCache.Users.{
  Phase, loads, waits, holds, User, user, Shared, keep, leave, dropped, woken, Step, look, load,
  wake, drop, flush, Steps, at_start, then_step, is_loads,
}
use os_pi_is_cool.Fs.InodeCache.Sound.{All-map, Counted, unused, used, Ready, Sound}
use os_pi_is_cool.Fs.InodeCache.Turns.{to_front}
use os_pi_is_cool.Fs.InodeCache.Joins.{Good, look-Good}
use mathlib.Core.Path.{fun_ext}
use os_pi_is_cool.Fs.InodeCache.Leaves.{
  loaded-Sound, failed_kept, failed_gone, woken-Sound, dropped_kept, dropped_gone,
}

module _ {A : Type 0} where
  -- What is written besides these fields does not matter.
  Sound-same :
      (nodes : List Ptr) (h h' : Ptr → CacheNode A) (us : List User)
      → ((q : Ptr) → (h' q).id ≡ (h q).id)
      → ((q : Ptr) → (h' q).num_refs ≡ (h q).num_refs)
      → ((q : Ptr) → (h' q).loading ≡ (h q).loading)
      → ((q : Ptr) → (h' q).load_error ≡ (h q).load_error)
      → Sound nodes h us
      → Sound nodes h' us
  Sound-same nodes h h' us ids refs loading errors s = record {
    distinct = subst (λ f. Distinct f nodes) (sym same) s.distinct;
    counted = λ id.
        subst (λ f. Counted h' us id (find_inode id f nodes)) (sym same)
          (counted_same id (find_inode id (id_of h) nodes) (s.counted id));
    linked =
        All-map us
          (λ u (at, ready).
            (ap (λ f. find_inode u.id f nodes) same ∙ at, ready_same u.phase u.at ready))
          s.linked;
  }
    where
      same : id_of h' ≡ id_of h
      same = fun_ext ids

      counted_same : (id : ℕ) (o : Option Ptr) → Counted h us id o → Counted h' us id o
      counted_same id none (unused gone) = unused gone
      counted_same id (some p) (used count_is more reading) =
          used (refs p ∙ count_is) more (reading ∙ ap (λ b. if b then 1 else 0) (sym (loading p)))

      ready_same : (phase : Phase) (q : Ptr) → Ready h phase q → Ready h' phase q
      ready_same loads q r = tt
      ready_same waits q r = tt
      ready_same holds q (l, e) = (loading q ∙ l, errors q ∙ e)

  field_kept :
      {B : Type 0} (f : CacheNode A → B) (heap : Ptr → CacheNode A) (p : Ptr) (n : CacheNode A)
      → f n ≡ f (heap p)
      → (q : Ptr) → f (update heap p n q) ≡ f (heap q)
  field_kept f heap p n same q = elim (Bool-cases (p == q)) [
    | inl here ↦ let at : p ≡ q = ground arith in rw here (same ∙ ap (λ z. f (heap z)) at)
    | inr there ↦ rw there refl
  ]

  flush-Good :
      (s : Shared A) (p : Ptr) (r : Result Unit) (left : List Ptr)
      → Good s
      → Good (record s { cache = (flush_and_free_cache_inode p r s.cache).0; flushing = left })
  flush-Good s p r left g =
      let heap = s.cache.heap in
      let n = record (heap p) { dirty = false } in
      if-elim
        (λ (out : InodeCache A × Result Unit). Good (record s { cache = out.0; flushing = left }))
        (heap p).dirty
        (λ dirty.
          Sound-same s.cache.nodes heap (update heap p n) s.users
            (field_kept (λ x. x.id) heap p n refl) (field_kept (λ x. x.num_refs) heap p n refl)
            (field_kept (λ x. x.loading) heap p n refl)
            (field_kept (λ x. x.load_error) heap p n refl) g)
        (λ clean. g)

  load-Good :
      (s : Shared A) (id : ℕ) (p : Ptr) (r : Result A) (os : List User)
      → Sound s.cache.nodes s.cache.heap (user loads id p ∷ os)
      → Good (keep id os s (after_load p r s.cache))
  load-Good s id p (success inode) os g = loaded-Sound s.cache.nodes s.cache.heap os id p inode g
  load-Good s id p (error e) os g =
      if-elim (λ c. Good (keep id os s (c, none)))
        (not_positive (decrement (s.cache.heap p).num_refs))
        (failed_gone s.cache.nodes s.cache.heap os id p e g)
        (failed_kept s.cache.nodes s.cache.heap os id p e g)

  drop-Good :
      (s : Shared A) (phase : Phase) (id : ℕ) (p : Ptr) (os : List User)
      → is_loads phase ≡ false
      → (s.cache.heap p).loading ≡ false
      → Sound s.cache.nodes s.cache.heap (user phase id p ∷ os)
      → Good (dropped id os s)
  drop-Good s phase id p os no_reader idle g =
      subst (λ o. Good (leave os s (drop_ref s.cache o))) (sym g.linked.0.0)
        (if-elim (λ r. Good (leave os s r))
          (not_positive (decrement (s.cache.heap p).num_refs) && not (s.cache.heap p).loading)
          (λ gone.
            dropped_gone s.cache.nodes s.cache.heap os id p phase no_reader idle g (zero_refs gone))
          (λ more.
            dropped_kept s.cache.nodes s.cache.heap os id p phase no_reader idle g
              (more_refs more)))
    where
      is_idle : not (s.cache.heap p).loading ≡ true
      is_idle = ap not idle

      zero_refs :
          (not_positive (decrement (s.cache.heap p).num_refs) && not (s.cache.heap p).loading)
            ≡ true
          → not_positive (decrement (s.cache.heap p).num_refs) ≡ true
      zero_refs h = ground arith

      more_refs :
          (not_positive (decrement (s.cache.heap p).num_refs) && not (s.cache.heap p).loading)
            ≡ false
          → not_positive (decrement (s.cache.heap p).num_refs) ≡ false
      more_refs h = ground arith

  wake-Good :
      (s : Shared A) (id : ℕ) (p : Ptr) (os : List User) (e : Option FsError)
      → (s.cache.heap p).loading ≡ false
      → (s.cache.heap p).load_error ≡ e
      → Sound s.cache.nodes s.cache.heap (user waits id p ∷ os)
      → Good (woken id p os s e)
  wake-Good s id p os none idle fine g = woken-Sound s.cache.nodes s.cache.heap os id p idle fine g
  wake-Good s id p os (some e) idle failed g = drop-Good s waits id p os refl idle g

  Step-Good : (s s' : Shared A) → Step s s' → Good s → Good s'
  Step-Good s _ (look at id zeroed fresh) g = look-Good s at id zeroed fresh g
  Step-Good s _ (load id p r xs ys split) g =
      load-Good s id p r (xs ++ ys)
        (to_front s.cache.nodes s.cache.heap s.users xs ys (user loads id p) split g)
  Step-Good s _ (wake id p xs ys split idle) g =
      wake-Good s id p (xs ++ ys) (s.cache.heap p).load_error idle refl
        (to_front s.cache.nodes s.cache.heap s.users xs ys (user waits id p) split g)
  Step-Good s _ (drop id p xs ys split) g =
      let g' = to_front s.cache.nodes s.cache.heap s.users xs ys (user holds id p) split g in
      drop-Good s holds id p (xs ++ ys) refl g'.linked.0.1.0 g'
  Step-Good s _ (flush p r ps qs split) g = flush-Good s p r (ps ++ qs) g

  -- From a state whose list is empty and that has no users, after critical sections of
  -- `get_inode_from_cache` and `remove_ref_from_cache`, with the flushes that follow them, of any
  -- number of threads in any order, while `empty_inode_cache` does not run: no two nodes of the list are for the same inode; each has exactly as
  -- many references as it has users, and at least one; it is loading while one thread, and no other,
  -- reads its inode; the node of every user is in the list, so that it is not freed; and the node of a
  -- thread that was given the inode is loaded without an error.
  pub Steps-Sound :
      (s s' : Shared A)
      → s.cache.nodes ≡ []
      → s.users ≡ []
      → Steps s s'
      → Sound s'.cache.nodes s'.cache.heap s'.users
  Steps-Sound s _ empty nobody at_start =
      subst (λ us. Sound s.cache.nodes s.cache.heap us) (sym nobody)
        (subst (λ ns. Sound ns s.cache.heap []) (sym empty)
          (record { distinct = tt; counted = λ id. unused refl; linked = tt }))
  Steps-Sound s _ empty nobody (then_step {s'} steps step) =
      Step-Good s' _ step (Steps-Sound s s' empty nobody steps)
