-- ===== src/Fs/InodeCache/Turns.antt =====
-- What the steps have in common: what they keep of the users, and how they are counted.
use os_pi_is_cool.Base.{
  ℕ, ◌+◌, ◌≡◌, ◌≢◌, inl, inr, refl, sym, ap, subst, ◌∙◌, arith, true, false, Option, none, some,
  List, ◌∷◌, ◌++◌, if◌then◌else◌, ◌==◌, Bool-cases, Ptr,
}
use os_pi_is_cool.Thread.{update}
use os_pi_is_cool.Fs.Errors.{pos}
use os_pi_is_cool.Fs.InodeCache.{CacheNode, find_inode, id_of}
use os_pi_is_cool.Fs.InodeCache.Users.{
  Phase, loads, waits, holds, User, user, is_loads, of_id, loads_id, count,
}
use os_pi_is_cool.Fs.InodeCache.Sound.{
  All-middle, count-middle, Counted, unused, used, Ready, Linked, Sound,
}

other_id : (id id' : ℕ) → id' ≢ id → (id == id') ≡ false
other_id id id' ne = ground arith

same_id : (id : ℕ) → (id == id) ≡ true
same_id id = ground arith

-- A user in front.
pub count-user :
    (phase : Phase) (id : ℕ) (p : Ptr) (us : List User)
    → (count (of_id id) (user phase id p ∷ us) ≡ 1 + count (of_id id) us)
      × (count (loads_id id) (user phase id p ∷ us)
          ≡ (if is_loads phase then 1 else 0) + count (loads_id id) us)
count-user loads id p us = rw (same_id id) (refl, refl)
count-user waits id p us = rw (same_id id) (refl, refl)
count-user holds id p us = rw (same_id id) (refl, refl)

pub count-other :
    (phase : Phase) (id : ℕ) (p : Ptr) (us : List User) (id' : ℕ)
    → id' ≢ id
    → (count (of_id id') (user phase id p ∷ us) ≡ count (of_id id') us)
      × (count (loads_id id') (user phase id p ∷ us) ≡ count (loads_id id') us)
count-other loads id p us id' ne = rw (other_id id id' ne) (omega arith, omega arith)
count-other waits id p us id' ne = rw (other_id id id' ne) (omega arith, omega arith)
count-other holds id p us id' ne = rw (other_id id id' ne) (omega arith, omega arith)

module _ {A : Type 0} where
  -- A change that keeps these fields of a node.
  pub Ready-same :
      (heap : Ptr → CacheNode A) (p : Ptr) (n : CacheNode A) (phase : Phase) (q : Ptr)
      → n.loading ≡ (heap p).loading
      → n.load_error ≡ (heap p).load_error
      → Ready heap phase q
      → Ready (update heap p n) phase q
  Ready-same heap p n loads q l e r = tt
  Ready-same heap p n waits q l e r = tt
  Ready-same heap p n holds q l e (rl, re) = elim (Bool-cases (p == q)) [
    | inl here ↦
        let same : p ≡ q = ground arith in
        rw here
          (l ∙ ap (λ z. (heap z).loading) same ∙ rl, e ∙ ap (λ z. (heap z).load_error) same ∙ re)
    | inr there ↦ rw there (rl, re)
  ]

  -- A change of a node that is loading.
  pub Ready-loading :
      (heap : Ptr → CacheNode A) (p : Ptr) (n : CacheNode A) (phase : Phase) (q : Ptr)
      → (heap p).loading ≡ true
      → Ready heap phase q
      → Ready (update heap p n) phase q
  Ready-loading heap p n loads q l r = tt
  Ready-loading heap p n waits q l r = tt
  Ready-loading heap p n holds q l (rl, re) = elim (Bool-cases (p == q)) [
    | inl here ↦
        let same : p ≡ q = ground arith in
        absurd (let clash : true ≡ false = sym l ∙ ap (λ z. (heap z).loading) same ∙ rl in cc)
    | inr there ↦ rw there (rl, re)
  ]

  -- The order of the users does not matter.
  pub to_front :
      (nodes : List Ptr) (heap : Ptr → CacheNode A) (us xs ys : List User) (u : User)
      → us ≡ xs ++ u ∷ ys
      → Sound nodes heap us
      → Sound nodes heap (u ∷ (xs ++ ys))
  to_front nodes heap us xs ys u e s =
      let here = subst (Sound nodes heap) e s in
      record {
        distinct = here.distinct;
        counted = λ id. again id (find_inode id (id_of heap) nodes) (here.counted id);
        linked = All-middle (Linked nodes heap) xs u ys here.linked;
      }
    where
      again :
          (id : ℕ) (o : Option Ptr)
          → Counted heap (xs ++ u ∷ ys) id o
          → Counted heap (u ∷ (xs ++ ys)) id o
      again id none (unused gone) = unused (sym (count-middle (of_id id) xs u ys) ∙ gone)
      again id (some p) (used refs more reading) =
          let uses = count-middle (of_id id) xs u ys in
          used (refs ∙ ap pos uses) (omega (arith, more, uses))
            (sym (count-middle (loads_id id) xs u ys) ∙ reading)
