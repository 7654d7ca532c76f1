-- ===== src/Fs/InodeCache/Sound.antt =====
-- What holds of the cache of inodes and its users in every state.
use os_pi_is_cool.Base.{
  ℕ, ◌+◌, ◌<◌, ◌≡◌, ◌≢◌, inl, inr, refl, sym, ap, ◌∙◌, arith, Bool, true, false, Option, none, some,
  List, [], ◌∷◌, ◌++◌, if◌then◌else◌, ◌==◌, Bool-cases, Ptr,
}
use mathlib.Core.Path.{fun_ext}
use os_pi_is_cool.Thread.{update}
use os_pi_is_cool.Fs.Errors.{pos}
use os_pi_is_cool.Fs.InodeCache.{CacheNode, find_inode, id_of}
use os_pi_is_cool.Fs.InodeCache.Find.{Distinct}
use os_pi_is_cool.Fs.InodeCache.Users.{Phase, loads, waits, holds, User, of_id, loads_id, count}

abbrev pub All : (User → Type 0) → List User → Type 0
All P [] = Unit
All P (u ∷ us) = P u × All P us

pub All-map :
    {P Q : User → Type 0} (us : List User) → ((u : User) → P u → Q u) → All P us → All Q us
All-map [] f a = tt
All-map (u ∷ us) f (p, a) = (f u p, All-map us f a)

pub All-middle :
    (P : User → Type 0) (xs : List User) (u : User) (ys : List User)
    → All P (xs ++ u ∷ ys)
    → P u × All P (xs ++ ys)
All-middle P [] u ys a = a
All-middle P (x ∷ xs) u ys (p, a) = let (q, b) = All-middle P xs u ys a in (q, (p, b))

pub count-middle :
    (p : User → Bool) (xs : List User) (u : User) (ys : List User)
    → count p (xs ++ u ∷ ys) ≡ (if p u then 1 else 0) + count p (xs ++ ys)
count-middle p [] u ys = refl
count-middle p (x ∷ xs) u ys = omega (arith, count-middle p xs u ys)

-- Without a user of this inode every user is of another one.
pub All-others : (id : ℕ) (us : List User) → count (of_id id) us ≡ 0 → All (λ u. u.id ≢ id) us
All-others id [] h = tt
All-others id (u ∷ us) h = elim (Bool-cases (u.id == id)) [
  | inl same ↦ absurd (let more : 1 + count (of_id id) us ≡ 0 = rw same at h in omega arith)
  | inr other ↦ (ground arith, All-others id us (omega (arith, rw other at h)))
]

module _ {A : Type 0} where
  -- A node has as many references as users, and at least one of these, and it is loading while one of
  -- them, and only one, reads its inode. An inode that is not in the list has no users.
  pub data Counted (heap : Ptr → CacheNode A) (users : List User) (id : ℕ)
      : Option Ptr → Type 0 where
    unused : count (of_id id) users ≡ 0 → Counted heap users id none
    used :
        {p : Ptr}
        → (heap p).num_refs ≡ pos (count (of_id id) users)
        → 0 < count (of_id id) users
        → count (loads_id id) users ≡ (if (heap p).loading then 1 else 0)
        → Counted heap users id (some p)

  -- The inode that a thread uses was read without an error.
  abbrev pub Ready : (Ptr → CacheNode A) → Phase → Ptr → Type 0
  Ready heap loads p = Unit
  Ready heap waits p = Unit
  Ready heap holds p = ((heap p).loading ≡ false) × ((heap p).load_error ≡ none)

  -- A user's node is the one in the list for its inode.
  abbrev pub Linked : List Ptr → (Ptr → CacheNode A) → User → Type 0
  Linked nodes heap u = (find_inode u.id (id_of heap) nodes ≡ some u.at) × Ready heap u.phase u.at

  pub record Sound (nodes : List Ptr) (heap : Ptr → CacheNode A) (users : List User) : Type 0 where
    pub distinct : Distinct (id_of heap) nodes
    pub counted : (id : ℕ) → Counted heap users id (find_inode id (id_of heap) nodes)
    pub linked : All (Linked nodes heap) users

  pub update-here : (heap : Ptr → CacheNode A) (p : Ptr) (n : CacheNode A) → update heap p n p ≡ n
  update-here heap p n = let here : (p == p) ≡ true = ground arith in rw here refl

  pub update-there :
      (heap : Ptr → CacheNode A) (p : Ptr) (n : CacheNode A) (q : Ptr)
      → p ≢ q
      → update heap p n q ≡ heap q
  update-there heap p n q ne = let there : (p == q) ≡ false = ground arith in rw there refl

  pub id_of-update :
      (heap : Ptr → CacheNode A) (p : Ptr) (n : CacheNode A)
      → n.id ≡ (heap p).id
      → id_of (update heap p n) ≡ id_of heap
  id_of-update heap p n same = fun_ext pointwise
    where
      pointwise : (q : Ptr) → (update heap p n q).id ≡ (heap q).id
      pointwise q = elim (Bool-cases (p == q)) [
        | inl here ↦ let at : p ≡ q = ground arith in rw here (same ∙ ap (λ z. (heap z).id) at)
        | inr there ↦ rw there refl
      ]

  pub Counted-other :
      (heap : Ptr → CacheNode A) (p : Ptr) (n : CacheNode A) (us vs : List User) (id : ℕ)
      (o : Option Ptr)
      → o ≢ some p
      → count (of_id id) vs ≡ count (of_id id) us
      → count (loads_id id) vs ≡ count (loads_id id) us
      → Counted heap us id o
      → Counted (update heap p n) vs id o
  Counted-other heap p n us vs id none ne same loading (unused none_there) =
      unused (same ∙ none_there)
  Counted-other heap p n us vs id (some q) ne same loading (used refs more reading) =
      let other : p ≢ q = λ e. ne (ap some (sym e)) in
      let there = update-there heap p n q other in
      used (ap (λ x. x.num_refs) there ∙ refs ∙ ap pos (sym same)) (omega (arith, more, same))
        (loading ∙ reading ∙ ap (λ x. if x.loading then 1 else 0) (sym there))
