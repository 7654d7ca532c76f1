-- ===== src/Fs/InodeCache/Find.antt =====
-- The search of the list, and what linking and unlinking a node does to it.
use os_pi_is_cool.Base.{
  ℕ, ◌≡◌, ◌≢◌, inl, inr, refl, sym, ap, ◌∙◌, arith, true, false, Option, none, some, List, [], ◌∷◌,
  ◌++◌, if◌then◌else◌, ◌==◌, Bool-cases, Ptr,
}
use os_pi_is_cool.Fs.InodeCache.{find_inode, unlinked}

-- No two nodes of the list have the same number.
abbrev pub Distinct : (Ptr → ℕ) → List Ptr → Type 0
Distinct f [] = Unit
Distinct f (p ∷ ps) = (find_inode (f p) f ps ≡ none) × Distinct f ps

-- The address is not in the list.
abbrev pub Absent : Ptr → List Ptr → Type 0
Absent p [] = Unit
Absent p (q ∷ qs) = (p ≢ q) × Absent p qs

abbrev pub or_else : Option Ptr → Option Ptr → Option Ptr
or_else none o = o
or_else (some p) o = some p

pub find-id :
    (id : ℕ) (f : Ptr → ℕ) (ps : List Ptr) (p : Ptr) → find_inode id f ps ≡ some p → f p ≡ id
find-id id f [] p h = absurd (cc)
find-id id f (q ∷ qs) p h = elim (Bool-cases (f q == id)) [
  | inl here ↦
      let found : some q ≡ some p = rw here at h in
      let same : q ≡ p = cc in let number : f q ≡ id = ground arith in ap f (sym same) ∙ number
  | inr other ↦ find-id id f qs p (rw other at h)
]

pub find-snoc :
    (id : ℕ) (f : Ptr → ℕ) (ps : List Ptr) (p : Ptr)
    → find_inode id f (ps ++ p ∷ [])
      ≡ or_else (find_inode id f ps) (if f p == id then some p else none)
find-snoc id f [] p = refl
find-snoc id f (q ∷ qs) p = elim (Bool-cases (f q == id)) [
  | inl here ↦ rw here refl
  | inr other ↦ rw other (find-snoc id f qs p)
]

pub find-Absent :
    (id : ℕ) (f g : Ptr → ℕ) (ps : List Ptr) (p : Ptr)
    → Absent p ps
    → ((q : Ptr) → p ≢ q → g q ≡ f q)
    → find_inode id g ps ≡ find_inode id f ps
find-Absent id f g [] p a same = refl
find-Absent id f g (q ∷ qs) p (ne, a) same = rw (same q ne, find-Absent id f g qs p a same) refl

pub Distinct-Absent :
    (f g : Ptr → ℕ) (ps : List Ptr) (p : Ptr)
    → Absent p ps
    → ((q : Ptr) → p ≢ q → g q ≡ f q)
    → Distinct f ps
    → Distinct g ps
Distinct-Absent f g [] p a same d = tt
Distinct-Absent f g (q ∷ qs) p (ne, a) same (d, ds) = (
  find-Absent (g q) f g qs p a same ∙ ap (λ n. find_inode n f qs) (same q ne) ∙ d,
  Distinct-Absent f g qs p a same ds,
)

pub Distinct-snoc :
    (f : Ptr → ℕ) (ps : List Ptr) (p : Ptr)
    → find_inode (f p) f ps ≡ none
    → Distinct f ps
    → Distinct f (ps ++ p ∷ [])
Distinct-snoc f [] p h d = (refl, tt)
Distinct-snoc f (q ∷ qs) p h (d, ds) = elim (Bool-cases (f q == f p)) [
  | inl same ↦ absurd (let found : some q ≡ none = rw same at h in cc)
  | inr other ↦
      let back : (f p == f q) ≡ false = ground arith in
      (find-snoc (f q) f qs p ∙ rw (d, back) refl, Distinct-snoc f qs p (rw other at h) ds)
]

-- A node that is not the first with its number is not found.
pub find-unlinked-other :
    (id : ℕ) (f : Ptr → ℕ) (ps : List Ptr) (p : Ptr)
    → f p ≢ id
    → find_inode id f (unlinked p ps) ≡ find_inode id f ps
find-unlinked-other id f [] p ne = refl
find-unlinked-other id f (q ∷ qs) p ne = elim (Bool-cases (q == p)) [
  | inl here ↦
      let same : q ≡ p = ground arith in
      let number : f q ≡ f p = ap f same in
      let other : (f q == id) ≡ false = ground arith in rw (here, other) refl
  | inr there ↦ elim (Bool-cases (f q == id)) [
    | inl found ↦ rw (there, found) refl
    | inr unfound ↦ rw (there, unfound) (find-unlinked-other id f qs p ne)
  ]
]

pub find-unlinked :
    (id : ℕ) (f : Ptr → ℕ) (ps : List Ptr) (p : Ptr)
    → Distinct f ps
    → find_inode id f ps ≡ some p
    → find_inode id f (unlinked p ps) ≡ none
find-unlinked id f [] p d h = refl
find-unlinked id f (q ∷ qs) p (d, ds) h = elim (Bool-cases (f q == id)) [
  | inl found ↦
      let first : some q ≡ some p = rw found at h in
      let same : q ≡ p = cc in
      let here : (q == p) ≡ true = ground arith in
      let number : f q ≡ id = ground arith in rw here (ap (λ n. find_inode n f qs) (sym number) ∙ d)
  | inr unfound ↦
      let rest : find_inode id f qs ≡ some p = rw unfound at h in
      let number : f p ≡ id = find-id id f qs p rest in
      elim (Bool-cases (q == p)) [
        | inl here ↦
            let same : q ≡ p = ground arith in
            let numbers : f q ≡ f p = ap f same in absurd (ground arith)
        | inr there ↦ rw (there, unfound) (find-unlinked id f qs p ds rest)
      ]
]

pub Distinct-unlinked :
    (f : Ptr → ℕ) (ps : List Ptr) (p : Ptr) → Distinct f ps → Distinct f (unlinked p ps)
Distinct-unlinked f [] p d = tt
Distinct-unlinked f (q ∷ qs) p (d, ds) = elim (Bool-cases (q == p)) [
  | inl here ↦ rw here ds
  | inr there ↦ rw there (still_none f qs p (f q) d, Distinct-unlinked f qs p ds)
]
  where
    still_none :
        (f : Ptr → ℕ) (ps : List Ptr) (p : Ptr) (id : ℕ)
        → find_inode id f ps ≡ none
        → find_inode id f (unlinked p ps) ≡ none
    still_none f [] p id h = refl
    still_none f (q ∷ qs) p id h = elim (Bool-cases (f q == id)) [
      | inl found ↦ absurd (let hit : some q ≡ none = rw found at h in cc)
      | inr unfound ↦ elim (Bool-cases (q == p)) [
        | inl here ↦ rw here (rw unfound at h)
        | inr there ↦ rw (there, unfound) (still_none f qs p id (rw unfound at h))
      ]
    ]
