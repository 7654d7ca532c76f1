-- ===== src/Fs/Oft/Find.antt =====
-- The free place of the table, and the search for an entry.
use os_pi_is_cool.Base.{
  ℕ, zero, suc, ◌+◌, ◌≡◌, ◌≢◌, inl, inr, refl, sym, ap, subst, ◌∙◌, arith, false, Option, none,
  some, List, [], ◌∷◌, ◌++◌, append-cons, length, length-snoc, if◌then◌else◌, ◌==◌, Bool-cases, ok,
  Ptr, null,
}
use os_pi_is_cool.Vec.{Vec}
use os_pi_is_cool.Vec.Holds.{Holds, get-Holds}
use os_pi_is_cool.Fs.Oft.{find_loop, or_length, find_file_in_table, search}

-- The first place that is free, or the one behind the last.
abbrev pub slot : List Ptr → ℕ
slot [] = 0
slot (e ∷ es) = if e == null then 0 else suc (slot es)

-- The table with an entry in this place.
abbrev pub put : List Ptr → Ptr → List Ptr
put [] at = at ∷ []
put (e ∷ es) at = if e == null then at ∷ es else e ∷ put es at

pub data Slot (at : Ptr) : List Ptr → ℕ → List Ptr → Type 0 where
  behind : (es : List Ptr) → Slot at es (length es) (es ++ at ∷ [])
  between : (xs ys : List Ptr) → Slot at (xs ++ null ∷ ys) (length xs) (xs ++ at ∷ ys)

Slot-cons :
    {at : Ptr} {es es' : List Ptr} {i : ℕ} (e : Ptr)
    → Slot at es i es'
    → Slot at (e ∷ es) (suc i) (e ∷ es')
Slot-cons e (behind es) = behind (e ∷ es)
Slot-cons e (between xs ys) = between (e ∷ xs) ys

pub slot-Slot : (at : Ptr) (es : List Ptr) → Slot at es (slot es) (put es at)
slot-Slot at [] = behind []
slot-Slot at (e ∷ es) = elim (Bool-cases (e == null)) [
  | inl free ↦
      let is_null : e ≡ null = ground arith in
      rw free (subst (λ z. Slot at (z ∷ es) 0 (at ∷ es)) (sym is_null) (between [] es))
  | inr used ↦ rw used (Slot-cons e (slot-Slot at es))
]

-- The loop of `find_file_in_table`, on the entries behind the first ones.
abbrev found_from : Option ℕ → ℕ → List Ptr → Option ℕ
found_from (some j) i es = some j
found_from none i [] = none
found_from none i (e ∷ es) = if e == null then some i else found_from none (i + 1) es

find_loop_lem :
    (v : Vec) (xs es : List Ptr) (n i : ℕ) (found : Option ℕ)
    → Holds v (xs ++ es)
    → i ≡ length xs
    → n ≡ length es
    → find_loop n i found v ≡ ok (found_from found i es)
unfolding find_loop
find_loop_lem v xs [] zero i none h at e = refl
find_loop_lem v xs [] zero i (some j) h at e = refl
find_loop_lem v xs [] (suc n) i found h at e = absurd (omega arith)
find_loop_lem v xs (x ∷ es) zero i found h at e = absurd (omega arith)
find_loop_lem v xs (x ∷ es) (suc n) i (some j) h at e =
    let rest =
      find_loop_lem v (xs ++ x ∷ []) es n (i + 1) (some j) (subst (Holds v) (append-cons xs x es) h)
        (omega (arith, length-snoc xs x)) (omega arith) in
    rw (get-Holds xs x es i h at) rest
find_loop_lem v xs (x ∷ es) (suc n) i none h at e =
    rw (get-Holds xs x es i h at) (elim (Bool-cases (x == null)) [
      | inl free ↦
          let rest =
            find_loop_lem v (xs ++ x ∷ []) es n (i + 1) (some i)
              (subst (Holds v) (append-cons xs x es) h) (omega (arith, length-snoc xs x))
              (omega arith) in
          rw free rest
      | inr used ↦
          let rest =
            find_loop_lem v (xs ++ x ∷ []) es n (i + 1) none
              (subst (Holds v) (append-cons xs x es) h) (omega (arith, length-snoc xs x))
              (omega arith) in
          rw used rest
    ])

found_from-slot :
    (es : List Ptr) (i : ℕ) → or_length (found_from none i es) (i + length es) ≡ i + slot es
found_from-slot [] i = omega arith
found_from-slot (e ∷ es) i = elim (Bool-cases (e == null)) [
  | inl free ↦ rw free (omega arith)
  | inr used ↦ rw used (
      ap (or_length (found_from none (i + 1) es)) (omega arith)
      ∙ found_from-slot es (i + 1)
      ∙ omega arith)
]

pub find_file_in_table_lem :
    (v : Vec) (es : List Ptr) → Holds v es → find_file_in_table v ≡ ok (slot es)
unfolding find_file_in_table
find_file_in_table_lem v es h = rw (find_loop_lem v [] es v.length 0 none h refl h.counted) (
    ap ok (
      ap (or_length (found_from none 0 es)) (h.counted ∙ omega arith)
      ∙ found_from-slot es 0
      ∙ omega arith))

-- The first place of an entry.
abbrev pub place_of : Ptr → ℕ → List Ptr → Option ℕ
place_of e i [] = none
place_of e i (x ∷ es) = if x == e then some i else place_of e (i + 1) es

pub search_lem :
    (v : Vec) (xs es : List Ptr) (n i : ℕ) (e : Ptr)
    → Holds v (xs ++ es)
    → i ≡ length xs
    → n ≡ length es
    → e ≢ null
    → search n i e v ≡ ok (place_of e i es)
unfolding search
search_lem v xs [] zero i e h at c ne = refl
search_lem v xs [] (suc n) i e h at c ne = absurd (omega arith)
search_lem v xs (x ∷ es) zero i e h at c ne = absurd (omega arith)
search_lem v xs (x ∷ es) (suc n) i e h at c ne =
    let rest =
      search_lem v (xs ++ x ∷ []) es n (i + 1) e (subst (Holds v) (append-cons xs x es) h)
        (omega (arith, length-snoc xs x)) (omega arith) ne in
    rw (get-Holds xs x es i h at, rest)
      (elim (Bool-cases (x == null)) [
        | inl free ↦ let other : (x == e) ≡ false = ground arith in rw (free, other) refl
        | inr used ↦ elim (Bool-cases (x == e)) [
          | inl here ↦ rw (used, here) refl
          | inr other ↦ rw (used, other) refl
        ]
      ])
