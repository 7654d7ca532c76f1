-- ===== src/Shell/Parser/Strings.antt =====
-- The strings in the copy of the line: words that end where a NUL was written.
use os_pi_is_cool.Base.{
  ℕ, zero, suc, ◌+◌, ◌≡◌, ◌⊎◌, inl, inr, refl, sym, subst, arith, true, false, Option, none, some,
  List, [], ◌∷◌, ◌++◌, length, drop, set, get_or, if◌then◌else◌, ◌==◌, or_false,
}
use os_pi_is_cool.Shell.Chars.{has_nul, in_word, IsBoundary, IsWord}

-- The string that begins at the front of the bytes, if it ends in them.
abbrev pub cons_some : ℕ → Option (List ℕ) → Option (List ℕ)
cons_some c none = none
cons_some c (some cs) = some (c ∷ cs)

pub string_at : List ℕ → Option (List ℕ)
string_at [] = none
string_at (c ∷ cs) = let rest = string_at cs in if c == 0 then some [] else cons_some c rest

-- The bytes are the line and one more, or have a NUL where the line has no character of a word.
abbrev pub Marked : List ℕ → List ℕ → Type 0
Marked [] [] = ⊥
Marked [] (g ∷ []) = Unit
Marked [] (g ∷ h ∷ ys) = ⊥
Marked (x ∷ xs) [] = ⊥
Marked (x ∷ xs) (y ∷ ys) = ((y ≡ x) ⊎ ((y ≡ 0) × (in_word x ≡ false))) × Marked xs ys

pub Marked-set :
    (pre cur bytes : List ℕ)
    → Marked (pre ++ cur) bytes
    → IsBoundary cur
    → Marked (pre ++ cur) (set bytes (length pre) 0)
Marked-set [] [] [] m b = m
Marked-set [] [] (g ∷ []) m b = tt
Marked-set [] [] (g ∷ h ∷ ys) m b = m
Marked-set [] (x ∷ xs) [] m b = m
Marked-set [] (x ∷ xs) (y ∷ ys) (here, m) b = (inr (refl, b), m)
Marked-set (x ∷ pre) cur [] m b = m
Marked-set (x ∷ pre) cur (y ∷ ys) (here, m) b = (here, Marked-set pre cur ys m b)

pub zero_kept : (bytes : List ℕ) (i j : ℕ) → get_or bytes j 1 ≡ 0 → get_or (set bytes i 0) j 1 ≡ 0
zero_kept [] i j h = h
zero_kept (x ∷ bytes) zero zero h = refl
zero_kept (x ∷ bytes) zero (suc j) h = h
zero_kept (x ∷ bytes) (suc i) zero h = h
zero_kept (x ∷ bytes) (suc i) (suc j) h = zero_kept bytes i j h

add_suc : (m n : ℕ) → suc m + n ≡ suc (m + n)
add_suc m n = omega arith

zero_suc : (n : ℕ) → 0 + suc n ≡ suc (0 + n)
zero_suc n = omega arith

-- A word that begins behind `pre` and has a NUL at its end is the string there.
pub string_at-word :
    (pre w post bytes : List ℕ)
    → Marked (pre ++ (w ++ post)) bytes
    → has_nul (pre ++ (w ++ post)) ≡ false
    → IsWord w
    → get_or bytes (length pre + length w) 1 ≡ 0
    → string_at (drop (length pre) bytes) ≡ some w
unfolding string_at
string_at-word (x ∷ pre) w post [] m p i z = elim m [ ]
string_at-word (x ∷ pre) w post (y ∷ bytes) (here, m) p i z =
    string_at-word pre w post bytes m (or_false (x == 0) (has_nul (pre ++ (w ++ post))) p).1 i
      (subst (λ k. get_or (y ∷ bytes) k 1 ≡ 0) (add_suc (length pre) (length w)) z)
string_at-word [] [] post [] m p i z = absurd (omega arith)
string_at-word [] [] post (y ∷ bytes) m p i z =
    let nul : (y == 0) ≡ true = ground arith in rw nul refl
string_at-word [] (c ∷ w) post [] m p i z = elim m [ ]
string_at-word [] (c ∷ w) post (y ∷ bytes) (here, m) p (i, is) z =
    let is_c : y ≡ c = elim here [ inl e ↦ e | inr (_, out) ↦ absurd (cc) ] in
    let some_char : (y == 0) ≡ false =
      subst (λ v. (v == 0) ≡ false) (sym is_c) (or_false (c == 0) (has_nul (w ++ post)) p).0 in
    let rest =
      string_at-word [] w post bytes m (or_false (c == 0) (has_nul (w ++ post)) p).1 is
        (subst (λ k. get_or (y ∷ bytes) k 1 ≡ 0) (zero_suc (length w)) z) in
    rw (some_char, rest, is_c) refl
