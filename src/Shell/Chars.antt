-- ===== src/Shell/Chars.antt =====
-- Characters, and the parts of a line (user/lib/string.c, and the first lines of
-- user/cmds/shell/parser.c). A line is the list of its characters, without the NUL; a pointer into
-- it is what is left of the line from there up to `end`.
pub mod Text
use os_pi_is_cool.Base.{
  ℕ, zero, suc, ◌+◌, ◌<◌, ◌≤◌, ◌≡◌, refl, ap, arith, Bool, true, false, not, ◌&&◌, ◌||◌, List, [],
  ◌∷◌, ◌++◌, if◌then◌else◌, if-elim, ◌==◌, length, inl, inr, Bool-cases, Run, ok, fault,
}

pub isspace : ℕ → Bool
isspace c = c == 32 || (c == 9 || (c == 10 || (c == 11 || (c == 12 || c == 13))))

abbrev pub is_amp : ℕ → Bool
is_amp c = c == 38

abbrev pub is_input : ℕ → Bool
is_input c = c == 60

abbrev pub is_output : ℕ → Bool
is_output c = c == 62

abbrev pub is_pipe : ℕ → Bool
is_pipe c = c == 124

-- The loop of `skip_word` goes on.
abbrev pub in_word : ℕ → Bool
in_word c = not (is_input c || (is_output c || (is_pipe c || (is_amp c || isspace c))))

pub skip_word : List ℕ → List ℕ
skip_word [] = []
skip_word (c ∷ cs) = let rest = skip_word cs in if in_word c then rest else c ∷ cs

pub skip_space : List ℕ → List ℕ
skip_space [] = []
skip_space (c ∷ cs) = let rest = skip_space cs in if isspace c then rest else c ∷ cs

-- `++cur`, which must not pass `end`.
abbrev pub advance : List ℕ → Run (List ℕ)
advance [] = fault
advance (c ∷ cs) = ok cs

-- No line has a NUL in it.
abbrev pub has_nul : List ℕ → Bool
has_nul [] = false
has_nul (c ∷ cs) = c == 0 || has_nul cs

-- The line up to the first '#'.
pub cut_comment : List ℕ → List ℕ
cut_comment [] = []
cut_comment (c ∷ cs) = let rest = cut_comment cs in if c == 35 then [] else c ∷ rest

abbrev pub is_nil : List ℕ → Bool
is_nil [] = true
is_nil (c ∷ cs) = false

-- The line without the spaces at its end.
pub trim_end : List ℕ → List ℕ
trim_end [] = []
trim_end (c ∷ cs) = let rest = trim_end cs in if is_nil rest && isspace c then [] else c ∷ rest

-- `end[-1] == '&'`, and the line without its last character.
abbrev pub ends_in_amp : List ℕ → Bool
ends_in_amp [] = false
ends_in_amp (c ∷ []) = is_amp c
ends_in_amp (c ∷ d ∷ cs) = ends_in_amp (d ∷ cs)

abbrev pub drop_last : List ℕ → List ℕ
drop_last [] = []
drop_last (c ∷ []) = []
drop_last (c ∷ d ∷ cs) = c ∷ drop_last (d ∷ cs)

pub length-skip_space : (cs : List ℕ) → length (skip_space cs) ≤ length cs
unfolding skip_space
length-skip_space [] = omega arith
length-skip_space (c ∷ cs) = ground (arith, length-skip_space cs)

pub length-skip_word : (cs : List ℕ) → length (skip_word cs) ≤ length cs
unfolding skip_word
length-skip_word [] = omega arith
length-skip_word (c ∷ cs) = ground (arith, length-skip_word cs)

-- The line does not begin with a space.
abbrev pub IsTrimmed : List ℕ → Type 0
IsTrimmed [] = Unit
IsTrimmed (c ∷ cs) = isspace c ≡ false

pub skip_space-IsTrimmed : (cs : List ℕ) → IsTrimmed (skip_space cs)
unfolding skip_space
skip_space-IsTrimmed [] = tt
skip_space-IsTrimmed (c ∷ cs) =
    if-elim IsTrimmed (isspace c) (λ e. skip_space-IsTrimmed cs) (λ e. e)

pub skip_space_trimmed : (cs : List ℕ) → IsTrimmed cs → skip_space cs ≡ cs
unfolding skip_space
skip_space_trimmed [] h = refl
skip_space_trimmed (c ∷ cs) h = rw h refl

-- A character of a word is skipped with it.
pub skip_word_cons : (c : ℕ) (cs : List ℕ) → in_word c ≡ true → skip_word (c ∷ cs) ≡ skip_word cs
unfolding skip_word
skip_word_cons c cs h = rw h refl

pub word_in :
    (c : ℕ)
    → is_amp c ≡ false
    → is_input c ≡ false
    → is_output c ≡ false
    → is_pipe c ≡ false
    → isspace c ≡ false
    → in_word c ≡ true
word_in c a i o p s = rw (a, i, o, p, s) refl

-- The word at the front of a line, as `skip_word` passes over it.
pub word_of : List ℕ → List ℕ
word_of [] = []
word_of (c ∷ cs) = let rest = word_of cs in if in_word c then c ∷ rest else []

-- No word goes on here.
abbrev pub IsBoundary : List ℕ → Type 0
IsBoundary [] = Unit
IsBoundary (c ∷ cs) = in_word c ≡ false

pub word_of-skip_word : (cs : List ℕ) → cs ≡ word_of cs ++ skip_word cs
unfolding word_of skip_word
word_of-skip_word [] = refl
word_of-skip_word (c ∷ cs) = elim (Bool-cases (in_word c)) [
  | inl e ↦ rw e (ap (λ z. c ∷ z) (word_of-skip_word cs))
  | inr e ↦ rw e refl
]

pub skip_word-IsBoundary : (cs : List ℕ) → IsBoundary (skip_word cs)
unfolding skip_word
skip_word-IsBoundary [] = tt
skip_word-IsBoundary (c ∷ cs) =
    if-elim IsBoundary (in_word c) (λ e. skip_word-IsBoundary cs) (λ e. e)

abbrev pub IsWord : List ℕ → Type 0
IsWord [] = Unit
IsWord (c ∷ cs) = (in_word c ≡ true) × IsWord cs

pub word_of-IsWord : (cs : List ℕ) → IsWord (word_of cs)
unfolding word_of
word_of-IsWord [] = tt
word_of-IsWord (c ∷ cs) = elim (Bool-cases (in_word c)) [
  | inl e ↦ rw e (e, word_of-IsWord cs)
  | inr e ↦ rw e tt
]

-- What is skipped, and what is left.
pub skip_space_suffix : (cs : List ℕ) → (before : List ℕ) × (cs ≡ before ++ skip_space cs)
unfolding skip_space
skip_space_suffix [] = ([], refl)
skip_space_suffix (c ∷ cs) = elim (Bool-cases (isspace c)) [
  | inl e ↦ let (before, split) = skip_space_suffix cs in (c ∷ before, rw e (ap (λ z. c ∷ z) split))
  | inr e ↦ ([], rw e refl)
]
