-- ===== src/Shell/Chars/Text.antt =====
-- The part of a line that is parsed begins with no space and has no NUL.
use os_pi_is_cool.Base.{
  ℕ, ◌≡◌, refl, false, ◌&&◌, List, [], ◌∷◌, if-elim, ◌==◌, or_false, if◌then◌else◌,
}
use os_pi_is_cool.Shell.Chars.{
  isspace, skip_space, skip_space-IsTrimmed, IsTrimmed, has_nul, cut_comment, is_nil, trim_end,
  ends_in_amp, drop_last,
}

abbrev IsPlain : List ℕ → Type 0
IsPlain cs = has_nul cs ≡ false

cons-IsPlain : (c : ℕ) (cs : List ℕ) → (c == 0) ≡ false → IsPlain cs → IsPlain (c ∷ cs)
cons-IsPlain c cs e h = rw e h

cut_comment-IsPlain : (cs : List ℕ) → IsPlain cs → IsPlain (cut_comment cs)
unfolding cut_comment
cut_comment-IsPlain [] h = h
cut_comment-IsPlain (c ∷ cs) h =
    let (here, rest) = or_false (c == 0) (has_nul cs) h in
    if-elim IsPlain (c == 35) (λ _. refl)
      (λ _. cons-IsPlain c (cut_comment cs) here (cut_comment-IsPlain cs rest))

skip_space-IsPlain : (cs : List ℕ) → IsPlain cs → IsPlain (skip_space cs)
unfolding skip_space
skip_space-IsPlain [] h = h
skip_space-IsPlain (c ∷ cs) h =
    if-elim IsPlain (isspace c) (λ _. skip_space-IsPlain cs (or_false (c == 0) (has_nul cs) h).1)
      (λ _. h)

trim_end-IsPlain : (cs : List ℕ) → IsPlain cs → IsPlain (trim_end cs)
unfolding trim_end
trim_end-IsPlain [] h = h
trim_end-IsPlain (c ∷ cs) h =
    let (here, rest) = or_false (c == 0) (has_nul cs) h in
    if-elim IsPlain (is_nil (trim_end cs) && isspace c) (λ _. refl)
      (λ _. cons-IsPlain c (trim_end cs) here (trim_end-IsPlain cs rest))

drop_last-IsPlain : (cs : List ℕ) → IsPlain cs → IsPlain (drop_last cs)
drop_last-IsPlain [] h = h
drop_last-IsPlain (c ∷ []) h = refl
drop_last-IsPlain (c ∷ d ∷ cs) h =
    let (here, rest) = or_false (c == 0) (has_nul (d ∷ cs)) h in
    cons-IsPlain c (drop_last (d ∷ cs)) here (drop_last-IsPlain (d ∷ cs) rest)

trim_end-IsTrimmed : (cs : List ℕ) → IsTrimmed cs → IsTrimmed (trim_end cs)
unfolding trim_end
trim_end-IsTrimmed [] h = tt
trim_end-IsTrimmed (c ∷ cs) h =
    if-elim IsTrimmed (is_nil (trim_end cs) && isspace c) (λ _. tt) (λ _. h)

drop_last-IsTrimmed : (cs : List ℕ) → IsTrimmed cs → IsTrimmed (drop_last cs)
drop_last-IsTrimmed [] h = tt
drop_last-IsTrimmed (c ∷ []) h = tt
drop_last-IsTrimmed (c ∷ d ∷ cs) h = h

-- What is left of a line between its spaces, without a comment.
abbrev pub trimmed : List ℕ → List ℕ
trimmed line = trim_end (skip_space (cut_comment line))

-- And without an '&' at its end.
abbrev pub command_text : List ℕ → List ℕ
command_text line = if ends_in_amp (trimmed line) then drop_last (trimmed line) else trimmed line

pub command_text_lem :
    (line : List ℕ)
    → has_nul line ≡ false
    → IsTrimmed (command_text line) × (has_nul (command_text line) ≡ false)
command_text_lem line h =
    let start = skip_space-IsTrimmed (cut_comment line) in
    let t = trim_end-IsTrimmed (skip_space (cut_comment line)) start in
    let p =
      trim_end-IsPlain (skip_space (cut_comment line))
        (skip_space-IsPlain (cut_comment line) (cut_comment-IsPlain line h)) in
    if-elim (λ cs. IsTrimmed cs × IsPlain cs) (ends_in_amp (trimmed line))
      (λ _. (drop_last-IsTrimmed (trimmed line) t, drop_last-IsPlain (trimmed line) p))
      (λ _. (t, p))
