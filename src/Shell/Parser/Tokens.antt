-- ===== src/Shell/Parser/Tokens.antt =====
-- A round of the first pass, by the kind of the token, and what the rounds after it keep.
use os_pi_is_cool.Base.{
  ℕ, zero, suc, ◌+◌, ◌≤◌, ◌≡◌, arith, Bool, true, false, not, ◌||◌, List, [], ◌∷◌, ◌==◌, length,
  if-elim, or_false, Ends, returns,
}
use os_pi_is_cool.Shell.Chars.{
  isspace, is_amp, is_input, is_output, is_pipe, skip_word, skip_space, IsTrimmed,
  length-skip_space, length-skip_word, skip_space-IsTrimmed, skip_word_cons, word_in,
}
use os_pi_is_cool.Shell.Parser.{
  Scan, Failure, Checked, passed, failed, is_doubled, behind, file_name, scan_token, go_on, scan,
}

pub data Token (s : Scan) (c : ℕ) (cs : List ℕ) : Scan → List ℕ → Type 0 where
  input :
      is_input c ≡ true
      → s.has_file_input ≡ false
      → Token s c cs
          (record s {
            is_here_document = is_doubled is_input cs || s.is_here_document;
            has_file_input = true;
          })
          (skip_word (skip_space (behind is_input cs)))
  output :
      is_input c ≡ false
      → is_output c ≡ true
      → s.has_file_output ≡ false
      → Token s c cs
          (record s {
            is_file_append = is_doubled is_output cs || s.is_file_append;
            has_file_output = true;
          })
          (skip_word (skip_space (behind is_output cs)))
  pipe :
      is_input c ≡ false
      → is_output c ≡ false
      → is_pipe c ≡ true
      → Token s c cs (record s { has_token_last = false; num_commands = s.num_commands + 1 }) cs
  word :
      is_amp c ≡ false
      → is_input c ≡ false
      → is_output c ≡ false
      → is_pipe c ≡ false
      → Token s c cs
          (record s { has_token_last = true; total_strings = s.total_strings + 1 })
          (skip_word (c ∷ cs))

-- The outcome of a check: if it passed, the state and the rest of the line have `P`.
abbrev pub IfPassed : (Scan → List ℕ → Type 0) → Checked (Scan × List ℕ) → Type 0
IfPassed P (failed e) = Unit
IfPassed P (passed (s, cur)) = P s cur

file_name-IfPassed :
    (P : Scan → List ℕ → Type 0) (e : Failure) (s : Scan) (cur : List ℕ)
    → P s (skip_word (skip_space cur))
    → IfPassed P (file_name e s cur)
unfolding file_name
file_name-IfPassed P e s cur h =
    if-elim (IfPassed P) (length (skip_word (skip_space cur)) == length (skip_space cur)) (λ _. tt)
      (λ _. h)

pub scan_token-Token :
    (s : Scan) (c : ℕ) (cs : List ℕ) → IfPassed (Token s c cs) (scan_token s c cs)
unfolding scan_token
scan_token-Token s c cs =
    let P = IfPassed (Token s c cs) in
    if-elim P (is_amp c) (λ _. tt)
      (λ no_amp.
        if-elim P (is_input c)
          (λ in_.
            if-elim P (not (s.num_commands == 0) || s.has_file_input) (λ _. tt)
              (λ first. file_name-IfPassed (Token s c cs) _ _ _ (input in_ (or_false _ _ first).1)))
          (λ no_in.
            if-elim P (is_output c)
              (λ out.
                if-elim P s.has_file_output (λ _. tt)
                  (λ first. file_name-IfPassed (Token s c cs) _ _ _ (output no_in out first)))
              (λ no_out.
                if-elim P (is_pipe c)
                  (λ is_p.
                    if-elim P s.has_file_output (λ _. tt)
                      (λ _.
                        if-elim P (not s.has_token_last) (λ _. tt) (λ _. pipe no_in no_out is_p)))
                  (λ no_p. word no_amp no_in no_out no_p))))

length-behind : (f : ℕ → Bool) (cs : List ℕ) → length (behind f cs) ≤ length cs
length-behind f [] = omega arith
length-behind f (c ∷ cs) = ground arith

pub length-name :
    (f : ℕ → Bool) (cs : List ℕ) → length (skip_word (skip_space (behind f cs))) ≤ length cs
length-name f cs = omega (
  arith,
  length-skip_word (skip_space (behind f cs)),
  length-skip_space (behind f cs),
  length-behind f cs,
)

-- A round takes at least a character off the line.
pub Token-length :
    {s s' : Scan} {c : ℕ} {cs cur : List ℕ}
    → Token s c cs s' cur
    → isspace c ≡ false
    → length (skip_space cur) ≤ length cs
Token-length {cs} (input i first) h = omega (arith, length-skip_space _, length-name is_input cs)
Token-length {cs} (output i o first) h =
    omega (arith, length-skip_space _, length-name is_output cs)
Token-length {cs} (pipe i o p) h = length-skip_space cs
Token-length {c} {cs} (word a i o p) h =
    rw (skip_word_cons c cs (word_in c a i o p h))
      (omega (arith, length-skip_space (skip_word cs), length-skip_word cs))

-- Where the rounds are at least as many as the characters that are left, the pass ends.
pub scan-Ends :
    (n : ℕ) (s : Scan) (cur : List ℕ)
    → IsTrimmed cur
    → length cur ≤ n
    → Ends (λ _. Unit) ⊥ (scan n s cur)
unfolding scan
scan-Ends zero s [] h le = returns tt
scan-Ends (suc n) s [] h le = returns tt
scan-Ends zero s (c ∷ cs) h le = absurd (omega arith)
scan-Ends (suc n) s (c ∷ cs) h le =
    go (scan_token s c cs) (scan_token-Token s c cs) (λ s' cur. scan-Ends n s' cur)
  where
    go :
        (x : Checked (Scan × List ℕ))
        → IfPassed (Token s c cs) x
        → ((s' : Scan) (cur : List ℕ)
            → IsTrimmed cur
            → length cur ≤ n
            → Ends (λ _. Unit) ⊥ (scan n s' cur))
        → Ends (λ _. Unit) ⊥ (go_on x (scan n))
    go (failed e) t rest = returns tt
    go (passed (s', cur)) t rest =
        rest s' (skip_space cur) (skip_space-IsTrimmed cur) (omega (arith, Token-length t h))
