-- ===== src/Shell/Parser/Passes.antt =====
-- The second pass stays in the block that is made for what the first one counted.
use os_pi_is_cool.Base.{
  ℕ, zero, suc, ◌+◌, ◌-◌, ◌≤◌, ◌≡◌, refl, ap, subst, ◌∙◌, arith, Bool, true, false, ◌||◌, none,
  some, List, [], ◌∷◌, length, length-set, set, store-set, inl, inr, Bool-cases, ok,
}
use os_pi_is_cool.Shell.Chars.{is_input, is_output, skip_word, skip_space}
use os_pi_is_cool.Shell.Parser.{
  Scan, Checked, passed, failed, is_doubled, behind, scan_token, go_on, scan, Fill, name_at,
  fill_token,
}
use os_pi_is_cool.Shell.Parser.Tokens.{Token, input, output, pipe, word, IfPassed, scan_token-Token}

-- A pass that went through a token went through what is behind it.
pub passed_on :
    (n : ℕ) (s a : Scan) (c : ℕ) (cs : List ℕ)
    → scan (suc n) s (c ∷ cs) ≡ ok (passed a)
    → (s' : Scan) × (cur : List ℕ) × Token s c cs s' cur
      × (scan n s' (skip_space cur) ≡ ok (passed a))
unfolding scan
passed_on n s a c cs e = go (scan_token s c cs) (scan_token-Token s c cs) e
  where
    go :
        (x : Checked (Scan × List ℕ))
        → IfPassed (Token s c cs) x
        → go_on x (scan n) ≡ ok (passed a)
        → (s' : Scan) × (cur : List ℕ) × Token s c cs s' cur
          × (scan n s' (skip_space cur) ≡ ok (passed a))
    go (failed f) t e' = absurd (cc)
    go (passed (s', cur)) t e' = (s', cur, t, e')

-- What is counted is not taken back, and a flag is fixed once its token was there.
pub record Later (s a : Scan) : Type 0 where
  pub commands : s.num_commands ≤ a.num_commands
  pub strings : s.total_strings ≤ a.total_strings
  pub input_kept :
      s.has_file_input ≡ true
      → (a.is_here_document ≡ s.is_here_document) × (a.has_file_input ≡ true)
  pub output_kept :
      s.has_file_output ≡ true → (a.is_file_append ≡ s.is_file_append) × (a.has_file_output ≡ true)

Token-Later :
    {s s' a : Scan} {c : ℕ} {cs cur : List ℕ} → Token s c cs s' cur → Later s' a → Later s a
Token-Later (input i first) l = record {
  commands = l.commands;
  strings = l.strings;
  input_kept = λ e. absurd (cc);
  output_kept = l.output_kept;
}
Token-Later (output i o first) l = record {
  commands = l.commands;
  strings = l.strings;
  input_kept = l.input_kept;
  output_kept = λ e. absurd (cc);
}
Token-Later (pipe i o p) l = record {
  commands = omega (arith, l.commands);
  strings = l.strings;
  input_kept = l.input_kept;
  output_kept = l.output_kept;
}
Token-Later (word a i o p) l = record {
  commands = l.commands;
  strings = omega (arith, l.strings);
  input_kept = l.input_kept;
  output_kept = l.output_kept;
}

pub scan-Later : (n : ℕ) (s a : Scan) (cur : List ℕ) → scan n s cur ≡ ok (passed a) → Later s a
unfolding scan
scan-Later n s a [] e =
    let same : s ≡ a = cc in
    subst (Later s) same (record {
      commands = omega arith;
      strings = omega arith;
      input_kept = λ i. (refl, i);
      output_kept = λ o. (refl, o);
    })
scan-Later zero s a (c ∷ cs) e = absurd (cc)
scan-Later (suc n) s a (c ∷ cs) e =
    let (s', cur, t, e') = passed_on n s a c cs e in
    Token-Later t (scan-Later n s' a (skip_space cur) e')

-- The room in the block, for what the first pass counts from the state `s` to its last one.
pub record Room (slen : ℕ) (s a : Scan) (f : Fill) : Type 0 where
  pub args :
      f.argv_ptr + (a.total_strings - s.total_strings) + (a.num_commands - s.num_commands) + 1
      ≡ length f.block.args
  pub commands : f.cur_cmd + (a.num_commands - s.num_commands) + 1 ≡ length f.block.commands
  pub whole : a.num_commands + 1 ≡ length f.block.commands
  pub bytes : length f.block.bytes ≡ slen + 1
  pub here : s.has_file_input ≡ false → s.is_here_document ≡ false
  pub append : s.has_file_output ≡ false → s.is_file_append ≡ false

or_nothing : (b : Bool) → (b || false) ≡ b
or_nothing true = refl
or_nothing false = refl

-- Where the name of a file begins, if the flag is what stands there.
name_at_lem :
    (f : ℕ → Bool) (cs : List ℕ) → name_at (is_doubled f cs) cs ≡ ok (skip_space (behind f cs))
name_at_lem f [] = refl
name_at_lem f (c ∷ cs) = elim (Bool-cases (f c)) [ inl e ↦ rw e refl | inr e ↦ rw e refl ]

-- The state after a round of the second pass, at a token that the first one took.
abbrev pub after : ℕ → Fill → {s s' : Scan} {c : ℕ} {cs cur : List ℕ} → Token s c cs s' cur → Fill
after slen f {cs} (input i first) =
    let name = skip_space (behind is_input cs) in
    record f {
      stdin_file = some (slen - length name);
      block = record f.block { bytes = set f.block.bytes (slen - length (skip_word name)) 0 };
    }
after slen f {cs} (output i o first) =
    let name = skip_space (behind is_output cs) in
    record f {
      stdout_file = some (slen - length name);
      block = record f.block { bytes = set f.block.bytes (slen - length (skip_word name)) 0 };
    }
after slen f (pipe i o p) = record f {
  block = record f.block {
    args = set f.block.args f.argv_ptr none;
    commands = set f.block.commands (f.cur_cmd + 1) (f.argv_ptr + 1);
  };
  argv_ptr = f.argv_ptr + 1;
  cur_cmd = f.cur_cmd + 1;
}
after slen f {c} {cs} (word amp i o p) = record f {
  block = record f.block {
    args = set f.block.args f.argv_ptr (some (slen - length (c ∷ cs)));
    bytes = set f.block.bytes (slen - length (skip_word (c ∷ cs))) 0;
  };
  argv_ptr = f.argv_ptr + 1;
}

pub fill_token_lem :
    (slen : ℕ) {s s' a : Scan} {c : ℕ} {cs cur : List ℕ} {f : Fill} (t : Token s c cs s' cur)
    → Later s' a
    → Room slen s a f
    → fill_token slen a f c cs ≡ ok (after slen f t, cur)
unfolding fill_token
fill_token_lem slen {s} {a} {cs} {f} (input i first) l r =
    let flag : a.is_here_document ≡ is_doubled is_input cs =
      (l.input_kept refl).0 ∙ ap (λ b. is_doubled is_input cs || b) (r.here first) ∙ or_nothing _ in
    let named : name_at a.is_here_document cs ≡ ok (skip_space (behind is_input cs)) =
      ap (λ b. name_at b cs) flag ∙ name_at_lem is_input cs in
    let ended =
      store-set f.block.bytes (slen - length (skip_word (skip_space (behind is_input cs)))) 0
        (omega (arith, r.bytes)) in
    rw (i, named, ended) refl
fill_token_lem slen {s} {a} {cs} {f} (output i o first) l r =
    let flag : a.is_file_append ≡ is_doubled is_output cs =
      (l.output_kept refl).0
      ∙ ap (λ b. is_doubled is_output cs || b) (r.append first)
      ∙ or_nothing _ in
    let named : name_at a.is_file_append cs ≡ ok (skip_space (behind is_output cs)) =
      ap (λ b. name_at b cs) flag ∙ name_at_lem is_output cs in
    let ended =
      store-set f.block.bytes (slen - length (skip_word (skip_space (behind is_output cs)))) 0
        (omega (arith, r.bytes)) in
    rw (i, o, named, ended) refl
fill_token_lem slen {s} {a} {cs} {f} (pipe i o p) l r =
    let put = store-set f.block.args f.argv_ptr none (omega (arith, r.args, l.commands)) in
    let begun =
      store-set f.block.commands (f.cur_cmd + 1) (f.argv_ptr + 1)
        (omega (arith, r.commands, l.commands)) in
    rw (i, o, p, put, begun) refl
fill_token_lem slen {s} {a} {c} {cs} {f} (word amp i o p) l r =
    let put =
      store-set f.block.args f.argv_ptr (some (slen - length (c ∷ cs)))
        (omega (arith, r.args, l.strings)) in
    let ended =
      store-set f.block.bytes (slen - length (skip_word (c ∷ cs))) 0 (omega (arith, r.bytes)) in
    rw (i, o, p, put) (rw ended refl)

pub Token-Room :
    (slen : ℕ) {s s' a : Scan} {c : ℕ} {cs cur : List ℕ} {f : Fill} (t : Token s c cs s' cur)
    → Later s' a
    → Room slen s a f
    → Room slen s' a (after slen f t)
Token-Room slen {f} (input i first) l r = record {
  args = r.args;
  commands = r.commands;
  whole = r.whole;
  bytes = length-set f.block.bytes _ 0 ∙ r.bytes;
  here = λ e. absurd (cc);
  append = r.append;
}
Token-Room slen {f} (output i o first) l r = record {
  args = r.args;
  commands = r.commands;
  whole = r.whole;
  bytes = length-set f.block.bytes _ 0 ∙ r.bytes;
  here = r.here;
  append = λ e. absurd (cc);
}
Token-Room slen {f} (pipe i o p) l r = record {
  args = omega (arith, r.args, l.commands, l.strings, length-set f.block.args f.argv_ptr none);
  commands =
      omega (
        arith,
        r.commands,
        l.commands,
        length-set f.block.commands (f.cur_cmd + 1) (f.argv_ptr + 1),
      );
  whole = omega (arith, r.whole, length-set f.block.commands (f.cur_cmd + 1) (f.argv_ptr + 1));
  bytes = r.bytes;
  here = r.here;
  append = r.append;
}
Token-Room slen {c} {cs} {f} (word amp i o p) l r = record {
  args = omega (
    arith,
    r.args,
    l.commands,
    l.strings,
    length-set f.block.args f.argv_ptr (some (slen - length (c ∷ cs))),
  );
  commands = r.commands;
  whole = r.whole;
  bytes = length-set f.block.bytes _ 0 ∙ r.bytes;
  here = r.here;
  append = r.append;
}
