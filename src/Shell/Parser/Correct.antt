-- ===== src/Shell/Parser/Correct.antt =====
-- `parse_command` on any line.
use os_pi_is_cool.Base.{
  ℕ, zero, suc, ◌+◌, ◌≡◌, ◌⊎◌, inl, inr, refl, ap, ◌∙◌, arith, Bool, true, false, not, ◌||◌, Option,
  none, some, List, [], ◌∷◌, ◌++◌, append-nil, length, length-append, length-drop, length-snoc,
  length-set, cons_of_pos, drop, map, set, if◌then◌else◌, ◌==◌, Option-cases, ok, store-set, Ends,
  returns, Ends-bind, Ends-if, Ends-value,
}
use os_pi_is_cool.Shell.Chars.{skip_space, has_nul, is_nil, ends_in_amp, drop_last}
use os_pi_is_cool.Shell.Chars.Text.{trimmed, command_text, command_text_lem}
use os_pi_is_cool.Shell.Parser.{
  Scan, Checked, passed, failed, Block, Fill, Memory, Command, Reply, parsed, rejected, no_memory,
  new_scan, first_fill, second_pass, after_scan, parse_command, scan,
}
use os_pi_is_cool.Shell.Parser.Tokens.{Token, input, output, pipe, word, scan-Ends}
use os_pi_is_cool.Shell.Parser.Passes.{Room, passed_on}
use os_pi_is_cool.Shell.Parser.Strings.{Marked}
use os_pi_is_cool.Shell.Parser.Words.{
  words, starts, given, item-given, arg_string, Named-snoc, Named-strings,
}
use os_pi_is_cool.Shell.Parser.Result.{Done, set_next, fill_lem}

abbrev count_words : List (Option (List ℕ)) → ℕ
count_words [] = 0
count_words (none ∷ ws) = count_words ws
count_words (some w ∷ ws) = suc (count_words ws)

count_words-append :
    (vs ws : List (Option (List ℕ))) → count_words (vs ++ ws) ≡ count_words vs + count_words ws
count_words-append [] ws = omega arith
count_words-append (none ∷ vs) ws = count_words-append vs ws
count_words-append (some v ∷ vs) ws = omega (arith, count_words-append vs ws)

count_words-given :
    {s s' : Scan} {c : ℕ} {cs cur : List ℕ} (t : Token s c cs s' cur)
    → count_words (given t) + s.total_strings ≡ s'.total_strings
count_words-given (input i first) = omega arith
count_words-given (output i o first) = omega arith
count_words-given (pipe i o p) = omega arith
count_words-given (word a i o p) = omega arith

scan-count_words :
    (n : ℕ) (s a : Scan) (cur : List ℕ)
    → scan n s cur ≡ ok (passed a)
    → count_words (words n cur) + s.total_strings ≡ a.total_strings
unfolding scan words
scan-count_words zero s a [] e =
    let same : s ≡ a = cc in omega (arith, ap (λ (z : Scan). z.total_strings) same)
scan-count_words (suc n) s a [] e =
    let same : s ≡ a = cc in omega (arith, ap (λ (z : Scan). z.total_strings) same)
scan-count_words zero s a (c ∷ cs) e = absurd (cc)
scan-count_words (suc n) s a (c ∷ cs) e =
    let (s', cur, t, e') = passed_on n s a c cs e in
    rw (item-given t) (
      omega (
        arith,
        count_words-append (given t) (words n (skip_space cur)),
        count_words-given t,
        scan-count_words n s' a (skip_space cur) e',
      ))

-- The line as a command: the strings of its arguments, with NULL behind those of each command, are
-- its words; its array of commands has the places where their arguments begin.
pub record IsCommand (text : List ℕ) (c : Command) : Type 0 where
  pub strings : map (arg_string c.block.bytes) c.block.args ≡ words (length text) text ++ none ∷ []
  pub commands : c.block.commands ≡ 0 ∷ starts 1 (words (length text) text)
  pub counted : c.num_commands ≡ length c.block.commands

-- A reply to a line: a command; one without a word; an error; or -1 where memory was refused.
abbrev pub IsReply : Memory → List ℕ → Reply → Type 0
IsReply k text (parsed c) = IsCommand text c ⊎ (count_words (words (length text) text) ≡ 0)
IsReply k text (rejected e) = Unit
IsReply k text no_memory =
    (k.calloc ≡ false)
    ⊎ ((commands : ℕ) × ((args : ℕ) × ((bytes : ℕ) × (k.realloc commands args bytes ≡ none))))

-- The block before the second pass.
copied-Marked :
    (text bytes : List ℕ)
    → length bytes ≡ length text + 1
    → Marked text (text ++ drop (length text) bytes)
copied-Marked [] [] e = absurd (omega arith)
copied-Marked [] (g ∷ []) e = tt
copied-Marked [] (g ∷ h ∷ bytes) e = absurd (omega arith)
copied-Marked (x ∷ text) [] e = absurd (omega arith)
copied-Marked (x ∷ text) (y ∷ bytes) e = (inl refl, copied-Marked text bytes (omega arith))

-- The lengths of the block that `realloc` gives for the counts of the first pass.
abbrev IsFor : List ℕ → Scan → Block → Type 0
IsFor text a b =
    (length b.commands ≡ a.num_commands + 1)
    × (length b.args ≡ a.num_commands + 1 + a.total_strings)
    × (length b.bytes ≡ length text + 1)

nil_of : {A : Type 0} (xs : List A) → length xs ≡ 0 → xs ≡ []
nil_of [] e = refl
nil_of (x ∷ xs) e = absurd (omega arith)

-- The state before the second pass.
abbrev before_fill : List ℕ → Block → List ℕ → Fill
before_fill text b rest = record {
  block = record { commands = 0 ∷ rest; args = b.args; bytes = text ++ drop (length text) b.bytes };
  cur_cmd = 0;
  argv_ptr = 0;
  stdin_file = none;
  stdout_file = none;
}

first_fill_lem :
    (text : List ℕ) (a : Scan) (b : Block)
    → IsFor text a b
    → (rest : List ℕ) × (first_fill text b ≡ ok (before_fill text b rest))
      × (length rest ≡ a.num_commands)
first_fill_lem text a b (nc, na, nb) =
    let (x, rest, e) = cons_of_pos b.commands (omega arith) in
    (rest, rw e refl, omega (arith, ap length e))

-- The NULL at the end, behind the arguments of the last command.
last_arg :
    (text : List ℕ) (a : Scan) (f : Fill) (ws : List (Option (List ℕ)))
    → Room (length text) a a f
    → Done text f ws
    → has_nul text ≡ false
    → map (arg_string f.block.bytes) (set f.block.args f.argv_ptr none) ≡ ws ++ none ∷ []
last_arg text a f ws r d plain =
    let (spare, put) =
      set_next f.block.args d.args d.spare f.argv_ptr none d.args_are d.ptr
        (omega (arith, r.args)) in
    let no_spare : spare ≡ [] = nil_of spare (
      omega (
        arith,
        r.args,
        d.ptr,
        length-set f.block.args f.argv_ptr none,
        ap length put,
        length-append (d.args ++ none ∷ []) spare,
        length-snoc d.args none,
      )) in
    ap (map (arg_string f.block.bytes))
      (put ∙ ap (λ z. (d.args ++ none ∷ []) ++ z) no_spare ∙ append-nil (d.args ++ none ∷ []))
    ∙ Named-strings text f.block.bytes (d.args ++ none ∷ []) (ws ++ none ∷ [])
        (Named-snoc text f.block.bytes d.args ws none none d.named tt) d.marked plain

second_pass_lem :
    (background : Bool) (text : List ℕ) (a : Scan) (b : Block) (k : Memory)
    → scan (length text) new_scan text ≡ ok (passed a)
    → has_nul text ≡ false
    → IsFor text a b
    → Ends (IsReply k text) ⊥ (second_pass background text a b)
unfolding second_pass starts
second_pass_lem background text a b k e plain (nc, na, nb) =
    let (rest, first, size) = first_fill_lem text a b (nc, na, nb) in
    let room : Room (length text) new_scan a (before_fill text b rest) = record {
      args = omega arith;
      commands = omega arith;
      whole = omega arith;
      bytes = omega (
        arith,
        length-append text (drop (length text) b.bytes),
        length-drop (length text) b.bytes,
      );
      here = λ _. refl;
      append = λ _. refl;
    } in
    let done : Done text (before_fill text b rest) [] = record {
      args = [];
      spare = b.args;
      args_are = refl;
      ptr = refl;
      named = tt;
      unused = rest;
      commands_are = refl;
      cmd = refl;
      marked = copied-Marked text b.bytes nb;
    } in
    rw first (
      Ends-bind (fill_lem (length text) text new_scan a _ [] text e ([], refl) room done)
        λ f (r, d). rw (store-set f.block.args f.argv_ptr none (omega (arith, r.args))) (
          returns (
            inl (record {
              strings = last_arg text a f (words (length text) text) r d plain;
              commands =
                  let unused : d.unused ≡ [] = nil_of d.unused (
                    omega (
                      arith,
                      r.commands,
                      d.cmd,
                      ap length d.commands_are,
                      length-append (0 ∷ starts 1 (words (length text) text)) d.unused,
                    )) in
                  d.commands_are
                  ∙ ap (λ z. (0 ∷ starts 1 (words (length text) text)) ++ z) unused
                  ∙ append-nil _;
              counted = r.whole;
            }))))

after_scan_lem :
    (k : Memory) (background : Bool) (text : List ℕ) (x : Checked Scan)
    → scan (length text) new_scan text ≡ ok x
    → has_nul text ≡ false
    → Ends (IsReply k text) ⊥ (after_scan k background text x)
unfolding after_scan
after_scan_lem k background text (failed e) scanned plain = returns tt
after_scan_lem k background text (passed a) scanned plain =
    Ends-if (a.total_strings == 0)
      (λ none_left.
        Ends-if (background || (a.has_file_input || a.has_file_output)) (λ _. returns tt)
          (λ _.
            returns (inr (ground (arith, scan-count_words (length text) new_scan a text scanned)))))
      (λ _.
        Ends-if (not a.has_token_last) (λ _. returns tt)
          (λ _.
            elim (Option-cases (
              k.realloc (a.num_commands + 1) (a.num_commands + 1 + a.total_strings)
                (length text + 1))) [
                  | inl refused ↦ rw refused (returns {a = no_memory} (inr (_, (_, (_, refused)))))
                  | inr (b, there) ↦
                      rw there (
                        second_pass_lem background text a b k scanned plain (k.sized _ _ _ b there))
                ]))

refused_of : (b : Bool) → not b ≡ true → b ≡ false
refused_of true e = absurd (cc)
refused_of false e = refl

no_words :
    (t : List ℕ)
    → is_nil t ≡ true
    → count_words (
        words
          (length (if ends_in_amp t then drop_last t else t))
          (if ends_in_amp t then drop_last t else t))
      ≡ 0
unfolding words
no_words [] e = refl
no_words (c ∷ cs) e = absurd (cc)

-- On any line, `parse_command` returns and never goes past the end of the line or of the block that it
-- asks for. The command it makes has the words of the line as its strings, each ended by a NUL
-- inside the block, with NULL behind the arguments of each command; its array of commands has the
-- places where their arguments begin, and is as long as `num_commands` says. A command without a
-- word comes only from a line without one, and -1 only from a refused request for memory.
pub parse_command_lem :
    (k : Memory) (line : List ℕ)
    → has_nul line ≡ false
    → Ends (IsReply k (command_text line)) ⊥ (parse_command k line)
unfolding parse_command
parse_command_lem k line plain =
    let (front, no_nul) = command_text_lem line plain in
    Ends-if (not k.calloc) (λ refused. returns (inl (refused_of k.calloc refused)))
      (λ _.
        Ends-if (is_nil (trimmed line)) (λ nothing. returns (inr (no_words (trimmed line) nothing)))
          (λ _.
            let (x, scanned, _) = Ends-value (
              scan-Ends (length (command_text line)) new_scan (command_text line) front
                (omega arith)) in
            rw scanned
              (after_scan_lem k (ends_in_amp (trimmed line)) (command_text line) x scanned no_nul)))
