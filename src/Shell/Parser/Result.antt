-- ===== src/Shell/Parser/Result.antt =====
-- The second pass writes the arguments of the line into the block.
use os_pi_is_cool.Base.{
  ℕ, zero, suc, ◌+◌, ◌-◌, ◌<◌, ◌≡◌, refl, sym, ap, subst, ◌∙◌, arith, Bool, Option, none, some,
  List, [], ◌∷◌, ◌++◌, append-nil, append_assoc, length, length-append, length-snoc, set, get_or,
  get_or-set_self, inl, inr, Bool-cases, ok, Ends, returns,
}
use os_pi_is_cool.Shell.Chars.{
  is_input, is_output, skip_word, skip_space, word_of, word_of-skip_word, word_of-IsWord,
  skip_word-IsBoundary, skip_space_suffix,
}
use os_pi_is_cool.Shell.Parser.{Scan, passed, Fill, behind, scan, fill}
use os_pi_is_cool.Shell.Parser.Tokens.{Token, input, output, pipe, word}
use os_pi_is_cool.Shell.Parser.Passes.{
  after, Room, Later, scan-Later, passed_on, fill_token_lem, Token-Room,
}
use os_pi_is_cool.Shell.Parser.Strings.{Marked, Marked-set}
use os_pi_is_cool.Shell.Parser.Words.{
  words, starts, given, item-given, IsAt, Named, Named-length, Named-snoc, Named-set, starts_bar,
  starts_word,
}

-- The rest of a line, and what is before it.
abbrev pub Suffix : List ℕ → List ℕ → Type 0
Suffix text cur = (before : List ℕ) × (text ≡ before ++ cur)

Suffix-trans : {text cur cur' : List ℕ} → Suffix text cur → Suffix cur cur' → Suffix text cur'
Suffix-trans {cur'} (a, e) (b, e') = (a ++ b, e ∙ ap (λ z. a ++ z) e' ∙ sym (append_assoc a b cur'))

behind_suffix : (f : ℕ → Bool) (cs : List ℕ) → Suffix cs (behind f cs)
behind_suffix f [] = ([], refl)
behind_suffix f (c ∷ cs) = elim (Bool-cases (f c)) [
  | inl e ↦ rw e (c ∷ [], refl)
  | inr e ↦ rw e ([], refl)
]

skip_word_suffix : (cs : List ℕ) → Suffix cs (skip_word cs)
skip_word_suffix cs = (word_of cs, word_of-skip_word cs)

name_suffix : (f : ℕ → Bool) (cs : List ℕ) → Suffix cs (skip_word (skip_space (behind f cs)))
name_suffix f cs =
    Suffix-trans (behind_suffix f cs)
      (Suffix-trans (skip_space_suffix (behind f cs)) (skip_word_suffix (skip_space (behind f cs))))

Token-Suffix : {s s' : Scan} {c : ℕ} {cs cur : List ℕ} → Token s c cs s' cur → Suffix (c ∷ cs) cur
Token-Suffix {c} {cs} (input i first) = Suffix-trans (c ∷ [], refl) (name_suffix is_input cs)
Token-Suffix {c} {cs} (output i o first) = Suffix-trans (c ∷ [], refl) (name_suffix is_output cs)
Token-Suffix {c} {cs} (pipe i o p) = (c ∷ [], refl)
Token-Suffix {c} {cs} (word a i o p) = skip_word_suffix (c ∷ cs)

-- An offset is counted from the end of the line.
offset_of :
    (text before cur : List ℕ) → text ≡ before ++ cur → length text - length cur ≡ length before
offset_of text before cur e = omega (arith, ap length e, length-append before cur)

-- The next cell behind those that are written.
pub set_next :
    {A : Type 0} (cells done spare : List A) (i : ℕ) (v : A)
    → cells ≡ done ++ spare
    → i ≡ length done
    → i < length cells
    → (spare' : List A) × (set cells i v ≡ (done ++ v ∷ []) ++ spare')
set_next cells done [] i v e at lt = absurd (omega (arith, ap length e, length-append done []))
set_next {A} cells done (x ∷ spare) i v e at lt = (spare, rw (e, at) (go done))
  where
    go : (xs : List A) → set (xs ++ x ∷ spare) (length xs) v ≡ (xs ++ v ∷ []) ++ spare
    go [] = refl
    go (y ∷ xs) = ap (λ z. y ∷ z) (go xs)

-- The block has the arguments `ws`, and the places where the commands begin.
pub record Done (text : List ℕ) (f : Fill) (ws : List (Option (List ℕ))) : Type 0 where
  pub args : List (Option ℕ)
  pub spare : List (Option ℕ)
  pub args_are : f.block.args ≡ args ++ spare
  pub ptr : f.argv_ptr ≡ length args
  pub named : Named text f.block.bytes args ws
  pub unused : List ℕ
  pub commands_are : f.block.commands ≡ (0 ∷ starts 1 ws) ++ unused
  pub cmd : f.cur_cmd ≡ length (starts 1 ws)
  pub marked : Marked text f.block.bytes

-- A NUL at the end of a word.
ended-Marked :
    (text before cur bytes : List ℕ)
    → text ≡ before ++ skip_word cur
    → Marked text bytes
    → Marked text (set bytes (length text - length (skip_word cur)) 0)
ended-Marked text before cur bytes e m = rw (offset_of text before (skip_word cur) e) (
    subst (λ t. Marked t (set bytes (length before) 0)) (sym e)
      (Marked-set before (skip_word cur) bytes (subst (λ t. Marked t bytes) e m)
        (skip_word-IsBoundary cur)))

-- A string ends at `cur`; the rest of the block is as before.
ended-Done :
    {text : List ℕ} {f : Fill} {ws : List (Option (List ℕ))} (cur : List ℕ) (g : Fill)
    → Suffix text (skip_word cur)
    → g.block.args ≡ f.block.args
    → g.argv_ptr ≡ f.argv_ptr
    → g.block.commands ≡ f.block.commands
    → g.cur_cmd ≡ f.cur_cmd
    → g.block.bytes ≡ set f.block.bytes (length text - length (skip_word cur)) 0
    → Done text f ws
    → Done text g ws
ended-Done {text} {f} {ws} cur g (before, e) a p c n b d = record {
  args = d.args;
  spare = d.spare;
  args_are = a ∙ d.args_are;
  ptr = p ∙ d.ptr;
  named =
      subst (λ z. Named text z d.args ws) (sym b)
        (Named-set text f.block.bytes _ d.args ws d.named);
  unused = d.unused;
  commands_are = c ∙ d.commands_are;
  cmd = n ∙ d.cmd;
  marked = subst (Marked text) (sym b) (ended-Marked text before cur f.block.bytes e d.marked);
}

Token-Done :
    (text : List ℕ) {s s' a : Scan} {c : ℕ} {cs cur : List ℕ} {f : Fill}
    {ws : List (Option (List ℕ))} (t : Token s c cs s' cur)
    → Suffix text (c ∷ cs)
    → Later s' a
    → Room (length text) s a f
    → Done text f ws
    → Done text (after (length text) f t) (ws ++ given t)
Token-Done text {s} {c = c} {cs} {f} {ws} (input i first) at l r d =
    subst (Done text _) (sym (append-nil ws)) (
      ended-Done (skip_space (behind is_input cs)) _
        (Suffix-trans at (Token-Suffix {s = s} (input i first))) refl refl refl refl refl d)
Token-Done text {s} {c = c} {cs} {f} {ws} (output i o first) at l r d =
    subst (Done text _) (sym (append-nil ws)) (
      ended-Done (skip_space (behind is_output cs)) _
        (Suffix-trans at (Token-Suffix {s = s} (output i o first))) refl refl refl refl refl d)
Token-Done text {s} {c = c} {cs} {f} {ws} (pipe i o p) at l r d =
    let (spare, put) =
      set_next f.block.args d.args d.spare f.argv_ptr none d.args_are d.ptr
        (omega (arith, r.args, l.commands)) in
    let (unused, begun) =
      set_next f.block.commands (0 ∷ starts 1 ws) d.unused (f.cur_cmd + 1) (f.argv_ptr + 1)
        d.commands_are (omega (arith, d.cmd)) (omega (arith, r.commands, l.commands)) in
    let place : f.argv_ptr + 1 ≡ 1 + length ws =
      omega (arith, d.ptr, Named-length text f.block.bytes d.args ws d.named) in
    record {
      args = d.args ++ none ∷ [];
      spare = spare;
      args_are = put;
      ptr = omega (arith, d.ptr, length-snoc d.args none);
      named = Named-snoc text f.block.bytes d.args ws none none d.named tt;
      unused = unused;
      commands_are =
          begun
          ∙ ap (λ z. (0 ∷ z) ++ unused)
              (ap (λ z. starts 1 ws ++ z ∷ []) place ∙ sym (starts_bar 1 ws));
      cmd =
          omega
            (arith, d.cmd, ap length (starts_bar 1 ws), length-snoc (starts 1 ws) (1 + length ws));
      marked = d.marked;
    }
Token-Done text {s} {c = c} {cs} {f} {ws} (word amp i o p) (before, e) l r d =
    let w = word_of (c ∷ cs) in
    let post = skip_word (c ∷ cs) in
    let bytes = set f.block.bytes (length text - length post) 0 in
    let (spare, put) =
      set_next f.block.args d.args d.spare f.argv_ptr (some (length text - length (c ∷ cs)))
        d.args_are d.ptr (omega (arith, r.args, l.strings)) in
    let split : text ≡ before ++ (w ++ post) =
      e ∙ ap (λ z. before ++ z) (word_of-skip_word (c ∷ cs)) in
    let end_of : length text - length post ≡ length before + length w =
      omega (arith, ap length split, length-append before (w ++ post), length-append w post) in
    let ended : get_or bytes (length before + length w) 1 ≡ 0 =
      subst (λ j. get_or bytes j 1 ≡ 0) end_of
        (get_or-set_self f.block.bytes (length text - length post) 0 1 (omega (arith, r.bytes))) in
    let at : IsAt text bytes (length text - length (c ∷ cs)) w = record {
      pre = before;
      post = post;
      offset = offset_of text before (c ∷ cs) e;
      stands = split;
      ended = ended;
      is_word = word_of-IsWord (c ∷ cs);
    } in
    record {
      args = d.args ++ some (length text - length (c ∷ cs)) ∷ [];
      spare = spare;
      args_are = put;
      ptr = omega (arith, d.ptr, length-snoc d.args (some (length text - length (c ∷ cs))));
      named =
          Named-snoc text bytes d.args ws _ (some w)
            (Named-set text f.block.bytes (length text - length post) d.args ws d.named) (at, tt);
      unused = d.unused;
      commands_are = d.commands_are ∙ ap (λ z. (0 ∷ z) ++ d.unused) (sym (starts_word 1 ws w));
      cmd = d.cmd ∙ ap length (sym (starts_word 1 ws w));
      marked =
          ended-Marked text (before ++ w) (c ∷ cs) f.block.bytes
            (split ∙ sym (append_assoc before w post)) d.marked;
    }

-- The second pass, from a place where the first one counted what it was given room for.
pub fill_lem :
    (n : ℕ) (text : List ℕ) (s a : Scan) (f : Fill) (ws : List (Option (List ℕ))) (cur : List ℕ)
    → scan n s cur ≡ ok (passed a)
    → Suffix text cur
    → Room (length text) s a f
    → Done text f ws
    → Ends
        (λ f'. Room (length text) a a f' × Done text f' (ws ++ words n cur))
        ⊥
        (fill n (length text) a f cur)
unfolding scan fill words
fill_lem zero text s a f ws [] e at r d =
    let same : s ≡ a = cc in
    returns
      (subst (λ z. Room (length text) z a f) same r, subst (Done text f) (sym (append-nil ws)) d)
fill_lem (suc n) text s a f ws [] e at r d =
    let same : s ≡ a = cc in
    returns
      (subst (λ z. Room (length text) z a f) same r, subst (Done text f) (sym (append-nil ws)) d)
fill_lem zero text s a f ws (c ∷ cs) e at r d = absurd (cc)
fill_lem (suc n) text s a f ws (c ∷ cs) e at r d =
    let (s', cur, t, e') = passed_on n s a c cs e in
    let l = scan-Later n s' a (skip_space cur) e' in
    let rest =
      fill_lem n text s' a (after (length text) f t) (ws ++ given t) (skip_space cur) e'
        (Suffix-trans at (Suffix-trans (Token-Suffix t) (skip_space_suffix cur)))
        (Token-Room (length text) t l r) (Token-Done text t at l r d) in
    rw
      (
        fill_token_lem (length text) t l r,
        item-given t,
        ← append_assoc ws (given t) (words n (skip_space cur)),
      )
      rest
