-- ===== src/Shell/Parser.antt =====
-- `parse_command` of user/cmds/shell/parser.c.
pub mod Tokens
pub mod Passes
pub mod Strings
pub mod Words
pub mod Result
pub mod Correct
use os_pi_is_cool.Base.{
  ℕ, zero, suc, ◌+◌, ◌-◌, ◌≡◌, Bool, true, false, not, ◌&&◌, ◌||◌, Option, none, some, List, [],
  ◌∷◌, ◌++◌, if◌then◌else◌, ◌==◌, ltb, length, drop, Run, ok, fault, ◌>>=◌, store,
}
use os_pi_is_cool.Shell.Chars.{
  is_amp, is_input, is_output, is_pipe, in_word, skip_word, skip_space, advance, cut_comment,
  is_nil, trim_end, ends_in_amp, drop_last,
}

-- What the first pass sets; `num_commands` is that of the command while it runs.
pub record Scan : Type 0 where
  pub num_commands : ℕ
  pub total_strings : ℕ
  pub is_here_document : Bool
  pub is_file_append : Bool
  pub has_token_last : Bool
  pub has_file_input : Bool
  pub has_file_output : Bool

-- The codes of parser.h.
pub data Failure : Type 0 where
  unexpected_file_input unexpected_file_output unexpected_pipeline unexpected_ampersand : Failure
  expect_input_filename expect_output_filename expect_commands : Failure

pub data Checked (A : Type 0) : Type 0 where
  passed : A → Checked A
  failed : Failure → Checked A

-- A doubled '<' or '>' behind the first one.
abbrev pub is_doubled : (ℕ → Bool) → List ℕ → Bool
is_doubled f [] = false
is_doubled f (c ∷ cs) = f c

abbrev pub behind : (ℕ → Bool) → List ℕ → List ℕ
behind f [] = []
behind f (c ∷ cs) = if f c then cs else c ∷ cs

-- A file name is read: the state after it, and the rest of the line.
pub file_name : Failure → Scan → List ℕ → Checked (Scan × List ℕ)
file_name e s cur =
    let at = skip_space cur in
    let skipped = skip_word at in
    if length skipped == length at then failed e else passed (s, skipped)

-- One round of the first pass, at a character and what is behind it.
pub scan_token : Scan → ℕ → List ℕ → Checked (Scan × List ℕ)
scan_token s c cs =
    if is_amp c
    then failed unexpected_ampersand
    else if is_input c
    then (if not (s.num_commands == 0) || s.has_file_input
        then failed unexpected_file_input
        else file_name expect_input_filename
            (record s {
              is_here_document = is_doubled is_input cs || s.is_here_document;
              has_file_input = true;
            })
            (behind is_input cs))
    else if is_output c
    then (if s.has_file_output
        then failed unexpected_file_output
        else file_name expect_output_filename
            (record s {
              is_file_append = is_doubled is_output cs || s.is_file_append;
              has_file_output = true;
            })
            (behind is_output cs))
    else if is_pipe c
    then (if s.has_file_output
        then failed unexpected_file_output
        else if not s.has_token_last
        then failed unexpected_pipeline
        else passed (record s { has_token_last = false; num_commands = s.num_commands + 1 }, cs))
    else passed (
      record s { has_token_last = true; total_strings = s.total_strings + 1 },
      skip_word (c ∷ cs),
    )

abbrev pub go_on :
    Checked (Scan × List ℕ) → (Scan → List ℕ → Run (Checked Scan)) → Run (Checked Scan)
go_on (failed e) rest = ok (failed e)
go_on (passed (s, cur)) rest = rest s (skip_space cur)

-- The first pass, with more rounds than it takes: a round that is missing would be a fault.
pub scan : ℕ → Scan → List ℕ → Run (Checked Scan)
scan n s [] = ok (passed s)
scan zero s (c ∷ cs) = fault
scan (suc n) s (c ∷ cs) = go_on (scan_token s c cs) (scan n)

-- What `realloc` gives, as the code divides it up: the array `commands` of indices into the array of
-- arguments, this array, and the bytes of the strings. An argument is an offset in these or NULL.
pub record Block : Type 0 where
  pub commands : List ℕ
  pub args : List (Option ℕ)
  pub bytes : List ℕ

-- A block is as large as was asked for.
pub record Memory : Type 0 where
  pub calloc : Bool
  pub realloc : ℕ → ℕ → ℕ → Option Block
  pub sized :
      (commands args bytes : ℕ) (b : Block)
      → realloc commands args bytes ≡ some b
      → (length b.commands ≡ commands) × (length b.args ≡ args) × (length b.bytes ≡ bytes)

-- The state of the second pass.
pub record Fill : Type 0 where
  pub block : Block
  pub cur_cmd : ℕ
  pub argv_ptr : ℕ
  pub stdin_file : Option ℕ
  pub stdout_file : Option ℕ

-- `new_start[cur - start] = '\0'` for a line of `slen` characters.
abbrev pub end_string : ℕ → List ℕ → Fill → Run Fill
end_string slen cur f = store f.block.bytes (slen - length cur) 0 >>= λ bytes.
    ok (record f { block = record f.block { bytes = bytes } })

abbrev pub put_arg : Option ℕ → Fill → Run Fill
put_arg a f = store f.block.args f.argv_ptr a >>= λ args.
    ok (record f { block = record f.block { args = args }; argv_ptr = f.argv_ptr + 1 })

abbrev pub next_command : Fill → Run Fill
next_command f = store f.block.commands (f.cur_cmd + 1) f.argv_ptr >>= λ commands.
    ok (record f { block = record f.block { commands = commands }; cur_cmd = f.cur_cmd + 1 })

-- The name of a file, behind its '<' or '>', of which there are two if the flag says so.
abbrev pub name_at : Bool → List ℕ → Run (List ℕ)
name_at doubled cs = (if doubled then advance cs else ok cs) >>= λ cur. ok (skip_space cur)

-- One round of the second pass, with the flags that the first one found.
pub fill_token : ℕ → Scan → Fill → ℕ → List ℕ → Run (Fill × List ℕ)
fill_token slen s f c cs =
    if is_input c
    then (name_at s.is_here_document cs >>= λ cur.
        end_string slen (skip_word cur) (record f { stdin_file = some (slen - length cur) })
        >>= λ f'. ok (f', skip_word cur))
    else if is_output c
    then (name_at s.is_file_append cs >>= λ cur.
        end_string slen (skip_word cur) (record f { stdout_file = some (slen - length cur) })
        >>= λ f'. ok (f', skip_word cur))
    else if is_pipe c
    then (put_arg none f >>= λ f'. next_command f' >>= λ f''. ok (f'', cs))
    else put_arg (some (slen - length (c ∷ cs))) f >>= λ f'.
        end_string slen (skip_word (c ∷ cs)) f' >>= λ f''. ok (f'', skip_word (c ∷ cs))

pub fill : ℕ → ℕ → Scan → Fill → List ℕ → Run Fill
fill n slen s f [] = ok f
fill zero slen s f (c ∷ cs) = fault
fill (suc n) slen s f (c ∷ cs) =
    fill_token slen s f c cs >>= λ (f', cur). fill n slen s f' (skip_space cur)

-- `struct parsed_command`
pub record Command : Type 0 where
  pub is_background : Bool
  pub is_file_append : Bool
  pub is_here_document : Bool
  pub stdin_file : Option ℕ
  pub stdout_file : Option ℕ
  pub num_commands : ℕ
  pub block : Block

-- A command, the code of an error, or -1.
pub data Reply : Type 0 where
  parsed : Command → Reply
  rejected : Failure → Reply
  no_memory : Reply

abbrev pub no_block : Block
no_block = record { commands = []; args = []; bytes = [] }

-- The command of `calloc`, for a line with nothing to do.
abbrev pub no_command : Bool → Command
no_command background = record {
  is_background = background;
  is_file_append = false;
  is_here_document = false;
  stdin_file = none;
  stdout_file = none;
  num_commands = 0;
  block = no_block;
}

abbrev pub new_scan : Scan
new_scan = record {
  num_commands = 0;
  total_strings = 0;
  is_here_document = false;
  is_file_append = false;
  has_token_last = false;
  has_file_input = false;
  has_file_output = false;
}

-- `memcpy` of the line, and `commands[0] = argv_ptr`.
abbrev pub first_fill : List ℕ → Block → Run Fill
first_fill text b = store b.commands 0 0 >>= λ commands. ok (record {
  block = record b { commands = commands; bytes = text ++ drop (length text) b.bytes };
  cur_cmd = 0;
  argv_ptr = 0;
  stdin_file = none;
  stdout_file = none;
})

-- The second pass over the line, and the NULL at its end.
pub second_pass : Bool → List ℕ → Scan → Block → Run Reply
second_pass background text s b = first_fill text b >>= λ f.
    fill (length text) (length text) s f text >>= λ f'.
    store f'.block.args f'.argv_ptr none >>= λ args. ok (
      parsed (record {
        is_background = background;
        is_file_append = s.is_file_append;
        is_here_document = s.is_here_document;
        stdin_file = f'.stdin_file;
        stdout_file = f'.stdout_file;
        num_commands = s.num_commands + 1;
        block = record f'.block { args = args };
      }))

-- What follows the first pass.
pub after_scan : Memory → Bool → List ℕ → Checked Scan → Run Reply
after_scan k background text (failed e) = ok (rejected e)
after_scan k background text (passed s) =
    if s.total_strings == 0
    then (if background || (s.has_file_input || s.has_file_output)
        then ok (rejected expect_commands)
        else ok (parsed (record (no_command background) { num_commands = s.num_commands })))
    else if not s.has_token_last
    then ok (rejected unexpected_pipeline)
    else elim (k.realloc (s.num_commands + 1) (s.num_commands + 1 + s.total_strings)
        (length text + 1)) [ none ↦ ok no_memory | some b ↦ second_pass background text s b ]

abbrev pub parse_text : Memory → Bool → List ℕ → Run Reply
parse_text k background text =
    scan (length text) new_scan text >>= λ r. after_scan k background text r

-- `parse_command` of the characters before the NUL.
pub parse_command : Memory → List ℕ → Run Reply
parse_command k line =
    let text = trim_end (skip_space (cut_comment line)) in
    if not k.calloc
    then ok no_memory
    else if is_nil text
    then ok (parsed (no_command false))
    else parse_text k (ends_in_amp text) (if ends_in_amp text then drop_last text else text)
