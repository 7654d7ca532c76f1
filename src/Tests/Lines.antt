-- ===== src/Tests/Lines.antt =====
-- A command line of the shell.
use os_pi_is_cool.Base.{
  ℕ, ◌≡◌, refl, ap, sym, ◌∙◌, true, Option, none, some, List, [], ◌∷◌, length, replicate,
  length-replicate, Ends,
}
use os_pi_is_cool.Shell.Chars.Text.{command_text}
use os_pi_is_cool.Shell.Parser.{Block, Memory, parse_command}
use os_pi_is_cool.Shell.Parser.Correct.{IsReply, parse_command_lem}

abbrev blank : ℕ → ℕ → ℕ → Block
blank c a b = record { commands = replicate c 0; args = replicate a none; bytes = replicate b 7 }

blank-sized :
    (c a b : ℕ) (x : Block)
    → some (blank c a b) ≡ some x
    → (length x.commands ≡ c) × (length x.args ≡ a) × (length x.bytes ≡ b)
blank-sized c a b x e =
    let same : blank c a b ≡ x = cc in
    (
      ap (λ (z : Block). length z.commands) (sym same) ∙ length-replicate {A = ℕ} c 0,
      ap (λ (z : Block). length z.args) (sym same) ∙ length-replicate {A = Option ℕ} a none,
      ap (λ (z : Block). length z.bytes) (sym same) ∙ length-replicate {A = ℕ} b 7,
    )

abbrev blank_memory : Memory
blank_memory = record { calloc = true; realloc = λ c a b. some (blank c a b); sized = blank-sized }

-- "w <f x|y >>g &"
abbrev line : List ℕ
line = 119 ∷ 32 ∷ 60 ∷ 102 ∷ 32 ∷ 120 ∷ 124 ∷ 121 ∷ 32 ∷ 62 ∷ 62 ∷ 103 ∷ 32 ∷ 38 ∷ []

parse_command_lem_example :
    Ends (IsReply blank_memory (command_text line)) ⊥ (parse_command blank_memory line)
parse_command_lem_example = parse_command_lem blank_memory line refl
