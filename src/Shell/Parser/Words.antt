-- ===== src/Shell/Parser/Words.antt =====
-- The arguments of a line, read off it without the passes, and an array of arguments against them.
use os_pi_is_cool.Base.{
  ℕ, zero, suc, ◌+◌, ◌≡◌, refl, ap, subst, ◌∙◌, arith, false, Option, none, some, List, [], ◌∷◌,
  ◌++◌, length, drop, map, set, get_or, if◌then◌else◌,
}
use os_pi_is_cool.Shell.Chars.{
  has_nul, is_input, is_output, is_pipe, skip_word, skip_space, word_of, IsWord,
}
use os_pi_is_cool.Shell.Parser.{Scan, behind}
use os_pi_is_cool.Shell.Parser.Tokens.{Token, input, output, pipe, word}
use os_pi_is_cool.Shell.Parser.Strings.{string_at, Marked, zero_kept, string_at-word}

-- What stands first in the line: nothing for a file, NULL for a '|', or a word; and the rest.
abbrev pub item : ℕ → List ℕ → List (Option (List ℕ)) × List ℕ
item c cs =
    if is_input c
    then ([], skip_word (skip_space (behind is_input cs)))
    else if is_output c
    then ([], skip_word (skip_space (behind is_output cs)))
    else if is_pipe c
    then (none ∷ [], cs)
    else (some (word_of (c ∷ cs)) ∷ [], skip_word (c ∷ cs))

-- The arguments of the commands in order, with NULL between two commands.
unfoldable pub words : ℕ → List ℕ → List (Option (List ℕ))
words zero cur = []
words (suc n) [] = []
words (suc n) (c ∷ cs) = let (is, cur) = item c cs in is ++ words n (skip_space cur)

-- Where the arguments of the commands after the first one begin.
unfoldable pub starts : ℕ → List (Option (List ℕ)) → List ℕ
starts k [] = []
starts k (none ∷ ws) = k ∷ starts (k + 1) ws
starts k (some w ∷ ws) = starts (k + 1) ws

abbrev pub given :
    {s s' : Scan} {c : ℕ} {cs cur : List ℕ} → Token s c cs s' cur → List (Option (List ℕ))
given (input i first) = []
given (output i o first) = []
given (pipe i o p) = none ∷ []
given {c} {cs} (word a i o p) = some (word_of (c ∷ cs)) ∷ []

pub item-given :
    {s s' : Scan} {c : ℕ} {cs cur : List ℕ} (t : Token s c cs s' cur) → item c cs ≡ (given t, cur)
item-given (input i first) = rw i refl
item-given (output i o first) = rw (i, o) refl
item-given (pipe i o p) = rw (i, o, p) refl
item-given (word a i o p) = rw (i, o, p) refl

pub starts_bar :
    (k : ℕ) (ws : List (Option (List ℕ)))
    → starts k (ws ++ none ∷ []) ≡ starts k ws ++ (k + length ws) ∷ []
unfolding starts
starts_bar k [] = ap (λ z. z ∷ []) (omega arith)
starts_bar k (none ∷ ws) =
    ap (λ z. k ∷ z) (starts_bar (k + 1) ws ∙ ap (λ z. starts (k + 1) ws ++ z ∷ []) (omega arith))
starts_bar k (some w ∷ ws) =
    starts_bar (k + 1) ws ∙ ap (λ z. starts (k + 1) ws ++ z ∷ []) (omega arith)

pub starts_word :
    (k : ℕ) (ws : List (Option (List ℕ))) (w : List ℕ) → starts k (ws ++ some w ∷ []) ≡ starts k ws
unfolding starts
starts_word k [] w = refl
starts_word k (none ∷ ws) w = ap (λ z. k ∷ z) (starts_word (k + 1) ws w)
starts_word k (some v ∷ ws) w = starts_word (k + 1) ws w

-- The word `w` stands in the line at the offset `o`, and the bytes have a NUL at its end.
pub record IsAt (text bytes : List ℕ) (o : ℕ) (w : List ℕ) : Type 0 where
  pub pre : List ℕ
  pub post : List ℕ
  pub offset : o ≡ length pre
  pub stands : text ≡ pre ++ (w ++ post)
  pub ended : get_or bytes (length pre + length w) 1 ≡ 0
  pub is_word : IsWord w

abbrev pub Named : List ℕ → List ℕ → List (Option ℕ) → List (Option (List ℕ)) → Type 0
Named text bytes [] [] = Unit
Named text bytes (none ∷ args) (none ∷ ws) = Named text bytes args ws
Named text bytes (some o ∷ args) (some w ∷ ws) = IsAt text bytes o w × Named text bytes args ws
Named text bytes _ _ = ⊥

pub Named-length :
    (text bytes : List ℕ) (args : List (Option ℕ)) (ws : List (Option (List ℕ)))
    → Named text bytes args ws
    → length args ≡ length ws
Named-length text bytes [] [] h = refl
Named-length text bytes [] (x ∷ ws) h = elim h [ ]
Named-length text bytes (none ∷ args) [] h = elim h [ ]
Named-length text bytes (some o ∷ args) [] h = elim h [ ]
Named-length text bytes (none ∷ args) (none ∷ ws) h = ap suc (Named-length text bytes args ws h)
Named-length text bytes (none ∷ args) (some w ∷ ws) h = elim h [ ]
Named-length text bytes (some o ∷ args) (none ∷ ws) h = elim h [ ]
Named-length text bytes (some o ∷ args) (some w ∷ ws) (a, h) =
    ap suc (Named-length text bytes args ws h)

-- One more argument behind the others, and a NUL more in the bytes.
pub Named-snoc :
    (text bytes : List ℕ) (args : List (Option ℕ)) (ws : List (Option (List ℕ))) (a : Option ℕ)
    (w : Option (List ℕ))
    → Named text bytes args ws
    → Named text bytes (a ∷ []) (w ∷ [])
    → Named text bytes (args ++ a ∷ []) (ws ++ w ∷ [])
Named-snoc text bytes [] [] a w h l = l
Named-snoc text bytes [] (x ∷ ws) a w h l = elim h [ ]
Named-snoc text bytes (none ∷ args) [] a w h l = elim h [ ]
Named-snoc text bytes (some o ∷ args) [] a w h l = elim h [ ]
Named-snoc text bytes (none ∷ args) (none ∷ ws) a w h l = Named-snoc text bytes args ws a w h l
Named-snoc text bytes (none ∷ args) (some v ∷ ws) a w h l = elim h [ ]
Named-snoc text bytes (some o ∷ args) (none ∷ ws) a w h l = elim h [ ]
Named-snoc text bytes (some o ∷ args) (some v ∷ ws) a w (at, h) l =
    (at, Named-snoc text bytes args ws a w h l)

pub Named-set :
    (text bytes : List ℕ) (i : ℕ) (args : List (Option ℕ)) (ws : List (Option (List ℕ)))
    → Named text bytes args ws
    → Named text (set bytes i 0) args ws
Named-set text bytes i [] [] h = tt
Named-set text bytes i [] (x ∷ ws) h = elim h [ ]
Named-set text bytes i (none ∷ args) [] h = elim h [ ]
Named-set text bytes i (some o ∷ args) [] h = elim h [ ]
Named-set text bytes i (none ∷ args) (none ∷ ws) h = Named-set text bytes i args ws h
Named-set text bytes i (none ∷ args) (some v ∷ ws) h = elim h [ ]
Named-set text bytes i (some o ∷ args) (none ∷ ws) h = elim h [ ]
Named-set text bytes i (some o ∷ args) (some v ∷ ws) (at, h) = (
  record {
    pre = at.pre;
    post = at.post;
    offset = at.offset;
    stands = at.stands;
    ended = zero_kept bytes i (length at.pre + length v) at.ended;
    is_word = at.is_word;
  },
  Named-set text bytes i args ws h,
)

-- The string of an argument.
abbrev pub arg_string : List ℕ → Option ℕ → Option (List ℕ)
arg_string bytes none = none
arg_string bytes (some o) = string_at (drop o bytes)

pub Named-strings :
    (text bytes : List ℕ) (args : List (Option ℕ)) (ws : List (Option (List ℕ)))
    → Named text bytes args ws
    → Marked text bytes
    → has_nul text ≡ false
    → map (arg_string bytes) args ≡ ws
Named-strings text bytes [] [] h m p = refl
Named-strings text bytes [] (x ∷ ws) h m p = elim h [ ]
Named-strings text bytes (none ∷ args) [] h m p = elim h [ ]
Named-strings text bytes (some o ∷ args) [] h m p = elim h [ ]
Named-strings text bytes (none ∷ args) (none ∷ ws) h m p =
    ap (λ z. none ∷ z) (Named-strings text bytes args ws h m p)
Named-strings text bytes (none ∷ args) (some w ∷ ws) h m p = elim h [ ]
Named-strings text bytes (some o ∷ args) (none ∷ ws) h m p = elim h [ ]
Named-strings text bytes (some o ∷ args) (some w ∷ ws) (at, h) m p =
    let here =
      string_at-word at.pre w at.post bytes (subst (λ t. Marked t bytes) at.stands m)
        (subst (λ t. has_nul t ≡ false) at.stands p) at.is_word at.ended in
    rw (at.offset, here) (ap (λ z. some w ∷ z) (Named-strings text bytes args ws h m p))
