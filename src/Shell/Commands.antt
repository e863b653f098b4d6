-- ===== src/Shell/Commands.antt =====
-- A line's commands: `_brace_list`, `_SEQUENCE`, `_commands` and `_plain`
-- (src/nare/shell_words.py).
use nare.Prelude.{
  ℕ, suc, ◌+◌, ◌-◌, Bool, true, false, not, ◌&&◌, ◌||◌, List, [], ◌∷◌, ◌++◌, Option, none, some,
  Text, has, any, all, ◌==◌, if◌then◌else◌,
}
use nare.Shell.Token.{Token, word, op, redir, str_of, separators, is_plain_char}
use nare.Shell.Lexer.{tokens}

-- Python's tables of characters: `\w`, `\d`, `str.lower` of one character, and the form under
-- which `re.IGNORECASE` compares one.
pub record Unicode : Type 0 where
  pub is_word : ℕ → Bool
  pub is_digit : ℕ → Bool
  pub lower : ℕ → ℕ
  pub fold : ℕ → ℕ

-- The state of `_brace_list`: how deep, and where the list opened and splits.
pub record Braces : Type 0 where
  pub depth : ℕ
  pub start : ℕ
  pub commas : List ℕ

abbrev pub no_braces : Braces
no_braces = record { depth = 0; start = 0; commas = [] }

abbrev pub is_empty {ℓ} : {A : Type ℓ} → List A → Bool
is_empty [] = true
is_empty (x ∷ xs) = false

-- Whether a `}` here closes a list that splits.
unfoldable pub closes : Braces → ℕ → Bool
closes b c = c == b'}' && b.depth == 1 && not (is_empty b.commas)

unfoldable pub brace_step : Braces → ℕ → ℕ → Braces
brace_step b i c =
    if c == b'{'
    then (if b.depth == 0
        then record { depth = 1; start = i; commas = [] }
        else record b { depth = b.depth + 1 })
    else if c == b',' && b.depth == 1
    then record b { commas = b.commas ++ i ∷ [] }
    else if c == b'}'
    then record b { depth = b.depth - 1 }
    else b

unfoldable pub brace_list_from : ℕ → Braces → Text → Option (List ℕ)
unfolding closes brace_step
brace_list_from i b [] = none
brace_list_from i b (c ∷ cs) =
    let later = brace_list_from (suc i) (brace_step b i c) cs in
    if closes b c then some (b.start ∷ (b.commas ++ i ∷ [])) else later

-- Where the word's first brace list opens, splits and closes.
unfoldable pub brace_list : Text → Option (List ℕ)
unfolding brace_list_from
brace_list w = brace_list_from 0 no_braces w

abbrev pub is_some {ℓ} : {A : Type ℓ} → Option A → Bool
is_some none = false
is_some (some a) = true

-- `-?`.
unfoldable pub skip_dash : Text → Text
skip_dash [] = []
skip_dash (c ∷ cs) = if c == b'-' then cs else c ∷ cs

-- A run of characters of a class, as long as it goes; `none` where it is empty.
unfoldable pub drop_run : (ℕ → Bool) → Text → Text
drop_run p [] = []
drop_run p (c ∷ cs) = let rest = drop_run p cs in if p c then rest else c ∷ cs

unfoldable pub skip_run : (ℕ → Bool) → Text → Option Text
unfolding drop_run
skip_run p [] = none
skip_run p (c ∷ cs) = if p c then some (drop_run p cs) else none

unfoldable pub skip_dots : Text → Option Text
skip_dots [] = none
skip_dots (c ∷ []) = none
skip_dots (c ∷ d ∷ cs) = if c == b'.' && d == b'.' then some cs else none

infixl 5 ◌>>=◌
abbrev pub ◌>>=◌ : {A B : Type 0} → Option A → (A → Option B) → Option B
none >>= f = none
some a >>= f = f a

abbrev pub starts_close : Text → Bool
starts_close [] = false
starts_close (c ∷ cs) = c == b'}'

-- `(?:\.\.-?\d+)?\}`: the optional step and the closing brace.
unfoldable pub sequence_end : Unicode → Text → Bool
unfolding skip_dots skip_dash skip_run
sequence_end u t =
    starts_close t || (elim (skip_dots t >>= λ s. skip_run u.is_digit (skip_dash s)) [
      | none ↦ false
      | some r ↦ starts_close r
    ])

-- `_SEQUENCE` from behind its `{`. A run of `\w` holds no dot, dash or brace, so it is matched in
-- one way only.
unfoldable pub sequence_at : Unicode → Text → Bool
unfolding sequence_end skip_dots skip_dash skip_run
sequence_at u t =
    elim (do
      a ← skip_run u.is_word (skip_dash t)
      b ← skip_dots a
      skip_run u.is_word (skip_dash b)) [ none ↦ false | some r ↦ sequence_end u r ]

-- `_SEQUENCE.search(command)`.
unfoldable pub has_sequence : Unicode → Text → Bool
unfolding sequence_at
has_sequence u [] = false
has_sequence u (c ∷ cs) = (c == b'{' && sequence_at u cs) || has_sequence u cs

-- A token whose braces would make a redirection out of quoted text.
unfoldable pub hides_redirection : Token → Bool
unfolding brace_list
hides_redirection t =
    any (λ c. c == b'<' || c == b'>') (str_of t) && is_some (brace_list (str_of t))

-- The tokens split at the separators; `none` at any other operator. `current` is the command in
-- progress, and a command with no words is left out.
abbrev pub with_command : List Token → List (List Token) → List (List Token)
with_command [] rest = rest
with_command (t ∷ ts) rest = (t ∷ ts) ∷ rest

unfoldable pub split_commands : List Token → List Token → Option (List (List Token))
split_commands current [] = some (with_command current [])
split_commands current (op o ∷ ts) =
    if has o separators
    then (split_commands [] ts >>= λ rest. some (with_command current rest))
    else none
split_commands current (word t b ∷ ts) = split_commands (current ++ word t b ∷ []) ts
split_commands current (redir r ∷ ts) = split_commands (current ++ redir r ∷ []) ts

-- `_commands`: `none` where the line cannot be read.
unfoldable pub commands : Unicode → Text → Option (List (List Token))
unfolding split_commands hides_redirection has_sequence
commands u command =
    let ts = tokens command in
    if is_empty ts || has_sequence u command || any hides_redirection ts
    then none
    else split_commands [] ts

-- `_plain`: nothing of an unquoted part expands, globs or splits.
unfoldable pub plain : Token → Bool
plain (word text bare) = all is_plain_char bare
plain _ = false

unfoldable pub is_redir : Token → Bool
is_redir (redir t) = true
is_redir _ = false
