-- ===== src/Shell/Quotes.antt =====
-- The text inside quotes: the search for a closing `'`, and the loop inside `"` of `_tokens`
-- (src/nare/shell_words.py).
use nare.Prelude.{ℕ, Bool, not, ◌&&◌, ◌||◌, [], ◌∷◌, Option, none, some, Text, ◌==◌, if◌then◌else◌}

-- `command.find("'", i)`: what stands before the next quote, and what stands behind it.
unfoldable pub single_quoted : Text → Option (Text × Text)
single_quoted [] = none
single_quoted (c ∷ cs) =
    if c == b'\''
    then some ([], cs)
    else elim (single_quoted cs) [ none ↦ none | some (inside, rest) ↦ some (c ∷ inside, rest) ]

-- What a quoted string adds to the word's text and to its bare part, and what follows it.
pub record Quoted : Type 0 where
  pub text : Text
  pub bare : Text
  pub rest : Text

abbrev pub kept : ℕ → Option Quoted → Option Quoted
kept c none = none
kept c (some q) = some (record q { text = c ∷ q.text })

abbrev pub kept_bare : ℕ → Option Quoted → Option Quoted
kept_bare c none = none
kept_bare c (some q) = some (record q { text = c ∷ q.text; bare = c ∷ q.bare })

-- `\n` and `\r`.
unfoldable pub is_newline : ℕ → Bool
is_newline c = c == 10 || c == 13

-- The characters that a backslash escapes inside double quotes.
unfoldable pub is_escaped : ℕ → Bool
is_escaped c = c == b'$' || c == b'`' || c == b'"' || c == b'\\'

-- The branches on the character `c` with `d` next: `escaped` is what follows both, `next` what
-- follows the first.
unfoldable pub quoted_char : ℕ → ℕ → Text → Option Quoted → Option Quoted → Option Quoted
unfolding is_newline is_escaped
quoted_char c d behind escaped next =
    if c == b'"'
    then some (record { text = []; bare = []; rest = behind })
    else if c == b'\\' && is_escaped d
    then kept d escaped
    else if c == b'\\' && not (is_newline d)
    then kept c next
    else if c == b'\\' || c == b'`' || (c == b'$' && d == b'(')
    then none
    else if c == b'$'
    then kept_bare c next
    else kept c next

-- From behind the opening `"`; `none` where the line cannot be read.
unfoldable pub double_quoted : Text → Option Quoted
unfolding quoted_char
double_quoted [] = none
double_quoted (c ∷ []) =
    if c == b'"' then some (record { text = []; bare = []; rest = [] }) else none
double_quoted (c ∷ d ∷ cs) = quoted_char c d (d ∷ cs) (double_quoted cs) (double_quoted (d ∷ cs))
