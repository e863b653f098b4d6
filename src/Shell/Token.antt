-- ===== src/Shell/Token.antt =====
-- Tokens, and the character classes and operator tables of src/nare/shell_words.py.
use nare.Prelude.{
  ℕ, Bool, false, ◌&&◌, ◌||◌, List, [], ◌∷◌, Option, none, some, Text, codes, starts_with, has_char,
  all, leb, ◌==◌, if◌then◌else◌,
}

-- A word keeps what it leaves unquoted, plus any `$` that a double-quoted string expands.
pub data Token : Type 0 where
  word : Text → Text → Token
  op : Text → Token
  redir : Text → Token

-- A token as the string it is.
unfoldable pub str_of : Token → Text
str_of (word text bare) = text
str_of (op t) = t
str_of (redir t) = t

-- Longest first where one starts another.
abbrev pub redirections : List Text
redirections =
    codes "&>>"
    ∷ codes "&>"
    ∷ codes ">>"
    ∷ codes ">&"
    ∷ codes ">|"
    ∷ codes "<&"
    ∷ codes "<>"
    ∷ codes ">"
    ∷ codes "<"
    ∷ []

abbrev pub operators : List Text
operators =
    codes "&&"
    ∷ codes "||"
    ∷ codes "|&"
    ∷ codes ";;"
    ∷ codes ";"
    ∷ codes "&"
    ∷ codes "|"
    ∷ codes "("
    ∷ codes ")"
    ∷ []

abbrev pub separators : List Text
separators = codes "|" ∷ codes "|&" ∷ codes "||" ∷ codes "&&" ∷ codes ";" ∷ codes "&" ∷ []

-- `next(o for o in table if command.startswith(o, i))`.
unfoldable pub first_prefix : List Text → Text → Option Text
first_prefix [] t = none
first_prefix (o ∷ os) t = if starts_with o t then some o else first_prefix os t

unfoldable pub is_letter : ℕ → Bool
is_letter c = (leb b'a' c && leb c b'z') || (leb b'A' c && leb c b'Z')

unfoldable pub is_ascii_digit : ℕ → Bool
is_ascii_digit c = leb b'0' c && leb c b'9'

-- `_PLAIN`.
unfoldable pub is_plain_char : ℕ → Bool
unfolding is_letter is_ascii_digit has_char
is_plain_char c = is_letter c || is_ascii_digit c || has_char c (codes "-_./:=@%+,")

unfoldable pub is_name_char : ℕ → Bool
unfolding is_letter is_ascii_digit
is_name_char c = is_letter c || is_ascii_digit c || c == b'_'

-- `[A-Za-z0-9_]*\}` to the end.
unfoldable pub closes_name : Text → Bool
unfolding is_name_char
closes_name [] = false
closes_name (c ∷ []) = c == b'}'
closes_name (c ∷ d ∷ cs) = is_name_char c && closes_name (d ∷ cs)

unfoldable pub opens_name : Text → Bool
unfolding closes_name
opens_name [] = false
opens_name (c ∷ cs) = (is_letter c || c == b'_') && closes_name cs

-- `_FD.fullmatch`: digits, or a name in braces.
unfoldable pub is_fd : Text → Bool
unfolding opens_name is_ascii_digit
is_fd [] = false
is_fd (c ∷ cs) = all is_ascii_digit (c ∷ cs) || (c == b'{' && opens_name cs)
