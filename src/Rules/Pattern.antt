-- ===== src/Rules/Pattern.antt =====
-- A pattern against a text: `validate` and `bash_rule_matches` (src/nare/bash_rules.py).
use nare.Prelude.{
  ℕ, Bool, true, false, ◌&&◌, ◌||◌, List, [], ◌∷◌, Text, any, all, ◌==◌, if◌then◌else◌, Option,
  none, some,
}
use nare.Reads.Required.{is_space}
use nare.Shell.Commands.{Unicode}

pub data PatternError : Type 0 where
  empty_pattern newline : PatternError

-- `validate`: the first rule that is refused.
unfoldable pub validate : List Text → Option PatternError
validate [] = none
validate (rule ∷ rules) =
    if all is_space rule
    then some empty_pattern
    else if any (λ c. c == 10 || c == 13) rule
    then some newline
    else validate rules

-- Whether a character of a pattern that stands for itself matches one of the text.
unfoldable pub same_char : Unicode → Bool → ℕ → ℕ → Bool
same_char u ignore_case p c = if ignore_case then u.fold p == u.fold c else p == c

-- `.*`: the rest of the pattern matches behind some run of characters.
unfoldable pub after_run : (Text → Bool) → Text → Bool
after_run rest [] = rest []
after_run rest (c ∷ cs) = rest (c ∷ cs) || after_run rest cs

-- One character of the pattern that is no `*`, against the head of the text.
unfoldable pub one_char : Unicode → Bool → ℕ → (Text → Bool) → Text → Bool
unfolding same_char
one_char u ignore_case p rest [] = false
one_char u ignore_case p rest (c ∷ cs) = (p == b'?' || same_char u ignore_case p c) && rest cs

-- `re.fullmatch` of the pattern read as `.*`, `.` and escaped characters.
unfoldable pub matches : Unicode → Bool → Text → Text → Bool
unfolding after_run one_char
matches u ignore_case [] [] = true
matches u ignore_case [] (c ∷ cs) = false
matches u ignore_case (p ∷ ps) text =
    if p == b'*'
    then after_run (matches u ignore_case ps) text
    else one_char u ignore_case p (matches u ignore_case ps) text

-- `bash_rule_matches(pattern, text, ignore_case)`.
unfoldable pub bash_rule_matches : Unicode → Text → Text → Bool → Bool
unfolding matches
bash_rule_matches u pattern text ignore_case = matches u ignore_case pattern text
