-- ===== src/Shell/Lexer.antt =====
-- The loop of `_tokens` (src/nare/shell_words.py), over what is left of the line.
use nare.Prelude.{
  ℕ, zero, suc, ◌+◌, Bool, true, false, ◌&&◌, ◌||◌, List, [], ◌∷◌, ◌++◌, Option, none, some, Text,
  codes, same, starts_with, length, drop, ◌==◌, if◌then◌else◌,
}
use nare.Shell.Token.{Token, word, op, redir, redirections, operators, first_prefix, is_fd}
use nare.Shell.Quotes.{single_quoted, Quoted, double_quoted, is_newline}

-- The tokens so far, and the word in progress: `active` even when it is an empty quoted one.
pub record Lex : Type 0 where
  pub tokens : List Token
  pub text : Text
  pub bare : Text
  pub active : Bool

abbrev pub cleared : List Token → Lex
cleared ts = record { tokens = ts; text = []; bare = []; active = false }

-- `end()`.
unfoldable pub end_word : Lex → Lex
end_word s = cleared (if s.active then s.tokens ++ word s.text s.bare ∷ [] else s.tokens)

-- One round of the loop: the line cannot be read, or it goes on from what is left.
pub data Round : Type 0 where
  unreadable : Round
  go_on : Text → Lex → Round

-- The word in progress takes more text, and more of it bare.
abbrev pub extend : Lex → Text → Text → Lex
extend s t b = record s { text = s.text ++ t; bare = s.bare ++ b; active = true }

abbrev pub after_single : Lex → Option (Text × Text) → Round
after_single s none = unreadable
after_single s (some (inside, rest)) = go_on rest (extend s inside [])

abbrev pub after_double : Lex → Option Quoted → Round
after_double s none = unreadable
after_double s (some q) = go_on q.rest (extend s q.text q.bare)

-- A backslash outside quotes, by what follows it.
unfoldable pub after_backslash : Lex → Text → Round
unfolding is_newline
after_backslash s [] = unreadable
after_backslash s (d ∷ cs) = if is_newline d then unreadable else go_on cs (extend s (d ∷ []) [])

-- Whether the word in progress names the descriptor of a redirection that starts with `char`.
unfoldable pub is_descriptor : Lex → ℕ → Bool
is_descriptor s char =
    (char == b'<' || char == b'>') && s.active && same s.text s.bare && is_fd s.text

unfoldable pub push_redirection : Lex → ℕ → Text → Text → Round
unfolding end_word is_descriptor
push_redirection s char o line =
    if is_descriptor s char
    then go_on (drop (length o) line) (cleared (s.tokens ++ redir (s.text ++ o) ∷ []))
    else let s' = end_word s in
      go_on (drop (length o) line) (record s' { tokens = s'.tokens ++ redir o ∷ [] })

unfoldable pub redirection : Lex → ℕ → Text → Round
unfolding push_redirection
redirection s char line =
    if starts_with (codes "<(") line
      || starts_with (codes ">(") line
      || starts_with (codes "<<") line
    then unreadable
    else elim (first_prefix redirections line) [
      | none ↦ unreadable
      | some o ↦ push_redirection s char o line
    ]

unfoldable pub operator : Lex → Text → Round
unfolding end_word
operator s line = elim (first_prefix operators line) [
  | none ↦ unreadable
  | some o ↦
      let s' = end_word s in
      go_on (drop (length o) line) (record s' { tokens = s'.tokens ++ op o ∷ [] })
]

-- One character of the line, with what follows it.
unfoldable pub round : ℕ → Text → Lex → Round
round c cs s =
    if c == 32 || c == 9
    then go_on cs (end_word s)
    else if is_newline c
    then unreadable
    else if c == b'\''
    then after_single s (single_quoted cs)
    else if c == b'"'
    then after_double s (double_quoted cs)
    else if c == b'\\'
    then after_backslash s cs
    else if c == b'`' || starts_with (codes "$(") (c ∷ cs)
    then unreadable
    else if c == b'$'
    then go_on cs (extend s (c ∷ []) (c ∷ []))
    else if c == b'<' || c == b'>' || starts_with (codes "&>") (c ∷ cs)
    then redirection s c (c ∷ cs)
    else if c == b'|' || c == b'&' || c == b';' || c == b'(' || c == b')'
    then operator s (c ∷ cs)
    else go_on cs (extend s (c ∷ []) (c ∷ []))

-- `while i < n`, on fuel: `none` means that the fuel ran out, `some []` that the line cannot be
-- read, or is empty.
unfoldable pub loop : ℕ → Text → Lex → Option (List Token)
unfolding end_word
loop zero line s = none
loop (suc fuel) [] s = some (end_word s).tokens
loop (suc fuel) (c ∷ cs) s = elim (round c cs s) [
  | unreadable ↦ some []
  | go_on rest s' ↦ loop fuel rest s'
]

-- Each round takes at least one character.
abbrev pub rounds : Text → ℕ
rounds command = length command + 1

unfoldable pub run : Text → Option (List Token)
run command = loop (rounds command) command (cleared [])

-- `_tokens`. The fuel never runs out (Shell.Total).
unfoldable pub tokens : Text → List Token
unfolding run
tokens command = elim (run command) [ none ↦ [] | some ts ↦ ts ]
