-- ===== src/Shell/Total.antt =====
-- The lexer always ends: each round of its loop takes at least one character.
use nare.Prelude.{
  ℕ, zero, suc, ◌≤◌, ◌<◌, ◌≡◌, refl, inl, inr, List, [], ◌∷◌, Option, none, some, Text, arith,
  length, length-drop, All, Bool-cases, Option-cases, starts_with,
}
use nare.Shell.Token.{Token, redirections, operators, first_prefix}
use nare.Shell.Quotes.{single_quoted, Quoted, quoted_char, double_quoted}
use nare.Shell.Lexer.{
  Lex, cleared, end_word, Round, unreadable, go_on, after_single, after_double, after_backslash,
  push_redirection, redirection, operator, round, loop, rounds, run,
}

-- What is left after a round.
abbrev Leaves : ℕ → Round → Type 0
Leaves n unreadable = Unit
Leaves n (go_on rest s) = length rest ≤ n

abbrev RestLe : ℕ → Option (Text × Text) → Type 0
RestLe n none = Unit
RestLe n (some (inside, rest)) = length rest ≤ n

abbrev QuotedLe : ℕ → Option Quoted → Type 0
QuotedLe n none = Unit
QuotedLe n (some q) = length q.rest ≤ n

single_quoted-RestLe : (cs : Text) → RestLe (length cs) (single_quoted cs)
unfolding single_quoted
single_quoted-RestLe [] = tt
single_quoted-RestLe (c ∷ cs) = ground (arith, single_quoted-RestLe cs)

QuotedLe-le : (m n : ℕ) (q : Option Quoted) → m ≤ n → QuotedLe m q → QuotedLe n q
QuotedLe-le m n none le h = tt
QuotedLe-le m n (some q) le h = omega arith

quoted_char-QuotedLe :
    (c d n : ℕ) (behind : Text) (escaped next : Option Quoted)
    → length behind ≤ n
    → QuotedLe n escaped
    → QuotedLe n next
    → QuotedLe n (quoted_char c d behind escaped next)
unfolding quoted_char
quoted_char-QuotedLe c d n behind none none b e x = ground arith
quoted_char-QuotedLe c d n behind none (some q) b e x = ground arith
quoted_char-QuotedLe c d n behind (some q) none b e x = ground arith
quoted_char-QuotedLe c d n behind (some q) (some r) b e x = ground arith

double_quoted-QuotedLe : (cs : Text) → QuotedLe (length cs) (double_quoted cs)
unfolding double_quoted
double_quoted-QuotedLe [] = tt
double_quoted-QuotedLe (c ∷ []) = ground arith
double_quoted-QuotedLe (c ∷ d ∷ cs) =
    let escaped =
      QuotedLe-le (length cs) (length (c ∷ d ∷ cs)) (double_quoted cs) (omega arith)
        (double_quoted-QuotedLe cs) in
    let next =
      QuotedLe-le (length (d ∷ cs)) (length (c ∷ d ∷ cs)) (double_quoted (d ∷ cs)) (omega arith)
        (double_quoted-QuotedLe (d ∷ cs)) in
    quoted_char-QuotedLe c d (length (c ∷ d ∷ cs)) (d ∷ cs) (double_quoted cs)
      (double_quoted (d ∷ cs)) (omega arith) escaped next

after_single-Leaves :
    (s : Lex) (n : ℕ) (q : Option (Text × Text)) → RestLe n q → Leaves n (after_single s q)
after_single-Leaves s n none h = tt
after_single-Leaves s n (some q) h = h

after_double-Leaves :
    (s : Lex) (n : ℕ) (q : Option Quoted) → QuotedLe n q → Leaves n (after_double s q)
after_double-Leaves s n none h = tt
after_double-Leaves s n (some q) h = h

after_backslash-Leaves : (s : Lex) (cs : Text) → Leaves (length cs) (after_backslash s cs)
unfolding after_backslash
after_backslash-Leaves s [] = tt
after_backslash-Leaves s (d ∷ cs) = ground arith

first_prefix-pos :
    (table : List Text) (t : Text) {o : Text}
    → All (λ p. 1 ≤ length p) table
    → first_prefix table t ≡ some o
    → 1 ≤ length o
unfolding first_prefix
first_prefix-pos [] t h e = absurd (cc e)
first_prefix-pos (p ∷ ps) t h e = elim (Bool-cases (starts_with p t)) [
  | inl here ↦ ground (arith, h.0)
  | inr later ↦ first_prefix-pos ps t h.1 (rw later at e)
]

push_redirection-Leaves :
    (s : Lex) (char c : ℕ) (o cs : Text)
    → 1 ≤ length o
    → Leaves (length cs) (push_redirection s char o (c ∷ cs))
unfolding push_redirection
push_redirection-Leaves s char c o cs h = ground (arith, length-drop (length o) (c ∷ cs))

redirection-Leaves :
    (s : Lex) (char c : ℕ) (cs : Text) → Leaves (length cs) (redirection s char (c ∷ cs))
redirection-Leaves s char c cs = elim (Option-cases (first_prefix redirections (c ∷ cs))) [
  | inl e ↦ unfold redirection in ground arith
  | inr (o, e) ↦
      let fits =
        push_redirection-Leaves s char c o cs
          (first_prefix-pos redirections (c ∷ cs) (omega arith) e) in
      unfold redirection in ground arith
]

operator-Leaves : (s : Lex) (c : ℕ) (cs : Text) → Leaves (length cs) (operator s (c ∷ cs))
unfolding operator
operator-Leaves s c cs = elim (Option-cases (first_prefix operators (c ∷ cs))) [
  | inl e ↦ rw (e, operator) tt
  | inr (o, e) ↦
      rw (e, operator)
        (omega (
          arith,
          length-drop (length o) (c ∷ cs),
          first_prefix-pos operators (c ∷ cs) (omega arith) e,
        ))
]

round-Leaves : (c : ℕ) (cs : Text) (s : Lex) → Leaves (length cs) (round c cs s)
unfolding round
round-Leaves c cs s = ground (
  arith,
  after_single-Leaves s (length cs) (single_quoted cs) (single_quoted-RestLe cs),
  after_double-Leaves s (length cs) (double_quoted cs) (double_quoted-QuotedLe cs),
  after_backslash-Leaves s cs,
  redirection-Leaves s c c cs,
  operator-Leaves s c cs,
)

loop_ends :
    (fuel : ℕ) (line : Text) (s : Lex)
    → length line < fuel
    → (ts : List Token) × (loop fuel line s ≡ some ts)
unfolding loop
loop_ends zero line s h = absurd (omega arith)
loop_ends (suc fuel) [] s h = ((end_word s).tokens, refl)
loop_ends (suc fuel) (c ∷ cs) s h =
    go (round c cs s) (round-Leaves c cs s) refl
      (λ rest s' le. loop_ends fuel rest s' (omega arith))
  where
    go :
        (r : Round)
        → Leaves (length cs) r
        → round c cs s ≡ r
        → ((rest : Text) (s' : Lex)
            → length rest ≤ length cs
            → (ts : List Token) × (loop fuel rest s' ≡ some ts))
        → (ts : List Token) × (loop (suc fuel) (c ∷ cs) s ≡ some ts)
    go unreadable l e again = ([], rw (e, loop))
    go (go_on rest s') l e again = let (ts, ends) = again rest s' l in (ts, rw (e, loop) ends)

-- The lexer reads every line to an end: its loop makes at most one round for each character.
pub run_total : (command : Text) → (ts : List Token) × (run command ≡ some ts)
unfolding run
run_total command = loop_ends (rounds command) command (cleared []) (omega arith)
