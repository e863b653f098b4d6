-- ===== src/Tests/Rules.antt =====
-- Rules on concrete command lines (src/nare/bash_rules.py).
use nare.Prelude.{
  ℕ, ◌+◌, ◌≡◌, ◌≢◌, ◌↔◌, refl, sym, ◌∙◌, true, false, ◌&&◌, leb, List, [], ◌∷◌, some, Text, codes,
  All, if◌then◌else◌, has_char, join, starts_with, has, same, add_new,
}
use nare.Shell.Token.{
  Token, closes_name, first_prefix, is_ascii_digit, is_fd, is_letter, is_name_char, opens_name,
  str_of, is_plain_char,
}
use nare.Shell.Lexer.{
  run, after_backslash, end_word, is_descriptor, operator, push_redirection, redirection, tokens,
  loop, round,
}
use nare.Shell.Total.{run_total}
use nare.Shell.Commands.{
  Unicode, commands, brace_list, brace_list_from, brace_step, closes, drop_run, has_sequence,
  hides_redirection, is_redir, sequence_at, sequence_end, skip_dash, skip_dots, skip_run,
  split_commands, plain,
}
use nare.Rules.Pattern.{bash_rule_matches, after_run, matches, one_char, same_char}
use nare.Rules.Matching.{Matches, bash_rule_matches_iff}
use nare.Rules.Decide.{
  allowed, denied, decide, allowed_by, argument_hits, command_verdict, commands_refused, cover_all,
  covered, decide_allow, denied_line, equals_hits, insert_sorted, runner_verdict, sorted,
  tails_hits, texts_verdict, denied_by,
}
use nare.Rules.Safe.{IsCovered, decide_allowed}
use nare.Rules.Clear.{LineClear, decide_not_denied}
use nare.Rules.Deny.{
  hits, after_equals, argv_from, is_command_string, meets, reads_command_string, suffix_hits,
  tail_candidates, tail_hits, tails, argv, is_runner, basename,
}
use nare.Pages.Listing.{text_ltb}
use nare.Shell.Quotes.{double_quoted, is_escaped, quoted_char, single_quoted, is_newline}

-- Unicode's tables, cut to ASCII.
abbrev ascii_lower : ℕ → ℕ
ascii_lower c = if leb b'A' c && leb c b'Z' then c + 32 else c

abbrev pub ascii : Unicode
ascii = record {
  is_word = λ c. leb b'a' c && leb c b'z';
  is_digit = λ c. leb b'0' c && leb c b'9';
  lower = ascii_lower;
  fold = ascii_lower;
}

abbrev pub status_line : Text
status_line = codes "git status"

abbrev pub git_rules : List Text
git_rules = codes "git *" ∷ []

abbrev pub push_rules : List Text
push_rules = codes "git push*" ∷ []

status_allowed : decide ascii status_line git_rules push_rules ≡ allowed git_rules
unfolding hits text_ltb has_char join allowed_by argument_hits command_verdict commands_refused
    cover_all covered decide_allow denied_line equals_hits insert_sorted runner_verdict sorted
    tails_hits texts_verdict after_equals argv_from is_command_string meets reads_command_string
    suffix_hits tail_candidates tail_hits tails after_run bash_rule_matches matches one_char
    same_char brace_list brace_list_from brace_step closes drop_run has_sequence hides_redirection
    is_redir sequence_at sequence_end skip_dash skip_dots skip_run split_commands after_backslash
    end_word is_descriptor operator push_redirection redirection run double_quoted is_escaped
    quoted_char single_quoted closes_name first_prefix is_ascii_digit is_fd is_letter is_name_char
    opens_name decide denied_by commands tokens loop round is_newline starts_with str_of argv plain
    is_plain_char is_runner has same basename add_new
status_allowed = refl

decide_allowed_example :
    (cs : List (List Token)) × (commands ascii status_line ≡ some cs)
    × (cs ≢ [])
    × All (IsCovered ascii git_rules) cs
decide_allowed_example =
    decide_allowed ascii git_rules status_line push_rules git_rules status_allowed

status_open : (rules : List Text) → decide ascii status_line git_rules push_rules ≢ denied rules
status_open rules e = absurd (cc (sym status_allowed ∙ e))

pub push_rules-set : push_rules ≢ []
push_rules-set e = absurd (cc e)

decide_not_denied_example : LineClear ascii push_rules 4 status_line
decide_not_denied_example =
    decide_not_denied ascii push_rules status_line git_rules push_rules-set status_open

bash_rule_matches_iff_example :
    (bash_rule_matches ascii (codes "git *") status_line false ≡ true)
    ↔ Matches ascii false (codes "git *") status_line
bash_rule_matches_iff_example = bash_rule_matches_iff ascii false (codes "git *") status_line

run_total_example : (ts : List Token) × (run status_line ≡ some ts)
run_total_example = run_total status_line
