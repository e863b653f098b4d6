-- ===== src/Tests/Dispatching.antt =====
-- A command that an allow rule covers, started under a deny list (src/nare/tools.py).
use nare.Prelude.{
  ◌≡◌, refl, true, false, [], ◌∷◌, Option, none, some, Text, codes, has, same, join, starts_with,
  has_char, add_new,
}
use nare.Json.Value.{Value, null, str, Fields}
use nare.Shell.Token.{
  closes_name, first_prefix, is_ascii_digit, is_fd, is_letter, is_name_char, opens_name, str_of,
  is_plain_char,
}
use nare.Shell.Lexer.{
  run, after_backslash, end_word, is_descriptor, operator, push_redirection, redirection, tokens,
  loop, round,
}
use nare.Shell.Commands.{
  commands, brace_list, brace_list_from, brace_step, closes, drop_run, has_sequence,
  hides_redirection, is_redir, sequence_at, sequence_end, skip_dash, skip_dots, skip_run,
  split_commands, plain,
}
use nare.Rules.Pattern.{bash_rule_matches, after_run, matches, one_char, same_char}
use nare.Rules.Decide.{
  decide, allowed_by, argument_hits, command_verdict, commands_refused, cover_all, covered,
  decide_allow, denied_line, equals_hits, insert_sorted, runner_verdict, sorted, tails_hits,
  texts_verdict, denied_by,
}
use nare.Rules.Clear.{LineClear}
use nare.Rules.Deny.{
  hits, after_equals, argv_from, is_command_string, meets, reads_command_string, suffix_hits,
  tail_candidates, tail_hits, tails, argv, is_runner, basename,
}
use nare.Pages.Listing.{text_ltb}
use nare.Shell.Quotes.{double_quoted, is_escaped, quoted_char, single_quoted, is_newline}
use nare.Step.Reply.{ToolCall}
use nare.Tool.Policy.{Policy, Host, declines, given, gave, command_of}
use nare.Tool.Dispatch.{dispatch, arguments_of, is_unconfined}
use nare.Tool.Started.{StartedWith}
use nare.Tool.Gate.{IsCleared, dispatch_started, dispatch_not_denied}
use nare.Tests.Rules.{ascii, status_line, git_rules, push_rules, push_rules-set}

abbrev text_of : Value → Text
text_of (str t) = t
text_of _ = []

abbrev host : Host
host = record {
  approve = λ name args. declines;
  schema = λ name. record {
    properties = codes "command" ∷ [];
    required = codes "command" ∷ [];
    complaints = λ args. [];
  };
  run = λ name args.
      gave (record { content = codes "clean"; failed = false; groups = []; evidence = [] });
  sandbox_missing = none;
  resolve = λ path. given path;
  confinement = given null;
  root_path = codes "/work";
  cwd = codes "/work";
  shown = text_of;
  repr = λ name. name;
  cut = λ content. content;
}

abbrev policy : Policy
policy = record {
  tools = codes "bash" ∷ [];
  root = some (codes "/work");
  external = [];
  image_input = false;
  image_model = [];
  bash_credentials = false;
  bash_allow = git_rules;
  bash_deny = push_rules;
  bash_sandbox = false;
}

abbrev call : ToolCall
call = record {
  id = codes "c1";
  name = codes "bash";
  args = Fields.field (codes "command") (str status_line) Fields.end;
  error = none;
}

abbrev or_end : Option Fields → Fields
or_end none = Fields.end
or_end (some args) = args

abbrev started_with : Fields
started_with = or_end (dispatch host policy ascii call).started

call-started : (dispatch host policy ascii call).started ≡ some started_with
unfolding hits text_ltb has_char join allowed_by argument_hits command_verdict commands_refused
    cover_all covered decide_allow denied_line equals_hits insert_sorted runner_verdict sorted
    tails_hits texts_verdict after_equals argv_from is_command_string meets reads_command_string
    suffix_hits tail_candidates tail_hits tails after_run bash_rule_matches matches one_char
    same_char brace_list brace_list_from brace_step closes drop_run has_sequence hides_redirection
    is_redir sequence_at sequence_end skip_dash skip_dots skip_run split_commands after_backslash
    end_word is_descriptor operator push_redirection redirection run double_quoted is_escaped
    quoted_char single_quoted closes_name first_prefix is_ascii_digit is_fd is_letter is_name_char
    opens_name decide denied_by commands tokens loop round is_newline starts_with str_of argv plain
    is_plain_char is_runner has same basename add_new dispatch
call-started = refl

dispatch_started_example :
    (call.error ≡ none)
    × (has call.name policy.tools ≡ true)
    × ((arguments_of host policy call).1 ≡ [])
    × (is_unconfined host policy call.name ≡ false)
    × IsCleared host policy ascii call (arguments_of host policy call).0
    × StartedWith host policy (codes "bash") (arguments_of host policy call).0 started_with
dispatch_started_example = dispatch_started host policy ascii call started_with call-started

dispatch_not_denied_example :
    LineClear ascii push_rules 4 (command_of host (arguments_of host policy call).0)
dispatch_not_denied_example =
    dispatch_not_denied host policy ascii call started_with refl push_rules-set call-started
