-- ===== src/Tool/Dispatch.antt =====
-- Running one tool call under a policy: `dispatch` (src/nare/tools.py).
use nare.Prelude.{
  Bool, true, false, not, ◌&&◌, ◌||◌, List, [], ◌∷◌, ◌++◌, Option, none, some, Text, codes, same,
  has, join, if◌then◌else◌,
}
use nare.Json.Value.{Value, str, bool, null, Fields}
use nare.Json.Dict.{lookup, keys}
use nare.Session.Types.{Ruled}
use nare.Reads.Cited.{get_field}
use nare.Shell.Commands.{Unicode, is_empty}
use nare.Rules.Decide.{Decision, denied, allowed, undecided, decide}
use nare.Step.Reply.{ToolCall, Ran, ran, cancelled}
use nare.Step.Turn.{is_set}
use nare.Schema.Pairs.{set_field}
use nare.Tool.Arguments.{built_in_arguments}
use nare.Tool.Policy.{
  Approval, approves, declines, withdrawn, gives_reason, approver_raises, Output, ToolEnd, gave,
  tool_raised, tool_cancelled, ExternalTool, Policy, Given, given, not_given, Host, built_in,
  navigation, evidence_tools, path_tools, bash, Handled, refused_call, or_none, strip, with_reason,
  command_of,
}

abbrev pub is_absent : List Value → Bool
is_absent [] = true
is_absent (null ∷ vs) = true
is_absent (str [] ∷ vs) = true
is_absent (v ∷ vs) = false

abbrev pub then_given : Given Fields → (Fields → Given Fields) → Given Fields
then_given (given args) f = f args
then_given (not_given why) f = not_given why

module _ (host : Host) (policy : Policy) where
  abbrev pub folder : Text
  folder = if is_set policy.root then host.root_path else host.cwd

  -- Set after the model's arguments, so that it cannot be moved by them.
  unfoldable pub with_base : Text → Fields → Fields
  unfolding get_field set_field has
  with_base name args =
      if has name evidence_tools
      then set_field (codes "base") (str folder) (
          if has name navigation && is_absent (get_field (codes "path") args)
          then set_field (codes "path") (str (codes ".")) args
          else args)
      else args

  abbrev pub with_resolved : Fields → Given Text → Given Fields
  with_resolved args (not_given why) = not_given why
  with_resolved args (given path) = given (set_field (codes "path") (str path) args)

  abbrev pub resolve_path : Fields → List Value → Given Fields
  resolve_path args [] = given args
  resolve_path args (v ∷ vs) = with_resolved args (host.resolve (host.shown v))

  unfoldable pub with_path : Text → Fields → Given Fields
  unfolding get_field set_field has
  with_path name args =
      if has name path_tools then resolve_path args (get_field (codes "path") args) else given args

  abbrev pub confined : Fields → Given Value → Given Fields
  confined args (not_given why) = not_given why
  confined args (given c) = given (set_field (codes "confine") c args)

  unfoldable pub with_shell : Text → Fields → Given Fields
  unfolding set_field same
  with_shell name args =
      if same name bash
      then confined
          (set_field (codes "credentials") (bool policy.bash_credentials) (
            if is_set policy.root then set_field (codes "cwd") (str host.root_path) args else args))
          host.confinement
      else given args

  unfoldable pub with_images : Text → Fields → Fields
  unfolding set_field same
  with_images name args =
      if same name (codes "read")
      then set_field (codes "image_model") (str policy.image_model)
          (set_field (codes "image_input") (bool policy.image_input) args)
      else args

  -- The arguments a built-in tool is started with, or the exception.
  unfoldable pub prepare : Text → Fields → Given Fields
  unfolding with_base with_path with_shell with_images
  prepare name args =
      then_given (with_path name (with_base name args))
        (λ a. then_given (with_shell name a) (λ b. given (with_images name b)))

  -- Only bash reports a failure and the groups it left, only a read of the tree evidence.
  abbrev pub kept_result : Text → List Ruled → Output → Ran
  kept_result name rules o =
      if same name bash
      then record {
        content = o.content;
        is_error = o.failed;
        groups = o.groups;
        evidence = [];
        rules = rules;
      }
      else record {
        content = o.content;
        is_error = false;
        groups = [];
        evidence = if has name evidence_tools then o.evidence else [];
        rules = rules;
      }

  abbrev pub built_in_end : Text → Bool → List Ruled → Fields → ToolEnd → Handled
  built_in_end name asked rules args (gave o) = record {
    asked = asked;
    started = some args;
    result = ran (kept_result name rules o);
  }
  built_in_end name asked rules args (tool_raised why) = record (refused_call asked rules why) {
    started = some args;
  }
  built_in_end name asked rules args tool_cancelled = record {
    asked = asked;
    started = some args;
    result = cancelled rules;
  }

  abbrev pub run_built_in : Text → Bool → List Ruled → Given Fields → Handled
  run_built_in name asked rules (not_given why) = refused_call asked rules why
  run_built_in name asked rules (given args) =
      built_in_end name asked rules args (host.run name args)

  abbrev pub external_end : Bool → List Ruled → Fields → ToolEnd → Handled
  external_end asked rules args (gave o) = record {
    asked = asked;
    started = some args;
    result = ran (record {
      content = host.cut o.content;
      is_error = o.failed;
      groups = [];
      evidence = [];
      rules = rules;
    });
  }
  external_end asked rules args (tool_raised why) = record (refused_call asked rules why) {
    started = some args;
  }
  external_end asked rules args tool_cancelled = record {
    asked = asked;
    started = some args;
    result = cancelled rules;
  }

  -- The tool itself, an external one first.
  unfoldable pub run_tool : Text → Bool → List Ruled → Fields → Handled
  unfolding prepare lookup
  run_tool name asked rules args = elim (lookup name policy.external) [
    | some tool ↦ external_end asked rules args (tool.call args)
    | none ↦ run_built_in name asked rules (prepare name args)
  ]

  abbrev pub not_approved : Text → Text
  not_approved name = name ++ codes " was not approved"

  abbrev pub by_approval : ToolCall → Fields → Approval → Handled
  by_approval call args approves = run_tool call.name true [] args
  by_approval call args declines = refused_call true [] (not_approved call.name)
  by_approval call args (gives_reason why) =
      refused_call true [] (not_approved call.name ++ with_reason (strip why))
  by_approval call args (approver_raises why) = refused_call true [] why
  by_approval call args withdrawn = record { asked = true; started = none; result = cancelled [] }

  abbrev pub ruled : ToolCall → Text → List Text → Ruled
  ruled call effect patterns = record {
    tool_use_id = call.id;
    effect = effect;
    patterns = patterns;
  }

  -- A denial refuses before any approval, an allowance runs without one.
  abbrev pub by_decision : ToolCall → Fields → Decision → Handled
  by_decision call args (denied patterns) =
      refused_call false (ruled call (codes "deny") patterns ∷ [])
        (codes "bash was refused by a policy rule: " ++ join (codes ", ") patterns)
  by_decision call args (allowed patterns) =
      run_tool call.name false (ruled call (codes "allow") patterns ∷ []) args
  by_decision call args undecided = by_approval call args (host.approve call.name call.args)

  -- What the patterns make of a bash call.
  unfoldable pub decision_of : Unicode → Text → Fields → Decision
  unfolding decide same get_field
  decision_of u name args =
      if same name bash && not (is_empty policy.bash_allow && is_empty policy.bash_deny)
      then decide u (command_of host args) policy.bash_allow policy.bash_deny
      else undecided

  abbrev pub sandbox_text : Option Text → Text
  sandbox_text none = codes "no root to confine to"
  sandbox_text (some why) = why

  abbrev pub is_unconfined : Text → Bool
  is_unconfined name =
      same name bash
      && (policy.bash_sandbox && (is_set host.sandbox_missing || not (is_set policy.root)))

  abbrev pub by_problems : Unicode → ToolCall → Fields × List Text → Handled
  by_problems u call (args, p ∷ ps) =
      refused_call false [] (call.name ++ (codes ": " ++ join (codes "; ") (p ∷ ps)))
  by_problems u call (args, []) =
      if is_unconfined call.name
      then refused_call false [] (
          codes "bash sandbox is not available here, so the command was not run: "
          ++ sandbox_text host.sandbox_missing)
      else by_decision call args (decision_of u call.name args)

  abbrev pub checked_by : Option (Fields → Fields × List Text) → Fields → Fields × List Text
  checked_by none args = (args, [])
  checked_by (some checker) args = checker args

  abbrev pub external_arguments : Option ExternalTool → Fields → Fields × List Text
  external_arguments none args = (args, [])
  external_arguments (some tool) args = checked_by tool.arguments args

  unfoldable pub arguments_of : ToolCall → Fields × List Text
  unfolding built_in_arguments lookup has
  arguments_of call =
      if has call.name built_in
      then built_in_arguments call.name (host.schema call.name) call.args
      else external_arguments (lookup call.name policy.external) call.args

  abbrev pub is_known : Text → Bool
  is_known name = has name built_in || has name (keys policy.external)

  abbrev pub by_policy : Unicode → ToolCall → Handled
  by_policy u call =
      if not (is_known call.name)
      then refused_call false [] (
          codes "unknown tool "
          ++ (host.repr call.name ++ (codes "; this session allows: " ++ or_none policy.tools)))
      else if not (has call.name policy.tools)
      then refused_call false [] (
          call.name ++ (codes " is not allowed in this session; allowed: " ++ or_none policy.tools))
      else by_problems u call (arguments_of call)

  unfoldable pub dispatch : Unicode → ToolCall → Handled
  unfolding arguments_of decision_of run_tool strip keys
  dispatch u call = elim call.error [
    | some why ↦ refused_call false [] why
    | none ↦ by_policy u call
  ]
