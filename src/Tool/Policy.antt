-- ===== src/Tool/Policy.antt =====
-- What a call is run under: `Policy`, the approver, and what `dispatch` reaches (src/nare/tools.py).
use nare.Prelude.{
  ℕ, Bool, true, List, [], ◌∷◌, ◌++◌, Option, none, some, Text, codes, join, all, if◌then◌else◌,
}
use nare.Json.Value.{Value, Fields}
use nare.Json.Dict.{Dict}
use nare.Session.Types.{Evidence, Ruled}
use nare.Reads.Cited.{get_field}
use nare.Reads.Required.{is_space}
use nare.Rules.Decide.{sorted}
use nare.Step.Reply.{Dispatched, ran}
use nare.Tool.Arguments.{InputSchema}

-- What an approver answers.
pub data Approval : Type 0 where
  approves declines withdrawn : Approval
  gives_reason : Text → Approval
  approver_raises : Text → Approval

-- How a tool's own code ends: with its output and whether it failed, an exception or a cancellation.
pub record Output : Type 0 where
  pub content : Text
  pub failed : Bool
  pub groups : List ℕ
  pub evidence : List Evidence

pub data ToolEnd : Type 0 where
  gave : Output → ToolEnd
  tool_raised : Text → ToolEnd
  tool_cancelled : ToolEnd

pub record ExternalTool : Type 0 where
  pub arguments : Option (Fields → Fields × List Text)
  pub call : Fields → ToolEnd

pub record Policy : Type 0 where
  pub tools : List Text
  pub root : Option Text
  pub external : Dict ExternalTool
  pub image_input : Bool
  pub image_model : Text
  pub bash_credentials : Bool
  pub bash_allow : List Text
  pub bash_deny : List Text
  pub bash_sandbox : Bool

-- What may be had of a path or of a confinement: a value, or the words of the refusal.
pub data Given (A : Type 0) : Type 0 where
  given : A → Given A
  not_given : Text → Given A

-- What a call reaches outside the policy: the approver, the built-in tools with their input schemas,
-- the sandbox (`none` where it is available), paths resolved under the root, the working directory, and
-- Python's `str` and `repr`. `cut` shortens what an external tool returns.
pub record Host : Type 0 where
  pub approve : Text → Fields → Approval
  pub schema : Text → InputSchema
  pub run : Text → Fields → ToolEnd
  pub sandbox_missing : Option Text
  pub resolve : Text → Given Text
  pub confinement : Given Value
  pub root_path : Text
  pub cwd : Text
  pub shown : Value → Text
  pub repr : Text → Text
  pub cut : Text → Text

-- The names of the built-in tools, and of those that read the tree or take a path.
abbrev pub built_in : List Text
built_in =
    codes "read"
    ∷ codes "list"
    ∷ codes "search"
    ∷ codes "write"
    ∷ codes "edit"
    ∷ codes "bash"
    ∷ codes "ask"
    ∷ []

abbrev pub navigation : List Text
navigation = codes "list" ∷ codes "search" ∷ []

abbrev pub evidence_tools : List Text
evidence_tools = codes "read" ∷ navigation

abbrev pub path_tools : List Text
path_tools = codes "read" ∷ codes "write" ∷ codes "edit" ∷ codes "list" ∷ codes "search" ∷ []

abbrev pub bash : Text
bash = codes "bash"

-- What became of a call: whether the approver was asked, what the tool was started with, if it was, and
-- the result.
pub record Handled : Type 0 where
  pub asked : Bool
  pub started : Option Fields
  pub result : Dispatched

abbrev pub refused_call : Bool → List Ruled → Text → Handled
refused_call asked rules said = record {
  asked = asked;
  started = none;
  result =
      ran (record { content = said; is_error = true; groups = []; evidence = []; rules = rules });
}

abbrev pub or_none : List Text → Text
or_none [] = codes "none"
or_none (t ∷ ts) = join (codes ", ") (sorted (t ∷ ts))

unfoldable pub after_spaces : Text → Text
after_spaces [] = []
after_spaces (c ∷ cs) = let rest = after_spaces cs in if is_space c then rest else c ∷ cs

unfoldable pub before_spaces : Text → Text
before_spaces [] = []
before_spaces (c ∷ cs) =
    let rest = before_spaces cs in if all is_space (c ∷ cs) then [] else c ∷ rest

-- `str.strip`.
unfoldable pub strip : Text → Text
unfolding after_spaces before_spaces
strip t = before_spaces (after_spaces t)

abbrev pub with_reason : Text → Text
with_reason [] = []
with_reason (c ∷ cs) = codes ": " ++ (c ∷ cs)

abbrev pub first_of : List Value → Option Value
first_of [] = none
first_of (v ∷ vs) = some v

-- `str(args.get(key, ""))`.
abbrev pub str_or_empty : (Value → Text) → Option Value → Text
str_or_empty shown none = []
str_or_empty shown (some v) = shown v

abbrev pub command_of : Host → Fields → Text
command_of host args = str_or_empty host.shown (first_of (get_field (codes "command") args))
