-- ===== src/Step/Reply.antt =====
-- What a model replies and what a turn is given: `ToolCall`, `Reply` (src/nare/transport/__init__.py),
-- `ToolCallLimit`, `CutoffLimit` and the texts of src/nare/loop.py, `tool_result` and
-- `questions_from` (src/nare/tools.py).
use nare.Prelude.{
  ℕ, Bool, true, false, List, [], ◌∷◌, ◌++◌, Option, none, some, Text, codes, same, all, decimal,
  if◌then◌else◌,
}
use nare.Json.Value.{Value, str, arr, obj, items_list, Fields}
use nare.Session.Types.{Block, tool_result, Usage, Evidence, Ruled}
use nare.Reads.Cited.{get_field}
use nare.Reads.Required.{is_space}
use nare.Compact.Stub.{ask}

pub data StopReason : Type 0 where
  end_turn tool_use_stop max_tokens stop_sequence refusal repetition : StopReason

abbrev pub reason_text : StopReason → Text
reason_text end_turn = codes "end_turn"
reason_text tool_use_stop = codes "tool_use"
reason_text max_tokens = codes "max_tokens"
reason_text stop_sequence = codes "stop_sequence"
reason_text refusal = codes "refusal"
reason_text repetition = codes "repetition"

pub record ToolCall : Type 0 where
  pub id : Text
  pub name : Text
  pub args : Fields
  pub error : Option Text

pub record Reply : Type 0 where
  pub content : List Block
  pub tool_calls : List ToolCall
  pub usage : Usage
  pub stop_reason : StopReason
  pub cost : Option ℕ

-- `CUTOFF_REASONS`.
abbrev pub is_cutoff : StopReason → Bool
is_cutoff max_tokens = true
is_cutoff repetition = true
is_cutoff _ = false

-- `_UNFINISHED.get`.
abbrev pub unfinished_text : StopReason → Option Text
unfinished_text max_tokens = some (codes "the model's turn was cut off at max_tokens")
unfinished_text repetition = some (codes "the model's reply repeated one span until it was cut off")
unfinished_text refusal = some (codes "the model refused to continue")
unfinished_text _ = none

-- `_CUTOFF_GUIDANCE`, which is read at a cut-off reason only.
abbrev pub guidance : StopReason → Text
guidance repetition =
    codes "Your last reply repeated the same text until it was cut off. Reason briefly, write each "
    ++ codes "record once, and return the complete answer."
guidance _ =
    codes "Your last reply was cut off at the output limit before it finished. Reason briefly, and "
    ++ codes "return the complete answer."

abbrev pub calls_not_run : Text
calls_not_run = codes " Its tool calls did not run."

-- The limits of one invocation, which its turns count against.
pub record ToolCallLimit : Type 0 where
  pub limit : ℕ
  pub used : ℕ
  pub refused_turns : ℕ

pub record CutoffLimit : Type 0 where
  pub limit : ℕ
  pub used : ℕ

unfoldable pub limit_message : ToolCallLimit → Text
limit_message l =
    codes "not run: the tool call limit for this run ("
    ++ (decimal l.limit
        ++ (codes ") is reached. Tools are disabled: answer now with what you have, and say what "
            ++ codes "remains undone."))

abbrev pub ask_not_alone : Text
ask_not_alone =
    codes "ask was not recorded: call ask on its own, before making any change. "
    ++ codes "The other calls in this turn ran."

abbrev pub ask_not_delivered : Text
ask_not_delivered =
    codes "ask was not recorded: another ask in this turn failed, so nothing was "
    ++ codes "sent. Call ask again, once, with all your questions."

abbrev pub summary_refused : Text
summary_refused = codes "Tools are disabled for the turn-limit summary: this call was not run."

-- A call's result, as it is kept until the turn ends: what it says and whether it is an error.
pub record Answered : Type 0 where
  pub id : Text
  pub content : Text
  pub is_error : Bool

abbrev pub failed_with : ToolCall → Text → Answered
failed_with call said = record { id = call.id; content = said; is_error = true }

-- The block that the transcript holds.
abbrev pub block_of : Answered → Block
block_of a = tool_result a.id a.content a.is_error

-- How a dispatched call ends: with a result and what it leaves the session, or with the turn
-- cancelled or broken off by an exception, once a rule may have decided the call.
pub record Ran : Type 0 where
  pub content : Text
  pub is_error : Bool
  pub groups : List ℕ
  pub evidence : List Evidence
  pub rules : List Ruled

pub data Dispatched : Type 0 where
  ran : Ran → Dispatched
  cancelled : List Ruled → Dispatched
  broke : List Ruled → Text → Dispatched

-- The strings of a value that `questions` may hold, by Python's `str`, blanks left out.
module _ (shown : Value → Text) where
  unfoldable pub questions_in : List Value → List Text
  questions_in [] = []
  questions_in (v ∷ vs) =
      if all is_space (shown v) then questions_in vs else shown v ∷ questions_in vs

  -- Iterating an object gives its keys; another value is not iterable.
  abbrev pub keys_of : Fields → List Value
  keys_of Fields.end = []
  keys_of (Fields.field k v fs) = str k ∷ keys_of fs

  unfoldable pub questions_of : List Value → List Text
  unfolding questions_in
  questions_of [] = []
  questions_of (str t ∷ vs) = questions_in (str t ∷ [])
  questions_of (arr items ∷ vs) = questions_in (items_list items)
  questions_of (obj fields ∷ vs) = questions_in (keys_of fields)
  questions_of (_ ∷ vs) = []

  unfoldable pub questions_from : List ToolCall → List Text
  unfolding questions_of
  questions_from [] = []
  questions_from (c ∷ cs) =
      if same c.name ask
      then questions_of (get_field (codes "questions") c.args) ++ questions_from cs
      else questions_from cs
