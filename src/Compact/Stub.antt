-- ===== src/Compact/Stub.antt =====
-- What one block is elided to: the stubs of `compact` and `_elide_inputs` (src/nare/compact.py).
-- Blocks hold no images, so each branch on an image is the one without.
use nare.Prelude.{
  ℕ, ◌+◌, Bool, true, false, not, ◌&&◌, ◌||◌, List, [], ◌∷◌, ◌++◌, Option, none, some, Text, codes,
  same, has, starts_with, length, leb, ltb, decimal, ◌==◌, if◌then◌else◌,
}
use nare.Json.Value.{Value, str, obj, Fields, end, field}
use nare.Json.Dict.{Dict, lookup, insert}
use nare.Reads.Cited.{get_field}
use nare.Session.Types.{user, assistant, Block, tool_use, tool_result, Message}

abbrev pub prefix : Text
prefix = codes "[elided by nare:"

abbrev pub ask : Text
ask = codes "ask"

abbrev pub write : Text
write = codes "write"

abbrev pub edit : Text
edit = codes "edit"

-- `calls`: the name of each call, by its id.
unfoldable pub calls_in : Dict Text → List Block → Dict Text
calls_in calls [] = calls
calls_in calls (tool_use i n v ∷ bs) = calls_in (insert i n calls) bs
calls_in calls (b ∷ bs) = calls_in calls bs

unfoldable pub calls_of : Dict Text → List Message → Dict Text
unfolding calls_in
calls_of calls [] = calls
calls_of calls (m ∷ ms) = elim m.role [
  | user ↦ calls_of calls ms
  | assistant ↦ calls_of (calls_in calls m.content) ms
]

-- `failed`: the calls whose result is an error.
unfoldable pub failed_in : List Block → List Text
failed_in [] = []
failed_in (tool_result i c true ∷ bs) = i ∷ failed_in bs
failed_in (b ∷ bs) = failed_in bs

unfoldable pub failed_of : List Message → List Text
unfolding failed_in
failed_of [] = []
failed_of (m ∷ ms) = elim m.role [
  | user ↦ failed_in m.content ++ failed_of ms
  | assistant ↦ failed_of ms
]

abbrev pub is_ask : Option Text → Bool
is_ask none = false
is_ask (some name) = same name ask

unfoldable pub result_stub : ℕ → ℕ → Text
result_stub chars turn =
    prefix
    ++ (codes " "
        ++ (decimal chars
            ++ (codes " chars of output from turn "
                ++ (decimal turn ++ codes ". Rerun the tool if you need it.]"))))

-- A tool result's stub, where it has one that is shorter.
unfoldable pub elided_result : Dict Text → ℕ → Block → Option Block
unfolding result_stub
elided_result calls turn (tool_result i content false) =
    if is_ask (lookup i calls) || starts_with prefix content
    then none
    else if leb (length content) (length (result_stub (length content) turn))
    then none
    else some (tool_result i (result_stub (length content) turn) false)
elided_result calls turn _ = none

-- `_INPUT_STUBS`: what the stub of a field of a call says.
unfoldable pub did : Text → Text → ℕ → Text → Option Text
did name key chars path =
    if same name write && same key (codes "content")
    then some (codes "wrote " ++ (decimal chars ++ (codes " chars to " ++ path)))
    else if same name edit && same key (codes "old")
    then some (codes "replaced " ++ (decimal chars ++ (codes " chars in " ++ path)))
    else if same name edit && same key (codes "new")
    then some (codes "wrote " ++ (decimal chars ++ (codes " chars into " ++ path)))
    else none

unfoldable pub input_stub : Text → ℕ → Text
input_stub done turn =
    prefix
    ++ (codes " "
        ++ (done
            ++ (codes " at turn " ++ (decimal turn ++ codes ". Read the file if you need it.]"))))

-- The value that a field of a call is elided to, if it is: `pending`.
unfoldable pub pending : Text → ℕ → Text → Text → Value → Option Value
unfolding did input_stub
pending name turn path key (str value) = elim (did name key (length value) path) [
  | none ↦ none
  | some done ↦
      if starts_with prefix value
      then none
      else if ltb (length (input_stub done turn)) (length value)
      then some (str (input_stub done turn))
      else none
]
pending name turn path key _ = none

-- The fields after `args.update(pending)`, and how many are new.
unfoldable pub updated : Text → ℕ → Text → Fields → Fields × ℕ
unfolding pending
updated name turn path end = (end, 0)
updated name turn path (field key value fs) =
    let (rest, count) = updated name turn path fs in
    elim (pending name turn path key value) [
      | none ↦ (field key value rest, count)
      | some stub ↦ (field key stub rest, count + 1)
    ]

-- `shown` is Python's `str` of a value.
unfoldable pub path_of : (Value → Text) → Fields → Text
path_of shown args = elim (get_field (codes "path") args) [ [] ↦ [] | v ∷ vs ↦ shown v ]

-- A call's input with its long fields elided, where it has any; a failed call keeps its input.
unfoldable pub elided_input : (Value → Text) → List Text → ℕ → Block → Option Block
unfolding updated path_of
elided_input shown failed turn (tool_use i name (obj args)) =
    if has i failed || not (same name write || same name edit)
    then none
    else let (after, count) = updated name turn (path_of shown args) args in
      if count == 0 then none else some (tool_use i name (obj after))
elided_input shown failed turn _ = none
