-- ===== src/Session/Reopen.antt =====
-- Continuing a finished session (src/nare/session.py): `append_user_text`, `unanswered`, `fork`
-- and `reopen`.
use nare.Prelude.{Bool, true, false, List, [], ◌∷◌, ◌++◌, Option, none, some, Text, codes, keep}
use nare.Session.Types.{
  user, assistant, Block, text, tool_use, tool_result, Message, Session, working,
}

-- The last message, and those before it.
unfoldable pub last_message : List Message → Option Message
last_message [] = none
last_message (m ∷ []) = some m
last_message (m ∷ n ∷ ns) = last_message (n ∷ ns)

-- Add a block to a trailing user message, or else follow it with a user message of its own.
unfoldable pub append_block : Block → List Message → List Message
append_block b [] = record { role = user; content = b ∷ [] } ∷ []
append_block b (m ∷ []) = elim m.role [
  | user ↦ record m { content = m.content ++ b ∷ [] } ∷ []
  | assistant ↦ m ∷ record { role = user; content = b ∷ [] } ∷ []
]
append_block b (m ∷ n ∷ ns) = m ∷ append_block b (n ∷ ns)

unfoldable pub append_user_text : Session → Text → Session
append_user_text s t = record s { messages = append_block (text t) s.messages }

unfoldable pub is_call : Block → Bool
is_call (tool_use i n v) = true
is_call _ = false

unfoldable pub unanswered : List Message → List Block
unfolding last_message is_call
unanswered ms = elim (last_message ms) [
  | none ↦ []
  | some m ↦ elim m.role [ user ↦ [] | assistant ↦ keep is_call m.content ]
]

abbrev pub stopped : Text
stopped = codes "no result: the run stopped before this call returned"

-- `call.get("id")`.
unfoldable pub call_id : Block → Text
call_id (tool_use i n v) = i
call_id _ = []

unfoldable pub answers : List Block → List Block
unfolding call_id
answers [] = []
answers (call ∷ calls) = tool_result (call_id call) stopped true ∷ answers calls

unfoldable pub answer_calls : List Block → List Message → List Message
answer_calls [] ms = ms
answer_calls (c ∷ cs) ms = ms ++ record { role = user; content = answers (c ∷ cs) } ∷ []

-- The caller's text, if it has any.
unfoldable pub add_text : Option Text → Session → Session
unfolding append_user_text
add_text none s = s
add_text (some []) s = s
add_text (some (c ∷ cs)) s = append_user_text s (c ∷ cs)

unfoldable pub reopen : Session → Option Text → Session
unfolding unanswered answer_calls add_text
reopen s t =
    let answered = record s { messages = answer_calls (unanswered s.messages) s.messages } in
    record (add_text t answered) {
      status = working;
      questions = [];
      schema_retried = false;
      schema_corrections = 0;
      schema_correction_log = [];
      schema_errors_seen = [];
      schema_fewest_errors = none;
      error = none;
      stop_reason = none;
      interrupted_at = none;
    }

-- `fork`: `new_id` is the fresh id, `source` the resolved path the session was read from.
unfoldable pub fork : Session → Text → Option Text → Session
fork s new_id source = record s {
  id = new_id;
  events = [];
  process_groups = [];
  forked_from = some (record { session_id = s.id; turn = s.turns; path = source });
}
