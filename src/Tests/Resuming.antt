-- ===== src/Tests/Resuming.antt =====
-- A session that stopped in the middle of a call (src/nare/session.py).
use nare.Prelude.{◌+◌, ◌≡◌, ◌≢◌, false, List, [], ◌∷◌, none, some, codes}
use nare.Json.Value.{null}
use nare.Session.Types.{
  Session, Message, user, assistant, Block, text, thinking, tool_use, Usage, error,
}
use nare.Session.Thinking.{
  drop_signed_thinking, blocks, LosesThinking, drop_signed_thinking-LosesThinking,
}
use nare.Session.Reopen.{reopen}
use nare.Session.Continue.{Alternates}
use nare.Session.Pairing.{IsAnswered, AnsweredBefore}
use nare.Session.Reopened.{reopen_well_formed}

abbrev thought_of : List Block
thought_of =
    thinking (codes "hm") (codes "sig")
    ∷ text (codes "I look")
    ∷ tool_use (codes "c1") (codes "read") null
    ∷ []

abbrev history : List Message
history =
    record { role = user; content = text (codes "fix it") ∷ [] }
    ∷ record { role = assistant; content = thought_of }
    ∷ []

abbrev unused : Usage
unused = record {
  input = 0;
  output = 0;
  cache_read = 0;
  cache_write = 0;
  cost = some 0;
  estimated = false;
}

abbrev pub stopped_session : Session
stopped_session = record {
  id = codes "s1";
  messages = history;
  usage = unused;
  status = error;
  questions = [];
  stop_reason = some (codes "killed");
  error = none;
  turns = 1;
  retries = 0;
  tool_calls = 1;
  cutoffs = 0;
  last_input = record { tokens = 0; messages = 0; chars = 0 };
  policy = none;
  output = none;
  budget = record { tokens = some 100; usd = none };
  schema_retried = false;
  schema_stated = false;
  ask_nudged = false;
  schema_corrections = 0;
  schema_correction_log = [];
  schema_errors_seen = [];
  schema_fewest_errors = none;
  interrupted_at = none;
  schema_sha256 = none;
  process_groups = [];
  evidence = [];
  bash_rules = [];
  forked_from = none;
  events = [];
}

user-assistant : user ≢ assistant
user-assistant e = absurd (cc e)

history-AnsweredBefore : AnsweredBefore history
history-AnsweredBefore = ((λ a. absurd (cc a)), tt)

reopen_well_formed_example :
    IsAnswered (reopen stopped_session (some (codes "go on"))).messages
    × (Alternates history → Alternates (reopen stopped_session (some (codes "go on"))).messages)
reopen_well_formed_example =
    reopen_well_formed stopped_session (some (codes "go on")) history-AnsweredBefore

drop_signed_thinking-LosesThinking_example :
    LosesThinking (drop_signed_thinking history).0 history
    × (blocks (drop_signed_thinking history).0 + (drop_signed_thinking history).1 ≡ blocks history)
drop_signed_thinking-LosesThinking_example = drop_signed_thinking-LosesThinking history
