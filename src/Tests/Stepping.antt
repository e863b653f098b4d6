-- ===== src/Tests/Stepping.antt =====
-- A turn that reads a file, and a run of such turns to its end (src/nare/loop.py).
use nare.Prelude.{
  ℕ, ◌≡◌, refl, false, List, [], ◌∷◌, ◌++◌, map, Option, none, some, Text, codes, same,
}
use nare.Json.Value.{null, str, Fields}
use nare.Session.Types.{Session, Message, user, text, tool_use, Usage, working}
use nare.Reads.Required.{ReadRequirement}
use nare.Session.Reopen.{last_message, append_block}
use nare.Retry.Loop.{Attempt, loop_from}
use nare.Step.Reply.{
  tool_use_stop, ToolCall, Reply, CutoffLimit, Answered, block_of, Dispatched, ran,
}
use nare.Step.Calls.{Tools, TurnEnd, with_calls}
use nare.Step.Answer.{Asked}
use nare.Step.Turn.{Format, Turn, step}
use nare.Step.Frames.{answered_ids, session_of}
use nare.Step.Answers.{with_calls-answers}
use nare.Step.Ready.{IsReady, IsClosed}
use nare.Step.Closed.{IsHonestTransport, step-IsClosed, step-IsReady}
use nare.Step.Counts.{CountsOne, step-CountsOne}
use nare.Run.Setup.{Invocation, told}
use nare.Run.Turns.{RunEnd, run_session}
use nare.Run.Total.{RunEnds, run_session-RunEnds}
use nare.Run.Closed.{IsHonestRun}
use nare.Run.Kept.{left_by, run_session-IsClosed}
use nare.Tests.Reading.{ascii_digits}
use nare.Tests.Resuming.{stopped_session}

abbrev task : List Message
task = record { role = user; content = text (codes "fix it") ∷ [] } ∷ []

abbrev beginning : Session
beginning = record stopped_session { status = working; messages = task }

abbrev small_usage : Usage
small_usage = record {
  input = 10;
  output = 2;
  cache_read = 0;
  cache_write = 0;
  cost = none;
  estimated = false;
}

abbrev reading : ToolCall
reading = record {
  id = codes "c1";
  name = codes "read";
  args = Fields.field (codes "path") (str (codes "a.py")) Fields.end;
  error = none;
}

abbrev calling : Reply
calling = record {
  content = tool_use (codes "c1") (codes "read") null ∷ [];
  tool_calls = reading ∷ [];
  usage = small_usage;
  stop_reason = tool_use_stop;
  cost = none;
}

abbrev contents : Dispatched
contents =
    ran
      (record { content = codes "x = 1"; is_error = false; groups = []; evidence = []; rules = [] })

abbrev tools : Tools
tools = record {
  offered = str (codes "read") ∷ [];
  has_ask = false;
  external = λ name. none;
  dispatch = λ n call. contents;
}

abbrev unread : ReadRequirement
unread = record { count = 0; paths = []; cited = [] }

abbrev asked : Asked
asked = record {
  schema = none;
  reads = unread;
  shown = some;
  digits = ascii_digits;
  max_corrections = 1;
  summary = false;
  question_nudge = false;
  has_ask = false;
  asks = λ said. false;
  nudge = codes "use ask";
}

abbrev format : Format
format = record {
  tokens = λ n. [];
  cost = λ u. [];
  retry = λ n r. [];
  failure = λ e. codes "failed";
  pointer = λ e. codes "pointer";
}

abbrev turn : Turn
turn = record {
  attempts = λ request n. Attempt.reply calling;
  streamed = false;
  tools = tools;
  asked = asked;
  window = 1000;
  prices = none;
  structured_output = none;
  own_rule = none;
  retry = record { retries = 2; seconds = 60_000 };
  size = λ ms. 4;
  shown = λ v. [];
  format = format;
}

turn-IsHonestTransport : IsHonestTransport turn
turn-IsHonestTransport request n reply e = let same : calling ≡ reply = cc e in rw (← same) refl

beginning-IsReady : IsReady beginning.messages
unfolding last_message
beginning-IsReady = record {
  alternates = tt;
  ends_in_user = (record { role = user; content = text (codes "fix it") ∷ [] }, refl, refl);
  answered = ((λ _. refl), tt);
}

with_calls-answers_example :
    (answered : List Answered) × (notes : List Text) × (answered_ids answered ≡ codes "c1" ∷ [])
    × ((session_of (
          with_calls
            (λ v. [])
            tools
            false
            tool_use_stop
            false
            (reading ∷ [])
            none
            beginning)).messages
        ≡ task ++ record { role = user; content = map block_of answered ++ map text notes } ∷ [])
with_calls-answers_example =
    with_calls-answers (λ v. []) tools false tool_use_stop false (reading ∷ []) none beginning

step-IsClosed_example :
    (out : TurnEnd) × (counted : Option CutoffLimit) × (step turn none none beginning
      ≡ some (out, counted))
    × IsClosed (session_of out).messages
step-IsClosed_example =
    step-IsClosed turn none none beginning turn-IsHonestTransport beginning-IsReady

abbrev session_after : Option (TurnEnd × Option CutoffLimit) → Session
session_after none = beginning
session_after (some (out, counted)) = session_of out

abbrev after_read : Session
after_read = session_after (step turn none none beginning)

step-after_read : step turn none none beginning ≡ some (TurnEnd.returned after_read none, none)
unfolding step loop_from same
step-after_read = refl

after_read-working : after_read.status ≡ working
unfolding step loop_from same
after_read-working = refl

step-IsReady_example : IsReady after_read.messages
step-IsReady_example =
    step-IsReady turn none none beginning after_read none none turn-IsHonestTransport
      beginning-IsReady step-after_read after_read-working refl

step-CountsOne_example :
    (out : TurnEnd) × (counted : Option CutoffLimit) × (step turn none none beginning
      ≡ some (out, counted))
    × CountsOne beginning out
step-CountsOne_example = step-CountsOne turn none none beginning

-- A model that calls a tool in every turn, and is allowed two.
abbrev invocation : Invocation
invocation = record {
  turn = turn;
  attempts = λ k request n. Attempt.reply calling;
  max_turns = 2;
  budget_tokens = none;
  budget_usd = none;
  context_window = none;
  backend_window = told none;
  backend_prices = none;
  max_tool_calls = none;
  max_cutoffs = none;
  inbox = none;
  digest = [];
  recorded = record { tools = codes "read" ∷ []; external_sha256 = none };
  money = λ n. [];
}

invocation-IsHonestRun : IsHonestRun invocation
invocation-IsHonestRun k n request reply e = let same : calling ≡ reply = cc e in rw (← same) refl

run_session-RunEnds_example :
    (e : RunEnd) × (run_session invocation beginning ≡ some e) × RunEnds invocation beginning e
run_session-RunEnds_example = run_session-RunEnds invocation beginning

run_session-IsClosed_example :
    (e : RunEnd) × (run_session invocation beginning ≡ some e) × IsClosed (left_by e).messages
run_session-IsClosed_example =
    run_session-IsClosed invocation beginning invocation-IsHonestRun beginning-IsReady

abbrev end_of : Option RunEnd → Session
end_of none = beginning
end_of (some e) = left_by e

-- The third turn is the summary, and the run fails for the turn limit.
runs_out :
    ◌≡◌ {A = ℕ × Option Text}
      (
        (end_of (run_session invocation beginning)).turns,
        (end_of (run_session invocation beginning)).stop_reason,
      )
      (4, some (codes "max_turns"))
unfolding run_session loop_from same append_block
runs_out = refl
