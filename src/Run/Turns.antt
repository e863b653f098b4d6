-- ===== src/Run/Turns.antt =====
-- The turns of a run: the loop of `_run` (src/nare/loop.py). What a streamed turn shows of a reply
-- while it arrives is no part of the session and is left out.
use nare.Prelude.{
  ℕ, zero, suc, ◌+◌, ◌-◌, Bool, true, false, not, List, [], ◌∷◌, ◌++◌, Option, none, some, Text,
  codes, decimal, leb, ltb, if◌then◌else◌,
}
use nare.Session.Types.{Session, Status, blocked, done, error}
use nare.Session.Reopen.{append_user_text}
use nare.Loop.Hold.{add_event, progress, error_kind}
use nare.Loop.Budget.{check_budget, Prices}
use nare.Step.Reply.{ToolCallLimit, CutoffLimit}
use nare.Step.Calls.{TurnEnd}
use nare.Step.Turn.{is_nil, Turn, step}
use nare.Run.Setup.{
  Invocation, Flow, drain, Prepared, refused_budget, refused_window, over, prepared, is_working,
  set_up,
}

unfoldable pub hear : List Text → Session → Session
unfolding append_user_text add_event
hear [] s = s
hear (t ∷ ts) s = hear ts (add_event progress t (append_user_text s t))

-- What a person typed while the last turn ran.
unfoldable pub read_inbox : Option (ℕ → List Text) → Flow → Flow
unfolding hear drain
read_inbox none f = f
read_inbox (some inbox) f = drain (record f { session = hear (inbox f.begun) f.session })

abbrev pub summary_text : Text
summary_text =
    codes "Turn limit reached. Tools are disabled. Summarise what was done, "
    ++ codes "what remains, and any processes left running."

abbrev pub warning_text : ℕ → Text
warning_text remaining = decimal remaining ++ codes " turns left: wrap up and summarise."

-- What a turn is told of the turns that remain.
unfoldable pub announced : Bool → Bool → ℕ → Session → Session
unfolding append_user_text add_event
announced has_tools true remaining s = append_user_text s summary_text
announced has_tools false remaining s =
    if leb remaining 5
    then add_event progress (warning_text remaining)
        (if has_tools then append_user_text s (warning_text remaining) else s)
    else s

abbrev pub is_settled : Status → Bool
is_settled done = true
is_settled blocked = true
is_settled _ = false

abbrev pub kept_calling : Option ToolCallLimit → Option ℕ
kept_calling none = none
kept_calling (some l) = if ltb 1 l.refused_turns then some l.limit else none

abbrev pub tool_calls_stop : Text
tool_calls_stop = codes "tool_calls"

abbrev pub stop_calling : Option ℕ → Session → Session
stop_calling none s = s
stop_calling (some limit) s =
    let said =
      codes "Tool call limit reached ("
      ++ (decimal limit
          ++ (codes " per run), and the model kept calling tools. Resume for up to "
              ++ (decimal limit ++ codes " more."))) in
    add_event error_kind said
      (record s { status = error; stop_reason = some tool_calls_stop; error = some said })

-- A turn that returned: the budget, and a model told once to answer that called again.
unfoldable pub after_turn : (ℕ → Text) → Option ToolCallLimit → Session → Session
unfolding check_budget add_event
after_turn money limit s =
    let spent = if is_settled s.status then s else (check_budget money s).1 in
    if is_working spent.status then stop_calling (kept_calling limit) spent else spent

-- A turn that raised.
unfoldable pub run_failed : Text → Session → Session
unfolding add_event
run_failed why s =
    add_event error_kind why (record s { status = error; stop_reason = none; error = some why })

abbrev pub max_turns_stop : Text
max_turns_stop = codes "max_turns"

-- `finally`.
unfoldable pub closed_by : Bool → ℕ → Session → Session
unfolding add_event
closed_by false max_turns s = s
closed_by true max_turns s =
    let said =
      codes "Turn limit reached ("
      ++ (decimal max_turns
          ++ (codes " per run). Type `continue` for up to "
              ++ (decimal max_turns ++ codes " more."))) in
    add_event error_kind said
      (record s { status = error; stop_reason = some max_turns_stop; error = some said })

-- The flow after a turn, and whether the run was interrupted.
unfoldable pub turn_ended : Invocation → Bool → Flow → Option CutoffLimit → TurnEnd → Flow × Bool
unfolding after_turn run_failed closed_by drain
turn_ended i summary f counted (TurnEnd.returned t limit) = (
  drain (record f {
    session = closed_by summary i.max_turns (after_turn i.money limit t);
    limit = limit;
    cutoffs = counted;
  }),
  false,
)
turn_ended i summary f counted (TurnEnd.raised t limit why) = (
  drain (record f {
    session = closed_by summary i.max_turns (run_failed why t);
    limit = limit;
    cutoffs = counted;
  }),
  false,
)
turn_ended i summary f counted (TurnEnd.stopped t limit) =
    (record f { session = closed_by summary i.max_turns t; limit = limit; cutoffs = counted }, true)

abbrev pub after_step :
    Invocation → Bool → Flow → Option (TurnEnd × Option CutoffLimit) → Option (Flow × Bool)
after_step i summary f none = none
after_step i summary f (some (out, counted)) = some (turn_ended i summary f counted out)

-- An interrupted run makes no further pass.
abbrev pub next_pass : (Flow → Option (Flow × Bool)) → Option (Flow × Bool) → Option (Flow × Bool)
next_pass again none = none
next_pass again (some (g, true)) = some (g, true)
next_pass again (some (g, false)) = again g

module _ (i : Invocation) (window : ℕ) (prices : Option Prices) (first : ℕ) where
  -- The arguments of the turn.
  abbrev pub turn_of : ℕ → Bool → Turn
  turn_of n summary = record i.turn {
    attempts = i.attempts n;
    window = window;
    prices = prices;
    asked = record i.turn.asked { summary = summary };
  }

  unfoldable pub take_turn : Flow → Option (Flow × Bool)
  unfolding announced step turn_ended drain
  take_turn f =
      let used = f.session.turns - first in
      let summary = leb i.max_turns used in
      let told : Flow = record f {
        session =
            announced (not (is_nil i.turn.tools.offered)) summary (i.max_turns - used) f.session;
        begun = f.begun + 1;
      } in
      let sent = if i.turn.streamed then drain told else told in
      after_step i summary sent
        (step (turn_of f.begun summary) sent.limit sent.cutoffs sent.session)

  abbrev pub unless_spent_now : Flow → Bool × Session → Option (Flow × Bool)
  unless_spent_now f (true, s) = some (drain (record f { session = s }), false)
  unless_spent_now f (false, s) = take_turn f

  unfoldable pub one_turn : Flow → Option (Flow × Bool)
  unfolding read_inbox check_budget take_turn drain
  one_turn f =
      let heard = read_inbox i.inbox f in
      unless_spent_now heard (check_budget i.money heard.session)

  -- `while session.status == "working"`, on fuel. `none` says that the fuel ran out.
  unfoldable pub run_from : ℕ → Flow → Option (Flow × Bool)
  unfolding one_turn
  run_from zero f = none
  run_from (suc fuel) f = elim (is_working f.session.status) [
    | false ↦ some (f, false)
    | true ↦ next_pass (λ g. run_from fuel g) (one_turn f)
  ]

-- How a run ends: refused as the caller's error, finished, or interrupted by a cancellation.
pub data RunEnd : Type 0 where
  rejected_call : Session → RunEnd
  finished : Flow → RunEnd
  halted : Flow → RunEnd

abbrev pub run_end : Option (Flow × Bool) → Option RunEnd
run_end none = none
run_end (some (f, false)) = some (finished f)
run_end (some (f, true)) = some (halted f)

-- One pass for each turn allowed, one for the summary, one to see that the run is over.
abbrev pub passes : ℕ → ℕ
passes max_turns = max_turns + 2

abbrev pub after_set_up : Invocation → Prepared → Option RunEnd
after_set_up i (refused_budget e s) = some (rejected_call s)
after_set_up i (refused_window s) = some (rejected_call s)
after_set_up i (over f) = some (finished f)
after_set_up i (prepared window prices f) =
    run_end (run_from i window prices f.session.turns (passes i.max_turns) f)

-- `_run`.
unfoldable pub run_session : Invocation → Session → Option RunEnd
unfolding set_up run_from
run_session i s = after_set_up i (set_up i s)
