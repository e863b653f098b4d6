-- ===== src/Step/Calls.antt =====
-- The calls of a turn: the second half of `step` and `result_event` (src/nare/loop.py).
use nare.Prelude.{
  ℕ, ◌+◌, Bool, true, false, not, ◌&&◌, ◌||◌, List, [], ◌∷◌, ◌++◌, map, Option, none, some, Text,
  codes, same, all, any, drop, length, leb, if◌then◌else◌, join,
}
use nare.Json.Value.{Value}
use nare.Session.Types.{Session, user, Evidence, Ruled, error, blocked}
use nare.Session.Reopen.{append_user_text}
use nare.Compact.Stub.{ask}
use nare.Loop.Hold.{add_event, progress, error_kind}
use nare.Step.Reply.{
  StopReason, ToolCall, ToolCallLimit, limit_message, ask_not_alone, ask_not_delivered,
  summary_refused, Answered, failed_with, block_of, Ran, Dispatched, ran, cancelled, broke,
  unfinished_text, guidance, calls_not_run, questions_from,
}

-- The tools of a turn: the schemas offered, whether `ask` is allowed, the word for the source of a
-- tool that is not built in, and how the call that is the n-th of the session ends. `external` is
-- `none` for a built-in tool.
pub record Tools : Type 0 where
  pub offered : List Value
  pub has_ask : Bool
  pub external : Text → Option Text
  pub dispatch : ℕ → ToolCall → Dispatched

-- The loop over the calls on its way.
pub record Calling : Type 0 where
  pub session : Session
  pub limit : Option ToolCallLimit
  pub results : List Answered
  pub refused : Bool

-- How the loop was left: past the last call, or by a cancellation or an exception.
pub data Left : Type 0 where
  went_on interrupted : Left
  died : Text → Left

abbrev pub is_exhausted : ToolCallLimit → Bool
is_exhausted l = leb l.limit l.used

abbrev pub over_limit : Option ToolCallLimit → Option Text
over_limit none = none
over_limit (some l) = if is_exhausted l then some (limit_message l) else none

-- What a call that is not run is told, and whether the limit refused it.
unfoldable pub refusal_of :
    Bool → Bool → Bool → Option ToolCallLimit → ToolCall → Option (Text × Bool)
refusal_of summary only_asks has_ask limit call =
    if summary
    then some (summary_refused, false)
    else if same call.name ask && (not only_asks && has_ask)
    then some (ask_not_alone, false)
    else elim (over_limit limit) [ none ↦ none | some said ↦ some (said, true) ]

abbrev pub count_use : Option ToolCallLimit → Option ToolCallLimit
count_use none = none
count_use (some l) = some (record l { used = l.used + 1 })

-- Counted as it starts.
unfoldable pub started : Calling → Calling
started c = record c {
  session = record c.session { tool_calls = c.session.tool_calls + 1 };
  limit = count_use c.limit;
}

unfoldable pub note_evidence : List Evidence → Session → Session
unfolding add_event
note_evidence [] s = s
note_evidence (e ∷ es) s =
    note_evidence es (record (add_event progress (e.tool ++ (codes " evidence: " ++ e.path)) s) {
      evidence = s.evidence ++ e ∷ [];
    })

unfoldable pub note_rules : List Ruled → Session → Session
unfolding add_event
note_rules [] s = s
note_rules (r ∷ rs) s =
    note_rules rs
      (record (add_event progress
        (codes "bash " ++ (r.effect ++ (codes " by rule: " ++ join (codes ", ") r.patterns))) s) {
          bash_rules = s.bash_rules ++ r ∷ [];
        })

-- What a call that ran leaves the session, and its result.
unfoldable pub kept_run : ToolCall → Ran → Calling → Calling
unfolding note_evidence note_rules
kept_run call r c =
    let noted = note_evidence r.evidence (note_rules r.rules c.session) in
    record c {
      session = record noted { process_groups = noted.process_groups ++ r.groups };
      results =
          c.results ++ record { id = call.id; content = r.content; is_error = r.is_error } ∷ [];
    }

-- A call that does not end leaves the rules that decided it.
unfoldable pub kept_rules : List Ruled → Calling → Calling
unfolding note_rules
kept_rules rules c = record c { session = note_rules rules c.session }

unfoldable pub kept_refusal : ToolCall → Text → Bool → Calling → Calling
kept_refusal call said at_limit c = record c {
  results = c.results ++ failed_with call said ∷ [];
  refused = c.refused || at_limit;
}

module _ (tools : Tools) (summary only_asks : Bool) where
  unfoldable pub calls_from : Calling → List ToolCall → Calling × Left
  unfolding refusal_of started kept_run kept_rules kept_refusal
  calls_from c [] = (c, went_on)
  calls_from c (call ∷ calls) = elim (refusal_of summary only_asks tools.has_ask c.limit call) [
    | some (said, at_limit) ↦ calls_from (kept_refusal call said at_limit c) calls
    | none ↦ elim (tools.dispatch (started c).session.tool_calls call) [
      | ran r ↦ calls_from (kept_run call r (started c)) calls
      | cancelled rules ↦ (kept_rules rules (started c), interrupted)
      | broke rules why ↦ (kept_rules rules (started c), died why)
    ]
  ]

abbrev pub count_refused : Bool → Option ToolCallLimit → Option ToolCallLimit
count_refused refused none = none
count_refused false (some l) = some l
count_refused true (some l) = some (record l { refused_turns = l.refused_turns + 1 })

-- What a call that got no result is told.
abbrev pub unanswered_text : Left → Text
unanswered_text interrupted = codes "interrupted by the user"
unanswered_text _ = codes "tool dispatch failed"

-- A turn that was not finished runs none of its calls.
unfoldable pub run_calls :
    Tools
    → Bool
    → Bool
    → Option Text
    → Session
    → Option ToolCallLimit
    → List ToolCall
    → Calling × Left
unfolding calls_from
run_calls tools summary only_asks (some why) s limit calls = (
  record {
    session = s;
    limit = limit;
    results = map (λ call. failed_with call (codes "not run: " ++ why)) calls;
    refused = false;
  },
  went_on,
)
run_calls tools summary only_asks none s limit calls =
    let (c, left) =
      calls_from tools summary only_asks
        (record { session = s; limit = limit; results = []; refused = false }) calls in
    elim left [
      | went_on ↦ (record c { limit = count_refused c.refused c.limit }, went_on)
      | interrupted ↦ (c, interrupted)
      | died why ↦ (c, died why)
    ]

-- An ask that succeeded beside one that failed was not delivered.
abbrev pub undelivered : Answered → Answered
undelivered a =
    if a.is_error then a else record { id = a.id; content = ask_not_delivered; is_error = true }

abbrev pub is_unfinished : Option Text → Bool
is_unfinished none = false
is_unfinished (some why) = true

-- The result of every call, in order.
unfoldable pub complete : List ToolCall → Bool → Bool → Left → List Answered → List Answered
complete calls only_asks unfinished left results =
    let answered =
      results
      ++ map (λ call. failed_with call (unanswered_text left)) (drop (length results) calls) in
    if only_asks && (any (λ a. a.is_error) answered && not unfinished)
    then map undelivered answered
    else answered

abbrev pub outcome_text : Bool → Text
outcome_text true = codes "error"
outcome_text false = codes "ok"

unfoldable pub result_text : Tools → ToolCall → Answered → Text
result_text tools call a = elim (tools.external call.name) [
  | some source ↦ source ++ (codes " result: " ++ call.name)
  | none ↦ call.name ++ (codes " result: " ++ outcome_text a.is_error)
]

unfoldable pub result_events : Tools → List ToolCall → List Answered → Session → Session
unfolding add_event result_text
result_events tools [] answered s = s
result_events tools (c ∷ cs) [] s = s
result_events tools (c ∷ cs) (a ∷ as_) s =
    result_events tools cs as_ (add_event progress (result_text tools c a) s)

unfoldable pub call_events : List ToolCall → Session → Session
unfolding add_event
call_events [] s = s
call_events (c ∷ cs) s = call_events cs (add_event (codes "tool_use") c.name s)

abbrev pub asks_only : List ToolCall → Bool
asks_only calls = all (λ call. same call.name ask) calls

-- How a turn ends: it returns, or it is left by an exception or a cancellation with what it had
-- changed.
pub data TurnEnd : Type 0 where
  returned : Session → Option ToolCallLimit → TurnEnd
  raised : Session → Option ToolCallLimit → Text → TurnEnd
  stopped : Session → Option ToolCallLimit → TurnEnd

-- The last lines of `step`.
unfoldable pub after_calls :
    (Value → Text) → StopReason → Bool → Bool → Bool → List ToolCall → Session → Session
unfolding append_user_text add_event questions_from
after_calls shown reason corrected only_asks failed calls s = elim (unfinished_text reason) [
  | some why ↦
      if corrected
      then append_user_text s (guidance reason ++ calls_not_run)
      else add_event error_kind why (record s { status = error; error = some why })
  | none ↦
      if only_asks && not failed
      then record s { status = blocked; questions = questions_from shown calls }
      else s
]

abbrev pub leave : Left → Option ToolCallLimit → Session → Session → TurnEnd
leave went_on limit s after = returned after limit
leave interrupted limit s after = stopped s limit
leave (died why) limit s after = raised s limit why

-- The part of a turn that has calls.
unfoldable pub with_calls :
    (Value → Text)
    → Tools
    → Bool
    → StopReason
    → Bool
    → List ToolCall
    → Option ToolCallLimit
    → Session
    → TurnEnd
unfolding run_calls complete result_events call_events after_calls
with_calls shown tools summary reason corrected calls limit s =
    let only_asks = asks_only calls in
    let (c, left) =
      run_calls tools summary only_asks (unfinished_text reason) (call_events calls s) limit
        calls in
    let failed =
      any (λ a. a.is_error)
        (c.results
          ++ map (λ call. failed_with call (unanswered_text left))
              (drop (length c.results) calls)) in
    let answered =
      complete calls only_asks (is_unfinished (unfinished_text reason)) left c.results in
    let held = record c.session {
      messages = c.session.messages ++ record { role = user; content = map block_of answered } ∷ [];
    } in
    let told = result_events tools calls answered held in
    leave left c.limit told (after_calls shown reason corrected only_asks failed calls told)
