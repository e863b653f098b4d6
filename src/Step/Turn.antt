-- ===== src/Step/Turn.antt =====
-- A whole turn: `step` and `_constrained` (src/nare/loop.py). Blocks hold no images, so nothing is
-- withheld from a model that reads none.
use nare.Prelude.{
  ℕ, ◌+◌, ◌*◌, Bool, true, false, not, ◌&&◌, ◌||◌, List, [], ◌∷◌, ◌++◌, Option, none, some, Text,
  codes, join, decimal, length, leb, ltb, ◌==◌, if◌then◌else◌,
}
use nare.Json.Value.{Value}
use nare.Session.Types.{Session, Message, assistant, Block, text, thinking, Usage, add_usage}
use nare.Compact.Elide.{context_chars, estimate, CompactionReport, compact}
use nare.Retry.{Raised}
use nare.Retry.Loop.{
  Classify, RetryPolicy, Attempt, Retried, Progress, Outcome, returned, reraised, with_retries,
}
use nare.Loop.Hold.{add_event, progress}
use nare.Loop.Budget.{Prices, turn_usage}
use nare.Loop.Nudge.{texts_of}
use nare.Reads.Pointer.{PointerError, Checked, fine, bad}
use nare.Step.Reply.{Reply, reason_text, is_cutoff, ToolCallLimit, CutoffLimit}
use nare.Step.Calls.{Tools, TurnEnd, with_calls}
use nare.Step.Answer.{Schema, kept_output, Asked, fail, without_calls}

-- How a request is sent: as it is, with its tools shown and not to be called, or bound to the schema
-- with its tools withheld.
pub data Mode : Type 0 where
  plain tools_kept constrained : Mode

pub record Request : Type 0 where
  pub messages : List Message
  pub tools : List Value
  pub mode : Mode

-- How an estimate in quarters of a token is written, a usage with its cost and a retry (less the words
-- of its failure), and how an exception is: a failed request, and a pointer that is not well formed.
pub record Format : Type 0 where
  pub tokens : ℕ → Text
  pub cost : Usage → Text
  pub retry : ℕ → Retried → Text
  pub failure : List Raised → Text
  pub pointer : PointerError → Text

-- The arguments of `step`. `attempts` says how each call of the transport ends, `size` is the length
-- of messages as JSON, `shown` is Python's `str`.
pub record Turn : Type 0 where
  pub attempts : Request → ℕ → Attempt Reply
  pub streamed : Bool
  pub tools : Tools
  pub asked : Asked
  pub window : ℕ
  pub prices : Option Prices
  pub structured_output : Option Text
  pub own_rule : Option Classify
  pub retry : RetryPolicy
  pub size : List Message → ℕ
  pub shown : Value → Text
  pub format : Format

abbrev pub compacted_text : Format → CompactionReport → Text
compacted_text format r =
    codes "compacted: elided "
    ++ (decimal r.elided
        ++ (codes " tool results"
            ++ ((if r.inputs == 0
                  then []
                  else codes " and " ++ (decimal r.inputs ++ codes " tool inputs"))
                ++ ((if r.thinking == 0
                      then []
                      else codes ", dropped " ++ (decimal r.thinking ++ codes " thinking blocks"))
                    ++ (codes ", ~"
                        ++ (format.tokens r.before
                            ++ (codes " -> ~" ++ (format.tokens r.after ++ codes " tokens"))))))))

abbrev pub report_compaction : Format → Option CompactionReport → Session → Session
report_compaction format none s = s
report_compaction format (some r) s = add_event progress (compacted_text format r) s

unfoldable pub compacted : Turn → Session → Session
unfolding compact add_event
compacted turn s =
    let (messages, report) = compact turn.size turn.shown s.last_input turn.window s.messages in
    report_compaction turn.format report (record s { messages = messages })

abbrev pub is_nil {ℓ} : {A : Type ℓ} → List A → Bool
is_nil [] = true
is_nil (x ∷ xs) = false

abbrev pub is_set {ℓ} : {A : Type ℓ} → Option A → Bool
is_set none = false
is_set (some a) = true

-- `_constrained`.
unfoldable pub is_constrained : Session → Option Schema → Option Text → List Value → Bool
is_constrained s schema structured_output tools =
    is_set structured_output && (is_set schema && (s.schema_retried || is_nil tools))

unfoldable pub mode_of : Turn → Session → Mode
unfolding is_constrained
mode_of turn s =
    if turn.asked.summary && not (is_nil turn.tools.offered)
    then tools_kept
    else if is_constrained s turn.asked.schema turn.structured_output turn.tools.offered
    then constrained
    else plain

abbrev pub sent_tools : Mode → List Value → List Value
sent_tools constrained tools = []
sent_tools _ tools = tools

abbrev pub mode_text : Option Text → Text
mode_text none = []
mode_text (some mode) = mode

abbrev pub report_mode : Turn → Mode → Session → Session
report_mode turn constrained s =
    add_event progress
      (codes "schema-constrained answer turn ("
        ++ (mode_text turn.structured_output
            ++ (codes ")" ++ (if is_nil turn.tools.offered then [] else codes "; tools withheld"))))
      s
report_mode turn _ s = s

-- The retries go to the caller where the turn is streamed, and else among the session's events.
unfoldable pub report_retries : Turn → List Retried → Session → Session
unfolding add_event
report_retries turn [] s = s
report_retries turn (r ∷ rs) s =
    report_retries turn rs
      (if turn.streamed then s else add_event progress (turn.format.retry turn.retry.retries r) s)

-- A cut-off reply, counted, and whether its correction is within the budget.
unfoldable pub cut_off : Reply → Option CutoffLimit → Session → Bool × Option CutoffLimit × Session
unfolding add_event
cut_off reply none s = (false, none, record s { cutoffs = s.cutoffs + 1 })
cut_off reply (some l) s =
    let corrected = ltb l.used l.limit in
    (
      corrected,
      some (record l { used = l.used + 1 }),
      add_event progress
          (codes "reply cut off ("
            ++ (reason_text reply.stop_reason
                ++ (codes ") after "
                    ++ (decimal reply.usage.output
                        ++ (codes " output tokens: "
                            ++ (if corrected
                                then codes "correction "
                                  ++ (decimal (l.used + 1) ++ (codes " of " ++ decimal l.limit))
                                else codes "cut-off budget of "
                                  ++ (decimal l.limit ++ codes " spent")))))))
          (record s { cutoffs = s.cutoffs + 1 }),
    )

unfoldable pub count_cutoff :
    Reply → Option CutoffLimit → Session → Bool × Option CutoffLimit × Session
unfolding cut_off
count_cutoff reply cutoffs s =
    if is_cutoff reply.stop_reason then cut_off reply cutoffs s else (false, cutoffs, s)

-- An empty reply that is corrected is not kept.
unfoldable pub keep_reply : Reply → Bool → Session → Session
keep_reply reply corrected s = if corrected && is_nil reply.content then s else record s {
  messages = s.messages ++ record { role = assistant; content = reply.content } ∷ [];
}

unfoldable pub block_events : List Block → Session → Session
unfolding add_event
block_events [] s = s
block_events (text t ∷ bs) s = block_events bs (add_event progress t s)
block_events (thinking t signature ∷ bs) s = block_events bs (add_event (codes "thinking") t s)
block_events (b ∷ bs) s = block_events bs s

abbrev pub retained : Option Schema → Text → Session → Session
retained none said s = s
retained (some schema) said s = record s { output = kept_output schema said s.output }

-- The bookkeeping of a reply, before its usage is added: what was sent is measured.
unfoldable pub book : Turn → Reply → Session → Session
unfolding context_chars turn_usage add_usage
book turn reply s = record s {
  last_input = record {
    tokens = reply.usage.input + reply.usage.cache_read + reply.usage.cache_write;
    messages = length s.messages;
    chars = context_chars turn.size s.messages;
  };
  usage = add_usage s.usage (turn_usage reply.usage reply.cost turn.prices);
  turns = s.turns + 1;
}

-- A reply that arrived, with whether its cut-off is corrected, up to the handling of its calls.
unfoldable pub kept_turn : Turn → Reply → Bool → Session → Session
unfolding keep_reply block_events kept_output turn_usage add_event
kept_turn turn reply corrected s =
    let kept = keep_reply reply corrected s in
    let told = if turn.streamed then kept else block_events reply.content kept in
    let costed =
      add_event (codes "cost") (turn.format.cost (turn_usage reply.usage reply.cost turn.prices))
        told in
    record (retained turn.asked.schema (join (codes "\n") (texts_of reply.content)) costed) {
      stop_reason = some (reason_text reply.stop_reason);
    }

-- A malformed pointer of the requirement raises.
abbrev pub ended_with : Format → Option ToolCallLimit → Session → Checked Session → TurnEnd
ended_with format limit before (fine s) = TurnEnd.returned s limit
ended_with format limit before (bad why) = TurnEnd.raised before limit (format.pointer why)

unfoldable pub handled : Turn → Option ToolCallLimit → Reply → Bool → Session → TurnEnd
unfolding with_calls without_calls
handled turn limit reply corrected s = elim reply.tool_calls [
  | [] ↦ ended_with turn.format limit s (without_calls turn.asked reply corrected s)
  | call ∷ calls ↦
      with_calls turn.shown turn.tools turn.asked.summary reply.stop_reason corrected (call ∷ calls)
        limit s
]

unfoldable pub replied :
    Turn
    → Option ToolCallLimit
    → Option CutoffLimit
    → Reply
    → Session
    → TurnEnd × Option CutoffLimit
unfolding book count_cutoff kept_turn handled
replied turn limit cutoffs reply s =
    let (corrected, counted, t) = count_cutoff reply cutoffs (book turn reply s) in
    (handled turn limit reply corrected (kept_turn turn reply corrected t), counted)

abbrev pub after_outcome :
    Turn
    → Option ToolCallLimit
    → Option CutoffLimit
    → Session
    → Outcome Reply
    → TurnEnd × Option CutoffLimit
after_outcome turn limit cutoffs s (returned reply) = replied turn limit cutoffs reply s
after_outcome turn limit cutoffs s (reraised e) =
    (TurnEnd.raised s limit (turn.format.failure e), cutoffs)

abbrev pub after_request :
    Turn
    → Option ToolCallLimit
    → Option CutoffLimit
    → Session
    → Option (Outcome Reply × Progress)
    → Option (TurnEnd × Option CutoffLimit)
after_request turn limit cutoffs s none = none
after_request turn limit cutoffs s (some (outcome, p)) = some (
    after_outcome turn limit cutoffs
      (report_retries turn p.events (record s { retries = p.session_retries })) outcome)

unfoldable pub requested :
    Turn
    → Option ToolCallLimit
    → Option CutoffLimit
    → Session
    → Option (TurnEnd × Option CutoffLimit)
unfolding mode_of with_retries report_retries replied add_event
requested turn limit cutoffs s =
    let mode = mode_of turn s in
    let t = report_mode turn mode s in
    after_request turn limit cutoffs t (
      with_retries turn.own_rule turn.retry
        (turn.attempts (record {
          messages = t.messages;
          tools = sent_tools mode turn.tools.offered;
          mode = mode;
        }))
        t.retries)

abbrev pub context_stop : Text
context_stop = codes "context"

-- `step`. `none` says that the retries ran out of fuel.
unfoldable pub step :
    Turn
    → Option ToolCallLimit
    → Option CutoffLimit
    → Session
    → Option (TurnEnd × Option CutoffLimit)
unfolding compacted estimate fail requested
step turn limit cutoffs s =
    let small = compacted turn s in
    let measured = estimate turn.size small.last_input small.messages in
    if leb (turn.window * 4) measured
    then some (
      TurnEnd.returned
          (fail
            (codes "context estimate "
              ++ (turn.format.tokens measured ++ (codes " reaches window " ++ decimal turn.window)))
            (record small { stop_reason = some context_stop }))
          limit,
      cutoffs,
    )
    else requested turn limit cutoffs small
