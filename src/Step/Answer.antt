-- ===== src/Step/Answer.antt =====
-- A reply without calls: the first half of `step` after the request, `_answer_errors`, `_parses` and
-- `_check_errors` (src/nare/loop.py), and `_render` (src/nare/schema.py).
use nare.Prelude.{
  ℕ, Bool, true, false, ◌&&◌, List, [], ◌∷◌, ◌++◌, map, Option, none, some, Text, codes, any, join,
  decimal, if◌then◌else◌,
}
use nare.Json.Value.{Value, null}
use nare.Session.Types.{Session, Block, thinking, error, done}
use nare.Session.Reopen.{append_user_text}
use nare.Schema.Pairs.{key, index, Location, duplicate_keys, settled, settle}
use nare.Corrections.Charge.{Correction, charge, schema_kind}
use nare.Corrections.Message.{Complaint, correction_text}
use nare.Reads.Pointer.{Checked, fine, ◌>>=◌}
use nare.Reads.Cited.{Digits}
use nare.Reads.Required.{ReadRequirement, FileRead, read_record}
use nare.Loop.Hold.{add_event, progress, error_kind, hold_for_reads, joined}
use nare.Loop.Nudge.{nudge_question, texts_of}
use nare.Step.Reply.{Reply, unfinished_text, guidance}

-- What is found when a text is searched for its document: the document as it is written, which may
-- repeat keys, or what is wrong.
pub data Found : Type 0 where
  document : Value → Found
  malformed : Text → Found

-- What a caller's check comes to.
pub data CheckEnd : Type 0 where
  finds : List Complaint → CheckEnd
  check_raises : Text → CheckEnd

-- The schema of a run: how a text's document is found, the validator's complaints about a value,
-- the schema as the model is told it, and the caller's check, which may read the run's reads.
pub record Schema : Type 0 where
  pub find : Text → Found
  pub validate : Value → List Complaint
  pub restated : Text
  pub check : Option (Value → List FileRead → CheckEnd)

unfoldable pub render_from : Text → Location → Text
render_from text [] = text
render_from text (index i ∷ rest) =
    render_from (text ++ (codes "[" ++ (decimal i ++ codes "]"))) rest
render_from [] (key k ∷ rest) = render_from k rest
render_from (c ∷ cs) (key k ∷ rest) = render_from ((c ∷ cs) ++ (codes "." ++ k)) rest

-- `_at`.
abbrev pub at_place : Text → Text → Text
at_place [] message = message
at_place (c ∷ cs) message = (c ∷ cs) ++ (codes ": " ++ message)

unfoldable pub repeat_complaint : Location × Text → Complaint
unfolding render_from
repeat_complaint (location, name) = record {
  message = at_place (render_from [] location) (codes "duplicate key: " ++ name);
  guidance = none;
}

-- What an answer comes to: its value, or the complaints about it and whether it is a document at
-- all, or a check that raised.
pub data Judged : Type 0 where
  accepted : Value → Judged
  faulty : List Complaint → Bool → Judged
  check_failed : Text → Judged

abbrev pub by_verdict : Value → CheckEnd → Judged
by_verdict v (finds []) = accepted v
by_verdict v (finds (e ∷ es)) = faulty (e ∷ es) true
by_verdict v (check_raises why) = check_failed why

abbrev pub by_check : Option (Value → List FileRead → CheckEnd) → List FileRead → Value → Judged
by_check none reads v = accepted v
by_check (some check) reads v = by_verdict v (check v reads)

-- A check runs only on an answer that the validator passes.
abbrev pub judge_value : Schema → List FileRead → Value → List Complaint → Judged
judge_value schema reads v [] = by_check schema.check reads v
judge_value schema reads v (e ∷ es) = faulty (e ∷ es) true

unfoldable pub judge : Schema → List FileRead → Text → Judged
unfolding repeat_complaint settle
judge schema reads text = elim (schema.find text) [
  | malformed why ↦ faulty (record { message = why; guidance = none } ∷ []) false
  | document written ↦ elim (settle written) [
    | duplicate_keys found ↦ faulty (map repeat_complaint found) false
    | settled v ↦ judge_value schema reads v (schema.validate v)
  ]
]

-- The value kept of a turn's text where there is no check: a document that the validator passes.
unfoldable pub kept_output : Schema → Text → Option Value → Option Value
unfolding settle
kept_output schema text before = elim schema.check [
  | some check ↦ before
  | none ↦ elim (schema.find text) [
    | malformed why ↦ before
    | document written ↦ elim (settle written) [
      | duplicate_keys found ↦ before
      | settled v ↦ elim (schema.validate v) [ [] ↦ some v | e ∷ es ↦ before ]
    ]
  ]
]

-- The arguments of a turn that an answer depends on. `shown` puts a path in the form evidence
-- records it, `asks` is `asks_in_prose`, `nudge` the text of `QUESTION_NUDGE`.
pub record Asked : Type 0 where
  pub schema : Option Schema
  pub reads : ReadRequirement
  pub shown : Text → Option Text
  pub digits : Digits
  pub max_corrections : ℕ
  pub summary : Bool
  pub question_nudge : Bool
  pub has_ask : Bool
  pub asks : Text → Bool
  pub nudge : Text

abbrev pub output_kind : Text
output_kind = codes "output"

unfoldable pub fail : Text → Session → Session
unfolding add_event
fail why s = add_event error_kind why (record s { status = error; error = some why })

unfoldable pub finish : Text → Session → Session
unfolding add_event
finish text s = add_event output_kind text (record s { status = done })

abbrev pub finish_unless : (Session → Session) → Bool × Session → Session
finish_unless done_with (true, s) = s
finish_unless done_with (false, s) = done_with s

-- A text reply of a run without a schema.
abbrev pub unless_nudged : Asked → Text → Bool × Session → Checked Session
unless_nudged asked text (true, s) = fine s
unless_nudged asked text (false, s) =
    hold_for_reads asked.shown asked.digits s asked.reads asked.max_corrections null >>= λ held.
    fine (finish_unless (finish text) held)

unfoldable pub answer_text : Asked → Text → Session → Checked Session
unfolding nudge_question hold_for_reads finish
answer_text asked text s = unless_nudged asked text (
    nudge_question asked.nudge s (asked.asks text) asked.question_nudge asked.summary asked.has_ask)

abbrev pub violation : Text
violation = codes "schema_violation"

abbrev pub grant_word : Bool → Text
grant_word true = codes "charged"
grant_word false = codes "free"

-- A faulty answer, after its charge.
unfoldable pub corrected_by : Schema → List Complaint → Option Correction × Session → Session
unfolding fail correction_text append_user_text add_event
corrected_by schema errors (none, s) =
    fail (codes "answer does not satisfy the schema: " ++ joined (map (λ e. e.message) errors))
      (record s { stop_reason = some violation })
corrected_by schema errors (some granted, s) =
    add_event progress
      (codes "schema correction "
        ++ (decimal granted.number
            ++ (codes " ("
                ++ (grant_word granted.charged
                    ++ (codes "): " ++ joined (map (λ e. e.message) errors))))))
      (append_user_text s (correction_text granted errors schema.restated))

unfoldable pub answer_schema : Asked → Schema → Text → Session → Checked Session
unfolding judge fail finish hold_for_reads charge corrected_by read_record
answer_schema asked schema text s =
    if asked.summary then fine s else elim (judge schema (read_record s.evidence) text) [
      | check_failed why ↦ fine (fail why (record s { stop_reason = none }))
      | accepted v ↦
          hold_for_reads asked.shown asked.digits s asked.reads asked.max_corrections v >>= λ held.
          fine (finish_unless (λ k. finish text (record k { output = some v })) held)
      | faulty errors parses ↦ fine (
          corrected_by schema errors
            (charge s (map (λ e. e.message) errors) asked.max_corrections parses schema_kind))
    ]

abbrev pub is_thought : Block → Bool
is_thought (thinking t signature) = true
is_thought _ = false

abbrev pub is_blank : Text → Bool
is_blank [] = true
is_blank (c ∷ cs) = false

abbrev pub no_answer : Text
no_answer = codes "no_answer"

abbrev pub no_answer_text : Text
no_answer_text =
    codes "model emitted reasoning but no answer; a proxy translation may have dropped it"

-- A reply with no calls, already in the transcript.
unfoldable pub without_calls : Asked → Reply → Bool → Session → Checked Session
unfolding append_user_text fail answer_text answer_schema
without_calls asked reply corrected s =
    let text = join (codes "\n") (texts_of reply.content) in
    elim (unfinished_text reply.stop_reason) [
      | some why ↦
          if corrected
          then fine (append_user_text s (guidance reply.stop_reason))
          else fine (fail why s)
      | none ↦
          if is_blank text && any is_thought reply.content
          then fine (fail no_answer_text (record s { stop_reason = some no_answer }))
          else elim asked.schema [
            | none ↦ answer_text asked text s
            | some schema ↦ answer_schema asked schema text s
          ]
    ]
