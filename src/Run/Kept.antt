-- ===== src/Run/Kept.antt =====
-- What a whole run keeps of the transcript it is given.
use nare.Prelude.{
  ℕ, ◌≡◌, refl, ap, inl, inr, Bool, true, false, List, [], ◌∷◌, Option, none, some, Text,
  Bool-cases,
}
use nare.Session.Types.{Session, Message}
use nare.Session.Reopen.{append_user_text}
use nare.Session.Thinking.{drop_signed_thinking}
use nare.Session.Pairing.{outline-IsAnswered}
use nare.Session.Reopened.{outline-drop_signed_thinking}
use nare.Loop.Hold.{add_event}
use nare.Loop.Budget.{Prices, Configured, configured, rejected, configure_budgets}
use nare.Step.Answer.{Schema}
use nare.Step.Ready.{IsReady, IsClosed, ready-IsClosed, append_block-IsReady}
use nare.Step.Keeps.{roles, roles-Alternates, roles-EndsInUser}
use nare.Run.Prefix.{on_changes, resume_tools, digest_differs, state_schema}
use nare.Run.Setup.{
  Invocation, Flow, drain, Lookup, told, failed, Prepared, refused_budget, refused_window, over,
  prepared, is_positive, is_working, window_of, prices_of, lookup_failed, if_schema, open_run,
  after_lookups, with_budget, budgeted, set_up,
}
use nare.Run.Turns.{
  run_from, RunEnd, rejected_call, finished, halted, run_end, passes, after_set_up, run_session,
}
use nare.Run.Follows.{check_budget-cases}
use nare.Run.Closed.{IsHonestRun, run_from-IsClosed}
use nare.Run.Total.{run_session-RunEnds}

roles-drop_signed_thinking : (ms : List Message) → roles ms ≡ roles (drop_signed_thinking ms).0
unfolding drop_signed_thinking
roles-drop_signed_thinking [] = refl
roles-drop_signed_thinking (m ∷ ms) = ap (◌∷◌ m.role) (roles-drop_signed_thinking ms)

on_changes-IsReady :
    (changed : List Text) (s : Session)
    → IsReady s.messages
    → IsReady (on_changes changed s).messages
unfolding add_event
on_changes-IsReady [] s h = h
on_changes-IsReady (c ∷ cs) s h =
    let same = roles-drop_signed_thinking s.messages in
    record {
      alternates =
          roles-Alternates s.messages (drop_signed_thinking s.messages).0 same h.alternates;
      ends_in_user =
          roles-EndsInUser s.messages (drop_signed_thinking s.messages).0 same h.ends_in_user;
      answered =
          outline-IsAnswered s.messages (drop_signed_thinking s.messages).0
            (outline-drop_signed_thinking s.messages) h.answered;
    }

state_schema-IsReady :
    (schema : Schema) (digest : Text) (s : Session)
    → IsReady s.messages
    → IsReady (state_schema schema digest s).messages
unfolding state_schema append_user_text add_event
state_schema-IsReady schema digest s h = elim (Bool-cases s.schema_stated) [
  | inr e ↦ rw e (append_block-IsReady schema.restated s.messages (ready-IsClosed s.messages h))
  | inl e ↦ elim (Bool-cases (digest_differs digest s.schema_sha256)) [
    | inl d ↦ rw (e, d) (append_block-IsReady _ s.messages (ready-IsClosed s.messages h))
    | inr d ↦ rw (e, d) h
  ]
]

if_schema-IsReady :
    (schema : Option Schema) (digest : Text) (s : Session)
    → IsReady s.messages
    → IsReady (if_schema schema digest s).messages
if_schema-IsReady none digest s h = h
if_schema-IsReady (some schema) digest s h = state_schema-IsReady schema digest s h

open_run-IsReady :
    (i : Invocation) (window : ℕ) (source : Text) (f : Flow)
    → IsReady f.session.messages
    → IsReady (open_run i window source f).session.messages
unfolding open_run resume_tools add_event
open_run-IsReady i window source f h =
    on_changes-IsReady _ _ (if_schema-IsReady i.turn.asked.schema i.digest _ h)

-- What the part before the loop leaves may be sent.
abbrev StaysReady : Prepared → Type 0
StaysReady (refused_budget e t) = IsReady t.messages
StaysReady (refused_window t) = IsReady t.messages
StaysReady (over f) = IsReady f.session.messages
StaysReady (prepared window prices f) = IsReady f.session.messages

after_lookups-StaysReady :
    (i : Invocation) (f : Flow) (window : Lookup (ℕ × Text)) (prices : Lookup (Option Prices))
    → IsReady f.session.messages
    → StaysReady (after_lookups i f window prices)
unfolding lookup_failed drain add_event
after_lookups-StaysReady i f (failed why) prices h = h
after_lookups-StaysReady i f (told (window, source)) (failed why) h = h
after_lookups-StaysReady i f (told (window, source)) (told prices) h =
    open_run-IsReady i window source f h

with_budget-StaysReady :
    (i : Invocation) (s : Session) → IsReady s.messages → StaysReady (with_budget i s)
unfolding drain
with_budget-StaysReady i s h =
    let lookups =
      after_lookups-StaysReady i
        (record { session = s; limit = none; cutoffs = none; yielded = []; begun = 0 })
        (window_of i.context_window i.backend_window) (prices_of i.turn.prices i.backend_prices)
        h in
    elim (Bool-cases (is_positive i.context_window)) [
      | inr bad ↦ rw bad h
      | inl good ↦ elim (Bool-cases (is_working s.status)) [
        | inr off ↦ rw (good, off) lookups
        | inl on ↦ elim (check_budget-cases i.money s) [
          | inl same ↦ rw (good, on, same) lookups
          | inr (t, spent, _, _, same) ↦ rw (good, on, spent) (rw same h)
        ]
      ]
    ]

set_up-StaysReady : (i : Invocation) (s : Session) → IsReady s.messages → StaysReady (set_up i s)
unfolding set_up
set_up-StaysReady i s h = by_budget (configure_budgets s.budget i.budget_tokens i.budget_usd)
  where
    by_budget : (c : Configured) → StaysReady (budgeted i s c)
    by_budget (rejected e b) = h
    by_budget (configured b) = with_budget-StaysReady i (record s { budget = b }) h

-- The session that a run leaves.
abbrev pub left_by : RunEnd → Session
left_by (rejected_call s) = s
left_by (finished f) = f.session
left_by (halted f) = f.session

run_end-IsClosed :
    (p : Flow × Bool) (e : RunEnd)
    → IsClosed p.0.session.messages
    → run_end (some p) ≡ some e
    → IsClosed (left_by e).messages
run_end-IsClosed (f, true) e h is = let same : halted f ≡ e = cc is in rw (← same) h
run_end-IsClosed (f, false) e h is = let same : finished f ≡ e = cc is in rw (← same) h

-- Given a transcript whose roles alternate, which the user ends, and in which each assistant message is
-- followed by a result for each of its calls in their order, and given that in every turn each reply of
-- the transport lists the calls that its content holds, a run ends, and whichever way it does, an
-- interruption included, it leaves a transcript whose roles alternate and in which each assistant message
-- is followed by a result for each of its calls in their order, a last one having no calls.
pub run_session-IsClosed :
    (i : Invocation) (s : Session)
    → IsHonestRun i
    → IsReady s.messages
    → (e : RunEnd) × (run_session i s ≡ some e) × IsClosed (left_by e).messages
unfolding run_session
run_session-IsClosed i s honest h =
    let (e, is, _) = run_session-RunEnds i s in
    (e, is, by_set_up (set_up i s) (set_up-StaysReady i s h) e is)
  where
    by_set_up :
        (p : Prepared)
        → StaysReady p
        → (e : RunEnd) → after_set_up i p ≡ some e
        → IsClosed (left_by e).messages
    by_set_up (refused_budget why t) ready e is =
        let same : rejected_call t ≡ e = cc is in rw (← same) (ready-IsClosed t.messages ready)
    by_set_up (refused_window t) ready e is =
        let same : rejected_call t ≡ e = cc is in rw (← same) (ready-IsClosed t.messages ready)
    by_set_up (over f) ready e is =
        let same : finished f ≡ e = cc is in rw (← same) (ready-IsClosed f.session.messages ready)
    by_set_up (prepared window prices f) ready e is =
        by_loop (run_from i window prices f.session.turns (passes i.max_turns) f) refl e is
      where
        by_loop :
            (o : Option (Flow × Bool))
            → run_from i window prices f.session.turns (passes i.max_turns) f ≡ o
            → (e : RunEnd) → run_end o ≡ some e
            → IsClosed (left_by e).messages
        by_loop none loop e is = absurd (cc is)
        by_loop (some p) loop e is =
            run_end-IsClosed p e
              (run_from-IsClosed i honest window prices f.session.turns (passes i.max_turns) f p
                (ready-IsClosed f.session.messages ready, λ _. ready) loop)
              is
