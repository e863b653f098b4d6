-- ===== src/Run/Total.antt =====
-- A run as a whole: from what its caller gives to its end.
use nare.Prelude.{
  ℕ, ◌+◌, ◌≡◌, refl, sym, ap, ◌∙◌, ◌≢◌, ◌⊎◌, inl, inr, Bool, true, false, List, [], ◌∷◌, Option,
  none, some, Text, arith, same, Bool-cases,
}
use nare.Session.Types.{Session, working}
use nare.Session.Reopen.{append_user_text}
use nare.Loop.Hold.{add_event}
use nare.Loop.Budget.{Prices, Configured, configured, rejected, configure_budgets, check_budget}
use nare.Step.Answer.{Schema}
use nare.Run.Prefix.{on_changes, resume_tools, digest_differs, state_schema}
use nare.Run.Setup.{
  Invocation, Flow, drain, Lookup, told, failed, Prepared, refused_budget, refused_window, over,
  prepared, is_positive, is_working, window_of, prices_of, lookup_failed, if_schema, open_run,
  after_lookups, unless_spent, with_budget, budgeted, set_up,
}
use nare.Run.Turns.{
  RunEnd, rejected_call, finished, halted, run_end, passes, after_set_up, run_session,
}
use nare.Run.Follows.{check_budget-cases, error-not-working}
use nare.Run.Ends.{WithinTurns, run_from-Finishes}

on_changes-turns : (changed : List Text) (s : Session) → (on_changes changed s).turns ≡ s.turns
unfolding add_event
on_changes-turns [] s = refl
on_changes-turns (c ∷ cs) s = refl

state_schema-turns :
    (schema : Schema) (digest : Text) (s : Session) → (state_schema schema digest s).turns ≡ s.turns
unfolding state_schema append_user_text add_event
state_schema-turns schema digest s = elim (Bool-cases s.schema_stated) [
  | inr e ↦ rw e refl
  | inl e ↦ elim (Bool-cases (digest_differs digest s.schema_sha256)) [
    | inl d ↦ rw (e, d) refl
    | inr d ↦ rw (e, d) refl
  ]
]

if_schema-turns :
    (schema : Option Schema) (digest : Text) (s : Session)
    → (if_schema schema digest s).turns ≡ s.turns
if_schema-turns none digest s = refl
if_schema-turns (some schema) digest s = state_schema-turns schema digest s

open_run-turns :
    (i : Invocation) (window : ℕ) (source : Text) (f : Flow)
    → (open_run i window source f).session.turns ≡ f.session.turns
unfolding open_run resume_tools add_event
open_run-turns i window source f =
    on_changes-turns _ _ ∙ if_schema-turns i.turn.asked.schema i.digest _

-- The session before the loop has the turns it came with, and where there is no loop it is an error or
-- the call is refused.
abbrev Starts : Session → Prepared → Type 0
Starts s (refused_budget e t) = (t.messages ≡ s.messages) × (t.turns ≡ s.turns)
Starts s (refused_window t) = (t.messages ≡ s.messages) × (t.turns ≡ s.turns)
Starts s (over f) = (f.session.turns ≡ s.turns) × (f.session.status ≢ working)
Starts s (prepared window prices f) = f.session.turns ≡ s.turns

after_lookups-Starts :
    (i : Invocation) (s : Session) (f : Flow) (window : Lookup (ℕ × Text))
    (prices : Lookup (Option Prices))
    → f.session.turns ≡ s.turns
    → Starts s (after_lookups i f window prices)
unfolding lookup_failed drain add_event
after_lookups-Starts i s f (failed why) prices e = (e, error-not-working)
after_lookups-Starts i s f (told (window, source)) (failed why) e = (e, error-not-working)
after_lookups-Starts i s f (told (window, source)) (told prices) e =
    open_run-turns i window source f ∙ e

unless_spent-Starts :
    (i : Invocation) (s b : Session)
    → b.turns ≡ s.turns
    → Starts s (unless_spent i b (check_budget i.money b))
unfolding drain
unless_spent-Starts i s b e = elim (check_budget-cases i.money b) [
  | inl same ↦ rw same (
      after_lookups-Starts i s _ (window_of i.context_window i.backend_window)
        (prices_of i.turn.prices i.backend_prices) e)
  | inr (t, spent, status, turns, _) ↦
      rw spent (turns ∙ e, λ on. error-not-working (sym status ∙ on))
]

with_budget-Starts :
    (i : Invocation) (s b : Session)
    → b.messages ≡ s.messages
    → b.turns ≡ s.turns
    → Starts s (with_budget i b)
with_budget-Starts i s b m e = elim (Bool-cases (is_positive i.context_window)) [
  | inr bad ↦ rw bad (m, e)
  | inl good ↦ elim (Bool-cases (is_working b.status)) [
    | inl on ↦ rw (good, on) (unless_spent-Starts i s b e)
    | inr off ↦
        rw (good, off)
          (after_lookups-Starts i s _ (window_of i.context_window i.backend_window)
            (prices_of i.turn.prices i.backend_prices) e)
  ]
]

set_up-Starts : (i : Invocation) (s : Session) → Starts s (set_up i s)
unfolding set_up
set_up-Starts i s = by_budget (configure_budgets s.budget i.budget_tokens i.budget_usd)
  where
    by_budget : (c : Configured) → Starts s (budgeted i s c)
    by_budget (rejected e b) = (refl, refl)
    by_budget (configured b) = with_budget-Starts i s (record s { budget = b }) refl refl

-- How a run that its caller may make ends. One that is refused changes no message and counts no turn.
-- The others are within the turns allowed, or made the summary and failed for the turns; and one that
-- was not interrupted is no longer working.
abbrev pub RunEnds : Invocation → Session → RunEnd → Type 0
RunEnds i s (rejected_call t) = (t.messages ≡ s.messages) × (t.turns ≡ s.turns)
RunEnds i s (finished f) =
    WithinTurns (s.turns + i.max_turns) f.session × (f.session.status ≢ working)
RunEnds i s (halted f) = WithinTurns (s.turns + i.max_turns) f.session

WithinTurns-from : (n k : ℕ) (t : Session) → n ≡ k → WithinTurns n t → WithinTurns k t
WithinTurns-from n k t e within = rw (← e) within

run_end-RunEnds :
    (i : Invocation) (s : Session) (p : Flow × Bool)
    → WithinTurns (s.turns + i.max_turns) p.0.session
    → (p.1 ≡ true) ⊎ (p.0.session.status ≢ working)
    → (e : RunEnd) × (run_end (some p) ≡ some e) × RunEnds i s e
run_end-RunEnds i s (f, true) within stops = (halted f, refl, within)
run_end-RunEnds i s (f, false) within (inl e) = absurd (cc e)
run_end-RunEnds i s (f, false) within (inr off) = (finished f, refl, (within, off))

-- Every run comes to an end, whatever the model, the tools, the backend and the inbox do. A call that is
-- refused changes no message and counts no turn. Any other run has counted no more turns than it was
-- allowed, or made one turn more, the summary, and is an error for the turn limit; and unless it was
-- interrupted it is no longer working.
pub run_session-RunEnds :
    (i : Invocation) (s : Session) → (e : RunEnd) × (run_session i s ≡ some e) × RunEnds i s e
unfolding run_session
run_session-RunEnds i s = by_set_up (set_up i s) (set_up-Starts i s)
  where
    by_set_up :
        (p : Prepared) → Starts s p → (e : RunEnd) × (after_set_up i p ≡ some e) × RunEnds i s e
    by_set_up (refused_budget why t) kept = (rejected_call t, refl, kept)
    by_set_up (refused_window t) kept = (rejected_call t, refl, kept)
    by_set_up (over f) (turns, off) = (finished f, refl, (inl (omega (arith, turns)), off))
    by_set_up (prepared window prices f) turns =
        let (p, eq, within, stops) =
          run_from-Finishes i window prices f.session.turns (passes i.max_turns) f (omega arith)
            (inl (omega arith)) (inr (omega arith, omega arith)) in
        let (e, is, ends) =
          run_end-RunEnds i s p
            (WithinTurns-from _ _ p.0.session (ap (λ n. n + i.max_turns) turns) within) stops in
        (e, ap run_end eq ∙ is, ends)
