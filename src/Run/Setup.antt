-- ===== src/Run/Setup.antt =====
-- What a run does before its first turn: the first half of `_run` (src/nare/loop.py).
use nare.Prelude.{
  ℕ, Bool, true, false, not, List, [], ◌++◌, Option, none, some, Text, codes, decimal,
  if◌then◌else◌,
}
use nare.Json.Value.{ℤ}
use nare.Session.Types.{Session, Status, working, Event, Recorded, error}
use nare.Loop.Hold.{add_event, progress, error_kind}
use nare.Loop.Budget.{
  BudgetError, configure_budgets, Configured, configured, rejected, check_budget, Prices, positive,
  amount,
}
use nare.Retry.Loop.{Attempt}
use nare.Step.Reply.{Reply, ToolCallLimit, CutoffLimit}
use nare.Step.Answer.{Schema}
use nare.Step.Turn.{Request, Turn}
use nare.Run.Prefix.{resume_tools, state_schema}

-- What the backend says of its window and its prices, or how the exception reads. `none` for the
-- prices is a transport that has no such method.
pub data Lookup (A : Type 0) : Type 0 where
  told : A → Lookup A
  failed : Text → Lookup A

-- The arguments of `_run`. `turn` holds those passed on to every turn, `attempts n` is how the
-- transport answers in the n-th turn of the run, `inbox n` what it holds the n-th time it is read.
pub record Invocation : Type 0 where
  pub turn : Turn
  pub attempts : ℕ → Request → ℕ → Attempt Reply
  pub max_turns : ℕ
  pub budget_tokens : Option ℤ
  pub budget_usd : Option ℤ
  pub context_window : Option ℤ
  pub backend_window : Lookup (Option ℕ)
  pub backend_prices : Option (Lookup (Option Prices))
  pub max_tool_calls : Option ℕ
  pub max_cutoffs : Option ℕ
  pub inbox : Option (ℕ → List Text)
  pub digest : Text
  pub recorded : Recorded
  pub money : ℕ → Text

-- A run on its way: the session, the limits counted against, the events handed to the caller, and how
-- many turns of the loop were begun.
pub record Flow : Type 0 where
  pub session : Session
  pub limit : Option ToolCallLimit
  pub cutoffs : Option CutoffLimit
  pub yielded : List Event
  pub begun : ℕ

-- `while session.events: yield session.events.pop(0)`.
unfoldable pub drain : Flow → Flow
drain f = record f {
  session = record f.session { events = [] };
  yielded = f.yielded ++ f.session.events;
}

-- How the part before the loop ends: refused with an exception, over, or with the window and the prices
-- of the turns.
pub data Prepared : Type 0 where
  refused_budget : BudgetError → Session → Prepared
  refused_window : Session → Prepared
  over : Flow → Prepared
  prepared : ℕ → Option Prices → Flow → Prepared

abbrev pub is_positive : Option ℤ → Bool
is_positive none = true
is_positive (some n) = positive n

abbrev pub is_working : Status → Bool
is_working working = true
is_working _ = false

-- The window, and where it is from.
unfoldable pub window_of : Option ℤ → Lookup (Option ℕ) → Lookup (ℕ × Text)
window_of (some n) backend = told (amount n, codes "flag")
window_of none (told (some n)) = told (n, codes "backend")
window_of none (told none) = told (32_000, codes "default")
window_of none (failed why) = failed why

unfoldable pub prices_of : Option Prices → Option (Lookup (Option Prices)) → Lookup (Option Prices)
prices_of (some p) backend = told (some p)
prices_of none none = told none
prices_of none (some answer) = answer

-- `except Exception`, with the events handed on.
unfoldable pub lookup_failed : Text → Flow → Flow
unfolding add_event drain
lookup_failed why f = drain (record f {
  session =
      add_event error_kind why
        (record f.session { status = error; stop_reason = none; error = some why });
})

abbrev pub if_schema : Option Schema → Text → Session → Session
if_schema none digest s = s
if_schema (some schema) digest s = state_schema schema digest s

abbrev pub tool_limit : Option ℕ → Option ToolCallLimit
tool_limit none = none
tool_limit (some n) = some (record { limit = n; used = 0; refused_turns = 0 })

abbrev pub cutoff_limit : Option ℕ → Option CutoffLimit
cutoff_limit none = none
cutoff_limit (some n) = some (record { limit = n; used = 0 })

unfoldable pub open_run : Invocation → ℕ → Text → Flow → Flow
unfolding add_event state_schema resume_tools
open_run i window source f = record f {
  session = resume_tools i.recorded (
      if_schema i.turn.asked.schema i.digest (
        add_event progress
          (codes "context window " ++ (decimal window ++ (codes " (" ++ (source ++ codes ")"))))
          f.session));
  limit = tool_limit i.max_tool_calls;
  cutoffs = cutoff_limit i.max_cutoffs;
}

abbrev pub after_lookups : Invocation → Flow → Lookup (ℕ × Text) → Lookup (Option Prices) → Prepared
after_lookups i f (failed why) prices = over (lookup_failed why f)
after_lookups i f (told (window, source)) (failed why) = over (lookup_failed why f)
after_lookups i f (told (window, source)) (told prices) =
    prepared window prices (open_run i window source f)

abbrev pub unless_spent : Invocation → Session → Bool × Session → Prepared
unless_spent i s (true, spent) =
    over (drain (record { session = spent; limit = none; cutoffs = none; yielded = []; begun = 0 }))
unless_spent i s (false, same) =
    after_lookups i (record { session = s; limit = none; cutoffs = none; yielded = []; begun = 0 })
      (window_of i.context_window i.backend_window) (prices_of i.turn.prices i.backend_prices)

abbrev pub with_budget : Invocation → Session → Prepared
with_budget i s =
    if not (is_positive i.context_window)
    then refused_window s
    else unless_spent i s (if is_working s.status then check_budget i.money s else (false, s))

abbrev pub budgeted : Invocation → Session → Configured → Prepared
budgeted i s (rejected e b) = refused_budget e (record s { budget = b })
budgeted i s (configured b) = with_budget i (record s { budget = b })

unfoldable pub set_up : Invocation → Session → Prepared
unfolding configure_budgets check_budget window_of prices_of lookup_failed open_run drain
set_up i s = budgeted i s (configure_budgets s.budget i.budget_tokens i.budget_usd)
