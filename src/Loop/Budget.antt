-- ===== src/Loop/Budget.antt =====
-- The ceilings of a run: `configure_budgets`, `check_budget` (src/nare/loop.py),
-- `turn_usage` (src/nare/accounting.py), and the checks of the limits that a caller gives.
use nare.Prelude.{
  ℕ, ◌+◌, ◌*◌, Bool, true, false, List, [], ◌∷◌, ◌++◌, Option, none, some, Text, codes, join,
  decimal, leb, ltb, if◌then◌else◌,
}
use nare.Json.Value.{ℤ, pos, negsuc}
use nare.Session.Types.{Session, Usage, Budget, total_tokens, error}
use nare.Retry.Loop.{RetryPolicy}
use nare.Loop.Hold.{add_event, error_kind}

pub data BudgetError : Type 0 where
  bad_tokens bad_usd : BudgetError

-- A rejection leaves what was set before it.
pub data Configured : Type 0 where
  configured : Budget → Configured
  rejected : BudgetError → Budget → Configured

-- A ceiling given now replaces the saved one.
abbrev pub override : Option ℤ → Option ℕ → Option ℤ
override (some now) saved = some now
override none (some saved) = some (pos saved)
override none none = none

abbrev pub positive : ℤ → Bool
positive (negsuc n) = false
positive (pos n) = ltb 0 n

abbrev pub amount : ℤ → ℕ
amount (negsuc n) = 0
amount (pos n) = n

unfoldable pub set_tokens : Option ℤ → Budget → Configured
set_tokens none b = configured b
set_tokens (some n) b =
    if positive n then configured (record b { tokens = some (amount n) }) else rejected bad_tokens b

unfoldable pub set_usd : Option ℤ → Budget → Configured
set_usd none b = configured b
set_usd (some n) b =
    if positive n then configured (record b { usd = some (amount n) }) else rejected bad_usd b

abbrev pub and_then : Configured → (Budget → Configured) → Configured
and_then (configured b) f = f b
and_then (rejected e b) f = rejected e b

unfoldable pub configure_budgets : Budget → Option ℤ → Option ℤ → Configured
unfolding set_tokens set_usd
configure_budgets b tokens usd =
    and_then (set_tokens (override tokens b.tokens) b) (set_usd (override usd b.usd))

-- `shown` writes an amount of money.
unfoldable pub token_reasons : Option ℕ → ℕ → List Text
token_reasons none used = []
token_reasons (some limit) used =
    if leb limit used
    then (codes "token budget exhausted: used "
        ++ (decimal used ++ (codes ", limit " ++ decimal limit)))
      ∷ []
    else []

abbrev pub unpriced : Text
unpriced =
    codes "--budget-usd cannot be enforced: cost for this backend is unknown; "
    ++ codes "set NARE_PRICE_IN and NARE_PRICE_OUT"

unfoldable pub usd_reasons : (ℕ → Text) → Option ℕ → Option ℕ → List Text
usd_reasons shown none cost = []
usd_reasons shown (some limit) none = unpriced ∷ []
usd_reasons shown (some limit) (some cost) =
    if leb limit cost
    then (codes "USD budget exhausted: used " ++ (shown cost ++ (codes ", limit " ++ shown limit)))
      ∷ []
    else []

unfoldable pub reasons : (ℕ → Text) → Session → List Text
unfolding token_reasons usd_reasons total_tokens
reasons shown s =
    token_reasons s.budget.tokens (total_tokens s.usage)
    ++ usd_reasons shown s.budget.usd s.usage.cost

abbrev pub budget_stop : Text
budget_stop = codes "budget"

unfoldable pub stop_for : List Text → Session → Bool × Session
unfolding add_event
stop_for [] s = (false, s)
stop_for (r ∷ rs) s =
    let said = join (codes "; ") (r ∷ rs) in
    (
      true,
      add_event error_kind said
          (record s { status = error; stop_reason = some budget_stop; error = some said }),
    )

-- Whether the run stops, and the session after.
unfoldable pub check_budget : (ℕ → Text) → Session → Bool × Session
unfolding reasons stop_for
check_budget shown s = stop_for (reasons shown s) s

-- Prices in some unit of money for a million tokens; a cost is in millionths of that unit.
pub record Prices : Type 0 where
  pub input : ℕ
  pub output : ℕ
  pub cache_read : Option ℕ
  pub cache_write : Option ℕ

abbrev pub or_price : Option ℕ → ℕ → ℕ
or_price none p = p
or_price (some q) p = q

-- What the tokens of a usage cost.
unfoldable pub price : Prices → Usage → ℕ
price p u =
    u.input * p.input
    + u.output * p.output
    + u.cache_read * or_price p.cache_read p.input
    + u.cache_write * or_price p.cache_write p.input

-- The usage of one turn: the reply's own cost, else the one the prices give, marked as estimated.
unfoldable pub turn_usage : Usage → Option ℕ → Option Prices → Usage
unfolding price
turn_usage u (some cost) prices = record u { cost = some cost; estimated = false }
turn_usage u none none = record u { cost = none; estimated = false }
turn_usage u none (some p) = record u { cost = some (price p u); estimated = true }

-- Whether a limit is accepted: `check_max_tool_calls` and `check_max_cutoffs` (which may be zero), where
-- no limit is given too, and `check_max_corrections`.
unfoldable pub check_max_tool_calls : Option ℤ → Bool
check_max_tool_calls none = true
check_max_tool_calls (some n) = positive n

unfoldable pub check_max_cutoffs : Option ℤ → Bool
check_max_cutoffs none = true
check_max_cutoffs (some (pos n)) = true
check_max_cutoffs (some (negsuc n)) = false

unfoldable pub check_max_corrections : ℤ → Bool
check_max_corrections n = positive n

-- `RetryPolicy.__post_init__`: the policy of two numbers, where neither is negative.
unfoldable pub checked_policy : ℤ → ℤ → Option RetryPolicy
checked_policy (negsuc n) seconds = none
checked_policy (pos retries) (negsuc n) = none
checked_policy (pos retries) (pos seconds) = some (record { retries = retries; seconds = seconds })
