-- ===== src/Tests/Ceilings.antt =====
-- A run over its token ceiling (src/nare/loop.py).
use nare.Prelude.{◌+◌, ◌≡◌, ◌↔◌, refl, false, none, some, decimal}
use nare.Json.Value.{pos}
use nare.Session.Types.{Session, Usage, Budget}
use nare.Loop.Budget.{configured, configure_budgets, set_tokens, set_usd, check_budget}
use nare.Loop.Exhausted.{TokensLeft, UsdLeft, SetBy, check_budget_iff, configure_budgets-SetBy}
use nare.Tests.Resuming.{stopped_session}

abbrev heavy : Usage
heavy = record {
  input = 90;
  output = 20;
  cache_read = 0;
  cache_write = 0;
  cost = some 5;
  estimated = false;
}

abbrev over : Session
over = record stopped_session { usage = heavy }

check_budget_iff_example :
    ((check_budget decimal over).0 ≡ false)
    ↔ (TokensLeft over.budget.tokens (90 + 20 + 0 + 0) × UsdLeft over.budget.usd over.usage.cost)
check_budget_iff_example = check_budget_iff decimal over

abbrev saved : Budget
saved = record { tokens = some 100; usd = none }

abbrev raised_to : Budget
raised_to = record { tokens = some 200; usd = none }

raised_to-configured : configure_budgets saved (some (pos 200)) none ≡ configured raised_to
unfolding configure_budgets set_tokens set_usd
raised_to-configured = refl

configure_budgets-SetBy_example :
    SetBy (some (pos 200)) (some 100) (some 200) × SetBy none none none
configure_budgets-SetBy_example =
    configure_budgets-SetBy saved raised_to (some (pos 200)) none raised_to-configured
