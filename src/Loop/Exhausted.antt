-- ===== src/Loop/Exhausted.antt =====
-- What a ceiling promises: a run over it stops, and stays stopped whatever it uses after.
use nare.Prelude.{
  ℕ, ◌+◌, ◌<◌, ◌≡◌, refl, sym, ap, ◌∙◌, ◌↔◌, inl, inr, true, false, List, [], ◌∷◌, ◌++◌, Option,
  none, some, Text, arith, Bool-cases, append-eq-nil,
}
use nare.Json.Value.{ℤ, pos, negsuc}
use nare.Session.Types.{Session, Usage, Budget, total_tokens, add_usage, add_cost}
use nare.Loop.Budget.{
  Configured, configured, rejected, token_reasons, usd_reasons, reasons, stop_for, check_budget,
  set_tokens, set_usd, override, and_then, configure_budgets,
}

abbrev pub TokensLeft : Option ℕ → ℕ → Type 0
TokensLeft none used = Unit
TokensLeft (some limit) used = used < limit

-- A money ceiling leaves something only while the cost is known.
abbrev pub UsdLeft : Option ℕ → Option ℕ → Type 0
UsdLeft none cost = Unit
UsdLeft (some limit) none = ⊥
UsdLeft (some limit) (some cost) = cost < limit

token_reasons_iff :
    (limit : Option ℕ) (used : ℕ) → (token_reasons limit used ≡ []) ↔ TokensLeft limit used
unfolding token_reasons
token_reasons_iff none used = ((λ _. tt), λ _. refl)
token_reasons_iff (some limit) used = ground arith

usd_reasons_iff :
    (shown : ℕ → Text) (limit cost : Option ℕ)
    → (usd_reasons shown limit cost ≡ []) ↔ UsdLeft limit cost
unfolding usd_reasons
usd_reasons_iff shown none cost = ((λ _. tt), λ _. refl)
usd_reasons_iff shown (some limit) none = ((λ e. absurd (cc e)), λ h. absurd h)
usd_reasons_iff shown (some limit) (some cost) = ground arith

stop_for_iff : (rs : List Text) (s : Session) → ((stop_for rs s).0 ≡ false) ↔ (rs ≡ [])
unfolding stop_for
stop_for_iff [] s = ((λ _. refl), λ _. refl)
stop_for_iff (r ∷ rs) s = ((λ e. absurd (cc e)), λ e. absurd (cc e))

-- A run goes on exactly while its input, output, cache read and cache write tokens together are below
-- the token ceiling and its cost is known and below the money ceiling, where those are set.
pub check_budget_iff :
    (shown : ℕ → Text) (s : Session)
    → (((check_budget shown s).0 ≡ false) ↔ (
        TokensLeft s.budget.tokens
          (s.usage.input + s.usage.output + s.usage.cache_read + s.usage.cache_write)
        × UsdLeft s.budget.usd s.usage.cost))
unfolding check_budget reasons total_tokens
check_budget_iff shown s =
    let tokens = token_reasons s.budget.tokens (total_tokens s.usage) in
    let usd = usd_reasons shown s.budget.usd s.usage.cost in
    let stops = stop_for_iff (tokens ++ usd) s in
    let both = append-eq-nil tokens usd in
    let by_tokens = token_reasons_iff s.budget.tokens (total_tokens s.usage) in
    let by_usd = usd_reasons_iff shown s.budget.usd s.usage.cost in
    (
      (λ e. let (t, u) = both.0 (stops.0 e) in (by_tokens.0 t, by_usd.0 u)),
      (λ (t, u). stops.1 (both.1 (by_tokens.1 t, by_usd.1 u))),
    )

TokensLeft-add :
    (limit : Option ℕ) (u more : Usage)
    → TokensLeft limit (total_tokens (add_usage u more))
    → TokensLeft limit (total_tokens u)
unfolding add_usage total_tokens
TokensLeft-add none u more h = tt
TokensLeft-add (some limit) u more h = omega arith

UsdLeft-add : (limit cost more : Option ℕ) → UsdLeft limit (add_cost cost more) → UsdLeft limit cost
unfolding add_cost
UsdLeft-add none cost more h = tt
UsdLeft-add (some limit) none more h = h
UsdLeft-add (some limit) (some cost) none h = absurd h
UsdLeft-add (some limit) (some cost) (some extra) h = omega arith

-- A run that its budget stopped is stopped again after any further usage.
check_budget-add_usage :
    (shown : ℕ → Text) (s : Session) (more : Usage)
    → (check_budget shown s).0 ≡ true
    → (check_budget shown (record s { usage = add_usage s.usage more })).0 ≡ true
unfolding add_usage total_tokens
check_budget-add_usage shown s more e =
    elim (Bool-cases (check_budget shown (record s { usage = add_usage s.usage more })).0) [
      | inl stops ↦ stops
      | inr goes ↦
          let (t, u) =
            (check_budget_iff shown (record s { usage = add_usage s.usage more })).0 goes in
          let went = (check_budget_iff shown s).1 (
            TokensLeft-add s.budget.tokens s.usage more t,
            UsdLeft-add s.budget.usd s.usage.cost more.cost u,
          ) in
          absurd (cc (sym e ∙ went))
    ]

-- A ceiling after it is set to what is given over what is saved.
abbrev SetTo : Option ℤ → Option ℕ → Option ℕ → Type 0
SetTo none saved after = after ≡ saved
SetTo (some (negsuc n)) saved after = ⊥
SetTo (some (pos n)) saved after = (0 < n) × (after ≡ some n)

set_tokens-SetTo :
    (o : Option ℤ) (b after : Budget)
    → set_tokens o b ≡ configured after
    → SetTo o b.tokens after.tokens × (after.usd ≡ b.usd)
unfolding set_tokens
set_tokens-SetTo none b after e =
    (ap (λ c. c.tokens) (same_budget e), ap (λ c. c.usd) (same_budget e))
  where
    same_budget : configured b ≡ configured after → after ≡ b
    same_budget h = cc h
set_tokens-SetTo (some (negsuc n)) b after e = absurd (cc e)
set_tokens-SetTo (some (pos n)) b after e = ground arith

set_usd-SetTo :
    (o : Option ℤ) (b after : Budget)
    → set_usd o b ≡ configured after
    → SetTo o b.usd after.usd × (after.tokens ≡ b.tokens)
unfolding set_usd
set_usd-SetTo none b after e = (ap (λ c. c.usd) (same_budget e), ap (λ c. c.tokens) (same_budget e))
  where
    same_budget : configured b ≡ configured after → after ≡ b
    same_budget h = cc h
set_usd-SetTo (some (negsuc n)) b after e = absurd (cc e)
set_usd-SetTo (some (pos n)) b after e = ground arith

and_then-configured :
    (m : Configured) (f : Budget → Configured) (after : Budget)
    → and_then m f ≡ configured after
    → (b : Budget) × (m ≡ configured b) × (f b ≡ configured after)
and_then-configured (configured b) f after e = (b, refl, e)
and_then-configured (rejected r b) f after e = absurd (cc e)

-- The ceiling after configuring: the given one where one is given, else the saved one where there is
-- one, and positive either way; else none.
abbrev pub SetBy : Option ℤ → Option ℕ → Option ℕ → Type 0
SetBy (some (pos n)) saved after = (0 < n) × (after ≡ some n)
SetBy (some (negsuc n)) saved after = ⊥
SetBy none (some n) after = (0 < n) × (after ≡ some n)
SetBy none none after = after ≡ none

SetTo-SetBy :
    (given : Option ℤ) (saved after : Option ℕ)
    → SetTo (override given saved) saved after
    → SetBy given saved after
SetTo-SetBy (some (pos n)) saved after h = h
SetTo-SetBy (some (negsuc n)) saved after h = h
SetTo-SetBy none (some n) after h = h
SetTo-SetBy none none after h = h

-- Where configuring the ceilings is not rejected, each ceiling that is given is positive and is the one
-- set, whatever is saved; where none is given, a saved one is positive and stays; else none is set.
pub configure_budgets-SetBy :
    (b after : Budget) (tokens usd : Option ℤ)
    → configure_budgets b tokens usd ≡ configured after
    → SetBy tokens b.tokens after.tokens × SetBy usd b.usd after.usd
unfolding configure_budgets
configure_budgets-SetBy b after tokens usd e =
    let (middle, first, second) =
      and_then-configured (set_tokens (override tokens b.tokens) b) (set_usd (override usd b.usd))
        after e in
    let (t, u) = set_tokens-SetTo (override tokens b.tokens) b middle first in
    let (v, w) = set_usd-SetTo (override usd b.usd) middle after second in
    (SetTo-SetBy tokens b.tokens after.tokens (rw w t), SetTo-SetBy usd b.usd after.usd (rw u at v))
