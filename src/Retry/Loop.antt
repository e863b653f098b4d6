-- ===== src/Retry/Loop.antt =====
-- The retry loop of `_with_retries` (src/nare/loop.py).
use nare.Prelude.{
  ℕ, zero, suc, ◌+◌, ◌*◌, ◌^◌, ◌-◌, min, max, List, [], ◌∷◌, ◌++◌, Option, none, some, ltb, leb,
  if◌then◌else◌,
}
use nare.Retry.Failure.{Raised, Transient, transient}

abbrev pub first_wait : ℕ
first_wait = 2_000

abbrev pub max_wait : ℕ
max_wait = 30_000

pub record RetryPolicy : Type 0 where
  pub retries : ℕ
  pub seconds : ℕ

-- Exponential from two seconds, capped at thirty; a Retry-After lengthens it.
unfoldable pub wait : ℕ → Transient → ℕ
wait attempt found =
    let capped = min (first_wait * 2 ^ (attempt - 1)) max_wait in
    elim found.retry_after [ none ↦ capped | some after ↦ max capped after ]

-- How one call of the transport ends: with a reply, or with an exception and its causes.
pub data Attempt (A : Type 0) : Type 0 where
  reply : A → Attempt A
  raised : List Raised → Attempt A

-- One `progress` event of a retry: its number, the reason found and the wait.
pub record Retried : Type 0 where
  pub attempt : ℕ
  pub found : Transient
  pub waited : ℕ

-- What the loop changes: the requests resent, the time waited, the session's count, the events.
pub record Progress : Type 0 where
  pub made : ℕ
  pub waited : ℕ
  pub session_retries : ℕ
  pub events : List Retried

-- The outcome: the transport's reply, or its last failure raised as it came.
pub data Outcome (A : Type 0) : Type 0 where
  returned : A → Outcome A
  reraised : List Raised → Outcome A

-- The bookkeeping before the next attempt.
abbrev pub resent : Progress → Transient → ℕ → Progress
resent p found w = record {
  made = p.made + 1;
  waited = p.waited + w;
  session_retries = p.session_retries + 1;
  events = p.events ++ (record { attempt = p.made + 1; found = found; waited = w } ∷ []);
}

-- Which failures may be resent.
abbrev pub Classify : Type 0
Classify = List Raised → Option Transient

-- `getattr(transport, "transient", None) or transient`: the transport's own rule, where it has one.
unfoldable pub classify_of : Option Classify → Classify
classify_of none = transient
classify_of (some own) = own

-- The tests on one failure: `none` raises it, `some` goes round again.
unfoldable pub after_failure : Classify → RetryPolicy → List Raised → Progress → Option Progress
after_failure classify policy e p = elim (classify e) [
  | none ↦ none
  | some found ↦
      if leb policy.retries p.made
      then none
      else if ltb policy.seconds (p.waited + wait (p.made + 1) found)
      then none
      else some (resent p found (wait (p.made + 1) found))
]

-- `while True`, on fuel; `attempts n` is how the call with `n` before it ends. `none` means
-- that the fuel ran out.
unfoldable pub loop_from :
    {A : Type 0}
    → Classify
    → RetryPolicy
    → (ℕ → Attempt A)
    → ℕ
    → Progress
    → Option (Outcome A × Progress)
loop_from classify policy attempts zero p = none
loop_from classify policy attempts (suc fuel) p = elim (attempts p.made) [
  | reply a ↦ some (returned a, p)
  | raised e ↦ elim (after_failure classify policy e p) [
    | none ↦ some (reraised e, p)
    | some q ↦ loop_from classify policy attempts fuel q
  ]
]

-- One more attempt than the policy allows retries.
abbrev pub enough : RetryPolicy → ℕ
enough policy = policy.retries + 1

abbrev pub begin : ℕ → Progress
begin session_retries = record {
  made = 0;
  waited = 0;
  session_retries = session_retries;
  events = [];
}

unfoldable pub with_retries :
    {A : Type 0}
    → Option Classify
    → RetryPolicy
    → (ℕ → Attempt A)
    → ℕ
    → Option (Outcome A × Progress)
with_retries own policy attempts session_retries =
    loop_from (classify_of own) policy attempts (enough policy) (begin session_retries)
