-- ===== src/Retry/Bounds.antt =====
-- The retry loop ends, within its two budgets, and every retry is counted and reported.
use nare.Prelude.{
  ℕ, zero, suc, ◌+◌, ◌≤◌, ◌<◌, ◌≡◌, refl, ◌≢◌, ◌⊎◌, inl, inr, List, [], ◌∷◌, ◌++◌, Option, none,
  some, arith, length, length-append, Option-cases,
}
use native.Mathlib.Decide.{ℕ_discrete}
use nare.Retry.Failure.{Raised, Transient}
use nare.Retry.Loop.{
  RetryPolicy, Classify, classify_of, wait, Attempt, reply, raised, Retried, Progress, Outcome,
  returned, reraised, after_failure, loop_from, begin, with_retries,
}

-- The time that the reported retries waited.
abbrev pub total_wait : List Retried → ℕ
total_wait [] = 0
total_wait (e ∷ es) = e.waited + total_wait es

total_wait-append : (xs ys : List Retried) → total_wait (xs ++ ys) ≡ total_wait xs + total_wait ys
total_wait-append [] ys = omega arith
total_wait-append (x ∷ xs) ys = omega (arith, total_wait-append xs ys)

-- The budgets hold, and the count, the events and the waiting tell the same story.
pub record IsWithin (policy : RetryPolicy) (start : ℕ) (p : Progress) : Type 0 where
  pub made_le : p.made ≤ policy.retries
  pub waited_le : p.waited ≤ policy.seconds
  pub counted : p.session_retries ≡ start + p.made
  pub reported : length p.events ≡ p.made
  pub summed : total_wait p.events ≡ p.waited

begin-IsWithin : (policy : RetryPolicy) (start : ℕ) → IsWithin policy start (begin start)
begin-IsWithin policy start = omega arith

after_failure-IsWithin :
    (classify : Classify) (policy : RetryPolicy) (start : ℕ) (e : List Raised) (p q : Progress)
    → IsWithin policy start p
    → after_failure classify policy e p ≡ some q
    → IsWithin policy start q × (q.made ≡ p.made + 1)
unfolding after_failure
after_failure-IsWithin classify policy start e p q h eq = elim (Option-cases (classify e)) [
  | inl permanent ↦ ground arith
  | inr (found, t) ↦
      let w = wait (p.made + 1) found in
      let event : List Retried = record { attempt = p.made + 1; found = found; waited = w } ∷ [] in
      ground (arith, length-append p.events event, total_wait-append p.events event)
]

-- The call made after `n` failures ended in a failure that may be resent.
abbrev pub FailedTransiently : {A : Type 0} → Classify → Attempt A → Type 0
FailedTransiently classify (reply a) = ⊥
FailedTransiently classify (raised e) = classify e ≢ none

-- How the loop ended: the outcome is that of the last call made, and a failure is raised only
-- where it is permanent, or one of the two budgets does not reach.
abbrev pub Ends :
    {A : Type 0} → Classify → RetryPolicy → (ℕ → Attempt A) → Outcome A → Progress → Type 0
Ends classify policy attempts (returned a) p = attempts p.made ≡ reply a
Ends classify policy attempts (reraised e) p =
    (attempts p.made ≡ raised e)
    × ((classify e ≡ none)
        ⊎ ((t : Transient) × (classify e ≡ some t)
            × ((policy.retries ≤ p.made) ⊎ (policy.seconds < p.waited + wait (p.made + 1) t))))

after_failure-stops :
    (classify : Classify) (policy : RetryPolicy) (e : List Raised) (p : Progress)
    → after_failure classify policy e p ≡ none
    → (classify e ≡ none)
      ⊎ ((t : Transient) × (classify e ≡ some t)
          × ((policy.retries ≤ p.made) ⊎ (policy.seconds < p.waited + wait (p.made + 1) t)))
unfolding after_failure
after_failure-stops classify policy e p h = elim (Option-cases (classify e)) [
  | inl permanent ↦ inl permanent
  | inr (t, found) ↦ inr (t, found, ground arith)
]

after_failure-transient :
    (classify : Classify) (policy : RetryPolicy) (e : List Raised) (p q : Progress)
    → after_failure classify policy e p ≡ some q
    → classify e ≢ none
unfolding after_failure
after_failure-transient classify policy e p q h = ground arith

-- What one run of the loop promises from the state `p`.
abbrev Finishes :
    {A : Type 0}
    → Classify
    → RetryPolicy
    → (ℕ → Attempt A)
    → ℕ
    → ℕ
    → Option (Outcome A × Progress)
    → Type 0
Finishes {A} classify policy attempts start from r =
    (o : Outcome A) × (q : Progress) × (r ≡ some (o, q))
    × IsWithin policy start q
    × Ends classify policy attempts o q
    × ((n : ℕ) → from ≤ n → n < q.made → FailedTransiently classify (attempts n))

module _ {A : Type 0} (classify : Classify) (policy : RetryPolicy) (attempts : ℕ → Attempt A)
    (start : ℕ) where
  failed_before :
      (e : List Raised) (p : Progress) (m : ℕ)
      → attempts p.made ≡ raised e
      → classify e ≢ none
      → ((n : ℕ) → p.made + 1 ≤ n → n < m → FailedTransiently classify (attempts n))
      → (n : ℕ) → p.made ≤ n
      → n < m
      → FailedTransiently classify (attempts n)
  failed_before e p m eq t later n lo hi = elim (ℕ_discrete p.made n) [
    | yes same ↦ rw (← same) (rw eq t)
    | no other ↦ later n (omega arith) hi
  ]

  -- What is left to show of one round once the call has failed.
  failed-Finishes :
      (fuel : ℕ) (e : List Raised) (p : Progress) (o : Option Progress)
      → attempts p.made ≡ raised e
      → after_failure classify policy e p ≡ o
      → IsWithin policy start p
      → ((q : Progress)
          → IsWithin policy start q
          → q.made ≡ p.made + 1
          → Finishes classify policy attempts start q.made
              (loop_from classify policy attempts fuel q))
      → Finishes classify policy attempts start p.made
          (loop_from classify policy attempts (suc fuel) p)
  unfolding loop_from
  failed-Finishes fuel e p none a s h again = (
    reraised e,
    p,
    rw (a, s, loop_from),
    h,
    (a, after_failure-stops classify policy e p s),
    λ n lo hi. absurd (omega arith),
  )
  failed-Finishes fuel e p (some q) a s h again =
      let (within, made) = after_failure-IsWithin classify policy start e p q h s in
      let (o, r, eq, kept, ends, before) = again q within made in
      (
        o,
        r,
        rw (a, s, loop_from) eq,
        kept,
        ends,
        failed_before e p r.made a (after_failure-transient classify policy e p q s)
            (λ n lo hi. before n (omega arith) hi),
      )

  round-Finishes :
      (fuel : ℕ) (p : Progress) (x : Attempt A)
      → attempts p.made ≡ x
      → IsWithin policy start p
      → ((q : Progress)
          → IsWithin policy start q
          → q.made ≡ p.made + 1
          → Finishes classify policy attempts start q.made
              (loop_from classify policy attempts fuel q))
      → Finishes classify policy attempts start p.made
          (loop_from classify policy attempts (suc fuel) p)
  unfolding loop_from
  round-Finishes fuel p (reply a) eq h again =
      (returned a, p, rw (eq, loop_from), h, eq, λ n lo hi. absurd (omega arith))
  round-Finishes fuel p (raised e) eq h again =
      failed-Finishes fuel e p (after_failure classify policy e p) eq refl h again

  loop_from-Finishes :
      (fuel : ℕ) (p : Progress)
      → IsWithin policy start p
      → policy.retries < fuel + p.made
      → Finishes classify policy attempts start p.made (loop_from classify policy attempts fuel p)
  loop_from-Finishes zero p h f = absurd (omega (arith, h.made_le))
  loop_from-Finishes (suc fuel) p h f =
      round-Finishes fuel p (attempts p.made) refl h
        (λ q k m. loop_from-Finishes fuel q k (omega arith))

pub with_retries_total :
    {A : Type 0} (own : Option Classify) (policy : RetryPolicy) (attempts : ℕ → Attempt A)
    (start : ℕ)
    → (o : Outcome A) × (q : Progress) × (with_retries own policy attempts start ≡ some (o, q))
      × IsWithin policy start q
      × Ends (classify_of own) policy attempts o q
      × ((n : ℕ) → n < q.made → FailedTransiently (classify_of own) (attempts n))
unfolding with_retries
with_retries_total own policy attempts start =
    let (o, q, eq, within, ends, before) =
      loop_from-Finishes (classify_of own) policy attempts start (policy.retries + 1) (begin start)
        (begin-IsWithin policy start) (omega arith) in
    (o, q, eq, within, ends, λ n hi. before n (omega arith) hi)
