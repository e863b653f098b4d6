-- ===== src/Repetition/Periodic.antt =====
-- What the rule finds: a period, within its bounds, with which the tail repeats.
use nare.Prelude.{
  ℕ, zero, suc, ◌+◌, ◌-◌, ◌≤◌, ◌≡◌, ◌↔◌, inl, inr, min, true, Text, arith, same_iff, length, take,
  drop, ltb, ltb→lt, Bool-cases,
}
use native.Mathlib.Decide.{ℕ_discrete}
use nare.Repetition.Rule.{last, repeats, any_period, periodic}

-- The last `span` characters of the text are those that stand `period` before them.
abbrev pub RepeatsBy : Text → ℕ → ℕ → Type 0
RepeatsBy text span period =
    drop (length text - span) text ≡ take span (drop (length text - span - period) text)

repeats_iff :
    (text : Text) (span period : ℕ) → (repeats text span period ≡ true) ↔ RepeatsBy text span period
unfolding repeats last
repeats_iff text span period = same_iff _ _

any_period_sound :
    (text : Text) (span n : ℕ)
    → any_period text span n ≡ true
    → (p : ℕ) × (1 ≤ p) × (p ≤ n) × RepeatsBy text span p
unfolding any_period
any_period_sound text span zero h = absurd (cc h)
any_period_sound text span (suc n) h = elim (Bool-cases (any_period text span n)) [
  | inl below ↦ let (p, one, le, r) = any_period_sound text span n below in (p, one, omega arith, r)
  | inr none_below ↦
      (suc n, omega arith, omega arith, (repeats_iff text span (suc n)).0 (rw none_below at h))
]

any_period_complete :
    (text : Text) (span n p : ℕ)
    → 1 ≤ p
    → p ≤ n
    → RepeatsBy text span p
    → any_period text span n ≡ true
unfolding any_period
any_period_complete text span zero p one le r = absurd (omega arith)
any_period_complete text span (suc n) p one le r = elim (ℕ_discrete p (suc n)) [
  | yes e ↦ ground (arith, (repeats_iff text span (suc n)).1 (rw e at r))
  | no ne ↦ ground (arith, any_period_complete text span n p one (omega arith) r)
]

-- The rule on one text answers yes exactly when, for some period of at least one and at most the
-- longest allowed, the text is as long as the span and that period together, and its last
-- `span` characters are the ones that stand that period before them.
pub periodic_iff :
    (longest : ℕ) (text : Text) (span : ℕ)
    → (periodic longest text span ≡ true)
      ↔ ((p : ℕ) × (1 ≤ p) × (p ≤ longest) × (span + p ≤ length text) × RepeatsBy text span p)
unfolding periodic
periodic_iff longest text span = elim (Bool-cases (ltb (length text) (span + 1))) [
  | inl short ↦ (
    rw short (λ e. absurd (cc e)),
    λ h. absurd (omega (arith, ltb→lt (length text) (span + 1) short, h.1, h.3)),
  )
  | inr long ↦ (
    rw long (λ e.
        let (p, one, le, r) = any_period_sound text span (min longest (length text - span)) e in
        (p, one, omega arith, omega arith, r)),
    λ h. rw long (
        any_period_complete text span (min longest (length text - span)) h.0 h.1
          (omega (arith, h.2, h.3)) h.4),
  )
]
