-- ===== src/Repetition/Tail.antt =====
-- The rule reads only the tail of a text.
use nare.Prelude.{
  ℕ, zero, suc, ◌+◌, ◌-◌, ◌≤◌, ◌≡◌, refl, sym, ◌∙◌, min, [], ◌∷◌, ◌++◌, Text, arith, length,
  length-append, drop, ltb, ltb→lt, Bool-cases, inl, inr,
}
use native.Mathlib.Nat.{zero-add, suc-add}
use nare.Repetition.Rule.{Limits, kept, last, repeats, any_period, periodic, degenerate}

pub drop-append_more : (pre t : Text) (k : ℕ) → drop (length pre + k) (pre ++ t) ≡ drop k t
drop-append_more [] t k = rw zero-add
drop-append_more (x ∷ pre) t k = rw (suc-add, drop-append_more pre t k)

from_end :
    (pre t : Text) (n : ℕ)
    → n ≤ length t
    → drop (length (pre ++ t) - n) (pre ++ t) ≡ drop (length t - n) t
from_end pre t n h =
    let e : length (pre ++ t) - n ≡ length pre + (length t - n) =
      omega (arith, length-append pre t) in
    rw e (drop-append_more pre t (length t - n))

last-append : (pre t : Text) (n : ℕ) → n ≤ length t → last n (pre ++ t) ≡ last n t
unfolding last
last-append pre t n h = from_end pre t n h

repeats-append :
    (pre t : Text) (span period : ℕ)
    → span + period ≤ length t
    → repeats (pre ++ t) span period ≡ repeats t span period
unfolding repeats
repeats-append pre t span period h =
    let e : length (pre ++ t) - span - period ≡ length pre + (length t - span - period) =
      omega (arith, length-append pre t) in
    rw (last-append pre t span (omega arith), e, drop-append_more pre t (length t - span - period))

any_period-append :
    (pre t : Text) (span n : ℕ)
    → span + n ≤ length t
    → any_period (pre ++ t) span n ≡ any_period t span n
unfolding any_period
any_period-append pre t span zero h = refl
any_period-append pre t span (suc n) h =
    rw (
      any_period-append pre t span n (omega arith),
      repeats-append pre t span (suc n) (omega arith),
    )

-- A text too short for the span has a period of none.
periodic-long :
    (m : ℕ) (t : Text) (span : ℕ) → span + m ≤ length t → periodic m t span ≡ any_period t span m
unfolding periodic
periodic-long m t span h = elim (Bool-cases (ltb (length t) (span + 1))) [
  | inl short ↦
      let none_left : m ≡ 0 = omega (arith, ltb→lt (length t) (span + 1) short) in
      rw (short, none_left) (unfold any_period in refl)
  | inr long ↦ let all_left : min m (length t - span) ≡ m = omega arith in rw (long, all_left)
]

periodic-append :
    (m : ℕ) (pre t : Text) (span : ℕ)
    → span + m ≤ length t
    → periodic m (pre ++ t) span ≡ periodic m t span
periodic-append m pre t span h =
    periodic-long m (pre ++ t) span (omega (arith, length-append pre t))
    ∙ any_period-append pre t span m h
    ∙ sym (periodic-long m t span h)

-- A text and its tail are judged alike, once the tail is as long as what the rule reads.
pub degenerate-append :
    (l : Limits) (pre t : Text)
    → l.max_period ≤ l.repeat_span
    → kept l ≤ length t
    → degenerate l (pre ++ t) ≡ degenerate l t
unfolding degenerate
degenerate-append l pre t h k =
    rw
      (periodic-append l.max_period pre t l.repeat_span (omega arith), last-append pre t (kept l) k)
