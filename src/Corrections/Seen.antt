-- ===== src/Corrections/Seen.antt =====
-- The errors a run has seen, and which of them a correction names as fixed.
use nare.Prelude.{
  ℕ, ◌≡◌, refl, ap, ◌∙◌, ◌↔◌, ◌⊎◌, inl, map, [], Option, Bool, true, false, not, ◌&&◌, ◌||◌, List,
  none, some, Text, arith, has, has-keep, has-add_new, add_new-Distinct, Distinct, ◌≤◌, length,
}
use nare.Session.Types.{Session}
use nare.Corrections.Charge.{
  Correction, code_of, codes_of, is_free, fewer_than, used, charge, recorded, granted, earlier_of,
  charge-granted,
}

has-codes_of :
    (k : Text) (errors : List Text) → has k (codes_of errors) ≡ has k (map code_of errors)
unfolding codes_of has
has-codes_of k errors = has-add_new k [] (map code_of errors)

-- No free correction is left: the answer cannot be compared, the limit leaves none, or no fewer error
-- codes were made than in the best earlier answer.
abbrev pub NotFree : Bool → ℕ → ℕ → Option ℕ → Type 0
NotFree comparable limit n none = Unit
NotFree comparable limit n (some fewest) = (comparable ≡ false) ⊎ (limit ≤ 1) ⊎ (fewest ≤ n)

is_free_iff :
    (comparable : Bool) (limit n : ℕ) (fewest : Option ℕ)
    → (is_free comparable limit n fewest ≡ false) ↔ NotFree comparable limit n fewest
unfolding is_free fewer_than
is_free_iff false limit n none = ((λ _. tt), λ _. refl)
is_free_iff true limit n none = ground arith
is_free_iff false limit n (some fewest) = ((λ _. inl refl), λ _. refl)
is_free_iff true limit n (some fewest) = ground arith

-- A correction is refused exactly where the budget is spent and no free one is left: the answer cannot
-- be compared, the limit is one at most, there was no earlier one, or the answer has no fewer error
-- codes than the best earlier one.
pub charge_refused_iff :
    (s : Session) (errors : List Text) (limit : ℕ) (comparable : Bool) (kind : Text)
    → ((charge s errors limit comparable kind).0 ≡ none) ↔ (
        (limit ≤ s.schema_corrections)
        × NotFree comparable limit (length (codes_of errors)) s.schema_fewest_errors)
unfolding charge used
charge_refused_iff s errors limit comparable kind =
    ground (arith, is_free_iff comparable limit (length (codes_of errors)) s.schema_fewest_errors)

-- A refused correction is one that is not free with the budget spent, and it changes nothing.
pub charge_refused :
    (s : Session) (errors : List Text) (limit : ℕ) (comparable : Bool) (kind : Text)
    → (charge s errors limit comparable kind).0 ≡ none
    → ((charge s errors limit comparable kind).1 ≡ s)
      × (limit ≤ s.schema_corrections)
      × (is_free comparable limit (length (codes_of errors)) s.schema_fewest_errors ≡ false)
unfolding charge used
charge_refused s errors limit comparable kind h = ground arith

-- Where a run has seen no error code twice, a correction granted to a comparable answer names as fixed
-- exactly the codes that the run had seen and that no error of this answer has, and the run has then
-- seen exactly the codes it had seen and those of all the errors of this answer, none of them twice.
pub charge_seen :
    (s : Session) (errors : List Text) (limit : ℕ) (kind : Text) (c : Correction)
    → Distinct s.schema_errors_seen
    → (charge s errors limit true kind).0 ≡ some c
    → let after = (charge s errors limit true kind).1 in
      ((k : Text)
        → has k c.earlier ≡ (has k s.schema_errors_seen && not (has k (map code_of errors))))
      × ((k : Text)
          → has k after.schema_errors_seen
            ≡ (has k s.schema_errors_seen || has k (map code_of errors)))
      × Distinct after.schema_errors_seen
unfolding recorded granted earlier_of codes_of
charge_seen s errors limit kind c d e =
    let (after, earlier, _, _) = charge-granted s errors limit true kind c e in
    rw (after, earlier)
      (
        (λ k.
            has-keep k (λ code. not (has code (codes_of errors))) s.schema_errors_seen
            ∙ ap (λ b. has k s.schema_errors_seen && not b) (has-codes_of k errors)),
        (λ k.
            has-add_new k s.schema_errors_seen (codes_of errors)
            ∙ ap (λ b. has k s.schema_errors_seen || b) (has-codes_of k errors)),
        add_new-Distinct s.schema_errors_seen (codes_of errors) d,
      )
