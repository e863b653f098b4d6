-- ===== src/Tests/Correcting.antt =====
-- Two failing answers in a run (src/nare/corrections.py).
use nare.Prelude.{
  map, ◌↔◌, ◌+◌, ◌≡◌, ◌≤◌, refl, arith, true, not, ◌&&◌, ◌||◌, List, [], ◌∷◌, length, none, some,
  Text, codes, has, same, starts_with, add_new, All, Distinct,
}
use nare.Session.Reopen.{reopen}
use nare.Corrections.Charge.{
  Correction, code_of, codes_of, used, is_free, fewer_than, recorded, granted, earlier_of, charge,
  schema_kind,
}
use nare.Corrections.Seen.{NotFree, charge_refused_iff, charge_seen}
use nare.Corrections.Bound.{Failing, charge_all, charge_all_bounded}
use nare.Tests.Resuming.{stopped_session}

abbrev missing_id : Text
missing_id = codes "id: expected integer, got string"

abbrev missing_name : Text
missing_name = codes "missing required property: name"

abbrev first_fix : Correction
first_fix = record {
  number = 1;
  charged = true;
  codes = codes "id: expected integer" ∷ [];
  earlier = [];
  limit = 2;
  kind = schema_kind;
}

first_fix-granted : (charge stopped_session (missing_id ∷ []) 2 true schema_kind).0 ≡ some first_fix
unfolding charge codes_of code_of starts_with add_new has same is_free fewer_than recorded granted
    earlier_of used
first_fix-granted = refl

charge_seen_example :
    let after = (charge stopped_session (missing_id ∷ []) 2 true schema_kind).1 in
    ((k : Text)
      → has k first_fix.earlier ≡ (has k [] && not (has k (map code_of (missing_id ∷ [])))))
    × ((k : Text)
        → has k after.schema_errors_seen ≡ (has k [] || has k (map code_of (missing_id ∷ []))))
    × Distinct after.schema_errors_seen
charge_seen_example =
    charge_seen stopped_session (missing_id ∷ []) 2 schema_kind first_fix tt first_fix-granted

no_budget-refused : (charge stopped_session (missing_id ∷ []) 0 true schema_kind).0 ≡ none
unfolding charge codes_of code_of starts_with add_new has same is_free fewer_than recorded granted
    earlier_of used
no_budget-refused = refl

charge_refused_iff_example :
    ((charge stopped_session (missing_id ∷ []) 0 true schema_kind).0 ≡ none)
    ↔ ((0 ≤ 0) × NotFree true 0 (length (codes_of (missing_id ∷ []))) none)
charge_refused_iff_example = charge_refused_iff stopped_session (missing_id ∷ []) 0 true schema_kind

abbrev answers_given : List Failing
answers_given =
    record { errors = missing_id ∷ missing_name ∷ []; comparable = true; kind = schema_kind }
    ∷ record { errors = missing_name ∷ []; comparable = true; kind = schema_kind }
    ∷ []

few_codes : All (λ f. length (codes_of f.errors) ≤ 2) answers_given
unfolding codes_of code_of starts_with add_new has same
few_codes = (omega arith, (omega arith, tt))

charge_all_bounded_example :
    let after = charge_all 2 answers_given (reopen stopped_session none) in
    (after.schema_corrections ≤ 2) × (length after.schema_correction_log ≤ 2 + 2)
charge_all_bounded_example = charge_all_bounded 2 2 answers_given stopped_session none few_codes
