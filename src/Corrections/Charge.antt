-- ===== src/Corrections/Charge.antt =====
-- Granting or refusing a correction: `code_of`, `charge`, `used` and the `Correction`
-- (src/nare/corrections.py).
use nare.Prelude.{
  ℕ, ◌+◌, min, Bool, true, false, not, ◌&&◌, List, [], ◌∷◌, ◌++◌, map, Option, none, some, Text,
  codes, same, has, starts_with, length, ltb, leb, if◌then◌else◌, keep, add_new, ◌≡◌, ◌<◌, ◌⊎◌,
  arith,
}
use nare.Session.Types.{Session}

abbrev pub schema_corrections_default : ℕ
schema_corrections_default = 1

pub record Correction : Type 0 where
  pub number : ℕ
  pub charged : Bool
  pub codes : List Text
  pub earlier : List Text
  pub limit : ℕ
  pub kind : Text

abbrev pub got : Text
got = codes ", got "

-- `error.partition(", got ")[0]`: what stands before the first place that starts so.
unfoldable pub code_of : Text → Text
code_of [] = []
code_of (c ∷ cs) = if starts_with got (c ∷ cs) then [] else c ∷ code_of cs

-- The distinct codes of the errors, in the order reported.
unfoldable pub codes_of : List Text → List Text
codes_of errors = add_new [] (map code_of errors)

unfoldable pub used : Session → ℕ
used s = s.schema_corrections

-- Whether fewer errors were made than in every earlier failing answer of the run.
unfoldable pub fewer_than : ℕ → Option ℕ → Bool
fewer_than n none = false
fewer_than n (some fewest) = ltb n fewest

unfoldable pub is_free : Bool → ℕ → ℕ → Option ℕ → Bool
unfolding fewer_than
is_free comparable limit n fewest = comparable && (ltb 1 limit && fewer_than n fewest)

unfoldable pub fewest_of : ℕ → Option ℕ → ℕ
fewest_of n none = n
fewest_of n (some fewest) = min fewest n

unfoldable pub earlier_of : Bool → List Text → List Text → List Text
earlier_of false codes seen = []
earlier_of true codes seen = keep (λ code. not (has code codes)) seen

-- The error record of the run, which an answer that is not JSON leaves alone.
unfoldable pub recorded : Bool → List Text → Session → Session
unfolding fewest_of
recorded false codes s = s
recorded true codes s = record s {
  schema_errors_seen = add_new s.schema_errors_seen codes;
  schema_fewest_errors = some (fewest_of (length codes) s.schema_fewest_errors);
}

abbrev pub schema_kind : Text
schema_kind = codes "schema"

-- What a grant changes besides the error record.
unfoldable pub granted : Bool → Text → List Text → Session → Session
granted charged kind codes s = record s {
  schema_corrections = if charged then s.schema_corrections + 1 else s.schema_corrections;
  schema_retried = if same kind schema_kind then true else s.schema_retried;
  schema_correction_log =
      s.schema_correction_log ++ record { kind = kind; charged = charged; codes = codes } ∷ [];
}

-- `none` is a refusal: the budget is spent and the answer is not free.
unfoldable pub charge : Session → List Text → ℕ → Bool → Text → Option Correction × Session
charge s errors limit comparable kind =
    let codes = codes_of errors in
    let free = is_free comparable limit (length codes) s.schema_fewest_errors in
    let after = granted (not free) kind codes (recorded comparable codes s) in
    if not free && leb limit (used s) then (none, s) else (
      some (record {
        number = length after.schema_correction_log;
        charged = not free;
        codes = codes;
        earlier = earlier_of comparable codes s.schema_errors_seen;
        limit = limit;
        kind = kind;
      }),
      after,
    )

-- What a grant did, and that the budget or the answer allowed it.
pub charge-granted :
    (s : Session) (errors : List Text) (limit : ℕ) (comparable : Bool) (kind : Text)
    (c : Correction)
    → (charge s errors limit comparable kind).0 ≡ some c
    → let codes = codes_of errors in
      let free = is_free comparable limit (length codes) s.schema_fewest_errors in
      ((charge s errors limit comparable kind).1
        ≡ granted (not free) kind codes (recorded comparable codes s))
      × (c.earlier ≡ earlier_of comparable codes s.schema_errors_seen)
      × (c.charged ≡ not free)
      × ((free ≡ true) ⊎ (s.schema_corrections < limit))
unfolding charge used
charge-granted s errors limit comparable kind c h = ground arith
