-- ===== src/Tool/Arguments.antt =====
-- The arguments of a call: `check_arguments` and `_arguments` (src/nare/tools.py).
use nare.Prelude.{
  Bool, true, false, not, ◌||◌, List, [], ◌∷◌, ◌++◌, map, Text, codes, same, has, keep, join,
  if◌then◌else◌,
}
use nare.Json.Value.{Value, null, Fields, end, field}
use nare.Compact.Stub.{ask}

abbrev pub is_null : Value → Bool
is_null null = true
is_null _ = false

-- The keys of an object, in order.
unfoldable pub keys_in : Fields → List Text
keys_in end = []
keys_in (field k v fs) = k ∷ keys_in fs

-- A dict comprehension over an object's items.
unfoldable pub keep_fields : (Text → Value → Bool) → Fields → Fields
keep_fields p end = end
keep_fields p (field k v fs) = let rest = keep_fields p fs in if p k v then field k v rest else rest

-- A tool's input schema: its properties by name, those that are required, and what the validator says
-- of the arguments it names.
pub record InputSchema : Type 0 where
  pub properties : List Text
  pub required : List Text
  pub complaints : Fields → List Text

abbrev pub takes : List Text → Text
takes [] = codes "no parameters"
takes (p ∷ ps) = join (codes ", ") (p ∷ ps)

abbrev pub missing_text : Text → Text
missing_text p = codes "missing required parameter " ++ p

abbrev pub unknown_text : Text → List Text → Text → Text
unknown_text name properties p =
    codes "unknown parameter "
    ++ (p ++ (codes "; " ++ (name ++ (codes " takes " ++ takes properties))))

-- The arguments to run with, and every problem.
unfoldable pub check_arguments : Text → InputSchema → Bool → Fields → Fields × List Text
unfolding keys_in keep_fields
check_arguments name schema own_type_check given =
    let args = keep_fields (λ k v. not (is_null v) || has k schema.required) given in
    let missing = keep (λ p. not (has p (keys_in args))) schema.required in
    let unknown = keep (λ p. not (has p schema.properties)) (keys_in args) in
    (
      args,
      map missing_text missing
          ++ (map (unknown_text name schema.properties) unknown
              ++ (if own_type_check
                  then []
                  else schema.complaints (keep_fields (λ k v. has k schema.properties) args))),
    )

-- `ask` checks its own types.
unfoldable pub built_in_arguments : Text → InputSchema → Fields → Fields × List Text
unfolding check_arguments
built_in_arguments name schema args = check_arguments name schema (same name ask) args
