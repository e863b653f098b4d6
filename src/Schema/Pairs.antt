-- ===== src/Schema/Pairs.antt =====
-- Objects that repeat a key: `_Pairs`, `_plain` and `_settle` (src/nare/schema.py). A value as it is
-- written may repeat a key in its fields.
use nare.Prelude.{
  ℕ, ◌+◌, Bool, true, false, not, ◌&&◌, List, [], ◌∷◌, ◌++◌, Text, same, has, if◌then◌else◌,
}
use nare.Json.Value.{
  Value, null, bool, int, float, str, arr, obj, Items, nil, cons, Fields, end, field,
}

-- A step into a value: an object's key or an array's index.
pub data Part : Type 0 where
  key : Text → Part
  index : ℕ → Part

abbrev pub Location : Type 0
Location = List Part

-- `plain[key] = value`: a key keeps its first place.
unfoldable pub set_field : Text → Value → Fields → Fields
set_field k v end = field k v end
set_field k v (field j w fs) = if same j k then field j v fs else field j w (set_field k v fs)

unfoldable pub has_field : Text → Fields → Bool
has_field k end = false
has_field k (field j w fs) = if same j k then true else has_field k fs

-- A repeat is reported once for a key of an object.
abbrev pub is_new_repeat : Text → Fields → List Text → Bool
is_new_repeat k plain repeated = has_field k plain && not (has k repeated)

abbrev pub report : Bool → Location → Text → List (Location × Text)
report true at k = (at, k) ∷ []
report false at k = []

abbrev pub remember : Bool → Text → List Text → List Text
remember true k repeated = k ∷ repeated
remember false k repeated = repeated

-- The plain value, and each repeat with the location of its object, in the order met.
unfoldable mutual
  unfolding set_field

  pub plain_value : Location → Value → Value × List (Location × Text)
  plain_value at (arr items) = let (plain, found) = plain_items at 0 items in (arr plain, found)
  plain_value at (obj fields) =
      let (plain, found) = plain_fields at end [] fields in (obj plain, found)
  plain_value at null = (null, [])
  plain_value at (bool b) = (bool b, [])
  plain_value at (int n) = (int n, [])
  plain_value at (float n k) = (float n k, [])
  plain_value at (str t) = (str t, [])

  pub plain_items : Location → ℕ → Items → Items × List (Location × Text)
  plain_items at i nil = (nil, [])
  plain_items at i (cons v vs) =
      let (plain, found) = plain_value (at ++ index i ∷ []) v in
      let (rest, later) = plain_items at (i + 1) vs in (cons plain rest, found ++ later)

  -- `plain` is the object so far, `repeated` the keys reported of it.
  pub plain_fields : Location → Fields → List Text → Fields → Fields × List (Location × Text)
  plain_fields at plain repeated end = (plain, [])
  plain_fields at plain repeated (field k v fs) =
      let repeats = is_new_repeat k plain repeated in
      let (value, found) = plain_value (at ++ key k ∷ []) v in
      let (rest, later) =
        plain_fields at (set_field k value plain) (remember repeats k repeated) fs in
      (rest, report repeats at k ++ (found ++ later))

-- `DuplicateKeyError`, with every repeat, or the value.
pub data Settling : Type 0 where
  duplicate_keys : List (Location × Text) → Settling
  settled : Value → Settling

abbrev pub settle_with : Value × List (Location × Text) → Settling
settle_with (plain, []) = settled plain
settle_with (plain, r ∷ rs) = duplicate_keys (r ∷ rs)

unfoldable pub settle : Value → Settling
unfolding plain_value
settle v = settle_with (plain_value [] v)
