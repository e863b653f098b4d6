-- ===== src/Reads/Cited.antt =====
-- The strings an answer holds at a pointer: `_walk` and `cited_values` (src/nare/reads.py).
use nare.Prelude.{
  ℕ, Bool, false, List, [], ◌∷◌, ◌++◌, Option, none, some, Text, codes, same, all, get_elem?,
  add_new, if◌then◌else◌,
}
use nare.Json.Value.{Value, str, arr, obj, Fields, end, field, Items, items_list, values_list}
use nare.Reads.Pointer.{Checked, fine, bad, unread_index, ◌>>=◌, parse_pointer}

abbrev pub wildcard : Text
wildcard = codes "*"

-- `node[head]` of an object, if the key is there.
unfoldable pub get_field : Text → Fields → List Value
get_field k end = []
get_field k (field j v fs) = if same j k then v ∷ [] else get_field k fs

-- What Python's strings say of digits: `str.isdigit` of one character, and `int` of a text, which
-- raises a ValueError (`none`) for a digit that is no decimal, or for too many.
pub record Digits : Type 0 where
  pub is_digit : ℕ → Bool
  pub number : Text → Option ℕ

-- `head.isdigit()`.
unfoldable pub is_digits : Digits → Text → Bool
is_digits digits [] = false
is_digits digits (c ∷ cs) = all digits.is_digit (c ∷ cs)

abbrev pub option_list : Option Value → List Value
option_list none = []
option_list (some v) = v ∷ []

abbrev pub at_number : Items → Option ℕ → Checked (List Value)
at_number items none = bad unread_index
at_number items (some n) = fine (option_list (get_elem? (items_list items) n))

-- The element at an index, if the token is one and it is in range.
unfoldable pub get_index : Digits → Text → Items → Checked (List Value)
unfolding is_digits items_list
get_index digits head items =
    if is_digits digits head then at_number items (digits.number head) else fine []

-- The values that one token of a pointer leads to.
unfoldable pub children : Digits → Text → Value → Checked (List Value)
unfolding get_field get_index items_list values_list
children digits head (obj fields) =
    fine (if same head wildcard then values_list fields else get_field head fields)
children digits head (arr items) =
    if same head wildcard then fine (items_list items) else get_index digits head items
children digits head _ = fine []

abbrev pub flat_text : (Value → Checked (List Text)) → List Value → Checked (List Text)
flat_text f [] = fine []
flat_text f (v ∷ vs) = do found ← f v; others ← flat_text f vs; fine (found ++ others)

abbrev pub string_of : Value → List Text
string_of (str t) = t ∷ []
string_of _ = []

unfoldable pub walk : Digits → List Text → Value → Checked (List Text)
unfolding children
walk digits [] node = fine (string_of node)
walk digits (head ∷ rest) node = do
  found ← children digits head node
  flat_text (walk digits rest) found

unfoldable pub cited_from : Digits → Value → List Text → List Text → Checked (List Text)
cited_from digits answer found [] = fine found
cited_from digits answer found (p ∷ ps) = do
  tokens ← parse_pointer p
  values ← walk digits tokens answer
  cited_from digits answer (add_new found values) ps

-- Each string the answer holds at a pointer, once, in the order found.
unfoldable pub cited_values : Digits → Value → List Text → Checked (List Text)
unfolding cited_from
cited_values digits answer pointers = cited_from digits answer [] pointers
