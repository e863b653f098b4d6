-- ===== src/Corrections/Message.antt =====
-- What the model reads of a correction, and the record of it in events and in the result:
-- `_complaint`, `correction_text` and `record` (src/nare/corrections.py).
use nare.Prelude.{List, [], ◌∷◌, ◌++◌, map, Option, none, some, Text, codes, join}
use nare.Corrections.Charge.{Correction}

-- A validator's error: its message, and its guidance if it carries one.
pub record Complaint : Type 0 where
  pub message : Text
  pub guidance : Option Text

unfoldable pub complaint_text : Complaint → Text
complaint_text e = elim e.guidance [
  | none ↦ e.message
  | some [] ↦ e.message
  | some (c ∷ cs) ↦ e.message ++ (codes " (" ++ ((c ∷ cs) ++ codes ")"))
]

abbrev pub opening : Text
opening = codes "Your answer did not satisfy the required JSON Schema: "

abbrev pub keep_fixes : Text
keep_fixes =
    codes "Earlier answers broke these checks, and this answer does not. Keep these earlier fixes: "

-- The sentence about earlier fixes, if there are any.
unfoldable pub earlier_text : List Text → Text
earlier_text [] = []
earlier_text (c ∷ cs) = keep_fixes ++ (join (codes "; ") (c ∷ cs) ++ codes ".\n")

unfoldable pub correction_text : Correction → List Complaint → Text → Text
unfolding complaint_text earlier_text
correction_text correction errors restated =
    opening
    ++ (join (codes "; ") (map complaint_text errors)
        ++ (codes ".\n" ++ (earlier_text correction.earlier ++ restated)))
