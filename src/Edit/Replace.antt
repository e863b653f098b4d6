-- ===== src/Edit/Replace.antt =====
-- `edit_file`, `_occurrences` and `_listed` (src/nare/tools.py), on the file's text. The message for
-- a text that is not found is left out: it searches for similar lines.
use nare.Prelude.{
  ℕ, zero, suc, ◌+◌, ◌-◌, List, [], ◌∷◌, ◌++◌, map, Text, codes, starts_with, join, decimal, length,
  take, ltb, ◌==◌, if◌then◌else◌,
}

abbrev pub push_first : ℕ → List Text → List Text
push_first c [] = (c ∷ []) ∷ []
push_first c (p ∷ ps) = (c ∷ p) ∷ ps

-- The text cut at each occurrence that `count` counts, left to right and not overlapping; the
-- number says how much of an occurrence is still to pass.
unfoldable pub pieces : Text → ℕ → Text → List Text
pieces old skip [] = [] ∷ []
pieces old (suc skip) (c ∷ cs) = pieces old skip cs
pieces old zero (c ∷ cs) =
    if starts_with old (c ∷ cs)
    then [] ∷ pieces old (length old - 1) cs
    else push_first c (pieces old zero cs)

unfoldable pub newlines : Text → ℕ
newlines [] = 0
newlines (c ∷ cs) = (if c == 10 then 1 else 0) + newlines cs

-- The line that each occurrence starts on, after the lines before.
unfoldable pub occurrences : Text → ℕ → ℕ → Text → List ℕ
occurrences old line skip [] = []
occurrences old line (suc skip) (c ∷ cs) =
    occurrences old (if c == 10 then line + 1 else line) skip cs
occurrences old line zero (c ∷ cs) =
    let next = if c == 10 then line + 1 else line in
    let inside = occurrences old next (length old - 1) cs in
    let outside = occurrences old next zero cs in
    if starts_with old (c ∷ cs) then line ∷ inside else outside

abbrev pub listed_lines : ℕ
listed_lines = 20

abbrev pub all_but_last : List Text → List Text
all_but_last [] = []
all_but_last (x ∷ []) = []
all_but_last (x ∷ y ∷ ys) = x ∷ all_but_last (y ∷ ys)

abbrev pub last_of : List Text → Text
last_of [] = []
last_of (x ∷ []) = x
last_of (x ∷ y ∷ ys) = last_of (y ∷ ys)

unfoldable pub listed : List ℕ → Text
listed numbers =
    let shown = map decimal (take listed_lines numbers) in
    if ltb listed_lines (length numbers)
    then join (codes ", ") shown
      ++ (codes ", and " ++ (decimal (length numbers - listed_lines) ++ codes " more"))
    else if length shown == 1
    then last_of shown
    else join (codes ", ") (all_but_last shown) ++ (codes " and " ++ last_of shown)

-- What the call comes to: the text that is written, or what the error says.
pub data Edit : Type 0 where
  empty_old absent : Edit
  repeated : ℕ → Text → Edit
  edited : Text → Edit

unfoldable pub replace_in : Text → Text → Text → List Text → Edit
unfolding listed occurrences
replace_in text old new [] = absent
replace_in text old new (p ∷ []) = absent
replace_in text old new (p ∷ q ∷ []) = edited (p ++ (new ++ q))
replace_in text old new (p ∷ q ∷ r ∷ rs) =
    repeated (length (q ∷ r ∷ rs)) (listed (occurrences old 1 zero text))

unfoldable pub edit_file : Text → Text → Text → Edit
unfolding replace_in pieces
edit_file text [] new = empty_old
edit_file text (c ∷ cs) new = replace_in text (c ∷ cs) new (pieces (c ∷ cs) zero text)
