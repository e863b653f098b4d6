-- ===== src/Tests/Editing.antt =====
-- An edit of one word (src/nare/tools.py).
use nare.Prelude.{◌≡◌, ◌↔◌, ◌++◌, Text, codes}
use nare.Edit.Replace.{edited, edit_file}
use nare.Edit.Once.{Once, edit_file_iff}

edit_file_iff_example :
    (edit_file (codes "a b c") (codes "b") (codes "x") ≡ edited (codes "a x c")) ↔ (
      (before : Text) × (rest : Text) × Once b'b' (codes "") (codes "a b c") before rest
      × (codes "a x c" ≡ before ++ (codes "x" ++ rest)))
edit_file_iff_example = edit_file_iff (codes "a b c") (codes "x") (codes "a x c") b'b' (codes "")
