-- ===== src/Pages/Page.antt =====
-- One page: `_clamp`, `_footer`, `_paginate` and `_render` (src/nare/tools.py).
use nare.Prelude.{
  ℕ, ◌+◌, min, max, List, [], ◌∷◌, ◌++◌, Option, none, some, Text, codes, length, ltb, ◌==◌, ◌&&◌,
  not, if◌then◌else◌, join,
}

abbrev pub max_page : ℕ
max_page = 1_000

abbrev pub max_tool_output : ℕ
max_tool_output = 30_000

-- A page size the model asked for; `none` is a value that `int()` refuses.
unfoldable pub clamp : Option ℕ → ℕ → ℕ
clamp none default = min (max default 1) max_page
clamp (some wanted) default = min (max wanted 1) max_page

abbrev pub footer_open : Text
footer_open = codes "[next page: cursor \""

abbrev pub footer_close : Text
footer_close = codes "\"]"

unfoldable pub footer : Text → Text
footer cursor = footer_open ++ (cursor ++ footer_close)

-- `taken` is kept with its last record, which `taken[-1]` reads; `none` is its IndexError.
pub record Taken (T : Type 0) : Type 0 where
  pub records : List (T × Text)
  pub last : Option T

abbrev pub Page : Type 0 → Type 0
Page T = List (T × Text) × Option Text

-- `[record for record, _ in taken]`.
module _ {T : Type 0} where
  abbrev pub firsts : List (T × Text) → List T
  firsts [] = []
  firsts ((r, text) ∷ rs) = r ∷ firsts rs

-- `line` is how a record is shown, and `cursor` the text of `_cursor(call, at(record))`.
module _ {T : Type 0} (line : T → Text) (cursor : T → Text) where
  unfoldable pub stop_at : Taken T → Option (Page T)
  stop_at t = elim t.last [ none ↦ none | some r ↦ some (t.records, some (cursor r)) ]

  abbrev pub push : Taken T → T → Taken T
  push t r = record { records = t.records ++ (r, line r) ∷ []; last = some r }

  -- What the page would hold with the next line and its cursor.
  abbrev pub fits : ℕ → T → ℕ
  fits size r = size + length (line r) + 1 + length (footer (cursor r))

  unfoldable pub paginate_from : ℕ → Taken T → ℕ → List T → Option (Page T)
  unfolding stop_at
  paginate_from limit t size [] = some (t.records, none)
  paginate_from limit t size (r ∷ rs) =
      let rest = paginate_from limit (push t r) (size + (length (line r) + 1)) rs in
      if length t.records == limit
      then stop_at t
      else if not (length t.records == 0) && ltb max_tool_output (fits size r)
      then stop_at t
      else rest

  unfoldable pub paginate : List T → ℕ → ℕ → Option (Page T)
  unfolding paginate_from
  paginate rs limit room = paginate_from limit (record { records = []; last = none }) room rs

footer_lines : Option Text → List Text
footer_lines none = []
footer_lines (some c) = footer c ∷ []

-- The page as the tool returns it.
unfoldable pub render : Text → List Text → Option Text → Text
unfolding footer_lines
render header lines c = join (codes "\n") (header ∷ (lines ++ footer_lines c))
