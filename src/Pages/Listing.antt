-- ===== src/Pages/Listing.antt =====
-- Resuming a listing: `_position`, and how `_list_page` finds where a page starts
-- (src/nare/tools.py).
use nare.Prelude.{
  ℕ, zero, suc, Bool, true, false, ◌&&◌, ◌||◌, List, [], ◌∷◌, ◌++◌, map, Option, none, some, Text,
  ltb, ◌==◌, drop, if◌then◌else◌,
}
use nare.Pages.Page.{Page, firsts, paginate}

-- `a < b` on two strings.
unfoldable pub text_ltb : Text → Text → Bool
text_ltb a [] = false
text_ltb [] (y ∷ ys) = true
text_ltb (x ∷ xs) (y ∷ ys) = ltb x y || x == y && text_ltb xs ys

-- `bisect.bisect_right(names, after)` on a sorted list: the first place behind all that are
-- not greater than `after`.
unfoldable pub bisect_right : List Text → Text → ℕ
bisect_right [] after = 0
bisect_right (x ∷ xs) after = if text_ltb after x then 0 else suc (bisect_right xs after)

-- `name` is `lambda item: item.name`, `cursor` the text of `_cursor(call, name)`, and
-- `position` what `_position(cursor, call)` reads back, `none` where it raises.
module _ {T : Type 0} (name line cursor : T → Text) (position : Text → Option Text) (items : List T)
    (limit room : ℕ) where
  unfoldable pub start_of : Option Text → ℕ
  unfolding bisect_right text_ltb
  start_of none = 0
  start_of (some after) = bisect_right (map name items) after

  unfoldable pub list_page : Option Text → Option (Page T)
  unfolding start_of paginate
  list_page after = paginate line cursor (drop (start_of after) items) limit room

  -- A caller that asks for the first page and then follows each cursor, at most `fuel` pages.
  -- `none` is a failed call, or the end of the fuel.
  unfoldable pub walk : ℕ → Option Text → Option (List T)
  walk zero after = none
  walk (suc fuel) after = elim (list_page after) [
    | none ↦ none
    | some (records, none) ↦ some (firsts records)
    | some (records, some c) ↦ elim (position c) [
      | none ↦ none
      | some at ↦ elim (walk fuel (some at)) [
        | none ↦ none
        | some rest ↦ some (firsts records ++ rest)
      ]
    ]
  ]
