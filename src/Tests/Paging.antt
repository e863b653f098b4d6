-- ===== src/Tests/Paging.antt =====
-- A listing of three names read two at a time (src/nare/tools.py).
use nare.Prelude.{◌≡◌, ◌≤◌, refl, arith, List, [], ◌∷◌, map, length, none, some, Text, codes}
use nare.Pages.Page.{max_tool_output, footer, Page, paginate, paginate_from, render}
use nare.Pages.Fits.{IsPage, texts, paginate-IsPage, length-render-paginate}
use nare.Pages.Listing.{text_ltb, walk}
use nare.Pages.Walk.{Ascending, walk-all}

abbrev itself : Text → Text
itself t = t

abbrev names : List Text
names = codes "a" ∷ codes "b" ∷ codes "c" ∷ []

paginate-IsPage_example :
    (page : Page Text) × (rest : List Text) × (paginate itself itself names 2 40 ≡ some page)
    × IsPage itself itself names 2 40 page rest
paginate-IsPage_example = paginate-IsPage itself itself names 2 40 (omega arith)

names-Ascending : Ascending (map itself names)
unfolding text_ltb
names-Ascending = ((refl, (refl, tt)), ((refl, tt), (tt, tt)))

walk-all_example : walk itself itself itself some names 2 40 4 none ≡ some names
walk-all_example =
    walk-all itself itself itself some names 2 40 (omega arith) names-Ascending (λ r. refl)

abbrev two_lines : Page Text
two_lines = ((codes "a", codes "a") ∷ (codes "b", codes "b") ∷ [], none)

abbrev two_names : List Text
two_names = codes "a" ∷ codes "b" ∷ []

two_lines-paginate : paginate itself itself two_names 2 40 ≡ some two_lines
unfolding paginate paginate_from footer
two_lines-paginate = refl

length-render-paginate_example :
    length (render (codes "2 entries") (texts two_lines.0) none) ≤ max_tool_output
length-render-paginate_example =
    length-render-paginate itself itself two_names 2 40 two_lines (codes "2 entries") (omega arith)
      two_lines-paginate (omega arith) (omega arith)
