-- ===== src/Pages/Walk.antt =====
-- Following the cursors of a listing gives every entry, once, in order.
use mathlib.Core.Path.{subst}
use mathlib.Core.List.{map-append}
use nare.Prelude.{
  ℕ, zero, suc, ◌+◌, ◌<◌, ◌≤◌, ◌≡◌, refl, sym, ap, ◌∙◌, true, false, List, [], ◌∷◌, ◌++◌, map,
  Option, none, some, Text, drop, length, length-append, All, arith, append_assoc, append-nil,
}
use nare.Pages.Page.{Page, firsts, paginate}
use nare.Pages.Fits.{IsPage, paginate-IsPage, last?}
use nare.Pages.Listing.{text_ltb, bisect_right, start_of, list_page, walk}

-- Each name is less than every later one: sorted, with no name twice.
abbrev pub Ascending : List Text → Type 0
Ascending [] = Unit
Ascending (x ∷ xs) = All (λ y. text_ltb x y ≡ true) xs × Ascending xs

text_ltb_irrefl : (a : Text) → text_ltb a a ≡ false
unfolding text_ltb
text_ltb_irrefl [] = refl
text_ltb_irrefl (x ∷ xs) = ground (arith, text_ltb_irrefl xs)

text_ltb_asymm : (a b : Text) → text_ltb a b ≡ true → text_ltb b a ≡ false
unfolding text_ltb
text_ltb_asymm [] [] h = refl
text_ltb_asymm (x ∷ xs) [] h = cc
text_ltb_asymm [] (y ∷ ys) h = refl
text_ltb_asymm (x ∷ xs) (y ∷ ys) h = ground (arith, text_ltb_asymm xs ys)

bisect_right-above :
    (x : Text) (ys : List Text) → All (λ y. text_ltb x y ≡ true) ys → bisect_right ys x ≡ 0
unfolding bisect_right
bisect_right-above x [] h = refl
bisect_right-above x (y ∷ ys) h = rw (h.0)

-- The place behind a name of the list is one behind those before it.
bisect_right-mem :
    (xs : List Text) (x : Text) (ys : List Text)
    → Ascending (xs ++ x ∷ ys)
    → bisect_right (xs ++ x ∷ ys) x ≡ length xs + 1
unfolding bisect_right
bisect_right-mem [] x ys h = rw (text_ltb_irrefl x, bisect_right-above x ys h.0) (omega arith)
bisect_right-mem (z ∷ zs) x ys h =
    rw (text_ltb_asymm z x (All-at zs x ys h.0)) (omega (arith, bisect_right-mem zs x ys h.1))
  where
    All-at :
        (zs : List Text) (x : Text) (ys : List Text)
        → All (λ y. text_ltb z y ≡ true) (zs ++ x ∷ ys)
        → text_ltb z x ≡ true
    All-at [] x ys k = k.0
    All-at (w ∷ ws) x ys k = All-at ws x ys k.1

length-map : {T : Type 0} (f : T → Text) (xs : List T) → length (map f xs) ≡ length xs
length-map f [] = refl
length-map f (x ∷ xs) = ap suc (length-map f xs)

module _ {T : Type 0} where
  drop-append : (xs ys : List T) → drop (length xs) (xs ++ ys) ≡ ys
  drop-append [] ys = refl
  drop-append (x ∷ xs) ys = drop-append xs ys

  last?-split : (xs : List T) (r : T) → last? xs ≡ some r → (init : List T) × (xs ≡ init ++ r ∷ [])
  last?-split [] r e = absurd (cc e)
  last?-split (x ∷ []) r e = ([], cc)
  last?-split (x ∷ y ∷ ys) r e =
      let (init, s) = last?-split (y ∷ ys) r e in (x ∷ init, ap (◌∷◌ x) s)

  length-firsts : (es : List (T × Text)) → length (firsts es) ≡ length es
  length-firsts [] = refl
  length-firsts ((r, t) ∷ es) = ap suc (length-firsts es)

module _ {T : Type 0} (name line cursor : T → Text) (position : Text → Option Text) (items : List T)
    (limit room : ℕ) (one : 1 ≤ limit) (ascending : Ascending (map name items))
    (reads_back : (r : T) → position (cursor r) ≡ some (name r)) where
  -- The place that the cursor of a page's last record stands for.
  start_of-last :
      (pre init : List T) (r : T) (rest : List T)
      → items ≡ pre ++ ((init ++ r ∷ []) ++ rest)
      → start_of name line cursor position items limit room (some (name r))
        ≡ length (pre ++ (init ++ r ∷ []))
  unfolding start_of
  start_of-last pre init r rest e =
      let shape : items ≡ (pre ++ init) ++ r ∷ rest = e ∙ simp append_assoc in
      let names : map name items ≡ map name (pre ++ init) ++ name r ∷ map name rest =
        rw (shape, map-append) in
      rw names (
        bisect_right-mem (map name (pre ++ init)) (name r) (map name rest)
          (subst Ascending names ascending)
        ∙ omega (
          arith,
          length-map name (pre ++ init),
          length-append pre init,
          length-append pre (init ++ r ∷ []),
          length-append init (r ∷ []),
        ))

  abbrev Walks : ℕ → Option Text → List T → Type 0
  Walks fuel after suf = walk name line cursor position items limit room fuel after ≡ some suf

  page-Walks :
      (fuel : ℕ) (pre suf : List T) (after : Option Text) (page : Page T) (rest : List T)
      → items ≡ pre ++ suf
      → list_page name line cursor position items limit room after ≡ some page
      → IsPage line cursor suf limit room page rest
      → ((pre' : List T) (after' : Option Text)
          → items ≡ pre' ++ rest
          → start_of name line cursor position items limit room after' ≡ length pre'
          → length rest < length suf
          → Walks fuel after' rest)
      → Walks (suc fuel) after suf
  unfolding walk
  page-Walks fuel pre suf after (es, none) rest e made is again =
      rw (made, walk) (ap some (sym (is.split ∙ rw (is.complete refl) (append-nil (firsts es)))))
  page-Walks fuel pre suf after (es, some c) rest e made is again =
      let (_, r, l, same) = is.resumes c refl in
      let (init, at_end) = last?-split (firsts es) r l in
      let split : items ≡ pre ++ (firsts es ++ rest) = e ∙ ap (◌++◌ pre) is.split in
      let start = start_of-last pre init r rest (split ∙ rw at_end) in
      let later =
        again (pre ++ firsts es) (some (name r)) (split ∙ simp append_assoc) (start ∙ rw at_end) (
          omega (
            arith,
            ap length is.split,
            length-append (firsts es) rest,
            ap length at_end,
            length-append init (r ∷ []),
          )) in
      rw (made, walk) (rw (same, reads_back r) (rw later (ap some (sym is.split))))

  list_page_from :
      (pre suf : List T) (after : Option Text) (page : Page T)
      → items ≡ pre ++ suf
      → start_of name line cursor position items limit room after ≡ length pre
      → paginate line cursor suf limit room ≡ some page
      → list_page name line cursor position items limit room after ≡ some page
  unfolding list_page
  list_page_from pre suf after page e s made =
      rw (s, ap (drop (length pre)) e, drop-append pre suf) made

  walk_from :
      (fuel : ℕ) (pre suf : List T) (after : Option Text)
      → items ≡ pre ++ suf
      → start_of name line cursor position items limit room after ≡ length pre
      → length suf < fuel
      → Walks fuel after suf
  walk_from zero pre suf after e s f = absurd (omega arith)
  walk_from (suc fuel) pre suf after e s f =
      let (page, rest, made, is) = paginate-IsPage line cursor suf limit room one in
      page-Walks fuel pre suf after page rest e (list_page_from pre suf after page e s made) is
        (λ pre' after' e' s' less. walk_from fuel pre' rest after' e' s' (omega arith))

  -- For a directory whose names are sorted and distinct, a page limit of one or more, and cursors
  -- that read back as the name they were made for: calling for the first page and then following
  -- each cursor ends, and the pages together are every entry, once and in order.
  pub walk-all :
      walk name line cursor position items limit room (length items + 1) none ≡ some items
  walk-all = walk_from (length items + 1) [] items none refl (unfold start_of in refl) (omega arith)
