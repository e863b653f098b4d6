-- ===== src/Pages/Fits.antt =====
-- What one page holds: a prefix of the records, within the limit and the output cap, with a
-- cursor exactly when records are left.
use nare.Prelude.{
  ℕ, ◌+◌, ◌≤◌, ◌<◌, ◌≡◌, refl, ◌≢◌, inl, inr, not, ◌&&◌, ◌∙◌, sym, ap, List, [], ◌∷◌, ◌++◌, Option,
  none, some, Text, codes, arith, length, length-append, All, All-append, append_assoc, ltb, ◌==◌,
  Bool-cases, join,
}
use mathlib.Core.Path.{subst}
use nare.Pages.Page.{
  max_page, max_tool_output, clamp, footer, Taken, Page, firsts, stop_at, push, fits, paginate_from,
  paginate, render,
}

-- A page size is between one and a thousand, whatever was asked for.
pub clamp_bounds :
    (asked : Option ℕ) (default : ℕ) → (1 ≤ clamp asked default) × (clamp asked default ≤ max_page)
unfolding clamp
clamp_bounds none default = omega arith
clamp_bounds (some n) default = omega arith

module _ {T : Type 0} where
  -- The characters that the lines of a page take, a newline each.
  abbrev pub lines_size : List (T × Text) → ℕ
  lines_size [] = 0
  lines_size ((r, text) ∷ rs) = length text + 1 + lines_size rs

  lines_size-append :
      (xs ys : List (T × Text)) → lines_size (xs ++ ys) ≡ lines_size xs + lines_size ys
  lines_size-append [] ys = omega arith
  lines_size-append ((r, text) ∷ xs) ys = omega (arith, lines_size-append xs ys)

  firsts-append : (xs ys : List (T × Text)) → firsts (xs ++ ys) ≡ firsts xs ++ firsts ys
  firsts-append [] ys = refl
  firsts-append ((r, text) ∷ xs) ys = ap (◌∷◌ r) (firsts-append xs ys)

  abbrev pub last? : List T → Option T
  last? [] = none
  last? (x ∷ []) = some x
  last? (x ∷ y ∷ ys) = last? (y ∷ ys)

  last?-concat : (xs : List T) (x : T) → last? (xs ++ x ∷ []) ≡ some x
  last?-concat [] x = refl
  last?-concat (a ∷ []) x = refl
  last?-concat (a ∷ b ∷ xs) x = last?-concat (b ∷ xs) x

module _ {T : Type 0} (line : T → Text) (cursor : T → Text) where
  -- The state of the loop on the way.
  record IsTaken (limit room : ℕ) (t : Taken T) (size : ℕ) : Type 0 where
    last_is : last? (firsts t.records) ≡ t.last
    within : length t.records ≤ limit
    sized : size ≡ room + lines_size t.records
    capped :
        (r : T)
        → t.last ≡ some r
        → 2 ≤ length t.records
        → size + length (footer (cursor r)) ≤ max_tool_output
    shown : All (λ e. line e.0 ≡ e.1) t.records

  -- What a page is, of the records `rs` that it was asked of, with `rest` left over.
  pub record IsPage (rs : List T) (limit room : ℕ) (page : Page T) (rest : List T) : Type 0 where
    pub split : rs ≡ firsts page.0 ++ rest
    pub within : length page.0 ≤ limit
    pub complete : page.1 ≡ none → rest ≡ []
    pub resumes :
        (c : Text)
        → page.1 ≡ some c
        → (rest ≢ []) × (r : T) × (last? (firsts page.0) ≡ some r) × (c ≡ cursor r)
    pub capped :
        (r : T)
        → last? (firsts page.0) ≡ some r
        → 2 ≤ length page.0
        → room + lines_size page.0 + length (footer (cursor r)) ≤ max_tool_output
    pub shown : All (λ e. line e.0 ≡ e.1) page.0

  last?-firsts : (xs : List (T × Text)) → 1 ≤ length xs → (r : T) × (last? (firsts xs) ≡ some r)
  last?-firsts [] h = absurd (omega arith)
  last?-firsts ((r, text) ∷ []) h = (r, refl)
  last?-firsts (e ∷ f ∷ xs) h = last?-firsts (f ∷ xs) (omega arith)

  push-IsTaken :
      (limit room : ℕ) (t : Taken T) (size : ℕ) (r : T)
      → IsTaken limit room t size
      → length t.records < limit
      → ((1 ≤ length t.records) → fits line cursor size r ≤ max_tool_output)
      → IsTaken limit room (push line cursor t r) (size + (length (line r) + 1))
  push-IsTaken limit room t size r h short cap = record {
    last_is = rw firsts-append (last?-concat (firsts t.records) r);
    within = omega (arith, length-append t.records ((r, line r) ∷ []));
    sized = omega (arith, lines_size-append t.records ((r, line r) ∷ []), h.sized);
    capped = λ r' e two.
        let same : r ≡ r' = cc in
        rw (← same)
          (omega (arith, cap (omega (arith, length-append t.records ((r, line r) ∷ [])))));
    shown = All-append (λ e. line e.0 ≡ e.1) t.records ((r, line r) ∷ []) h.shown (refl, tt);
  }

  stop_at-IsPage :
      (limit room : ℕ) (t : Taken T) (size : ℕ) (r : T) (rs : List T)
      → IsTaken limit room t size
      → 1 ≤ length t.records
      → (page : Page T) × (stop_at line cursor t ≡ some page)
        × IsPage (firsts t.records ++ r ∷ rs) limit room page (r ∷ rs)
  unfolding stop_at
  stop_at-IsPage limit room t size r rs h some_taken =
      let (x, e) = last?-firsts t.records some_taken in
      let l : t.last ≡ some x = sym h.last_is ∙ e in
      (
        (t.records, some (cursor x)),
        rw (l, stop_at),
        record {
          split = refl;
          within = h.within;
          complete = λ n. cc;
          resumes = λ c k. (λ n. cc, x, e, cc);
          capped = λ y k two. omega (arith, h.sized, h.capped y (sym h.last_is ∙ k) two);
          shown = h.shown;
        },
      )

  pushed :
      (t : Taken T) (r : T) (rs : List T)
      → firsts (t.records ++ (r, line r) ∷ []) ++ rs ≡ firsts t.records ++ r ∷ rs
  pushed t r rs = rw firsts-append (append_assoc (firsts t.records) (r ∷ []) rs)

  paginate_from-IsPage :
      (limit room : ℕ) (rs : List T) (t : Taken T) (size : ℕ)
      → IsTaken limit room t size
      → 1 ≤ limit
      → (page : Page T) × (rest : List T) × (paginate_from line cursor limit t size rs ≡ some page)
        × IsPage (firsts t.records ++ rs) limit room page rest
  unfolding paginate_from
  paginate_from-IsPage limit room [] t size h one = (
    (t.records, none),
    [],
    refl,
    record {
      split = refl;
      within = h.within;
      complete = λ n. refl;
      resumes = λ c k. cc;
      capped = λ y k two. omega (arith, h.sized, h.capped y (sym h.last_is ∙ k) two);
      shown = h.shown;
    },
  )
  paginate_from-IsPage limit room (r ∷ rs) t size h one =
      elim (Bool-cases (length t.records == limit)) [
        | inl full ↦
            let (page, e, is) = stop_at-IsPage limit room t size r rs h (ground arith) in
            (page, r ∷ rs, rw full e, is)
        | inr short ↦
            elim (Bool-cases
              (not (length t.records == 0) && ltb max_tool_output (fits line cursor size r))) [
                | inl over ↦
                    let (page, e, is) = stop_at-IsPage limit room t size r rs h (ground arith) in
                    (page, r ∷ rs, rw (short, over) e, is)
                | inr under ↦
                    let (page, rest, e, is) =
                      paginate_from-IsPage limit room rs (push line cursor t r)
                        (size + (length (line r) + 1))
                        (push-IsTaken limit room t size r h (ground (arith, h.within))
                          (λ k. ground arith))
                        one in
                    (
                      page,
                      rest,
                      rw (short, under) e,
                      subst (λ l. IsPage l limit room page rest) (pushed t r rs) is,
                    )
              ]
      ]

  -- A page asked for with a limit of one or more is always produced. It is a prefix of the records,
  -- each shown by its line, of at most `limit` of them. It has a cursor exactly when records are
  -- left over, and the cursor is that of the last record on the page. Where the page holds two
  -- records or more, its lines, the room kept for the header and a cursor stay within the cap.
  pub paginate-IsPage :
      (rs : List T) (limit room : ℕ)
      → 1 ≤ limit
      → (page : Page T) × (rest : List T) × (paginate line cursor rs limit room ≡ some page)
        × IsPage rs limit room page rest
  unfolding paginate
  paginate-IsPage rs limit room one =
      paginate_from-IsPage limit room rs (record { records = []; last = none }) room
        (record {
          last_is = refl;
          within = omega arith;
          sized = omega arith;
          capped = λ r e two. absurd (omega arith);
          shown = tt;
        })
        one

  -- Where there are records, a page holds at least one of them.
  pub IsPage-progress :
      (rs : List T) (limit room : ℕ) (page : Page T) (rest : List T)
      → IsPage rs limit room page rest
      → rs ≢ []
      → 1 ≤ length page.0
  IsPage-progress rs limit room ([], none) rest is ne = absurd (ne (is.split ∙ is.complete refl))
  IsPage-progress rs limit room ([], some c) rest is ne =
      let (_, r, e, _) = is.resumes c refl in absurd (cc e)
  IsPage-progress rs limit room (e ∷ es, c) rest is ne = omega arith

abbrev pub texts : {T : Type 0} → List (T × Text) → List Text
texts [] = []
texts ((r, text) ∷ rs) = text ∷ texts rs

abbrev pub chars : List Text → ℕ
chars [] = 0
chars (t ∷ ts) = length t + 1 + chars ts

length-join :
    (x : Text) (xs : List Text) → length (join (codes "\n") (x ∷ xs)) ≡ length x + chars xs
unfolding join
length-join x [] = omega arith
length-join x (y ∷ ys) = omega (
  arith,
  length-append x (codes "\n" ++ join (codes "\n") (y ∷ ys)),
  length-append (codes "\n") (join (codes "\n") (y ∷ ys)),
  length-join y ys,
)

module _ {T : Type 0} (line : T → Text) (cursor : T → Text) where
  chars-texts : (es : List (T × Text)) → chars (texts es) ≡ lines_size es
  chars-texts [] = refl
  chars-texts ((r, text) ∷ es) = omega (arith, chars-texts es)

  chars-append : (xs ys : List Text) → chars (xs ++ ys) ≡ chars xs + chars ys
  chars-append [] ys = omega arith
  chars-append (x ∷ xs) ys = omega (arith, chars-append xs ys)

  pub length-render :
      (rs : List T) (limit room : ℕ) (page : Page T) (rest : List T) (header : Text)
      → IsPage line cursor rs limit room page rest
      → 2 ≤ length page.0
      → length header + 1 ≤ room
      → length (render header (texts page.0) page.1) ≤ max_tool_output
  unfolding render
  length-render rs limit room (es, none) rest header is two fits =
      let (r, e) = last?-firsts line cursor es (omega arith) in
      omega (
        arith,
        length-join header (texts es ++ []),
        chars-append (texts es) [],
        chars-texts es,
        is.capped r e two,
      )
  length-render rs limit room (es, some c) rest header is two fits =
      let (_, r, e, same) = is.resumes c refl in
      omega (
        arith,
        length-join header (texts es ++ footer c ∷ []),
        chars-append (texts es) (footer c ∷ []),
        chars-texts es,
        is.capped r e two,
        ap (λ t. length (footer t)) same,
      )

  -- A page of two records or more, rendered under a header that fits the room kept for it, is
  -- within the output cap whole: the header, every line, and the cursor if there is one. The
  -- condition on the limit is the one that `clamp` gives.
  pub length-render-paginate :
      (rs : List T) (limit room : ℕ) (page : Page T) (header : Text)
      → 1 ≤ limit
      → paginate line cursor rs limit room ≡ some page
      → 2 ≤ length page.0
      → length header + 1 ≤ room
      → length (render header (texts page.0) page.1) ≤ max_tool_output
  length-render-paginate rs limit room page header one e two fits =
      let (taken, rest, eq, is) = paginate-IsPage line cursor rs limit room one in
      let same : taken ≡ page = cc (sym eq ∙ e) in
      length-render rs limit room page rest header (rw same at is) two fits
