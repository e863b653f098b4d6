-- ===== src/Edit/Once.antt =====
-- What an edit replaces, and that nothing else could have been meant before or after it.
use nare.Prelude.{
  ℕ, zero, suc, ◌-◌, ◌≤◌, ◌≡◌, ◌≢◌, ◌↔◌, refl, sym, ap, ◌∙◌, inl, inr, true, false, List, [], ◌∷◌,
  ◌++◌, Text, starts_with, length, drop, arith, Bool-cases,
}
use nare.Edit.Replace.{push_first, pieces, edited, replace_in, edit_file}

pieces-skip : (old : Text) (k : ℕ) (t : Text) → pieces old k t ≡ pieces old zero (drop k t)
unfolding pieces
pieces-skip old zero t = refl
pieces-skip old (suc k) [] = refl
pieces-skip old (suc k) (c ∷ cs) = pieces-skip old k cs

starts_with-split : (old t : Text) → starts_with old t ≡ true → t ≡ old ++ drop (length old) t
unfolding starts_with
starts_with-split [] t e = refl
starts_with-split (o ∷ os) [] e = absurd (cc e)
starts_with-split (o ∷ os) (c ∷ cs) e = ground (arith, starts_with-split os cs)

starts_with-append : (old t : Text) → starts_with old (old ++ t) ≡ true
unfolding starts_with
starts_with-append [] t = refl
starts_with-append (o ∷ os) t = ground (arith, starts_with-append os t)

pieces-cons :
    (old : Text) (k : ℕ) (t : Text) → (p : Text) × (ps : List Text) × (pieces old k t ≡ p ∷ ps)
unfolding pieces
pieces-cons old k [] = ([], [], refl)
pieces-cons old (suc k) (c ∷ cs) = pieces-cons old k cs
pieces-cons old zero (c ∷ cs) = elim (Bool-cases (starts_with old (c ∷ cs))) [
  | inl y ↦ ([], pieces old (length old - 1) cs, rw y refl)
  | inr n ↦ let (p, ps, e) = pieces-cons old zero cs in (c ∷ p, ps, rw (n, e) refl)
]

-- `old` stands nowhere in the text.
abbrev pub Absent : Text → Text → Type 0
Absent old t = (before after : Text) → t ≢ before ++ (old ++ after)

-- No occurrence starts before a place.
abbrev pub NotBefore : Text → Text → ℕ → Type 0
NotBefore old t n = (before after : Text) → t ≡ before ++ (old ++ after) → n ≤ length before

tails : {x y : Text} {xs ys : List Text} → x ∷ xs ≡ y ∷ ys → xs ≡ ys
tails e = cc e

heads : {x y : Text} {xs ys : List Text} → x ∷ xs ≡ y ∷ ys → x ≡ y
heads e = cc e

module _ (o : ℕ) (os : Text) where
  Absent-cons :
      (c : ℕ) (cs : Text)
      → starts_with (o ∷ os) (c ∷ cs) ≡ false
      → Absent (o ∷ os) cs
      → Absent (o ∷ os) (c ∷ cs)
  Absent-cons c cs n none_later [] after e =
      absurd (cc (sym n ∙ ap (starts_with (o ∷ os)) e ∙ starts_with-append (o ∷ os) after))
  Absent-cons c cs n none_later (b ∷ bs) after e = none_later bs after (cc e)

  NotBefore-cons :
      (c : ℕ) (cs : Text) (n : ℕ)
      → starts_with (o ∷ os) (c ∷ cs) ≡ false
      → NotBefore (o ∷ os) cs n
      → NotBefore (o ∷ os) (c ∷ cs) (suc n)
  NotBefore-cons c cs n differs first [] after e =
      absurd (cc (sym differs ∙ ap (starts_with (o ∷ os)) e ∙ starts_with-append (o ∷ os) after))
  NotBefore-cons c cs n differs first (b ∷ bs) after e = omega (arith, first bs after (cc e))

  pieces-one : (t p : Text) → pieces (o ∷ os) zero t ≡ p ∷ [] → (p ≡ t) × Absent (o ∷ os) t
  unfolding pieces
  pieces-one [] p e = (cc e, λ before after. none_in_empty before after)
    where
      none_in_empty : Absent (o ∷ os) []
      none_in_empty [] after e = absurd (cc e)
      none_in_empty (b ∷ bs) after e = absurd (cc e)
  pieces-one (c ∷ cs) p e = elim (Bool-cases (starts_with (o ∷ os) (c ∷ cs))) [
    | inl y ↦
        let (q, qs, f) = pieces-cons (o ∷ os) (length (o ∷ os) - 1) cs in
        absurd (cc (rw (y, f) at e))
    | inr n ↦
        let (q, qs, f) = pieces-cons (o ∷ os) zero cs in
        let g : (c ∷ q) ∷ qs ≡ p ∷ [] = rw (n, f) at e in
        let (same, absent) = pieces-one cs q (f ∙ ap (λ l. q ∷ l) (tails g)) in
        (sym (heads g) ∙ ap (λ l. c ∷ l) same, Absent-cons c cs n absent)
  ]

  drop-append_length : (xs ys : Text) → drop (length xs) (xs ++ ys) ≡ ys
  drop-append_length [] ys = refl
  drop-append_length (x ∷ xs) ys = drop-append_length xs ys

  Absent-pieces : (t : Text) → Absent (o ∷ os) t → pieces (o ∷ os) zero t ≡ t ∷ []
  unfolding pieces
  Absent-pieces [] absent = refl
  Absent-pieces (c ∷ cs) absent = elim (Bool-cases (starts_with (o ∷ os) (c ∷ cs))) [
    | inl y ↦
        absurd (absent [] (drop (length (o ∷ os)) (c ∷ cs)) (starts_with-split (o ∷ os) (c ∷ cs) y))
    | inr n ↦
        rw n (ap (push_first c) (Absent-pieces cs (λ b a e. absent (c ∷ b) a (ap (λ l. c ∷ l) e))))
  ]

  -- The place of the first occurrence, and nothing more after it.
  abbrev pub Once : Text → Text → Text → Type 0
  Once t before rest =
      (t ≡ before ++ ((o ∷ os) ++ rest))
      × Absent (o ∷ os) rest
      × NotBefore (o ∷ os) t (length before)

  passed :
      (c : ℕ) (cs : Text)
      → pieces (o ∷ os) (length (o ∷ os) - 1) cs ≡ pieces (o ∷ os) zero (drop (length os) cs)
  passed c cs =
      ap (λ k. pieces (o ∷ os) k cs) (one_less (length os)) ∙ pieces-skip (o ∷ os) (length os) cs
    where
      one_less : (n : ℕ) → suc n - 1 ≡ n
      one_less n = omega arith

  pieces-Once : (t p q : Text) → pieces (o ∷ os) zero t ≡ p ∷ q ∷ [] → Once t p q
  unfolding pieces
  pieces-Once [] p q e = absurd (cc e)
  pieces-Once (c ∷ cs) p q e = elim (Bool-cases (starts_with (o ∷ os) (c ∷ cs))) [
    | inl y ↦
        let g : [] ∷ pieces (o ∷ os) (length (o ∷ os) - 1) cs ≡ p ∷ q ∷ [] = rw y at e in
        let (rest_is, absent) = pieces-one (drop (length os) cs) q (sym (passed c cs) ∙ tails g) in
        let before_is : p ≡ [] = sym (heads g) in
        rw (before_is, rest_is)
          (starts_with-split (o ∷ os) (c ∷ cs) y, absent, λ before after h. omega arith)
    | inr n ↦
        let (p', qs, f) = pieces-cons (o ∷ os) zero cs in
        let g : (c ∷ p') ∷ qs ≡ p ∷ q ∷ [] = rw (n, f) at e in
        let (whole, absent, first) = pieces-Once cs p' q (f ∙ ap (λ l. p' ∷ l) (tails g)) in
        let before_is : p ≡ c ∷ p' = sym (heads g) in
        rw before_is (ap (λ l. c ∷ l) whole, absent, NotBefore-cons c cs (length p') n first)
  ]

  pieces-at :
      (p q : Text)
      → Absent (o ∷ os) q
      → NotBefore (o ∷ os) (p ++ ((o ∷ os) ++ q)) (length p)
      → pieces (o ∷ os) zero (p ++ ((o ∷ os) ++ q)) ≡ p ∷ q ∷ []
  unfolding pieces
  pieces-at [] q absent first = rw (starts_with-append (o ∷ os) q) (
      ap (λ l. [] ∷ l)
        (passed o (os ++ q)
          ∙ ap (pieces (o ∷ os) zero) (drop-append_length os q)
          ∙ Absent-pieces q absent))
  pieces-at (b ∷ bs) q absent first =
      elim (Bool-cases (starts_with (o ∷ os) (b ∷ (bs ++ ((o ∷ os) ++ q))))) [
        | inl y ↦
            absurd (
              omega
                (arith, first [] _ (starts_with-split (o ∷ os) (b ∷ (bs ++ ((o ∷ os) ++ q))) y)))
        | inr n ↦ rw n (
            ap (push_first b) (
              pieces-at bs q absent
                (λ before after e. omega (arith, first (b ∷ before) after (ap (λ l. b ∷ l) e)))))
      ]

-- An edit of a text that is not empty writes exactly where the text stands in the file, with no
-- occurrence of it starting earlier and none in what follows it; what is written is the file with
-- that one occurrence replaced.
pub edit_file_iff :
    (t new after : Text) (o : ℕ) (os : Text)
    → (edit_file t (o ∷ os) new ≡ edited after) ↔ (
        (before : Text) × (rest : Text) × Once o os t before rest
        × (after ≡ before ++ (new ++ rest)))
unfolding edit_file replace_in
edit_file_iff t new after o os = (forth, back)
  where
    forth :
        edit_file t (o ∷ os) new ≡ edited after
        → (before : Text) × (rest : Text) × Once o os t before rest
          × (after ≡ before ++ (new ++ rest))
    forth e = by_pieces (pieces (o ∷ os) zero t) refl e
      where
        by_pieces :
            (ps : List Text)
            → pieces (o ∷ os) zero t ≡ ps
            → replace_in t (o ∷ os) new ps ≡ edited after
            → (before : Text) × (rest : Text) × Once o os t before rest
              × (after ≡ before ++ (new ++ rest))
        by_pieces [] f h = absurd (cc h)
        by_pieces (p ∷ []) f h = absurd (cc h)
        by_pieces (p ∷ q ∷ []) f h = (p, q, pieces-Once o os t p q f, cc (sym h))
        by_pieces (p ∷ q ∷ r ∷ rs) f h = absurd (cc h)

    back :
        ((before : Text) × (rest : Text) × Once o os t before rest
          × (after ≡ before ++ (new ++ rest)))
        → edit_file t (o ∷ os) new ≡ edited after
    back (before, rest, (whole, absent, first), is) =
        ap (replace_in t (o ∷ os) new) (
          ap (pieces (o ∷ os) zero) whole
          ∙ pieces-at o os before rest absent (λ b a e. first b a (whole ∙ e)))
        ∙ ap edited (sym is)
