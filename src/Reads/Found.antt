-- ===== src/Reads/Found.antt =====
-- The walk to the pointers of an answer finds what it holds there (src/nare/reads.py).
use nare.Prelude.{
  ◌≡◌, refl, sym, ap, ◌∙◌, ◌↔◌, ◌⊎◌, inl, inr, true, false, ◌||◌, List, [], ◌∷◌, ◌++◌, Text, same,
  same_iff, same_refl, has, has-append, has-add_new, arith, add_new, Bool-cases,
}
use nare.Json.Value.{Value, null, bool, int, float, str, arr, obj}
use nare.Reads.Pointer.{Checked, fine, >>=-eq-fine, parse_pointer}
use nare.Reads.Cited.{Digits, children, flat_text, string_of, walk, cited_from, cited_values}
use nare.Reads.Holds.{In, Holds, Cites, fine-injective, children-LeadsTo}

has-none : (t : Text) → has t [] ≡ true → ⊥
unfolding has
has-none t e = cc e

flat_text-has :
    (f : Value → Checked (List Text)) (P : Value → Type 0) (t : Text)
    → ((v : Value) (xs : List Text) → f v ≡ fine xs → (has t xs ≡ true) ↔ P v)
    → (vs : List Value) (ts : List Text) → flat_text f vs ≡ fine ts
    → (has t ts ≡ true) ↔ ((v : Value) × In v vs × P v)
flat_text-has f P t each [] ts e =
    let nothing : [] ≡ ts = cc e in
    ((λ h. absurd (has-none t (rw (← nothing) at h))), λ (v, m, _). absurd m)
flat_text-has f P t each (w ∷ vs) ts e =
    let (a, first, rest) = >>=-eq-fine (f w) _ e in
    let (b, second, last) = >>=-eq-fine (flat_text f vs) _ rest in
    let whole : a ++ b ≡ ts = cc last in
    let here = each w a first in
    let later = flat_text-has f P t each vs b second in
    let split : has t ts ≡ (has t a || has t b) = ap (has t) (sym whole) ∙ has-append t a b in
    (
      (λ h. elim (Bool-cases (has t a)) [
        | inl x ↦ (w, inl refl, here.0 x)
        | inr x ↦
            let (v, m, p) = later.0 (sym (ap (λ c. c || has t b) x) ∙ sym split ∙ h) in
            (v, inr m, p)
      ]),
      λ (v, m, p). split ∙ elim m [
        | inl same_value ↦ ap (λ c. c || has t b) (here.1 (rw same_value p))
        | inr k ↦ let found = later.1 (v, k, p) in ground arith
      ],
    )

string_of-has : (node : Value) (t : Text) → (has t (string_of node) ≡ true) ↔ (node ≡ str t)
unfolding has
string_of-has null t = ((λ e. absurd (cc e)), λ e. absurd (cc e))
string_of-has (bool b) t = ((λ e. absurd (cc e)), λ e. absurd (cc e))
string_of-has (int n) t = ((λ e. absurd (cc e)), λ e. absurd (cc e))
string_of-has (float n k) t = ((λ e. absurd (cc e)), λ e. absurd (cc e))
string_of-has (arr items) t = ((λ e. absurd (cc e)), λ e. absurd (cc e))
string_of-has (obj fields) t = ((λ e. absurd (cc e)), λ e. absurd (cc e))
string_of-has (str s) t = (
  (λ e. elim (Bool-cases (same t s)) [
    | inl x ↦ ap str (sym ((same_iff t s).0 x))
    | inr x ↦ absurd (cc (sym (ap (λ c. c || false) x) ∙ e))
  ]),
  λ e. let is : s ≡ t = cc e in rw is (rw same_refl refl),
)

walk-Holds :
    (digits : Digits) (tokens : List Text) (node : Value) (ts : List Text) (t : Text)
    → walk digits tokens node ≡ fine ts
    → (has t ts ≡ true) ↔ Holds digits tokens node t
unfolding walk
walk-Holds digits [] node ts t e =
    let is : string_of node ≡ ts = cc e in rw (← is) (string_of-has node t)
walk-Holds digits (head ∷ rest) node ts t e =
    let (found, first, later) = >>=-eq-fine (children digits head node) _ e in
    let flat =
      flat_text-has (walk digits rest) (λ v. Holds digits rest v t) t
        (λ v xs is. walk-Holds digits rest v xs t is) found ts later in
    (
      (λ h.
          let (v, m, p) = flat.0 h in
          (v, (children-LeadsTo digits head node found v first).0 m, p)),
      λ (v, m, p). flat.1 (v, (children-LeadsTo digits head node found v first).1 m, p),
    )

-- The values found are those before and those that the answer holds at a pointer.
cited_from-Cites :
    (digits : Digits) (answer : Value) (found out ps : List Text) (t : Text)
    → cited_from digits answer found ps ≡ fine out
    → (has t out ≡ true) ↔ ((has t found ≡ true) ⊎ Cites digits answer ps t)
unfolding cited_from
cited_from-Cites digits answer found out [] t e =
    let is : found ≡ out = cc e in
    (
      (λ h. inl (rw (← is) at h)),
      (λ h. elim h [ inl k ↦ rw (← is) k | inr (p, tokens, m, _, _) ↦ absurd m ]),
    )
cited_from-Cites digits answer found out (p ∷ ps) t e =
    let (tokens, parsed, rest) = >>=-eq-fine (parse_pointer p) _ e in
    let (values, walked, last) = >>=-eq-fine (walk digits tokens answer) _ rest in
    let later = cited_from-Cites digits answer (add_new found values) out ps t last in
    let held = walk-Holds digits tokens answer values t walked in
    let added = has-add_new t found values in
    (
      (λ h. elim (later.0 h) [
        | inr (q, more, m, q_parsed, q_holds) ↦ inr (q, more, inr m, q_parsed, q_holds)
        | inl k ↦ elim (Bool-cases (has t found)) [
          | inl old ↦ inl old
          | inr new ↦ inr (
            p,
            tokens,
            inl refl,
            parsed,
            held.0 (sym (ap (λ c. c || has t values) new) ∙ sym added ∙ k),
          )
        ]
      ]),
      (λ h. later.1 (elim h [
        | inl old ↦ inl (added ∙ ap (λ c. c || has t values) old)
        | inr (q, more, inr m, q_parsed, q_holds) ↦ inr (q, more, m, q_parsed, q_holds)
        | inr (q, more, inl same_pointer, q_parsed, q_holds) ↦
            let same_tokens : more ≡ tokens =
              fine-injective more tokens
                (sym q_parsed ∙ ap parse_pointer (sym same_pointer) ∙ parsed) in
            let now : has t values ≡ true = held.1 (rw same_tokens at q_holds) in
            inl (ground (arith, added))
      ])),
    )

pub cited_values-Cites :
    (digits : Digits) (answer : Value) (pointers out : List Text) (t : Text)
    → cited_values digits answer pointers ≡ fine out
    → (has t out ≡ true) ↔ Cites digits answer pointers t
unfolding cited_values
cited_values-Cites digits answer pointers out t e =
    let whole = cited_from-Cites digits answer [] out pointers t e in
    ((λ h. elim (whole.0 h) [ inl k ↦ absurd (has-none t k) | inr c ↦ c ]), λ c. whole.1 (inr c))
