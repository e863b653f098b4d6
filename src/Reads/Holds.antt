-- ===== src/Reads/Holds.antt =====
-- What an answer holds at a pointer, stated apart from the walk (src/nare/reads.py).
use nare.Prelude.{
  ◌≡◌, sym, ap, ◌∙◌, ◌≢◌, ◌↔◌, ◌⊎◌, inl, inr, true, false, ℕ, List, [], ◌∷◌, Option, none, some,
  Text, codes, same, same_iff, get_elem?, Bool-cases, Option-cases,
}
use nare.Json.Value.{Value, null, bool, int, float, str, arr, obj, Items, items_list, values_list}
use nare.Reads.Pointer.{fine, parse_pointer}
use nare.Reads.Cited.{wildcard, get_field, Digits, is_digits, option_list, get_index, children}

-- A member of a list.
abbrev pub In : {A : Type 0} → A → List A → Type 0
In x [] = ⊥
In x (y ∷ ys) = (y ≡ x) ⊎ In x ys

-- The token `*` leads to every value of an object or list, another one to an object's field under that
-- key, or to a list's item at the number it reads as.
abbrev pub LeadsTo : Digits → Text → Value → Value → Type 0
LeadsTo digits head (obj fields) v =
    ((head ≡ codes "*") × In v (values_list fields))
    ⊎ ((head ≢ codes "*") × In v (get_field head fields))
LeadsTo digits head (arr items) v =
    ((head ≡ codes "*") × In v (items_list items))
    ⊎ ((head ≢ codes "*")
        × (is_digits digits head ≡ true)
        × (n : ℕ) × (digits.number head ≡ some n)
        × (get_elem? (items_list items) n ≡ some v))
LeadsTo digits head _ v = ⊥

-- The string `t` stands in the answer at the place that the tokens name.
abbrev pub Holds : Digits → List Text → Value → Text → Type 0
Holds digits [] node t = node ≡ str t
Holds digits (head ∷ rest) node t = (v : Value) × LeadsTo digits head node v × Holds digits rest v t

-- The answer holds the string `t` at one of the pointers.
abbrev pub Cites : Digits → Value → List Text → Text → Type 0
Cites digits answer pointers t =
    (p : Text) × (tokens : List Text) × In p pointers
    × (parse_pointer p ≡ fine tokens)
    × Holds digits tokens answer t

not-same : (a b : Text) → same a b ≡ false → a ≢ b
not-same a b f e = absurd (cc (sym f ∙ (same_iff a b).1 e))

pub fine-injective : {A : Type 0} (x y : A) → fine x ≡ fine y → x ≡ y
fine-injective x y e = cc e

In-option : (o : Option Value) (v : Value) → In v (option_list o) ↔ (o ≡ some v)
In-option none v = ((λ h. absurd h), λ e. absurd (cc e))
In-option (some w) v = ((λ h. elim h [ inl e ↦ ap some e | inr n ↦ absurd n ]), λ e. inl (cc e))

get_index-LeadsTo :
    (digits : Digits) (head : Text) (items : Items) (found : List Value) (v : Value)
    → get_index digits head items ≡ fine found
    → In v found ↔ (
        (is_digits digits head ≡ true)
        × (n : ℕ) × (digits.number head ≡ some n)
        × (get_elem? (items_list items) n ≡ some v))
unfolding get_index
get_index-LeadsTo digits head items found v e = elim (Bool-cases (is_digits digits head)) [
  | inr f ↦
      let nothing : [] ≡ found = fine-injective [] found (rw (f, get_index) at e) in
      ((λ h. absurd (rw (← nothing) at h)), λ h. absurd (cc (sym f ∙ h.0)))
  | inl f ↦ elim (Option-cases (digits.number head)) [
    | inl g ↦ absurd (cc (rw (f, g, get_index) at e))
    | inr (n, g) ↦
        let one : option_list (get_elem? (items_list items) n) ≡ found =
          fine-injective _ found (rw (f, g, get_index) at e) in
        let option = In-option (get_elem? (items_list items) n) v in
        (
          (λ h. (f, n, g, option.0 (rw (← one) at h))),
          λ (_, k, is, at_k).
              let same_number : n ≡ k = cc (sym g ∙ is) in
              rw (← one) (option.1 (rw same_number at_k)),
        )
  ]
]

pub children-LeadsTo :
    (digits : Digits) (head : Text) (node : Value) (found : List Value) (v : Value)
    → children digits head node ≡ fine found
    → In v found ↔ LeadsTo digits head node v
unfolding children
children-LeadsTo digits head null found v e =
    let nothing : [] ≡ found = cc e in ((λ h. rw (← nothing) at h), λ h. absurd h)
children-LeadsTo digits head (bool b) found v e =
    let nothing : [] ≡ found = cc e in ((λ h. rw (← nothing) at h), λ h. absurd h)
children-LeadsTo digits head (int n) found v e =
    let nothing : [] ≡ found = cc e in ((λ h. rw (← nothing) at h), λ h. absurd h)
children-LeadsTo digits head (float n k) found v e =
    let nothing : [] ≡ found = cc e in ((λ h. rw (← nothing) at h), λ h. absurd h)
children-LeadsTo digits head (str t) found v e =
    let nothing : [] ≡ found = cc e in ((λ h. rw (← nothing) at h), λ h. absurd h)
children-LeadsTo digits head (obj fields) found v e = elim (Bool-cases (same head wildcard)) [
  | inl star ↦
      let all_of : values_list fields ≡ found = fine-injective _ found (rw (star, children) at e) in
      (
        (λ h. inl ((same_iff head wildcard).0 star, rw (← all_of) at h)),
        (λ h. elim h [
          | inl (_, k) ↦ rw (← all_of) k
          | inr (ne, k) ↦ absurd (ne ((same_iff head wildcard).0 star))
        ]),
      )
  | inr name ↦
      let of_key : get_field head fields ≡ found =
        fine-injective _ found (rw (name, children) at e) in
      (
        (λ h. inr (not-same head wildcard name, rw (← of_key) at h)),
        (λ h. elim h [
          | inl (is, k) ↦ absurd (not-same head wildcard name is)
          | inr (_, k) ↦ rw (← of_key) k
        ]),
      )
]
children-LeadsTo digits head (arr items) found v e = elim (Bool-cases (same head wildcard)) [
  | inl star ↦
      let all_of : items_list items ≡ found = fine-injective _ found (rw (star, children) at e) in
      (
        (λ h. inl ((same_iff head wildcard).0 star, rw (← all_of) at h)),
        (λ h. elim h [
          | inl (_, k) ↦ rw (← all_of) k
          | inr (ne, _, _, _, _) ↦ absurd (ne ((same_iff head wildcard).0 star))
        ]),
      )
  | inr name ↦
      let index = get_index-LeadsTo digits head items found v (rw (name, children) at e) in
      (
        (λ h.
            let (digit, n, is, at_n) = index.0 h in
            inr (not-same head wildcard name, digit, n, is, at_n)),
        (λ h. elim h [
          | inl (is, k) ↦ absurd (not-same head wildcard name is)
          | inr (_, digit, n, is, at_n) ↦ index.1 (digit, n, is, at_n)
        ]),
      )
]
