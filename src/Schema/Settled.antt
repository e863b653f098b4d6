-- ===== src/Schema/Settled.antt =====
-- When a written value settles, and to what.
use nare.Prelude.{
  ℕ, ◌+◌, ◌≡◌, refl, sym, ap, ◌∙◌, ◌↔◌, Bool, true, false, List, [], ◌∷◌, ◌++◌, Text, same, has,
  arith, append-eq-nil,
}
use nare.Json.Value.{
  Value, null, bool, int, float, str, arr, obj, Items, nil, cons, Fields, end, field,
}
use nare.Schema.Pairs.{
  Location, index, key, set_field, has_field, is_new_repeat, report, remember, plain_value,
  plain_items, plain_fields, settled, settle_with, settle,
}

-- Each key of the fields is new to those before it.
abbrev pub NewKeys : Fields → Fields → Type 0
NewKeys before end = Unit
NewKeys before (field k v fs) = (has_field k before ≡ false) × NewKeys (set_field k v before) fs

mutual
  -- No object of the value repeats a key.
  pub Unrepeated : Value → Type 0
  Unrepeated (arr items) = UnrepeatedItems items
  Unrepeated (obj fields) = NewKeys end fields × UnrepeatedFields fields
  Unrepeated null = Unit
  Unrepeated (bool b) = Unit
  Unrepeated (int n) = Unit
  Unrepeated (float n k) = Unit
  Unrepeated (str t) = Unit

  pub UnrepeatedItems : Items → Type 0
  UnrepeatedItems nil = Unit
  UnrepeatedItems (cons v vs) = Unrepeated v × UnrepeatedItems vs

  pub UnrepeatedFields : Fields → Type 0
  UnrepeatedFields end = Unit
  UnrepeatedFields (field k v fs) = Unrepeated v × UnrepeatedFields fs

abbrev after_before : Fields → Fields → Fields
after_before end fs = fs
after_before (field k v before) fs = field k v (after_before before fs)

after_before-set_field :
    (k : Text) (v : Value) (before fs : Fields)
    → has_field k before ≡ false
    → after_before (set_field k v before) fs ≡ after_before before (field k v fs)
unfolding set_field has_field
after_before-set_field k v end fs h = refl
after_before-set_field k v (field j w before) fs h =
    ground (arith, after_before-set_field k v before fs)

after_before-end : (before : Fields) → after_before before end ≡ before
after_before-end end = refl
after_before-end (field k v before) = ap (field k v) (after_before-end before)

report-nil : (b : Bool) (at : Location) (k : Text) → report b at k ≡ [] → b ≡ false
report-nil true at k e = absurd (cc e)
report-nil false at k e = refl

is_new_repeat-false :
    (k : Text) (before : Fields) → is_new_repeat k before [] ≡ false → has_field k before ≡ false
unfolding has
is_new_repeat-false k before e = ground arith

repeats-false :
    (k : Text) (before : Fields) → has_field k before ≡ false → is_new_repeat k before [] ≡ false
repeats-false k before e = ground arith

mutual
  unfolding plain_value Unrepeated

  plain_value-nil :
      (at : Location) (v : Value)
      → (plain_value at v).1 ≡ []
      → ((plain_value at v).0 ≡ v) × Unrepeated v
  plain_value-nil at (arr items) e = let (is, u) = plain_items-nil at 0 items e in (ap arr is, u)
  plain_value-nil at (obj fields) e =
      let (is, new, u) = plain_fields-nil at end fields e in (ap obj is, (new, u))
  plain_value-nil at null e = (refl, tt)
  plain_value-nil at (bool b) e = (refl, tt)
  plain_value-nil at (int n) e = (refl, tt)
  plain_value-nil at (float n k) e = (refl, tt)
  plain_value-nil at (str t) e = (refl, tt)

  plain_items-nil :
      (at : Location) (i : ℕ) (vs : Items)
      → (plain_items at i vs).1 ≡ []
      → ((plain_items at i vs).0 ≡ vs) × UnrepeatedItems vs
  plain_items-nil at i nil e = (refl, tt)
  plain_items-nil at i (cons v vs) e =
      let (here, later) =
        (append-eq-nil (plain_value (at ++ index i ∷ []) v).1 (plain_items at (i + 1) vs).1).0 e in
      let (v_is, u) = plain_value-nil (at ++ index i ∷ []) v here in
      let (vs_is, us) = plain_items-nil at (i + 1) vs later in
      ((λ n. cons (v_is n) (vs_is n)), (u, us))

  plain_fields-nil :
      (at : Location) (before fs : Fields)
      → (plain_fields at before [] fs).1 ≡ []
      → ((plain_fields at before [] fs).0 ≡ after_before before fs)
        × NewKeys before fs
        × UnrepeatedFields fs
  plain_fields-nil at before end e = (sym (after_before-end before), tt, tt)
  plain_fields-nil at before (field k v fs) e =
      let value = plain_value (at ++ key k ∷ []) v in
      let repeats = is_new_repeat k before [] in
      let rest = plain_fields at (set_field k value.0 before) (remember repeats k []) fs in
      let (none_here, others) = (append-eq-nil (report repeats at k) (value.1 ++ rest.1)).0 e in
      let (none_in, none_later) = (append-eq-nil value.1 rest.1).0 others in
      let once = report-nil repeats at k none_here in
      let (v_is, u) = plain_value-nil (at ++ key k ∷ []) v none_in in
      let new = is_new_repeat-false k before once in
      let later : (plain_fields at (set_field k v before) [] fs).1 ≡ [] =
        sym (λ n. (plain_fields at (set_field k (v_is n) before) (remember (once n) k []) fs).1)
        ∙ none_later in
      let (fs_is, news, us) = plain_fields-nil at (set_field k v before) fs later in
      (
        (λ n. (plain_fields at (set_field k (v_is n) before) (remember (once n) k []) fs).0)
            ∙ fs_is
            ∙ after_before-set_field k v before fs new,
        (new, news),
        (u, us),
      )

mutual
  unfolding plain_value Unrepeated

  plain_value-Unrepeated : (at : Location) (v : Value) → Unrepeated v → plain_value at v ≡ (v, [])
  plain_value-Unrepeated at (arr items) u =
      ap (λ p. (arr p.0, p.1)) (plain_items-Unrepeated at 0 items u)
  plain_value-Unrepeated at (obj fields) (new, u) =
      ap (λ p. (obj p.0, p.1)) (plain_fields-Unrepeated at end fields new u)
  plain_value-Unrepeated at null u = refl
  plain_value-Unrepeated at (bool b) u = refl
  plain_value-Unrepeated at (int n) u = refl
  plain_value-Unrepeated at (float n k) u = refl
  plain_value-Unrepeated at (str t) u = refl

  plain_items-Unrepeated :
      (at : Location) (i : ℕ) (vs : Items) → UnrepeatedItems vs → plain_items at i vs ≡ (vs, [])
  plain_items-Unrepeated at i nil u = refl
  plain_items-Unrepeated at i (cons v vs) (u, us) = λ n.
      let here = plain_value-Unrepeated (at ++ index i ∷ []) v u n in
      let later = plain_items-Unrepeated at (i + 1) vs us n in
      (cons here.0 later.0, here.1 ++ later.1)

  plain_fields-Unrepeated :
      (at : Location) (before fs : Fields)
      → NewKeys before fs
      → UnrepeatedFields fs
      → plain_fields at before [] fs ≡ (after_before before fs, [])
  plain_fields-Unrepeated at before end new u = λ n. (sym (after_before-end before) n, [])
  plain_fields-Unrepeated at before (field k v fs) (new, news) (u, us) =
      (λ n.
        let value = plain_value-Unrepeated (at ++ key k ∷ []) v u n in
        let repeats = repeats-false k before new n in
        let rest = plain_fields at (set_field k value.0 before) (remember repeats k []) fs in
        (rest.0, report repeats at k ++ (value.1 ++ rest.1)))
      ∙ plain_fields-Unrepeated at (set_field k v before) fs news us
      ∙ (λ n. (after_before-set_field k v before fs new n, []))

-- A written value settles exactly when no object of it, at any depth, repeats a key, and then to
-- itself.
pub settle_iff : (v w : Value) → (settle v ≡ settled w) ↔ ((w ≡ v) × Unrepeated v)
unfolding settle
settle_iff v w = (
  (λ e. of_plain (plain_value [] v) refl e),
  λ (same, u). ap settle_with (plain_value-Unrepeated [] v u) ∙ ap settled (sym same),
)
  where
    of_plain :
        (p : Value × List (Location × Text))
        → plain_value [] v ≡ p
        → settle_with p ≡ settled w
        → (w ≡ v) × Unrepeated v
    of_plain (plain, []) f h =
        let (is, u) = plain_value-nil [] v (ap (λ p. p.1) f) in
        (cc h ∙ sym (ap (λ p. p.0) f) ∙ is, u)
    of_plain (plain, r ∷ rs) f h = absurd (cc h)
