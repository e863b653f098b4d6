-- ===== src/Prelude/Unique.antt =====
-- Lists of texts with no repeats, built by appending what is not there yet.
use mathlib.Core.Path.{◌≡◌, refl, ap}
use mathlib.Core.Logic.{inl, inr}
use mathlib.Core.Bool.{Bool, true, false, ◌||◌, ◌&&◌}
use mathlib.Core.List.{List, [], ◌∷◌, ◌++◌}
use native.Mathlib.Omega.{arith}
use Prim.Native.Nat.{◌+◌, ◌≤◌}
use nare.Prelude.Tests.{if◌then◌else◌, Bool-cases}
use nare.Prelude.Lists.{length, length-append, keep}
use nare.Prelude.Strings.{Text, same, same_iff, same_refl, has}

-- `for x in xs: if x not in acc: acc.append(x)`; `list(dict.fromkeys(xs))` from the empty list.
unfoldable pub add_new : List Text → List Text → List Text
add_new acc [] = acc
add_new acc (x ∷ xs) = add_new (if has x acc then acc else acc ++ x ∷ []) xs

-- No text stands twice.
abbrev pub Distinct : List Text → Type 0
Distinct [] = Unit
Distinct (x ∷ xs) = (has x xs ≡ false) × Distinct xs

pub has-append : (k : Text) (xs ys : List Text) → has k (xs ++ ys) ≡ (has k xs || has k ys)
unfolding has
has-append k [] ys = refl
has-append k (x ∷ xs) ys = ground (arith, has-append k xs ys)

has-single : (k x : Text) → has k (x ∷ []) ≡ same k x
unfolding has
has-single k x = ground arith

has-same : (k x : Text) (xs : List Text) → same k x ≡ true → has k xs ≡ has x xs
has-same k x xs e = rw ((same_iff k x).0 e)

pub has-add_new : (k : Text) (acc xs : List Text) → has k (add_new acc xs) ≡ (has k acc || has k xs)
unfolding add_new has
has-add_new k acc [] = ground arith
has-add_new k acc (x ∷ xs) = elim (Bool-cases (has x acc)) [
  | inl old ↦ rw old (ground (arith, has-add_new k acc xs, has-same k x acc))
  | inr new ↦
      rw new (
        ground (arith, has-add_new k (acc ++ x ∷ []) xs, has-append k acc (x ∷ []), has-single k x))
]

concat-Distinct :
    (xs : List Text) (x : Text) → Distinct xs → has x xs ≡ false → Distinct (xs ++ x ∷ [])
unfolding has
concat-Distinct [] x d h = (refl, tt)
concat-Distinct (y ∷ ys) x d h = (
  ground (arith, has-append y ys (x ∷ []), has-single y x, same_iff y x, same_iff x y),
  concat-Distinct ys x d.1 (ground arith),
)

pub add_new-Distinct : (acc xs : List Text) → Distinct acc → Distinct (add_new acc xs)
unfolding add_new
add_new-Distinct acc [] d = d
add_new-Distinct acc (x ∷ xs) d = elim (Bool-cases (has x acc)) [
  | inl old ↦ rw old (add_new-Distinct acc xs d)
  | inr new ↦ rw new (add_new-Distinct (acc ++ x ∷ []) xs (concat-Distinct acc x d new))
]

pub length-add_new : (acc xs : List Text) → length (add_new acc xs) ≤ length acc + length xs
unfolding add_new
length-add_new acc [] = omega arith
length-add_new acc (x ∷ xs) =
    ground
      (arith, length-add_new acc xs, length-add_new (acc ++ x ∷ []) xs, length-append acc (x ∷ []))

pub has-keep : (k : Text) (p : Text → Bool) (xs : List Text) → has k (keep p xs) ≡ (has k xs && p k)
unfolding has
has-keep k p [] = refl
has-keep k p (x ∷ xs) = elim (Bool-cases (same k x)) [
  | inl e ↦ ground (arith, has-keep k p xs, (same_iff k x).0 e)
  | inr e ↦ ground (arith, has-keep k p xs)
]

-- Nothing is added up to nothing only from nothing.
pub add_new-eq-nil : (acc xs : List Text) → add_new acc xs ≡ [] → (acc ≡ []) × (xs ≡ [])
unfolding has
add_new-eq-nil [] [] e = (refl, refl)
add_new-eq-nil (a ∷ acc) xs e =
    absurd (ground (arith, has-add_new a (a ∷ acc) xs, ap (has a) e, same_refl a))
add_new-eq-nil [] (x ∷ xs) e =
    absurd (ground (arith, has-add_new x [] (x ∷ xs), ap (has x) e, same_refl x))
