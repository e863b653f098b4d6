-- ===== src/Corrections/Bound.antt =====
-- A run cannot loop on corrections: each free one lowers the fewest-errors mark.
use nare.Prelude.{
  ℕ, ◌+◌, ◌≤◌, ◌<◌, ◌≡◌, refl, ◌⊎◌, inl, inr, Bool, true, false, not, List, [], ◌∷◌, ◌++◌, Option,
  none, some, Text, arith, length, length-append, All, if◌then◌else◌, Option-cases,
}
use nare.Session.Types.{Session, Logged}
use nare.Session.Reopen.{reopen}
use nare.Corrections.Charge.{
  codes_of, is_free, charge, charge-granted, recorded, granted, fewest_of,
}
use nare.Corrections.Seen.{charge_refused}

-- A failing answer as `charge` is called for it.
pub record Failing : Type 0 where
  pub errors : List Text
  pub comparable : Bool
  pub kind : Text

-- The charges of a run, in order. The run goes on whatever is granted.
abbrev pub charge_all : ℕ → List Failing → Session → Session
charge_all limit [] s = s
charge_all limit (f ∷ fs) s = charge_all limit fs (charge s f.errors limit f.comparable f.kind).1

abbrev free_count : List Logged → ℕ
free_count [] = 0
free_count (l ∷ ls) = (if l.charged then 0 else 1) + free_count ls

free_count-append : (xs ys : List Logged) → free_count (xs ++ ys) ≡ free_count xs + free_count ys
free_count-append [] ys = omega arith
free_count-append (x ∷ xs) ys = omega (arith, free_count-append xs ys)

free_count-charged :
    (log : List Logged) (kind : Text) (codes : List Text)
    → free_count (log ++ record { kind = kind; charged = true; codes = codes } ∷ [])
      ≡ free_count log
free_count-charged log kind codes =
    omega
      (arith, free_count-append log (record { kind = kind; charged = true; codes = codes } ∷ []))

free_count-free :
    (log : List Logged) (kind : Text) (codes : List Text)
    → free_count (log ++ record { kind = kind; charged = false; codes = codes } ∷ [])
      ≡ free_count log + 1
free_count-free log kind codes =
    omega
      (arith, free_count-append log (record { kind = kind; charged = false; codes = codes } ∷ []))

length-concat : (log : List Logged) (l : Logged) → length (log ++ l ∷ []) ≡ length log + 1
length-concat log l = omega (arith, length-append log (l ∷ []))

-- What the free corrections and the mark add up to.
abbrev Marked : ℕ → ℕ → Option ℕ → Type 0
Marked most free none = free ≡ 0
Marked most free (some fewest) = free + fewest ≤ most

record IsBudgeted (limit most : ℕ) (s : Session) : Type 0 where
  charged_le : s.schema_corrections ≤ limit
  logged :
      length s.schema_correction_log ≡ s.schema_corrections + free_count s.schema_correction_log
  marked : Marked most (free_count s.schema_correction_log) s.schema_fewest_errors

Marked-recorded :
    (limit most free n : ℕ) (comparable : Bool) (fewest : Option ℕ)
    → n ≤ most
    → Marked most free fewest
    → is_free comparable limit n fewest ≡ true
    → Marked most (free + 1) (some (fewest_of n fewest))
unfolding is_free fewest_of
Marked-recorded limit most free n comparable none le m h = ground arith
Marked-recorded limit most free n comparable (some k) le m h = ground arith

Marked-charged :
    (most free n : ℕ) (fewest : Option ℕ)
    → n ≤ most
    → Marked most free fewest
    → Marked most free (some (fewest_of n fewest))
unfolding fewest_of
Marked-charged most free n none le m = omega arith
Marked-charged most free n (some k) le m = omega arith

not_free : (limit n : ℕ) (fewest : Option ℕ) → is_free false limit n fewest ≡ true → ⊥
unfolding is_free
not_free limit n fewest h = cc

module _ (limit most : ℕ) (kind : Text) (codes : List Text) (s : Session)
    (le : length codes ≤ most) where
  granted-IsBudgeted :
      (comparable free : Bool)
      → is_free comparable limit (length codes) s.schema_fewest_errors ≡ free
      → (free ≡ true) ⊎ (s.schema_corrections < limit)
      → IsBudgeted limit most s
      → IsBudgeted limit most (granted (not free) kind codes (recorded comparable codes s))
  unfolding granted recorded
  granted-IsBudgeted false true f a b =
      absurd (not_free limit (length codes) s.schema_fewest_errors f)
  granted-IsBudgeted true true f a b = record {
    charged_le = b.charged_le;
    logged = rw (length-concat, free_count-free) (omega (arith, b.logged));
    marked = rw free_count-free (
        Marked-recorded limit most (free_count s.schema_correction_log) (length codes) true
          s.schema_fewest_errors le b.marked f);
  }
  granted-IsBudgeted comparable false f (inl e) b = absurd (cc e)
  granted-IsBudgeted false false f (inr a) b = record {
    charged_le = omega arith;
    logged = rw (length-concat, free_count-charged) (omega (arith, b.logged));
    marked = rw free_count-charged b.marked;
  }
  granted-IsBudgeted true false f (inr a) b = record {
    charged_le = omega arith;
    logged = rw (length-concat, free_count-charged) (omega (arith, b.logged));
    marked = rw free_count-charged (
        Marked-charged most (free_count s.schema_correction_log) (length codes)
          s.schema_fewest_errors le b.marked);
  }

charge-IsBudgeted :
    (limit most : ℕ) (s : Session) (f : Failing)
    → length (codes_of f.errors) ≤ most
    → IsBudgeted limit most s
    → IsBudgeted limit most (charge s f.errors limit f.comparable f.kind).1
charge-IsBudgeted limit most s f le b =
    elim (Option-cases (charge s f.errors limit f.comparable f.kind).0) [
      | inl refused ↦ rw ((charge_refused s f.errors limit f.comparable f.kind refused).0) b
      | inr (c, e) ↦
          let (after, _, _, allowed) = charge-granted s f.errors limit f.comparable f.kind c e in
          rw after (
            granted-IsBudgeted limit most f.kind (codes_of f.errors) s le f.comparable _ refl
              allowed b)
    ]

charge_all-IsBudgeted :
    (limit most : ℕ) (fs : List Failing) (s : Session)
    → All (λ f. length (codes_of f.errors) ≤ most) fs
    → IsBudgeted limit most s
    → IsBudgeted limit most (charge_all limit fs s)
charge_all-IsBudgeted limit most [] s le b = b
charge_all-IsBudgeted limit most (f ∷ fs) s le b =
    charge_all-IsBudgeted limit most fs _ le.1 (charge-IsBudgeted limit most s f le.0 b)

reopen-IsBudgeted :
    (limit most : ℕ) (s : Session) (t : Option Text) → IsBudgeted limit most (reopen s t)
unfolding reopen
reopen-IsBudgeted limit most s t = omega arith

Marked-le : (most free : ℕ) (fewest : Option ℕ) → Marked most free fewest → free ≤ most
Marked-le most free none m = omega arith
Marked-le most free (some k) m = omega arith

-- However many failing answers follow a reopening, the charged corrections never pass the budget,
-- and all corrections together never pass the budget by more than the largest number of distinct
-- errors that one of the answers has.
pub charge_all_bounded :
    (limit most : ℕ) (fs : List Failing) (s : Session) (t : Option Text)
    → All (λ f. length (codes_of f.errors) ≤ most) fs
    → let after = charge_all limit fs (reopen s t) in
      (after.schema_corrections ≤ limit) × (length after.schema_correction_log ≤ limit + most)
charge_all_bounded limit most fs s t le =
    let b =
      charge_all-IsBudgeted limit most fs (reopen s t) le (reopen-IsBudgeted limit most s t) in
    (b.charged_le, omega (arith, b.charged_le, b.logged, Marked-le most _ _ b.marked))
