-- ===== src/Rules/Matching.antt =====
-- The matcher of command patterns decides the relation that the documentation describes.
use nare.Prelude.{
  ℕ, ◌≡◌, ◌≢◌, refl, ap, ◌↔◌, ◌⊎◌, inl, inr, Bool, true, false, [], ◌∷◌, ◌++◌, Text, arith,
  Bool-cases,
}
use native.Mathlib.Decide.{ℕ_discrete}
use nare.Shell.Commands.{Unicode}
use nare.Rules.Pattern.{same_char, after_run, one_char, matches, bash_rule_matches}

abbrev pub SameChar : Unicode → Bool → ℕ → ℕ → Type 0
SameChar u true p c = u.fold p ≡ u.fold c
SameChar u false p c = p ≡ c

same_char_iff :
    (u : Unicode) (ignore_case : Bool) (p c : ℕ)
    → (same_char u ignore_case p c ≡ true) ↔ SameChar u ignore_case p c
unfolding same_char
same_char_iff u true p c = ground arith
same_char_iff u false p c = ground arith

-- `*` stands for any run of characters, `?` for one, and every other character for itself, up to case
-- folding where case is ignored.
pub data Matches (u : Unicode) (ignore_case : Bool) : Text → Text → Type 0 where
  nothing : Matches u ignore_case [] []
  run :
      {p : ℕ} {ps text : Text} (before rest : Text)
      → p ≡ b'*'
      → text ≡ before ++ rest
      → Matches u ignore_case ps rest
      → Matches u ignore_case (p ∷ ps) text
  char :
      {p c : ℕ} {ps cs : Text}
      → p ≢ b'*'
      → (p ≡ b'?') ⊎ SameChar u ignore_case p c
      → Matches u ignore_case ps cs
      → Matches u ignore_case (p ∷ ps) (c ∷ cs)

after_run_sound :
    (f : Text → Bool) (text : Text)
    → after_run f text ≡ true
    → (before : Text) × (rest : Text) × (text ≡ before ++ rest) × (f rest ≡ true)
unfolding after_run
after_run_sound f [] h = ([], [], refl, h)
after_run_sound f (c ∷ cs) h = elim (Bool-cases (f (c ∷ cs))) [
  | inl now ↦ ([], c ∷ cs, refl, now)
  | inr later ↦
      let (before, rest, e, k) = after_run_sound f cs (rw later at h) in
      (c ∷ before, rest, ap (◌∷◌ c) e, k)
]

after_run_complete :
    (f : Text → Bool) (before rest : Text) → f rest ≡ true → after_run f (before ++ rest) ≡ true
unfolding after_run
after_run_complete f [] [] h = h
after_run_complete f [] (c ∷ cs) h = rw h
after_run_complete f (b ∷ before) rest h = ground (arith, after_run_complete f before rest h)

module _ (u : Unicode) (ignore_case : Bool) where
  matches_sound :
      (pattern_ text : Text)
      → matches u ignore_case pattern_ text ≡ true
      → Matches u ignore_case pattern_ text
  unfolding matches one_char
  matches_sound [] [] h = nothing
  matches_sound [] (c ∷ cs) h = absurd (cc h)
  matches_sound (p ∷ ps) [] h = elim (ℕ_discrete p b'*') [
    | yes star ↦ run [] [] star refl (matches_sound ps [] (unfold after_run in ground arith))
    | no other ↦ absurd (ground arith)
  ]
  matches_sound (p ∷ ps) (c ∷ cs) h = elim (ℕ_discrete p b'*') [
    | yes star ↦
        let (before, rest, e, k) =
          after_run_sound (matches u ignore_case ps) (c ∷ cs) (rw star at h) in
        run before rest star e (matches_sound ps rest k)
    | no other ↦
        char other (ground (arith, same_char_iff u ignore_case p c))
          (matches_sound ps cs (ground arith))
  ]

  matches_complete :
      {pattern_ text : Text}
      → Matches u ignore_case pattern_ text
      → matches u ignore_case pattern_ text ≡ true
  unfolding matches one_char
  matches_complete nothing = refl
  matches_complete (run {p} {ps} before rest star e m) =
      rw (star, e) (after_run_complete (matches u ignore_case ps) before rest (matches_complete m))
  matches_complete (char {p} {c} other same m) =
      ground (arith, matches_complete m, same_char_iff u ignore_case p c)

  -- A rule matches a text exactly when the whole text is what the pattern stands for: `*` is any text,
  -- `?` any one character, and another character itself, or one of the same case folding where case is
  -- ignored.
  pub bash_rule_matches_iff :
      (rule text : Text)
      → (bash_rule_matches u rule text ignore_case ≡ true) ↔ Matches u ignore_case rule text
  unfolding bash_rule_matches
  bash_rule_matches_iff rule text = (matches_sound rule text, matches_complete)
