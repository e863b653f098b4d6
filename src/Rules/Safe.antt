-- ===== src/Rules/Safe.antt =====
-- What a decision rests on: an allowed line is plain and covered, and a line that is not denied
-- meets no deny pattern.
use nare.Prelude.{
  ◌≡◌, ◌≢◌, refl, ap, inl, inr, Bool, true, false, not, ◌&&◌, ◌||◌, List, [], ◌∷◌, map, Option,
  none, some, Text, arith, has, any, all, All, keep, has-keep, join, same_refl, Bool-cases,
  Option-cases, if◌then◌else◌, add_new,
}
use nare.Shell.Token.{Token, str_of}
use nare.Shell.Commands.{Unicode, commands, plain, is_redir, is_empty}
use nare.Rules.Pattern.{bash_rule_matches}
use nare.Rules.Deny.{space}
use nare.Rules.Decide.{
  denied_by, levels_read, covered, cover_all, allowed_by, allowed, decide_allow, decide,
}

module _ (u : Unicode) (allow : List Text) where
  -- One command of an allowed line: no redirection, plain words, and a pattern that matches it
  -- as a whole.
  pub record IsCovered (words : List Token) : Type 0 where
    pub no_redirection : any is_redir words ≡ false
    pub plain_words : all plain words ≡ true
    pub rule : Text
    pub is_rule : has rule allow ≡ true
    pub matched : bash_rule_matches u rule (join space (map str_of words)) false ≡ true

  keep-head :
      (p : Text → Bool) (xs : List Text) {y : Text} {ys : List Text}
      → keep p xs ≡ y ∷ ys
      → (has y xs ≡ true) × (p y ≡ true)
  unfolding has
  keep-head p xs {y} {ys} e = ground (arith, has-keep y p xs, ap (has y) e, same_refl y)

  covered-IsCovered :
      (words : List Token) (matched : List Text)
      → covered u allow words ≡ some matched
      → IsCovered words
  unfolding covered
  covered-IsCovered words matched h =
      elim (Bool-cases (any is_redir words || not (all plain words))) [
        | inl bad ↦ absurd (cc (rw bad at h))
        | inr good ↦
            let p : Text → Bool =
              λ rule. bash_rule_matches u rule (join space (map str_of words)) false in
            go (keep p allow) refl (rw good at h) good
      ]
    where
      go :
          (found : List Text)
          → keep (λ rule. bash_rule_matches u rule (join space (map str_of words)) false) allow
            ≡ found
          → (if is_empty found then none else some found) ≡ some matched
          → (any is_redir words || not (all plain words)) ≡ false
          → IsCovered words
      go [] e k good = absurd (cc k)
      go (r ∷ rs) e k good =
          let (is_rule, matches) = keep-head _ allow e in
          record {
            no_redirection = ground arith;
            plain_words = ground arith;
            rule = r;
            is_rule = is_rule;
            matched = matches;
          }

  cover_all-IsCovered :
      (cs : List (List Token)) (covering found : List Text)
      → cover_all u allow covering cs ≡ some found
      → All IsCovered cs
  unfolding cover_all
  cover_all-IsCovered [] covering found h = tt
  cover_all-IsCovered (c ∷ cs) covering found h = elim (Option-cases (covered u allow c)) [
    | inl e ↦ absurd (cc (rw (e, cover_all) at h))
    | inr (matched, e) ↦ (
      covered-IsCovered c matched e,
      cover_all-IsCovered cs (add_new covering matched) found (rw (e, cover_all) at h),
    )
  ]

  allowed_by-IsCovered :
      (command : Text) (found : List Text)
      → allowed_by u allow command ≡ some found
      → (cs : List (List Token)) × (commands u command ≡ some cs) × (cs ≢ []) × All IsCovered cs
  unfolding allowed_by
  allowed_by-IsCovered command found h = go (commands u command) refl
    where
      go :
          (o : Option (List (List Token)))
          → commands u command ≡ o
          → (cs : List (List Token)) × (commands u command ≡ some cs) × (cs ≢ []) × All IsCovered cs
      go none e = absurd (cc (rw (e, allowed_by) at h))
      go (some []) e = absurd (cc (rw (e, allowed_by) at h))
      go (some (c ∷ cs)) e =
          (c ∷ cs, e, (λ n. cc), cover_all-IsCovered (c ∷ cs) [] found (rw (e, allowed_by) at h))

  decide_allow-allowed :
      (command : Text) (found : List Text)
      → decide_allow u command allow ≡ allowed found
      → (ps : List Text) × (allowed_by u allow command ≡ some ps)
  unfolding decide_allow
  decide_allow-allowed command found h = elim (Bool-cases (is_empty allow)) [
    | inl e ↦ absurd (cc (rw e at h))
    | inr e ↦ elim (Option-cases (allowed_by u allow command)) [
      | inl none_ ↦ absurd (cc (rw (e, none_, decide_allow) at h))
      | inr (ps, covered_) ↦ (ps, covered_)
    ]
  ]

  decide-decide_allow :
      (command : Text) (deny found : List Text)
      → decide u command allow deny ≡ allowed found
      → decide_allow u command allow ≡ allowed found
  unfolding decide
  decide-decide_allow command deny found h =
      elim (Bool-cases
        (not (is_empty deny) && not (is_empty (denied_by levels_read u deny command)))) [
          | inl e ↦ absurd (cc (rw e at h))
          | inr e ↦ rw e at h
        ]

  -- Where the rules allow a line, the lexer reads it, it has a command, and each of its commands has no
  -- redirection, only plain words, and an allow pattern that matches it as a whole.
  pub decide_allowed :
      (command : Text) (deny found : List Text)
      → decide u command allow deny ≡ allowed found
      → (cs : List (List Token)) × (commands u command ≡ some cs) × (cs ≢ []) × All IsCovered cs
  decide_allowed command deny found h =
      let (ps, e) = decide_allow-allowed command found (decide-decide_allow command deny found h) in
      allowed_by-IsCovered command ps e
