-- ===== src/Rules/Clear.antt =====
-- A line that a set deny list does not refuse: read in full, plain, and clear of every pattern.
use nare.Prelude.{
  ℕ, suc, ◌≡◌, ◌≢◌, refl, ap, ◌∙◌, ◌⊎◌, inl, inr, true, false, not, ◌&&◌, List, [], ◌∷◌, map, some,
  Text, arith, has, has_char, all, All, keep, has-keep, join, Bool-cases, Option-cases,
  if◌then◌else◌, add_new, add_new-eq-nil,
}
use nare.Shell.Token.{Token, str_of}
use nare.Shell.Commands.{Unicode, commands, plain, is_empty}
use nare.Rules.Deny.{space, meets, hits, tail_hits, tails, argv, is_runner, basename}
use nare.Rules.Decide.{
  Verdict, every, these, sorted, decide_allow, also, argument_hits, runner_verdict, tails_hits,
  equals_hits, texts_verdict, command_verdict, commands_refused, denied_line, denied_by,
  levels_read, denied, decide,
}

module _ (u : Unicode) (deny : List Text) where
  -- No rule matches the words of the tail, with or without a space behind them.
  abbrev pub Unmatched : List Text → Type 0
  Unmatched tail = (rule : Text) → has rule deny ≡ true → meets u (join space tail) rule ≡ false

  -- The command word holds no `=`, and each argument of a runner, read as a line of its own at the
  -- next level, is refused by no rule.
  abbrev pub HeadClear : (Text → List Text) → List Text → Type 0
  HeadClear inner [] = Unit
  HeadClear inner (t ∷ args) =
      (has_char b'=' t ≡ false)
      × (is_runner (map u.lower (basename t)) ≡ true → All (λ a. inner a ≡ []) args)

  pub record IsClear (inner : Text → List Text) (words : List Token) : Type 0 where
    pub plain_words : all plain (argv words) ≡ true
    pub head_clear : HeadClear inner (map str_of (argv words))
    pub unmatched : All Unmatched (tails (map str_of (argv words)))

  hits-head :
      (c : Text) (cs : List Text)
      → hits u (c ∷ cs) deny ≡ []
      → (rule : Text) → has rule deny ≡ true
      → meets u c rule ≡ false
  unfolding hits
  hits-head c cs e rule h =
      let kept = (add_new-eq-nil (keep (meets u c) deny) (hits u cs deny) e).0 in
      ground (arith, has-keep rule (meets u c) deny, ap (has rule) kept, has_none rule)
    where
      has_none : (rule : Text) → has rule [] ≡ false
      has_none rule = unfold has in refl

  tail_hits-Unmatched :
      (t : Text) (ts : List Text) → tail_hits u (t ∷ ts) deny ≡ [] → Unmatched (t ∷ ts)
  unfolding tail_hits
  tail_hits-Unmatched t ts e rule h = hits-head (join space (t ∷ ts)) _ e rule h

  module _ (inner : Text → List Text) where
    tails_hits-Unmatched :
        (ts : List Text) → tails_hits u deny inner (tails ts) ≡ [] → All Unmatched (tails ts)
    unfolding tails_hits tails
    tails_hits-Unmatched [] e = tt
    tails_hits-Unmatched (t ∷ ts) e =
        let (here, later) =
          add_new-eq-nil (tail_hits u (t ∷ ts) deny) (tails_hits u deny inner (tails ts)) e in
        (tail_hits-Unmatched t ts here, tails_hits-Unmatched ts later)

    also-nil :
        (v : Verdict) (more : List Text) → also v more ≡ these [] → (v ≡ these []) × (more ≡ [])
    also-nil every more e = absurd (cc e)
    also-nil (these found) more e =
        let n : add_new found more ≡ [] = cc e in
        let (f, m) = add_new-eq-nil found more n in (ap these f, m)

    argument_hits-nil :
        (args : List Text) → argument_hits u deny inner args ≡ [] → All (λ a. inner a ≡ []) args
    unfolding argument_hits
    argument_hits-nil [] e = tt
    argument_hits-nil (a ∷ as_) e =
        let (here, later) = add_new-eq-nil (inner a) _ e in
        (here, argument_hits-nil as_ (add_new-eq-nil _ (argument_hits u deny inner as_) later).1)

    runner_verdict-nil :
        (name : Text) (args : List Text)
        → runner_verdict u deny inner name args ≡ these []
        → is_runner name ≡ true
        → All (λ a. inner a ≡ []) args
    unfolding runner_verdict
    runner_verdict-nil name args e r = argument_hits-nil args (ground arith)

    texts_verdict-HeadClear :
        (ts : List Text)
        → texts_verdict u deny inner ts ≡ these []
        → HeadClear inner ts × All Unmatched (tails ts)
    unfolding texts_verdict
    texts_verdict-HeadClear [] e = (tt, unfold tails in tt)
    texts_verdict-HeadClear (t ∷ args) e = elim (Bool-cases (has_char b'=' t)) [
      | inl y ↦ absurd (cc (rw y at e))
      | inr n ↦
          let run = runner_verdict u deny inner (map u.lower (basename t)) args in
          let hit = tails_hits u deny inner (tails (t ∷ args)) in
          let e' : also (also run hit) (equals_hits u deny inner (t ∷ args)) ≡ these [] =
            rw n at e in
          let (both, _) = also-nil (also run hit) (equals_hits u deny inner (t ∷ args)) e' in
          let (ran, met) = also-nil run hit both in
          (
            (n, λ r. runner_verdict-nil (map u.lower (basename t)) args ran r),
            tails_hits-Unmatched (t ∷ args) met,
          )
    ]

    command_verdict-IsClear :
        (words : List Token) → command_verdict u deny inner words ≡ these [] → IsClear inner words
    unfolding command_verdict
    command_verdict-IsClear words e = elim (Bool-cases (all plain (argv words))) [
      | inr n ↦ absurd (cc (rw n at e))
      | inl y ↦
          let (head, free) = texts_verdict-HeadClear (map str_of (argv words)) (rw y at e) in
          record { plain_words = y; head_clear = head; unmatched = free }
    ]

  is_empty-≢ : (rules : List Text) → rules ≢ [] → is_empty rules ≡ false
  is_empty-≢ [] s = absurd (s refl)
  is_empty-≢ (r ∷ rs) s = refl

  -- One level: a line that no rule of a set deny list refuses is read, and each command is clear.
  commands_refused-IsClear :
      (inner : Text → List Text) (refused : List Text) (cs : List (List Token))
      → deny ≢ []
      → commands_refused u deny inner refused cs ≡ []
      → All (IsClear inner) cs × (refused ≡ [])
  unfolding commands_refused
  commands_refused-IsClear inner refused [] some_rule e = (tt, e)
  commands_refused-IsClear inner refused (c ∷ cs) some_rule e =
      elim (Verdict-cases (command_verdict u deny inner c)) [
        | inl v ↦ absurd (some_rule (rw (v, commands_refused) at e))
        | inr (found, v) ↦
            let (rest, both) =
              commands_refused-IsClear inner (add_new refused found) cs some_rule
                (rw (v, commands_refused) at e) in
            let (r, f) = add_new-eq-nil refused found both in
            ((command_verdict-IsClear inner c (v ∙ ap these f), rest), r)
      ]
    where
      Verdict-cases : (v : Verdict) → (v ≡ every) ⊎ ((found : List Text) × (v ≡ these found))
      Verdict-cases every = inl refl
      Verdict-cases (these found) = inr (found, refl)

  -- Every command of the line is clear of the deny list at `levels` levels.
  abbrev pub LineClear : ℕ → Text → Type 0
  LineClear levels command =
      (cs : List (List Token)) × (commands u command ≡ some cs)
      × All (IsClear (denied_by levels u deny)) cs

  denied_by-LineClear :
      (levels : ℕ) (command : Text)
      → deny ≢ []
      → denied_by (suc levels) u deny command ≡ []
      → LineClear levels command
  unfolding denied_by
  denied_by-LineClear levels command some_rule e = elim (Option-cases (commands u command)) [
    | inl n ↦ absurd (some_rule (rw (n, denied_by, denied_line) at e))
    | inr (cs, s) ↦ (
      cs,
      s,
      (commands_refused-IsClear (denied_by levels u deny) [] cs some_rule
          (rw (s, denied_by, denied_line) at e)).0,
    )
  ]

  -- With a deny list that is not empty, a line whose decision is not a denial is read, and each of
  -- its commands has plain words alone, holds no `=` in its command word, matches no deny pattern at
  -- any suffix of its words, and passes to a runner no argument that is refused one level deeper.
  pub decide_not_denied :
      (command : Text) (allow : List Text)
      → deny ≢ []
      → ((rules : List Text) → decide u command allow deny ≢ denied rules)
      → LineClear 4 command
  unfolding decide
  decide_not_denied command allow some_rule let_by =
      denied_by-LineClear 4 command some_rule
        (nothing (denied_by levels_read u deny command) some_rule let_by)
    where
      nothing :
          (refused : List Text)
          → deny ≢ []
          → ((rules : List Text)
              → (if not (is_empty deny) && not (is_empty refused)
                  then denied (sorted refused)
                  else decide_allow u command allow)
                ≢ denied rules)
          → refused ≡ []
      nothing [] s o = refl
      nothing (r ∷ rs) s o = absurd (o (sorted (r ∷ rs)) (rw (is_empty-≢ deny s)))
