-- ===== src/Rules/Decide.antt =====
-- The decision on a line: `_denied_by`, `_allowed_by` and `decide` (src/nare/bash_rules.py).
use nare.Prelude.{
  ℕ, zero, suc, false, not, ◌&&◌, ◌||◌, List, [], ◌∷◌, map, Option, none, some, Text, has, has_char,
  any, all, keep, join, if◌then◌else◌, add_new,
}
use nare.Pages.Listing.{text_ltb}
use nare.Shell.Token.{Token, str_of}
use nare.Shell.Commands.{Unicode, commands, plain, is_redir, is_empty}
use nare.Rules.Pattern.{bash_rule_matches}
use nare.Rules.Deny.{
  space, shells, file_readers, is_runner, basename, hits, tail_hits, suffix_hits, tails,
  after_equals, argv, reads_command_string,
}

-- What one command of a line says: every pattern refuses it, or some do.
pub data Verdict : Type 0 where
  every : Verdict
  these : List Text → Verdict

abbrev pub also : Verdict → List Text → Verdict
also every more = every
also (these found) more = these (add_new found more)

-- `inner` reads a text as a line of commands of its own.
module _ (u : Unicode) (deny : List Text) (inner : Text → List Text) where
  -- The arguments of a runner, each as a line and at each of its suffixes.
  unfoldable pub argument_hits : List Text → List Text
  argument_hits [] = []
  argument_hits (t ∷ ts) = add_new (inner t) (add_new (suffix_hits u t deny) (argument_hits ts))

  unfoldable pub runner_verdict : Text → List Text → Verdict
  unfolding argument_hits
  runner_verdict name args =
      if not (is_runner name)
      then these []
      else if has name file_readers
      then every
      else if has name shells && not (reads_command_string args)
      then every
      else if any (has_char b'\\') args
      then every
      else these (argument_hits args)

  unfoldable pub tails_hits : List (List Text) → List Text
  tails_hits [] = []
  tails_hits (t ∷ ts) = add_new (tail_hits u t deny) (tails_hits ts)

  unfoldable pub equals_hits : List Text → List Text
  equals_hits [] = []
  equals_hits (t ∷ ts) = add_new (hits u (after_equals t) deny) (equals_hits ts)

  -- The texts of a command's words, the command word first.
  unfoldable pub texts_verdict : List Text → Verdict
  unfolding runner_verdict tails_hits equals_hits
  texts_verdict [] = these []
  texts_verdict (t ∷ args) =
      if has_char b'=' t
      then every
      else also
          (also (runner_verdict (map u.lower (basename t)) args) (tails_hits (tails (t ∷ args))))
          (equals_hits (t ∷ args))

  unfoldable pub command_verdict : List Token → Verdict
  unfolding texts_verdict
  command_verdict words =
      if all plain (argv words) then texts_verdict (map str_of (argv words)) else every

  -- The commands in order: the first that every pattern refuses decides.
  unfoldable pub commands_refused : List Text → List (List Token) → List Text
  unfolding command_verdict
  commands_refused refused [] = refused
  commands_refused refused (c ∷ cs) = elim (command_verdict c) [
    | every ↦ deny
    | these found ↦ commands_refused (add_new refused found) cs
  ]

-- One level of `_denied_by`, over the level inside it.
unfoldable pub denied_line : Unicode → List Text → (Text → List Text) → Text → List Text
unfolding commands_refused
denied_line u deny inner command = elim (commands u command) [
  | none ↦ deny
  | some cs ↦ commands_refused u deny inner [] cs
]

-- `_denied_by`, by the levels that are left: past the deepest every pattern refuses.
unfoldable pub denied_by : ℕ → Unicode → List Text → Text → List Text
unfolding denied_line
denied_by zero u deny command = deny
denied_by (suc levels) u deny command = denied_line u deny (denied_by levels u deny) command

-- Depths 0 to `_MAX_DEPTH`, which is 4.
abbrev pub levels_read : ℕ
levels_read = 5

-- The allow patterns that one command matches; `none` where it is not covered.
unfoldable pub covered : Unicode → List Text → List Token → Option (List Text)
covered u allow words =
    if any is_redir words || not (all plain words)
    then none
    else let matched =
        keep (λ rule. bash_rule_matches u rule (join space (map str_of words)) false) allow in
      if is_empty matched then none else some matched

unfoldable pub cover_all : Unicode → List Text → List Text → List (List Token) → Option (List Text)
unfolding covered
cover_all u allow covering [] = some covering
cover_all u allow covering (c ∷ cs) = elim (covered u allow c) [
  | none ↦ none
  | some matched ↦ cover_all u allow (add_new covering matched) cs
]

-- `not commands` holds of a line that cannot be read and of one with no command.
unfoldable pub allowed_by : Unicode → List Text → Text → Option (List Text)
unfolding cover_all
allowed_by u allow command = elim (commands u command) [
  | none ↦ none
  | some [] ↦ none
  | some (c ∷ cs) ↦ cover_all u allow [] (c ∷ cs)
]

-- `sorted`.
unfoldable pub insert_sorted : Text → List Text → List Text
unfolding text_ltb
insert_sorted x [] = x ∷ []
insert_sorted x (y ∷ ys) = if text_ltb x y then x ∷ y ∷ ys else y ∷ insert_sorted x ys

unfoldable pub sorted : List Text → List Text
unfolding insert_sorted
sorted [] = []
sorted (x ∷ xs) = insert_sorted x (sorted xs)

pub data Decision : Type 0 where
  denied : List Text → Decision
  allowed : List Text → Decision
  undecided : Decision

unfoldable pub decide_allow : Unicode → Text → List Text → Decision
decide_allow u command allow =
    if is_empty allow then undecided else elim (allowed_by u allow command) [
      | none ↦ undecided
      | some [] ↦ undecided
      | some (p ∷ ps) ↦ allowed (sorted (p ∷ ps))
    ]

-- `decide`: deny wins.
unfoldable pub decide : Unicode → Text → List Text → List Text → Decision
decide u command allow deny =
    let refused = denied_by levels_read u deny command in
    if not (is_empty deny) && not (is_empty refused)
    then denied (sorted refused)
    else decide_allow u command allow
