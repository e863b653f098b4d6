-- ===== src/Rules/Deny.antt =====
-- The deny patterns that a line meets: `_hits`, `_tail_hits`, `_suffix_hits`, `_argv` and
-- `_denied_by` (src/nare/bash_rules.py). A set of patterns is a list without order.
use nare.Prelude.{
  Bool, true, false, not, ◌&&◌, ◌||◌, List, [], ◌∷◌, ◌++◌, map, Text, codes, has, has_char, all,
  keep, join, starts_with, ◌==◌, if◌then◌else◌, add_new,
}
use nare.Shell.Token.{Token, is_letter}
use nare.Shell.Commands.{Unicode, is_redir}
use nare.Rules.Pattern.{bash_rule_matches}

abbrev pub space : Text
space = codes " "

abbrev pub shells : List Text
shells =
    codes "sh"
    ∷ codes "bash"
    ∷ codes "zsh"
    ∷ codes "dash"
    ∷ codes "ksh"
    ∷ codes "csh"
    ∷ codes "tcsh"
    ∷ codes "fish"
    ∷ []

abbrev pub file_readers : List Text
file_readers = codes "." ∷ codes "source" ∷ []

abbrev pub other_runners : List Text
other_runners = map codes (
    "eval" ∷ "env" ∷ "xargs" ∷ "find" ∷ "sudo" ∷ "doas" ∷ "su" ∷ "runuser" ∷ "nice" ∷ "nohup"
    ∷ "time" ∷ "timeout" ∷ "exec" ∷ "command" ∷ "builtin" ∷ "busybox" ∷ "stdbuf" ∷ "ionice"
    ∷ "chroot" ∷ "flock" ∷ "watch" ∷ "parallel" ∷ "script" ∷ "strace" ∷ "ltrace" ∷ "setsid"
    ∷ "taskset" ∷ "unbuffer" ∷ "coproc" ∷ "sg" ∷ "caffeinate" ∷ "screen" ∷ "tmux" ∷ "ssh" ∷ "git"
    ∷ "arch" ∷ "xcrun" ∷ [])

unfoldable pub is_runner : Text → Bool
is_runner name = has name shells || has name file_readers || has name other_runners

-- `posixpath.basename`: what stands behind the last `/`.
unfoldable pub basename : Text → Text
basename [] = []
basename (c ∷ cs) = if has_char b'/' (c ∷ cs) then basename cs else c ∷ cs

-- The rules of `deny` that one candidate meets, with and without a trailing space.
unfoldable pub meets : Unicode → Text → Text → Bool
meets u candidate rule =
    bash_rule_matches u rule candidate true || bash_rule_matches u rule (candidate ++ space) true

unfoldable pub hits : Unicode → List Text → List Text → List Text
unfolding meets
hits u [] deny = []
hits u (c ∷ cs) deny = add_new (keep (meets u c) deny) (hits u cs deny)

-- `/usr/bin/rm x` is `rm x` too.
unfoldable pub tail_candidates : List Text → List Text
unfolding basename
tail_candidates [] = []
tail_candidates (t ∷ ts) =
    join space (t ∷ ts) ∷ (if has_char b'/' t then join space (basename t ∷ ts) ∷ [] else [])

unfoldable pub tail_hits : Unicode → List Text → List Text → List Text
unfolding tail_candidates hits
tail_hits u tail deny = hits u (tail_candidates tail) deny

-- Every tail of a list that is not empty.
unfoldable pub tails {ℓ} : {A : Type ℓ} → List A → List (List A)
tails [] = []
tails (x ∷ xs) = (x ∷ xs) ∷ tails xs

unfoldable pub suffix_hits : Unicode → Text → List Text → List Text
unfolding tails hits
suffix_hits u text deny = hits u (tails text) deny

-- What stands behind each `=` of a word.
unfoldable pub after_equals : Text → List Text
after_equals [] = []
after_equals (c ∷ cs) = if c == b'=' then cs ∷ after_equals cs else after_equals cs

-- The words a command runs with: a redirection goes with its target. The flag is `skip`.
unfoldable pub argv_from : Bool → List Token → List Token
unfolding is_redir
argv_from skip [] = []
argv_from true (t ∷ ts) = argv_from false ts
argv_from false (t ∷ ts) =
    let skipped = argv_from true ts in
    let taken = t ∷ argv_from false ts in if is_redir t then skipped else taken

unfoldable pub argv : List Token → List Token
unfolding argv_from
argv words = argv_from false words

-- `_COMMAND_STRING.fullmatch`: a dash, then letters with a `c` among them.
unfoldable pub is_command_string : Text → Bool
unfolding is_letter
is_command_string [] = false
is_command_string (c ∷ cs) = c == b'-' && (all is_letter cs && has_char b'c' cs)

-- Whether a shell's options, before any operand, include `-c`.
unfoldable pub reads_command_string : List Text → Bool
unfolding is_command_string
reads_command_string [] = false
reads_command_string (t ∷ ts) =
    if has t (codes "-" ∷ codes "--" ∷ [])
      || starts_with (codes "--") t
      || not (starts_with (codes "-") t)
    then false
    else if is_command_string t
    then true
    else reads_command_string ts
