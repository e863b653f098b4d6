-- ===== src/Tests/Reading.antt =====
-- A run that read one file and cites it (src/nare/reads.py).
use nare.Prelude.{
  ℕ, [], ◌+◌, ◌-◌, ◌*◌, leb, ◌&&◌, ◌≡◌, ◌≢◌, ◌≤◌, ◌↔◌, refl, true, List, ◌∷◌, length, some, Text,
  codes, has, has_char, same, add_new, All, Distinct,
}
use nare.Json.Value.{Value, str, arr, obj, cons, nil, end, field}
use nare.Json.Dict.{lookup, keys, insert}
use nare.Session.Types.{Evidence}
use nare.Reads.Pointer.{fine, parse_pointer, split, replace_pair, tokens_of}
use nare.Reads.RoundTrip.{pointer, parse_pointer-pointer, pointer-parse_pointer}
use nare.Reads.Cited.{Digits, cited_values, walk}
use nare.Reads.Holds.{Cites}
use nare.Reads.Required.{ReadRequirement, unmet, read_paths, cited_unmet}
use nare.Reads.Met.{reads_of, last_read, Settled, unmet_iff, read_paths_latest, cited_unmet_iff}

abbrev pub read_a : Evidence
read_a = record { tool = codes "read"; path = codes "a.py"; sha256 = codes "f0"; size = 3 }

abbrev pub one_file : ReadRequirement
one_file = record { count = 1; paths = codes "a.py" ∷ []; cited = codes "/files/0" ∷ [] }

abbrev pub answer : Value
answer = obj (field (codes "files") (arr (cons (str (codes "a.py")) nil)) end)

unmet_iff_example : (unmet (read_a ∷ []) one_file ≡ []) ↔ (
    (1 ≤ length (add_new [] (reads_of (read_a ∷ []))))
    × All (λ p. has p (reads_of (read_a ∷ [])) ≡ true) (codes "a.py" ∷ []))
unmet_iff_example = unmet_iff (read_a ∷ []) one_file

read_paths_latest_example :
    ((p : Text) → lookup p (read_paths (read_a ∷ [])) ≡ last_read p (read_a ∷ []))
    × Distinct (keys (read_paths (read_a ∷ [])))
read_paths_latest_example = read_paths_latest (read_a ∷ [])

-- The ten ASCII digits, which Python reads so.
abbrev ascii_value : ℕ → Text → ℕ
ascii_value acc [] = acc
ascii_value acc (c ∷ cs) = ascii_value (acc * 10 + (c - 48)) cs

abbrev pub ascii_digits : Digits
ascii_digits = record { is_digit = λ c. leb 48 c && leb c 57; number = λ t. some (ascii_value 0 t) }

answer-settled : cited_unmet some ascii_digits (read_a ∷ []) one_file answer ≡ fine []
unfolding cited_unmet cited_values parse_pointer tokens_of split has_char replace_pair add_new walk
    same has keys read_paths insert
answer-settled = refl

cited_unmet_iff_example : (◌≡◌ {A = List Text} [] []) ↔ (
    (t : Text) → Cites ascii_digits answer (codes "/files/0" ∷ []) t → Settled some (read_a ∷ []) t)
cited_unmet_iff_example =
    cited_unmet_iff some ascii_digits (read_a ∷ []) one_file answer [] answer-settled

abbrev slashed : List Text
slashed = codes "a/b" ∷ codes "c~d" ∷ []

slashed-named : All (λ u. u ≢ []) slashed
slashed-named = ((λ e. absurd (cc e)), ((λ e. absurd (cc e)), tt))

parse_pointer-pointer_example : parse_pointer (pointer slashed) ≡ fine slashed
parse_pointer-pointer_example = parse_pointer-pointer (codes "a/b") (codes "c~d" ∷ []) slashed-named

file-parses : parse_pointer (codes "/a~1b") ≡ fine (codes "a/b" ∷ [])
unfolding parse_pointer tokens_of split has_char replace_pair
file-parses = refl

pointer-parse_pointer_example : pointer (codes "a/b" ∷ []) ≡ codes "/a~1b"
pointer-parse_pointer_example = pointer-parse_pointer (codes "/a~1b") (codes "a/b" ∷ []) file-parses
