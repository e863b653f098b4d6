-- ===== src/Reads/Required.antt =====
-- What a run must have read: `ReadRequirement`, `build`, `read_paths`, `unmet`, `cited_unmet` and
-- `read_record` (src/nare/reads.py).
use nare.Prelude.{
  ℕ, Bool, not, ◌&&◌, ◌||◌, List, [], ◌∷◌, ◌++◌, Option, none, some, Text, codes, same, has, leb,
  ltb, length, all, add_new, decimal, ◌==◌, if◌then◌else◌,
}
use nare.Json.Value.{ℤ, pos, negsuc, Value}
use nare.Json.Dict.{Dict, insert, keys, values}
use nare.Session.Types.{Evidence}
use nare.Reads.Pointer.{PointerError, Checked, fine, bad, ◌>>=◌, parse_pointer}
use nare.Reads.Cited.{Digits, cited_values}

pub record ReadRequirement : Type 0 where
  pub count : ℕ
  pub paths : List Text
  pub cited : List Text

unfoldable pub active : ReadRequirement → Bool
active r = ltb 0 r.count || (ltb 0 (length r.paths) || ltb 0 (length r.cited))

-- The characters that `str.strip` takes off.
unfoldable pub is_space : ℕ → Bool
is_space c =
    (leb 9 c && leb c 13)
    || (leb 28 c && leb c 32)
    || c == 133
    || c == 160
    || c == 5760
    || (leb 8192 c && leb c 8202)
    || c == 8232
    || c == 8233
    || c == 8239
    || c == 8287
    || c == 12288

pub data BuildError : Type 0 where
  bad_count empty_path outside : BuildError
  bad_pointer : PointerError → BuildError

pub data Built (A : Type 0) : Type 0 where
  built : A → Built A
  refused : BuildError → Built A

infixl 5 ◌>>=?◌
abbrev pub ◌>>=?◌ : {A B : Type 0} → Built A → (A → Built B) → Built B
built a >>=? f = f a
refused e >>=? f = refused e

abbrev pub of_result : {A : Type 0} → Checked A → Built A
of_result (fine a) = built a
of_result (bad e) = refused (bad_pointer e)

abbrev pub or_outside : Option Text → Built Text
or_outside none = refused outside
or_outside (some p) = built p

-- What one read left: its path, digest and size.
pub record FileRead : Type 0 where
  pub path : Text
  pub sha256 : Text
  pub size : ℕ

abbrev pub read_tool : Text
read_tool = codes "read"

abbrev pub file_of : Evidence → FileRead
file_of e = record { path = e.path; sha256 = e.sha256; size = e.size }

unfoldable pub read_from : Dict FileRead → List Evidence → Dict FileRead
read_from latest [] = latest
read_from latest (e ∷ es) =
    read_from (if same e.tool read_tool then insert e.path (file_of e) latest else latest) es

-- Each distinct file read, once, with its latest digest.
unfoldable pub read_paths : List Evidence → Dict FileRead
unfolding read_from
read_paths evidence = read_from [] evidence

unfoldable pub read_record : List Evidence → List FileRead
read_record evidence = values (read_paths evidence)

unfoldable pub count_gap : ℕ → ℕ → List Text
count_gap count read =
    if not (count == 0) && ltb read count
    then (codes "read at least "
        ++ (decimal count
            ++ (codes " distinct files (read " ++ (decimal read ++ codes " so far)"))))
      ∷ []
    else []

unfoldable pub path_gaps : List Text → List Text → List Text
path_gaps read [] = []
path_gaps read (p ∷ ps) =
    if has p read then path_gaps read ps else (codes "read " ++ p) ∷ path_gaps read ps

-- What the session still has to read.
unfoldable pub unmet : List Evidence → ReadRequirement → List Text
unfolding count_gap path_gaps
unmet evidence r =
    let read = keys (read_paths evidence) in
    count_gap r.count (length read) ++ path_gaps read r.paths

-- `shown` puts a path in the form evidence records it, `none` where it lies outside the root or
-- cannot be resolved: what `pathlib` makes of it.
module _ (shown : Text → Option Text) where
  unfoldable pub build_paths : List Text → List Text → Built (List Text)
  build_paths normal [] = built normal
  build_paths normal (given ∷ rest) =
      if all is_space given
      then refused empty_path
      else (or_outside (shown given) >>=? λ p. build_paths (add_new normal (p ∷ [])) rest)

  unfoldable pub build_pointers : List Text → List Text → Built (List Text)
  build_pointers pointers [] = built pointers
  build_pointers pointers (p ∷ rest) =
      of_result (parse_pointer p) >>=? λ _. build_pointers (add_new pointers (p ∷ [])) rest

  unfoldable pub build : ℤ → List Text → List Text → Built ReadRequirement
  unfolding build_paths build_pointers
  build (negsuc n) paths cited = refused bad_count
  build (pos count) paths cited = build_paths [] paths >>=? λ normal.
      build_pointers [] cited >>=? λ pointers.
      built (record { count = count; paths = normal; cited = pointers })

  -- The gap that one cited path leaves, if any.
  unfoldable pub cited_gap : List Text → Text → List Text
  cited_gap read given = elim (shown given) [
    | none ↦
        (codes "remove " ++ (given ++ codes ", which is outside the root and cannot be read")) ∷ []
    | some path ↦
        if has path read
        then []
        else (codes "read " ++ (path ++ codes ", which the answer cites")) ∷ []
  ]

  unfoldable pub cited_gaps : List Text → List Text → List Text
  unfolding cited_gap
  cited_gaps read [] = []
  cited_gaps read (v ∷ vs) = cited_gap read v ++ cited_gaps read vs

  unfoldable pub cited_unmet :
      Digits → List Evidence → ReadRequirement → Value → Checked (List Text)
  unfolding cited_gaps
  cited_unmet digits evidence r answer = cited_values digits answer r.cited >>= λ found.
      fine (cited_gaps (keys (read_paths evidence)) found)
