-- ===== src/Reads/Met.antt =====
-- A final answer is let through exactly when the reads it must rest on were made.
use nare.Prelude.{
  ap, same_refl, ◌||◌, ℕ, ◌≤◌, ◌≡◌, refl, sym, ◌∙◌, ◌↔◌, inl, inr, true, ◌&&◌, List, [], ◌∷◌,
  Option, none, some, Text, arith, same, same_iff, has, has-add_new, length, append-eq-nil, All,
  Bool-cases, Option-cases, add_new, add_new-Distinct, Distinct, if◌then◌else◌,
}
use nare.Json.Value.{Value}
use nare.Json.Dict.{Dict, insert, keys, lookup, lookup-insert}
use nare.Session.Types.{Evidence}
use nare.Reads.Pointer.{fine, >>=-eq-fine}
use nare.Reads.Cited.{Digits, cited_values}
use nare.Reads.Holds.{Cites}
use nare.Reads.Found.{cited_values-Cites}
use nare.Reads.Required.{
  ReadRequirement, FileRead, file_of, read_tool, read_from, read_paths, count_gap, path_gaps, unmet,
  cited_gap, cited_gaps, cited_unmet,
}

-- The paths of the reads, in call order.
abbrev pub reads_of : List Evidence → List Text
reads_of [] = []
reads_of (e ∷ es) = if same e.tool read_tool then e.path ∷ reads_of es else reads_of es

keys-insert {ℓ} :
    {V : Type ℓ} (k : Text) (v : V) (d : Dict V) → keys (insert k v d) ≡ add_new (keys d) (k ∷ [])
unfolding keys insert add_new has
keys-insert k v [] = refl
keys-insert k v ((j, w) ∷ d) = ground (arith, keys-insert k v d, same_iff j k, same_iff k j)

add_new-cons :
    (acc xs : List Text) (x : Text) → add_new acc (x ∷ xs) ≡ add_new (add_new acc (x ∷ [])) xs
unfolding add_new
add_new-cons acc xs x = refl

keys-read_from :
    (es : List Evidence) (latest : Dict FileRead)
    → keys (read_from latest es) ≡ add_new (keys latest) (reads_of es)
unfolding read_from
keys-read_from [] latest = unfold add_new in refl
keys-read_from (e ∷ es) latest = elim (Bool-cases (same e.tool read_tool)) [
  | inl r ↦ rw r (
      keys-read_from es (insert e.path (file_of e) latest)
      ∙ rw keys-insert (sym (add_new-cons (keys latest) (reads_of es) e.path)))
  | inr o ↦ rw o (keys-read_from es latest)
]

-- The distinct files read are the paths of the reads, each once, in the order first read.
keys-read_paths : (es : List Evidence) → keys (read_paths es) ≡ add_new [] (reads_of es)
unfolding read_paths keys
keys-read_paths es = keys-read_from es []

has-read : (k : Text) (es : List Evidence) → has k (keys (read_paths es)) ≡ has k (reads_of es)
has-read k es = rw keys-read_paths (rw has-add_new (unfold has in refl))

count_gap_iff : (count read : ℕ) → (count_gap count read ≡ []) ↔ (count ≤ read)
unfolding count_gap
count_gap_iff count read = ground arith

path_gaps_iff :
    (read paths : List Text) → (path_gaps read paths ≡ []) ↔ All (λ p. has p read ≡ true) paths
unfolding path_gaps
path_gaps_iff read [] = ((λ e. tt), λ h. refl)
path_gaps_iff read (p ∷ ps) = ground (arith, path_gaps_iff read ps)

All-has :
    (xs ys ps : List Text)
    → ((k : Text) → has k xs ≡ has k ys)
    → All (λ p. has p xs ≡ true) ps
    → All (λ p. has p ys ≡ true) ps
All-has xs ys [] e h = tt
All-has xs ys (p ∷ ps) e h = (sym (e p) ∙ h.0, All-has xs ys ps e h.1)

-- Nothing is owed exactly when as many distinct files were read as the count asks for, and each
-- named path is one of the reads.
pub unmet_iff :
    (evidence : List Evidence) (r : ReadRequirement)
    → (unmet evidence r ≡ []) ↔ (
        (r.count ≤ length (add_new [] (reads_of evidence)))
        × All (λ p. has p (reads_of evidence) ≡ true) r.paths)
unfolding unmet
unmet_iff evidence r =
    let gaps =
      append-eq-nil (count_gap r.count (length (keys (read_paths evidence))))
        (path_gaps (keys (read_paths evidence)) r.paths) in
    let counted = count_gap_iff r.count (length (keys (read_paths evidence))) in
    let named = path_gaps_iff (keys (read_paths evidence)) r.paths in
    (
      (λ e.
          let (c, p) = gaps.0 e in
          (
            rw (keys-read_paths evidence) at (counted.0 c),
            All-has (keys (read_paths evidence)) (reads_of evidence) r.paths
                (λ k. has-read k evidence) (named.0 p),
          )),
      λ h. gaps.1 (
        counted.1 (rw (keys-read_paths evidence) h.0),
        named.1 (
            All-has (reads_of evidence) (keys (read_paths evidence)) r.paths
              (λ k. sym (has-read k evidence)) h.1),
      ),
    )

-- The last read of a path.
abbrev pub last_read : Text → List Evidence → Option FileRead
last_read p [] = none
last_read p (e ∷ es) = elim (last_read p es) [
  | some later ↦ some later
  | none ↦ if same e.tool read_tool && same e.path p then some (file_of e) else none
]

abbrev or_else : Option FileRead → Option FileRead → Option FileRead
or_else (some later) old = some later
or_else none old = old

lookup-read_from :
    (p : Text) (es : List Evidence) (latest : Dict FileRead)
    → lookup p (read_from latest es) ≡ or_else (last_read p es) (lookup p latest)
unfolding read_from
lookup-read_from p [] latest = refl
lookup-read_from p (e ∷ es) latest = ground (
  arith,
  lookup-read_from p es latest,
  lookup-read_from p es (insert e.path (file_of e) latest),
  lookup-insert e.path p (file_of e) latest,
)

-- The record kept of a file is that of its last read, and there is one exactly for the files
-- that were read; no file is recorded twice.
pub read_paths_latest :
    (evidence : List Evidence)
    → ((p : Text) → lookup p (read_paths evidence) ≡ last_read p evidence)
      × Distinct (keys (read_paths evidence))
unfolding read_paths
read_paths_latest evidence = (
  (λ p. lookup-read_from p evidence [] ∙ nothing_else (last_read p evidence) p),
  rw (keys-read_paths evidence) (add_new-Distinct [] (reads_of evidence) tt),
)
  where
    nothing_else : (o : Option FileRead) (p : Text) → or_else o (lookup p []) ≡ o
    nothing_else none p = unfold lookup in refl
    nothing_else (some f) p = refl

module _ (shown : Text → Option Text) where
  -- A cited path is settled when it was read under the form evidence records.
  abbrev pub Settled : List Evidence → Text → Type 0
  Settled evidence given =
      (path : Text) × (shown given ≡ some path) × (has path (reads_of evidence) ≡ true)

  cited_gap_iff :
      (evidence : List Evidence) (given : Text)
      → (cited_gap shown (keys (read_paths evidence)) given ≡ []) ↔ Settled evidence given
  unfolding cited_gap
  cited_gap_iff evidence given = elim (Option-cases (shown given)) [
    | inl outside ↦ ((λ e. absurd (ground arith)), λ h. absurd (cc (h.1)))
    | inr (path, e) ↦ (
      (λ g. (path, e, ground (arith, has-read path evidence))),
      λ h. ground (arith, has-read path evidence),
    )
  ]

  cited_gaps_iff :
      (evidence : List Evidence) (found : List Text)
      → (cited_gaps shown (keys (read_paths evidence)) found ≡ []) ↔ All (Settled evidence) found
  unfolding cited_gaps
  cited_gaps_iff evidence [] = ((λ e. tt), λ h. refl)
  cited_gaps_iff evidence (v ∷ vs) =
      let both =
        append-eq-nil (cited_gap shown (keys (read_paths evidence)) v)
          (cited_gaps shown (keys (read_paths evidence)) vs) in
      let here = cited_gap_iff evidence v in
      let later = cited_gaps_iff evidence vs in
      ((λ e. (here.0 (both.0 e).0, later.0 (both.0 e).1)), λ h. both.1 (here.1 h.0, later.1 h.1))

  all-has :
      (evidence : List Evidence) (found : List Text)
      → All (Settled evidence) found
      → (t : Text) → has t found ≡ true
      → Settled evidence t
  unfolding has
  all-has evidence [] h t k = absurd (cc k)
  all-has evidence (v ∷ vs) h t k = elim (Bool-cases (same t v)) [
    | inl e ↦ let is : t ≡ v = (same_iff t v).0 e in rw is h.0
    | inr e ↦ all-has evidence vs h.1 t (sym (ap (λ b. b || has t vs) e) ∙ k)
  ]

  has-all :
      (evidence : List Evidence) (found : List Text)
      → ((t : Text) → has t found ≡ true → Settled evidence t)
      → All (Settled evidence) found
  unfolding has
  has-all evidence [] h = tt
  has-all evidence (v ∷ vs) h =
      (h v (ap (λ b. b || has v vs) (same_refl v)), has-all evidence vs (λ t k. h t (ground arith)))

  -- An answer that could be checked owes no cited read exactly when every string that it holds at a
  -- place one of the pointers names lies inside the root and was read, in the form that evidence
  -- records it.
  pub cited_unmet_iff :
      (digits : Digits) (evidence : List Evidence) (r : ReadRequirement) (answer : Value)
      (gaps : List Text)
      → cited_unmet shown digits evidence r answer ≡ fine gaps
      → (gaps ≡ []) ↔ ((t : Text) → Cites digits answer r.cited t → Settled evidence t)
  unfolding cited_unmet
  cited_unmet_iff digits evidence r answer gaps g =
      let (found, f, last) = >>=-eq-fine (cited_values digits answer r.cited) _ g in
      let same_gaps : cited_gaps shown (keys (read_paths evidence)) found ≡ gaps = cc last in
      let settled = cited_gaps_iff evidence found in
      (
        (λ e t c.
            all-has evidence found (settled.0 (same_gaps ∙ e)) t
              ((cited_values-Cites digits answer r.cited found t f).1 c)),
        λ h.
            sym same_gaps
            ∙ settled.1 (
                has-all evidence found
                  (λ t k. h t ((cited_values-Cites digits answer r.cited found t f).0 k))),
      )
