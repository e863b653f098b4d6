-- ===== src/Reads/RoundTrip.antt =====
-- A pointer written by RFC 6901 reads back as its tokens, and no other text reads as them.
use nare.Prelude.{
  ℕ, ◌≡◌, ◌≢◌, refl, ap, ◌∙◌, inl, inr, false, ◌&&◌, List, [], ◌∷◌, ◌++◌, Text, has_char, ◌==◌,
  if◌then◌else◌, All, arith, Bool-cases, append-nil,
}
use mathlib.Core.Path.{ap₂}
use native.Mathlib.Decide.{ℕ_discrete}
use nare.Reads.Pointer.{
  fine, push_head, split, replace_pair, token_of, tokens_of, parse_pointer, >>=-eq-fine,
}

-- RFC 6901: `~` is written `~0` and `/` is written `~1`.
abbrev pub escape : Text → Text
escape [] = []
escape (c ∷ cs) =
    if c == b'~'
    then b'~' ∷ b'0' ∷ escape cs
    else if c == b'/'
    then b'~' ∷ b'1' ∷ escape cs
    else c ∷ escape cs

abbrev pub pointer : List Text → Text
pointer [] = []
pointer (t ∷ ts) = b'/' ∷ (escape t ++ pointer ts)

-- Only `~` written out.
abbrev half : Text → Text
half [] = []
half (c ∷ cs) = if c == b'~' then b'~' ∷ b'0' ∷ half cs else c ∷ half cs

replace_pair-skip :
    (a b c : ℕ) (new t : Text) → c ≢ a → replace_pair a b new (c ∷ t) ≡ c ∷ replace_pair a b new t
unfolding replace_pair
replace_pair-skip a b c new [] ne = refl
replace_pair-skip a b c new (d ∷ t) ne = ground arith

replace_pair-hit :
    (a b : ℕ) (new t : Text) → replace_pair a b new (a ∷ b ∷ t) ≡ new ++ replace_pair a b new t
unfolding replace_pair
replace_pair-hit a b new t = ground arith

replace_pair-miss :
    (a b c : ℕ) (new t : Text)
    → c ≢ b
    → replace_pair a b new (a ∷ c ∷ t) ≡ a ∷ replace_pair a b new (c ∷ t)
unfolding replace_pair
replace_pair-miss a b c new t ne = ground arith

-- The first `replace` reads every `~1`.
replace-escape : (t : Text) → replace_pair b'~' b'1' (b'/' ∷ []) (escape t) ≡ half t
replace-escape [] = unfold replace_pair in refl
replace-escape (c ∷ cs) = ground (
  arith,
  replace-escape cs,
  replace_pair-miss b'~' b'1' b'0' (b'/' ∷ []) (escape cs),
  replace_pair-skip b'~' b'1' b'0' (b'/' ∷ []) (escape cs),
  replace_pair-hit b'~' b'1' (b'/' ∷ []) (escape cs),
  replace_pair-skip b'~' b'1' c (b'/' ∷ []) (escape cs),
)

has_char-half : (t : Text) → has_char b'~' (replace_pair b'~' b'0' [] (half t)) ≡ false
unfolding has_char
has_char-half [] = unfold replace_pair in refl
has_char-half (c ∷ cs) = ground (
  arith,
  has_char-half cs,
  replace_pair-hit b'~' b'0' [] (half cs),
  replace_pair-skip b'~' b'0' c [] (half cs),
)

replace-half : (t : Text) → replace_pair b'~' b'0' (b'~' ∷ []) (half t) ≡ t
replace-half [] = unfold replace_pair in refl
replace-half (c ∷ cs) = ground (
  arith,
  replace-half cs,
  replace_pair-hit b'~' b'0' (b'~' ∷ []) (half cs),
  replace_pair-skip b'~' b'0' c (b'~' ∷ []) (half cs),
)

token_of-half :
    (raw t : Text)
    → raw ≢ []
    → replace_pair b'~' b'1' (b'/' ∷ []) raw ≡ half t
    → token_of raw ≡ fine t
unfolding token_of
token_of-half [] t ne e = absurd (ne refl)
token_of-half (c ∷ cs) t ne e = rw e (rw (has_char-half t) (ap fine (replace-half t)))

escape-ne-nil : (t : Text) → t ≢ [] → escape t ≢ []
escape-ne-nil [] ne = ne
escape-ne-nil (c ∷ cs) ne = ground arith

has_slash-escape : (t : Text) → has_char b'/' (escape t) ≡ false
unfolding has_char
has_slash-escape [] = refl
has_slash-escape (c ∷ cs) = ground (arith, has_slash-escape cs)

split-last : (e : Text) → has_char b'/' e ≡ false → split b'/' e ≡ e ∷ []
unfolding split has_char
split-last [] h = refl
split-last (c ∷ cs) h = ground (arith, split-last cs)

split-sep :
    (e rest : Text) → has_char b'/' e ≡ false → split b'/' (e ++ b'/' ∷ rest) ≡ e ∷ split b'/' rest
unfolding split has_char
split-sep [] rest h = refl
split-sep (c ∷ cs) rest h = ground (arith, split-sep cs rest)

split-pointer :
    (t : Text) (ts : List Text)
    → All (λ u. u ≢ []) (t ∷ ts)
    → tokens_of (split b'/' (escape t ++ pointer ts)) ≡ fine (t ∷ ts)
unfolding tokens_of
split-pointer t [] ne = rw append-nil (
    rw (split-last (escape t) (has_slash-escape t))
      (rw (token_of-half (escape t) t (escape-ne-nil t ne.0) (replace-escape t))))
split-pointer t (u ∷ us) ne =
    rw (split-sep (escape t) (escape u ++ pointer us) (has_slash-escape t)) (
      rw (token_of-half (escape t) t (escape-ne-nil t ne.0) (replace-escape t))
        (rw (split-pointer u us ne.1)))

-- Tokens of which none is empty, written as an RFC 6901 pointer, read back as themselves; there
-- has to be at least one.
pub parse_pointer-pointer :
    (t : Text) (ts : List Text)
    → All (λ u. u ≢ []) (t ∷ ts)
    → parse_pointer (pointer (t ∷ ts)) ≡ fine (t ∷ ts)
unfolding parse_pointer
parse_pointer-pointer t ts ne = split-pointer t ts ne

-- The text that a raw token stands for, by what `token_of` does once it is accepted.
abbrev first_pass : Text → Text
first_pass = replace_pair b'~' b'1' (b'/' ∷ [])

first_pass-head :
    (d : ℕ) (t : Text)
    → d ≢ b'0'
    → (x : ℕ) × (xs : Text) × (first_pass (d ∷ t) ≡ x ∷ xs) × (x ≢ b'0')
unfolding replace_pair
first_pass-head d [] ne = (d, [], refl, ne)
first_pass-head d (e ∷ t) ne = elim (Bool-cases (d == b'~' && e == b'1')) [
  | inl hit ↦ (b'/', first_pass t, ground arith, ground arith)
  | inr miss ↦ (d, first_pass (e ∷ t), ground arith, ne)
]

abbrev Accepted : Text → Type 0
Accepted u = has_char b'~' (replace_pair b'~' b'0' [] u) ≡ false

-- A tilde that is not followed by a zero is left over.
Accepted-tilde : (x : ℕ) (xs : Text) → x ≢ b'0' → Accepted (b'~' ∷ x ∷ xs) → ⊥
unfolding has_char
Accepted-tilde x xs ne h = ground (arith, replace_pair-miss b'~' b'0' x [] xs)

abbrev second_pass : Text → Text
second_pass = replace_pair b'~' b'0' (b'~' ∷ [])

abbrev removed : Text → Text
removed = replace_pair b'~' b'0' []

-- What is accepted escapes back to the raw token.
abbrev Restores : Text → Type 0
Restores raw =
    has_char b'/' raw ≡ false
    → Accepted (first_pass raw)
    → escape (second_pass (first_pass raw)) ≡ raw

Restores-plain : (c : ℕ) (t : Text) → c ≢ b'~' → Restores t → Restores (c ∷ t)
unfolding has_char
Restores-plain c t ne ih slash accepted = rw (replace_pair-skip b'~' b'1' c (b'/' ∷ []) t ne) (
    rw (replace_pair-skip b'~' b'0' c (b'~' ∷ []) (first_pass t) ne) (
      ground (
        arith,
        ih,
        replace_pair-skip b'~' b'1' c (b'/' ∷ []) t,
        replace_pair-skip b'~' b'0' c [] (first_pass t),
      )))

Restores-slash : (t : Text) → Restores t → Restores (b'~' ∷ b'1' ∷ t)
unfolding has_char
Restores-slash t ih slash accepted = rw (replace_pair-hit b'~' b'1' (b'/' ∷ []) t) (
    rw (replace_pair-skip b'~' b'0' b'/' (b'~' ∷ []) (first_pass t) (omega arith)) (
      ground (
        arith,
        ih,
        replace_pair-hit b'~' b'1' (b'/' ∷ []) t,
        replace_pair-skip b'~' b'0' b'/' [] (first_pass t),
      )))

first_pass-zero : (t : Text) → first_pass (b'~' ∷ b'0' ∷ t) ≡ b'~' ∷ b'0' ∷ first_pass t
first_pass-zero t =
    replace_pair-miss b'~' b'1' b'0' (b'/' ∷ []) t (omega arith)
    ∙ ap (◌∷◌ b'~') (replace_pair-skip b'~' b'1' b'0' (b'/' ∷ []) t (omega arith))

Restores-tilde : (t : Text) → Restores t → Restores (b'~' ∷ b'0' ∷ t)
unfolding has_char
Restores-tilde t ih slash accepted = rw (first_pass-zero t) (
    rw (replace_pair-hit b'~' b'0' (b'~' ∷ []) (first_pass t))
      (ground (arith, ih, first_pass-zero t, replace_pair-hit b'~' b'0' [] (first_pass t))))

Restores-wrong : (d : ℕ) (t : Text) → d ≢ b'0' → d ≢ b'1' → Restores (b'~' ∷ d ∷ t)
Restores-wrong d t zero one slash accepted =
    let (x, xs, e, ne) = first_pass-head d t zero in
    let miss = replace_pair-miss b'~' b'1' d (b'/' ∷ []) t one ∙ ap (◌∷◌ b'~') e in
    absurd (Accepted-tilde x xs ne (rw miss at accepted))

Restores-alone : Restores (b'~' ∷ [])
unfolding has_char replace_pair
Restores-alone slash accepted = cc

Restores-all : (raw : Text) → Restores raw
Restores-all [] = λ slash accepted. unfold replace_pair in refl
Restores-all (c ∷ []) = elim (ℕ_discrete c b'~') [
  | no ne ↦ Restores-plain c [] ne (Restores-all [])
  | yes e ↦ rw e Restores-alone
]
Restores-all (c ∷ d ∷ t) = elim (ℕ_discrete c b'~') [
  | no ne ↦ Restores-plain c (d ∷ t) ne (Restores-all (d ∷ t))
  | yes e ↦ rw e (elim (ℕ_discrete d b'0') [
    | yes z ↦ rw z (Restores-tilde t (Restores-all t))
    | no z ↦ elim (ℕ_discrete d b'1') [
      | yes o ↦ rw o (Restores-slash t (Restores-all t))
      | no o ↦ Restores-wrong d t z o
    ]
  ])
]

token_of-escape :
    (raw t : Text) → has_char b'/' raw ≡ false → token_of raw ≡ fine t → escape t ≡ raw
unfolding token_of
token_of-escape [] t slash h = cc
token_of-escape (c ∷ cs) t slash h =
    elim (Bool-cases (has_char b'~' (removed (first_pass (c ∷ cs))))) [
      | inl refused ↦ absurd (cc (rw refused at h))
      | inr accepted ↦
          let e : second_pass (first_pass (c ∷ cs)) ≡ t = cc (rw accepted at h) in
          rw (← e) (Restores-all (c ∷ cs) slash accepted)
    ]

-- The pieces of a split, each behind its separator.
abbrev unsplit : List Text → Text
unsplit [] = []
unsplit (raw ∷ raws) = b'/' ∷ (raw ++ unsplit raws)

unsplit-push_head :
    (c : ℕ) (ts : List Text) (cs : Text)
    → unsplit ts ≡ b'/' ∷ cs
    → unsplit (push_head c ts) ≡ b'/' ∷ c ∷ cs
unsplit-push_head c [] cs e = cc
unsplit-push_head c (t ∷ ts) cs e = cc

unsplit-split : (cs : Text) → unsplit (split b'/' cs) ≡ b'/' ∷ cs
unfolding split
unsplit-split [] = refl
unsplit-split (c ∷ cs) = elim (Bool-cases (c == b'/')) [
  | inl e ↦ rw e (ground (arith, unsplit-split cs))
  | inr e ↦ rw e (unsplit-push_head c (split b'/' cs) cs (unsplit-split cs))
]

push_head-no_slash :
    (c : ℕ) (ts : List Text)
    → c ≢ b'/'
    → All (λ r. has_char b'/' r ≡ false) ts
    → All (λ r. has_char b'/' r ≡ false) (push_head c ts)
unfolding has_char
push_head-no_slash c [] ne h = (ground arith, tt)
push_head-no_slash c (t ∷ ts) ne h = (ground arith, h.1)

has_char-nil : has_char b'/' [] ≡ false
unfolding has_char
has_char-nil = refl

split-no_slash : (cs : Text) → All (λ r. has_char b'/' r ≡ false) (split b'/' cs)
unfolding split
split-no_slash [] = (has_char-nil, tt)
split-no_slash (c ∷ cs) = elim (Bool-cases (c == b'/')) [
  | inl e ↦ rw e (has_char-nil, split-no_slash cs)
  | inr e ↦ rw e (push_head-no_slash c (split b'/' cs) (ground arith) (split-no_slash cs))
]

tokens_of-pointer :
    (raws ts : List Text)
    → All (λ r. has_char b'/' r ≡ false) raws
    → tokens_of raws ≡ fine ts
    → pointer ts ≡ unsplit raws
unfolding tokens_of
tokens_of-pointer [] ts slash h = (let same : ts ≡ [] = cc in rw same)
tokens_of-pointer (raw ∷ raws) ts slash h =
    let (token, e, h') = >>=-eq-fine (token_of raw) _ h in
    let (rest, e', h'') = >>=-eq-fine (tokens_of raws) _ h' in
    let same : ts ≡ token ∷ rest = cc in
    rw same (
      ap (◌∷◌ b'/')
        (ap₂ ◌++◌ (token_of-escape raw token slash.0 e) (tokens_of-pointer raws rest slash.1 e')))

-- A text that reads as some tokens is the RFC 6901 pointer of those tokens.
pub pointer-parse_pointer : (p : Text) (ts : List Text) → parse_pointer p ≡ fine ts → pointer ts ≡ p
unfolding parse_pointer
pointer-parse_pointer [] ts h = cc
pointer-parse_pointer (c ∷ cs) ts h = elim (Bool-cases (c == b'/')) [
  | inl e ↦
      tokens_of-pointer (split b'/' cs) ts (split-no_slash cs) (rw e at h)
      ∙ unsplit-split cs
      ∙ ground arith
  | inr e ↦ absurd (cc (rw e at h))
]
