-- ===== src/Reads/Pointer.antt =====
-- JSON pointers with a wildcard: `parse_pointer` (src/nare/reads.py), and the string methods it
-- uses.
use nare.Prelude.{ℕ, ◌&&◌, List, [], ◌∷◌, ◌++◌, Text, has_char, ◌==◌, if◌then◌else◌, ◌≡◌, refl}

pub data PointerError : Type 0 where
  no_slash empty_token unknown_escape unread_index : PointerError

-- What raises a ValueError: a pointer that is not well formed, or an index that `int` does not read.
pub data Checked (A : Type 0) : Type 0 where
  bad : PointerError → Checked A
  fine : A → Checked A

infixl 5 ◌>>=◌
abbrev pub ◌>>=◌ : {A B : Type 0} → Checked A → (A → Checked B) → Checked B
bad why >>= next = bad why
fine a >>= next = next a

-- What a bind that goes well was made of.
pub >>=-eq-fine :
    {A B : Type 0} (first : Checked A) (next : A → Checked B) {b : B}
    → (first >>= next) ≡ fine b
    → (a : A) × (first ≡ fine a) × (next a ≡ fine b)
>>=-eq-fine (bad why) next e = absurd (cc e)
>>=-eq-fine (fine a) next e = (a, refl, e)

-- `text.split("/")`, of one character: never empty.
abbrev pub push_head : ℕ → List Text → List Text
push_head c [] = (c ∷ []) ∷ []
push_head c (t ∷ ts) = (c ∷ t) ∷ ts

unfoldable pub split : ℕ → Text → List Text
split sep [] = [] ∷ []
split sep (c ∷ cs) = if c == sep then [] ∷ split sep cs else push_head c (split sep cs)

-- `text.replace(ab, new)` for a pattern of two characters: left to right, not overlapping.
unfoldable pub replace_pair : ℕ → ℕ → Text → Text → Text
replace_pair a b new [] = []
replace_pair a b new (x ∷ []) = x ∷ []
replace_pair a b new (x ∷ y ∷ t) =
    let replaced = new ++ replace_pair a b new t in
    let kept = x ∷ replace_pair a b new (y ∷ t) in if x == a && y == b then replaced else kept

-- One raw token: `~1` is `/`, `~0` is `~`, and any other `~` is refused.
unfoldable pub token_of : Text → Checked Text
token_of [] = bad empty_token
token_of (c ∷ cs) =
    let token = replace_pair b'~' b'1' (b'/' ∷ []) (c ∷ cs) in
    if has_char b'~' (replace_pair b'~' b'0' [] token)
    then bad unknown_escape
    else fine (replace_pair b'~' b'0' (b'~' ∷ []) token)

unfoldable pub tokens_of : List Text → Checked (List Text)
unfolding token_of
tokens_of [] = fine []
tokens_of (raw ∷ raws) = do token ← token_of raw; rest ← tokens_of raws; fine (token ∷ rest)

unfoldable pub parse_pointer : Text → Checked (List Text)
parse_pointer [] = bad no_slash
parse_pointer (c ∷ cs) = if c == b'/' then tokens_of (split b'/' cs) else bad no_slash
