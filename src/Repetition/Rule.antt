-- ===== src/Repetition/Rule.antt =====
-- The rule on a text, `degenerate` and `_periodic`, and the watch on a stream, `RepetitionWatch`
-- (src/nare/repetition.py).
use nare.Prelude.{
  ℕ, zero, suc, ◌+◌, ◌-◌, ◌*◌, min, Bool, true, false, ◌&&◌, ◌||◌, List, [], ◌∷◌, ◌++◌, Text, same,
  length, take, drop, leb, ltb, if◌then◌else◌,
}

-- The numbers of the source, as parameters of what is proved: `repeat_span`, `max_period`,
-- `check_chars` and `keep` (twice the counting span, which is twice the repeat span).
pub record Limits : Type 0 where
  pub repeat_span : ℕ
  pub max_period : ℕ
  pub check_chars : ℕ

abbrev pub counting_span : Limits → ℕ
counting_span l = 2 * l.repeat_span

abbrev pub kept : Limits → ℕ
kept l = 2 * counting_span l

-- The values in force.
abbrev pub in_force : Limits
in_force = record { repeat_span = 2048; max_period = 256; check_chars = 256 }

-- `text[-n:]` for a positive `n`: the last `n` characters, or all of them.
unfoldable pub last : ℕ → Text → Text
last n text = drop (length text - n) text

abbrev pub is_digit : ℕ → Bool
is_digit c = leb 48 c && leb c 57

-- `_DIGITS.sub("0", text)`: each run of digits is one `0`. The flag is whether a run is open.
unfoldable pub fold_digits : Bool → Text → Text
fold_digits open_run [] = []
fold_digits open_run (c ∷ cs) =
    let folded = fold_digits true cs in
    let plain = c ∷ fold_digits false cs in
    if is_digit c then (if open_run then folded else 48 ∷ folded) else plain

-- `tail == text[-span - period : -period]`, where the text is long enough.
unfoldable pub repeats : Text → ℕ → ℕ → Bool
repeats text span period =
    same (last span text) (take span (drop (length text - span - period) text))

-- Whether some period from 1 to `n` repeats.
unfoldable pub any_period : Text → ℕ → ℕ → Bool
unfolding repeats last
any_period text span zero = false
any_period text span (suc n) = any_period text span n || repeats text span (suc n)

unfoldable pub periodic : ℕ → Text → ℕ → Bool
unfolding any_period
periodic max_period text span =
    if ltb (length text) (span + 1)
    then false
    else any_period text span (min max_period (length text - span))

unfoldable pub degenerate : Limits → Text → Bool
unfolding periodic fold_digits last
degenerate l text =
    periodic l.max_period text l.repeat_span
    || periodic l.max_period (fold_digits false (last (kept l) text)) (counting_span l)

pub record Watch : Type 0 where
  pub tail : Text
  pub seen : ℕ
  pub checked : ℕ

abbrev pub fresh : Watch
fresh = record { tail = []; seen = 0; checked = 0 }

-- The tail after a fragment: cut back only when it has grown to twice what the rule reads.
unfoldable pub grown : Limits → Text → Text → Text
unfolding last
grown l tail fragment =
    let longer = tail ++ fragment in
    if ltb (2 * kept l) (length longer) then last (kept l) longer else longer

unfoldable pub feed_some : Limits → Watch → Text → Watch × Bool
unfolding grown degenerate
feed_some l w fragment =
    let tail = grown l w.tail fragment in
    let seen = w.seen + length fragment in
    if ltb (seen - w.checked) l.check_chars
    then (record { tail = tail; seen = seen; checked = w.checked }, false)
    else (record { tail = tail; seen = seen; checked = seen }, degenerate l tail)

unfoldable pub feed : Limits → Watch → Text → Watch × Bool
unfolding feed_some
feed l w [] = (w, false)
feed l w (c ∷ cs) = feed_some l w (c ∷ cs)

-- A finished reply's blocks: the text of a text or thinking block, if it has one.
unfoldable pub looping : Limits → List Text → Bool
looping l [] = false
looping l (value ∷ values) = degenerate l value || looping l values
