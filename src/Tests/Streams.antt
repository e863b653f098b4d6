-- ===== src/Tests/Streams.antt =====
-- A stream that repeats two characters (src/nare/repetition.py).
use nare.Prelude.{
  ℕ, leb, ◌+◌, ◌*◌, ◌≡◌, ◌≤◌, ◌↔◌, arith, true, false, [], ◌∷◌, ◌++◌, length, Text, codes,
  if◌then◌else◌,
}
use nare.Repetition.Rule.{Limits, kept, periodic, degenerate, fresh, feed}
use nare.Repetition.Periodic.{RepeatsBy, periodic_iff}
use nare.Repetition.Tail.{degenerate-append}
use nare.Repetition.Watch.{unchecked, feed_all, feed_all_judges}

abbrev small : Limits
small = record { repeat_span = 4; max_period = 2; check_chars = 2 }

abbrev looped : Text
looped = codes "abababababababab"

periodic_iff_example :
    (periodic 2 looped 4 ≡ true)
    ↔ ((p : ℕ) × (1 ≤ p) × (p ≤ 2) × (4 + p ≤ length looped) × RepeatsBy looped 4 p)
periodic_iff_example = periodic_iff 2 looped 4

degenerate-append_example : degenerate small (codes "so " ++ looped) ≡ degenerate small looped
degenerate-append_example = degenerate-append small (codes "so ") looped (omega arith) (omega arith)

feed_all_judges_example :
    let w = feed_all small fresh (codes "so " ∷ codes "abab" ∷ []) in
    (length w.tail ≤ 2 * kept small)
    × ((feed small w (codes "ababa")).1 ≡ (
        if leb 2 (unchecked small 0 (codes "so " ∷ codes "abab" ∷ []) + 5)
        then degenerate small (codes "so ababababa")
        else false))
feed_all_judges_example =
    feed_all_judges small (codes "so " ∷ codes "abab" ∷ []) (codes "ababa") (omega arith)
