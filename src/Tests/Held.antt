-- ===== src/Tests/Held.antt =====
-- An answer given before its reads, held and then let through (src/nare/loop.py).
use nare.Prelude.{
  ◌+◌, ◌≡◌, ◌≤◌, ◌<◌, ◌↔◌, ◌⊎◌, refl, Bool, true, false, List, [], ◌∷◌, length, some, Text, codes,
  has, has_char, same, add_new, All,
}
use nare.Session.Types.{Session, error}
use nare.Json.Dict.{keys, insert}
use nare.Corrections.Charge.{charge, is_free, used}
use nare.Reads.Pointer.{fine, parse_pointer, tokens_of, split, replace_pair}
use nare.Reads.Cited.{cited_values, walk}
use nare.Reads.Holds.{Cites}
use nare.Reads.Required.{cited_unmet, unmet, read_paths}
use nare.Reads.Met.{reads_of, Settled}
use nare.Loop.Hold.{reads_required, hold_gaps, hold_for_reads}
use nare.Loop.Owed.{hold_gaps-spends, hold_for_reads-accepts}
use nare.Tests.Resuming.{stopped_session}
use nare.Tests.Reading.{read_a, one_file, answer, ascii_digits}

abbrev reader : Session
reader = record stopped_session { evidence = read_a ∷ [] }

reader-accepted : hold_for_reads some ascii_digits reader one_file 1 answer ≡ fine (false, reader)
unfolding hold_for_reads cited_unmet cited_values parse_pointer tokens_of split has_char
    replace_pair unmet keys read_paths same insert has add_new walk
reader-accepted = refl

hold_for_reads-accepts_example :
    ((◌≡◌ {A = Bool} false false) ↔ (
      (1 ≤ length (add_new [] (reads_of (read_a ∷ []))))
      × All (λ p. has p (reads_of (read_a ∷ [])) ≡ true) (codes "a.py" ∷ [])
      × ((t : Text)
          → Cites ascii_digits answer (codes "/files/0" ∷ []) t
          → Settled some (read_a ∷ []) t)))
    × (◌≡◌ {A = Bool} false false → reader ≡ reader)
hold_for_reads-accepts_example =
    hold_for_reads-accepts some ascii_digits reader reader one_file 1 answer false reader-accepted

abbrev owed_one : List Text
owed_one = codes "read b.py" ∷ []

abbrev ended : Session
ended = (hold_gaps stopped_session 0 owed_one).1

ended-held : hold_gaps stopped_session 0 owed_one ≡ (true, ended)
unfolding hold_gaps charge is_free used
ended-held = refl

hold_gaps-spends_example :
    ((0 < 0)
      × (ended.schema_corrections ≡ 0 + 1)
      × (ended.status ≡ error)
      × (ended.schema_retried ≡ false))
    ⊎ ((0 ≤ 0)
        × (ended.schema_corrections ≡ 0)
        × (ended.status ≡ error)
        × (ended.stop_reason ≡ some reads_required)
        × (ended.messages ≡ stopped_session.messages))
hold_gaps-spends_example = hold_gaps-spends stopped_session ended 0 owed_one ended-held
