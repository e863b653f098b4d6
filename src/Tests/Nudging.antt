-- ===== src/Tests/Nudging.antt =====
-- A reply that asks in prose, before any write (src/nare/loop.py).
use nare.Prelude.{◌≡◌, refl, true, false, Text, codes, same, has}
use nare.Session.Types.{Session}
use nare.Loop.Nudge.{
  wrote_a_file, writes_of, writes_in, succeeded_of, succeeded_in, nudged, nudge_question,
}
use nare.Loop.Wrote.{CalledIn, SucceededIn, nudge_question_once}
use nare.Tests.Resuming.{stopped_session}

abbrev nudge : Text
nudge = codes "call ask"

abbrev after_nudge : Session
after_nudge = nudged nudge stopped_session

first_time : nudge_question nudge stopped_session true true false true ≡ (true, after_nudge)
unfolding nudge_question wrote_a_file writes_of writes_in succeeded_of succeeded_in same has
first_time = refl

nudge_question_once_example :
    (false ≡ false)
    × ((i : Text)
        → CalledIn i stopped_session.messages
        → SucceededIn i stopped_session.messages
        → ⊥)
    × (nudge_question nudge after_nudge true true true true ≡ (false, after_nudge))
nudge_question_once_example =
    nudge_question_once nudge stopped_session after_nudge after_nudge true true false true true true
      true true first_time refl
