-- ===== src/Loop/Hold.antt =====
-- A final answer that was given too early: `_hold_for_reads` (src/nare/loop.py).
use nare.Prelude.{
  ℕ, Bool, true, false, List, [], ◌∷◌, ◌++◌, Option, none, some, Text, codes, join, decimal,
}
use nare.Json.Value.{Value}
use nare.Session.Types.{Session, error}
use nare.Session.Reopen.{append_user_text}
use nare.Corrections.Charge.{Correction, charge}
use nare.Reads.Pointer.{Checked, fine, ◌>>=◌}
use nare.Reads.Cited.{Digits}
use nare.Reads.Required.{ReadRequirement, unmet, cited_unmet}

abbrev pub reads_kind : Text
reads_kind = codes "reads"

abbrev pub progress : Text
progress = codes "progress"

abbrev pub error_kind : Text
error_kind = codes "error"

abbrev pub reads_required : Text
reads_required = codes "reads_required"

abbrev pub joined : List Text → Text
joined gaps = join (codes "; ") gaps

unfoldable pub add_event : Text → Text → Session → Session
add_event kind said s = record s { events = s.events ++ record { kind = kind; text = said } ∷ [] }

-- The run ends: the budget is spent.
unfoldable pub end_unread : List Text → Session → Session
unfolding add_event
end_unread gaps s =
    let said = codes "final answer before the required reads: " ++ joined gaps in
    add_event error_kind said
      (record s { status = error; stop_reason = some reads_required; error = some said })

-- The run goes on: the model is told what is missing.
unfoldable pub ask_reads : List Text → Correction → Session → Session
unfolding add_event append_user_text
ask_reads gaps c s =
    add_event progress
      (codes "read correction " ++ (decimal c.number ++ (codes " (charged): " ++ joined gaps)))
      (append_user_text s (
        codes "Your final answer came before the reads it must rest on. Before you answer, "
        ++ (joined gaps ++ codes ".")))

-- Whether the answer is held, and the session after: what a charge for the gaps leads to.
unfoldable pub after_charge : List Text → Option Correction × Session → Bool × Session
unfolding end_unread ask_reads
after_charge gaps (none, s) = (true, end_unread gaps s)
after_charge gaps (some c, s) = (true, ask_reads gaps c s)

-- An earlier schema correction no longer constrains the next turn.
unfoldable pub hold_gaps : Session → ℕ → List Text → Bool × Session
unfolding after_charge
hold_gaps s limit [] = (false, s)
hold_gaps s limit (g ∷ gs) =
    after_charge (g ∷ gs)
      (charge (record s { schema_retried = false }) (g ∷ gs) limit false reads_kind)

-- The gaps of the citations, read only where a citation is required.
abbrev pub if_cited : List Text → Checked (List Text) → Checked (List Text)
if_cited [] gaps = fine []
if_cited (c ∷ cs) gaps = gaps

unfoldable pub owed_cited :
    (Text → Option Text) → Digits → Session → ReadRequirement → Value → Checked (List Text)
owed_cited shown digits s r answer = if_cited r.cited (cited_unmet shown digits s.evidence r answer)

-- A malformed pointer, or an index that `int` does not read, raises, as `bad`.
unfoldable pub hold_for_reads :
    (Text → Option Text) → Digits → Session → ReadRequirement → ℕ → Value → Checked (Bool × Session)
unfolding hold_gaps owed_cited
hold_for_reads shown digits s r limit answer = owed_cited shown digits s r answer >>= λ cited.
    fine (hold_gaps s limit (unmet s.evidence r ++ cited))
