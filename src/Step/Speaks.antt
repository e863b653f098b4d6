-- ===== src/Step/Speaks.antt =====
-- What a reply without calls leads to: the user's turn is spoken to, or the run ends.
use nare.Prelude.{
  ℕ, ◌≡◌, refl, ap, ◌≢◌, ◌⊎◌, inl, inr, Bool, true, false, not, ◌&&◌, ◌||◌, List, [], ◌∷◌, ◌++◌,
  map, Option, none, some, Text, codes, any, join, leb, length, Bool-cases, if◌then◌else◌,
}
use nare.Json.Value.{Value, null}
use nare.Session.Types.{Session, text, working, done, error}
use nare.Session.Reopen.{append_block, append_user_text}
use nare.Corrections.Charge.{
  Correction, codes_of, used, is_free, recorded, granted, charge, schema_kind,
}
use nare.Reads.Pointer.{Checked, fine, bad, ◌>>=◌}
use nare.Reads.Required.{unmet, read_record}
use nare.Loop.Owed.{after_charge-held}
use nare.Corrections.Message.{Complaint, correction_text}
use nare.Loop.Hold.{
  add_event, end_unread, ask_reads, after_charge, hold_gaps, hold_for_reads, owed_cited, reads_kind,
  joined,
}
use nare.Loop.Nudge.{texts_of, nudged, nudge_question, wrote_a_file}
use nare.Step.Reply.{Reply, unfinished_text, guidance}
use nare.Step.Frames.{frame}
use nare.Step.Answer.{
  Schema, Judged, accepted, faulty, check_failed, judge, Asked, fail, finish, finish_unless,
  unless_nudged, answer_text, corrected_by, answer_schema, is_blank, is_thought, without_calls,
  violation, no_answer, no_answer_text,
}

-- Either a text is added to the user's turn, or the transcript stays and, but for the summary of a run
-- out of turns, the run is over.
abbrev pub Spoken : Bool → Session → Session → Type 0
Spoken summary s t =
    ((said : Text) × (frame t ≡ (append_block (text said) s.messages, s.turns)))
    ⊎ ((frame t ≡ frame s) × ((t.status ≢ working) ⊎ (summary ≡ true)))

error-not-working : error ≢ working
error-not-working e = cc e

done-not-working : done ≢ working
done-not-working e = cc e

recorded-frame :
    (comparable : Bool) (codes : List Text) (s : Session)
    → frame (recorded comparable codes s) ≡ frame s
unfolding recorded
recorded-frame true codes s = refl
recorded-frame false codes s = refl

charge-frame :
    (s : Session) (errors : List Text) (limit : ℕ) (comparable : Bool) (kind : Text)
    → frame (charge s errors limit comparable kind).1 ≡ frame s
unfolding charge granted
charge-frame s errors limit comparable kind =
    elim (Bool-cases (
      not (is_free comparable limit (length (codes_of errors)) s.schema_fewest_errors)
      && leb limit (used s))) [
        | inl e ↦ rw e refl
        | inr e ↦ rw e (recorded-frame comparable (codes_of errors) s)
      ]

fail-Spoken :
    (summary : Bool) (why : Text) (s t : Session)
    → frame t ≡ frame s
    → Spoken summary s (fail why t)
unfolding fail add_event
fail-Spoken summary why s t e = inr (e, inl error-not-working)

finish-Spoken :
    (summary : Bool) (said : Text) (s t : Session)
    → frame t ≡ frame s
    → Spoken summary s (finish said t)
unfolding finish add_event
finish-Spoken summary said s t e = inr (e, inl done-not-working)

after_charge-Spoken :
    (summary : Bool) (gaps : List Text) (s : Session) (p : Option Correction × Session)
    → frame p.1 ≡ frame s
    → Spoken summary s (after_charge gaps p).1
unfolding after_charge end_unread ask_reads add_event append_user_text
after_charge-Spoken summary gaps s (none, t) e = inr (e, inl error-not-working)
after_charge-Spoken summary gaps s (some c, t) e = inl (
  _,
  ap
      (λ f. (
        append_block
            (text (
              codes "Your final answer came before the reads it must rest on. Before you answer, "
              ++ (joined gaps ++ codes ".")))
            f.0,
        f.1,
      ))
      e,
)

-- Either nothing is held and the session is as it was, or the reply is held and the session spoke.
abbrev Settles : Bool → Session → Bool × Session → Type 0
Settles summary s p = ◌≡◌ {A = Bool × Session} p (false, s) ⊎ ((p.0 ≡ true) × Spoken summary s p.1)

hold_gaps-Settles :
    (summary : Bool) (s : Session) (limit : ℕ) (gaps : List Text)
    → Settles summary s (hold_gaps s limit gaps)
unfolding hold_gaps
hold_gaps-Settles summary s limit [] = inl refl
hold_gaps-Settles summary s limit (g ∷ gs) =
    let first : Session = record s { schema_retried = false } in
    let charged = charge first (g ∷ gs) limit false reads_kind in
    inr (
      after_charge-held (g ∷ gs) charged,
      after_charge-Spoken summary (g ∷ gs) s charged
          (charge-frame first (g ∷ gs) limit false reads_kind),
    )

nudge_question-Settles :
    (summary : Bool) (nudge : Text) (s : Session) (asks enabled only_summary offered : Bool)
    → Settles summary s (nudge_question nudge s asks enabled only_summary offered)
unfolding nudge_question nudged add_event append_user_text
nudge_question-Settles summary nudge s asks enabled only_summary offered =
    elim (Bool-cases (not enabled || (only_summary || (s.ask_nudged || not offered)))) [
      | inl e ↦ rw e (inl refl)
      | inr e ↦ elim (Bool-cases (wrote_a_file s || not asks)) [
        | inl f ↦ rw (e, f) (inl refl)
        | inr f ↦ rw (e, f) (inr (refl, inl (nudge, refl)))
      ]
    ]

finish_unless-Spoken :
    (summary : Bool) (s : Session) (done_with : Session → Session) (p : Bool × Session)
    → Settles summary s p
    → Spoken summary s (done_with s)
    → Spoken summary s (finish_unless done_with p)
finish_unless-Spoken summary s done_with (true, t) (inl e) h = absurd (cc (ap (λ p. p.0) e))
finish_unless-Spoken summary s done_with (true, t) (inr (e, k)) h = k
finish_unless-Spoken summary s done_with (false, t) (inl e) h = rw (ap (λ p. p.1) e) h
finish_unless-Spoken summary s done_with (false, t) (inr (e, k)) h = absurd (cc e)

-- What may raise: the session that comes of it, if one does, spoke.
abbrev pub SpokenIfFine : Bool → Session → Checked Session → Type 0
SpokenIfFine summary s (fine t) = Spoken summary s t
SpokenIfFine summary s (bad why) = Unit

held-SpokenIfFine :
    (summary : Bool) (asked : Asked) (s : Session) (answer : Value) (done_with : Session → Session)
    → Spoken summary s (done_with s)
    → SpokenIfFine summary s (
        hold_for_reads asked.shown asked.digits s asked.reads asked.max_corrections answer
        >>= λ held. fine (finish_unless done_with held))
unfolding hold_for_reads
held-SpokenIfFine summary asked s answer done_with h =
    by_owed (owed_cited asked.shown asked.digits s asked.reads answer)
  where
    by_owed :
        (owed : Checked (List Text))
        → SpokenIfFine summary s (
            (owed >>= λ cited.
            fine (hold_gaps s asked.max_corrections (unmet s.evidence asked.reads ++ cited)))
            >>= λ held. fine (finish_unless done_with held))
    by_owed (bad why) = tt
    by_owed (fine cited) =
        finish_unless-Spoken summary s done_with _
          (hold_gaps-Settles summary s asked.max_corrections
            (unmet s.evidence asked.reads ++ cited))
          h

answer_text-Spoken :
    (asked : Asked) (said : Text) (s : Session)
    → SpokenIfFine asked.summary s (answer_text asked said s)
unfolding answer_text
answer_text-Spoken asked said s = by_nudge _ (
    nudge_question-Settles asked.summary asked.nudge s (asked.asks said) asked.question_nudge
      asked.summary asked.has_ask)
  where
    by_nudge :
        (p : Bool × Session)
        → Settles asked.summary s p
        → SpokenIfFine asked.summary s (unless_nudged asked said p)
    by_nudge (true, t) (inl e) = absurd (cc (ap (λ p. p.0) e))
    by_nudge (true, t) (inr (e, h)) = h
    by_nudge (false, t) (inr (e, h)) = absurd (cc e)
    by_nudge (false, t) (inl e) = rw (ap (λ p. p.1) e) (
        held-SpokenIfFine asked.summary asked s null (finish said)
          (finish-Spoken asked.summary said s s refl))

corrected_by-Spoken :
    (summary : Bool) (schema : Schema) (errors : List Complaint) (s : Session)
    (p : Option Correction × Session)
    → frame p.1 ≡ frame s
    → Spoken summary s (corrected_by schema errors p)
unfolding corrected_by add_event append_user_text
corrected_by-Spoken summary schema errors s (none, t) e =
    fail-Spoken summary
      (codes "answer does not satisfy the schema: " ++ joined (map (λ e. e.message) errors)) s
      (record t { stop_reason = some violation }) e
corrected_by-Spoken summary schema errors s (some c, t) e =
    inl (_, ap (λ f. (append_block (text (correction_text c errors schema.restated)) f.0, f.1)) e)

answer_schema-Spoken :
    (asked : Asked) (schema : Schema) (said : Text) (s : Session)
    → SpokenIfFine asked.summary s (answer_schema asked schema said s)
unfolding answer_schema
answer_schema-Spoken asked schema said s = elim (Bool-cases asked.summary) [
  | inl e ↦ rw e (inr (refl, inr refl))
  | inr e ↦ rw e (judged (judge schema (read_record s.evidence) said))
]
  where
    judged :
        (j : Judged)
        → let after : Checked Session = elim j [
          | check_failed why ↦ fine (fail why (record s { stop_reason = none }))
          | accepted v ↦
              hold_for_reads asked.shown asked.digits s asked.reads asked.max_corrections v
              >>= λ held.
                  fine (finish_unless (λ k. finish said (record k { output = some v })) held)
          | faulty errors parses ↦ fine (
              corrected_by schema errors
                (charge s (map (λ e. e.message) errors) asked.max_corrections parses schema_kind))
        ] in
          SpokenIfFine false s after
    judged (check_failed why) = fail-Spoken false why s (record s { stop_reason = none }) refl
    judged (accepted v) =
        held-SpokenIfFine false asked s v (λ k. finish said (record k { output = some v }))
          (finish-Spoken false said s (record s { output = some v }) refl)
    judged (faulty errors parses) =
        corrected_by-Spoken false schema errors s _
          (charge-frame s (map (λ e. e.message) errors) asked.max_corrections parses schema_kind)

pub without_calls-Spoken :
    (asked : Asked) (reply : Reply) (corrected : Bool) (s : Session)
    → SpokenIfFine asked.summary s (without_calls asked reply corrected s)
unfolding without_calls append_user_text
without_calls-Spoken asked reply corrected s =
    by_text (unfinished_text reply.stop_reason) corrected
      (is_blank said && any is_thought reply.content) asked.schema
  where
    said : Text
    said = join (codes "\n") (texts_of reply.content)

    by_text :
        (why : Option Text) (corrected silent : Bool) (schema : Option Schema)
        → let after : Checked Session = elim why [
          | some why ↦
              if corrected
              then fine (append_user_text s (guidance reply.stop_reason))
              else fine (fail why s)
          | none ↦
              if silent
              then fine (fail no_answer_text (record s { stop_reason = some no_answer }))
              else elim schema [
                | none ↦ answer_text asked said s
                | some schema ↦ answer_schema asked schema said s
              ]
        ] in
          SpokenIfFine asked.summary s after
    by_text (some why) true silent schema = inl (guidance reply.stop_reason, refl)
    by_text (some why) false silent schema = fail-Spoken asked.summary why s s refl
    by_text none corrected true schema =
        fail-Spoken asked.summary no_answer_text s (record s { stop_reason = some no_answer }) refl
    by_text none corrected false none = answer_text-Spoken asked said s
    by_text none corrected false (some schema) = answer_schema-Spoken asked schema said s
