-- ===== src/Step/Counts.antt =====
-- How many turns a turn counts.
use nare.Prelude.{
  ℕ, ◌+◌, ◌*◌, ◌≡◌, refl, ap, ◌∙◌, ◌⊎◌, inl, inr, Bool, List, [], ◌∷◌, Option, some, leb, codes,
  arith, Bool-cases,
}
use nare.Session.Types.{Session, error}
use nare.Loop.Hold.{add_event}
use nare.Compact.Elide.{compact, estimate}
use nare.Retry.Loop.{Outcome, returned, reraised}
use nare.Retry.Bounds.{with_retries_total}
use nare.Reads.Pointer.{Checked, fine, bad}
use nare.Step.Reply.{ToolCall, Reply, ToolCallLimit, CutoffLimit}
use nare.Step.Calls.{TurnEnd, with_calls}
use nare.Step.Answer.{fail, without_calls}
use nare.Compact.Keeps.{skeleton, skeleton-compact}
use nare.Step.Frames.{frame, session_of}
use nare.Step.Answers.{with_calls-frame}
use nare.Step.Speaks.{SpokenIfFine, without_calls-Spoken}
use nare.Step.Keeps.{
  report_compaction-frame, report_mode-frame, report_retries-frame, count_cutoff-frame,
  kept_turn-frame,
}
use nare.Step.Turn.{
  Request, Turn, compacted, report_mode, report_retries, count_cutoff, book, keep_reply, kept_turn,
  ended_with, handled, replied, after_outcome, requested, mode_of, sent_tools, step,
}

-- The run is over: it failed for its context, or an exception ends it.
abbrev pub IsOver : TurnEnd → Type 0
IsOver (TurnEnd.returned t limit) = (t.status ≡ error) × (t.stop_reason ≡ some (codes "context"))
IsOver (TurnEnd.raised t limit why) = Unit
IsOver (TurnEnd.stopped t limit) = ⊥

keep_reply-turns :
    (reply : Reply) (corrected : Bool) (s : Session)
    → (keep_reply reply corrected s).turns ≡ s.turns
unfolding keep_reply
keep_reply-turns reply corrected s = ground arith

ended_with-turns :
    (turn : Turn) (limit : Option ToolCallLimit) (kept : Session) (out : Checked Session)
    → SpokenIfFine turn.asked.summary kept out
    → (session_of (ended_with turn.format limit kept out)).turns ≡ kept.turns
ended_with-turns turn limit kept (fine t) (inl (said, f)) = ap (λ g. g.1) f
ended_with-turns turn limit kept (fine t) (inr (f, _)) = ap (λ g. g.1) f
ended_with-turns turn limit kept (bad why) spoken = refl

handled-turns :
    (turn : Turn) (limit : Option ToolCallLimit) (reply : Reply) (corrected : Bool) (kept : Session)
    → (session_of (handled turn limit reply corrected kept)).turns ≡ kept.turns
unfolding handled
handled-turns turn limit reply corrected kept = by_calls reply.tool_calls
  where
    by_calls :
        (calls : List ToolCall)
        → let out : TurnEnd = elim calls [
          | [] ↦ ended_with turn.format limit kept (without_calls turn.asked reply corrected kept)
          | call ∷ calls ↦
              with_calls turn.shown turn.tools turn.asked.summary reply.stop_reason corrected
                (call ∷ calls)
                limit
                kept
        ] in
          (session_of out).turns ≡ kept.turns
    by_calls [] =
        ended_with-turns turn limit kept _ (without_calls-Spoken turn.asked reply corrected kept)
    by_calls (c ∷ cs) =
        let (answered, notes, _, f) =
          with_calls-frame turn.shown turn.tools turn.asked.summary reply.stop_reason corrected
            (c ∷ cs) limit kept in
        ap (λ g. g.1) f

replied-turns :
    (turn : Turn) (limit : Option ToolCallLimit) (cutoffs : Option CutoffLimit) (reply : Reply)
    (s : Session)
    → (session_of (replied turn limit cutoffs reply s).0).turns ≡ s.turns + 1
unfolding replied book
replied-turns turn limit cutoffs reply s =
    let booked = book turn reply s in
    let counted = count_cutoff reply cutoffs booked in
    handled-turns turn limit reply counted.0 (kept_turn turn reply counted.0 counted.2)
    ∙ ap (λ f. f.1) (kept_turn-frame turn reply counted.0 counted.2)
    ∙ keep_reply-turns reply counted.0 counted.2
    ∙ ap (λ f. f.1) (count_cutoff-frame reply cutoffs booked)

-- One turn is counted; or none, nothing was added to the transcript, and the run is over.
abbrev pub CountsOne : Session → TurnEnd → Type 0
CountsOne s out =
    ((session_of out).turns ≡ s.turns + 1)
    ⊎ (((session_of out).turns ≡ s.turns)
        × (skeleton (session_of out).messages ≡ skeleton s.messages)
        × IsOver out)

-- The same of the number of turns alone.
abbrev pub CountsFrom : ℕ → TurnEnd → Type 0
CountsFrom n out = ((session_of out).turns ≡ n + 1) ⊎ (((session_of out).turns ≡ n) × IsOver out)

pub CountsOne-CountsFrom :
    (n : ℕ) (s : Session) (out : TurnEnd) → s.turns ≡ n → CountsOne s out → CountsFrom n out
CountsOne-CountsFrom n s out e (inl counts) = inl (rw (← e) counts)
CountsOne-CountsFrom n s out e (inr (same, _, over)) = inr (same ∙ e, over)

CountsOne-from :
    (s t : Session) (out : TurnEnd)
    → s.turns ≡ t.turns
    → skeleton s.messages ≡ skeleton t.messages
    → CountsOne s out
    → CountsOne t out
CountsOne-from s t out e k (inl counts) = inl (counts ∙ ap (λ n. n + 1) e)
CountsOne-from s t out e k (inr (same, kept, over)) = inr (same ∙ e, kept ∙ k, over)

requested-CountsOne :
    (turn : Turn) (limit : Option ToolCallLimit) (cutoffs : Option CutoffLimit) (s : Session)
    → (out : TurnEnd) × (counted : Option CutoffLimit) × (requested turn limit cutoffs s
        ≡ some (out, counted))
      × CountsOne s out
unfolding requested
requested-CountsOne turn limit cutoffs s =
    let mode = mode_of turn s in
    let t = report_mode turn mode s in
    let request : Request = record {
      messages = t.messages;
      tools = sent_tools mode turn.tools.offered;
      mode = mode;
    } in
    let (o, p, eq, _, _, _) =
      with_retries_total turn.own_rule turn.retry (turn.attempts request) t.retries in
    let told = report_retries turn p.events (record t { retries = p.session_retries }) in
    let same : frame told ≡ frame s =
      (report_retries-frame turn p.events (record t { retries = p.session_retries })
        ∙ report_mode-frame turn mode s) in
    (
      (after_outcome turn limit cutoffs told o).0,
      (after_outcome turn limit cutoffs told o).1,
      rw eq refl,
      by_outcome o told same,
    )
  where
    by_outcome :
        (o : Outcome Reply) (told : Session)
        → frame told ≡ frame s
        → CountsOne s (after_outcome turn limit cutoffs told o).0
    by_outcome (returned reply) told same =
        inl (replied-turns turn limit cutoffs reply told ∙ ap (λ f. f.1 + 1) same)
    by_outcome (reraised e) told same = inr (ap (λ f. f.1) same, ap (λ f. skeleton f.0) same, tt)

compacted-skeleton :
    (turn : Turn) (s : Session) → skeleton (compacted turn s).messages ≡ skeleton s.messages
unfolding compacted
compacted-skeleton turn s =
    let (after, report) = compact turn.size turn.shown s.last_input turn.window s.messages in
    ap (λ f. skeleton f.0) (report_compaction-frame turn report (record s { messages = after }))
    ∙ skeleton-compact turn.size turn.shown s.last_input turn.window s.messages

compacted-turns : (turn : Turn) (s : Session) → (compacted turn s).turns ≡ s.turns
unfolding compacted
compacted-turns turn s =
    let (after, report) = compact turn.size turn.shown s.last_input turn.window s.messages in
    ap (λ f. f.1) (report_compaction-frame turn report (record s { messages = after }))

-- A turn comes to an end for every transport, its retries included, and then it has counted exactly one
-- turn, unless it counted none: no message was then added, the transcript being the one before up to
-- what compaction may elide, and either the run failed with the stop reason `context`, or the turn
-- raised.
pub step-CountsOne :
    (turn : Turn) (limit : Option ToolCallLimit) (cutoffs : Option CutoffLimit) (s : Session)
    → (out : TurnEnd) × (counted : Option CutoffLimit) × (step turn limit cutoffs s
        ≡ some (out, counted))
      × CountsOne s out
unfolding step fail add_event
step-CountsOne turn limit cutoffs s =
    let small = compacted turn s in
    let same = compacted-turns turn s in
    elim (Bool-cases (leb (turn.window * 4) (estimate turn.size small.last_input small.messages))) [
      | inl e ↦ rw (e, step) (_, _, refl, inr (same, compacted-skeleton turn s, (refl, refl)))
      | inr e ↦
          let (out, counted, eq, counts) = requested-CountsOne turn limit cutoffs small in
          rw (e, step)
            (out, counted, eq, CountsOne-from small s out same (compacted-skeleton turn s) counts)
    ]
