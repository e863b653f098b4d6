-- ===== src/Step/Closed.antt =====
-- A turn leaves a transcript that a vendor accepts: every call answered, the roles alternating.
use nare.Prelude.{
  ℕ, ◌*◌, ◌≡◌, refl, sym, ap, ◌∙◌, ◌≢◌, inl, inr, Bool, false, List, [], ◌∷◌, ◌++◌, map, Option,
  some, Text, leb, Bool-cases,
}
use nare.Session.Types.{Session, Block, text, working}
use nare.Session.Pairing.{asked_ids, given_ids}
use nare.Loop.Hold.{add_event}
use nare.Compact.Elide.{estimate}
use nare.Retry.Loop.{classify_of, Attempt, Outcome, returned, reraised, Progress}
use nare.Retry.Bounds.{Ends, with_retries_total}
use nare.Step.Frames.{ids, answered_ids, session_of}
use nare.Step.Answers.{with_calls-answers}
use nare.Reads.Pointer.{Checked, fine, bad}
use nare.Step.Speaks.{SpokenIfFine, without_calls-Spoken}
use nare.Step.Reply.{Reply, ToolCall, Answered, block_of, ToolCallLimit, CutoffLimit}
use nare.Step.Calls.{TurnEnd, with_calls}
use nare.Step.Answer.{fail, without_calls}
use nare.Loop.Hold.{add_event}
use nare.Step.Turn.{
  Request, Turn, compacted, report_mode, report_retries, count_cutoff, book, kept_turn, ended_with,
  handled, replied, after_outcome, requested, mode_of, sent_tools, step,
}
use nare.Step.Ready.{IsReady, IsClosed, IsHonest, ready-IsClosed, follow-IsClosed}
use nare.Step.Keeps.{
  compacted-IsReady, report_mode-frame, report_retries-frame, count_cutoff-frame, kept_turn-frame,
}
use nare.Step.Kept.{
  Closes, Ended, Kept, keep_reply-Kept, Spoken-Closes, answered-IsReady, ready-Ended,
}

raises-nothing :
    (turn : Turn) (limit : Option ToolCallLimit) (reply : Reply) (s kept : Session)
    (out : Checked Session)
    → IsReady s.messages
    → asked_ids reply.content ≡ []
    → Kept reply s kept
    → SpokenIfFine turn.asked.summary kept out
    → Ended turn.asked.summary (ended_with turn.format limit kept out)
raises-nothing turn limit reply s kept (fine t) h silent k spoken =
    Spoken-Closes turn.asked.summary reply s kept t h silent k spoken
raises-nothing turn limit reply s kept (bad why) h silent (inl e) spoken =
    rw e (follow-IsClosed s.messages reply.content h silent)
raises-nothing turn limit reply s kept (bad why) h silent (inr (e, nil)) spoken =
    rw e (ready-IsClosed s.messages h)

given_ids-texts : (notes : List Text) → given_ids (map text notes) ≡ []
given_ids-texts [] = refl
given_ids-texts (t ∷ ts) = given_ids-texts ts

-- The results of the calls, and texts after them, answer the calls.
given_ids-blocks :
    (answered : List Answered) (notes : List Text)
    → given_ids (map block_of answered ++ map text notes) ≡ answered_ids answered
given_ids-blocks [] notes = given_ids-texts notes
given_ids-blocks (a ∷ rest) notes = ap (◌∷◌ a.id) (given_ids-blocks rest notes)

called-not-nil :
    (content : List Block) (i : Text) (rest : List Text)
    → asked_ids content ≡ i ∷ rest
    → content ≢ []
called-not-nil content i rest e nil = cc (sym (ap asked_ids nil) ∙ e)

handled-Ended :
    (turn : Turn) (limit : Option ToolCallLimit) (reply : Reply) (corrected : Bool)
    (s kept : Session)
    → IsReady s.messages
    → IsHonest reply
    → Kept reply s kept
    → Ended turn.asked.summary (handled turn limit reply corrected kept)
unfolding handled
handled-Ended turn limit reply corrected s kept h honest k = by_calls reply.tool_calls honest
  where
    by_calls :
        (calls : List ToolCall)
        → asked_ids reply.content ≡ ids calls
        → let out : TurnEnd = elim calls [
          | [] ↦ ended_with turn.format limit kept (without_calls turn.asked reply corrected kept)
          | call ∷ calls ↦
              with_calls turn.shown turn.tools turn.asked.summary reply.stop_reason corrected
                (call ∷ calls)
                limit
                kept
        ] in
          Ended turn.asked.summary out
    by_calls [] e =
        raises-nothing turn limit reply s kept _ h e k
          (without_calls-Spoken turn.asked reply corrected kept)
    by_calls (c ∷ cs) e =
        let (answered, notes, is, m) =
          with_calls-answers turn.shown turn.tools turn.asked.summary reply.stop_reason corrected
            (c ∷ cs) limit kept in
        ready-Ended turn.asked.summary _ (
          answered-IsReady reply s kept _ _ h (called-not-nil reply.content c.id (ids cs) e)
            (e ∙ sym (given_ids-blocks answered notes ∙ is)) k m)

replied-Ended :
    (turn : Turn) (limit : Option ToolCallLimit) (cutoffs : Option CutoffLimit) (reply : Reply)
    (s : Session)
    → IsReady s.messages
    → IsHonest reply
    → Ended turn.asked.summary (replied turn limit cutoffs reply s).0
unfolding replied book
replied-Ended turn limit cutoffs reply s h honest =
    let booked = book turn reply s in
    let counted = count_cutoff reply cutoffs booked in
    let same = count_cutoff-frame reply cutoffs booked in
    handled-Ended turn limit reply counted.0 counted.2 (kept_turn turn reply counted.0 counted.2)
      (rw (ap (λ f. f.0) same) h) honest
      (rw (ap (λ f. f.0) (kept_turn-frame turn reply counted.0 counted.2))
        (keep_reply-Kept reply counted.0 counted.2))

-- Every reply of the transport lists the calls of its content.
abbrev pub IsHonestTransport : Turn → Type 0
IsHonestTransport turn =
    (request : Request) (n : ℕ) (reply : Reply)
    → turn.attempts request n ≡ Attempt.reply reply
    → IsHonest reply

requested-Ended :
    (turn : Turn) (limit : Option ToolCallLimit) (cutoffs : Option CutoffLimit) (s : Session)
    → IsHonestTransport turn
    → IsReady s.messages
    → (out : TurnEnd) × (counted : Option CutoffLimit) × (requested turn limit cutoffs s
        ≡ some (out, counted))
      × Ended turn.asked.summary out
unfolding requested
requested-Ended turn limit cutoffs s honest h =
    let mode = mode_of turn s in
    let t = report_mode turn mode s in
    let request : Request = record {
      messages = t.messages;
      tools = sent_tools mode turn.tools.offered;
      mode = mode;
    } in
    let (o, p, eq, _, ends, _) =
      with_retries_total turn.own_rule turn.retry (turn.attempts request) t.retries in
    let told = report_retries turn p.events (record t { retries = p.session_retries }) in
    let ready : IsReady told.messages =
      rw
        (ap (λ f. f.0)
          (report_retries-frame turn p.events (record t { retries = p.session_retries })
            ∙ report_mode-frame turn mode s))
        h in
    (
      (after_outcome turn limit cutoffs told o).0,
      (after_outcome turn limit cutoffs told o).1,
      rw eq refl,
      by_outcome request p o ends told ready,
    )
  where
    by_outcome :
        (request : Request) (p : Progress) (o : Outcome Reply)
        → Ends (classify_of turn.own_rule) turn.retry (turn.attempts request) o p
        → (told : Session) → IsReady told.messages
        → Ended turn.asked.summary (after_outcome turn limit cutoffs told o).0
    by_outcome request p (returned reply) ends told ready =
        replied-Ended turn limit cutoffs reply told ready (honest request p.made reply ends)
    by_outcome request p (reraised e) ends told ready = ready-IsClosed told.messages ready

pub step-Ended :
    (turn : Turn) (limit : Option ToolCallLimit) (cutoffs : Option CutoffLimit) (s : Session)
    → IsHonestTransport turn
    → IsReady s.messages
    → (out : TurnEnd) × (counted : Option CutoffLimit) × (step turn limit cutoffs s
        ≡ some (out, counted))
      × Ended turn.asked.summary out
unfolding step fail add_event
step-Ended turn limit cutoffs s honest h =
    let small = compacted turn s in
    let ready = compacted-IsReady turn s h in
    elim (Bool-cases (leb (turn.window * 4) (estimate turn.size small.last_input small.messages))) [
      | inl e ↦ rw (e, step) (_, _, refl, (ready-IsClosed small.messages ready, λ _ _. ready))
      | inr e ↦ rw (e, step) (requested-Ended turn limit cutoffs small honest ready)
    ]

pub Ended-IsClosed :
    (summary : Bool) (out : TurnEnd) → Ended summary out → IsClosed (session_of out).messages
Ended-IsClosed summary (TurnEnd.returned t limit) h = h.0
Ended-IsClosed summary (TurnEnd.raised t limit why) h = h
Ended-IsClosed summary (TurnEnd.stopped t limit) h = h

-- Given a transcript whose roles alternate, which the user ends, and in which each assistant message is
-- followed by a result for each of its calls in their order, and given that each reply of the transport
-- lists the calls that its content holds, a turn comes to an end, and whatever the tools and the answer's
-- check do, and also where the turn raises or is interrupted, the transcript it leaves has alternating
-- roles, and each of its assistant messages is followed by a result for each of its calls in their
-- order, a last one having no calls.
pub step-IsClosed :
    (turn : Turn) (limit : Option ToolCallLimit) (cutoffs : Option CutoffLimit) (s : Session)
    → IsHonestTransport turn
    → IsReady s.messages
    → (out : TurnEnd) × (counted : Option CutoffLimit) × (step turn limit cutoffs s
        ≡ some (out, counted))
      × IsClosed (session_of out).messages
step-IsClosed turn limit cutoffs s honest h =
    let (out, counted, eq, ended) = step-Ended turn limit cutoffs s honest h in
    (out, counted, eq, Ended-IsClosed turn.asked.summary out ended)

-- Given a transcript whose roles alternate, which the user ends, and in which each assistant message is
-- followed by a result for each of its calls in their order, and given that each reply of the transport
-- lists the calls that its content holds, a turn that returns with the run still working, and is not the
-- summary, leaves a transcript of that same form, which the next turn may send.
pub step-IsReady :
    (turn : Turn) (limit : Option ToolCallLimit) (cutoffs : Option CutoffLimit) (s t : Session)
    (limit' : Option ToolCallLimit) (counted : Option CutoffLimit)
    → IsHonestTransport turn
    → IsReady s.messages
    → step turn limit cutoffs s ≡ some (TurnEnd.returned t limit', counted)
    → t.status ≡ working
    → turn.asked.summary ≡ false
    → IsReady t.messages
step-IsReady turn limit cutoffs s t limit' counted honest h e on ongoing =
    let (out, counted', eq, ended) = step-Ended turn limit cutoffs s honest h in
    by_end out ended (cc (sym eq ∙ e))
  where
    by_end :
        (out : TurnEnd)
        → Ended turn.asked.summary out
        → out ≡ TurnEnd.returned t limit'
        → IsReady t.messages
    by_end out ended same =
        let closes : Closes turn.asked.summary t = rw same at ended in closes.1 on ongoing
